-- ===== src/Tests.antt =====
-- Runs on concrete inputs, and the theorems at inputs where their hypotheses hold.
mod Util
mod Value
mod Txn
mod Catalog
mod Storage
mod Wal
mod Sql
mod Api
