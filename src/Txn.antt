-- ===== src/Txn.antt =====
-- src/txn: locks, snapshots, and the transaction manager.
pub mod Lock
pub mod Mvcc
pub mod Manager
pub mod Session
