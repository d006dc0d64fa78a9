-- ===== src/Api.antt =====
-- api/: what the connections of a process share.
pub mod Env
