-- ===== src/Storage.antt =====
-- storage/: the file, its log, and the pages of the database.
pub mod File
pub mod Compress
pub mod Wal
pub mod Header
pub mod Pager
