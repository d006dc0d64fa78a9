-- ===== src/Catalog.antt =====
-- catalog/: the catalog of the database.
pub mod Acl
pub mod Schema
