-- ===== src/Catalog/Acl/Serial/Escape.antt =====
-- Where the reader of an entry leaves the bytes that it was given.
