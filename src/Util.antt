-- ===== src/Util.antt =====
-- src/common/tdb_util.c and src/common/tdb_buf.c: variable-length integers, big-endian integers,
-- checksums, and the growable byte buffer. A byte array is a list of numbers below 256.
pub mod Varint
pub mod BigEndian
pub mod Buf
pub mod Arena
pub mod Checksum
