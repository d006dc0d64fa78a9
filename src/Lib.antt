-- ===== src/Lib.antt =====
-- A model of TransactionDB, an embedded SQL database in C, with the theorems that make its parts
-- correct.
--
-- The program is a stack: an API over SQL execution and a catalog; storage engines over a B-tree;
-- a pager with a write-ahead log below; beside them the transaction manager with its locks and
-- snapshots. Rows, keys and catalog entries are records of values.
--
-- Util (src/common/tdb_util.c, src/common/tdb_buf.c, src/common/tdb_mem.c): variable-length and
-- big-endian integers, CRC-32C and FNV-1a, the growable buffer, the arena. Bytes are numbers below
-- 256, a pointer is the list of bytes from it on, and arithmetic on machine words is written with
-- its remainder.
-- Value (src/value/tdb_value.c, src/value/tdb_record.c): values, serial types, the record codec,
-- composites, the comparison of values and of encoded records (Value.Compare, Value.Keys;
-- src/value/tdb_type.c), type affinity (Value.Affinity), the names of SQL types (Value.Sqltype;
-- src/value/tdb_sqltype.c).
-- Txn (src/txn/tdb_lock.c, src/txn/tdb_mvcc.c, src/txn/tdb_txn.c): the lock table with its hash
-- buckets, snapshot visibility, the transaction manager. An operation under a mutex is one step.
-- Txn.Session takes the pager as a record of the operations that the manager calls.
-- Catalog (src/catalog/tdb_acl.c, src/catalog/tdb_schema.c): the access-control list: its tests,
-- GRANT and REVOKE, its entries as bytes (Catalog.Acl); the columns and indexes of a table
-- (Catalog.Schema).
-- Storage (src/storage/tdb_pager.c): the header of the file, the page cache, the free list,
-- commit, rollback and savepoints, over a record of the operations of the log and the file. Pages
-- are named by their numbers where the code has pointers. It gives the pager that Txn.Session
-- takes.
-- Storage.Wal (src/storage/tdb_wal.c): the write-ahead log: append, recovery, reads, checkpoint,
-- both versions of its format, over Storage.File (src/storage/tdb_file.c: what is called of a
-- file, and the file in memory) and Storage.Compress (src/storage/tdb_compress.c, where Zstandard
-- is a parameter). The theorems on logs are about the first version, whose frames are those of
-- Storage.Wal.Format; they ask of the file that it reads and writes its bytes.
-- Sql (src/sql/tdb_token.h, src/sql/tdb_lexer.c, and of src/sql/tdb_parser.c and
-- src/sql/tdb_exec_funcs.inc the code of literals): Sql.Token has the kinds and the keywords,
-- Sql.Lexer the lexer, in which a position is an offset in the source, and Sql.Literal the
-- printing and the decoding of string and blob literals.
-- Api (src/api/tdb_env.c): the environments that connections share, with their counts of
-- references, and the slot of the writer.
-- Status (include/transactiondb.h): the status codes. Base: what the modules share. Tests:
-- concrete runs, and the theorems at inputs that meet their hypotheses.
--
-- The allocator is an argument: a function that says whether it grants a request, or a truth value
-- for one request. Where the code does not check an allocation, the model does not either.
-- Loops are structural recursion, recursion on the accessibility of a number that falls, or fuel:
-- the doubling of a buffer's capacity has 65 rounds, and a capacity that doubles 64 times has
-- passed every size below 2 ^ 63. The scan of a log has as many rounds as the file has bytes, and
-- the array of pages doubles 33 times, enough for pages below 2 ^ 31; behind them the loop of the
-- code does not end, and the model's result says so.
-- Where records, composites, tokens and catalog entries cast a length to `int`, the model casts it,
-- as a pattern of 32 bits; where the code has no defined behaviour then, the result is `stuck` (or
-- `escaped`, for catalog entries).
-- A double is its 64-bit pattern. Who owns the bytes of a value, and the freeing of memory, are
-- not modelled. SQL execution, the parsers (but for literals), the B-tree, and the pager's open
-- and vacuum are not modelled.
pub mod Base
pub mod Status
pub mod Util
pub mod Value
pub mod Txn
pub mod Storage
pub mod Catalog
pub mod Sql
pub mod Api
pub mod Tests
