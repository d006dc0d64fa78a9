-- ===== src/Storage/Wal.antt =====
-- storage/tdb_wal.c: the write-ahead log over the operations of a file. `mem` says whether memory is
-- granted. The array from pages to frames is the list `slots`, with 0 for a page that has no frame.
pub mod Append
pub mod Recover
pub mod Read
pub mod Format
pub mod Slots
use transaction_db.Base.{
  ℕ, zero, suc, ◌+◌, ◌-◌, ◌*◌, ◌%◌, ◌^◌, ◌⊎◌, inl, inr, Bool, true, false, ◌&&◌, not, Option, none,
  some, List, [], ◌∷◌, ◌++◌, length, take, drop, get_or, set, replicate, leb, ltb, ◌==◌,
  if◌then◌else◌,
}
use transaction_db.Status.{Failure, nomem, Result, ok, err, stuck}
use transaction_db.Util.BigEndian.{put_u32, get_u32}
use transaction_db.Util.Checksum.{crc32c}
use transaction_db.Storage.File.{FileOps}

-- `frame_checksum`
unfoldable pub frame_checksum : ℕ → List ℕ → List ℕ → ℕ × ℕ
frame_checksum seed hdr page = (crc32c (crc32c seed hdr) page, crc32c (crc32c 0 hdr) page)

abbrev pub wal_magic : ℕ
wal_magic = 0x7764424B

-- `TDB_WAL_HDR_SIZE` and `TDB_WAL_FRAME_HDR_SIZE`
abbrev pub header_size : ℕ
header_size = 32

abbrev pub frame_header_size : ℕ
frame_header_size = 24

-- The capacity of the array of slots, doubled in 32 bits, with fuel: `none` where the loop of
-- `map_ensure` does not end.
unfoldable pub slot_cap : ℕ → ℕ → ℕ → Option ℕ
slot_cap zero cap pgno = none
slot_cap (suc f) cap pgno =
    let rest = slot_cap f (cap * 2 % 2 ^ 32) pgno in if leb cap pgno then rest else some cap

unfoldable pub extend_slots : Bool → List ℕ → Option ℕ → Result (List ℕ)
extend_slots mem slots none = stuck
extend_slots mem slots (some cap) =
    if mem then ok (slots ++ replicate (cap - length slots) 0) else err nomem

-- `map_ensure`
unfoldable pub map_ensure : Bool → List ℕ → ℕ → Result (List ℕ)
map_ensure mem slots pgno =
    if ltb pgno (length slots)
    then ok slots
    else extend_slots mem slots (slot_cap 34 (if length slots == 0 then 64 else length slots) pgno)

-- `offsets_ensure`, then `offsets[idx] = off`. The entries between are not set.
unfoldable pub put_offset : Bool → List ℕ → ℕ → ℕ → Result (List ℕ)
put_offset mem offsets idx off =
    if ltb idx (length offsets)
    then ok (set offsets idx off)
    else if mem
    then ok (set (offsets ++ replicate (idx + 1 - length offsets) 0) idx off)
    else err nomem

module _ (ops : FileOps) where
  open ops use {State, write}

  -- `tdb_wal`
  pub record Wal : Type 0 where
    pub file : State
    pub page_size : ℕ
    pub version : ℕ
    pub salt1 : ℕ
    pub salt2 : ℕ
    pub ckpt_seq : ℕ
    pub nframe : ℕ
    pub db_size : ℕ
    pub slots : List ℕ
    pub offsets : List ℕ
    pub end_off : ℕ

  -- `frame_stride`, which is set once from the page size.
  unfoldable pub frame_stride : Wal → ℕ
  frame_stride w = (frame_header_size + w.page_size) % 2 ^ 32

  unfoldable pub frame_offset : Wal → ℕ → ℕ
  frame_offset w idx =
      if w.version == 2 && ltb 0 (length w.offsets)
      then get_or w.offsets idx 0
      else header_size + idx * frame_stride w

  -- The 24 bytes before the checksums of the header of the log.
  unfoldable pub header_body : Wal → List ℕ
  header_body w =
      put_u32 wal_magic
      ++ (put_u32 w.version
          ++ (put_u32 w.page_size ++ (put_u32 w.ckpt_seq ++ (put_u32 w.salt1 ++ put_u32 w.salt2))))

  unfoldable pub header_bytes : Wal → List ℕ
  header_bytes w =
      header_body w
      ++ (put_u32 (crc32c w.salt1 (header_body w)) ++ put_u32 (crc32c 0 (header_body w)))

  unfoldable pub write_header : Wal → Option Failure × Wal
  write_header w = let (rc, s) = write w.file (header_bytes w) 0 in (rc, record w { file = s })
