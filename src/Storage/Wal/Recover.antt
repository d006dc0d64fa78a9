-- ===== src/Storage/Wal/Recover.antt =====
-- `recover` and `tdb_wal_open`: the frames of a log that is there are validated, and the map is built
-- from those up to the last commit.
pub mod Log
pub mod Start
pub mod Map
pub mod Durable
use transaction_db.Base.{
  ℕ, zero, suc, ◌+◌, ◌-◌, ◌*◌, ◌/◌, ◌%◌, ◌^◌, ◌⊎◌, inl, inr, Bool, true, false, ◌&&◌, ◌||◌, not,
  Option, none, some, List, [], ◌∷◌, ◌++◌, length, take, drop, get_or, set, replicate, leb, ltb,
  ◌==◌, if◌then◌else◌, bit_xor,
}
use transaction_db.Status.{Failure, nomem, Result, ok, err, stuck, ◌>>=◌, ◌>>◌}
use transaction_db.Util.BigEndian.{put_u32, get_u32}
use transaction_db.Util.Checksum.{fnv1a}
use transaction_db.Storage.File.{FileOps}
use transaction_db.Storage.Compress.{ZstdOps, compress_codec, decompress}
use transaction_db.Storage.Wal.{
  Wal, frame_checksum, frame_offset, put_offset, map_ensure, frame_header_size, header_size,
  wal_magic, write_header,
}

-- A frame as it is read: its header, the page it holds, the offset behind it.
pub record Frame : Type 0 where
  pub header : List ℕ
  pub page : List ℕ
  pub next_off : ℕ

-- Where the scan stands. `rolling` is the first checksum of the frame before.
pub record Scan : Type 0 where
  pub off : ℕ
  pub idx : ℕ
  pub rolling : ℕ
  pub committed : ℕ
  pub committed_size : ℕ
  pub committed_end : ℕ
  pub starts : List ℕ

unfoldable pub frame_page : List ℕ → ℕ
frame_page header = get_u32 header

unfoldable pub frame_db_size : List ℕ → ℕ
frame_db_size header = get_u32 (drop 4 header)

-- The first `n` bytes, with zeros behind.
unfoldable pub pad : ℕ → List ℕ → List ℕ
pad n p = p ++ replicate (n - length p) 0

-- The page from a payload that was compressed; it must have the size of a page.
unfoldable pub whole_page : ℕ → Failure ⊎ List ℕ → Option (List ℕ)
whole_page size (inl e) = none
whole_page size (inr p) = if length p == size then some p else none

unfoldable pub page_of : Option ZstdOps → ℕ → ℕ → ℕ → List ℕ → Option (List ℕ)
page_of z version codec size p =
    if version == 2 && not (codec == 0)
    then whole_page size (decompress z size p)
    else some (pad size p)

unfoldable pub frame_of : List ℕ → ℕ → Option (List ℕ) → Option Frame
frame_of header next none = none
frame_of header next (some page) = some (record { header = header; page = page; next_off = next })

-- The tests on a frame: its salts, and both checksums. `some` is the first checksum.
unfoldable pub check_frame : ℕ → ℕ → ℕ → Frame → Option ℕ
check_frame salt1 salt2 rolling f =
    let (c1, c2) = frame_checksum rolling (take 16 f.header) f.page in
    if not (get_u32 (drop 8 f.header) == salt1) || not (get_u32 (drop 12 f.header) == salt2)
    then none
    else if not (c1 == get_u32 (drop 16 f.header)) || not (c2 == get_u32 (drop 20 f.header))
    then none
    else some c1

-- What the loop does with a frame that passed.
unfoldable pub accept : Scan → Frame → ℕ → Scan
accept s f c1 =
    let size = frame_db_size f.header in
    let on = record s {
      off = f.next_off;
      idx = s.idx + 1;
      rolling = c1;
      starts = s.starts ++ (s.off ∷ []);
    } in
    if size == 0
    then on
    else record on { committed = s.idx + 1; committed_size = size; committed_end = f.next_off }

module _ (ops : FileOps) (z : Option ZstdOps) where
  open ops use {State, read, file_size}

  -- The payload from `at` on.
  unfoldable pub read_payload : State → ℕ → ℕ → ℕ → ℕ → ℕ → List ℕ → Option Frame
  read_payload f version size codec phys at header = elim (read f phys at) [
    | inl e ↦ none
    | inr p ↦ frame_of header (at + phys) (page_of z version codec size p)
  ]

  -- The prefix of a payload of the second version.
  unfoldable pub read_prefixed : State → ℕ → ℕ → ℕ → List ℕ → List ℕ → Option Frame
  read_prefixed f fsize size at header prefix =
      let phys = get_u32 prefix in
      if ltb size phys || ltb fsize (at + 5 + phys)
      then none
      else read_payload f 2 size (get_or prefix 4 0) phys (at + 5) header

  -- The frame at `off`, in a file of `fsize` bytes; `none` where the loop ends before its checks.
  unfoldable pub read_frame : State → ℕ → ℕ → ℕ → ℕ → Option Frame
  read_frame f fsize version size off = elim (read f frame_header_size off) [
    | inl e ↦ none
    | inr header ↦
        let at = off + frame_header_size in
        if version == 2
        then (if ltb fsize (at + 5) then none else (elim (read f 5 at) [
          | inl e ↦ none
          | inr prefix ↦ read_prefixed f fsize size at header prefix
        ]))
        else if ltb fsize (at + size)
        then none
        else read_payload f 1 size 0 size at header
  ]

  -- One turn of the loop: the scan behind the frame, or `none` where the loop ends.
  unfoldable pub scan_frame : Wal ops → ℕ → Scan → Option Scan
  scan_frame w fsize s =
      if ltb fsize (s.off + frame_header_size)
      then none
      else (elim (read_frame w.file fsize w.version w.page_size s.off) [
        | none ↦ none
        | some f ↦ elim (check_frame w.salt1 w.salt2 s.rolling f) [
          | none ↦ none
          | some c1 ↦ some (accept s f c1)
        ]
      ])

  -- The loop, with fuel.
  unfoldable pub scan : ℕ → Wal ops → ℕ → Scan → Option Scan
  scan zero w fsize s = none
  scan (suc k) w fsize s = elim (scan_frame w fsize s) [
    | none ↦ some s
    | some s' ↦ scan k w fsize s'
  ]

  -- The map of the committed frames, from `i` on, with `k` of them to come. A frame that cannot be
  -- read ends it.
  unfoldable pub rebuild : Bool → Wal ops → ℕ → ℕ → List ℕ → Result (List ℕ)
  rebuild mem w zero i slots = ok slots
  rebuild mem w (suc k) i slots = elim (read w.file frame_header_size (frame_offset ops w i)) [
    | inl e ↦ ok slots
    | inr header ↦ do
      slots' ← map_ensure mem slots (frame_page header)
      rebuild mem w k (i + 1) (set slots' (frame_page header) (i + 1))
  ]

  unfoldable pub start_scan : ℕ → Scan
  start_scan salt1 = record {
    off = header_size;
    idx = 0;
    rolling = salt1;
    committed = 0;
    committed_size = 0;
    committed_end = header_size;
    starts = [];
  }

  -- The end of `recover`: `w` has the fields of the header of the log.
  unfoldable pub finish_recover : Bool → Wal ops → Option Scan → Result (Wal ops)
  finish_recover mem w none = stuck
  finish_recover mem w (some s) = do
    let w' = record w { offsets = (if w.version == 2 then s.starts else w.offsets) }
    slots ← rebuild mem w' s.committed 0 (replicate (length w.slots) 0)
    ok (record w' {
      slots = slots;
      nframe = s.committed;
      db_size = s.committed_size;
      end_off = s.committed_end;
    })

  -- The fields that the header of a log gives; `none` where it is no log of this page size.
  unfoldable pub adopt_header : Wal ops → List ℕ → Option (Wal ops)
  adopt_header w h =
      let version = get_u32 (drop 4 h) in
      if not (get_u32 h == wal_magic)
      then none
      else if not (version == 1) && not (version == 2)
      then none
      else if not (get_u32 (drop 8 h) == w.page_size)
      then none
      else some (record w {
        version = version;
        salt1 = get_u32 (drop 16 h);
        salt2 = get_u32 (drop 20 h);
        ckpt_seq = get_u32 (drop 12 h);
      })

  unfoldable pub recover_from : Bool → Wal ops → ℕ → Option (Wal ops) → Result (Wal ops)
  recover_from mem w fsize none = ok w
  recover_from mem w fsize (some w') =
      if mem
      then finish_recover mem w' (scan (fsize + 1) w' fsize (start_scan w'.salt1))
      else err nomem

  -- `recover`
  unfoldable pub recover : Bool → Wal ops → Result (Wal ops)
  recover mem w = elim (file_size w.file) [
    | inl e ↦ err e
    | inr fsize ↦ if ltb fsize header_size then ok w else (elim (read w.file header_size 0) [
      | inl e ↦ err e
      | inr h ↦ recover_from mem w fsize (adopt_header w h)
    ])
  ]

  -- The bytes of the page size in memory, the lowest first, as `tdb_fnv1a` is called.
  unfoldable pub size_bytes : ℕ → List ℕ
  size_bytes n = n % 256 ∷ n / 2 ^ 8 % 256 ∷ n / 2 ^ 16 % 256 ∷ n / 2 ^ 24 % 256 ∷ []

  unfoldable pub fresh_wal : State → ℕ → Wal ops
  fresh_wal f size = record {
    file = f;
    page_size = size;
    version = (if compress_codec z == 0 then 1 else 2);
    salt1 = bit_xor (fnv1a (size_bytes size) % 2 ^ 32) 0x9E3779B9;
    salt2 = 0x1234567;
    ckpt_seq = 0;
    nframe = 0;
    db_size = 0;
    slots = [];
    offsets = [];
    end_off = header_size;
  }

  -- The end of `tdb_wal_open`: a log with no committed frame gets a header.
  unfoldable pub begin_log : Wal ops → Result (Wal ops)
  begin_log w =
      let (rc, w') = write_header ops w in
      if w.nframe == 0
      then (elim rc [ some e ↦ err e | none ↦ ok (record w' { end_off = header_size }) ])
      else ok w

  -- `tdb_wal_open`
  unfoldable pub wal_open : Bool → State → ℕ → Result (Wal ops)
  wal_open mem f size = do
    w ← (if mem then recover mem (fresh_wal f size) else err nomem)
    begin_log w
