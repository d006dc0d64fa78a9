-- ===== src/Storage/Wal/Append.antt =====
-- `tdb_wal_append`.
pub mod Writes
pub mod Durable
pub mod Commit
use transaction_db.Base.{
  ℕ, zero, suc, ◌+◌, ◌-◌, ◌*◌, ◌%◌, ◌^◌, ◌⊎◌, inl, inr, Bool, true, false, ◌&&◌, not, Option, none,
  some, List, [], ◌∷◌, ◌++◌, length, take, drop, get_or, set, leb, ltb, ◌==◌, if◌then◌else◌,
}
use transaction_db.Status.{Failure, nomem, Result, ok, err, stuck, ◌>>=◌, ◌>>◌}
use transaction_db.Util.BigEndian.{put_u32, get_u32}
use transaction_db.Storage.File.{FileOps}
use transaction_db.Storage.Compress.{ZstdOps, compress_codec, bound_of, compress}
use transaction_db.Storage.Wal.{
  Wal, frame_checksum, frame_offset, put_offset, map_ensure, frame_header_size,
}

-- The first 16 bytes of a frame: the page, the size of the database in a commit frame, the salts.
unfoldable pub frame_prefix : ℕ → ℕ → ℕ → ℕ → List ℕ
frame_prefix pgno size salt1 salt2 =
    put_u32 pgno ++ (put_u32 size ++ (put_u32 salt1 ++ put_u32 salt2))

-- The header of a frame, with its checksums.
unfoldable pub frame_header : ℕ → List ℕ → List ℕ → List ℕ
frame_header seed prefix page =
    let (c1, c2) = frame_checksum seed prefix page in prefix ++ (put_u32 c1 ++ put_u32 c2)

-- A payload: its codec and its bytes.
unfoldable pub smaller : Option ZstdOps → List ℕ → Failure ⊎ List ℕ → ℕ × List ℕ
smaller z page (inl e) = (0, page)
smaller z page (inr p) = if ltb (length p) (length page) then (compress_codec z, p) else (0, page)

-- The payload of a frame: compressed where the version, the build and the size allow it.
unfoldable pub payload : Option ZstdOps → ℕ → List ℕ → ℕ × List ℕ
payload z version page =
    if version == 2 && not (compress_codec z == 0)
    then smaller z page (compress z (bound_of z (length page)) page)
    else (0, page)

-- What stands behind the header of a frame.
unfoldable pub payload_prefix : ℕ → ℕ × List ℕ → List ℕ
payload_prefix version (codec, p) = if version == 2 then put_u32 (length p) ++ (codec ∷ []) else []

-- The size that a commit frame records.
unfoldable pub committed_size : ℕ → Option ℕ → ℕ
committed_size size none = size
committed_size size (some n) = n

module _ (ops : FileOps) (z : Option ZstdOps) (mem : Bool) where
  open ops use {State, read, write}

  -- The first checksum of the frame before the one that is appended.
  unfoldable pub seed_of : Wal ops → Failure ⊎ ℕ
  seed_of w =
      if w.nframe == 0
      then inr w.salt1
      else (elim (read w.file frame_header_size (frame_offset ops w (w.nframe - 1))) [
        | inl e ↦ inl e
        | inr prev ↦ inr (get_u32 (drop 16 prev))
      ])

  -- The end of `tdb_wal_append`, behind the offsets.
  unfoldable pub index_page : Wal ops → ℕ → Option ℕ → Result (Option Failure × Wal ops)
  index_page w pgno commit = elim (map_ensure mem w.slots pgno) [
    | err e ↦ ok (some e, w)
    | stuck ↦ stuck
    | ok slots ↦ ok (
      none,
      record w {
        slots = set slots pgno (w.nframe + 1);
        nframe = w.nframe + 1;
        db_size = committed_size w.db_size commit;
      },
    )
  ]

  -- The same with the offsets, once the frame is in the file from `off` to `end`.
  unfoldable pub index_frame : Wal ops → ℕ → ℕ → ℕ → Option ℕ → Result (Option Failure × Wal ops)
  index_frame w pgno off end commit =
      elim (if w.version == 2 then put_offset mem w.offsets w.nframe off else ok w.offsets) [
        | err e ↦ ok (some e, w)
        | stuck ↦ stuck
        | ok offsets ↦ index_page (record w { offsets = offsets; end_off = end }) pgno commit
      ]

  -- The writes behind the header of the frame.
  unfoldable pub write_payload :
      Wal ops → ℕ → ℕ → Option ℕ → ℕ × List ℕ → Result (Option Failure × Wal ops)
  write_payload w pgno off commit p =
      let prefix = payload_prefix w.version p in
      let at = off + frame_header_size in
      let (rc, s) = (if w.version == 2 then write w.file prefix at else (none, w.file)) in
      elim rc [
        | some e ↦ ok (some e, record w { file = s })
        | none ↦
            let (rc', s') = write s p.1 (at + length prefix) in
            elim rc' [
              | some e ↦ ok (some e, record w { file = s' })
              | none ↦
                  index_frame (record w { file = s' }) pgno off (at + length prefix + length p.1)
                    commit
            ]
      ]

  -- Where the frame goes.
  unfoldable pub append_off : Wal ops → ℕ
  append_off w = if w.version == 2 then w.end_off else frame_offset ops w w.nframe

  unfoldable pub write_frame :
      Wal ops → ℕ → List ℕ → Option ℕ → ℕ → Result (Option Failure × Wal ops)
  write_frame w pgno page commit seed =
      let size = committed_size 0 commit in
      let header = frame_header seed (frame_prefix pgno size w.salt1 w.salt2) page in
      let (rc, s) = write w.file header (append_off w) in
      elim rc [
        | some e ↦ ok (some e, record w { file = s })
        | none ↦
            if not mem && w.version == 2 && not (compress_codec z == 0)
            then ok (some nomem, record w { file = s })
            else write_payload (record w { file = s }) pgno (append_off w) commit
                (payload z w.version page)
      ]

  -- `tdb_wal_append`: `commit` is the size of the database for a commit frame.
  unfoldable pub wal_append : Wal ops → ℕ → List ℕ → Option ℕ → Result (Option Failure × Wal ops)
  wal_append w pgno page commit = elim (seed_of w) [
    | inl e ↦ ok (some e, w)
    | inr seed ↦ write_frame w pgno page commit seed
  ]
