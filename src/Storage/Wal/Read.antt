-- ===== src/Storage/Wal/Read.antt =====
-- `tdb_wal_read_page` and `tdb_wal_checkpoint`.
use transaction_db.Base.{
  ℕ, zero, suc, ◌+◌, ◌-◌, ◌*◌, ◌%◌, ◌^◌, ◌⊎◌, inl, inr, Bool, not, Option, none, some, List, length,
  get_or, replicate, leb, ◌==◌, if◌then◌else◌, bit_xor,
}
use transaction_db.Status.{Failure, nomem, corrupt}
use transaction_db.Util.BigEndian.{get_u32}
use transaction_db.Storage.File.{FileOps}
use transaction_db.Storage.Compress.{ZstdOps, decompress}
use transaction_db.Storage.Wal.{Wal, frame_offset, frame_header_size, header_size, write_header}
use transaction_db.Storage.Wal.Recover.{pad}

-- A page that was compressed; it must have the size of a page.
unfoldable pub exact_page : ℕ → Failure ⊎ List ℕ → Failure ⊎ List ℕ
exact_page size (inl e) = inl e
exact_page size (inr p) = if length p == size then inr p else inl corrupt

module _ (ops : FileOps) (z : Option ZstdOps) (mem : Bool) where
  open ops use {State, read}

  unfoldable pub found_page : Failure ⊎ List ℕ → Failure ⊎ Option (List ℕ)
  found_page (inl e) = inl e
  found_page (inr p) = inr (some p)

  -- The payload at `at` behind its prefix, whose codec is `codec`.
  unfoldable pub read_coded : State → ℕ → ℕ → ℕ → ℕ → Failure ⊎ List ℕ
  read_coded f size codec phys at =
      if codec == 0
      then (elim (read f phys at) [ inl e ↦ inl e | inr p ↦ inr (pad size p) ])
      else if not mem
      then inl nomem
      else (elim (read f phys at) [ inl e ↦ inl e | inr p ↦ exact_page size (decompress z size p) ])

  unfoldable pub read_at : Wal ops → ℕ → Failure ⊎ List ℕ
  read_at w at =
      if w.version == 2
      then (elim (read w.file 5 at) [
        | inl e ↦ inl e
        | inr prefix ↦ read_coded w.file w.page_size (get_or prefix 4 0) (get_u32 prefix) (at + 5)
      ])
      else read w.file w.page_size at

  -- The frame that the array gives for a page: `none` where it gives none.
  unfoldable pub frame_index : Wal ops → ℕ → Option ℕ
  frame_index w pgno =
      let slot = get_or w.slots pgno 0 in
      if slot == 0 then none else if leb w.nframe (slot - 1) then none else some (slot - 1)

  -- `tdb_wal_read_page`: `none` for `*found = 0`.
  unfoldable pub wal_read_page : Wal ops → ℕ → Failure ⊎ Option (List ℕ)
  wal_read_page w pgno = elim (frame_index w pgno) [
    | none ↦ inr none
    | some idx ↦ found_page (read_at w (frame_offset ops w idx + frame_header_size))
  ]

  module _ (db : FileOps) where
    -- The loop of `tdb_wal_checkpoint`, from page `p` on, with `k` pages to come.
    unfoldable pub write_back : Wal ops → ℕ → ℕ → db.State → Option Failure × db.State
    write_back w zero p d = (none, d)
    write_back w (suc k) p d =
        let rest = write_back w k (p + 1) d in
        elim (wal_read_page w p) [
          | inl e ↦ (some e, d)
          | inr none ↦ rest
          | inr (some page) ↦
              let (rc, d') = db.write d page ((p + (2 ^ 32 - 1)) % 2 ^ 32 * w.page_size) in
              elim rc [ some e ↦ (some e, d') | none ↦ write_back w k (p + 1) d' ]
        ]

    -- The new salts, by which the frames that are still in the file fail recovery.
    unfoldable pub reset_log : Wal ops → Wal ops
    reset_log w = record w {
      ckpt_seq = (w.ckpt_seq + 1) % 2 ^ 32;
      salt1 = (w.salt1 + 0x9E3779B9) % 2 ^ 32;
      salt2 = bit_xor w.salt2 0xA5A5A5A5;
      nframe = 0;
      slots = replicate (length w.slots) 0;
    }

    -- Truncating the log and writing its header again.
    unfoldable pub restart_log : Wal ops → Option Failure × Wal ops
    restart_log w =
        let (rc, s) = ops.truncate w.file 0 in
        let (rc', w') = write_header ops (record w { file = s }) in
        let (rc'', s'') = ops.sync w'.file in
        elim rc [
          | some e ↦ (some e, record w { file = s })
          | none ↦ elim rc' [
            | some e ↦ (some e, w')
            | none ↦ (rc'', record w' { file = s''; end_off = header_size })
          ]
        ]

    -- `tdb_wal_checkpoint` of the log into the file of the database.
    unfoldable pub wal_checkpoint : Wal ops → db.State → Option Failure × Wal ops × db.State
    wal_checkpoint w d =
        let (rc, d') = write_back w (length w.slots) 0 d in
        let (rc', d'') = db.sync d' in
        if not mem then (some nomem, w, d) else (elim rc [
          | some e ↦ (some e, w, d')
          | none ↦ elim rc' [
            | some e ↦ (some e, w, d'')
            | none ↦ let (rc'', w') = restart_log (reset_log w) in (rc'', w', d'')
          ]
        ])
