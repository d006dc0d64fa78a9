-- ===== src/Storage/Wal/Recover/Durable.antt =====
-- Recovery of a log of the first version: the frames up to its last commit, and no others, are read.
use transaction_db.Base.{
  ℕ, zero, suc, ◌+◌, ◌*◌, ◌^◌, ◌<◌, ◌≤◌, ◌≡◌, refl, sym, ap, ◌∙◌, inl, inr, Bool, true, Option,
  none, some, List, [], ◌∷◌, ◌++◌, arith, length, take, drop, get_or, replicate, append_assoc,
  take-append-drop, length-append, length-take, All, ◌==◌, if◌then◌else◌,
}
use transaction_db.Status.{ok}
use transaction_db.Storage.File.{FileOps}
use transaction_db.Storage.Compress.{ZstdOps}
use transaction_db.Storage.Wal.{Wal, frame_stride, header_bytes, frame_offset}
use transaction_db.Storage.Wal.Slots.{get_or-zeros}
use transaction_db.Storage.Wal.Recover.{Scan, rebuild, scan, start_scan, recover}
use transaction_db.Storage.Wal.Recover.Start.{
  IsLog, length-log_bytes, length-header_bytes, adopt_header-header_bytes, finish_log, recover_step,
}
use transaction_db.Storage.Wal.Read.{read_at, wal_read_page}
use transaction_db.Storage.Wal.Format.{
  Logged, IsLogged, Salts, log_bytes, last_seed, log_bytes-append, read_bytes-there, IsReadable,
}
use transaction_db.Storage.Wal.Recover.Log.{
  drop-drop, first_log, accept_all, last_commit, last_size, scan-log_bytes,
}
use transaction_db.Storage.Wal.Recover.Map.{
  latest_slot, latest_page, Agree, latest-Agree, accept_all-committed, rebuild-log_bytes,
  read-latest, offset_lem,
}

-- The frames up to the last commit.
abbrev pub committed_of : List Logged → List Logged
committed_of es = take (last_commit 0 0 es) es

last_commit_bound : (i c : ℕ) (es : List Logged) → c ≤ i → last_commit i c es ≤ i + length es
last_commit_bound i c [] h = omega arith
last_commit_bound i c (e ∷ es) h =
    omega (arith, last_commit_bound (i + 1) (if e.size == 0 then c else i + 1) es (ground arith))

All-take {ℓ κ} : {A : Type ℓ} (P : A → Type κ) (n : ℕ) (xs : List A) → All P xs → All P (take n xs)
All-take P zero xs h = tt
All-take P (suc n) [] h = h
All-take P (suc n) (x ∷ xs) (h, hs) = (h, All-take P n xs hs)

module _ (ops : FileOps) (z : Option ZstdOps) (r : IsReadable ops) (w : Wal ops) (s : Salts)
    (seq : ℕ) (es : List Logged) (tail : List ℕ) (log : IsLog ops r w s seq es tail) where
  open log use {salt1_fits, salt2_fits, seq_fits, small, frames, pages, torn, content}

  abbrev first : Wal ops
  first = first_log ops w s seq

  abbrev stop : ℕ
  stop = last_commit 0 0 es

  abbrev whole_scan : Scan
  whole_scan = accept_all s w.page_size (start_scan ops z s.salt1) es

  behind_header : drop 32 (r.bytes w.file) ≡ log_bytes s s.salt1 es ++ tail
  behind_header =
      drop-drop 0 32 (header_bytes ops first) (log_bytes s s.salt1 es ++ tail)
        (length-header_bytes ops z first) (r.bytes w.file) content

  file_long : 32 + length es ≤ length (r.bytes w.file)
  file_long = rw content (
      omega (
        arith,
        length-append (header_bytes ops first) (log_bytes s s.salt1 es ++ tail),
        length-append (log_bytes s s.salt1 es) tail,
        length-header_bytes ops z first,
        length-log_bytes s w.page_size s.salt1 es salt1_fits salt2_fits frames,
      ))

  scanned :
      scan ops z
        (length (r.bytes w.file) + 1)
        first
        (length (r.bytes w.file))
        (start_scan ops z s.salt1)
      ≡ some whole_scan
  unfolding start_scan
  scanned =
      scan-log_bytes ops z r w s seq salt1_fits salt2_fits (length (r.bytes w.file) + 1)
        (start_scan ops z s.salt1) es tail frames behind_header torn (omega (arith, file_long))

  stop_inside : length (committed_of es) ≡ stop
  stop_inside = omega (arith, length-take stop es, last_commit_bound 0 0 es (omega arith))

  -- The committed frames, and behind them the frames that are not.
  split_log :
      drop 32 (r.bytes w.file)
      ≡ log_bytes s s.salt1 (committed_of es)
        ++ (log_bytes s (last_seed s s.salt1 (committed_of es)) (drop stop es) ++ tail)
  split_log =
      behind_header
      ∙ ap (λ (t : List Logged). log_bytes s s.salt1 t ++ tail) (sym (take-append-drop stop es))
      ∙ rw (log_bytes-append s s.salt1 (committed_of es) (drop stop es)) (simp append_assoc refl)

  recovers :
      (slots : List ℕ)
      → rebuild ops z true first stop 0 (replicate (length w.slots) 0) ≡ ok slots
      → recover ops z true w
        ≡ ok (record first {
          slots = slots;
          nframe = whole_scan.committed;
          db_size = whole_scan.committed_size;
          end_off = whole_scan.committed_end;
        })
  unfolding start_scan
  recovers slots rebuilt =
      let (c, d) =
        accept_all-committed s w.page_size (start_scan ops z s.salt1) es salt1_fits salt2_fits
          frames in
      let read : ops.read w.file 32 0 ≡ inr (header_bytes ops first) =
        r.reads w.file 32 0
        ∙ ap inr (
            read_bytes-there (r.bytes w.file) (header_bytes ops first) _ 32 0 content
              (length-header_bytes ops z first)) in
      recover_step ops z w first (length (r.bytes w.file)) (header_bytes ops first) whole_scan
        (r.sized w.file) (omega (arith, file_long)) read
        (adopt_header-header_bytes ops z w s seq salt1_fits salt2_fits seq_fits small) scanned
      ∙ finish_log ops z w s seq whole_scan slots (rw c rebuilt)

  -- What recovery gives: the number of the committed frames, the size of the last commit, and of each
  -- page the last image among the committed frames.
  abbrev pub HasRecovered : Wal ops → Type 0
  HasRecovered w' =
      (w'.nframe ≡ stop)
      × (w'.db_size ≡ last_size 0 es)
      × ((mem : Bool) (p : ℕ)
          → wal_read_page ops z mem w' p ≡ inr (latest_page p none (committed_of es)))

  -- Where reads of the file give its bytes, and the file holds a log of the first version (its header,
  -- whole frames for pages below 2 ^ 31 of a size below 2 ^ 31, and behind them bytes that are too
  -- short for a frame or fail the salts or the checksums), `recover` with memory granted succeeds.
  -- The log it gives counts the frames up to the last commit frame and the size which that one
  -- records, and `tdb_wal_read_page` gives for every page its last image among those frames, and
  -- no page where they have none. Frames behind the last commit are never seen.
  pub recover-log_bytes : (w' : Wal ops) × (recover ops z true w ≡ ok w') × HasRecovered w'
  unfolding start_scan
  recover-log_bytes =
      let (c, d) =
        accept_all-committed s w.page_size (start_scan ops z s.salt1) es salt1_fits salt2_fits
          frames in
      let (slots, rebuilt, held) =
        rebuild-log_bytes ops z r w s seq salt1_fits salt2_fits small 0 s.salt1 (committed_of es)
          (log_bytes s (last_seed s s.salt1 (committed_of es)) (drop stop es) ++ tail)
          (replicate (length w.slots) 0) (All-take (IsLogged w.page_size) stop es frames)
          (All-take (λ e. e.pgno < 2 ^ 31) stop es pages)
          (let start : 32 + 0 * (24 + w.page_size) ≡ 32 = omega arith in rw start split_log) in
      let w' : Wal ops = record first {
        slots = slots;
        nframe = whole_scan.committed;
        db_size = whole_scan.committed_size;
        end_off = whole_scan.committed_end;
      } in
      let slot_of : (p : ℕ) → get_or slots p 0 ≡ latest_slot p 0 0 (committed_of es) =
        λ p. held p ∙ rw (get_or-zeros (length w.slots) p) refl in
      let pointed : (p : ℕ)
          → Agree (committed_of es) (latest_slot p 0 0 (committed_of es))
              (latest_page p none (committed_of es)) =
        λ p.
          latest-Agree (committed_of es) p 0 0 none (committed_of es)
            (λ j. let none_before : 0 + j ≡ j = omega arith in rw none_before refl)
            (inl (refl, refl)) in
      (
        w',
        recovers slots (rw stop_inside at rebuilt),
        (
          c,
          d,
          λ mem p.
              read-latest ops z r w s seq salt1_fits salt2_fits small mem p (committed_of es)
                (log_bytes s (last_seed s s.salt1 (committed_of es)) (drop stop es) ++ tail) w'
                (All-take (IsLogged w.page_size) stop es frames) split_log
                (latest_slot p 0 0 (committed_of es)) (slot_of p) (pointed p) (c ∙ sym stop_inside)
                refl (λ at. unfold read_at in refl)
                (λ j.
                  unfold frame_offset frame_stride in
                  (offset_lem ops z r w s seq salt1_fits salt2_fits small j)),
        ),
      )
