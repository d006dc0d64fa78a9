-- ===== src/Storage/Wal/Append/Durable.antt =====
-- A frame that `tdb_wal_append` adds to a log of the first version is in the file and in the map, and
-- a commit frame makes all frames before it part of what recovery gives.
use transaction_db.Base.{
  ℕ, suc, ◌+◌, ◌*◌, ◌^◌, ◌<◌, ◌≤◌, ◌≡◌, refl, sym, ap, ◌∙◌, inl, inr, Bool, true, false, Option,
  none, List, [], ◌∷◌, ◌++◌, arith, length, take, drop, get_or, set, append_assoc, append-nil,
  take-append, length-append, ◌==◌, if◌then◌else◌,
}
use transaction_db.Status.{ok}
use transaction_db.Storage.File.{FileOps}
use transaction_db.Storage.Compress.{ZstdOps}
use transaction_db.Storage.Wal.{Wal, frame_offset, map_ensure, header_body, header_bytes}
use transaction_db.Storage.Wal.Slots.{get_or-set, map_ensure_lem}
use transaction_db.Storage.Wal.Append.{committed_size, wal_append}
use transaction_db.Storage.Wal.Read.{read_at, wal_read_page}
use transaction_db.Storage.Wal.Format.{
  Logged, IsLogged, Salts, header_of, log_bytes, last_seed, log_bytes-append, header_of-fields,
  IsReadable,
}
use transaction_db.Storage.Wal.Recover.Log.{drop-drop, first_log, last_commit, last_size, IsTorn}
use transaction_db.Storage.Wal.Recover.Start.{IsLog, length-header_bytes}
use transaction_db.Storage.Wal.Recover.Map.{latest_slot, latest_page, latest-Agree, read-latest}
use transaction_db.Storage.Wal.Recover.Durable.{committed_of}
use transaction_db.Storage.Wal.Append.Writes.{
  IsWritable, open_log, overwrite-append, length-log_bytes_exact, All-join, wal_append_step,
  offset_open, seed_of-log_bytes,
}

-- The frame that an append writes.
abbrev pub frame_for : ℕ → List ℕ → Option ℕ → Logged
frame_for pgno page commit = record { pgno = pgno; size = committed_size 0 commit; page = page }

-- An open log: its file is a log with the frames `es`, and its map has their slots.
abbrev pub IsOpen :
    (ops : FileOps) → IsReadable ops → Wal ops → Salts → ℕ → List Logged → List ℕ → Type 0
IsOpen ops r w s seq es tail =
    IsLog ops r w s seq es tail × ((p : ℕ) → get_or w.slots p 0 ≡ latest_slot p 0 0 es)

latest_slot-append :
    (p i d : ℕ) (es : List Logged) (e : Logged)
    → latest_slot p i d (es ++ (e ∷ []))
      ≡ (if e.pgno == p then i + length es + 1 else latest_slot p i d es)
latest_slot-append p i d [] e = let none_before : i + 0 ≡ i = omega arith in rw none_before refl
latest_slot-append p i d (f ∷ es) e =
    let later : i + suc (length es) ≡ i + 1 + length es = omega arith in
    rw later (latest_slot-append p (i + 1) (if f.pgno == p then i + 1 else d) es e)

module _ (ops : FileOps) (z : Option ZstdOps) (r : IsReadable ops) (wr : IsWritable ops r)
    (w : Wal ops) (s : Salts) (seq : ℕ) (es : List Logged) (tail : List ℕ)
    (log : IsOpen ops r w s seq es tail) where
  abbrev log_of : IsLog ops r w s seq es tail
  log_of = log.0

  open log_of use {salt1_fits, salt2_fits, seq_fits, small, frames, pages, torn, content}

  abbrev head : List ℕ
  head = header_bytes ops (first_log ops w s seq)

  abbrev end : ℕ
  end = 32 + length es * (24 + w.page_size)

  front_long : length (head ++ log_bytes s s.salt1 es) ≡ end
  front_long = omega (
    arith,
    length-append head (log_bytes s s.salt1 es),
    length-header_bytes ops z (first_log ops w s seq),
    length-log_bytes_exact s w.page_size s.salt1 es salt1_fits salt2_fits frames,
  )

  -- The two writes of an append.
  frame_written :
      (e : Logged)
      → IsLogged w.page_size e
      → r.bytes
          (ops.write
            (ops.write w.file (header_of s (last_seed s s.salt1 es) e) end).1
            e.page
            (end + 24)).1
        ≡ head ++ (log_bytes s s.salt1 (es ++ (e ∷ [])) ++ drop w.page_size (drop 24 tail))
  frame_written e he =
      let seed : ℕ = last_seed s s.salt1 es in
      let h : List ℕ = header_of s seed e in
      let front : List ℕ = head ++ log_bytes s s.salt1 es in
      let hf = header_of-fields s salt1_fits salt2_fits w.page_size seed e he in
      let b₀ : r.bytes w.file ≡ front ++ tail = content ∙ simp append_assoc refl in
      let room₀ : end ≤ length (r.bytes w.file) =
        rw b₀ (omega (arith, length-append front tail, front_long)) in
      let f₁ : ops.State = (ops.write w.file h end).1 in
      let b₁ : r.bytes f₁ ≡ (front ++ h) ++ drop 24 tail =
        wr.written w.file h end room₀
        ∙ rw b₀ (
            overwrite-append front tail h end front_long
            ∙ rw hf.long (sym (append_assoc front h (drop 24 tail)))) in
      let long₁ : length (front ++ h) ≡ end + 24 =
        omega (arith, length-append front h, front_long, hf.long) in
      let room₁ : end + 24 ≤ length (r.bytes f₁) =
        rw b₁ (omega (arith, length-append (front ++ h) (drop 24 tail), long₁)) in
      wr.written f₁ e.page (end + 24) room₁
      ∙ rw b₁ (
          overwrite-append (front ++ h) (drop 24 tail) e.page (end + 24) long₁
          ∙ rw (he.2, log_bytes-append s s.salt1 es (e ∷ []))
              (simp (append_assoc, append-nil) refl))

  -- The log behind an append.
  abbrev log_behind : ℕ → List ℕ → Option ℕ → List ℕ → Wal ops
  log_behind pgno page commit slots = record w {
    file =
        (ops.write
          (ops.write w.file (header_of s (last_seed s s.salt1 es) (frame_for pgno page commit))
            end).1
          page (end + 24)).1;
    end_off = end + 24 + length page;
    slots = set slots pgno (length es + 1);
    db_size = committed_size w.db_size commit;
  }

  append_result :
      (pgno : ℕ) (page slots : List ℕ) (commit : Option ℕ)
      → map_ensure true w.slots pgno ≡ ok slots
      → wal_append ops z true (open_log ops w s seq (length es)) pgno page commit
        ≡ ok (none, open_log ops (log_behind pgno page commit slots) s seq (length es + 1))
  append_result pgno page slots commit ensured =
      let there : drop 32 (r.bytes w.file) ≡ log_bytes s s.salt1 es ++ tail =
        drop-drop 0 32 head (log_bytes s s.salt1 es ++ tail)
          (length-header_bytes ops z (first_log ops w s seq)) (r.bytes w.file) content in
      let seed =
        seed_of-log_bytes ops z r w s seq salt1_fits salt2_fits small es tail frames there in
      let off : frame_offset ops (open_log ops w s seq (length es)) (length es) ≡ end =
        offset_open ops z r w s seq salt1_fits salt2_fits small (length es) (length es) in
      let no_prefix : end + 24 + 0 ≡ end + 24 = omega arith in
      wal_append_step ops z w s seq (length es) pgno page slots commit (last_seed s s.salt1 es) seed
        wr.granted ensured
      ∙ rw (off, no_prefix) refl

  log_after :
      (pgno : ℕ) (page slots : List ℕ) (commit : Option ℕ)
      → IsLogged w.page_size (frame_for pgno page commit)
      → pgno < 2 ^ 31
      → IsTorn s w.page_size
          (last_seed s s.salt1 (es ++ (frame_for pgno page commit ∷ [])))
          (drop w.page_size (drop 24 tail))
      → IsLog ops r
          (log_behind pgno page commit slots)
          s
          seq
          (es ++ (frame_for pgno page commit ∷ []))
          (drop w.page_size (drop 24 tail))
  unfolding header_bytes header_body
  log_after pgno page slots commit he hp torn' = record {
    salt1_fits = salt1_fits;
    salt2_fits = salt2_fits;
    seq_fits = seq_fits;
    small = small;
    frames = All-join (IsLogged w.page_size) es (frame_for pgno page commit) frames he;
    pages = All-join (λ e. e.pgno < 2 ^ 31) es (frame_for pgno page commit) pages hp;
    torn = torn';
    content = frame_written (frame_for pgno page commit) he;
  }

  -- The append keeps an open log open, with one more frame.
  pub wal_append-IsOpen :
      (pgno : ℕ) (page : List ℕ) (commit : Option ℕ)
      → IsLogged w.page_size (frame_for pgno page commit)
      → pgno < 2 ^ 31
      → IsTorn s w.page_size
          (last_seed s s.salt1 (es ++ (frame_for pgno page commit ∷ [])))
          (drop w.page_size (drop 24 tail))
      → (w' : Wal ops) × (wal_append ops z true (open_log ops w s seq (length es)) pgno page commit
          ≡ ok (none, open_log ops w' s seq (length es + 1)))
        × IsOpen ops r w' s seq
            (es ++ (frame_for pgno page commit ∷ []))
            (drop w.page_size (drop 24 tail))
  wal_append-IsOpen pgno page commit he hp torn' =
      let (slots, ensured, inside, kept) = map_ensure_lem w.slots pgno hp in
      (
        log_behind pgno page commit slots,
        append_result pgno page slots commit ensured,
        (
          log_after pgno page slots commit he hp torn',
          λ p.
              get_or-set slots pgno (length es + 1) p inside
              ∙ rw (kept p, log.1 p, latest_slot-append p 0 0 es (frame_for pgno page commit))
                  (let none_before : 0 + length es ≡ length es = omega arith in
                    rw none_before refl),
        ),
      )

  -- For an open log of the first version over a file that reads and writes its bytes,
  -- `tdb_wal_read_page` gives for every page its last image among all frames of the log, and no page
  -- where they have none: frames behind the last commit frame are seen too.
  pub wal_read_page-IsOpen :
      (mem : Bool) (p : ℕ)
      → wal_read_page ops z mem (open_log ops w s seq (length es)) p ≡ inr (latest_page p none es)
  wal_read_page-IsOpen mem p =
      let there : drop 32 (r.bytes w.file) ≡ log_bytes s s.salt1 es ++ tail =
        drop-drop 0 32 head (log_bytes s s.salt1 es ++ tail)
          (length-header_bytes ops z (first_log ops w s seq)) (r.bytes w.file) content in
      read-latest ops z r w s seq salt1_fits salt2_fits small mem p es tail
        (open_log ops w s seq (length es)) frames there (latest_slot p 0 0 es) (log.1 p)
        (latest-Agree es p 0 0 none es
          (λ j. let none_before : 0 + j ≡ j = omega arith in rw none_before refl)
          (inl (refl, refl)))
        refl refl (λ at. unfold read_at in refl)
        (λ j. offset_open ops z r w s seq salt1_fits salt2_fits small j (length es))

pub last_commit-append :
    (i c : ℕ) (es : List Logged) (e : Logged)
    → 0 < e.size
    → last_commit i c (es ++ (e ∷ [])) ≡ i + length es + 1
last_commit-append i c [] e h =
    let marked : (e.size == 0) ≡ false = ground arith in rw marked (omega arith)
last_commit-append i c (f ∷ es) e h =
    let later : i + suc (length es) ≡ i + 1 + length es = omega arith in
    rw later (last_commit-append (i + 1) (if f.size == 0 then c else i + 1) es e h)

pub last_size-append :
    (d : ℕ) (es : List Logged) (e : Logged) → 0 < e.size → last_size d (es ++ (e ∷ [])) ≡ e.size
last_size-append d [] e h = let marked : (e.size == 0) ≡ false = ground arith in rw marked refl
last_size-append d (f ∷ es) e h = last_size-append (if f.size == 0 then d else f.size) es e h

-- A commit frame at the end commits all frames before it.
pub committed_of-append :
    (es : List Logged) (e : Logged) → 0 < e.size → committed_of (es ++ (e ∷ [])) ≡ es ++ (e ∷ [])
committed_of-append es e h =
    let all : last_commit 0 0 (es ++ (e ∷ [])) ≡ length (es ++ (e ∷ [])) =
      last_commit-append 0 0 es e h ∙ omega (arith, length-append es (e ∷ [])) in
    rw all (
      ap (λ (t : List Logged). take (length (es ++ (e ∷ []))) t) (sym (append-nil (es ++ (e ∷ []))))
      ∙ take-append (es ++ (e ∷ [])) [])
