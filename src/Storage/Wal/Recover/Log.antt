-- ===== src/Storage/Wal/Recover/Log.antt =====
-- The scan of a log of the first version accepts its frames one by one, and ends at a torn one.
use transaction_db.Base.{
  ℕ, zero, suc, ◌+◌, ◌-◌, ◌<◌, ◌≤◌, ◌≡◌, refl, sym, ap, ◌∙◌, ◌⊎◌, inl, inr, true, false, Option,
  none, some, List, [], ◌∷◌, ◌++◌, arith, length, take, drop, append_assoc, append-nil, drop-append,
  take-append-drop, length-append, length-drop, length-take, All, ltb, ◌==◌, if◌then◌else◌,
  Bool-cases,
}
use transaction_db.Util.Checksum.Laws.{IsU32}
use transaction_db.Storage.File.{FileOps}
use transaction_db.Storage.Compress.{ZstdOps}
use transaction_db.Storage.Wal.{Wal}
use transaction_db.Storage.Wal.Recover.{
  Frame, Scan, check_frame, accept, page_of, frame_of, pad, read_payload, read_frame, scan_frame,
  scan,
}
use transaction_db.Storage.Wal.Format.{
  Logged, IsLogged, Salts, sums_of, header_of, log_bytes, last_seed, header_of-fields,
  read_bytes-there, IsReadable,
}

-- The number of frames up to the last commit among `es`, `i` frames behind the start of the log, where
-- `c` are committed before.
abbrev pub last_commit : ℕ → ℕ → List Logged → ℕ
last_commit i c [] = c
last_commit i c (e ∷ es) = last_commit (i + 1) (if e.size == 0 then c else i + 1) es

-- The size of the database that the last commit records.
abbrev pub last_size : ℕ → List Logged → ℕ
last_size d [] = d
last_size d (e ∷ es) = last_size (if e.size == 0 then d else e.size) es

-- The frame that stands at `off`.
abbrev pub frame_at : Salts → ℕ → ℕ → ℕ → Logged → Frame
frame_at s n seed off e = record {
  header = header_of s seed e;
  page = e.page;
  next_off = off + 24 + n;
}

pub drop-drop :
    (i j : ℕ) (p q : List ℕ) → length p ≡ j → (b : List ℕ) → drop i b ≡ p ++ q → drop (i + j) b ≡ q
drop-drop zero j p q h b e =
    let none_more : zero + j ≡ j = omega arith in rw none_more (rw e (rw (← h) (drop-append p q)))
drop-drop (suc i) j [] q h [] e = let nothing : suc i + j ≡ suc i = omega arith in rw nothing e
drop-drop (suc i) j (x ∷ p) q h [] e = cc
drop-drop (suc i) j p q h (x ∷ b) e =
    let next : suc i + j ≡ suc (i + j) = omega arith in rw next (drop-drop i j p q h b e)

check_frame_there :
    (s : Salts) (seed n off : ℕ) (e : Logged)
    → IsU32 s.salt1
    → IsU32 s.salt2
    → IsLogged n e
    → check_frame s.salt1 s.salt2 seed (frame_at s n seed off e) ≡ some (sums_of s seed e).0
unfolding check_frame
check_frame_there s seed n off e u₁ u₂ he =
    let hf = header_of-fields s u₁ u₂ n seed e he in
    rw (hf.summed, hf.salt1_field, hf.salt2_field, hf.sum1_field, hf.sum2_field) (ground arith)

-- The log of the first version that `w` becomes once its header is read.
abbrev pub first_log : (ops : FileOps) → Wal ops → Salts → ℕ → Wal ops
first_log ops w s seq = record w { version = 1; salt1 = s.salt1; salt2 = s.salt2; ckpt_seq = seq }

-- The scan behind the frames `es`.
abbrev pub accept_all : Salts → ℕ → Scan → List Logged → Scan
accept_all s n k [] = k
accept_all s n k (e ∷ es) =
    accept_all s n (accept k (frame_at s n k.rolling k.off e) (sums_of s k.rolling e).0) es

-- Behind the frames stands no whole frame, or one whose salts or checksums do not fit.
abbrev pub IsTorn : Salts → ℕ → ℕ → List ℕ → Type 0
IsTorn s n seed tail =
    (length tail < 24 + n)
    ⊎ ((off : ℕ)
        → check_frame s.salt1 s.salt2 seed
            (record { header = take 24 tail; page = take n (drop 24 tail); next_off = off })
          ≡ none)

module _ (ops : FileOps) (z : Option ZstdOps) (readable : IsReadable ops) where
  open readable use {bytes, reads}

  read_frame_there :
      (f : ops.State) (n off : ℕ) (h p rest : List ℕ)
      → length h ≡ 24
      → length p ≡ n
      → drop off (bytes f) ≡ h ++ (p ++ rest)
      → off + 24 + n ≤ length (bytes f)
      → read_frame ops z f (length (bytes f)) 1 n off
        ≡ some (record { header = h; page = p; next_off = off + 24 + n })
  unfolding read_frame read_payload page_of frame_of pad
  read_frame_there f n off h p rest hh hp there fits =
      let r₁ : ops.read f 24 off ≡ inr h =
        reads f 24 off ∙ ap inr (read_bytes-there (bytes f) h _ 24 off there hh) in
      let behind : drop (off + 24) (bytes f) ≡ p ++ rest =
        drop-drop off 24 h _ hh (bytes f) there in
      let r₂ : ops.read f n (off + 24) ≡ inr p =
        reads f n (off + 24) ∙ ap inr (read_bytes-there (bytes f) p rest n (off + 24) behind hp) in
      let room : ltb (length (bytes f)) (off + 24 + n) ≡ false = ground arith in
      let full : n - length p ≡ 0 = omega arith in
      rw (r₁, read_frame) (rw room (rw (r₂, read_payload) (rw full (rw (append-nil p) refl))))

  read_frame_short :
      (f : ops.State) (n off : ℕ)
      → length (bytes f) < off + 24 + n
      → read_frame ops z f (length (bytes f)) 1 n off ≡ none
  unfolding read_frame
  read_frame_short f n off short =
      let over : ltb (length (bytes f)) (off + 24 + n) ≡ true = ground arith in
      rw (reads f 24 off, read_frame) (rw over refl)

  module _ (w : Wal ops) (s : Salts) (seq : ℕ) (u₁ : IsU32 s.salt1) (u₂ : IsU32 s.salt2) where
    scan_frame_there :
        (k : Scan) (e : Logged) (rest : List ℕ)
        → IsLogged w.page_size e
        → drop k.off (bytes w.file) ≡ header_of s k.rolling e ++ (e.page ++ rest)
        → k.off + 24 + w.page_size ≤ length (bytes w.file)
        → scan_frame ops z (first_log ops w s seq) (length (bytes w.file)) k
          ≡ some (accept k (frame_at s w.page_size k.rolling k.off e) (sums_of s k.rolling e).0)
    unfolding scan_frame
    scan_frame_there k e rest he there fits =
        let room : ltb (length (bytes w.file)) (k.off + 24) ≡ false = ground arith in
        let h : List ℕ = header_of s k.rolling e in
        let hf = header_of-fields s u₁ u₂ w.page_size k.rolling e he in
        rw room (
          rw
            (
              read_frame_there w.file w.page_size k.off h e.page rest hf.long he.2 there fits,
              scan_frame,
            )
            (rw (check_frame_there s k.rolling w.page_size k.off e u₁ u₂ he) refl))

    scan_frame_short :
        (k : Scan)
        → length (bytes w.file) < k.off + 24 + w.page_size
        → scan_frame ops z (first_log ops w s seq) (length (bytes w.file)) k ≡ none
    unfolding scan_frame
    scan_frame_short k short = elim (Bool-cases (ltb (length (bytes w.file)) (k.off + 24))) [
      | inl over ↦ rw over refl
      | inr room ↦ rw room (rw (read_frame_short w.file w.page_size k.off short, scan_frame) refl)
    ]

    -- The scan ends at a torn end of the log.
    scan_frame_torn :
        (k : Scan) (tail : List ℕ)
        → drop k.off (bytes w.file) ≡ tail
        → IsTorn s w.page_size k.rolling tail
        → scan_frame ops z (first_log ops w s seq) (length (bytes w.file)) k ≡ none
    unfolding scan_frame
    scan_frame_torn k tail there torn =
        let n : ℕ = w.page_size in
        let h : List ℕ = take 24 tail in
        let p : List ℕ = take n (drop 24 tail) in
        let rest : List ℕ = drop n (drop 24 tail) in
        let whole : tail ≡ h ++ (p ++ rest) =
          sym (rw (take-append-drop n (drop 24 tail)) (take-append-drop 24 tail)) in
        let len : length tail ≡ length (bytes w.file) - k.off =
          rw (← there) (length-drop k.off (bytes w.file)) in
        elim (Bool-cases (ltb (length (bytes w.file)) (k.off + 24 + n))) [
          | inl over ↦ scan_frame_short k (ground arith)
          | inr fits ↦
              let room : k.off + 24 + n ≤ length (bytes w.file) = ground arith in
              let some_header : ltb (length (bytes w.file)) (k.off + 24) ≡ false = ground arith in
              let hh : length h ≡ 24 = omega (arith, length-take 24 tail) in
              let hp : length p ≡ n =
                omega (arith, length-take n (drop 24 tail), length-drop 24 tail) in
              elim torn [
                | inl short ↦ absurd (omega arith)
                | inr wrong ↦ rw some_header (
                    rw
                      (
                        read_frame_there w.file n k.off h p rest hh hp (there ∙ whole) room,
                        scan_frame,
                      )
                      (rw (wrong (k.off + 24 + n)) refl))
              ]
        ]

    -- The whole scan: it accepts the frames and ends at the torn end, within its fuel.
    pub scan-log_bytes :
        (fuel : ℕ) (k : Scan) (es : List Logged) (tail : List ℕ)
        → All (IsLogged w.page_size) es
        → drop k.off (bytes w.file) ≡ log_bytes s k.rolling es ++ tail
        → IsTorn s w.page_size (last_seed s k.rolling es) tail
        → length es < fuel
        → scan ops z fuel (first_log ops w s seq) (length (bytes w.file)) k
          ≡ some (accept_all s w.page_size k es)
    unfolding scan
    scan-log_bytes zero k es tail hs there torn fuel = absurd (omega arith)
    scan-log_bytes (suc fuel) k [] tail hs there torn enough =
        rw (scan_frame_torn k tail there torn, scan) refl
    scan-log_bytes (suc fuel) k (e ∷ es) tail (he, hs) there torn enough =
        let n : ℕ = w.page_size in
        let h : List ℕ = header_of s k.rolling e in
        let hf = header_of-fields s u₁ u₂ n k.rolling e he in
        let c1 : ℕ = (sums_of s k.rolling e).0 in
        let rest : List ℕ = log_bytes s c1 es ++ tail in
        let next : Scan = accept k (frame_at s n k.rolling k.off e) c1 in
        let split : drop k.off (bytes w.file) ≡ h ++ (e.page ++ rest) =
          there ∙ simp append_assoc refl in
        let len : length (h ++ (e.page ++ rest)) ≡ length (bytes w.file) - k.off =
          rw (← split) (length-drop k.off (bytes w.file)) in
        let fits : k.off + 24 + n ≤ length (bytes w.file) = omega (
          arith,
          len,
          hf.long,
          he.2,
          length-append h (e.page ++ rest),
          length-append e.page rest,
        ) in
        let off : next.off ≡ k.off + 24 + n = unfold accept in ground arith in
        let rolling : next.rolling ≡ c1 = unfold accept in ground arith in
        let behind : drop next.off (bytes w.file) ≡ log_bytes s next.rolling es ++ tail =
          rw (off, rolling)
            (drop-drop (k.off + 24) n e.page rest he.2 (bytes w.file)
              (drop-drop k.off 24 h _ hf.long (bytes w.file) split)) in
        rw (scan_frame_there k e rest he split fits, scan)
          (scan-log_bytes fuel next es tail hs behind (rw rolling torn) (omega arith))
