-- ===== src/Storage/Wal/Recover/Map.antt =====
-- The map that `recover` builds of a log of the first version, and what is read by it.
use transaction_db.Base.{
  ℕ, zero, suc, ◌+◌, ◌*◌, ◌%◌, ◌^◌, ◌<◌, ◌≡◌, refl, ap, ◌∙◌, ◌⊎◌, inl, inr, Bool, true, Option,
  none, some, List, [], ◌∷◌, ◌++◌, arith, length, drop, get_or, set, get_elem?, append_assoc, All,
  ◌==◌, if◌then◌else◌, Bool-cases,
}
use transaction_db.Status.{ok, ◌>>=◌}
use transaction_db.Util.Checksum.Laws.{IsU32}
use transaction_db.Storage.File.{FileOps}
use transaction_db.Storage.Compress.{ZstdOps}
use transaction_db.Storage.Wal.{Wal, frame_stride, frame_offset, map_ensure}
use transaction_db.Storage.Wal.Slots.{get_or-set, map_ensure_lem}
use transaction_db.Storage.Wal.Recover.{Scan, accept, frame_page, rebuild, frame_db_size}
use transaction_db.Storage.Wal.Read.{read_at, frame_index, wal_read_page, found_page}
use transaction_db.Storage.Wal.Format.{
  Logged, IsLogged, Salts, sums_of, header_of, log_bytes, header_of-fields, read_bytes-there,
  IsReadable,
}
use transaction_db.Storage.Wal.Recover.Log.{
  drop-drop, first_log, accept_all, frame_at, last_commit, last_size,
}

-- The slot of page `p` behind the frames, the first of which is number `i`; `d` is the slot before.
abbrev pub latest_slot : ℕ → ℕ → ℕ → List Logged → ℕ
latest_slot p i d [] = d
latest_slot p i d (e ∷ es) = latest_slot p (i + 1) (if e.pgno == p then i + 1 else d) es

-- The image of page `p` in the last frame that has one; `d` where none has.
abbrev pub latest_page : ℕ → Option (List ℕ) → List Logged → Option (List ℕ)
latest_page p d [] = d
latest_page p d (e ∷ es) = latest_page p (if e.pgno == p then some e.page else d) es

-- A slot points at the image.
abbrev pub Agree : List Logged → ℕ → Option (List ℕ) → Type 0
Agree es slot d =
    ((slot ≡ 0) × (d ≡ none))
    ⊎ ((j : ℕ) × (e : Logged) × (slot ≡ suc j) × (get_elem? es j ≡ some e) × (d ≡ some e.page))

pub latest-Agree :
    (all : List Logged) (p i slot : ℕ) (d : Option (List ℕ)) (es : List Logged)
    → ((j : ℕ) → get_elem? all (i + j) ≡ get_elem? es j)
    → Agree all slot d
    → Agree all (latest_slot p i slot es) (latest_page p d es)
latest-Agree all p i slot d [] here a = a
latest-Agree all p i slot d (e ∷ es) here a =
    let first : get_elem? all i ≡ some e = let e₀ : i + 0 ≡ i = omega arith in rw e₀ at (here 0) in
    let later : (j : ℕ) → get_elem? all (i + 1 + j) ≡ get_elem? es j =
      λ j. let e₁ : i + 1 + j ≡ i + suc j = omega arith in rw e₁ (here (suc j)) in
    elim (Bool-cases (e.pgno == p)) [
      | inl same ↦ rw same (
          latest-Agree all p (i + 1) (i + 1) (some e.page) es later
            (inr (i, e, omega arith, first, refl)))
      | inr other ↦ rw other (latest-Agree all p (i + 1) slot d es later a)
    ]

get_elem?-inside {ℓ} :
    {A : Type ℓ} (xs : List A) (j : ℕ) (x : A) → get_elem? xs j ≡ some x → j < length xs
get_elem?-inside [] j x e = cc
get_elem?-inside (y ∷ ys) zero x e = omega arith
get_elem?-inside (y ∷ ys) (suc j) x e = omega (arith, get_elem?-inside ys j x e)

add_mul : (a b c : ℕ) → (a + b) * c ≡ a * c + b * c
add_mul a b c = omega arith

pub accept_all-committed :
    (s : Salts) (n : ℕ) (k : Scan) (es : List Logged)
    → IsU32 s.salt1
    → IsU32 s.salt2
    → All (IsLogged n) es
    → ((accept_all s n k es).committed ≡ last_commit k.idx k.committed es)
      × ((accept_all s n k es).committed_size ≡ last_size k.committed_size es)
accept_all-committed s n k [] u₁ u₂ hs = (refl, refl)
accept_all-committed s n k (e ∷ es) u₁ u₂ (he, hs) =
    let hf = header_of-fields s u₁ u₂ n k.rolling e he in
    let next : Scan = accept k (frame_at s n k.rolling k.off e) (sums_of s k.rolling e).0 in
    let size : frame_db_size (header_of s k.rolling e) ≡ e.size =
      unfold frame_db_size in hf.size_field in
    let idx : next.idx ≡ k.idx + 1 = unfold accept in ground arith in
    let c : next.committed ≡ (if e.size == 0 then k.committed else k.idx + 1) =
      unfold accept in rw size (ground arith) in
    let cs : next.committed_size ≡ (if e.size == 0 then k.committed_size else e.size) =
      unfold accept in rw size (ground arith) in
    let (a, b) = accept_all-committed s n next es u₁ u₂ hs in (a ∙ rw (idx, c) refl, b ∙ rw cs refl)

module _ (ops : FileOps) (z : Option ZstdOps) (readable : IsReadable ops) where
  open readable use {bytes, reads}

  rebuild_step :
      (v : Wal ops) (k i : ℕ) (slots slots' h : List ℕ)
      → ops.read v.file 24 (frame_offset ops v i) ≡ inr h
      → map_ensure true slots (frame_page h) ≡ ok slots'
      → rebuild ops z true v (suc k) i slots
        ≡ rebuild ops z true v k (i + 1) (set slots' (frame_page h) (i + 1))
  unfolding rebuild
  rebuild_step v k i slots slots' h e e' = rw (e, rebuild) (rw (e', ◌>>=◌) refl)

  module _ (w : Wal ops) (s : Salts) (seq : ℕ) (u₁ : IsU32 s.salt1) (u₂ : IsU32 s.salt2)
      (small : w.page_size < 2 ^ 31) where
    abbrev stride : ℕ
    stride = 24 + w.page_size

    pub offset_lem : (i : ℕ) → frame_offset ops (first_log ops w s seq) i ≡ 32 + i * stride
    unfolding frame_offset frame_stride
    offset_lem i =
        let whole : (24 + w.page_size) % 2 ^ 32 ≡ 24 + w.page_size = omega arith in
        ap (λ t. 32 + i * t) whole

    -- Where the parts of a frame stand, and what is behind it.
    frame_parts :
        (i rolling : ℕ) (e : Logged) (es : List Logged) (tail : List ℕ)
        → IsLogged w.page_size e
        → drop (32 + i * stride) (bytes w.file) ≡ log_bytes s rolling (e ∷ es) ++ tail
        → let rest : List ℕ = log_bytes s (sums_of s rolling e).0 es ++ tail in
          (drop (32 + i * stride) (bytes w.file) ≡ header_of s rolling e ++ (e.page ++ rest))
          × (drop (32 + i * stride + 24) (bytes w.file) ≡ e.page ++ rest)
          × (drop (32 + (i + 1) * stride) (bytes w.file) ≡ rest)
    frame_parts i rolling e es tail he there =
        let hf = header_of-fields s u₁ u₂ w.page_size rolling e he in
        let rest : List ℕ = log_bytes s (sums_of s rolling e).0 es ++ tail in
        let split : drop (32 + i * stride) (bytes w.file)
            ≡ header_of s rolling e ++ (e.page ++ rest) =
          there ∙ simp append_assoc refl in
        let page : drop (32 + i * stride + 24) (bytes w.file) ≡ e.page ++ rest =
          drop-drop (32 + i * stride) 24 (header_of s rolling e) _ hf.long (bytes w.file) split in
        let e₁ : 32 + (i + 1) * stride ≡ 32 + i * stride + 24 + w.page_size =
          omega (arith, add_mul i 1 stride) in
        (
          split,
          page,
          rw e₁ (drop-drop (32 + i * stride + 24) w.page_size e.page _ he.2 (bytes w.file) page),
        )

    -- The map of the frames `es`, of which the first is number `i`.
    pub rebuild-log_bytes :
        (i rolling : ℕ) (es : List Logged) (tail slots : List ℕ)
        → All (IsLogged w.page_size) es
        → All (λ e. e.pgno < 2 ^ 31) es
        → drop (32 + i * stride) (bytes w.file) ≡ log_bytes s rolling es ++ tail
        → (slots' : List ℕ) × (rebuild ops z true (first_log ops w s seq) (length es) i slots
            ≡ ok slots')
          × ((p : ℕ) → get_or slots' p 0 ≡ latest_slot p i (get_or slots p 0) es)
    unfolding rebuild
    rebuild-log_bytes i rolling [] tail slots hs ps there = (slots, refl, λ p. refl)
    rebuild-log_bytes i rolling (e ∷ es) tail slots (he, hs) (hp, ps) there =
        let v : Wal ops = first_log ops w s seq in
        let h : List ℕ = header_of s rolling e in
        let hf = header_of-fields s u₁ u₂ w.page_size rolling e he in
        let (split, page_at, behind) = frame_parts i rolling e es tail he there in
        let read : ops.read w.file 24 (frame_offset ops v i) ≡ inr h = rw (offset_lem i) (
          reads w.file 24 (32 + i * stride)
          ∙ ap inr (read_bytes-there (bytes w.file) h _ 24 (32 + i * stride) split hf.long)) in
        let page : frame_page h ≡ e.pgno = unfold frame_page in hf.page_field in
        let (grown, ensured, inside, kept) = map_ensure_lem slots e.pgno hp in
        let (slots', done, holds) =
          rebuild-log_bytes (i + 1) (sums_of s rolling e).0 es tail (set grown e.pgno (i + 1)) hs ps
            behind in
        (
          slots',
          rebuild_step v (length es) i slots grown h read (rw page ensured) ∙ rw page done,
          λ p. holds p ∙ rw (get_or-set grown e.pgno (i + 1) p inside, kept p) refl,
        )

    -- Where the page of a frame stands.
    page_there :
        (i rolling : ℕ) (es : List Logged) (tail : List ℕ) (j : ℕ) (e : Logged)
        → All (IsLogged w.page_size) es
        → drop (32 + i * stride) (bytes w.file) ≡ log_bytes s rolling es ++ tail
        → get_elem? es j ≡ some e
        → (rest : List ℕ) × (drop (32 + (i + j) * stride + 24) (bytes w.file) ≡ e.page ++ rest)
          × (length e.page ≡ w.page_size)
    page_there i rolling [] tail j e hs there at = cc
    page_there i rolling (f ∷ es) tail zero e (hf, hs) there at =
        let (split, page_at, behind) = frame_parts i rolling f es tail hf there in
        let same : f.page ≡ e.page = cc in
        let here : i + 0 ≡ i = omega arith in
        let rest : List ℕ = log_bytes s (sums_of s rolling f).0 es ++ tail in
        (rest, rw (here, ← same) page_at, rw (← same) hf.2)
    page_there i rolling (f ∷ es) tail (suc j) e (hf, hs) there at =
        let (split, page_at, behind) = frame_parts i rolling f es tail hf there in
        let next : i + suc j ≡ i + 1 + j = omega arith in
        rw next (page_there (i + 1) (sums_of s rolling f).0 es tail j e hs behind at)

    -- What is read of page `p` by a map of the frames `es`.
    pub read-latest :
        (mem : Bool) (p : ℕ) (es : List Logged) (tail : List ℕ) (v : Wal ops)
        → All (IsLogged w.page_size) es
        → drop 32 (bytes w.file) ≡ log_bytes s s.salt1 es ++ tail
        → (slot : ℕ) → get_or v.slots p 0 ≡ slot
        → Agree es slot (latest_page p none es)
        → v.nframe ≡ length es
        → v.file ≡ w.file
        → ((at : ℕ) → read_at ops z mem v at ≡ ops.read w.file w.page_size at)
        → ((j : ℕ) → frame_offset ops v j ≡ 32 + j * stride)
        → wal_read_page ops z mem v p ≡ inr (latest_page p none es)
    unfolding wal_read_page
    read-latest mem p es tail v hs there slot held (inl (none_held, nothing)) count file plain
          offsets =
        let e : frame_index ops z mem v p ≡ none =
          unfold frame_index in rw (held ∙ none_held) refl in
        rw (e, wal_read_page) (rw nothing refl)
    read-latest mem p es tail v hs there slot held (inr (j, e, taken, at, page)) count file plain
          offsets =
        let inside = get_elem?-inside es j e at in
        let i : frame_index ops z mem v p ≡ some j =
          unfold frame_index in rw (held ∙ taken) (ground arith) in
        let start : 32 + 0 * stride ≡ 32 = omega arith in
        let (rest, place, len) = page_there 0 s.salt1 es tail j e hs (rw start there) at in
        let zero_add : 0 + j ≡ j = omega arith in
        let read : ops.read w.file w.page_size (32 + j * stride + 24) ≡ inr e.page =
          reads w.file w.page_size (32 + j * stride + 24)
          ∙ ap inr (
              read_bytes-there (bytes w.file) e.page rest w.page_size (32 + j * stride + 24)
                (rw zero_add at place) len) in
        rw (i, wal_read_page)
          (rw (offsets j)
            (rw (plain (32 + j * stride + 24)) (rw read (rw page (unfold found_page in refl)))))
