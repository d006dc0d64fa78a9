-- ===== src/Storage/File/Memory.antt =====
-- The file in memory reads and writes the bytes up to its size.
use transaction_db.Base.{
  ℕ, zero, suc, ◌+◌, ◌-◌, ◌*◌, ◌%◌, ◌^◌, ◌<◌, ◌≤◌, ◌≡◌, refl, sym, ap, ◌∙◌, inl, inr, min, true,
  none, some, List, [], ◌∷◌, ◌++◌, arith, length, take, drop, replicate, length-take, length-drop,
  length-append, length-replicate, append-nil, leb, ltb, ◌==◌, if◌then◌else◌, Bool-cases,
}
use transaction_db.Storage.File.{
  MemHandle, read_bytes, mem_cap, mem_extend, mem_grow, mem_read, overwrite, mem_store, mem_write,
}

-- The bytes of the file.
abbrev pub content : MemHandle → List ℕ
content h = take h.size h.bytes

-- The buffer has the bytes of the file.
abbrev pub IsHandle : MemHandle → Type 0
IsHandle h = h.size ≤ length h.bytes

take_nil : (n : ℕ) → take {A = ℕ} n [] ≡ []
take_nil zero = refl
take_nil (suc n) = refl

drop_nil : (n : ℕ) → drop {A = ℕ} n [] ≡ []
drop_nil zero = refl
drop_nil (suc n) = refl

drop-take : (off s : ℕ) (b : List ℕ) → drop off (take s b) ≡ take (s - off) (drop off b)
drop-take zero s b = let whole : s - 0 ≡ s = omega arith in rw whole refl
drop-take (suc off) zero b = let nothing : 0 - suc off ≡ 0 = omega arith in rw nothing refl
drop-take (suc off) (suc s) [] = sym (take_nil (suc s - suc off))
drop-take (suc off) (suc s) (x ∷ b) =
    let less : suc s - suc off ≡ s - off = omega arith in rw less (drop-take off s b)

take-take : (n m : ℕ) (b : List ℕ) → take n (take m b) ≡ take (min m n) b
take-take zero m b = let nothing : min m 0 ≡ 0 = omega arith in rw nothing refl
take-take (suc n) zero b = let nothing : min 0 (suc n) ≡ 0 = omega arith in rw nothing refl
take-take (suc n) (suc m) [] = sym (take_nil (min (suc m) (suc n)))
take-take (suc n) (suc m) (x ∷ b) =
    let less : min (suc m) (suc n) ≡ suc (min m n) = omega arith in
    rw less (ap (λ t. x ∷ t) (take-take n m b))

-- For a handle whose buffer has the bytes of its file, `mem_read` gives the bytes of the file, with zeros
-- behind its end.
pub mem_read-read_bytes :
    (h : MemHandle) (n off : ℕ) → IsHandle h → mem_read h n off ≡ read_bytes (content h) n off
unfolding mem_read read_bytes
mem_read-read_bytes h n off v =
    let same : take n (drop off (content h)) ≡ take (min (h.size - off) n) (drop off h.bytes) =
      ap (take n) (drop-take off h.size h.bytes) ∙ take-take n (h.size - off) (drop off h.bytes) in
    let long : length (take (min (h.size - off) n) (drop off h.bytes)) ≡ min (h.size - off) n =
      omega
        (arith, length-take (min (h.size - off) n) (drop off h.bytes), length-drop off h.bytes) in
    rw (same, long)
      (elim (Bool-cases (leb h.size off)) [
        | inl past ↦
            let nothing : min (h.size - off) n ≡ 0 = ground arith in
            let all : n - 0 ≡ n = omega arith in rw past (rw nothing (rw all refl))
        | inr inside ↦ rw inside refl
      ])

mem_cap_step :
    (f cap need : ℕ)
    → cap < need
    → need < 2 ^ 63
    → mem_cap (suc f) cap need ≡ mem_cap f (cap * 2) need
unfolding mem_cap
mem_cap_step f cap need less small =
    let more : ltb cap need ≡ true = ground arith in
    let wide : cap * 2 % 2 ^ 64 ≡ cap * 2 = omega arith in rw (more, wide)

mem_cap_ends :
    (f cap need : ℕ)
    → 0 < cap
    → need < 2 ^ 63
    → need ≤ cap * 2 ^ f
    → (c : ℕ) × (mem_cap (suc f) cap need ≡ some c) × (need ≤ c)
unfolding mem_cap
mem_cap_ends zero cap need h small hf = (cap, ground arith, omega arith)
mem_cap_ends (suc f) cap need h small hf = elim (Bool-cases (ltb cap need)) [
  | inl more ↦
      let le : cap < need = ground arith in
      let twice : 2 ^ suc f ≡ 2 * 2 ^ f = omega arith in
      let (c, e, lt) =
        mem_cap_ends f (cap * 2) need (omega arith) small
          (omega (arith, ap (λ (t : ℕ). cap * t) twice)) in
      (c, mem_cap_step (suc f) cap need le small ∙ e, lt)
  | inr done ↦ (cap, rw done refl, ground arith)
]

-- With memory granted, the buffer grows to hold `need` bytes, by zeros.
mem_grow_lem :
    (h : MemHandle) (need : ℕ)
    → need < 2 ^ 63
    → (k : ℕ) × (mem_grow (λ n. true) h need
        ≡ some (none, record h { bytes = h.bytes ++ replicate k 0 }))
      × (need ≤ length h.bytes + k)
unfolding mem_grow mem_extend
mem_grow_lem h need small = elim (Bool-cases (leb need (length h.bytes))) [
  | inl there ↦ (0, rw there (rw (append-nil h.bytes) refl), ground arith)
  | inr more ↦
      let start : ℕ = if length h.bytes == 0 then 4096 else length h.bytes in
      let positive : 0 < start = ground arith in
      let (c, e, enough) = mem_cap_ends 64 start need positive small (omega arith) in
      (c - length h.bytes, rw more (rw e refl), omega (arith, enough))
]

take-append_more :
    (xs ys : List ℕ) (n : ℕ) → length xs ≤ n → take n (xs ++ ys) ≡ xs ++ take (n - length xs) ys
take-append_more [] ys n h = let whole : n - 0 ≡ n = omega arith in rw whole refl
take-append_more (x ∷ xs) ys zero h = absurd (omega arith)
take-append_more (x ∷ xs) ys (suc n) h =
    let less : suc n - suc (length xs) ≡ n - length xs = omega arith in
    rw less (ap (λ t. x ∷ t) (take-append_more xs ys n (omega arith)))

take-append_less : (xs ys : List ℕ) (n : ℕ) → n ≤ length xs → take n (xs ++ ys) ≡ take n xs
take-append_less xs ys zero h = refl
take-append_less [] ys (suc n) h = absurd (omega arith)
take-append_less (x ∷ xs) ys (suc n) h = ap (λ t. x ∷ t) (take-append_less xs ys n (omega arith))

drop_past : (xs : List ℕ) (n : ℕ) → length xs ≤ n → drop n xs ≡ []
drop_past [] n h = drop_nil n
drop_past (x ∷ xs) zero h = absurd (omega arith)
drop_past (x ∷ xs) (suc n) h = drop_past xs n (omega arith)

-- A write into the buffer `b ++ z`, cut at the new size, is the write into the file of `s` bytes.
take-overwrite :
    (b z p : List ℕ) (s off s' : ℕ)
    → s ≤ length b
    → off ≤ s
    → s' ≡ (if ltb s (off + length p) then off + length p else s)
    → take s' (overwrite (b ++ z) off p) ≡ overwrite (take s b) off p
unfolding overwrite
take-overwrite b z p s off s' fits inside size =
    let i : ℕ = off + length p in
    let x : List ℕ = take off b in
    let front : take off (b ++ z) ≡ x = take-append_less b z off (omega arith) in
    let front' : take off (take s b) ≡ x =
      let less : min s off ≡ off = omega arith in take-take off s b ∙ ap (λ t. take t b) less in
    let long : length x ≡ off = omega (arith, length-take off b) in
    let cut : take s' (x ++ (p ++ drop i (b ++ z)))
        ≡ x ++ (p ++ take (s' - length x - length p) (drop i (b ++ z))) =
      take-append_more x (p ++ drop i (b ++ z)) s' (ground arith)
      ∙ ap (λ t. x ++ t) (take-append_more p (drop i (b ++ z)) (s' - length x) (ground arith)) in
    let rest : take (s' - length x - length p) (drop i (b ++ z)) ≡ drop i (take s b) =
      let amount : s' - length x - length p ≡ s' - i = omega (arith, long) in
      rw amount (elim (Bool-cases (ltb s i)) [
        | inl beyond ↦
            let nothing : s' - i ≡ 0 = ground arith in
            let none_left : drop i (take s b) ≡ [] =
              drop_past (take s b) i (ground (arith, length-take s b)) in
            rw (nothing, none_left) refl
        | inr within ↦
            let kept : s' ≡ s = ground arith in
            rw kept (sym (drop-take i s (b ++ z)) ∙ ap (drop i) (take-append_less b z s fits))
      ]) in
    rw (front, front') (cut ∙ ap (λ t. x ++ (p ++ t)) rest)

length-overwrite :
    (b p : List ℕ) (off : ℕ) → off + length p ≤ length b → length (overwrite b off p) ≡ length b
unfolding overwrite
length-overwrite b p off h = omega (
  arith,
  length-append (take off b) (p ++ drop (off + length p) b),
  length-append p (drop (off + length p) b),
  length-take off b,
  length-drop (off + length p) b,
)

-- For a handle whose buffer has the bytes of its file, a place inside the file or at its end, and memory
-- granted, `mem_write` of fewer than 2 ^ 63 bytes in all succeeds; its loop ends. The file then has the
-- bytes with the new ones in their place, growing where they reach past its end, and the buffer has
-- them.
pub mem_write-overwrite :
    (h : MemHandle) (p : List ℕ) (off : ℕ)
    → IsHandle h
    → off ≤ h.size
    → off + length p < 2 ^ 63
    → (h' : MemHandle) × (mem_write (λ n. true) h p off ≡ some (none, h'))
      × IsHandle h'
      × (content h' ≡ overwrite (content h) off p)
unfolding mem_write mem_store
mem_write-overwrite h p off v inside small =
    let (k, grown, room) = mem_grow_lem h (off + length p) small in
    let b : List ℕ = h.bytes ++ replicate k 0 in
    let buffer : length b ≡ length h.bytes + k =
      omega (arith, length-append h.bytes (replicate k 0), length-replicate {A = ℕ} k 0) in
    let s' : ℕ = if ltb h.size (off + length p) then off + length p else h.size in
    let held : s' ≤ length (overwrite b off p) =
      ground (arith, length-overwrite b p off (omega (arith, room, buffer)), buffer) in
    (
      record { bytes = overwrite b off p; size = s' },
      rw (grown, mem_write) refl,
      held,
      take-overwrite h.bytes (replicate k 0) p h.size off s' v inside refl,
    )
