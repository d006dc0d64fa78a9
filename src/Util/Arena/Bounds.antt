-- ===== src/Util/Arena/Bounds.antt =====
-- What `tdb_arena_alloc` hands out lies in its block, behind what was handed out before.
use transaction_db.Base.{
  ℕ, ◌+◌, ◌-◌, ◌%◌, ◌^◌, ◌≤◌, ◌<◌, ◌≡◌, refl, sym, ap, subst, ◌⊎◌, inl, inr, Bool, false, Option,
  none, some, List, [], ◌∷◌, arith, All, Bool-cases, ltb, ◌==◌, if◌then◌else◌,
}
use transaction_db.Util.Arena.{
  Block, Arena, align_up, arena_block_new, place, place_new, arena_take, arena_alloc, block_header,
}

abbrev pub IsBlock : Block → Type 0
IsBlock b = (b.used ≤ b.cap) × (b.cap < 2 ^ 63) × (b.used % 16 ≡ 0)

abbrev pub IsValid : Arena → Type 0
IsValid a = All IsBlock a.blocks × (a.block_size < 2 ^ 63)

-- The `n` bytes at `off` are in the data of the first block of `a'`, at a multiple of 16, behind all that
-- the block `b` of `a` had used, or in a block of their own.
abbrev pub IsPlaced : Arena → Arena → ℕ → ℕ → Type 0
IsPlaced a a' n off =
    (b : Block) × (bs : List Block) × (a'.blocks ≡ b ∷ bs)
    × (off + n ≤ b.used)
    × (off % 16 ≡ 0)
    × ((a.blocks ≡ record { used = off; cap = b.cap } ∷ bs) ⊎ (a.blocks ≡ bs))

-- What a call comes to.
abbrev pub IsServed : Arena → ℕ → Option ℕ × Arena → Type 0
IsServed a n (none, a') = a' ≡ a
IsServed a n (some off, a') = IsPlaced a a' n off × IsValid a'

align_up_bounds :
    (n : ℕ) → n < 2 ^ 62 → (n ≤ align_up n) × (align_up n < 2 ^ 62 + 16) × (align_up n % 16 ≡ 0)
unfolding align_up
align_up_bounds n h = omega arith

module _ (alloc : ℕ → Bool) where
  place_lem :
      (a : Arena) (b : Block) (bs : List Block) (n m : ℕ)
      → IsBlock b
      → All IsBlock bs
      → a.block_size < 2 ^ 63
      → n ≤ m
      → m % 16 ≡ 0
      → b.used + m ≤ b.cap
      → ((a.blocks ≡ b ∷ bs) ⊎ (a.blocks ≡ bs))
      → IsServed a n (place alloc a b bs m)
  unfolding place
  place_lem a b bs n m (hb₁, hb₂, hb₃) hbs size le al fits from = (
    (record b { used = (b.used + m) % 2 ^ 64 }, bs, refl, omega arith, hb₃, from),
    (((omega arith, hb₂, omega arith), hbs), size),
  )

  place_new_lem :
      (a : Arena) (cap n m : ℕ)
      → IsValid a
      → n ≤ m
      → m % 16 ≡ 0
      → m ≤ cap
      → cap < 2 ^ 63
      → IsServed a n (place_new alloc a m (arena_block_new alloc cap))
  unfolding arena_block_new place_new
  place_new_lem a cap n m (hs, size) le al room small =
      elim (Bool-cases (alloc ((block_header + cap) % 2 ^ 64))) [
        | inl granted ↦ rw granted (
            place_lem a record { used = 0; cap = cap } a.blocks n m
              (omega arith, small, omega arith) hs size le al (omega arith) (inr refl))
        | inr refused ↦ rw refused refl
      ]

  arena_take_lem :
      (blocks : List Block) (size n m : ℕ)
      → All IsBlock blocks
      → size < 2 ^ 63
      → n ≤ m
      → m < 2 ^ 62 + 16
      → m % 16 ≡ 0
      → IsServed
          (record { blocks = blocks; block_size = size })
          n
          (arena_take alloc (record { blocks = blocks; block_size = size }) m)
  unfolding arena_take
  arena_take_lem [] size n m h small le few al = refl
  arena_take_lem (b ∷ bs) size n m (hb, hs) small le few al =
      let a : Arena = record { blocks = b ∷ bs; block_size = size } in
      elim (Bool-cases (ltb b.cap ((b.used + m) % 2 ^ 64))) [
        | inl full ↦ rw full (
            place_new_lem a (if ltb size m then m else size) n m ((hb, hs), small) le al
              (ground arith) (ground arith))
        | inr room ↦ rw room (place_lem a b bs n m hb hs small le al (ground arith) (inl refl))
      ]

  -- `tdb_arena_alloc` of fewer than 2 ^ 62 bytes from a well-formed arena: when it succeeds, the bytes
  -- that were asked for lie within the data of their block, at an offset in the data that is a
  -- multiple of 16, behind all that was handed out of that block before, and the arena is
  -- well-formed; when it fails, the arena is as it was.
  pub arena_alloc-IsServed :
      (a : Arena) (n : ℕ) → IsValid a → n < 2 ^ 62 → IsServed a n (arena_alloc alloc a n)
  unfolding arena_alloc
  arena_alloc-IsServed a n (hs, size) small =
      let k : ℕ = if n == 0 then 1 else n in
      let more : n ≤ k = ground arith in
      let still : k < 2 ^ 62 = ground arith in
      let (le, lt, al) = align_up_bounds k still in
      arena_take_lem a.blocks a.block_size n (align_up k) hs size (omega arith) lt al

  alloc_wraps :
      (b : Block) (bs : List Block) (size n : ℕ)
      → IsBlock b
      → 2 ^ 64 - 15 ≤ n
      → n < 2 ^ 64
      → arena_alloc alloc (record { blocks = b ∷ bs; block_size = size }) n
        ≡ (some b.used, record { blocks = b ∷ bs; block_size = size })
  unfolding arena_alloc arena_take place align_up
  alloc_wraps b bs size n (h₁, h₂, h₃) large small =
      let some_bytes : (if n == 0 then 1 else n) ≡ n = ground arith in
      let nothing : align_up n ≡ 0 = omega arith in
      let room : ltb b.cap ((b.used + 0) % 2 ^ 64) ≡ false = ground arith in
      let same : (b.used + 0) % 2 ^ 64 ≡ b.used = omega arith in
      rw (some_bytes, nothing) (rw room (rw same refl))

  -- A request so large that rounding it up wraps succeeds, and reserves nothing: for a well-formed
  -- arena it returns the end of what its first block has used, and the arena is as it was.
  pub arena_alloc_wraps :
      (a : Arena) (b : Block) (bs : List Block) (n : ℕ)
      → a.blocks ≡ b ∷ bs
      → IsBlock b
      → 2 ^ 64 - 15 ≤ n
      → n < 2 ^ 64
      → arena_alloc alloc a n ≡ (some b.used, a)
  arena_alloc_wraps a b bs n e h large small =
      let whole : a ≡ record { blocks = b ∷ bs; block_size = a.block_size } =
        ap (λ t. record { blocks = t; block_size = a.block_size }) e in
      subst (λ (x : Arena). arena_alloc alloc x n ≡ (some b.used, x)) (sym whole)
        (alloc_wraps b bs a.block_size n h large small)
