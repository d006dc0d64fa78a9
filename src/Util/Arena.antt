-- ===== src/Util/Arena.antt =====
-- common/tdb_mem.c: the arena. Its blocks are a list with the current one first; `alloc n` says whether
-- the C library's allocator grants n bytes. The arithmetic is that of a 64-bit `size_t`.
pub mod Bounds
use transaction_db.Base.{
  ℕ, ◌+◌, ◌-◌, ◌%◌, ◌^◌, Bool, true, false, not, Option, none, some, List, [], ◌∷◌, ltb, leb, ◌==◌,
  if◌then◌else◌,
}

-- `tdb_arena_block`
pub record Block : Type 0 where
  pub used : ℕ
  pub cap : ℕ

-- `tdb_arena`
pub record Arena : Type 0 where
  pub blocks : List Block
  pub block_size : ℕ

-- `tdb_align_up`: the mask takes the lowest four bits away.
unfoldable pub align_up : ℕ → ℕ
align_up n = (n + 15) % 2 ^ 64 - (n + 15) % 2 ^ 64 % 16

-- The bytes of a block before its data, and of the arena.
abbrev pub block_header : ℕ
block_header = 24

abbrev pub arena_bytes : ℕ
arena_bytes = 16

module _ (alloc : ℕ → Bool) where
  unfoldable pub arena_block_new : ℕ → Option Block
  arena_block_new cap =
      if alloc ((block_header + cap) % 2 ^ 64) then some record { used = 0; cap = cap } else none

  unfoldable pub with_first : ℕ → Option Block → Option Arena
  with_first size none = none
  with_first size (some b) = some record { blocks = b ∷ []; block_size = size }

  unfoldable pub arena_new : ℕ → Option Arena
  arena_new size =
      let size' = if ltb size 4096 then 4096 else size in
      if alloc arena_bytes then with_first size' (arena_block_new size') else none

  -- The bytes `used .. used + n` of the first block.
  unfoldable pub place : Arena → Block → List Block → ℕ → Option ℕ × Arena
  place a b bs n =
      (some b.used, record a { blocks = record b { used = (b.used + n) % 2 ^ 64 } ∷ bs })

  unfoldable pub place_new : Arena → ℕ → Option Block → Option ℕ × Arena
  place_new a n none = (none, a)
  place_new a n (some b) = place a b a.blocks n

  unfoldable pub arena_take : Arena → ℕ → Option ℕ × Arena
  arena_take a n = elim a.blocks [
    | [] ↦ (none, a)
    | b ∷ bs ↦
        if ltb b.cap ((b.used + n) % 2 ^ 64)
        then place_new a n (arena_block_new (if ltb a.block_size n then n else a.block_size))
        else place a b bs n
  ]

  -- `tdb_arena_alloc`: the place of the bytes in the data of the block that is first then.
  unfoldable pub arena_alloc : Arena → ℕ → Option ℕ × Arena
  arena_alloc a n = arena_take a (align_up (if n == 0 then 1 else n))
