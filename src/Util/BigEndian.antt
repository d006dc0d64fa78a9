-- ===== src/Util/BigEndian.antt =====
-- src/common/tdb_util.c: big-endian integers. A pointer is the list of the bytes from it on; the
-- callers see to it that enough bytes are there, and a missing one is read as 0.
use transaction_db.Base.{
  ℕ, ◌+◌, ◌*◌, ◌/◌, ◌%◌, ◌^◌, ◌<◌, ◌≡◌, refl, ◌∙◌, bit_or, List, [], ◌∷◌, ◌++◌, arith, length,
  get_or, drop, append_assoc,
}
use transaction_db.Base.Bits.{bit_or_high_low}
use transaction_db.Util.Varint.{IsByte, IsU64}

-- The two bytes that `tdb_put_u16` writes.
unfoldable pub put_u16 : ℕ → List ℕ
put_u16 v = v / 2 ^ 8 % 256 ∷ v % 256 ∷ []

unfoldable pub put_u32 : ℕ → List ℕ
put_u32 v = v / 2 ^ 24 % 256 ∷ v / 2 ^ 16 % 256 ∷ v / 2 ^ 8 % 256 ∷ v % 256 ∷ []

unfoldable pub put_u64 : ℕ → List ℕ
put_u64 v = put_u32 (v / 2 ^ 32 % 2 ^ 32) ++ put_u32 (v % 2 ^ 32)

unfoldable pub get_u16 : List ℕ → ℕ
get_u16 p = bit_or (get_or p 0 0 * 2 ^ 8) (get_or p 1 0)

unfoldable pub get_u32 : List ℕ → ℕ
get_u32 p =
    bit_or (bit_or (bit_or (get_or p 0 0 * 2 ^ 24) (get_or p 1 0 * 2 ^ 16)) (get_or p 2 0 * 2 ^ 8))
      (get_or p 3 0)

unfoldable pub get_u64 : List ℕ → ℕ
get_u64 p = bit_or (get_u32 p * 2 ^ 32) (get_u32 (drop 4 p))

-- The value of bytes, the highest first.
abbrev pub from_bytes : ℕ → List ℕ → ℕ
from_bytes acc [] = acc
from_bytes acc (b ∷ bs) = from_bytes (acc * 256 + b) bs

pub get_u16_bytes :
    (a b : ℕ) (rest : List ℕ) → IsByte a → IsByte b → get_u16 (a ∷ b ∷ rest) ≡ a * 256 + b
unfolding get_u16
get_u16_bytes a b rest ha hb = bit_or_high_low 8 b a hb

pub get_u32_bytes :
    (a b c d : ℕ) (rest : List ℕ)
    → IsByte a
    → IsByte b
    → IsByte c
    → IsByte d
    → get_u32 (a ∷ b ∷ c ∷ d ∷ rest) ≡ a * 2 ^ 24 + b * 2 ^ 16 + c * 2 ^ 8 + d
unfolding get_u32
get_u32_bytes a b c d rest ha hb hc hd =
    let e₁ : bit_or (a * 2 ^ 24) (b * 2 ^ 16) ≡ (a * 2 ^ 8 + b) * 2 ^ 16 =
      bit_or_high_low 24 (b * 2 ^ 16) a (omega arith) ∙ omega arith in
    let e₂ : bit_or ((a * 2 ^ 8 + b) * 2 ^ 16) (c * 2 ^ 8) ≡ (a * 2 ^ 16 + b * 2 ^ 8 + c) * 2 ^ 8 =
      bit_or_high_low 16 (c * 2 ^ 8) (a * 2 ^ 8 + b) (omega arith) ∙ omega arith in
    rw (e₁, e₂) (bit_or_high_low 8 d (a * 2 ^ 16 + b * 2 ^ 8 + c) hd ∙ omega arith)

-- Reading back what was written, whatever follows it.
pub get_u16-put_u16 : (v : ℕ) (rest : List ℕ) → v < 2 ^ 16 → get_u16 (put_u16 v ++ rest) ≡ v
unfolding put_u16
get_u16-put_u16 v rest h =
    get_u16_bytes (v / 2 ^ 8 % 256) (v % 256) rest (omega arith) (omega arith) ∙ omega arith

pub get_u32-put_u32 : (v : ℕ) (rest : List ℕ) → v < 2 ^ 32 → get_u32 (put_u32 v ++ rest) ≡ v
unfolding put_u32
get_u32-put_u32 v rest h =
    get_u32_bytes (v / 2 ^ 24 % 256) (v / 2 ^ 16 % 256) (v / 2 ^ 8 % 256) (v % 256) rest
      (omega arith) (omega arith) (omega arith) (omega arith)
    ∙ omega arith

pub drop-put_u32 : (v : ℕ) (rest : List ℕ) → drop 4 (put_u32 v ++ rest) ≡ rest
unfolding put_u32
drop-put_u32 v rest = refl

pub length-put_u32 : (v : ℕ) → length (put_u32 v) ≡ 4
unfolding put_u32
length-put_u32 v = refl

-- For every v below 2 ^ 64 and every list of bytes after it, `tdb_get_u64` reads back from the
-- eight bytes that `tdb_put_u64` writes the number v.
pub get_u64-put_u64 : (v : ℕ) (rest : List ℕ) → IsU64 v → get_u64 (put_u64 v ++ rest) ≡ v
unfolding put_u64 get_u64
get_u64-put_u64 v rest h =
    let hi : ℕ = v / 2 ^ 32 % 2 ^ 32 in
    let lo : ℕ = v % 2 ^ 32 in
    rw
      (
        append_assoc (put_u32 hi) (put_u32 lo) rest,
        get_u32-put_u32 hi (put_u32 lo ++ rest) (omega arith),
        drop-put_u32 hi (put_u32 lo ++ rest),
        get_u32-put_u32 lo rest (omega arith),
      )
      (bit_or_high_low 32 lo hi (omega arith) ∙ omega arith)

pub length-put_u64 : (v : ℕ) → length (put_u64 v) ≡ 8
unfolding put_u64 put_u32
length-put_u64 v = refl
