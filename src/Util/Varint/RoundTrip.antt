-- ===== src/Util/Varint/RoundTrip.antt =====
-- `tdb_get_varint` after `tdb_put_varint`.
use transaction_db.Base.{
  ℕ, zero, suc, ◌+◌, ◌*◌, ◌/◌, ◌%◌, ◌^◌, ◌<◌, ◌≡◌, ap, none, some, List, [], ◌∷◌, ◌++◌, arith,
  length, length-append, Option-cases, inl, inr, bit_or,
}
use transaction_db.Base.Bits.{low_bits, top_bit, set_top_bit, bit_or_low_high}
use transaction_db.Util.Varint.{IsU64, put_varint_loop, put_varint, get_varint_loop, get_varint}
use transaction_db.Util.Varint.Decode.{get_varint-append, get_varint_takes}
use mathlib.Core.List.{append-nil}
use transaction_db.Base.Order.{lt_wf}
use mathlib.Core.WellFounded.{Acc}
use native.Mathlib.Nat.{div-add-mod}
use native.Mathlib.Numerals.{towards_suc}

next_shift : (k : ℕ) → 2 ^ (k + 7) ≡ 128 * 2 ^ k
next_shift k = simp towards_suc (omega arith)

-- The lowest group of `v` and the rest, both shifted by `s`.
split_group : (v s : ℕ) → v * 2 ^ s ≡ v % 128 * 2 ^ s + v / 128 * 2 ^ (s + 7)
split_group v s = omega (
  arith,
  ap (λ (t : ℕ). t * 2 ^ s) (div-add-mod v 128),
  ap (λ (t : ℕ). v / 128 * t) (next_shift s),
)

-- A group below 128 joins a result that lies below bit `s`.
join_group :
    (g s result : ℕ)
    → g < 128
    → result < 2 ^ s
    → IsU64 (result + g * 2 ^ s)
    → (bit_or result (g * 2 ^ s % 2 ^ 64) ≡ result + g * 2 ^ s) × (result + g * 2 ^ s < 2 ^ (s + 7))
join_group g s result hg hr fits =
    let same : g * 2 ^ s % 2 ^ 64 ≡ g * 2 ^ s = omega arith in
    (rw same (bit_or_low_high s result g hr), grind (arith, next_shift s))

-- One round on a last byte, and on a byte with its top bit set.
last_byte :
    (v i shift result : ℕ) (rest : List ℕ)
    → v < 128
    → i < 10
    → result < 2 ^ shift
    → IsU64 (result + v * 2 ^ shift)
    → get_varint_loop (v % 256 ∷ rest) i shift result ≡ some (result + v * 2 ^ shift, i + 1)
unfolding get_varint_loop
last_byte v i shift result rest hv hi hr fits =
    let same : v % 256 ≡ v = omega arith in
    rw same (ground (arith, low_bits v, top_bit v, join_group v shift result))

inner_byte :
    (g i shift result : ℕ) (rest : List ℕ)
    → g < 128
    → i < 10
    → result < 2 ^ shift
    → IsU64 (result + g * 2 ^ shift)
    → get_varint_loop ((g + 128) ∷ rest) i shift result
      ≡ get_varint_loop rest (i + 1) (shift + 7) (result + g * 2 ^ shift)
unfolding get_varint_loop
inner_byte g i shift result rest hg hi hr fits =
    ground (arith, low_bits (g + 128), top_bit (g + 128), join_group g shift result)

get-put_loop :
    (k v i shift result : ℕ) (rest : List ℕ) (w : Acc ◌<◌ v)
    → i + suc k ≡ 10
    → v < 128 ^ suc k
    → result < 2 ^ shift
    → IsU64 (result + v * 2 ^ shift)
    → get_varint_loop (put_varint_loop v w ++ rest) i shift result
      ≡ some (result + v * 2 ^ shift, i + length (put_varint_loop v w))
unfolding put_varint_loop
get-put_loop zero v i shift result rest (Acc.intro _ smaller) hi hv hr fits =
    grind (arith, last_byte v i shift result rest)
get-put_loop (suc k) v i shift result rest (Acc.intro _ smaller) hi hv hr fits = grind (
  arith,
  last_byte v i shift result rest,
  split_group v shift,
  set_top_bit v,
  join_group (v % 128) shift result,
  λ (w : Acc ◌<◌ (v / 128)).
      inner_byte (v % 128) i shift result (put_varint_loop (v / 128) w ++ rest),
  λ (w : Acc ◌<◌ (v / 128)).
      get-put_loop k (v / 128) (i + 1) (shift + 7) (result + v % 128 * 2 ^ shift) rest w,
)

-- `tdb_get_varint` reads back the `uint64_t` that `tdb_put_varint` wrote, with the number of its
-- bytes, whatever follows them.
pub get_varint-put_varint :
    (v : ℕ) (rest : List ℕ)
    → IsU64 v
    → get_varint (put_varint v ++ rest) ≡ some (v, length (put_varint v))
unfolding get_varint put_varint
get_varint-put_varint v rest h =
    ground (arith, get-put_loop 9 v 0 0 0 rest (lt_wf.apply v) (omega arith) (omega arith))

-- On every proper prefix of what `tdb_put_varint` wrote for a `uint64_t`, `tdb_get_varint` returns 0.
pub get_varint_truncated :
    (v x : ℕ) (front back : List ℕ)
    → IsU64 v
    → put_varint v ≡ front ++ (x ∷ back)
    → get_varint front ≡ none
get_varint_truncated v x front back h e = elim (Option-cases (get_varint front)) [
  | inl failed ↦ failed
  | inr ((u, n), r) ↦ absurd (
      ground (
        arith,
        whole,
        get_varint-append front (x ∷ back) (u, n) r,
        get_varint_takes front u n r,
        length-append front (x ∷ back),
      ))
]
  where
    whole : get_varint (front ++ (x ∷ back)) ≡ some (v, length (front ++ (x ∷ back)))
    whole = rw (append-nil, e) at (get_varint-put_varint v [] h)
