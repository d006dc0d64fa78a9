-- ===== src/Util/Varint.antt =====
-- src/common/tdb_util.c: variable-length encoding of a `uint64_t`, seven bits a byte, lowest first.
pub mod Encode
pub mod Decode
pub mod RoundTrip
use transaction_db.Base.{
  ℕ, suc, ◌+◌, ◌*◌, ◌/◌, ◌%◌, ◌^◌, ◌<◌, bit_and, bit_or, Option, none, some, List, [], ◌∷◌, arith,
  leb, ◌==◌, if◌then◌else◌, dec_lt,
}
use transaction_db.Base.Order.{lt_wf}
use mathlib.Core.Logic.{dite}
use mathlib.Core.WellFounded.{Acc}

abbrev pub IsByte : ℕ → Type 0
IsByte b = b < 256

abbrev pub IsU64 : ℕ → Type 0
IsU64 v = v < 2 ^ 64

pub shift_shrinks : (v : ℕ) → ¬ (v < 0x80) → v / 128 < v
shift_shrinks v h = omega arith

-- `while (v >= 0x80) { v >>= 7; n++; }`
unfoldable pub varint_len_loop : (n v : ℕ) → Acc ◌<◌ v → ℕ
varint_len_loop n v (Acc.intro _ smaller) =
    dite (dec_lt v 0x80) (λ _. n)
      (λ h. varint_len_loop (n + 1) (v / 128) (smaller _ (shift_shrinks v h)))

unfoldable pub varint_len : ℕ → ℕ
varint_len v = varint_len_loop 1 v (lt_wf.apply v)

-- The bytes that the loop of `tdb_put_varint` and the store behind it write from `p + i` on.
unfoldable pub put_varint_loop : (v : ℕ) → Acc ◌<◌ v → List ℕ
put_varint_loop v (Acc.intro _ smaller) =
    dite (dec_lt v 0x80) (λ _. v % 256 ∷ [])
      (λ h. bit_or v 0x80 % 256 ∷ put_varint_loop (v / 128) (smaller _ (shift_shrinks v h)))

-- What `tdb_put_varint` writes at `p`; it returns the number of those bytes.
unfoldable pub put_varint : ℕ → List ℕ
put_varint v = put_varint_loop v (lt_wf.apply v)

-- The loop of `tdb_get_varint`. The list is `p[i] .. p[avail - 1]`.
unfoldable pub get_varint_loop : List ℕ → ℕ → ℕ → ℕ → Option (ℕ × ℕ)
get_varint_loop [] i shift result = none
get_varint_loop (b ∷ bs) i shift result =
    let result' = bit_or result (bit_and b 0x7f * 2 ^ shift % 2 ^ 64) in
    let rest = get_varint_loop bs (i + 1) (shift + 7) result' in
    if leb 10 i then none else if bit_and b 0x80 == 0 then some (result', i + 1) else rest

-- `tdb_get_varint` over the `avail` bytes of the list: the value that it stores and the count that
-- it returns, and `none` where it returns 0.
unfoldable pub get_varint : List ℕ → Option (ℕ × ℕ)
get_varint p = get_varint_loop p 0 0 0
