-- ===== src/Value.antt =====
-- src/value: run-time SQL values, their serial types, and the record codec.
pub mod Serial
pub mod Record
pub mod Composite
pub mod Compare
pub mod Affinity
pub mod Keys
pub mod Sqltype
use transaction_db.Base.{ℕ, ◌^◌, ◌<◌, ◌≤◌, List, length}
use transaction_db.Base.Int.{ℤ, pos, negsuc, ◌≤ℤ◌}

-- `struct tdb_value`. A `double` is its 64-bit pattern, which the codec copies as it is; the bytes
-- behind `u.s.p` are a list, so `u.s.n` is its length. Who owns the bytes is not modelled.
pub data Value : Type 0 where
  null : Value
  int : ℤ → Value
  real : ℕ → Value
  text : List ℕ → Value
  blob : List ℕ → Value
  composite : List ℕ → Value

-- What an `int64_t` can hold.
abbrev pub IsInt64 : ℤ → Type 0
IsInt64 (pos n) = n < 2 ^ 63
IsInt64 (negsuc n) = n < 2 ^ 63

-- What the fields of the C struct can hold: an `int64_t`, a 64-bit pattern, an `int` as the length.
abbrev pub IsValue : Value → Type 0
IsValue Value.null = Unit
IsValue (Value.int i) = IsInt64 i
IsValue (Value.real r) = r < 2 ^ 64
IsValue (Value.text s) = length s < 2 ^ 31
IsValue (Value.blob s) = length s < 2 ^ 31
IsValue (Value.composite s) = length s < 2 ^ 31
