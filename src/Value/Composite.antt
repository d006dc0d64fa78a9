-- ===== src/Value/Composite.antt =====
-- src/value/tdb_value.c: copies of values, and composite values, which hold the record encoding of
-- their fields. `alloc n` says whether the allocator grants n bytes.
pub mod Fields
use transaction_db.Base.{
  ℕ, suc, ◌+◌, ◌-◌, ◌*◌, ◌%◌, ◌^◌, leb, take, Bool, Option, none, some, List, [], length, get_elem?,
  if◌then◌else◌, ltb,
}
use transaction_db.Base.Int.{ℤ, pos, negsuc}
use transaction_db.Status.{Result, ok, err, stuck, nomem, range, ◌>>=◌}
use transaction_db.Util.Buf.{Buf, init}
use transaction_db.Value.{Value, null, int, real, text, blob, composite}
use transaction_db.Value.Record.{record_encode, record_decode}

-- `sizeof(tdb_value)` on a 64-bit machine.
abbrev pub value_size : ℕ
value_size = 24

-- `(int)n` of a size, where `value_set_bytes` takes a negative length as 0.
unfoldable pub int_size : ℕ → ℕ
int_size n = let m = n % 2 ^ 32 in if ltb m (2 ^ 31) then m else 0

module _ (alloc : ℕ → Bool) where
  -- `value_set_bytes` with `copy` set: the bytes and a final NUL are copied.
  pub value_set_bytes : (List ℕ → Value) → List ℕ → Result Value
  value_set_bytes type p = if alloc (length p + 1) then ok (type p) else err nomem

  -- `tdb_value_copy` into another value.
  pub value_copy : Value → Result Value
  unfolding value_set_bytes
  value_copy null = ok null
  value_copy (int i) = ok (int i)
  value_copy (real r) = ok (real r)
  value_copy (text s) = value_set_bytes text s
  value_copy (blob s) = value_set_bytes blob s
  value_copy (composite s) = value_set_bytes composite s

  -- `tdb_value_composite_pack`
  pub composite_pack : List Value → Result Value
  composite_pack fields = do
    b ← record_encode alloc fields init
    value_set_bytes composite (take (int_size (length b.content)) b.content)

  -- The number of columns that a decoding reports, and 0 if it fails.
  pub count_of : Result (ℕ × List Value) → ℕ
  count_of (ok (nc, vs)) = nc
  count_of (err e) = 0
  count_of stuck = 0

  pub composite_count : Value → ℕ
  unfolding count_of
  composite_count (composite s) = count_of (record_decode alloc s 0)
  composite_count v = 0

  copy_field : Option Value → Result Value
  copy_field none = err range
  copy_field (some v) = value_copy v

  -- The branch of `tdb_value_composite_field` after a successful decoding.
  pub field_of : ℕ → ℕ × List Value → Result Value
  unfolding copy_field
  field_of i (nc, fs) = if ltb i nc then copy_field (get_elem? fs i) else err range

  -- `tdb_value_composite_field`. For the greatest `int`, `i + 1` overflows. The length of a composite
  -- is an `int`, so that it has fewer than 2 ^ 31 columns.
  pub composite_field : Value → ℤ → Result Value
  unfolding field_of
  composite_field (composite s) (pos i) =
      if leb (2 ^ 31 - 1) i
      then stuck
      else if alloc (value_size * (i + 1))
      then record_decode alloc s (i + 1) >>= field_of i
      else err nomem
  composite_field v i = err range
