-- ===== src/Value/Composite/Fields.antt =====
-- The fields of a packed composite.
use transaction_db.Base.{
  ℕ, zero, suc, ◌+◌, ◌-◌, ◌*◌, ◌%◌, leb, ap, ◌^◌, ◌<◌, ◌≤◌, ◌≡◌, refl, Bool, true, false, Option,
  none, some, List, [], ◌∷◌, arith, length, get_elem?, take, All, map, if◌then◌else◌, ltb,
  Option-cases, inl, inr,
}
use transaction_db.Base.Int.{pos}
use transaction_db.Status.{Result, ok, err, range}
use transaction_db.Util.Buf.{Buf, init}
use transaction_db.Value.Record.{record_encode}
use transaction_db.Value.{Value, IsValue, null, int, real, text, blob, composite}
use transaction_db.Value.Record.Encode.{encoding, room, record_encode-Wrote}
use transaction_db.Value.Record.Decode.{decoded}
use transaction_db.Value.Record.RoundTrip.{record_decode-encoding}
use transaction_db.Value.Composite.{
  int_size, value_set_bytes, value_copy, composite_pack, composite_count, composite_field, field_of,
}

-- What `tdb_value_composite_field` should yield: the field as the codec keeps it, or TDB_RANGE.
pub field : Option Value → Result Value
field none = err range
field (some v) = ok (decoded v)

get_elem?-decoded :
    (vs : List Value) (i : ℕ)
    → field (get_elem? vs i)
      ≡ elim (get_elem? (take (suc i) (map decoded vs)) i) [ none ↦ err range | some v ↦ ok v ]
unfolding field
get_elem?-decoded [] i = refl
get_elem?-decoded (v ∷ vs) zero = refl
get_elem?-decoded (v ∷ vs) (suc i) = get_elem?-decoded vs i

get_elem?-bound :
    (vs : List Value) (i : ℕ)
    → (if ltb i (length vs) then field (get_elem? vs i) else err range) ≡ field (get_elem? vs i)
unfolding field
get_elem?-bound [] i = ground arith
get_elem?-bound (v ∷ vs) zero = ground arith
get_elem?-bound (v ∷ vs) (suc i) = ground (arith, get_elem?-bound vs i)

take_all : (s : List ℕ) → take (length s) s ≡ s
take_all [] = refl
take_all (c ∷ s) = ap (λ t. c ∷ t) (take_all s)

-- Below 2 ^ 31 the cast keeps a length.
take-int_size : (s : List ℕ) → length s < 2 ^ 31 → take (int_size (length s)) s ≡ s
unfolding int_size
take-int_size s h =
    let same : length s % 2 ^ 32 ≡ length s = omega arith in
    let fits : ltb (length s) (2 ^ 31) ≡ true = ground arith in rw (same, fits) (take_all s)

module _ (alloc : ℕ → Bool) (granted : (n : ℕ) → alloc n ≡ true) where
  copy_granted : (v : Value) → value_copy alloc v ≡ ok v
  unfolding value_copy
  copy_granted null = refl
  copy_granted (int i) = refl
  copy_granted (real r) = refl
  copy_granted (text s) = rw granted
  copy_granted (blob s) = rw granted
  copy_granted (composite s) = rw granted

  encoded :
      (vs : List Value)
      → All IsValue vs
      → length vs < 2 ^ 31
      → 2 * room vs ≤ 2 ^ 61
      → (b : Buf) × (record_encode alloc vs init ≡ ok b) × (b.content ≡ encoding vs)
  unfolding init
  encoded vs h few small =
      let w = record_encode-Wrote alloc granted vs init h (omega arith) few (omega arith) in
      (w.out, w.granted, w.content)

  field_of-decoded :
      (vs : List Value) (i : ℕ)
      → field_of alloc i (length vs, take (suc i) (map decoded vs)) ≡ field (get_elem? vs i)
  unfolding field_of
  field_of-decoded vs i = elim (Option-cases (get_elem? (take (suc i) (map decoded vs)) i)) [
    | inl e ↦ ground (arith, get_elem?-bound vs i, get_elem?-decoded vs i)
    | inr (v, e) ↦ ground (arith, get_elem?-bound vs i, get_elem?-decoded vs i, copy_granted v)
  ]

  -- With memory to be had, for fewer than 2 ^ 31 fields that fit their C fields and whose record is
  -- shorter than 2 ^ 31 bytes, the encoder asking for a buffer that is not gigantic: the values pack
  -- into a composite, whose count is the number of the fields, and whose field `i`, for `i` below the
  -- greatest `int`, is the value at `i`, with a composite turned into the BLOB of its bytes, or
  -- TDB_RANGE where there is no value at `i`.
  pub composite_field-pack :
      (vs : List Value) (i : ℕ)
      → All IsValue vs
      → length vs < 2 ^ 31
      → 2 * room vs ≤ 2 ^ 61
      → length (encoding vs) < 2 ^ 31
      → i < 2 ^ 31 - 1
      → (c : Value) × (composite_pack alloc vs ≡ ok c)
        × (composite_count alloc c ≡ length vs)
        × (composite_field alloc c (pos i) ≡ field (get_elem? vs i))
  unfolding composite_pack composite_count composite_field value_set_bytes
  composite_field-pack vs i h few small short index =
      let (b, enc, bytes) = encoded vs h few small in
      let next : i + 1 ≡ suc i = omega arith in
      let below : leb (2 ^ 31 - 1) i ≡ false = ground arith in
      let whole : take (int_size (length b.content)) b.content ≡ b.content =
        take-int_size b.content (rw bytes short) in
      (
        composite b.content,
        rw enc (rw (whole, granted)),
        rw bytes (rw (record_decode-encoding alloc vs 0 granted h few)),
        rw (below, granted, next, bytes)
            (rw (record_decode-encoding alloc vs (suc i) granted h few) (field_of-decoded vs i)),
      )
