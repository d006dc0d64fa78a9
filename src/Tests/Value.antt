-- ===== src/Tests/Value.antt =====
-- src/value on concrete inputs.
use transaction_db.Value.Sqltype.{typespec_parse, typeid_name, t_decimal}
use transaction_db.Value.Sqltype.Names.{IsSpec, typespec_parse-typeid_name}
use transaction_db.Value.Keys.{record_compare}
use transaction_db.Value.Keys.Order.{flip_result, record_compare-flip}
use transaction_db.Base.{Option, ◌++◌, ltb, none, some}
use transaction_db.Base.Int.{pos_part}
use transaction_db.Value.Compare.{RealOps, nocase, value_compare}
use transaction_db.Value.Compare.Order.{flip, value_compare-flip}
use transaction_db.Value.Affinity.{NumberOps}
use transaction_db.Base.{
  ℕ, ◌≡◌, refl, Bool, true, List, [], ◌∷◌, arith, length, take, map, get_elem?,
}
use transaction_db.Base.Int.{ℤ, pos, negsuc}
use transaction_db.Status.{ok}
use transaction_db.Util.Buf.{Buf, init}
use transaction_db.Value.{Value, null, int, text, composite}
use transaction_db.Util.Varint.{get_varint, get_varint_loop}
use transaction_db.Value.Serial.{
  get_be_signed, get_be_loop, sign_of, shift_in, serial_body_len, serial_of, int_serial_type,
}
use transaction_db.Value.Record.{
  record_encode, record_decode, read_serials, decode_bodies, read_types, read_bodies, read_body,
}
use transaction_db.Value.Record.Decode.{decoded}
use transaction_db.Value.Record.Encode.{length-encoding}
use transaction_db.Value.Record.RoundTrip.{record_decode-record_encode}
use transaction_db.Value.Record.Bounds.{IsBounded, record_decode-IsBounded}
use transaction_db.Value.Composite.{composite_pack, composite_count, composite_field}
use transaction_db.Value.Composite.Fields.{field, composite_field-pack}

abbrev plenty : ℕ → Bool
plenty n = true

-- NULL, -2, 'hi', and a composite.
abbrev row : List Value
row = null ∷ int (negsuc 1) ∷ text (104 ∷ 105 ∷ []) ∷ composite (1 ∷ 8 ∷ []) ∷ []

record_decode-record_encode_example :
    (b : Buf) × (record_encode plenty row init ≡ ok b)
    × (record_decode plenty b.content 3 ≡ ok (length row, take 3 (map decoded row)))
unfolding serial_of int_serial_type
record_decode-record_encode_example =
    record_decode-record_encode plenty row 3 (λ n. refl) (omega arith) (omega arith) (omega arith)

-- One column, the integer 5.
decode_five : record_decode plenty (1 ∷ 1 ∷ 5 ∷ []) 4 ≡ ok (1, int (pos 5) ∷ [])
unfolding record_decode read_types decode_bodies read_serials read_bodies read_body get_varint
    get_varint_loop serial_body_len get_be_signed get_be_loop sign_of shift_in
decode_five = refl

record_decode-IsBounded_example :
    IsBounded (1 ∷ 1 ∷ 5 ∷ []) 4 (record_decode plenty (1 ∷ 1 ∷ 5 ∷ []) 4)
record_decode-IsBounded_example =
    record_decode-IsBounded plenty (1 ∷ 1 ∷ 5 ∷ []) 4 (omega arith)
      (unfold get_varint get_varint_loop in omega arith)

composite_field-pack_example :
    (c : Value) × (composite_pack plenty row ≡ ok c)
    × (composite_count plenty c ≡ length row)
    × (composite_field plenty c (pos 3) ≡ field (get_elem? row 3))
unfolding serial_of int_serial_type
composite_field-pack_example =
    composite_field-pack plenty (λ n. refl) row 3 (omega arith) (omega arith) (omega arith)
      (omega (arith, length-encoding plenty (λ n. refl) row (omega arith) (omega arith)))
      (omega arith)

-- Numbers in place of floating-point ones.
abbrev plain_order : RealOps
plain_order = record { lt = ltb; of_int = λ i. pos_part i }

abbrev no_numbers : NumberOps
no_numbers = record {
  strtoll = λ s. none;
  strtod = λ s. some 7;
  is_whole = λ r. true;
  to_int = λ r. pos r;
  of_int = λ i. pos_part i;
  print_int = λ i. [];
  print_real = λ r. [];
}

value_compare-flip_example :
    value_compare plain_order nocase (text (b'B' ∷ [])) (text (b'a' ∷ []))
    ≡ flip (value_compare plain_order nocase (text (b'a' ∷ [])) (text (b'B' ∷ [])))
value_compare-flip_example =
    value_compare-flip plain_order (λ a b h. ground arith) nocase (text (b'a' ∷ []))
      (text (b'B' ∷ []))

record_compare-flip_example :
    record_compare plain_order none (λ n. true) (1 ∷ 9 ∷ []) (1 ∷ 8 ∷ [])
    ≡ flip_result (record_compare plain_order none (λ n. true) (1 ∷ 8 ∷ []) (1 ∷ 9 ∷ []))
record_compare-flip_example =
    record_compare-flip plain_order (λ a b h. ground arith) none (λ n. true) (1 ∷ 8 ∷ [])
      (1 ∷ 9 ∷ []) (omega arith) (omega arith) (unfold get_varint get_varint_loop in omega arith)
      (unfold get_varint get_varint_loop in omega arith)

-- A scan that finds two numbers.
abbrev two_sizes : List ℕ → Option (ℤ × Option ℤ)
two_sizes s = some (pos 10, some (negsuc 1))

typespec_parse-typeid_name_example :
    IsSpec t_decimal none (typespec_parse two_sizes (some (typeid_name t_decimal)))
    × IsSpec t_decimal
        (two_sizes (b'(' ∷ []))
        (typespec_parse two_sizes (some (typeid_name t_decimal ++ (b'(' ∷ []))))
typespec_parse-typeid_name_example = typespec_parse-typeid_name two_sizes t_decimal [] (λ e. cc)
