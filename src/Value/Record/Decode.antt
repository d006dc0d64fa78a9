-- ===== src/Value/Record/Decode.antt =====
-- `tdb_record_decode` on what `tdb_record_encode` wrote: one value.
use transaction_db.Base.{
  take-append, ℕ, ◌+◌, ◌*◌, ◌%◌, ◌^◌, ◌<◌, ◌≤◌, ◌≡◌, refl, ap, List, ◌++◌, length, arith, some,
  ◌==◌, if◌then◌else◌,
}
use transaction_db.Base.Int.{ℤ, pos, negsuc}
use transaction_db.Util.BigEndian.{put_u64, get_u64-put_u64}
use transaction_db.Value.{Value, IsValue, IsInt64, null, int, real, text, blob, composite}
use transaction_db.Value.Serial.{serial_of, int_serial_type, serial_body_len, put_be_signed}
use transaction_db.Value.Serial.Bytes.{get-put_be_signed}
use transaction_db.Value.Record.{body_of, read_body}

-- What a value is after a round trip: a composite comes back as the BLOB of its bytes.
pub decoded : Value → Value
decoded null = null
decoded (int v) = int v
decoded (real r) = real r
decoded (text s) = text s
decoded (blob s) = blob s
decoded (composite s) = blob s

-- An integer of any size comes back from its serial type and body.
read_body-int :
    (v : ℤ) (rest : List ℕ)
    → IsInt64 v
    → read_body
        (int_serial_type v).0
        (int_serial_type v).1
        (put_be_signed v (int_serial_type v).1 ++ rest)
      ≡ int v
unfolding read_body int_serial_type
read_body-int (pos n) rest h = ground (
  arith,
  get-put_be_signed 0 (pos n) rest,
  get-put_be_signed 1 (pos n) rest,
  get-put_be_signed 2 (pos n) rest,
  get-put_be_signed 3 (pos n) rest,
  get-put_be_signed 5 (pos n) rest,
  get-put_be_signed 7 (pos n) rest,
)
read_body-int (negsuc n) rest h = ground (
  arith,
  get-put_be_signed 0 (negsuc n) rest,
  get-put_be_signed 1 (negsuc n) rest,
  get-put_be_signed 2 (negsuc n) rest,
  get-put_be_signed 3 (negsuc n) rest,
  get-put_be_signed 5 (negsuc n) rest,
  get-put_be_signed 7 (negsuc n) rest,
)

serial_body_len-int : (v : ℤ) → serial_body_len (int_serial_type v).0 ≡ some (int_serial_type v).1
unfolding serial_body_len int_serial_type
serial_body_len-int v = ground arith

-- The decoder reads off the serial type the length that the encoder wrote.
pub serial_body_len-serial_of :
    (v : Value) → IsValue v → serial_body_len (serial_of v).0 ≡ some (serial_of v).1
unfolding serial_of
serial_body_len-serial_of null h = unfold serial_body_len in refl
serial_body_len-serial_of (int v) h = serial_body_len-int v
serial_body_len-serial_of (real r) h = unfold serial_body_len in refl
serial_body_len-serial_of (text s) h = unfold serial_body_len in ground arith
serial_body_len-serial_of (blob s) h = unfold serial_body_len in ground arith
serial_body_len-serial_of (composite s) h = unfold serial_body_len in ground arith

read_body-bytes :
    (st : ℕ) (s rest : List ℕ)
    → 12 ≤ st
    → read_body st (length s) (s ++ rest) ≡ (if st % 2 == 0 then blob s else text s)
unfolding read_body
read_body-bytes st s rest h = ground (arith, take-append s rest)

read_body-real : (r : ℕ) (rest : List ℕ) → r < 2 ^ 64 → read_body 7 8 (put_u64 r ++ rest) ≡ real r
unfolding read_body
read_body-real r rest h = ap real (get_u64-put_u64 r rest h)

pub read_body-body_of :
    (v : Value) (rest : List ℕ)
    → IsValue v
    → read_body (serial_of v).0 (serial_of v).1 (body_of v (serial_of v).1 ++ rest) ≡ decoded v
unfolding serial_of body_of decoded
read_body-body_of null rest h = unfold read_body in refl
read_body-body_of (int v) rest h = read_body-int v rest h
read_body-body_of (real r) rest h = read_body-real r rest h
read_body-body_of (text s) rest h = ground (arith, read_body-bytes (13 + 2 * length s) s rest)
read_body-body_of (blob s) rest h = ground (arith, read_body-bytes (12 + 2 * length s) s rest)
read_body-body_of (composite s) rest h = ground (arith, read_body-bytes (12 + 2 * length s) s rest)
