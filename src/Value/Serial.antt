-- ===== src/Value/Serial.antt =====
-- src/value/tdb_record.c: the serial type of a value, and integers of 1 to 8 big-endian bytes.
pub mod Bytes
use transaction_db.Base.{
  ℕ, zero, suc, ◌+◌, ◌-◌, ◌*◌, ◌/◌, ◌%◌, ◌^◌, ◌<◌, Bool, ◌&&◌, Option, none, some, List, [], ◌∷◌,
  length, ltb, leb, ◌==◌, if◌then◌else◌, bit_and, bit_or,
}
use transaction_db.Base.Int.{ℤ, pos, negsuc, leb_ℤ}
use transaction_db.Value.{Value, null, int, real, text, blob, composite}

-- `serial_body_len`; `none` where it returns a negative length, which is -1 for the reserved types
-- and a wrapped `int` for a length of 2 ^ 31 or more.
unfoldable pub serial_body_len : ℕ → Option ℕ
serial_body_len st =
    if st == 0
    then some 0
    else if st == 1
    then some 1
    else if st == 2
    then some 2
    else if st == 3
    then some 3
    else if st == 4
    then some 4
    else if st == 5
    then some 6
    else if st == 6
    then some 8
    else if st == 7
    then some 8
    else if st == 8
    then some 0
    else if st == 9
    then some 0
    else if leb 12 st
    then (let n = (st - 12) / 2 % 2 ^ 32 in if ltb n (2 ^ 31) then some n else none)
    else none

-- `int_serial_type`: the serial type, and `*body_len`.
unfoldable pub int_serial_type : ℤ → ℕ × ℕ
int_serial_type v =
    if leb_ℤ v (pos 0) && leb_ℤ (pos 0) v
    then (8, 0)
    else if leb_ℤ v (pos 1) && leb_ℤ (pos 1) v
    then (9, 0)
    else if leb_ℤ (negsuc 127) v && leb_ℤ v (pos 127)
    then (1, 1)
    else if leb_ℤ (negsuc 32767) v && leb_ℤ v (pos 32767)
    then (2, 2)
    else if leb_ℤ (negsuc 8388607) v && leb_ℤ v (pos 8388607)
    then (3, 3)
    else if leb_ℤ (negsuc 2147483647) v && leb_ℤ v (pos 2147483647)
    then (4, 4)
    else if leb_ℤ (negsuc 140737488355327) v && leb_ℤ v (pos 140737488355327)
    then (5, 6)
    else (6, 8)

-- `(uint8_t)(v & 0xff)` and `v >>= 8`, in two's complement: -(n + 1) is the complement of n.
unfoldable pub low_byte : ℤ → ℕ
low_byte (pos n) = n % 256
low_byte (negsuc n) = 255 - n % 256

unfoldable pub shift_right : ℤ → ℤ
shift_right (pos n) = pos (n / 256)
shift_right (negsuc n) = negsuc (n / 256)

-- The loop of `put_be_signed`, which fills `p[i - 1]` down to `p[0]`.
unfoldable pub put_be_loop : ℕ → ℤ → List ℕ → List ℕ
put_be_loop zero v out = out
put_be_loop (suc i) v out = put_be_loop i (shift_right v) (low_byte v ∷ out)

unfoldable pub put_be_signed : ℤ → ℕ → List ℕ
put_be_signed v n = put_be_loop n v []

-- `(v << 8) | b`: for -(n + 1) the low byte of the complement is that of b.
unfoldable pub shift_in : ℤ → ℕ → ℤ
shift_in (pos n) b = pos (bit_or (n * 2 ^ 8) b)
shift_in (negsuc n) b = negsuc (n * 2 ^ 8 + (255 - b))

unfoldable pub get_be_loop : ℕ → List ℕ → ℤ → ℤ
get_be_loop zero p v = v
get_be_loop (suc i) [] v = v
get_be_loop (suc i) (b ∷ bs) v = get_be_loop i bs (shift_in v b)

-- `(p[0] & 0x80) ? -1 : 0`
unfoldable pub sign_of : List ℕ → ℤ
sign_of [] = pos 0
sign_of (b ∷ bs) = if bit_and b 0x80 == 0 then pos 0 else negsuc 0

unfoldable pub get_be_signed : List ℕ → ℕ → ℤ
get_be_signed p n = if n == 0 then pos 0 else get_be_loop n p (sign_of p)

-- The serial type and the body length that `tdb_record_encode` computes for a value.
unfoldable pub serial_of : Value → ℕ × ℕ
serial_of null = (0, 0)
serial_of (int v) = int_serial_type v
serial_of (real r) = (7, 8)
serial_of (text s) = (13 + 2 * length s, length s)
serial_of (blob s) = (12 + 2 * length s, length s)
serial_of (composite s) = (12 + 2 * length s, length s)
