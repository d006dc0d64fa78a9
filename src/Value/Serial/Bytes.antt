-- ===== src/Value/Serial/Bytes.antt =====
-- The round trip of an integer through its big-endian bytes.
use transaction_db.Base.{
  ℕ, zero, suc, ◌+◌, ◌-◌, ◌*◌, ◌/◌, ◌%◌, ◌^◌, ◌<◌, ◌≡◌, refl, ap, ◌∙◌, List, [], ◌∷◌, ◌++◌, arith,
  length, bit_and,
}
use transaction_db.Base.Bits.{bit_or_high_low, top_bit}
use transaction_db.Base.Int.{ℤ, pos, negsuc}
use transaction_db.Util.Varint.{IsByte}
use transaction_db.Value.Serial.{
  low_byte, shift_right, put_be_loop, put_be_signed, shift_in, get_be_loop, sign_of, get_be_signed,
}

pub low_byte-IsByte : (v : ℤ) → IsByte (low_byte v)
unfolding low_byte
low_byte-IsByte (pos n) = omega arith
low_byte-IsByte (negsuc n) = omega arith

-- Shifting a byte out and in again changes nothing.
pub shift_in-shift_right : (v : ℤ) → shift_in (shift_right v) (low_byte v) ≡ v
unfolding shift_in shift_right low_byte
shift_in-shift_right (pos n) =
    ap pos (bit_or_high_low 8 (n % 256) (n / 256) (omega arith) ∙ omega arith)
shift_in-shift_right (negsuc n) = ap negsuc (omega arith)

-- `v` without its low `n` bytes.
abbrev pub without : ℕ → ℤ → ℤ
without zero v = v
without (suc n) v = without n (shift_right v)

-- Reading the bytes of `v` behind those already written, from the part of `v` above them on.
get-put_loop :
    (n m : ℕ) (v : ℤ) (out : List ℕ)
    → get_be_loop (n + m) (put_be_loop n v out) (without n v) ≡ get_be_loop m out v
unfolding put_be_loop get_be_loop
get-put_loop zero m v out = let e : 0 + m ≡ m = omega arith in rw e
get-put_loop (suc n) m v out =
    let e : suc n + m ≡ n + suc m = omega arith in
    rw e (get-put_loop n (suc m) (shift_right v) (low_byte v ∷ out) ∙ rw (shift_in-shift_right v))

-- `n` for the integers `n` and -(n + 1).
abbrev pub magnitude : ℤ → ℕ
magnitude (pos n) = n
magnitude (negsuc n) = n

-- The first byte written is the lowest byte of what is left above the others.
first_byte :
    (n : ℕ) (v : ℤ) (out : List ℕ)
    → (rest : List ℕ) × (put_be_loop (suc n) v out ≡ low_byte (without n v) ∷ rest)
unfolding put_be_loop
first_byte zero v out = (out, refl)
first_byte (suc n) v out = first_byte n (shift_right v) (low_byte v ∷ out)

without-shift_right : (n : ℕ) (v : ℤ) → without n (shift_right v) ≡ shift_right (without n v)
without-shift_right zero v = refl
without-shift_right (suc n) v = without-shift_right n (shift_right v)

magnitude-shift_right : (v : ℤ) → magnitude (shift_right v) ≡ magnitude v / 256
unfolding shift_right
magnitude-shift_right (pos n) = refl
magnitude-shift_right (negsuc n) = refl

magnitude-without : (n : ℕ) (v : ℤ) → magnitude v < 128 * 256 ^ n → magnitude (without n v) < 128
magnitude-without zero v h = omega arith
magnitude-without (suc n) v h =
    magnitude-without n (shift_right v) (omega (arith, magnitude-shift_right v))

-- The sign bit of a byte says what lies above the byte.
sign_byte :
    (w : ℤ) (rest : List ℕ) → magnitude w < 128 → sign_of (low_byte w ∷ rest) ≡ shift_right w
unfolding sign_of low_byte shift_right
sign_byte (pos n) rest h =
    let top : bit_and (n % 256) 0x80 ≡ 0 = omega (arith, top_bit (n % 256) (omega arith)) in
    rw top (ap pos (omega arith))
sign_byte (negsuc n) rest h =
    let top : bit_and (255 - n % 256) 0x80 ≡ 128 =
      omega (arith, top_bit (255 - n % 256) (omega arith)) in
    rw top (ap negsuc (omega arith))

sign_of-put :
    (n : ℕ) (v : ℤ) (out : List ℕ)
    → magnitude v < 128 * 256 ^ n
    → sign_of (put_be_loop (suc n) v out) ≡ without (suc n) v
sign_of-put n v out h =
    let (rest, e) = first_byte n v out in
    rw (e, without-shift_right n v) (sign_byte (without n v) rest (magnitude-without n v h))

pub put_be_loop-append :
    (n : ℕ) (v : ℤ) (out rest : List ℕ)
    → put_be_loop n v out ++ rest ≡ put_be_loop n v (out ++ rest)
unfolding put_be_loop
put_be_loop-append zero v out rest = refl
put_be_loop-append (suc n) v out rest = put_be_loop-append n (shift_right v) (low_byte v ∷ out) rest

-- `get_be_signed` reads back the integer that `put_be_signed` wrote in `n + 1` bytes, where it fits.
pub get-put_be_signed :
    (n : ℕ) (v : ℤ) (rest : List ℕ)
    → magnitude v < 128 * 256 ^ n
    → get_be_signed (put_be_signed v (suc n) ++ rest) (suc n) ≡ v
unfolding get_be_signed put_be_signed get_be_loop
get-put_be_signed n v rest h =
    let whole : get_be_loop (suc n) (put_be_loop (suc n) v rest) (without (suc n) v) ≡ v =
      read_all n v rest in
    rw (put_be_loop-append (suc n) v [] rest, sign_of-put n v rest h) (ground (arith, whole))
  where
    read_all :
        (n : ℕ) (v : ℤ) (rest : List ℕ)
        → get_be_loop (suc n) (put_be_loop (suc n) v rest) (without (suc n) v) ≡ v
    read_all n v rest =
        let e : suc n + 0 ≡ suc n = omega arith in rw e at (get-put_loop (suc n) 0 v rest)

pub length-put_be_loop :
    (n : ℕ) (v : ℤ) (out : List ℕ) → length (put_be_loop n v out) ≡ n + length out
unfolding put_be_loop
length-put_be_loop zero v out = omega arith
length-put_be_loop (suc n) v out =
    omega (arith, length-put_be_loop n (shift_right v) (low_byte v ∷ out))
