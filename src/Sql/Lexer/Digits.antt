-- ===== src/Sql/Lexer/Digits.antt =====
-- The branch of `tdb_lex_next` for numbers.
use transaction_db.Base.{
  ℕ, ◌+◌, ◌-◌, ◌%◌, ◌^◌, leb, ◌<◌, ◌≤◌, ◌≡◌, refl, ◌⊎◌, inl, inr, Bool, true, false, ◌&&◌, ◌||◌,
  List, arith, length, get_or, ltb, ◌==◌, Bool-cases,
}
use transaction_db.Status.{ok}
use transaction_db.Sql.Lexer.{Numbers, Token, is_digit, is_xdigit, run}
use transaction_db.Sql.Lexer.Next.{
  to_int, parse_number, fraction, sign_end, exponent, number_end, lex_number,
}
use transaction_db.Sql.Lexer.Bounds.{and_true, run_lem, run_moves, run_stays}
use transaction_db.Sql.Lexer.Branches.{IsLexed, get_or-inside}

fraction_moves :
    (z : List ℕ) (pos : ℕ)
    → pos < length z
    → (get_or z pos 0 == b'.') ≡ true
    → (pos < (fraction z pos).1) × ((fraction z pos).1 ≤ length z)
unfolding fraction
fraction_moves z pos h e =
    let (a, b) = run_lem is_digit z (pos + 1) (omega arith) in
    let inside : ltb pos (length z) ≡ true = ground arith in rw (inside, e) (omega (arith, a), b)

fraction_lem :
    (z : List ℕ) (pos : ℕ)
    → pos ≤ length z
    → (pos ≤ (fraction z pos).1) × ((fraction z pos).1 ≤ length z)
unfolding fraction
fraction_lem z pos h = elim (Bool-cases (ltb pos (length z) && get_or z pos 0 == b'.')) [
  | inl e ↦
      let (inside, dot) = and_true (ltb pos (length z)) (get_or z pos 0 == b'.') e in
      let (a, b) = fraction_moves z pos (ground arith) dot in (omega (arith, a), b)
  | inr e ↦ rw e (omega arith, h)
]

sign_end_lem :
    (z : List ℕ) (pos : ℕ) → pos ≤ length z → (pos ≤ sign_end z pos) × (sign_end z pos ≤ length z)
unfolding sign_end
sign_end_lem z pos h =
    elim (Bool-cases (ltb pos (length z) && (get_or z pos 0 == b'+' || get_or z pos 0 == b'-'))) [
      | inl e ↦
          let (inside, sign) =
            and_true (ltb pos (length z)) (get_or z pos 0 == b'+' || get_or z pos 0 == b'-') e in
          rw e (omega arith, ground arith)
      | inr e ↦ rw e (omega arith, h)
    ]

exponent_lem :
    (z : List ℕ) (r : Bool × ℕ)
    → r.1 ≤ length z
    → (r.1 ≤ (exponent z r).1) × ((exponent z r).1 ≤ length z)
unfolding exponent
exponent_lem z (is_float, pos) h =
    elim (Bool-cases (ltb pos (length z) && (get_or z pos 0 == b'e' || get_or z pos 0 == b'E'))) [
      | inl e ↦
          let (inside, mark) =
            and_true (ltb pos (length z)) (get_or z pos 0 == b'e' || get_or z pos 0 == b'E') e in
          let more : pos + 1 ≤ length z = ground arith in
          let (a, b) = sign_end_lem z (pos + 1) more in
          let (c, d) = run_lem is_digit z (sign_end z (pos + 1)) b in rw e (omega (arith, a, c), d)
      | inr e ↦ rw e (omega arith, h)
    ]

-- The digits, or the point where there are none.
mantissa_lem :
    (z : List ℕ) (pos : ℕ)
    → pos < length z
    → (is_digit (get_or z pos 0) ≡ true) ⊎ ((get_or z pos 0 == b'.') ≡ true)
    → let r = fraction z (run is_digit z pos) in (pos < r.1) × (r.1 ≤ length z)
mantissa_lem z pos h (inl digit) =
    let (a, b) = run_moves is_digit z pos h digit in
    let (c, d) = fraction_lem z (run is_digit z pos) b in (omega (arith, a, c), d)
mantissa_lem z pos h (inr point) =
    let same : get_or z pos 0 ≡ b'.' = ground arith in
    let none_yet : is_digit (get_or z pos 0) ≡ false = unfold is_digit in rw same refl in
    rw (run_stays is_digit z pos h none_yet) (fraction_moves z pos h point)

number_end_lem :
    (z : List ℕ) (pos : ℕ)
    → pos < length z
    → (is_digit (get_or z pos 0) ≡ true) ⊎ ((get_or z pos 0 == b'.') ≡ true)
    → let r = number_end z pos (get_or z pos 0) (get_or z (pos + 1) 0) in
      (pos < r.1) × (r.1 ≤ length z)
unfolding number_end
number_end_lem z pos h first =
    let c : ℕ = get_or z pos 0 in
    let d : ℕ = get_or z (pos + 1) 0 in
    elim (Bool-cases (c == b'0' && (d == b'x' || d == b'X'))) [
      | inl e ↦
          let (zero_first, x) = and_true (c == b'0') (d == b'x' || d == b'X') e in
          let there : (d == 0) ≡ false = ground arith in
          let inside : pos + 1 < length z = get_or-inside z (pos + 1) there in
          let (a, b) = run_lem is_xdigit z (pos + 2) (omega arith) in rw e (omega (arith, a), b)
      | inr e ↦
          let (a, b) = mantissa_lem z pos h first in
          let (a', b') = exponent_lem z (fraction z (run is_digit z pos)) b in
          rw e (omega (arith, a, a'), b')
    ]

pub lex_number-IsLexed :
    (libc : Numbers) (z : List ℕ) (pos : ℕ)
    → pos < length z
    → (is_digit (get_or z pos 0) ≡ true) ⊎ ((get_or z pos 0 == b'.') ≡ true)
    → length z < 2 ^ 31
    → (t : Token × ℕ) × (lex_number libc z pos (get_or z pos 0) (get_or z (pos + 1) 0) ≡ ok t)
      × IsLexed (length z) pos t
unfolding lex_number parse_number to_int
lex_number-IsLexed libc z pos h first small =
    let (a, b) = number_end_lem z pos h first in
    let r : Bool × ℕ = number_end z pos (get_or z pos 0) (get_or z (pos + 1) 0) in
    let plain : leb (2 ^ 31) ((r.1 - pos) % 2 ^ 32) ≡ false = ground (arith, a, b) in
    let inside : pos + (r.1 - pos) % 2 ^ 32 ≤ r.1 = omega (arith, a) in
    elim (Bool-cases r.0) [
      | inl e ↦ rw (plain, e) (_, refl, (a, b, omega arith, inside))
      | inr e ↦ rw (plain, e) (_, refl, (a, b, omega arith, inside))
    ]
