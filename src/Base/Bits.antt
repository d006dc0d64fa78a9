-- ===== src/Base/Bits.antt =====
-- Masks and bitwise or as arithmetic: tables over a byte, and laws for every width by the digits.
use Prim.Native.Nat.{
  ℕ, zero, suc, ◌+◌, ◌*◌, ◌/◌, ◌%◌, ◌^◌, ◌<◌, ◌≤◌, max, bit_and, bit_or, digits, bit_or-bitwise,
  bit_xor, bit_xor-bitwise, differ, bit_and-bitwise, min,
}
use mathlib.Core.Path.{◌≡◌, refl, ap}
use mathlib.Core.Bool.{Bool, true, false}
use mathlib.Core.Logic.{ite}
use native.Mathlib.Decide.{ℕ_discrete}
use native.Mathlib.Omega.{arith}

module _ (f g : ℕ → ℕ) where
  agree_below : ℕ → Bool
  unfolding ℕ_discrete
  agree_below zero = true
  agree_below (suc n) = ite (ℕ_discrete (f n) (g n)) (agree_below n) false

  agree_below→eq : (n : ℕ) → agree_below n ≡ true → (i : ℕ) → i < n → f i ≡ g i
  unfolding agree_below
  agree_below→eq zero e i h = absurd (omega arith)
  agree_below→eq (suc n) e i h = ground (arith, agree_below→eq n (ground arith) i)

-- `b & 0x7f`
pub low_bits : (b : ℕ) → b < 256 → bit_and b 0x7f ≡ b % 128
unfolding agree_below
low_bits = agree_below→eq _ _ 256 refl

-- `b & 0x80`
pub top_bit : (b : ℕ) → b < 256 → bit_and b 0x80 ≡ b / 128 * 128
unfolding agree_below
top_bit = agree_below→eq _ _ 256 refl

abbrev or_digits : ℕ → ℕ → ℕ → ℕ
or_digits n a b = digits (λ b. b) max n a b

or_digits_fuel : (n m a b : ℕ) → a ≤ n → a ≤ m → or_digits n a b ≡ or_digits m a b
or_digits_fuel zero zero a b p q = refl
or_digits_fuel zero (suc m) zero b p q = refl
or_digits_fuel zero (suc m) (suc a) b p q = absurd (omega arith)
or_digits_fuel (suc n) zero zero b p q = refl
or_digits_fuel (suc n) zero (suc a) b p q = absurd (omega arith)
or_digits_fuel (suc n) (suc m) zero b p q = refl
or_digits_fuel (suc n) (suc m) (suc a) b p q =
    omega (arith, or_digits_fuel n m (suc a / 2) (b / 2) (omega arith) (omega arith))

pub zero-bit_or : (b : ℕ) → bit_or 0 b ≡ b
zero-bit_or b = bit_or-bitwise 0 b

-- The law for the lowest digit.
pub bit_or_step : (x y : ℕ) → bit_or x y ≡ bit_or (x / 2) (y / 2) * 2 + max (x % 2) (y % 2)
bit_or_step zero b = omega (arith, zero-bit_or b, zero-bit_or (b / 2))
bit_or_step (suc a) b = omega (
  arith,
  bit_or-bitwise (suc a) b,
  bit_or-bitwise (suc a / 2) (b / 2),
  or_digits_fuel a (suc a / 2) (suc a / 2) (b / 2) (omega arith) (omega arith),
)

bit_or-zero_fuel : (n a : ℕ) → a ≤ n → bit_or a 0 ≡ a
bit_or-zero_fuel n zero h = refl
bit_or-zero_fuel zero (suc a) h = absurd (omega arith)
bit_or-zero_fuel (suc n) (suc a) h =
    omega (arith, bit_or_step (suc a) 0, bit_or-zero_fuel n (suc a / 2) (omega arith))

pub bit_or-zero : (a : ℕ) → bit_or a 0 ≡ a
bit_or-zero a = bit_or-zero_fuel a a (omega arith)

pow_suc : (s : ℕ) → 2 ^ suc s ≡ 2 * 2 ^ s
pow_suc s = omega arith

shift_suc : (b s : ℕ) → b * 2 ^ suc s ≡ b * 2 ^ s * 2
shift_suc b s = omega (arith, ap (λ (t : ℕ). b * t) (pow_suc s))

double_half : (b : ℕ) → b * 2 / 2 ≡ b
double_half b = omega arith

-- One digit of a number whose lowest bits are all clear.
bit_or_even : (a b : ℕ) → bit_or a (b * 2) ≡ bit_or (a / 2) b * 2 + a % 2
bit_or_even a b =
    omega (arith, bit_or_step a (b * 2), ap (λ (t : ℕ). bit_or (a / 2) t) (double_half b))

even_bit_or : (a b : ℕ) → bit_or (b * 2) a ≡ bit_or b (a / 2) * 2 + a % 2
even_bit_or a b =
    omega (arith, bit_or_step (b * 2) a, ap (λ (t : ℕ). bit_or t (a / 2)) (double_half b))

-- `or` of numbers with no bit in common is their sum: `a` lies below bit `s`, `b * 2 ^ s` above.
pub bit_or_low_high : (s a b : ℕ) → a < 2 ^ s → bit_or a (b * 2 ^ s) ≡ a + b * 2 ^ s
bit_or_low_high zero zero b h = omega (arith, zero-bit_or (b * 2 ^ zero))
bit_or_low_high zero (suc a) b h = absurd (omega arith)
bit_or_low_high (suc s) a b h =
    rw (shift_suc b s)
      (omega (arith, bit_or_even a (b * 2 ^ s), bit_or_low_high s (a / 2) b (omega arith)))

pub bit_or_high_low : (s a b : ℕ) → a < 2 ^ s → bit_or (b * 2 ^ s) a ≡ b * 2 ^ s + a
bit_or_high_low zero zero b h = omega (arith, bit_or-zero (b * 2 ^ zero))
bit_or_high_low zero (suc a) b h = absurd (omega arith)
bit_or_high_low (suc s) a b h =
    rw (shift_suc b s)
      (omega (arith, even_bit_or a (b * 2 ^ s), bit_or_high_low s (a / 2) b (omega arith)))

bit_or-one : (a : ℕ) → bit_or a 1 % 2 ≡ 1
bit_or-one a = omega (arith, bit_or_step a 1)

-- `(uint8_t)(v | 0x80)`
pub set_top_bit : (v : ℕ) → bit_or v 0x80 % 256 ≡ v % 128 + 128
set_top_bit v = omega (
  arith,
  bit_or_even v 64,
  bit_or_even (v / 2) 32,
  bit_or_even (v / 2 / 2) 16,
  bit_or_even (v / 2 / 2 / 2) 8,
  bit_or_even (v / 2 / 2 / 2 / 2) 4,
  bit_or_even (v / 2 / 2 / 2 / 2 / 2) 2,
  bit_or_even (v / 2 / 2 / 2 / 2 / 2 / 2) 1,
  bit_or-one (v / 2 / 2 / 2 / 2 / 2 / 2 / 2),
)

-- `or` sets no bit that neither side has.
pub bit_or-lt : (s a b : ℕ) → a < 2 ^ s → b < 2 ^ s → bit_or a b < 2 ^ s
bit_or-lt zero zero b h k = omega (arith, zero-bit_or b)
bit_or-lt zero (suc a) b h k = absurd (omega arith)
bit_or-lt (suc s) a b h k =
    omega (arith, bit_or_step a b, bit_or-lt s (a / 2) (b / 2) (omega arith) (omega arith))

differ_bit : (a b : ℕ) → differ (a % 2) (b % 2) < 2
differ_bit a b = bits (a % 2) (b % 2) (omega arith) (omega arith)
  where
    bits : (x y : ℕ) → x < 2 → y < 2 → differ x y < 2
    bits zero y h k = k
    bits (suc x) zero h k = h
    bits (suc x) (suc y) h k = bits' x y (omega arith) (omega arith)
      where
        bits' : (x y : ℕ) → x ≡ 0 → y ≡ 0 → differ x y < 2
        bits' zero y h k = omega arith
        bits' (suc x) y h k = absurd (omega arith)

abbrev xor_digits : ℕ → ℕ → ℕ → ℕ
xor_digits n a b = digits (λ b. b) differ n a b

xor_digits_fuel : (n m a b : ℕ) → a ≤ n → a ≤ m → xor_digits n a b ≡ xor_digits m a b
xor_digits_fuel zero zero a b p q = refl
xor_digits_fuel zero (suc m) zero b p q = refl
xor_digits_fuel zero (suc m) (suc a) b p q = absurd (omega arith)
xor_digits_fuel (suc n) zero zero b p q = refl
xor_digits_fuel (suc n) zero (suc a) b p q = absurd (omega arith)
xor_digits_fuel (suc n) (suc m) zero b p q = refl
xor_digits_fuel (suc n) (suc m) (suc a) b p q =
    omega (arith, xor_digits_fuel n m (suc a / 2) (b / 2) (omega arith) (omega arith))

bit_xor-suc :
    (a b : ℕ) → bit_xor (suc a) b ≡ bit_xor (suc a / 2) (b / 2) * 2 + differ (suc a % 2) (b % 2)
bit_xor-suc a b = omega (
  arith,
  bit_xor-bitwise (suc a) b,
  bit_xor-bitwise (suc a / 2) (b / 2),
  xor_digits_fuel a (suc a / 2) (suc a / 2) (b / 2) (omega arith) (omega arith),
)

-- `xor` sets no bit that neither side has.
pub bit_xor-lt : (s a b : ℕ) → a < 2 ^ s → b < 2 ^ s → bit_xor a b < 2 ^ s
bit_xor-lt s zero b h k = omega (arith, bit_xor-bitwise 0 b)
bit_xor-lt zero (suc a) b h k = absurd (omega arith)
bit_xor-lt (suc s) (suc a) b h k = omega (
  arith,
  bit_xor-suc a b,
  differ_bit (suc a) b,
  bit_xor-lt s (suc a / 2) (b / 2) (omega arith) (omega arith),
)

abbrev and_digits : ℕ → ℕ → ℕ → ℕ
and_digits n a b = digits (λ b. zero) min n a b

-- `and` sets no bit that the right side lacks.
and_digits-lt : (s n a b : ℕ) → b < 2 ^ s → and_digits n a b < 2 ^ s
and_digits-lt s zero a b h = omega arith
and_digits-lt s (suc n) zero b h = omega arith
and_digits-lt zero (suc n) (suc a) b h = omega (arith, and_digits-lt zero n (suc a / 2) (b / 2))
and_digits-lt (suc s) (suc n) (suc a) b h =
    omega (arith, and_digits-lt s n (suc a / 2) (b / 2) (omega arith))

pub bit_and-lt : (s a b : ℕ) → b < 2 ^ s → bit_and a b < 2 ^ s
bit_and-lt s a b h = omega (arith, bit_and-bitwise a b, and_digits-lt s a a b h)
