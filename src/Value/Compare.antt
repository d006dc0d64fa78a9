-- ===== src/Value/Compare.antt =====
-- value/tdb_type.c: the order of values. What the processor does with floating-point numbers is a
-- record of operations on their bits.
pub mod Order
use transaction_db.Base.{
  ℕ, zero, suc, ◌+◌, ◌-◌, min, Bool, true, false, List, [], ◌∷◌, length, ltb, leb, ◌==◌,
  if◌then◌else◌,
}
use transaction_db.Base.Int.{ℤ, leb_ℤ}
use transaction_db.Base.CString.{to_lower}
use transaction_db.Value.{Value, null, int, real, text, blob, composite}

-- `lt` is `<` on `double`, `of_int` the conversion of an `int64_t`.
pub record RealOps : Type 0 where
  pub lt : ℕ → ℕ → Bool
  pub of_int : ℤ → ℕ

-- `tdb_collation`
pub data Collation : Type 0 where
  binary nocase : Collation

-- -1, 0 and 1.
pub data Sign : Type 0 where
  less same more : Sign

unfoldable pub type_class : Value → ℕ
type_class null = 0
type_class (int i) = 1
type_class (real r) = 1
type_class (text s) = 2
type_class (blob s) = 3
type_class (composite s) = 4

-- The sign of the difference of two lengths or classes.
unfoldable pub sign_ℕ : ℕ → ℕ → Sign
sign_ℕ a b = if a == b then same else if ltb a b then less else more

-- The sign of `memcmp` on `n` bytes; both lists have as many.
unfoldable pub memcmp : ℕ → List ℕ → List ℕ → Sign
memcmp zero a b = same
memcmp (suc n) [] b = same
memcmp (suc n) (x ∷ a) [] = same
memcmp (suc n) (x ∷ a) (y ∷ b) = let rest = memcmp n a b in if x == y then rest else sign_ℕ x y

-- The sign of `strncasecmp` on `n` bytes, which ends at a NUL.
unfoldable pub strncasecmp : ℕ → List ℕ → List ℕ → Sign
strncasecmp zero a b = same
strncasecmp (suc n) [] b = same
strncasecmp (suc n) (x ∷ a) [] = same
strncasecmp (suc n) (x ∷ a) (y ∷ b) =
    let rest = strncasecmp n a b in
    if to_lower x == to_lower y
    then (if x == 0 then same else rest)
    else sign_ℕ (to_lower x) (to_lower y)

unfoldable pub collate : Collation → ℕ → List ℕ → List ℕ → Sign
collate binary = memcmp
collate nocase = strncasecmp

-- A difference in the bytes goes before one in the lengths.
unfoldable pub or_length : Sign → ℕ → ℕ → Sign
or_length less na nb = less
or_length more na nb = more
or_length same na nb = sign_ℕ na nb

unfoldable pub cmp_text : Collation → List ℕ → List ℕ → Sign
cmp_text coll a b = or_length (collate coll (min (length a) (length b)) a b) (length a) (length b)

-- Less where the first test says so, more where the second does.
unfoldable pub by_tests : Bool → Bool → Sign
by_tests true gt = less
by_tests false true = more
by_tests false false = same

unfoldable pub cmp_int : ℤ → ℤ → Sign
cmp_int a b = if leb_ℤ b a then (if leb_ℤ a b then same else more) else less

module _ (f : RealOps) where
  unfoldable pub cmp_real : ℕ → ℕ → Sign
  cmp_real a b = by_tests (f.lt a b) (f.lt b a)

  -- The `switch` of `tdb_value_compare`, for values of one class.
  unfoldable pub same_class : Collation → Value → Value → Sign
  same_class coll (int a) (int b) = cmp_int a b
  same_class coll (int a) (real b) = cmp_real (f.of_int a) b
  same_class coll (real a) (int b) = cmp_real a (f.of_int b)
  same_class coll (real a) (real b) = cmp_real a b
  same_class coll (text a) (text b) = cmp_text coll a b
  same_class coll (blob a) (blob b) = cmp_text binary a b
  same_class coll (composite a) (composite b) = cmp_text binary a b
  same_class coll v w = same

  unfoldable pub value_compare : Collation → Value → Value → Sign
  value_compare coll v w =
      if type_class v == type_class w
      then same_class coll v w
      else sign_ℕ (type_class v) (type_class w)
