-- ===== src/Value/Compare/Order.antt =====
-- `tdb_value_compare` is an order.
use transaction_db.Base.{
  ℕ, zero, suc, min, ◌≡◌, refl, true, false, List, [], ◌∷◌, arith, length, Bool-cases, inl, inr,
}
use transaction_db.Base.Int.{ℤ}
use transaction_db.Base.CString.{to_lower}
use transaction_db.Value.{Value, null, int, real, text, blob, composite}
use transaction_db.Value.Compare.{
  RealOps, Collation, binary, nocase, Sign, less, same, more, type_class, sign_ℕ, memcmp,
  strncasecmp, collate, or_length, cmp_text, by_tests, cmp_int, cmp_real, same_class, value_compare,
}

abbrev pub flip : Sign → Sign
flip less = more
flip same = same
flip more = less

pub sign-flip : (a b : ℕ) → sign_ℕ b a ≡ flip (sign_ℕ a b)
unfolding sign_ℕ
sign-flip a b = ground arith

memcmp-flip : (n : ℕ) (a b : List ℕ) → memcmp n b a ≡ flip (memcmp n a b)
unfolding memcmp
memcmp-flip zero a b = refl
memcmp-flip (suc n) [] [] = refl
memcmp-flip (suc n) [] (y ∷ b) = refl
memcmp-flip (suc n) (x ∷ a) [] = refl
memcmp-flip (suc n) (x ∷ a) (y ∷ b) = ground (arith, memcmp-flip n a b, sign-flip x y)

to_lower-zero : (x : ℕ) → to_lower x ≡ 0 → x ≡ 0
unfolding to_lower
to_lower-zero x h = ground arith

to_lower_0 : to_lower 0 ≡ 0
unfolding to_lower
to_lower_0 = refl

strncasecmp-flip : (n : ℕ) (a b : List ℕ) → strncasecmp n b a ≡ flip (strncasecmp n a b)
unfolding strncasecmp
strncasecmp-flip zero a b = refl
strncasecmp-flip (suc n) [] [] = refl
strncasecmp-flip (suc n) [] (y ∷ b) = refl
strncasecmp-flip (suc n) (x ∷ a) [] = refl
strncasecmp-flip (suc n) (x ∷ a) (y ∷ b) = ground (
  arith,
  strncasecmp-flip n a b,
  sign-flip (to_lower x) (to_lower y),
  to_lower-zero x,
  to_lower-zero y,
  to_lower_0,
)

or_length-flip : (c : Sign) (a b : ℕ) → or_length (flip c) b a ≡ flip (or_length c a b)
unfolding or_length
or_length-flip less a b = refl
or_length-flip same a b = sign-flip a b
or_length-flip more a b = refl

collate-flip :
    (coll : Collation) (n : ℕ) (a b : List ℕ) → collate coll n b a ≡ flip (collate coll n a b)
unfolding collate
collate-flip binary n a b = memcmp-flip n a b
collate-flip nocase n a b = strncasecmp-flip n a b

cmp_text-flip : (coll : Collation) (a b : List ℕ) → cmp_text coll b a ≡ flip (cmp_text coll a b)
unfolding cmp_text
cmp_text-flip coll a b =
    let n : ℕ = min (length a) (length b) in
    let e : min (length b) (length a) ≡ n = omega arith in
    rw (e, collate-flip coll n a b) (or_length-flip (collate coll n a b) (length a) (length b))

cmp_int-flip : (a b : ℤ) → cmp_int b a ≡ flip (cmp_int a b)
unfolding cmp_int
cmp_int-flip a b = ground arith

cmp_real-flip :
    (f : RealOps)
    → ((a b : ℕ) → f.lt a b ≡ true → f.lt b a ≡ false)
    → (a b : ℕ) → cmp_real f b a ≡ flip (cmp_real f a b)
unfolding cmp_real by_tests
cmp_real-flip f asym a b = elim (Bool-cases (f.lt a b)) [
  | inl lt ↦ rw (lt, asym a b lt) refl
  | inr ge ↦ elim (Bool-cases (f.lt b a)) [ inl gt ↦ rw (ge, gt) refl | inr le ↦ rw (ge, le) refl ]
]

-- Where `<` on floating-point numbers never holds both ways: `tdb_value_compare` of two values in the
-- other order gives the opposite answer, for all types and both collations.
pub value_compare-flip :
    (f : RealOps)
    → ((a b : ℕ) → f.lt a b ≡ true → f.lt b a ≡ false)
    → (coll : Collation) (v w : Value) → value_compare f coll w v ≡ flip (value_compare f coll v w)
unfolding value_compare same_class type_class sign_ℕ
value_compare-flip f asym coll null null = refl
value_compare-flip f asym coll null (int b) = refl
value_compare-flip f asym coll null (real b) = refl
value_compare-flip f asym coll null (text b) = refl
value_compare-flip f asym coll null (blob b) = refl
value_compare-flip f asym coll null (composite b) = refl
value_compare-flip f asym coll (int a) null = refl
value_compare-flip f asym coll (int a) (int b) = cmp_int-flip a b
value_compare-flip f asym coll (int a) (real b) = cmp_real-flip f asym (f.of_int a) b
value_compare-flip f asym coll (int a) (text b) = refl
value_compare-flip f asym coll (int a) (blob b) = refl
value_compare-flip f asym coll (int a) (composite b) = refl
value_compare-flip f asym coll (real a) null = refl
value_compare-flip f asym coll (real a) (int b) = cmp_real-flip f asym a (f.of_int b)
value_compare-flip f asym coll (real a) (real b) = cmp_real-flip f asym a b
value_compare-flip f asym coll (real a) (text b) = refl
value_compare-flip f asym coll (real a) (blob b) = refl
value_compare-flip f asym coll (real a) (composite b) = refl
value_compare-flip f asym coll (text a) null = refl
value_compare-flip f asym coll (text a) (int b) = refl
value_compare-flip f asym coll (text a) (real b) = refl
value_compare-flip f asym coll (text a) (text b) = cmp_text-flip coll a b
value_compare-flip f asym coll (text a) (blob b) = refl
value_compare-flip f asym coll (text a) (composite b) = refl
value_compare-flip f asym coll (blob a) null = refl
value_compare-flip f asym coll (blob a) (int b) = refl
value_compare-flip f asym coll (blob a) (real b) = refl
value_compare-flip f asym coll (blob a) (text b) = refl
value_compare-flip f asym coll (blob a) (blob b) = cmp_text-flip binary a b
value_compare-flip f asym coll (blob a) (composite b) = refl
value_compare-flip f asym coll (composite a) null = refl
value_compare-flip f asym coll (composite a) (int b) = refl
value_compare-flip f asym coll (composite a) (real b) = refl
value_compare-flip f asym coll (composite a) (text b) = refl
value_compare-flip f asym coll (composite a) (blob b) = refl
value_compare-flip f asym coll (composite a) (composite b) = cmp_text-flip binary a b
