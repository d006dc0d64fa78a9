-- ===== src/Value/Affinity/Settled.antt =====
-- A value that has an affinity keeps its form under it.
use transaction_db.Base.{ℕ, ◌≡◌, refl, inl, inr, List, Bool-cases}
use transaction_db.Value.{Value, null, int, real, text, blob, composite}
use transaction_db.Value.Affinity.{
  Affinity, as_blob, as_text, as_numeric, as_integer, as_real, NumberOps, c_string, Numeric, whole,
  floating, no_number, looks_numeric, to_integer, to_numeric, to_real, apply_affinity,
}

module _ (c : NumberOps) where
  integer_settled :
      (s : List ℕ) (n : Numeric)
      → looks_numeric c (c_string s) ≡ n
      → apply_affinity c as_integer (to_integer c s n) ≡ to_integer c s n
  unfolding apply_affinity to_integer
  integer_settled s (whole i) e = refl
  integer_settled s (floating r) e = elim (Bool-cases (c.is_whole r)) [
    | inl exact ↦ rw exact refl
    | inr other ↦ rw other (rw other refl)
  ]
  integer_settled s no_number e = rw e refl

  numeric_settled :
      (s : List ℕ) (n : Numeric)
      → looks_numeric c (c_string s) ≡ n
      → apply_affinity c as_numeric (to_numeric c s n) ≡ to_numeric c s n
  unfolding apply_affinity to_numeric
  numeric_settled s (whole i) e = refl
  numeric_settled s (floating r) e = refl
  numeric_settled s no_number e = rw e refl

  real_settled :
      (s : List ℕ) (n : Numeric)
      → looks_numeric c (c_string s) ≡ n
      → apply_affinity c as_real (to_real c s n) ≡ to_real c s n
  unfolding apply_affinity to_real
  real_settled s (whole i) e = refl
  real_settled s (floating r) e = refl
  real_settled s no_number e = rw e refl

  whole_settled :
      (r : ℕ)
      → apply_affinity c as_integer (apply_affinity c as_integer (real r))
        ≡ apply_affinity c as_integer (real r)
  unfolding apply_affinity
  whole_settled r = elim (Bool-cases (c.is_whole r)) [
    | inl exact ↦ rw exact refl
    | inr other ↦ rw other (rw other refl)
  ]

  -- Whatever the C library reads and prints: applying an affinity a second time changes nothing.
  pub apply_affinity_twice :
      (aff : Affinity) (v : Value)
      → apply_affinity c aff (apply_affinity c aff v) ≡ apply_affinity c aff v
  unfolding apply_affinity
  apply_affinity_twice as_blob null = refl
  apply_affinity_twice as_blob (int i) = refl
  apply_affinity_twice as_blob (real r) = refl
  apply_affinity_twice as_blob (text s) = refl
  apply_affinity_twice as_blob (blob s) = refl
  apply_affinity_twice as_blob (composite s) = refl
  apply_affinity_twice as_text null = refl
  apply_affinity_twice as_text (int i) = refl
  apply_affinity_twice as_text (real r) = refl
  apply_affinity_twice as_text (text s) = refl
  apply_affinity_twice as_text (blob s) = refl
  apply_affinity_twice as_text (composite s) = refl
  apply_affinity_twice as_numeric null = refl
  apply_affinity_twice as_numeric (int i) = refl
  apply_affinity_twice as_numeric (real r) = refl
  apply_affinity_twice as_numeric (text s) = numeric_settled s (looks_numeric c (c_string s)) refl
  apply_affinity_twice as_numeric (blob s) = refl
  apply_affinity_twice as_numeric (composite s) = refl
  apply_affinity_twice as_integer null = refl
  apply_affinity_twice as_integer (int i) = refl
  apply_affinity_twice as_integer (real r) = whole_settled r
  apply_affinity_twice as_integer (text s) = integer_settled s (looks_numeric c (c_string s)) refl
  apply_affinity_twice as_integer (blob s) = refl
  apply_affinity_twice as_integer (composite s) = refl
  apply_affinity_twice as_real null = refl
  apply_affinity_twice as_real (int i) = refl
  apply_affinity_twice as_real (real r) = refl
  apply_affinity_twice as_real (text s) = real_settled s (looks_numeric c (c_string s)) refl
  apply_affinity_twice as_real (blob s) = refl
  apply_affinity_twice as_real (composite s) = refl
