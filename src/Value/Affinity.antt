-- ===== src/Value/Affinity.antt =====
-- value/tdb_type.c: the affinity of a declared type, and what it does to a value.
pub mod Settled
use transaction_db.Base.{
  ℕ, Bool, true, false, ◌&&◌, ◌||◌, Option, none, some, List, [], ◌∷◌, ◌==◌, if◌then◌else◌,
}
use transaction_db.Base.Int.{ℤ}
use transaction_db.Base.CString.{case_prefix}
use transaction_db.Value.{Value, null, int, real, text, blob, composite}

-- `tdb_affinity`
pub data Affinity : Type 0 where
  as_blob as_text as_numeric as_integer as_real : Affinity

-- What the code takes from the C library and the processor. `strtoll` and `strtod` give the number if
-- it takes the whole string, `is_whole r` is `(double)(int64_t)r == r`, `print_int` and `print_real`
-- are the formats of `tdb_value_as_text`.
pub record NumberOps : Type 0 where
  pub strtoll : List ℕ → Option ℤ
  pub strtod : List ℕ → Option ℕ
  pub is_whole : ℕ → Bool
  pub to_int : ℕ → ℤ
  pub of_int : ℤ → ℕ
  pub print_int : ℤ → List ℕ
  pub print_real : ℕ → List ℕ

-- `ci_contains`
unfoldable pub ci_contains : List ℕ → List ℕ → Bool
ci_contains [] needle = false
ci_contains (c ∷ hay) needle =
    let rest = ci_contains hay needle in if case_prefix (c ∷ hay) needle then true else rest

abbrev pub int_word : List ℕ
int_word = b'I' ∷ b'N' ∷ b'T' ∷ []

abbrev pub char_word : List ℕ
char_word = b'C' ∷ b'H' ∷ b'A' ∷ b'R' ∷ []

abbrev pub clob_word : List ℕ
clob_word = b'C' ∷ b'L' ∷ b'O' ∷ b'B' ∷ []

abbrev pub text_word : List ℕ
text_word = b'T' ∷ b'E' ∷ b'X' ∷ b'T' ∷ []

abbrev pub blob_word : List ℕ
blob_word = b'B' ∷ b'L' ∷ b'O' ∷ b'B' ∷ []

abbrev pub real_word : List ℕ
real_word = b'R' ∷ b'E' ∷ b'A' ∷ b'L' ∷ []

abbrev pub floa_word : List ℕ
floa_word = b'F' ∷ b'L' ∷ b'O' ∷ b'A' ∷ []

abbrev pub doub_word : List ℕ
doub_word = b'D' ∷ b'O' ∷ b'U' ∷ b'B' ∷ []

unfoldable pub affinity_from_decltype : Option (List ℕ) → Affinity
affinity_from_decltype none = as_blob
affinity_from_decltype (some []) = as_blob
affinity_from_decltype (some (c ∷ s)) =
    if ci_contains (c ∷ s) int_word
    then as_integer
    else if ci_contains (c ∷ s) char_word
        || ci_contains (c ∷ s) clob_word
        || ci_contains (c ∷ s) text_word
    then as_text
    else if ci_contains (c ∷ s) blob_word
    then as_blob
    else if ci_contains (c ∷ s) real_word
        || ci_contains (c ∷ s) floa_word
        || ci_contains (c ∷ s) doub_word
    then as_real
    else as_numeric

-- The bytes before the first NUL, which is where the C library's functions stop.
unfoldable pub c_string : List ℕ → List ℕ
c_string [] = []
c_string (c ∷ s) = let rest = c_string s in if c == 0 then [] else c ∷ rest

-- What `looks_numeric` finds.
pub data Numeric : Type 0 where
  whole : ℤ → Numeric
  floating : ℕ → Numeric
  no_number : Numeric

module _ (c : NumberOps) where
  unfoldable pub numeric_of : Option ℤ → Option ℕ → Numeric
  numeric_of (some i) d = whole i
  numeric_of none (some r) = floating r
  numeric_of none none = no_number

  unfoldable pub looks_numeric : List ℕ → Numeric
  looks_numeric [] = no_number
  looks_numeric (b ∷ s) = numeric_of (c.strtoll (b ∷ s)) (c.strtod (b ∷ s))

  unfoldable pub to_integer : List ℕ → Numeric → Value
  to_integer s (whole i) = int i
  to_integer s (floating r) = if c.is_whole r then int (c.to_int r) else real r
  to_integer s no_number = text s

  unfoldable pub to_numeric : List ℕ → Numeric → Value
  to_numeric s (whole i) = int i
  to_numeric s (floating r) = real r
  to_numeric s no_number = text s

  unfoldable pub to_real : List ℕ → Numeric → Value
  to_real s (whole i) = real (c.of_int i)
  to_real s (floating r) = real r
  to_real s no_number = text s

  -- `tdb_apply_affinity`, with memory to be had for the text of a number.
  unfoldable pub apply_affinity : Affinity → Value → Value
  apply_affinity as_integer (text s) = to_integer s (looks_numeric (c_string s))
  apply_affinity as_integer (real r) = if c.is_whole r then int (c.to_int r) else real r
  apply_affinity as_numeric (text s) = to_numeric s (looks_numeric (c_string s))
  apply_affinity as_real (int i) = real (c.of_int i)
  apply_affinity as_real (text s) = to_real s (looks_numeric (c_string s))
  apply_affinity as_text (int i) = text (c.print_int i)
  apply_affinity as_text (real r) = text (c.print_real r)
  apply_affinity aff v = v
