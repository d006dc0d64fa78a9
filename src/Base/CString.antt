-- ===== src/Base/CString.antt =====
-- The C library's tests on strings and characters, in the C locale. A C string is the list of its
-- bytes without the final NUL.
use Prim.Native.Nat.{ℕ, ◌+◌, ◌-◌}
use mathlib.Core.Path.{◌≡◌, refl}
use mathlib.Core.Bool.{Bool, true, false, ◌&&◌, ◌||◌}
use mathlib.Core.List.{List, [], ◌∷◌, map}
use native.Mathlib.Omega.{arith}
use transaction_db.Base.Tests.{leb, ◌==◌, if◌then◌else◌}

unfoldable pub to_lower : ℕ → ℕ
to_lower c = if leb b'A' c && leb c b'Z' then c + 32 else c

unfoldable pub to_upper : ℕ → ℕ
to_upper c = if leb b'a' c && leb c b'z' then c - 32 else c

unfoldable pub is_space : ℕ → Bool
is_space c = c == 32 || leb 9 c && leb c 13

-- `strcasecmp(s, t) == 0`
unfoldable pub str_case_eq : List ℕ → List ℕ → Bool
str_case_eq [] [] = true
str_case_eq [] (d ∷ t) = false
str_case_eq (c ∷ s) [] = false
str_case_eq (c ∷ s) (d ∷ t) = to_lower c == to_lower d && str_case_eq s t

-- `strncasecmp(s, name, strlen(name)) == 0`
unfoldable pub case_prefix : List ℕ → List ℕ → Bool
case_prefix s [] = true
case_prefix [] (d ∷ name) = false
case_prefix (c ∷ s) (d ∷ name) = to_lower c == to_lower d && case_prefix s name

-- Strings that differ in case alone.
pub str_case_eq_iff : (s t : List ℕ) → str_case_eq s t ≡ true → map to_lower s ≡ map to_lower t
unfolding str_case_eq
str_case_eq_iff [] [] e = refl
str_case_eq_iff [] (d ∷ t) e = cc
str_case_eq_iff (c ∷ s) [] e = cc
str_case_eq_iff (c ∷ s) (d ∷ t) e = ground (arith, str_case_eq_iff s t)

pub str_case_eq_refl : (s : List ℕ) → str_case_eq s s ≡ true
unfolding str_case_eq
str_case_eq_refl [] = refl
str_case_eq_refl (c ∷ s) = ground (arith, str_case_eq_refl s)

pub str_case_eq_of_lower : (s t : List ℕ) → map to_lower s ≡ map to_lower t → str_case_eq s t ≡ true
unfolding str_case_eq
str_case_eq_of_lower [] [] e = refl
str_case_eq_of_lower [] (d ∷ t) e = cc
str_case_eq_of_lower (c ∷ s) [] e = cc
str_case_eq_of_lower (c ∷ s) (d ∷ t) e = ground (arith, str_case_eq_of_lower s t)
