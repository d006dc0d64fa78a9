-- ===== src/Catalog/Acl/Rules.antt =====
-- What the tests of the access-control list have to do with each other: strings that differ in case
-- alone pass the same tests, and so do entries that `entry_equal` takes for the same.
use transaction_db.Base.{ℕ, ◌≡◌, refl, true, Option, some, none, List, [], ◌∷◌, map, arith}
use transaction_db.Base.CString.{to_upper, to_lower, str_case_eq, str_case_eq_of_lower}
use transaction_db.Catalog.Acl.{
  Entry, same_text, match_word, match_grantee, match_priv, match_object, matches, check_entries,
  both_same, object_equal, entry_equal, has_entry, public_word, all_word,
}

str_case_eq_cong : (s t u : List ℕ) → str_case_eq s t ≡ true → str_case_eq s u ≡ str_case_eq t u
unfolding str_case_eq
str_case_eq_cong [] [] u e = refl
str_case_eq_cong [] (d ∷ t) u e = cc
str_case_eq_cong (c ∷ s) [] u e = cc
str_case_eq_cong (c ∷ s) (d ∷ t) [] e = refl
str_case_eq_cong (c ∷ s) (d ∷ t) (g ∷ u) e = ground (arith, str_case_eq_cong s t u)

to_lower-to_upper : (c : ℕ) → to_lower (to_upper c) ≡ to_lower c
unfolding to_lower to_upper
to_lower-to_upper c = ground arith

lower-upper : (s : List ℕ) → map to_lower (map to_upper s) ≡ map to_lower s
lower-upper [] = refl
lower-upper (c ∷ s) = rw (to_lower-to_upper c, lower-upper s) refl

same_text_cong :
    (s t : List ℕ) (x : Option (List ℕ)) → str_case_eq s t ≡ true → same_text s x ≡ same_text t x
unfolding same_text
same_text_cong s t none e = refl
same_text_cong s t (some u) e = str_case_eq_cong s t u e

match_word_cong :
    (w s t : List ℕ) (x : Option (List ℕ))
    → str_case_eq s t ≡ true
    → match_word w (some s) x ≡ match_word w (some t) x
unfolding match_word str_case_eq
match_word_cong w [] [] x e = refl
match_word_cong w [] (d ∷ t) x e = cc
match_word_cong w (c ∷ s) [] x e = cc
match_word_cong w (c ∷ s) (d ∷ t) x e =
    rw (str_case_eq_cong (c ∷ s) (d ∷ t) w e, same_text_cong (c ∷ s) (d ∷ t) x e) refl

match_object_cong :
    (s t : List ℕ) (x : Option (List ℕ))
    → str_case_eq s t ≡ true
    → match_object (some s) x ≡ match_object (some t) x
unfolding match_object str_case_eq
match_object_cong [] [] x e = refl
match_object_cong [] (d ∷ t) x e = cc
match_object_cong (c ∷ s) [] x e = cc
match_object_cong (c ∷ s) (d ∷ t) x e = same_text_cong (c ∷ s) (d ∷ t) x e

-- A privilege in upper case passes the tests of the privilege as it was spelled.
pub match_priv-upper :
    (p : List ℕ) (x : Option (List ℕ))
    → match_priv (some (map to_upper p)) x ≡ match_priv (some p) x
unfolding match_priv
match_priv-upper p x =
    match_word_cong all_word (map to_upper p) p x
      (str_case_eq_of_lower (map to_upper p) p (lower-upper p))

word_same :
    (w : List ℕ) (a b x : Option (List ℕ))
    → both_same a b ≡ true
    → match_word w a x ≡ match_word w b x
unfolding both_same same_text
word_same w none b x e = cc
word_same w (some s) none x e = cc
word_same w (some s) (some t) x e = match_word_cong w s t x e

object_same :
    (a b x : Option (List ℕ)) → object_equal a b ≡ true → match_object a x ≡ match_object b x
unfolding object_equal same_text
object_same none none x e = refl
object_same none (some t) x e = cc
object_same (some s) none x e = cc
object_same (some s) (some t) x e = match_object_cong s t x e

-- Entries that `entry_equal` takes for the same pass the same tests.
matches_same : (a b r : Entry) → entry_equal a b ≡ true → matches a r ≡ matches b r
unfolding entry_equal matches match_grantee match_priv
matches_same a b r e = ground (
  arith,
  word_same public_word a.grantee b.grantee r.grantee,
  word_same all_word a.priv b.priv r.priv,
  object_same a.object b.object r.object,
)

-- What an entry of the list allows, the list allows.
pub check-has_entry :
    (es : List Entry) (p r : Entry)
    → has_entry es p ≡ true
    → matches p r ≡ true
    → check_entries es r ≡ true
unfolding has_entry check_entries
check-has_entry [] p r e h = cc
check-has_entry (x ∷ es) p r e h = ground (arith, matches_same x p r, check-has_entry es p r)
