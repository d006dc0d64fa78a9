-- ===== src/Catalog/Acl/Grant.antt =====
-- What GRANT and REVOKE do to the answers of `tdb_acl_check`.
use transaction_db.Base.{
  ℕ, ◌<◌, ◌≡◌, refl, Bool, true, false, ◌&&◌, ◌||◌, Option, some, none, List, [], ◌∷◌, map, arith,
  length, Bool-cases, inl, inr,
}
use transaction_db.Base.CString.{to_upper, str_case_eq_refl}
use transaction_db.Catalog.Acl.{
  Entry, Acl, Granted, same_text, match_word, match_grantee, match_priv, match_kind, match_object,
  matches, check_entries, check, both_same, entry_equal, has_entry, strdup, up_strdup, dup_object,
  add_entry, grant, public_word,
}
use transaction_db.Catalog.Acl.Rules.{match_priv-upper, check-has_entry}

-- Memory to be had.
abbrev pub plenty : Granted
plenty = record { for_priv = true; for_entry = true; for_grantee = true; for_object = true }

abbrev pub entry : Option (List ℕ) → Option (List ℕ) → ℕ → Option (List ℕ) → Entry
entry g p k o = record { grantee = g; priv = p; kind = k; object = o }

dup_object-true : (o : Option (List ℕ)) → dup_object true o ≡ o
unfolding dup_object strdup
dup_object-true none = refl
dup_object-true (some s) = refl

matches_upper :
    (g p : List ℕ) (k : ℕ) (o : Option (List ℕ)) (r : Entry)
    → matches (entry (some g) (some (map to_upper p)) k o) r
      ≡ matches (entry (some g) (some p) k o) r
unfolding matches
matches_upper g p k o r = rw (match_priv-upper p r.priv) refl

-- With memory to be had, `tdb_acl_grant` of a privilege on a kind of objects succeeds, and after it
-- `tdb_acl_check` allows a user exactly what it allowed before and what the new entry allows,
-- whether or not the list had such an entry.
pub check-grant :
    (a : Acl) (g p : List ℕ) (k : ℕ) (o : Option (List ℕ))
    → 0 < k
    → (u : List ℕ) (q : Option (List ℕ)) (kind : ℕ) (object : Option (List ℕ))
    → ((grant plenty a (some g) (some p) k o).0 ≡ none)
      × (check (grant plenty a (some g) (some p) k o).1 (some u) q kind object ≡ (
          check a (some u) q kind object
          || matches (entry (some g) (some p) k o) (entry (some u) q kind object)))
unfolding grant add_entry check up_strdup strdup check_entries
check-grant a g p k o h u q kind object =
    let probe : Entry = entry (some g) (some (map to_upper p)) k o in
    let r : Entry = entry (some u) q kind object in
    elim (Bool-cases (has_entry a.entries probe)) [
      | inl there ↦
          ground (arith, there, matches_upper g p k o r, check-has_entry a.entries probe r there)
      | inr absent ↦ ground (arith, absent, matches_upper g p k o r, dup_object-true o)
    ]

both_same-none : (s : Option (List ℕ)) → both_same s none ≡ false
unfolding both_same same_text
both_same-none none = refl
both_same-none (some s) = refl

has_entry-none : (es : List Entry) (p : Entry) → p.priv ≡ none → has_entry es p ≡ false
unfolding has_entry entry_equal
has_entry-none [] p h = refl
has_entry-none (e ∷ es) p h = ground (arith, both_same-none e.priv, has_entry-none es p h)

match_word_self :
    (w : List ℕ) (there : Bool) (g : List ℕ) → match_word w (strdup there g) (some g) ≡ true
unfolding match_word strdup same_text
match_word_self w false g = refl
match_word_self w true [] = refl
match_word_self w true (c ∷ g) = ground (arith, str_case_eq_refl (c ∷ g))

match_object_self :
    (there : Bool) (o : Option (List ℕ)) → match_object (dup_object there o) o ≡ true
unfolding match_object dup_object strdup same_text
match_object_self there none = refl
match_object_self false (some s) = refl
match_object_self true (some []) = refl
match_object_self true (some (c ∷ s)) = str_case_eq_refl (c ∷ s)

-- When the allocator refuses the copy of the privilege and grants the entry, `tdb_acl_grant` of any
-- one privilege returns TDB_OK, and the grantee has every privilege on the object.
pub grant_widens :
    (mem : Granted) (a : Acl) (g p : List ℕ) (k : ℕ) (o : Option (List ℕ))
    → 0 < k
    → mem.for_priv ≡ false
    → mem.for_entry ≡ true
    → (q : Option (List ℕ))
    → ((grant mem a (some g) (some p) k o).0 ≡ none)
      × (check (grant mem a (some g) (some p) k o).1 (some g) q k o ≡ true)
unfolding grant add_entry check up_strdup strdup check_entries matches match_grantee match_priv
    match_word match_kind
grant_widens mem a g p k o h refused there q = ground (
  arith,
  refused,
  there,
  has_entry-none a.entries (entry (some g) none k o) refl,
  match_word_self public_word mem.for_grantee g,
  match_object_self mem.for_object o,
)

-- A request that passes an entry which passes the tests of a revocation.
abbrev pub any_hit : Entry → Entry → List Entry → Bool
any_hit want r [] = false
any_hit want r (e ∷ es) = matches want e && matches e r || any_hit want r es

-- The count of a list is the number of its entries.
abbrev pub IsCounted : Acl → Type 0
IsCounted a = a.count ≡ length a.entries
