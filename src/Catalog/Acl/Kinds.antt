-- ===== src/Catalog/Acl/Kinds.antt =====
-- catalog/tdb_acl.c: the names of the kinds of objects, in the order of the table.
use transaction_db.Base.{
  ℕ, zero, suc, ◌≡◌, refl, ◌≤◌, Option, none, some, List, [], ◌∷◌, ◌++◌, ◌==◌, if◌then◌else◌, arith,
}
use transaction_db.Base.CString.{to_lower, is_space, case_prefix}

abbrev pub table : List ℕ
table = b'T' ∷ b'A' ∷ b'B' ∷ b'L' ∷ b'E' ∷ []

abbrev pub index : List ℕ
index = b'I' ∷ b'N' ∷ b'D' ∷ b'E' ∷ b'X' ∷ []

abbrev pub view : List ℕ
view = b'V' ∷ b'I' ∷ b'E' ∷ b'W' ∷ []

abbrev pub function : List ℕ
function = b'F' ∷ b'U' ∷ b'N' ∷ b'C' ∷ b'T' ∷ b'I' ∷ b'O' ∷ b'N' ∷ []

abbrev pub procedure : List ℕ
procedure = b'P' ∷ b'R' ∷ b'O' ∷ b'C' ∷ b'E' ∷ b'D' ∷ b'U' ∷ b'R' ∷ b'E' ∷ []

abbrev pub tablespace : List ℕ
tablespace = b'T' ∷ b'A' ∷ b'B' ∷ b'L' ∷ b'E' ∷ b'S' ∷ b'P' ∷ b'A' ∷ b'C' ∷ b'E' ∷ []

abbrev pub database : List ℕ
database = b'D' ∷ b'A' ∷ b'T' ∷ b'A' ∷ b'B' ∷ b'A' ∷ b'S' ∷ b'E' ∷ []

abbrev pub sequence : List ℕ
sequence = b'S' ∷ b'E' ∷ b'Q' ∷ b'U' ∷ b'E' ∷ b'N' ∷ b'C' ∷ b'E' ∷ []

abbrev pub unknown : List ℕ
unknown = b'U' ∷ b'N' ∷ b'K' ∷ b'N' ∷ b'O' ∷ b'W' ∷ b'N' ∷ []

abbrev pub kinds : List (List ℕ × ℕ)
kinds =
    (table, 1)
    ∷ (index, 2)
    ∷ (view, 3)
    ∷ (function, 4)
    ∷ (procedure, 5)
    ∷ (tablespace, 6)
    ∷ (database, 7)
    ∷ (sequence, 8)
    ∷ []

unfoldable pub find_name : List ℕ → List (List ℕ × ℕ) → ℕ
find_name s [] = 0
find_name s ((name, kind) ∷ ks) = if case_prefix s name then kind else find_name s ks

unfoldable pub skip_spaces : List ℕ → List ℕ
skip_spaces [] = []
skip_spaces (c ∷ s) = if is_space c then skip_spaces s else c ∷ s

unfoldable pub kind_of : Option (List ℕ) → ℕ
kind_of none = 0
kind_of (some s) = find_name (skip_spaces s) kinds

unfoldable pub find_kind : ℕ → List (List ℕ × ℕ) → List ℕ
find_kind kind [] = unknown
find_kind kind ((name, k) ∷ ks) = if k == kind then name else find_kind kind ks

unfoldable pub kind_name : ℕ → List ℕ
kind_name kind = find_kind kind kinds

-- The kind that the name of a kind, whatever follows it, is read as: the kind itself, but for
-- TABLESPACE, whose name is read as that of TABLE.
pub kind_of-kind_name :
    (rest : List ℕ) (kind : ℕ)
    → 1 ≤ kind
    → kind ≤ 8
    → kind_of (some (kind_name kind ++ rest)) ≡ (if kind == 6 then 1 else kind)
unfolding kind_of kind_name find_kind find_name case_prefix skip_spaces is_space to_lower
kind_of-kind_name rest zero h h' = absurd (omega arith)
kind_of-kind_name rest (suc zero) h h' = refl
kind_of-kind_name rest (suc (suc zero)) h h' = refl
kind_of-kind_name rest (suc (suc (suc zero))) h h' = refl
kind_of-kind_name rest (suc (suc (suc (suc zero)))) h h' = refl
kind_of-kind_name rest (suc (suc (suc (suc (suc zero))))) h h' = refl
kind_of-kind_name rest (suc (suc (suc (suc (suc (suc zero)))))) h h' = refl
kind_of-kind_name rest (suc (suc (suc (suc (suc (suc (suc zero))))))) h h' = refl
kind_of-kind_name rest (suc (suc (suc (suc (suc (suc (suc (suc zero)))))))) h h' = refl
kind_of-kind_name rest (suc (suc (suc (suc (suc (suc (suc (suc (suc k))))))))) h h' =
    absurd (omega arith)
