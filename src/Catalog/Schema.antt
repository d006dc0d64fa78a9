-- ===== src/Catalog/Schema.antt =====
-- catalog/tdb_schema.c: the columns and the indexes of a table. Freeing is not modelled, and of the
-- fields of a table those are left out that these operations neither read nor change.
pub mod Drop
use transaction_db.Base.{
  ℕ, zero, suc, ◌+◌, ◌-◌, ◌⊎◌, inl, inr, Bool, false, Option, none, some, List, [], ◌∷◌, ◌++◌, map,
  length, leb, ltb, ◌==◌, if◌then◌else◌,
}
use transaction_db.Base.CString.{str_case_eq}
use transaction_db.Status.{Failure, nomem, notfound}
use transaction_db.Value.Compare.{Collation}
use transaction_db.Value.Sqltype.{Typespec}

-- `tdb_colref`
pub record Colref : Type 0 where
  pub table : Option (List ℕ)
  pub column : List ℕ

-- `tdb_generated_kind`
pub data Generated : Type 0 where
  gen_none gen_virtual gen_stored : Generated

-- `tdb_column`. A `char *` that may be NULL is an option.
pub record Column : Type 0 where
  pub name : Option (List ℕ)
  pub type : Typespec
  pub coll : Collation
  pub notnull : Bool
  pub pk : Bool
  pub unique : Bool
  pub hidden : Bool
  pub default_sql : Option (List ℕ)
  pub check_sql : Option (List ℕ)
  pub generated : Generated
  pub generated_sql : Option (List ℕ)
  pub lua_compute : Option (List ℕ)
  pub refs : List Colref

-- `tdb_index`
pub record Index : Type 0 where
  pub name : Option (List ℕ)
  pub root : ℕ
  pub unique : Bool
  pub col_idx : List ℕ
  pub descending : List Bool
  pub kind : ℕ

-- `tdb_table`, with `none` for the -1 of the columns of the period.
pub record Table : Type 0 where
  pub name : Option (List ℕ)
  pub cols : List Column
  pub indexes : List Index
  pub row_start_col : Option ℕ
  pub row_end_col : Option ℕ

-- The elements without number `i`: the loops that move the later ones down.
unfoldable pub remove_at {ℓ} : {A : Type ℓ} → List A → ℕ → List A
remove_at [] i = []
remove_at (x ∷ xs) zero = xs
remove_at (x ∷ xs) (suc i) = x ∷ remove_at xs i

-- `tdb_table_new`: `name` is what `tdb_strdup` gave, `granted` the answer to the first allocation.
unfoldable pub table_new : Bool → Option (List ℕ) → Option Table
table_new granted name =
    if granted
    then some
        (record { name = name; cols = []; indexes = []; row_start_col = none; row_end_col = none })
    else none

-- `tdb_table_add_column`
unfoldable pub add_column : Bool → Table → Column → Failure ⊎ Table
add_column granted t col =
    if granted then inr (record t { cols = t.cols ++ (col ∷ []) }) else inl nomem

-- An index of a column behind column `ci`, moved down by one.
unfoldable pub shift_index : ℕ → ℕ → ℕ
shift_index ci k = if ltb ci k then k - 1 else k

unfoldable pub shift_period : ℕ → Option ℕ → Option ℕ
shift_period ci none = none
shift_period ci (some k) = some (shift_index ci k)

unfoldable pub shift_refs : ℕ → Index → Index
shift_refs ci ix = record ix { col_idx = map (shift_index ci) ix.col_idx }

-- `tdb_table_drop_column`, for a number that is not negative.
unfoldable pub drop_column : Table → ℕ → Failure ⊎ Table
drop_column t ci =
    if leb (length t.cols) ci
    then inl notfound
    else inr (record t {
      cols = remove_at t.cols ci;
      indexes = map (shift_refs ci) t.indexes;
      row_start_col = shift_period ci t.row_start_col;
      row_end_col = shift_period ci t.row_end_col;
    })

unfoldable pub same_name : List ℕ → Option (List ℕ) → Bool
same_name want none = false
same_name want (some s) = str_case_eq s want

unfoldable pub find_from : List ℕ → List Column → ℕ → Option ℕ
find_from want [] i = none
find_from want (c ∷ cs) i =
    let rest = find_from want cs (i + 1) in if same_name want c.name then some i else rest

-- `tdb_table_find_column`: `none` for -1.
unfoldable pub find_column : Table → List ℕ → Option ℕ
find_column t want = find_from want t.cols 0

-- `tdb_table_drop_index`, for a number that is not negative.
unfoldable pub drop_index : Table → ℕ → Failure ⊎ Table
drop_index t i =
    if leb (length t.indexes) i
    then inl notfound
    else inr (record t { indexes = remove_at t.indexes i })
