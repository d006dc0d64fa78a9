-- ===== src/Catalog/Schema/Drop.antt =====
-- Dropping a column leaves every other reference to a column at the column it had.
use transaction_db.Base.{
  ℕ, zero, suc, ◌+◌, ◌<◌, ◌≡◌, refl, ap₂, inr, false, Option, none, some, List, [], ◌∷◌, map, arith,
  length, get_elem?, All, leb, ◌==◌,
}
use transaction_db.Catalog.Schema.{
  Column, Index, Table, remove_at, shift_index, shift_period, shift_refs, drop_column,
}

-- The columns that an index names.
abbrev pub index_columns : List Column → Index → List (Option Column)
index_columns cols ix = map (get_elem? cols) ix.col_idx

-- The column of a bound of the period.
abbrev pub period_column : List Column → Option ℕ → Option Column
period_column cols none = none
period_column cols (some k) = get_elem? cols k

-- A bound of the period is not the column `ci`.
abbrev pub IsOther : ℕ → Option ℕ → Type 0
IsOther ci none = Unit
IsOther ci (some k) = (k == ci) ≡ false

shift_index-suc : (ci k : ℕ) → shift_index (suc ci) (suc k) ≡ suc (shift_index ci k)
unfolding shift_index
shift_index-suc ci k = ground arith

get_elem?-remove_at {ℓ} :
    {A : Type ℓ} (xs : List A) (ci k : ℕ)
    → (k == ci) ≡ false
    → get_elem? (remove_at xs ci) (shift_index ci k) ≡ get_elem? xs k
unfolding remove_at
get_elem?-remove_at [] ci k h = refl
get_elem?-remove_at (x ∷ xs) zero zero h = cc
get_elem?-remove_at (x ∷ xs) zero (suc k) h =
    let down : shift_index 0 (suc k) ≡ k = unfold shift_index in ground arith in rw down refl
get_elem?-remove_at (x ∷ xs) (suc ci) zero h =
    let same : shift_index (suc ci) 0 ≡ 0 = unfold shift_index in ground arith in rw same refl
get_elem?-remove_at (x ∷ xs) (suc ci) (suc k) h =
    rw (shift_index-suc ci k) (get_elem?-remove_at xs ci k (ground arith))

index_columns-shift :
    (cols : List Column) (ci : ℕ) (ks : List ℕ)
    → All (λ k. (k == ci) ≡ false) ks
    → map (get_elem? (remove_at cols ci)) (map (shift_index ci) ks) ≡ map (get_elem? cols) ks
index_columns-shift cols ci [] hs = refl
index_columns-shift cols ci (k ∷ ks) (h, hs) =
    ap₂ (λ a b. a ∷ b) (get_elem?-remove_at cols ci k h) (index_columns-shift cols ci ks hs)

indexes-shift :
    (cols : List Column) (ci : ℕ) (ixs : List Index)
    → All (λ ix. All (λ k. (k == ci) ≡ false) ix.col_idx) ixs
    → map (index_columns (remove_at cols ci)) (map (shift_refs ci) ixs)
      ≡ map (index_columns cols) ixs
unfolding shift_refs
indexes-shift cols ci [] hs = refl
indexes-shift cols ci (ix ∷ ixs) (h, hs) =
    ap₂ (λ a b. a ∷ b) (index_columns-shift cols ci ix.col_idx h) (indexes-shift cols ci ixs hs)

period-shift :
    (cols : List Column) (ci : ℕ) (o : Option ℕ)
    → IsOther ci o
    → period_column (remove_at cols ci) (shift_period ci o) ≡ period_column cols o
unfolding shift_period
period-shift cols ci none h = refl
period-shift cols ci (some k) h = get_elem?-remove_at cols ci k h

length-remove_at {ℓ} :
    {A : Type ℓ} (xs : List A) (ci : ℕ) → ci < length xs → length (remove_at xs ci) + 1 ≡ length xs
unfolding remove_at
length-remove_at [] ci h = absurd (omega arith)
length-remove_at (x ∷ xs) zero h = omega arith
length-remove_at (x ∷ xs) (suc ci) h = omega (arith, length-remove_at xs ci (omega arith))

-- For a column that is there, that no index names and that bounds no period,
-- `tdb_table_drop_column` succeeds and leaves one column less. Every index names the same columns as
-- before, in the same order, and the bounds of the period are the same columns.
pub drop_column_keeps :
    (t : Table) (ci : ℕ)
    → ci < length t.cols
    → All (λ ix. All (λ k. (k == ci) ≡ false) ix.col_idx) t.indexes
    → IsOther ci t.row_start_col
    → IsOther ci t.row_end_col
    → (t' : Table) × (drop_column t ci ≡ inr t')
      × (length t'.cols + 1 ≡ length t.cols)
      × (map (index_columns t'.cols) t'.indexes ≡ map (index_columns t.cols) t.indexes)
      × (period_column t'.cols t'.row_start_col ≡ period_column t.cols t.row_start_col)
      × (period_column t'.cols t'.row_end_col ≡ period_column t.cols t.row_end_col)
unfolding drop_column
drop_column_keeps t ci h hs hb he =
    let there : leb (length t.cols) ci ≡ false = ground arith in
    (
      record t {
        cols = remove_at t.cols ci;
        indexes = map (shift_refs ci) t.indexes;
        row_start_col = shift_period ci t.row_start_col;
        row_end_col = shift_period ci t.row_end_col;
      },
      rw there refl,
      length-remove_at t.cols ci h,
      indexes-shift t.cols ci t.indexes hs,
      period-shift t.cols ci t.row_start_col hb,
      period-shift t.cols ci t.row_end_col he,
    )
