-- ===== src/Value/Keys.antt =====
-- value/tdb_record.c: the order of encoded records as keys.
pub mod Order
use transaction_db.Base.{
  ℕ, zero, suc, ◌+◌, ◌%◌, ◌^◌, min, max, Bool, true, false, Option, none, some, List, [], ◌∷◌, ltb,
  leb, ◌==◌, ◌&&◌, if◌then◌else◌, get_or,
}
use transaction_db.Status.{Result, ok, err, stuck}
use transaction_db.Value.{Value}
use transaction_db.Value.Record.{record_decode}
use transaction_db.Value.Compare.{
  RealOps, Collation, binary, Sign, less, same, more, sign_ℕ, value_compare,
}

-- `tdb_keyinfo`; the arrays have an entry for each column.
pub record KeyInfo : Type 0 where
  pub ncol : ℕ
  pub coll : Option (List Collation)
  pub desc : Option (List Bool)

-- `ki->coll ? ki->coll[i] : TDB_COLL_BINARY`, and the flag of the direction.
unfoldable pub coll_at : Option KeyInfo → ℕ → Collation
coll_at none i = binary
coll_at (some ki) i = elim ki.coll [ none ↦ binary | some cs ↦ get_or cs i binary ]

unfoldable pub desc_at : Option KeyInfo → ℕ → Bool
desc_at none i = false
desc_at (some ki) i = elim ki.desc [ none ↦ false | some ds ↦ get_or ds i false ]

-- The columns that are decoded.
unfoldable pub max_columns : Option KeyInfo → ℕ
max_columns none = 16
max_columns (some ki) = if ltb 0 ki.ncol && leb ki.ncol 16 then ki.ncol else 16

-- `-c`
unfoldable pub negate : Bool → Sign → Sign
negate false c = c
negate true less = more
negate true same = same
negate true more = less

-- The first sign that is not 0.
unfoldable pub or_next : Sign → Sign → Sign
or_next less d = less
or_next same d = d
or_next more d = more

-- A number of columns is a pattern of 32 bits; `int`s have the order of the patterns so moved.
unfoldable pub offset : ℕ → ℕ
offset n = (n + 2 ^ 31) % 2 ^ 32

-- The rounds of a loop up to a number of columns.
unfoldable pub rounds : ℕ → ℕ
rounds n = if ltb n (2 ^ 31) then n else 0

module _ (f : RealOps) (ki : Option KeyInfo) where
  -- The loop over the columns from `i` on that both records have.
  unfoldable pub compare_cols : ℕ → List Value → List Value → Sign
  compare_cols i [] ws = same
  compare_cols i (v ∷ vs) [] = same
  compare_cols i (v ∷ vs) (w ∷ ws) =
      or_next (negate (desc_at ki i) (value_compare f (coll_at ki i) v w))
        (compare_cols (i + 1) vs ws)

  -- What is left once both records are decoded. A record with more columns than were decoded makes
  -- the code use values that were never set: there is no result.
  unfoldable pub compare_decoded : ℕ × List Value → ℕ × List Value → Option Sign
  compare_decoded (ca, va) (cb, vb) =
      if ltb (max_columns ki) (max (rounds ca) (rounds cb))
      then none
      else if leb (2 ^ 31) (max ca cb)
      then some (sign_ℕ (offset ca) (offset cb))
      else some (or_next (compare_cols 0 va vb) (sign_ℕ ca cb))

  -- The second record is decoded only where the first one was.
  unfoldable pub compare_results : Result (ℕ × List Value) → Result (ℕ × List Value) → Option Sign
  compare_results (ok a) (ok b) = compare_decoded a b
  compare_results (ok a) (err e) = some same
  compare_results (ok a) stuck = none
  compare_results (err e) b = some same
  compare_results stuck b = none

  -- `tdb_record_compare`
  unfoldable pub record_compare : (ℕ → Bool) → List ℕ → List ℕ → Option Sign
  record_compare alloc a b =
      compare_results (record_decode alloc a (max_columns ki))
        (record_decode alloc b (max_columns ki))
