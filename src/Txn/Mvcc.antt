-- ===== src/Txn/Mvcc.antt =====
-- src/txn/tdb_mvcc.c: which row versions a snapshot sees. The commit state of a transaction id is a
-- function that the caller supplies.
use transaction_db.Base.{ℕ, Bool, true, false, not, List, [], ◌∷◌, leb, ◌==◌, if◌then◌else◌}

-- `tdb_xstate`
pub data XState : Type 0 where
  active committed aborted : XState

unfoldable pub is_committed : XState → Bool
is_committed active = false
is_committed committed = true
is_committed aborted = false

-- `tdb_snapshot`
pub record Snapshot : Type 0 where
  pub self : ℕ
  pub xmax : ℕ
  pub in_flight : List ℕ

-- The loop of `tdb_snapshot_in_active`.
unfoldable pub contains : ℕ → List ℕ → Bool
contains xid [] = false
contains xid (x ∷ xs) = let rest = contains xid xs in if x == xid then true else rest

unfoldable pub snapshot_in_active : Snapshot → ℕ → Bool
unfolding contains
snapshot_in_active s xid = contains xid s.in_flight

unfoldable pub xid_visible : (ℕ → XState) → Snapshot → ℕ → Bool
xid_visible state s xid =
    if xid == s.self
    then true
    else if not (is_committed (state xid))
    then false
    else if leb s.xmax xid
    then false
    else not (snapshot_in_active s xid)

-- `tdb_mvcc_visible`
unfoldable pub visible : (ℕ → XState) → Snapshot → ℕ → ℕ → Bool
visible state s xmin xmax =
    if not (xid_visible state s xmin)
    then false
    else if xmax == 0
    then true
    else if xmax == s.self
    then false
    else not (xid_visible state s xmax)
