-- ===== src/Txn/Lock.antt =====
-- src/txn/tdb_lock.c: the lock table. The mutex makes each operation one step, so an operation is a
-- function from the table to its status and the table after it. Whether the allocator grants a
-- resource and a holder is an argument of the acquisition.
pub mod Table
pub mod Holders
pub mod Refine
pub mod Safety
use transaction_db.Base.{
  ℕ, suc, ◌+◌, ◌/◌, ◌%◌, ◌^◌, Bool, true, false, not, ◌&&◌, ◌||◌, Option, none, some, List, [], ◌∷◌,
  ◌++◌, map, length, ltb, ◌==◌, if◌then◌else◌,
}

-- `tdb_lockmode`
pub data LockMode : Type 0 where
  unlocked shared excl : LockMode

-- `holder`
pub record Holder : Type 0 where
  pub txn : ℕ
  pub mode : LockMode

-- The statuses that `tdb_lock_acquire` returns.
pub data Answer : Type 0 where
  granted busy abort nomem : Answer

unfoldable pub is_excl : LockMode → Bool
is_excl unlocked = false
is_excl shared = false
is_excl excl = true

unfoldable pub mode_conflict : LockMode → LockMode → Bool
unfolding is_excl
mode_conflict a b = is_excl a || is_excl b

-- `(txn < h->txn) ? TDB_BUSY : TDB_ABORT`
unfoldable pub wait_die : ℕ → Holder → Answer
wait_die txn h = if ltb txn h.txn then busy else abort

-- The first loop of `tdb_lock_acquire`: `self` is the last holder of the transaction.
unfoldable pub find_self : ℕ → List Holder → Option LockMode
find_self txn [] = none
find_self txn (h ∷ hs) = elim (find_self txn hs) [
  | some m ↦ some m
  | none ↦ if h.txn == txn then some h.mode else none
]

unfoldable pub first_other : ℕ → List Holder → Option Holder
first_other txn [] = none
first_other txn (h ∷ hs) = if h.txn == txn then first_other txn hs else some h

unfoldable pub first_conflict : LockMode → List Holder → Option Holder
first_conflict mode [] = none
first_conflict mode (h ∷ hs) = if mode_conflict mode h.mode then some h else first_conflict mode hs

-- `self->mode = TDB_LOCK_EXCL` on the last holder of the transaction.
unfoldable pub upgrade_self : ℕ → List Holder → List Holder
upgrade_self txn [] = []
upgrade_self txn (h ∷ hs) = elim (find_self txn hs) [
  | some m ↦ h ∷ upgrade_self txn hs
  | none ↦ if h.txn == txn then record h { mode = excl } ∷ hs else h ∷ hs
]

-- The branch for a transaction that holds the resource already.
unfoldable pub acquire_held : ℕ → LockMode → LockMode → List Holder → Answer × List Holder
acquire_held txn mode held hs =
    if is_excl mode && not (is_excl held)
    then (elim (first_other txn hs) [
      | some h ↦ (wait_die txn h, hs)
      | none ↦ (granted, upgrade_self txn hs)
    ])
    else (granted, hs)

-- The branch for a new request.
unfoldable pub acquire_new : Bool → ℕ → LockMode → List Holder → Answer × List Holder
acquire_new mem txn mode hs = elim (first_conflict mode hs) [
  | some h ↦ (wait_die txn h, hs)
  | none ↦ if mem then (granted, record { txn = txn; mode = mode } ∷ hs) else (nomem, hs)
]

-- `tdb_lock_acquire` on the holders of the resource.
unfoldable pub acquire_holders : Bool → ℕ → LockMode → List Holder → Answer × List Holder
acquire_holders mem txn mode hs = elim (find_self txn hs) [
  | some held ↦ acquire_held txn mode held hs
  | none ↦ acquire_new mem txn mode hs
]

-- The inner loop of `tdb_lock_release_all`.
unfoldable pub release_holders : ℕ → List Holder → List Holder
release_holders txn [] = []
release_holders txn (h ∷ hs) =
    let rest = release_holders txn hs in if h.txn == txn then rest else h ∷ rest
