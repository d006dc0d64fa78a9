-- ===== src/Txn/Manager.antt =====
-- src/txn/tdb_txn.c: the transaction manager. An operation is one step under the manager's mutex; the
-- growth of its arrays, whose failure the code does not check, is not modelled. The pager and the lock
-- table are arguments, by the operations that the manager calls.
pub mod Registry
pub mod Stable
use transaction_db.Base.{
  ℕ, zero, suc, ◌+◌, ◌%◌, ◌^◌, Bool, true, false, not, ◌&&◌, Option, none, some, List, [], ◌∷◌,
  ◌++◌, length, take, leb, ltb, ◌==◌, if◌then◌else◌,
}
use transaction_db.Base.CString.{str_case_eq}
use transaction_db.Status.{Failure, Result, ok, err, nomem, readonly, error, notfound}
use transaction_db.Txn.Mvcc.{XState, active, committed, aborted, is_committed, Snapshot, visible}

-- `xrec`
pub record Xrec : Type 0 where
  pub id : ℕ
  pub state : XState

-- The fields of `struct tdb_txnmgr` that are its own.
pub record TxnMgr : Type 0 where
  pub base : ℕ
  pub next : ℕ
  pub recs : List Xrec
  pub actives : List ℕ

-- `tdb_isolation`
pub data Isolation : Type 0 where
  read_committed snapshot serializable : Isolation

-- A savepoint of `sp_names` and `sp_levels`.
pub record Savepoint : Type 0 where
  pub name : List ℕ
  pub level : ℕ

-- `tdb_txn`; the savepoints stand with the latest last.
pub record Txn : Type 0 where
  pub id : ℕ
  pub iso : Isolation
  pub snap : Snapshot
  pub writable : Bool
  pub savepoints : List Savepoint

-- `tdb_txnmgr_open`, on the largest committed id that the pager has.
unfoldable pub open_mgr : ℕ → TxnMgr
open_mgr max_txnid = record {
  base = max_txnid;
  next = (max_txnid + 1) % 2 ^ 64;
  recs = [];
  actives = [];
}

unfoldable pub set_rec : ℕ → XState → List Xrec → List Xrec
set_rec id st [] = record { id = id; state = st } ∷ []
set_rec id st (r ∷ rs) =
    let rest = set_rec id st rs in if r.id == id then record r { state = st } ∷ rs else r ∷ rest

unfoldable pub set_state : TxnMgr → ℕ → XState → TxnMgr
set_state m id st = record m { recs = set_rec id st m.recs }

unfoldable pub find_rec : ℕ → List Xrec → XState
find_rec xid [] = aborted
find_rec xid (r ∷ rs) = let rest = find_rec xid rs in if r.id == xid then r.state else rest

-- `tdb_txnmgr_state`
unfoldable pub txn_state : TxnMgr → ℕ → XState
txn_state m xid =
    if xid == 0 then aborted else if leb xid m.base then committed else find_rec xid m.recs

-- The last of `x ∷ xs`, and the others.
unfoldable pub last_of : ℕ → List ℕ → ℕ
last_of x [] = x
last_of x (y ∷ ys) = last_of y ys

unfoldable pub others_of : ℕ → List ℕ → List ℕ
others_of x [] = []
others_of x (y ∷ ys) = x ∷ others_of y ys

-- `m->active[i] = m->active[--m->nactive]`, on what stands behind `i`.
unfoldable pub last_first : List ℕ → List ℕ
last_first [] = []
last_first (x ∷ xs) = last_of x xs ∷ others_of x xs

unfoldable pub active_remove : ℕ → List ℕ → List ℕ
active_remove id [] = []
active_remove id (x ∷ xs) =
    let rest = active_remove id xs in if x == id then last_first xs else x ∷ rest

unfoldable pub take_snapshot : TxnMgr → ℕ → Snapshot
take_snapshot m id = record { self = id; xmax = m.next; in_flight = m.actives }

-- The part of `tdb_txn_begin` under the mutex: the manager after it, and the transaction.
unfoldable pub register : TxnMgr → Isolation → Bool → TxnMgr × Txn
register m iso writable =
    let id = m.next in
    let m₁ = record m { next = (m.next + 1) % 2 ^ 64 } in
    let m₂ = set_state m₁ id active in
    let m₃ = record m₂ { actives = m₂.actives ++ (id ∷ []) } in
    (
      m₃,
      record {
        id = id;
        iso = iso;
        snap = take_snapshot m₃ id;
        writable = writable;
        savepoints = [];
      },
    )

-- The part of `tdb_txn_commit` and `tdb_txn_rollback` under the mutex.
unfoldable pub finish : TxnMgr → ℕ → XState → TxnMgr
finish m id st = let m₁ = set_state m id st in record m₁ { actives = active_remove id m₁.actives }
