-- ===== src/Txn/Session.antt =====
-- src/txn/tdb_txn.c: the operations on transactions, over the pager and the lock table. The pager is a
-- record of the operations that the code calls; a status is `none` for TDB_OK.
pub mod Ending
pub mod Savepoints
use transaction_db.Base.{
  ℕ, zero, suc, ◌+◌, ◌-◌, ◌<◌, ◌≤◌, ◌≡◌, Bool, true, false, not, ◌&&◌, Option, none, some, List, [],
  ◌∷◌, ◌++◌, length, take, get_or, leb, ltb, ◌==◌, if◌then◌else◌,
}
use transaction_db.Base.CString.{str_case_eq}
use transaction_db.Status.{Failure, nomem, readonly, error, notfound, misuse}
use transaction_db.Txn.Mvcc.{XState, active, committed, aborted, is_committed, visible}
use transaction_db.Txn.Lock.Table.{LockMgr, release_all}
use transaction_db.Txn.Manager.{
  TxnMgr, Isolation, Txn, Savepoint, txn_state, take_snapshot, register, finish,
}

-- The calls of src/storage/tdb_pager.c. `savepoint` gives `none` for a negative level.
pub record PagerOps : Type 1 where
  pub State : Type 0
  pub begin : State → Option Failure × State
  pub commit : State → Option Failure × State
  pub rollback : State → Option Failure × State
  pub savepoint : State → Option ℕ × State
  pub savepoint_release : State → ℕ → Option Failure × State
  pub savepoint_rollback : State → ℕ → Option Failure × State
  pub set_max_txnid : State → ℕ → State

abbrev pub is_ok : Option Failure → Bool
is_ok none = true
is_ok (some e) = false

module _ (ops : PagerOps) where
  open ops use {State, set_max_txnid}

  -- The manager with what it points to.
  pub record Env : Type 0 where
    pub mgr : TxnMgr
    pub pager : State
    pub locks : Option LockMgr

  abbrev pub release_locks : Option LockMgr → ℕ → Option LockMgr
  release_locks none id = none
  release_locks (some l) id = some (release_all l id)

  -- The end that `tdb_txn_commit` and `tdb_txn_rollback` share.
  unfoldable pub end_txn : Env → ℕ → XState → State → Env
  end_txn s id st p = record {
    mgr = finish s.mgr id st;
    pager = p;
    locks = release_locks s.locks id;
  }

  unfoldable pub txn_rollback : Env → Txn → Option Failure × Env
  unfolding end_txn
  txn_rollback s t =
      let (rc, p) = if t.writable then ops.rollback s.pager else (none, s.pager) in
      (rc, end_txn s t.id aborted p)

  unfoldable pub txn_commit : Env → Txn → Option Failure × Env
  unfolding end_txn
  txn_commit s t =
      let (rc, p) =
        if t.writable then ops.commit (set_max_txnid s.pager t.id) else (none, s.pager) in
      (rc, end_txn s t.id (if is_ok rc then committed else aborted) p)

  -- What a successful and a failed `tdb_pager_begin` lead to in `tdb_txn_begin`.
  unfoldable pub begin_writable :
      Env → Txn → Option Failure × State → Option Failure × Option Txn × Env
  unfolding txn_rollback
  begin_writable s t (none, p) = (none, some t, record s { pager = p })
  begin_writable s t (some e, p) =
      let (rc, s') = txn_rollback (record s { pager = p }) t in (some e, none, s')

  -- `tdb_txn_begin`; the first argument says whether the allocator grants the transaction.
  unfoldable pub txn_begin : Bool → Env → Isolation → Bool → Option Failure × Option Txn × Env
  unfolding begin_writable
  txn_begin mem s iso writable =
      if not mem
      then (some nomem, none, s)
      else (let (m, t) = register s.mgr iso writable in
          let s' = record s { mgr = m } in
          if writable then begin_writable s' t (ops.begin s.pager) else (none, some t, s'))

  unfoldable pub refresh_snapshot : Env → Txn → Txn
  refresh_snapshot s t = record t { snap = take_snapshot s.mgr t.id }

  -- `tdb_txn_visible` and `tdb_txn_visible_asof`
  unfoldable pub txn_visible : Env → Txn → ℕ → ℕ → Bool
  txn_visible s t xmin xmax = visible (txn_state s.mgr) t.snap xmin xmax

  unfoldable pub visible_asof : Env → Txn → ℕ → ℕ → ℕ → Bool
  visible_asof s t xmin xmax asof =
      if not (is_committed (txn_state s.mgr xmin))
      then false
      else if ltb asof xmin
      then false
      else if xmax == 0
      then true
      else if is_committed (txn_state s.mgr xmax) && leb xmax asof
      then false
      else true

  unfoldable pub txn_savepoint : Env → Txn → List ℕ → Option Failure × Txn × Env
  txn_savepoint s t name =
      if not t.writable
      then (some readonly, t, s)
      else (let (level, p) = ops.savepoint s.pager in
          elim level [
            | none ↦ (some error, t, record s { pager = p })
            | some l ↦ (
              none,
              record t { savepoints = t.savepoints ++ (record { name = name; level = l } ∷ []) },
              record s { pager = p },
            )
          ])

-- `find_sp`: the last savepoint of the name, with the savepoints before it.
unfoldable pub find_sp : List ℕ → List Savepoint → Option (ℕ × Savepoint)
find_sp name [] = none
find_sp name (sp ∷ sps) = elim (find_sp name sps) [
  | some (i, found) ↦ some (i + 1, found)
  | none ↦ if str_case_eq sp.name name then some (0, sp) else none
]

module _ (ops : PagerOps) where
  unfoldable pub txn_release : Env ops → Txn → List ℕ → Option Failure × Txn × Env ops
  txn_release s t name = elim (find_sp name t.savepoints) [
    | none ↦ (some notfound, t, s)
    | some (i, sp) ↦
        let (rc, p) = ops.savepoint_release s.pager sp.level in
        (rc, record t { savepoints = take i t.savepoints }, record s { pager = p })
  ]

  unfoldable pub txn_rollback_to : Env ops → Txn → List ℕ → Option Failure × Txn × Env ops
  txn_rollback_to s t name = elim (find_sp name t.savepoints) [
    | none ↦ (some notfound, t, s)
    | some (i, sp) ↦
        let (rc, p) = ops.savepoint_rollback s.pager sp.level in
        (rc, record t { savepoints = take (i + 1) t.savepoints }, record s { pager = p })
  ]
