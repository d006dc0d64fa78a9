-- ===== src/Txn/Session/Ending.antt =====
-- How a transaction begins and ends.
use transaction_db.Base.{
  ℕ, ◌+◌, ◌^◌, ◌<◌, ◌≡◌, refl, Bool, true, false, min, Option, none, some, arith, leb, ◌==◌,
  if◌then◌else◌, Bool-cases, inl, inr,
}
use transaction_db.Status.{Failure}
use transaction_db.Txn.Mvcc.{XState, committed, aborted, contains}
use transaction_db.Txn.Manager.{
  TxnMgr, Isolation, Txn, set_state, txn_state, register, finish, take_snapshot,
}
use transaction_db.Txn.Manager.Registry.{
  IsValid, is_active, find-set_rec, register-IsValid, finish-IsValid, contains-active_remove,
  contains-append, next_unknown,
}
use transaction_db.Txn.Session.{
  PagerOps, Env, is_ok, release_locks, end_txn, txn_commit, txn_rollback, txn_begin, begin_writable,
}

-- An active id is one that this session gave out.
active_in_session :
    (m : TxnMgr) (id : ℕ)
    → IsValid m
    → contains id m.actives ≡ true
    → (id == 0 ≡ false) × (leb id m.base ≡ false)
active_in_session m id v known =
    let above : leb id m.base ≡ false = elim (Bool-cases (leb id m.base)) [
      | inl old ↦
          let e : min id m.base ≡ id = ground arith in
          absurd (ground (arith, v.actives_exact id, rw e at (v.unknown_below id)))
      | inr new ↦ new
    ] in
    (ground arith, above)

-- What the end of an active transaction leaves: its state, the id out of the active ones, the
-- invariant, and its locks released.
abbrev pub Ended : (ops : PagerOps) → Env ops → ℕ → XState → Env ops → Type 0
Ended ops s id st s' =
    IsValid s'.mgr
    × (txn_state s'.mgr id ≡ st)
    × (contains id s'.mgr.actives ≡ false)
    × (s'.locks ≡ release_locks ops s.locks id)

end_txn-Ended :
    (ops : PagerOps) (s : Env ops) (id : ℕ) (st : XState) (p : ops.State)
    → IsValid s.mgr
    → contains id s.mgr.actives ≡ true
    → is_active st ≡ false
    → Ended ops s id st (end_txn ops s id st p)
unfolding end_txn
end_txn-Ended ops s id st p v known ended =
    let (nonzero, new) = active_in_session s.mgr id v known in
    (
      finish-IsValid s.mgr id st known ended v,
      unfold txn_state finish set_state in ground (arith, find-set_rec id st s.mgr.recs id),
      unfold finish set_state in
          ground (arith, contains-active_remove id id s.mgr.actives v.distinct),
      refl,
    )

-- `tdb_txn_commit` of an active transaction: its state is committed exactly if the call returns
-- TDB_OK, and aborted otherwise; either way it is no longer active and its locks are released.
pub txn_commit-Ended :
    (ops : PagerOps) (s : Env ops) (t : Txn)
    → IsValid s.mgr
    → contains t.id s.mgr.actives ≡ true
    → let (rc, s') = txn_commit ops s t in
      Ended ops s t.id (if is_ok rc then committed else aborted) s'
unfolding txn_commit
txn_commit-Ended ops s t v known =
    let (rc, p) =
      if t.writable then ops.commit (ops.set_max_txnid s.pager t.id) else (none, s.pager) in
    end_txn-Ended ops s t.id (if is_ok rc then committed else aborted) p v known (ground arith)

-- `tdb_txn_rollback` of an active transaction aborts it, whatever the pager answers.
pub txn_rollback-Ended :
    (ops : PagerOps) (s : Env ops) (t : Txn)
    → IsValid s.mgr
    → contains t.id s.mgr.actives ≡ true
    → Ended ops s t.id aborted (txn_rollback ops s t).1
unfolding txn_rollback
txn_rollback-Ended ops s t v known =
    let (rc, p) = if t.writable then ops.rollback s.pager else (none, s.pager) in
    end_txn-Ended ops s t.id aborted p v known refl

-- A registered transaction is active under the next id, and its snapshot has it in flight.
register_active :
    (m : TxnMgr) (iso : Isolation) (writable : Bool)
    → IsValid m
    → let (m', t) = register m iso writable in
      (t.id ≡ m.next) × (contains t.id m'.actives ≡ true) × (t.snap ≡ take_snapshot m' t.id)
unfolding register set_state
register_active m iso writable v =
    (refl, ground (arith, contains-append m.next m.next m.actives), refl)

-- What `tdb_txn_begin` has done when it hands a transaction over, or none.
abbrev pub Begun : (ops : PagerOps) → Env ops → Option Failure × Option Txn × Env ops → Type 0
Begun ops s (rc, none, s') =
    IsValid s'.mgr × (is_ok rc ≡ false) × (contains s.mgr.next s'.mgr.actives ≡ false)
Begun ops s (rc, some t, s') =
    IsValid s'.mgr
    × (rc ≡ none)
    × (t.id ≡ s.mgr.next)
    × (contains t.id s'.mgr.actives ≡ true)
    × (t.snap ≡ take_snapshot s'.mgr t.id)

begin_writable-Begun :
    (ops : PagerOps) (s : Env ops) (iso : Isolation) (answer : Option Failure × ops.State)
    → s.mgr.next + 1 < 2 ^ 64
    → IsValid s.mgr
    → let (m, t) = register s.mgr iso true in
      Begun ops s (begin_writable ops (record s { mgr = m }) t answer)
unfolding begin_writable register
begin_writable-Begun ops s iso (none, p) h v =
    let (same, known, snap) = register_active s.mgr iso true v in
    (register-IsValid s.mgr iso true h v, refl, same, known, snap)
begin_writable-Begun ops s iso (some e, p) h v =
    let (m, t) = register s.mgr iso true in
    let (same, known, snap) = register_active s.mgr iso true v in
    let (valid, state, gone, free) =
      txn_rollback-Ended ops (record { mgr = m; pager = p; locks = s.locks }) t
        (register-IsValid s.mgr iso true h v) known in
    (valid, refl, rw same at gone)

-- `tdb_txn_begin` before the ids run out: when it hands a transaction over, it returns TDB_OK, the
-- transaction has the next id, it is active, and its snapshot is the state of the manager; when it fails,
-- because memory or the pager refuses, no transaction of that id is active. The invariant holds.
pub txn_begin-Begun :
    (ops : PagerOps) (mem : Bool) (s : Env ops) (iso : Isolation) (writable : Bool)
    → s.mgr.next + 1 < 2 ^ 64
    → IsValid s.mgr
    → Begun ops s (txn_begin ops mem s iso writable)
unfolding txn_begin
txn_begin-Begun ops false s iso writable h v =
    (v, refl, rw (v.actives_exact s.mgr.next, next_unknown s.mgr v) refl)
txn_begin-Begun ops true s iso true h v = begin_writable-Begun ops s iso (ops.begin s.pager) h v
txn_begin-Begun ops true s iso false h v =
    let (same, known, snap) = register_active s.mgr iso false v in
    (register-IsValid s.mgr iso false h v, refl, same, known, snap)
