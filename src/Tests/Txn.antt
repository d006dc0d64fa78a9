-- ===== src/Tests/Txn.antt =====
-- src/txn on concrete inputs.
use transaction_db.Base.{
  ℕ, ◌+◌, ◌≡◌, refl, true, some, none, List, [], ◌∷◌, arith, if◌then◌else◌, ◌==◌,
}
use transaction_db.Txn.Lock.{shared, excl, Holder, busy, acquire_holders}
use transaction_db.Txn.Lock.Holders.{Decided, acquire_holders-Decided, wait_cycle}
use transaction_db.Txn.Lock.Table.{Key, table, LockMgr, new, acquire, release_all, same_key}
use transaction_db.Txn.Lock.Refine.{
  IsWithoutAt, holders_at, holders_or_none, acquire-holders_at, release_all-holders_at,
}
use transaction_db.Txn.Lock.Safety.{IsSafe, start, next, acquires, releases, Reach-IsSafe}
use transaction_db.Txn.Mvcc.{committed, aborted, visible, xid_visible, contains, is_committed}
use transaction_db.Txn.Manager.{
  TxnMgr, Txn, serializable, open_mgr, txn_state, take_snapshot, register, finish, set_state,
}
use transaction_db.Txn.Manager.Registry.{IsValid, open_mgr-IsValid, register-IsValid}
use transaction_db.Txn.Manager.Stable.{Later, ends, xid_visible_exact, visible_stable}
use transaction_db.Txn.Session.{
  PagerOps, Env, is_ok, txn_begin, txn_commit, txn_release, txn_rollback_to,
}
use transaction_db.Txn.Session.Ending.{Ended, Begun, txn_commit-Ended, txn_begin-Begun}
use transaction_db.Txn.Session.Savepoints.{
  HasStack, Mirrors, WasReleased, WasReverted, txn_release-WasReleased, txn_rollback_to-WasReverted,
}

abbrev orders : Key
orders = record { type = table; id = 4; sub = 0 }

-- Transactions 9 and 3 share a table.
abbrev sharers : List Holder
sharers = record { txn = 9; mode = shared } ∷ record { txn = 3; mode = shared } ∷ []

acquire_holders-Decided_example : Decided 5 excl sharers (acquire_holders true 5 excl sharers)
acquire_holders-Decided_example = acquire_holders-Decided true 5 excl sharers

wait_cycle_example :
    let second : List Holder = record { txn = 5; mode = shared } ∷ [] in
    (acquire_holders true 5 excl sharers ≡ (busy, sharers))
    × (acquire_holders true 3 excl second ≡ (busy, second))
wait_cycle_example =
    wait_cycle true 3 5 9 shared shared (record { txn = 3; mode = shared } ∷ []) [] (omega arith)
      (omega arith) (refl, tt) tt

abbrev locked : LockMgr
locked = (acquire true true new 3 orders shared).1

acquire-holders_at_example :
    let (answer, hs) = acquire_holders true 5 excl (holders_or_none (holders_at locked orders)) in
    let (answer', m') = acquire true true locked 5 orders excl in
    (answer' ≡ answer)
    × (holders_at m' orders
        ≡ (if same_key orders orders then some hs else holders_at locked orders))
acquire-holders_at_example = acquire-holders_at true locked 5 orders orders excl

release_all-holders_at_example :
    IsWithoutAt 3 (holders_at locked orders) (holders_at (release_all locked 3) orders)
release_all-holders_at_example = release_all-holders_at locked 3 orders

Reach-IsSafe_example : IsSafe (release_all (acquire true true locked 5 orders excl).1 3)
Reach-IsSafe_example = Reach-IsSafe (
    next (next (next start (acquires true true 3 orders shared)) (acquires true true 5 orders excl))
      (releases 3))

-- Ids up to 10 are from earlier sessions; transaction 11 is active.
abbrev one_active : TxnMgr
one_active = (register (open_mgr 10) serializable true).0

one_active-IsValid : IsValid one_active
one_active-IsValid =
    register-IsValid (open_mgr 10) serializable true (unfold open_mgr in omega arith)
      (open_mgr-IsValid 10 (omega arith))

eleven_active : contains 11 one_active.actives ≡ true
unfolding register open_mgr contains set_state
eleven_active = refl

abbrev eleven_done : Later one_active (finish one_active 11 committed)
eleven_done = Later.next Later.here (ends 11 committed eleven_active refl)

xid_visible_exact_example :
    xid_visible (txn_state (finish one_active 11 committed)) (take_snapshot one_active 12) 11
    ≡ (if 11 == 12 then true else is_committed (txn_state one_active 11))
xid_visible_exact_example = xid_visible_exact 12 11 one_active-IsValid eleven_done

visible_stable_example :
    visible (txn_state (finish one_active 11 committed)) (take_snapshot one_active 12) 11 0
    ≡ visible (txn_state one_active) (take_snapshot one_active 12) 11 0
visible_stable_example = visible_stable 12 11 0 one_active-IsValid eleven_done

-- A pager that keeps only the depth of its savepoint stack.
abbrev depth_pager : PagerOps
depth_pager = record {
  State = ℕ;
  begin = λ p. (none, p);
  commit = λ p. (none, 0);
  rollback = λ p. (none, 0);
  savepoint = λ p. (some p, p + 1);
  savepoint_release = λ p l. (none, l);
  savepoint_rollback = λ p l. (none, l + 1);
  set_max_txnid = λ p id. p;
}

depth_pager-HasStack : HasStack depth_pager
depth_pager-HasStack = record {
  depth = λ p. p;
  pushes = λ p p' l e. ground arith;
  refuses = λ p p' e. ground arith;
  releases = λ p l h. (refl, refl);
  reverts = λ p l h. (refl, refl);
}

abbrev env : Env depth_pager
env = record { mgr = one_active; pager = 2; locks = some locked }

abbrev eleven : Txn
eleven = record (register (open_mgr 10) serializable true).1 {
  savepoints = record { name = b'a' ∷ []; level = 0 } ∷ record { name = b'b' ∷ []; level = 1 } ∷ [];
}

txn_commit-Ended_example :
    let (rc, s') = txn_commit depth_pager env eleven in
    Ended depth_pager env eleven.id (if is_ok rc then committed else aborted) s'
unfolding register open_mgr
txn_commit-Ended_example = txn_commit-Ended depth_pager env eleven one_active-IsValid eleven_active

txn_begin-Begun_example : Begun depth_pager env (txn_begin depth_pager true env serializable true)
txn_begin-Begun_example =
    txn_begin-Begun depth_pager true env serializable true
      (unfold register open_mgr set_state in omega arith) one_active-IsValid

-- The names and levels of `eleven` against the depth of the pager's stack.
in_step : Mirrors depth_pager depth_pager-HasStack env eleven
unfolding depth_pager-HasStack register open_mgr
in_step = ((refl, (refl, tt)), refl)

txn_release-WasReleased_example :
    WasReleased depth_pager depth_pager-HasStack env eleven
      (b'B' ∷ [])
      (txn_release depth_pager env eleven (b'B' ∷ []))
txn_release-WasReleased_example =
    txn_release-WasReleased depth_pager depth_pager-HasStack env eleven (b'B' ∷ []) in_step

txn_rollback_to-WasReverted_example :
    WasReverted depth_pager depth_pager-HasStack env eleven
      (b'A' ∷ [])
      (txn_rollback_to depth_pager env eleven (b'A' ∷ []))
txn_rollback_to-WasReverted_example =
    txn_rollback_to-WasReverted depth_pager depth_pager-HasStack env eleven (b'A' ∷ []) in_step
