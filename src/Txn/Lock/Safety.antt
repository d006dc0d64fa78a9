-- ===== src/Txn/Lock/Safety.antt =====
-- The lock table under any sequence of operations of any transactions.
use transaction_db.Base.{
  ℕ, ◌≡◌, Bool, true, false, Option, none, some, List, Option-cases, Bool-cases, inl, inr, ◌⊎◌,
}
use mathlib.Core.Option
use transaction_db.Txn.Lock.{LockMode, Holder, release_holders}
use transaction_db.Txn.Lock.Holders.{
  IsCompatible, acquire_holders-IsCompatible, release_holders-IsCompatible,
}
use transaction_db.Txn.Lock.Table.{
  Key, LockMgr, same_key, find_in, res_hash, new, find_or_create, acquire, release_all,
}
use transaction_db.Txn.Lock.Refine.{
  holders_at, holders_or_none, acquire-holders_at, holders_at-release_all,
}

-- Every list of holders in the table is compatible.
abbrev pub IsSafe : LockMgr → Type 0
IsSafe m = (k : Key) → IsCompatible (holders_or_none (holders_at m k))

-- One operation, by any transaction, on any key; the allocator may refuse.
pub data Step (m : LockMgr) : LockMgr → Type 0 where
  acquires :
      (mem_res mem : Bool) (txn : ℕ) (k : Key) (mode : LockMode)
      → Step m (acquire mem_res mem m txn k mode).1
  releases : (txn : ℕ) → Step m (release_all m txn)

-- The tables that a new lock manager can reach.
pub data Reach : LockMgr → Type 0 where
  start : Reach new
  next : {m m' : LockMgr} → Reach m → Step m m' → Reach m'

new-IsSafe : IsSafe new
unfolding new holders_at find_in
new-IsSafe k = tt

-- A refused resource changes nothing; otherwise the refusal is not met.
acquire_refused :
    (mem : Bool) (m : LockMgr) (txn : ℕ) (k : Key) (mode : LockMode)
    → ((acquire false mem m txn k mode).1 ≡ m)
      ⊎ (acquire false mem m txn k mode ≡ acquire true mem m txn k mode)
unfolding acquire find_or_create
acquire_refused mem m txn k mode = elim (Option-cases (find_in k (m.buckets (res_hash k)))) [
  | inl absent ↦ inl (rw (absent, acquire))
  | inr (hs, present) ↦ inr (rw (present, acquire))
]

acquire-IsSafe :
    (mem : Bool) (m : LockMgr) (txn : ℕ) (k : Key) (mode : LockMode)
    → IsSafe m
    → IsSafe (acquire true mem m txn k mode).1
acquire-IsSafe mem m txn k mode safe j =
    let e = (acquire-holders_at mem m txn k j mode).1 in
    elim (Bool-cases (same_key k j)) [
      | inl same ↦
          rw (e, same)
            (acquire_holders-IsCompatible mem txn mode (holders_or_none (holders_at m k)) (safe k))
      | inr ne ↦ rw (e, ne) (safe j)
    ]

Step-IsSafe : {m m' : LockMgr} → Step m m' → IsSafe m → IsSafe m'
Step-IsSafe {m} (acquires true mem txn k mode) safe = acquire-IsSafe mem m txn k mode safe
Step-IsSafe {m} (acquires false mem txn k mode) safe = elim (acquire_refused mem m txn k mode) [
  | inl same ↦ rw same safe
  | inr met ↦ rw met (acquire-IsSafe mem m txn k mode safe)
]
Step-IsSafe {m} (releases txn) safe =
    λ j. rw (holders_at-release_all m txn j) (released (holders_at m j) (safe j))
  where
    released :
        (o : Option (List Holder))
        → IsCompatible (holders_or_none o)
        → IsCompatible (holders_or_none (Option.map (release_holders txn) o))
    released none v = tt
    released (some hs) v = release_holders-IsCompatible txn hs v

-- After any sequence of acquisitions and releases, granted or not, no resource has an exclusive holder
-- beside another holder, and no transaction holds a resource twice.
pub Reach-IsSafe : {m : LockMgr} → Reach m → IsSafe m
Reach-IsSafe start = new-IsSafe
Reach-IsSafe (next r st) = Step-IsSafe st (Reach-IsSafe r)
