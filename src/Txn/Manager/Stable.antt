-- ===== src/Txn/Manager/Stable.antt =====
-- Snapshot isolation: what a snapshot sees does not change while other transactions begin and end.
use transaction_db.Base.{
  ℕ, ◌+◌, ◌-◌, ◌^◌, ◌≤◌, ◌<◌, ◌≡◌, refl, ◌∙◌, Bool, true, false, min, arith, leb, ◌==◌,
  if◌then◌else◌, Bool-cases, inl, inr,
}
use transaction_db.Txn.Mvcc.{
  XState, active, is_committed, contains, snapshot_in_active, xid_visible, visible,
}
use transaction_db.Txn.Manager.{
  TxnMgr, Isolation, set_state, txn_state, take_snapshot, register, finish,
}
use transaction_db.Txn.Manager.Registry.{
  IsValid, is_active, find-set_rec, register-IsValid, finish-IsValid, contains-append,
  contains-active_remove,
}

-- A change of the registry by any transaction: one begins, or an active one ends.
pub data Step (m : TxnMgr) : TxnMgr → Type 0 where
  begins :
      (iso : Isolation) (writable : Bool) → m.next + 1 < 2 ^ 64 → Step m (register m iso writable).0
  ends :
      (id : ℕ) (st : XState)
      → contains id m.actives ≡ true
      → is_active st ≡ false
      → Step m (finish m id st)

pub data Later (m : TxnMgr) : TxnMgr → Type 0 where
  here : Later m m
  next : {m' m'' : TxnMgr} → Later m m' → Step m' m'' → Later m m''

pub Step-IsValid : {m m' : TxnMgr} → Step m m' → IsValid m → IsValid m'
Step-IsValid {m} (begins iso w h) v = register-IsValid m iso w h v
Step-IsValid {m} (ends id st known ended) v = finish-IsValid m id st known ended v

-- An id that was given out and is not active: its fate is settled.
abbrev IsSettled : TxnMgr → ℕ → Type 0
IsSettled m xid = (xid < m.next) × (contains xid m.actives ≡ false)

-- One step leaves a settled id settled, in the same state.
Step-IsSettled :
    {m m' : TxnMgr} (xid : ℕ)
    → Step m m'
    → IsValid m
    → IsSettled m xid
    → IsSettled m' xid × (txn_state m' xid ≡ txn_state m xid)
unfolding register finish set_state txn_state
Step-IsSettled {m} xid (begins iso w h) v (known, quiet) = (
  (omega arith, ground (arith, contains-append xid m.next m.actives)),
  ground (arith, find-set_rec m.next active m.recs xid),
)
Step-IsSettled {m} xid (ends id st was ended) v (known, quiet) = (
  (known, ground (arith, contains-active_remove xid id m.actives v.distinct)),
  ground (arith, find-set_rec id st m.recs xid),
)

Later-IsSettled :
    {m m' : TxnMgr} (xid : ℕ)
    → Later m m'
    → IsValid m
    → IsSettled m xid
    → IsValid m' × IsSettled m' xid × (txn_state m' xid ≡ txn_state m xid)
Later-IsSettled xid here v s = (v, s, refl)
Later-IsSettled xid (next l st) v s =
    let (v', s', e) = Later-IsSettled xid l v s in
    let (s'', e') = Step-IsSettled xid st v' s' in (Step-IsValid st v', s'', e' ∙ e)

-- An id that is active or not given out yet has not committed.
uncommitted_active :
    (m : TxnMgr) (xid : ℕ)
    → IsValid m
    → contains xid m.actives ≡ true
    → is_committed (txn_state m xid) ≡ false
unfolding txn_state is_committed
uncommitted_active m xid v known = elim (Bool-cases (leb xid m.base)) [
  | inl old ↦
      let e : min xid m.base ≡ xid = ground arith in
      absurd (ground (arith, v.actives_exact xid, rw e at (v.unknown_below xid)))
  | inr new ↦ ground (arith, v.actives_exact xid)
]

uncommitted_above :
    (m : TxnMgr) (xid : ℕ) → IsValid m → m.next ≤ xid → is_committed (txn_state m xid) ≡ false
unfolding txn_state is_committed
uncommitted_above m xid v h =
    let e : m.next + (xid - m.next) ≡ xid = omega arith in
    ground (arith, v.next_after_base, rw e at (v.unknown_above (xid - m.next)))

-- For a well-formed manager, and whatever begins and ends after the snapshot was taken: the snapshot of
-- a transaction sees the changes of that transaction and of exactly those that had committed when it was taken.
pub xid_visible_exact :
    {m m' : TxnMgr} (id xid : ℕ)
    → IsValid m
    → Later m m'
    → xid_visible (txn_state m') (take_snapshot m id) xid
      ≡ (if xid == id then true else is_committed (txn_state m xid))
unfolding xid_visible take_snapshot snapshot_in_active
xid_visible_exact {m} {m'} id xid v later = elim (Bool-cases (leb m.next xid)) [
  | inl above ↦ ground (arith, uncommitted_above m xid v)
  | inr below ↦ elim (Bool-cases (contains xid m.actives)) [
    | inl flying ↦ ground (arith, uncommitted_active m xid v flying)
    | inr quiet ↦
        let (v', s', e) = Later-IsSettled xid later v (ground arith, quiet) in rw e (ground arith)
  ]
]

-- Repeatable reads, for a well-formed manager: which row versions a snapshot sees is not changed by
-- anything that begins and ends after the snapshot was taken.
pub visible_stable :
    {m m' : TxnMgr} (id xmin xmax : ℕ)
    → IsValid m
    → Later m m'
    → visible (txn_state m') (take_snapshot m id) xmin xmax
      ≡ visible (txn_state m) (take_snapshot m id) xmin xmax
unfolding visible
visible_stable {m} {m'} id xmin xmax v later = rw (
  xid_visible_exact id xmin v later,
  xid_visible_exact id xmax v later,
  xid_visible_exact {m = m} {m' = m} id xmin v here,
  xid_visible_exact {m = m} {m' = m} id xmax v here,
)
