-- ===== src/Txn/Manager/Registry.antt =====
-- The registry of transactions: the state of an id after each change, and the invariant.
use transaction_db.Base.{
  ℕ, suc, ◌+◌, ◌%◌, ◌^◌, ◌<◌, ◌≡◌, refl, Bool, true, false, min, List, [], ◌∷◌, ◌++◌, arith, ◌==◌,
  if◌then◌else◌, Bool-cases, inl, inr,
}
use transaction_db.Txn.Mvcc.{XState, active, committed, aborted, contains}
use transaction_db.Txn.Manager.{
  Xrec, TxnMgr, Isolation, open_mgr, set_rec, set_state, find_rec, last_of, others_of, last_first,
  active_remove, register, finish,
}

abbrev pub is_active : XState → Bool
is_active active = true
is_active committed = false
is_active aborted = false

pub find-set_rec :
    (id : ℕ) (st : XState) (rs : List Xrec) (xid : ℕ)
    → find_rec xid (set_rec id st rs) ≡ (if id == xid then st else find_rec xid rs)
unfolding find_rec set_rec
find-set_rec id st [] xid = refl
find-set_rec id st (r ∷ rs) xid = ground (arith, find-set_rec id st rs xid)

contains-last_first :
    (a x : ℕ) (xs : List ℕ) → contains a (last_first (x ∷ xs)) ≡ contains a (x ∷ xs)
unfolding contains last_first last_of others_of
contains-last_first a x [] = refl
contains-last_first a x (y ∷ ys) = ground (arith, contains-last_first a y ys)

contains-last_first' : (a : ℕ) (xs : List ℕ) → contains a (last_first xs) ≡ contains a xs
unfolding last_first
contains-last_first' a [] = refl
contains-last_first' a (x ∷ xs) = contains-last_first a x xs

-- No id stands twice.
abbrev pub IsDistinct : List ℕ → Type 0
IsDistinct [] = Unit
IsDistinct (x ∷ xs) = (contains x xs ≡ false) × IsDistinct xs

pub contains-active_remove :
    (a id : ℕ) (xs : List ℕ)
    → IsDistinct xs
    → contains a (active_remove id xs) ≡ (if a == id then false else contains a xs)
unfolding contains active_remove
contains-active_remove a id [] d = ground arith
contains-active_remove a id (x ∷ xs) (new, d) =
    ground (arith, contains-active_remove a id xs d, contains-last_first' a xs)

contains-last : (y : ℕ) (ys : List ℕ) → contains (last_of y ys) (y ∷ ys) ≡ true
unfolding contains last_of
contains-last y [] = ground arith
contains-last y (z ∷ zs) = ground (arith, contains-last z zs)

contains-others :
    (x y : ℕ) (ys : List ℕ) → contains x (y ∷ ys) ≡ false → contains x (others_of y ys) ≡ false
unfolding contains others_of
contains-others x y [] e = refl
contains-others x y (z ∷ zs) e = ground (arith, contains-others x z zs)

apart : (a b : ℕ) (xs : List ℕ) → contains a xs ≡ false → contains b xs ≡ true → (a == b) ≡ false
apart a b xs e e' = elim (Bool-cases (a == b)) [
  | inl same ↦ let p : a ≡ b = ground arith in cc p
  | inr ne ↦ ne
]

contains_cons :
    (a x : ℕ) (xs : List ℕ) → contains a (x ∷ xs) ≡ (if x == a then true else contains a xs)
unfolding contains
contains_cons a x xs = refl

last_first-IsDistinct :
    (x : ℕ) (xs : List ℕ) → IsDistinct (x ∷ xs) → IsDistinct (last_first (x ∷ xs))
unfolding last_first last_of others_of
last_first-IsDistinct x [] d = d
last_first-IsDistinct x (y ∷ ys) (new, d) =
    let (fresh, rest) = last_first-IsDistinct y ys d in
    (
      rw
          (
            contains_cons (last_of y ys) x (others_of y ys),
            apart x (last_of y ys) (y ∷ ys) new (contains-last y ys),
          )
          fresh,
      (contains-others x y ys new, rest),
    )

last_first-IsDistinct' : (xs : List ℕ) → IsDistinct xs → IsDistinct (last_first xs)
unfolding last_first
last_first-IsDistinct' [] d = d
last_first-IsDistinct' (x ∷ xs) d = last_first-IsDistinct x xs d

active_remove-IsDistinct : (id : ℕ) (xs : List ℕ) → IsDistinct xs → IsDistinct (active_remove id xs)
unfolding active_remove
active_remove-IsDistinct id [] d = d
active_remove-IsDistinct id (x ∷ xs) (new, d) = elim (Bool-cases (x == id)) [
  | inl e ↦ rw e (last_first-IsDistinct' xs d)
  | inr e ↦
      rw e (ground (arith, contains-active_remove x id xs d, new), active_remove-IsDistinct id xs d)
]

-- What holds of the manager between two operations: the registry knows no id from `next` on and none up
-- to `base`, an id is active exactly if it
-- stands among the active ones, and none stands there twice.
pub record IsValid (m : TxnMgr) : Type 0 where
  pub next_after_base : m.base < m.next
  pub unknown_above : (n : ℕ) → find_rec (m.next + n) m.recs ≡ aborted
  pub unknown_below : (n : ℕ) → find_rec (min n m.base) m.recs ≡ aborted
  pub actives_exact : (xid : ℕ) → contains xid m.actives ≡ is_active (find_rec xid m.recs)
  pub distinct : IsDistinct m.actives

pub open_mgr-IsValid : (max_txnid : ℕ) → max_txnid + 1 < 2 ^ 64 → IsValid (open_mgr max_txnid)
unfolding open_mgr find_rec contains
open_mgr-IsValid t h = record {
  next_after_base = omega arith;
  unknown_above = λ n. refl;
  unknown_below = λ n. refl;
  actives_exact = λ xid. refl;
  distinct = tt;
}

pub contains-append :
    (a x : ℕ) (xs : List ℕ) → contains a (xs ++ (x ∷ [])) ≡ (if x == a then true else contains a xs)
unfolding contains
contains-append a x [] = refl
contains-append a x (y ∷ ys) = ground (arith, contains-append a x ys)

append-IsDistinct :
    (x : ℕ) (xs : List ℕ) → contains x xs ≡ false → IsDistinct xs → IsDistinct (xs ++ (x ∷ []))
append-IsDistinct x [] new d = unfold contains in (refl, tt)
append-IsDistinct x (y ∷ ys) new (fresh, d) =
    let old : contains x ys ≡ false = unfold contains in ground arith in
    (rw (contains-append y x ys) (unfold contains in ground arith), append-IsDistinct x ys old d)

-- The next id is not known yet.
pub next_unknown : (m : TxnMgr) → IsValid m → find_rec m.next m.recs ≡ aborted
next_unknown m v = let e : m.next + 0 ≡ m.next = omega arith in rw e at (v.unknown_above 0)

-- Registering a transaction keeps the invariant.
pub register-IsValid :
    (m : TxnMgr) (iso : Isolation) (writable : Bool)
    → m.next + 1 < 2 ^ 64
    → IsValid m
    → IsValid (register m iso writable).0
unfolding register set_state
register-IsValid m iso writable h v =
    let wraps : (m.next + 1) % 2 ^ 64 ≡ m.next + 1 = omega arith in
    record {
      next_after_base = omega (arith, v.next_after_base);
      unknown_above = λ n.
          let e : m.next + 1 + n ≡ m.next + suc n = omega arith in
          rw (wraps, e, find-set_rec m.next active m.recs (m.next + suc n))
            (ground (arith, v.unknown_above (suc n)));
      unknown_below = λ n. ground (
        arith,
        find-set_rec m.next active m.recs (min n m.base),
        v.unknown_below n,
        v.next_after_base,
      );
      actives_exact = λ xid. ground (
        arith,
        find-set_rec m.next active m.recs xid,
        contains-append xid m.next m.actives,
        v.actives_exact xid,
      );
      distinct =
          append-IsDistinct m.next m.actives (rw (v.actives_exact m.next, next_unknown m v) refl)
            v.distinct;
    }

-- Ending an active transaction, as committed or as aborted, keeps the invariant.
pub finish-IsValid :
    (m : TxnMgr) (id : ℕ) (st : XState)
    → contains id m.actives ≡ true
    → is_active st ≡ false
    → IsValid m
    → IsValid (finish m id st)
unfolding finish set_state
finish-IsValid m id st known ended v =
    let was : is_active (find_rec id m.recs) ≡ true = rw (v.actives_exact id) at known in
    record {
      next_after_base = v.next_after_base;
      unknown_above =
          λ n. ground (arith, find-set_rec id st m.recs (m.next + n), v.unknown_above n, was);
      unknown_below =
          λ n. ground (arith, find-set_rec id st m.recs (min n m.base), v.unknown_below n, was);
      actives_exact = λ xid. ground (
        arith,
        find-set_rec id st m.recs xid,
        contains-active_remove xid id m.actives v.distinct,
        v.actives_exact xid,
      );
      distinct = active_remove-IsDistinct id m.actives v.distinct;
    }
