-- ===== src/Txn/Lock/Holders.antt =====
-- The holders of one resource: their invariant, and the decision of `tdb_lock_acquire`.
use transaction_db.Base.{
  ℕ, ◌<◌, ◌≡◌, ◌≢◌, refl, ◌⊎◌, inl, inr, Bool, true, false, not, ◌&&◌, Option, none, some, List, [],
  ◌∷◌, arith, All, ltb, ◌==◌, if◌then◌else◌, Option-cases, Bool-cases,
}
use transaction_db.Txn.Lock.{
  LockMode, excl, Holder, Answer, granted, busy, abort, nomem, is_excl, mode_conflict, wait_die,
  find_self, first_other, first_conflict, upgrade_self, acquire_held, acquire_new, acquire_holders,
  release_holders,
}

-- Two holders of one resource: distinct transactions, and neither holds it exclusively.
abbrev pub Shares : Holder → Holder → Type 0
Shares h g = (g.txn ≢ h.txn) × (mode_conflict h.mode g.mode ≡ false)

abbrev pub IsCompatible : List Holder → Type 0
IsCompatible [] = Unit
IsCompatible (h ∷ hs) = All (Shares h) hs × IsCompatible hs

-- Some holder meets P.
abbrev pub Any : (Holder → Type 0) → List Holder → Type 0
Any P [] = ⊥
Any P (h ∷ hs) = P h ⊎ Any P hs

conflict_comm : (a b : LockMode) → mode_conflict a b ≡ mode_conflict b a
unfolding mode_conflict
conflict_comm a b = ground arith

not_held-All :
    (txn : ℕ) (mode : LockMode) (hs : List Holder)
    → find_self txn hs ≡ none
    → first_conflict mode hs ≡ none
    → All (Shares (record { txn = txn; mode = mode })) hs
unfolding find_self first_conflict
not_held-All txn mode [] e c = tt
not_held-All txn mode (h ∷ hs) e c = elim (Option-cases (find_self txn hs)) [
  | inl absent ↦ ground (arith, not_held-All txn mode hs absent)
  | inr (m, held) ↦ ground arith
]

-- A compatible holder that is alone with its transaction is alone.
upgrade-IsCompatible :
    (txn : ℕ) (hs : List Holder)
    → IsCompatible hs
    → first_other txn hs ≡ none
    → IsCompatible (upgrade_self txn hs)
unfolding first_other upgrade_self find_self
upgrade-IsCompatible txn [] v e = tt
upgrade-IsCompatible txn (h ∷ []) v e = ground arith
upgrade-IsCompatible txn (h ∷ g ∷ hs) v e = ground arith

-- The acquisition keeps the invariant, whatever it answers.
pub acquire_holders-IsCompatible :
    (mem : Bool) (txn : ℕ) (mode : LockMode) (hs : List Holder)
    → IsCompatible hs
    → IsCompatible (acquire_holders mem txn mode hs).1
unfolding acquire_holders acquire_held acquire_new
acquire_holders-IsCompatible mem txn mode hs v = elim (Option-cases (find_self txn hs)) [
  | inl absent ↦ elim (Option-cases (first_conflict mode hs)) [
    | inl free ↦ ground (arith, not_held-All txn mode hs absent free)
    | inr (h, conflict) ↦ ground arith
  ]
  | inr (m, held) ↦ elim (Option-cases (first_other txn hs)) [
    | inl alone ↦ ground (arith, upgrade-IsCompatible txn hs v alone)
    | inr (h, other) ↦ ground arith
  ]
]

All-release :
    (P : Holder → Type 0) (txn : ℕ) (hs : List Holder) → All P hs → All P (release_holders txn hs)
unfolding release_holders
All-release P txn [] a = tt
All-release P txn (h ∷ hs) (p, a) = elim (Bool-cases (h.txn == txn)) [
  | inl e ↦ rw e (All-release P txn hs a)
  | inr e ↦ rw e (p, All-release P txn hs a)
]

pub release_holders-IsCompatible :
    (txn : ℕ) (hs : List Holder) → IsCompatible hs → IsCompatible (release_holders txn hs)
unfolding release_holders
release_holders-IsCompatible txn [] v = tt
release_holders-IsCompatible txn (h ∷ hs) (a, v) = elim (Bool-cases (h.txn == txn)) [
  | inl e ↦ rw e (release_holders-IsCompatible txn hs v)
  | inr e ↦ rw e (All-release (Shares h) txn hs a, release_holders-IsCompatible txn hs v)
]

-- How the mode that is asked for is served by the mode that is held afterwards.
abbrev pub Serves : LockMode → Option LockMode → Type 0
Serves mode none = ⊥
Serves mode (some held) = (is_excl mode && not (is_excl held)) ≡ false

find-upgrade :
    (txn : ℕ) (hs : List Holder) {m : LockMode}
    → find_self txn hs ≡ some m
    → find_self txn (upgrade_self txn hs) ≡ some excl
unfolding find_self upgrade_self
find-upgrade txn [] e = cc
find-upgrade txn (h ∷ hs) e = elim (Option-cases (find_self txn hs)) [
  | inl absent ↦ ground arith
  | inr (m', held) ↦ ground (arith, find-upgrade txn hs held)
]

-- A holder that stands in the way of the request, on the given side of its age.
abbrev pub Blocks : ℕ → LockMode → (ℕ → ℕ → Type 0) → Holder → Type 0
Blocks txn mode Side h = Side txn h.txn × (mode_conflict mode h.mode ≡ true)

abbrev pub IsOlder : ℕ → ℕ → Type 0
IsOlder a b = a < b

abbrev pub IsYounger : ℕ → ℕ → Type 0
IsYounger a b = b < a

-- What an answer means for a request, and what it leaves of the holders.
abbrev pub Decided : ℕ → LockMode → List Holder → Answer × List Holder → Type 0
Decided txn mode hs (granted, hs') = Serves mode (find_self txn hs')
Decided txn mode hs (busy, hs') = Any (Blocks txn mode IsOlder) hs × (hs' ≡ hs)
Decided txn mode hs (abort, hs') = Any (Blocks txn mode IsYounger) hs × (hs' ≡ hs)
Decided txn mode hs (nomem, hs') = hs' ≡ hs

Any-map :
    (P Q : Holder → Type 0) (hs : List Holder) → ((h : Holder) → P h → Q h) → Any P hs → Any Q hs
Any-map P Q [] f a = a
Any-map P Q (h ∷ hs) f (inl p) = inl (f h p)
Any-map P Q (h ∷ hs) f (inr a) = inr (Any-map P Q hs f a)

-- The holder whose age decides is among the holders, and it is another transaction's.
first_conflict-Any :
    (mode : LockMode) (txn : ℕ) (hs : List Holder) {h : Holder}
    → first_conflict mode hs ≡ some h
    → find_self txn hs ≡ none
    → (h.txn ≢ txn) × (mode_conflict mode h.mode ≡ true) × Any (λ g. g ≡ h) hs
unfolding first_conflict find_self
first_conflict-Any mode txn [] e f = cc
first_conflict-Any mode txn (g ∷ hs) {h} e f = elim (Option-cases (find_self txn hs)) [
  | inl absent ↦ elim (Bool-cases (mode_conflict mode g.mode)) [
    | inl conflict ↦
        let same : g ≡ h = ground arith in
        (rw (← same) (ground arith), rw (← same) conflict, inl same)
    | inr free ↦
        let (other, conflict, among) =
          first_conflict-Any mode txn hs {h = h} (rw free at e) absent in
        (other, conflict, inr among)
  ]
  | inr (m, held) ↦ ground arith
]

first_other-Any :
    (txn : ℕ) (hs : List Holder) {h : Holder}
    → first_other txn hs ≡ some h
    → (h.txn ≢ txn) × Any (λ g. g ≡ h) hs
unfolding first_other
first_other-Any txn [] e = cc
first_other-Any txn (g ∷ hs) {h} e = elim (Bool-cases (g.txn == txn)) [
  | inl own ↦
      let (other, among) = first_other-Any txn hs {h = h} (rw own at e) in (other, inr among)
  | inr other ↦ let same : g ≡ h = ground arith in (rw (← same) (ground arith), inl same)
]

-- The age of one blocking holder makes the answer.
wait_die-Decided :
    (txn : ℕ) (mode : LockMode) (hs : List Holder) (h : Holder)
    → h.txn ≢ txn
    → mode_conflict mode h.mode ≡ true
    → Any (λ g. g ≡ h) hs
    → Decided txn mode hs (wait_die txn h, hs)
unfolding wait_die
wait_die-Decided txn mode hs h other conflict among = elim (Bool-cases (ltb txn h.txn)) [
  | inl older ↦ rw older (
    Any-map (λ g. g ≡ h) (Blocks txn mode IsOlder) hs (λ g e. rw e (ground arith, conflict)) among,
    refl,
  )
  | inr younger ↦ rw younger (
    Any-map (λ g. g ≡ h) (Blocks txn mode IsYounger) hs (λ g e. rw e (ground arith, conflict))
        among,
    refl,
  )
]

-- On every branch of `tdb_lock_acquire`: a granted lock is held afterwards, exclusively if it was asked
-- for so; TDB_BUSY changes nothing and names a conflicting holder that is younger than the requester;
-- TDB_ABORT changes nothing and names one that is older; TDB_NOMEM changes nothing.
pub acquire_holders-Decided :
    (mem : Bool) (txn : ℕ) (mode : LockMode) (hs : List Holder)
    → Decided txn mode hs (acquire_holders mem txn mode hs)
unfolding acquire_holders acquire_held acquire_new
acquire_holders-Decided mem txn mode hs = elim (Option-cases (find_self txn hs)) [
  | inl absent ↦ elim (Option-cases (first_conflict mode hs)) [
    | inl free ↦ rw (absent, acquire_holders) (rw (free, acquire_new) (new_entry mem absent))
    | inr (h, e) ↦
        let (other, conflict, among) = first_conflict-Any mode txn hs e absent in
        rw (absent, acquire_holders)
          (rw (e, acquire_new) (wait_die-Decided txn mode hs h other conflict among))
  ]
  | inr (m, held) ↦ elim (Bool-cases (is_excl mode && not (is_excl m))) [
    | inl upgrades ↦ elim (Option-cases (first_other txn hs)) [
      | inl alone ↦
          rw (held, acquire_holders)
            (rw (upgrades, acquire_held) (rw (alone, acquire_held) (upgraded held)))
      | inr (h, e) ↦
          let (other, among) = first_other-Any txn hs e in
          rw (held, acquire_holders)
            (rw (upgrades, acquire_held)
              (rw (e, acquire_held)
                (wait_die-Decided txn mode hs h other (unfold mode_conflict in ground arith)
                  among)))
    ]
    | inr serves ↦ rw (held, acquire_holders) (rw (serves, acquire_held) (rw held serves))
  ]
]
  where
    new_entry :
        (mem : Bool)
        → find_self txn hs ≡ none
        → Decided txn mode hs
            (if mem then (granted, record { txn = txn; mode = mode } ∷ hs) else (nomem, hs))
    new_entry true absent = unfold find_self in ground arith
    new_entry false absent = refl

    upgraded :
        {m : LockMode}
        → find_self txn hs ≡ some m
        → Serves mode (find_self txn (upgrade_self txn hs))
    upgraded held = rw (find-upgrade txn hs held) (unfold is_excl in ground arith)

find_self_absent :
    (txn : ℕ) (hs : List Holder) → All (λ h. (h.txn == txn) ≡ false) hs → find_self txn hs ≡ none
unfolding find_self
find_self_absent txn [] n = refl
find_self_absent txn (h ∷ hs) (n, ns) = ground (arith, find_self_absent txn hs ns)

-- The first holder in the way decides.
excl_waits :
    (mem : Bool) (txn : ℕ) (h : Holder) (rest : List Holder)
    → txn < h.txn
    → All (λ g. (g.txn == txn) ≡ false) rest
    → acquire_holders mem txn excl (h ∷ rest) ≡ (busy, h ∷ rest)
unfolding acquire_holders acquire_new find_self first_conflict mode_conflict wait_die
excl_waits mem txn h rest less others = ground (arith, find_self_absent txn rest others)

-- For transactions o < t < y: t asks exclusively for a resource that y is the first to be listed for,
-- and that t does not hold, and is told to wait, whoever else holds it, the older o for example;
-- and o asks exclusively for a resource that t is the first to be listed for, and that o does not
-- hold, and is told to wait, whoever else holds it. Neither list of holders changes.
pub wait_cycle :
    (mem : Bool) (o t y : ℕ) (mode mode' : LockMode) (first second : List Holder)
    → o < t
    → t < y
    → All (λ h. (h.txn == t) ≡ false) first
    → All (λ h. (h.txn == o) ≡ false) second
    → let at : List Holder = record { txn = y; mode = mode } ∷ first in
      let at' : List Holder = record { txn = t; mode = mode' } ∷ second in
      (acquire_holders mem t excl at ≡ (busy, at)) × (acquire_holders mem o excl at' ≡ (busy, at'))
wait_cycle mem o t y mode mode' first second h k hs ks = (
  excl_waits mem t record { txn = y; mode = mode } first k hs,
  excl_waits mem o record { txn = t; mode = mode' } second h ks,
)
