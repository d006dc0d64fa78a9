-- ===== src/Txn/Lock/Refine.antt =====
-- The hash table of locks implements a map from keys to lists of holders.
use transaction_db.Base.{
  ℕ, ◌<◌, ◌≡◌, ◌≢◌, refl, sym, ◌∙◌, ◌↔◌, Bool, true, false, Option, none, some, List, [], ◌∷◌, map,
  arith, lt→ltb, ◌==◌, if◌then◌else◌, Option-cases, Bool-cases, inl, inr,
}
use mathlib.Core.Option
use transaction_db.Txn.Lock.{LockMode, Holder, acquire_holders, release_holders}
use transaction_db.Txn.Lock.Table.{
  ResType, table, row, Key, Resource, LockMgr, bucket_count, type_code, res_hash, same_key, find_in,
  store_in, set_bucket, find_or_create, acquire, release_resource, release_all,
}

-- What the table says of a key.
unfoldable pub holders_at : LockMgr → Key → Option (List Holder)
holders_at m k = find_in k (m.buckets (res_hash k))

-- The holders that an acquisition looks at: none where the resource is new.
abbrev pub holders_or_none : Option (List Holder) → List Holder
holders_or_none none = []
holders_or_none (some hs) = hs

pub type_code-injective : (a b : ResType) → type_code a ≡ type_code b → a ≡ b
unfolding type_code
type_code-injective table table e = refl
type_code-injective table row e = absurd (omega arith)
type_code-injective row table e = absurd (omega arith)
type_code-injective row row e = refl

pub same_key_iff : (a b : Key) → (same_key a b ≡ true) ↔ (a ≡ b)
unfolding same_key
same_key_iff a b = (forth, λ e. rw e (ground arith))
  where
    forth : same_key a b ≡ true → a ≡ b
    forth e = ground (arith, type_code-injective a.type b.type)

same_key_refl : (k : Key) → same_key k k ≡ true
same_key_refl k = (same_key_iff k k).1 refl

res_hash-lt : (k : Key) → res_hash k < bucket_count
unfolding res_hash
res_hash-lt k = omega arith

find_in-store_in_self :
    (k : Key) (hs : List Holder) (rs : List Resource) (old : List Holder)
    → find_in k rs ≡ some old
    → find_in k (store_in k hs rs) ≡ some hs
unfolding find_in store_in
find_in-store_in_self k hs [] old e = cc
find_in-store_in_self k hs (r ∷ rs) old e = ground (arith, find_in-store_in_self k hs rs old)

different_keys : (r k j : Key) → k ≢ j → same_key r k ≡ true → same_key r j ≡ false
different_keys r k j ne e = elim (Bool-cases (same_key r j)) [
  | inl e' ↦ absurd (ne (sym ((same_key_iff r k).0 e) ∙ (same_key_iff r j).0 e'))
  | inr e' ↦ e'
]

find_in-store_in_ne :
    (k j : Key) (hs : List Holder) (rs : List Resource)
    → k ≢ j
    → find_in j (store_in k hs rs) ≡ find_in j rs
unfolding find_in store_in
find_in-store_in_ne k j hs [] ne = refl
find_in-store_in_ne k j hs (r ∷ rs) ne =
    ground (arith, find_in-store_in_ne k j hs rs ne, different_keys r.key k j ne)

-- The bucket after `res_find` with `create` set, for a resource that the allocator grants.
find_or_create_lem :
    (k : Key) (rs : List Resource)
    → (rs' : List Resource) × (find_or_create true k rs
        ≡ some (rs', holders_or_none (find_in k rs)))
      × (find_in k rs' ≡ some (holders_or_none (find_in k rs)))
      × ((j : Key) → same_key k j ≡ false → find_in j rs' ≡ find_in j rs)
unfolding find_or_create
find_or_create_lem k rs = elim (Option-cases (find_in k rs)) [
  | inl absent ↦ (
    record { key = k; holders = [] } ∷ rs,
    rw (absent, find_or_create),
    rw absent (unfold find_in in rw (same_key_refl k)),
    λ j ne. unfold find_in in rw ne,
  )
  | inr (hs, present) ↦ (rs, rw (present, find_or_create), rw present, λ j ne. refl)
]

set_bucket_self : (m : LockMgr) (b : ℕ) (rs : List Resource) → (set_bucket m b rs).buckets b ≡ rs
unfolding set_bucket
set_bucket_self m b rs = ground arith

set_bucket_other :
    (m : LockMgr) (b c : ℕ) (rs : List Resource)
    → (set_bucket m b rs).buckets c ≡ (if c == b then rs else m.buckets c)
unfolding set_bucket
set_bucket_other m b c rs = refl

find_in_bucket :
    (m : LockMgr) (b c : ℕ) (rs : List Resource) (j : Key)
    → (c ≡ b → find_in j rs ≡ find_in j (m.buckets c))
    → find_in j ((set_bucket m b rs).buckets c) ≡ find_in j (m.buckets c)
find_in_bucket m b c rs j same = elim (Bool-cases (c == b)) [
  | inl e ↦ rw (set_bucket_other m b c rs, e) (same (ground arith))
  | inr e ↦ rw (set_bucket_other m b c rs, e)
]

-- Where the allocator grants a new resource, `tdb_lock_acquire` on the hash table is
-- `acquire_holders` on the list that the table has for the key: it gives that answer, stores that
-- list at the key, and leaves every other key alone.
pub acquire-holders_at :
    (mem : Bool) (m : LockMgr) (txn : ℕ) (k j : Key) (mode : LockMode)
    → let (answer, hs) = acquire_holders mem txn mode (holders_or_none (holders_at m k)) in
      let (answer', m') = acquire true mem m txn k mode in
      (answer' ≡ answer) × (holders_at m' j ≡ (if same_key k j then some hs else holders_at m j))
unfolding acquire holders_at
acquire-holders_at mem m txn k j mode =
    let b : ℕ = res_hash k in
    let hs : List Holder = holders_or_none (find_in k (m.buckets b)) in
    let (rs, found, present, others) = find_or_create_lem k (m.buckets b) in
    let hs' : List Holder = (acquire_holders mem txn mode hs).1 in
    rw (found, acquire)
      (
        refl,
        elim (Bool-cases (same_key k j)) [
          | inl same ↦
              let e : k ≡ j = (same_key_iff k j).0 same in
              rw (same, ← e)
                (rw (set_bucket_self m b (store_in k hs' rs))
                  (find_in-store_in_self k hs' rs hs present))
          | inr ne ↦
              let apart : k ≢ j = λ e. cc ((same_key_iff k j).1 e) in
              rw ne (
                find_in_bucket m b (res_hash j) (store_in k hs' rs) j
                  (λ e. rw e (find_in-store_in_ne k j hs' rs apart ∙ others j ne)))
        ],
      )

-- The second list is the first one without the holders of the transaction, in the same order.
pub data IsWithout (txn : ℕ) : List Holder → List Holder → Type 0 where
  ended : IsWithout txn [] []
  dropped :
      {h : Holder} {hs hs' : List Holder}
      → h.txn ≡ txn
      → IsWithout txn hs hs'
      → IsWithout txn (h ∷ hs) hs'
  kept :
      {h : Holder} {hs hs' : List Holder}
      → h.txn ≢ txn
      → IsWithout txn hs hs'
      → IsWithout txn (h ∷ hs) (h ∷ hs')

-- The same of what two tables say of a key: both have it, or neither.
pub data IsWithoutAt (txn : ℕ) : Option (List Holder) → Option (List Holder) → Type 0 where
  absent : IsWithoutAt txn none none
  present : {hs hs' : List Holder} → IsWithout txn hs hs' → IsWithoutAt txn (some hs) (some hs')

release_holders-IsWithout : (txn : ℕ) (hs : List Holder) → IsWithout txn hs (release_holders txn hs)
unfolding release_holders
release_holders-IsWithout txn [] = IsWithout.ended
release_holders-IsWithout txn (h ∷ hs) = elim (Bool-cases (h.txn == txn)) [
  | inl same ↦ rw same (IsWithout.dropped (ground arith) (release_holders-IsWithout txn hs))
  | inr other ↦ rw other (IsWithout.kept (λ e. ground arith) (release_holders-IsWithout txn hs))
]

release_in :
    (txn : ℕ) (j : Key) (rs : List Resource)
    → IsWithoutAt txn (find_in j rs) (find_in j (map (release_resource txn) rs))
unfolding find_in release_resource
release_in txn j [] = IsWithoutAt.absent
release_in txn j (r ∷ rs) = elim (Bool-cases (same_key r.key j)) [
  | inl same ↦ rw same (IsWithoutAt.present (release_holders-IsWithout txn r.holders))
  | inr other ↦ rw other (release_in txn j rs)
]

-- What the table says of a key after `tdb_lock_release_all` is what it said before, without the
-- holders of the transaction: every other holder keeps its mode and its place, a key that has an
-- entry keeps one, and no entry is made.
pub release_all-holders_at :
    (m : LockMgr) (txn : ℕ) (j : Key)
    → IsWithoutAt txn (holders_at m j) (holders_at (release_all m txn) j)
unfolding release_all holders_at
release_all-holders_at m txn j =
    rw (lt→ltb (res_hash j) bucket_count (res_hash-lt j))
      (release_in txn j (m.buckets (res_hash j)))

found_in :
    (txn : ℕ) (j : Key) (rs : List Resource)
    → find_in j (map (release_resource txn) rs) ≡ Option.map (release_holders txn) (find_in j rs)
unfolding find_in release_resource
found_in txn j [] = refl
found_in txn j (r ∷ rs) = elim (Bool-cases (same_key r.key j)) [
  | inl same ↦ rw same
  | inr other ↦ rw other (found_in txn j rs)
]

-- The entry that a key has after a release is the one before, run through `release_holders`.
pub holders_at-release_all :
    (m : LockMgr) (txn : ℕ) (j : Key)
    → holders_at (release_all m txn) j ≡ Option.map (release_holders txn) (holders_at m j)
unfolding release_all holders_at
holders_at-release_all m txn j =
    rw (lt→ltb (res_hash j) bucket_count (res_hash-lt j)) (found_in txn j (m.buckets (res_hash j)))
