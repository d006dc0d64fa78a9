-- ===== src/Txn/Lock/Table.antt =====
-- src/txn/tdb_lock.c: the hash table of resources, with its 256 buckets of chained resources.
use transaction_db.Base.{
  ℕ, zero, suc, ◌/◌, ◌%◌, Bool, ◌&&◌, Option, none, some, List, [], ◌∷◌, ◌++◌, map, length, ltb,
  ◌==◌, if◌then◌else◌,
}
use transaction_db.Util.Checksum.{fnv1a}
use transaction_db.Txn.Lock.{Holder, LockMode, Answer, nomem, acquire_holders, release_holders}

-- `tdb_restype`
pub data ResType : Type 0 where
  table row : ResType

-- The key of a `resource`.
pub record Key : Type 0 where
  pub type : ResType
  pub id : ℕ
  pub sub : ℕ

pub record Resource : Type 0 where
  pub key : Key
  pub holders : List Holder

-- The bucket heads, by their index.
pub record LockMgr : Type 0 where
  pub buckets : ℕ → List Resource

abbrev pub bucket_count : ℕ
bucket_count = 256

unfoldable pub type_code : ResType → ℕ
type_code table = 0
type_code row = 1

-- The bytes of a `uint64_t` in memory, on a little-endian machine.
pub u64_bytes : ℕ → ℕ → List ℕ
u64_bytes zero v = []
u64_bytes (suc k) v = v % 256 ∷ u64_bytes k (v / 256)

unfoldable pub res_hash : Key → ℕ
unfolding u64_bytes type_code
res_hash k =
    fnv1a (u64_bytes 8 (type_code k.type) ++ (u64_bytes 8 k.id ++ u64_bytes 8 k.sub)) % bucket_count

-- `r->type == type && r->id == id && r->sub == sub`
unfoldable pub same_key : Key → Key → Bool
unfolding type_code
same_key a b = type_code a.type == type_code b.type && (a.id == b.id && a.sub == b.sub)

-- The chain walk of `res_find`: the holders of the resource that it finds.
unfoldable pub find_in : Key → List Resource → Option (List Holder)
find_in k [] = none
find_in k (r ∷ rs) = if same_key r.key k then some r.holders else find_in k rs

-- Writing through the pointer that `res_find` returned.
unfoldable pub store_in : Key → List Holder → List Resource → List Resource
store_in k hs [] = []
store_in k hs (r ∷ rs) =
    let rest = store_in k hs rs in
    if same_key r.key k then record r { holders = hs } ∷ rs else r ∷ rest

unfoldable pub new : LockMgr
new = record { buckets = λ b. [] }

unfoldable pub set_bucket : LockMgr → ℕ → List Resource → LockMgr
set_bucket m b rs = record { buckets = λ c. if c == b then rs else m.buckets c }

-- `res_find` with `create` set: the bucket with the resource in it, and its holders; `none` where the
-- allocator refuses a new resource.
unfoldable pub find_or_create : Bool → Key → List Resource → Option (List Resource × List Holder)
find_or_create mem k rs = elim (find_in k rs) [
  | some hs ↦ some (rs, hs)
  | none ↦ if mem then some (record { key = k; holders = [] } ∷ rs, []) else none
]

-- `tdb_lock_acquire`. The first two arguments say whether the allocator grants a resource and a holder.
unfoldable pub acquire : Bool → Bool → LockMgr → ℕ → Key → LockMode → Answer × LockMgr
acquire mem_res mem_holder m txn k mode =
    let b = res_hash k in
    elim (find_or_create mem_res k (m.buckets b)) [
      | none ↦ (nomem, m)
      | some (rs, hs) ↦
          let (answer, hs') = acquire_holders mem_holder txn mode hs in
          (answer, set_bucket m b (store_in k hs' rs))
    ]

unfoldable pub release_resource : ℕ → Resource → Resource
release_resource txn r = record r { holders = release_holders txn r.holders }

-- `tdb_lock_release_all` goes through the 256 buckets.
unfoldable pub release_all : LockMgr → ℕ → LockMgr
release_all m txn = record {
  buckets =
      λ b. if ltb b bucket_count then map (release_resource txn) (m.buckets b) else m.buckets b;
}

unfoldable pub count_holders : Option (List Holder) → ℕ
count_holders none = 0
count_holders (some hs) = length hs

unfoldable pub holder_count : LockMgr → Key → ℕ
unfolding count_holders
holder_count m k = count_holders (find_in k (m.buckets (res_hash k)))
