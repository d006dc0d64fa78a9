-- ===== src/Storage/Pager.antt =====
-- storage/tdb_pager.c: the page cache over the log and the file. The cached pages are a list in the
-- order of the hash chains, the newest first, since a page is put at the head of its chain; `lru` has
-- their numbers, the most recently used first. A page is named by its number, and what the code does
-- through a pointer to it is done to the page of that number. `mem` says whether the allocator grants
-- a page. The log and the file are a record of the operations that the code calls.
pub mod FreeList
pub mod Commit
use transaction_db.Base.{
  ℕ, ◌⊎◌, inl, inr, zero, suc, ◌+◌, ◌-◌, ◌*◌, ◌/◌, ◌%◌, ◌^◌, ◌≡◌, Bool, true, false, not, ◌&&◌,
  ◌||◌, Option, none, some, List, [], ◌∷◌, ◌++◌, length, take, drop, leb, ltb, ◌==◌, if◌then◌else◌,
}
use transaction_db.Status.{Failure, readonly, misuse, nomem}
use transaction_db.Util.BigEndian.{put_u32, get_u32}
use transaction_db.Storage.Header.{Header, zeros}

-- The calls of the log and the file. `read_image` is `read_page_image`.
pub record StoreOps : Type 1 where
  pub State : Type 0
  pub read_image : State → ℕ → Failure ⊎ List ℕ
  pub wal_append : State → ℕ → List ℕ → Bool → ℕ → Option Failure × State
  pub wal_sync : State → Option Failure × State
  pub frame_count : State → ℕ
  pub checkpoint_all : State → Option Failure × State

-- `tdb_page`
pub record Page : Type 0 where
  pub pgno : ℕ
  pub content : List ℕ
  pub dirty : Bool
  pub refs : ℕ

-- `pager_sp`
pub record Level : Type 0 where
  pub saved : Header
  pub imgs : List (ℕ × List ℕ)

-- `cache_lookup`
unfoldable pub cache_lookup : List Page → ℕ → Option Page
cache_lookup [] n = none
cache_lookup (pg ∷ pgs) n = if pg.pgno == n then some pg else cache_lookup pgs n

-- `cache_remove` without the count, which is the length of the list.
unfoldable pub unchain : List Page → ℕ → List Page
unchain [] n = []
unchain (pg ∷ pgs) n = let rest = unchain pgs n in if pg.pgno == n then pgs else pg ∷ rest

-- `lru_unlink`
unfoldable pub unlink : List ℕ → ℕ → List ℕ
unlink [] n = []
unlink (k ∷ ks) n = let rest = unlink ks n in if k == n then ks else k ∷ rest

-- An assignment to fields of a page.
unfoldable pub update : List Page → ℕ → (Page → Page) → List Page
update [] n f = []
update (pg ∷ pgs) n f = let rest = update pgs n f in if pg.pgno == n then f pg ∷ pgs else pg ∷ rest

unfoldable pub drop_ref : Page → Page
drop_ref pg = if ltb 0 pg.refs then record pg { refs = pg.refs - 1 } else pg

-- `memcpy(data + off, bytes, length bytes)` within the page.
unfoldable pub poke : ℕ → List ℕ → List ℕ → List ℕ
poke off bytes p = take off p ++ (bytes ++ drop (off + length bytes) p)

unfoldable pub lru_tail_first : List ℕ → List ℕ → List ℕ
lru_tail_first [] acc = acc
lru_tail_first (k ∷ ks) acc = lru_tail_first ks (k ∷ acc)

abbrev pub soft_max : ℕ
soft_max = 2048

abbrev pub bucket_count : ℕ
bucket_count = 1024

unfoldable pub evictable : Option Page → Bool
evictable none = false
evictable (some pg) = pg.refs == 0 && not pg.dirty

module _ (ops : StoreOps) where
  open ops use {State, read_image}

  -- `tdb_pager`
  pub record Pager : Type 0 where
    pub is_readonly : Bool
    pub in_txn : Bool
    pub page_size : ℕ
    pub hdr : Header
    pub hdr_dirty : Bool
    pub cache : List Page
    pub lru : List ℕ
    pub sps : List Level
    pub store : State

  unfoldable pub cache_remove : Pager → ℕ → Pager
  cache_remove p n = record p { cache = unchain p.cache n; lru = unlink p.lru n }

  -- The loop of `cache_trim`.
  unfoldable pub trim_loop : List ℕ → Pager → Pager
  trim_loop [] p = p
  trim_loop (n ∷ ns) p =
      if ltb soft_max (length p.cache)
      then trim_loop ns (if evictable (cache_lookup p.cache n) then cache_remove p n else p)
      else p

  unfoldable pub cache_trim : Pager → Pager
  cache_trim p = trim_loop (lru_tail_first p.lru []) p

  -- `page_new` once memory is granted, with what is written to the page before anything else reads it.
  unfoldable pub page_new : Pager → Page → Pager
  page_new p pg = record p { cache = pg ∷ p.cache; lru = pg.pgno ∷ p.lru }

  -- `tdb_pager_get` of a page that is not cached.
  unfoldable pub fetch : Pager → ℕ → Failure ⊎ List ℕ → Option Failure × Pager
  fetch p n (inr image) =
      (none, cache_trim (page_new p record { pgno = n; content = image; dirty = false; refs = 1 }))
  fetch p n (inl e) = (some e, p)

  unfoldable pub get_cached : Bool → Pager → ℕ → Option Page → Option Failure × Pager
  get_cached mem p n (some pg) = (
    none,
    record p {
      cache = update p.cache n (λ q. record q { refs = q.refs + 1 });
      lru = n ∷ unlink p.lru n;
    },
  )
  get_cached mem p n none = if not mem then (some nomem, p) else fetch p n (read_image p.store n)

  unfoldable pub get : Bool → Pager → ℕ → Option Failure × Pager
  get mem p n = if n == 0 then (some misuse, p) else get_cached mem p n (cache_lookup p.cache n)

  unfoldable pub unref : Pager → ℕ → Pager
  unref p n = record p { cache = update p.cache n drop_ref }

  unfoldable pub write : Pager → ℕ → Option Failure × Pager
  write p n =
      if p.is_readonly
      then (some readonly, p)
      else (none, record p { cache = update p.cache n (λ q. record q { dirty = true }) })

  -- The bytes that a pointer to the page gives.
  unfoldable pub data_of : Pager → ℕ → List ℕ
  data_of p n = elim (cache_lookup p.cache n) [ none ↦ [] | some pg ↦ pg.content ]

  -- A store to the bytes of a page.
  unfoldable pub set_data : Pager → ℕ → List ℕ → Pager
  set_data p n d = record p { cache = update p.cache n (λ q. record q { content = d }) }

  unfoldable pub set_hdr : Pager → Header → Pager
  set_hdr p h = record p { hdr = h; hdr_dirty = true }

  unfoldable pub set_max_txnid : Pager → ℕ → Pager
  set_max_txnid p v = set_hdr p record p.hdr { max_txnid = v }

  unfoldable pub set_schema_cookie : Pager → ℕ → Pager
  set_schema_cookie p v = set_hdr p record p.hdr { schema_cookie = v }

  unfoldable pub set_catalog_root : Pager → ℕ → Pager
  set_catalog_root p v = set_hdr p record p.hdr { catalog_root = v }

  unfoldable pub begin : Pager → Option Failure × Pager
  begin p = if p.is_readonly then (some readonly, p) else (none, record p { in_txn = true })
