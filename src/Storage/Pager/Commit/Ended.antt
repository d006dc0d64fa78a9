-- ===== src/Storage/Pager/Commit/Ended.antt =====
-- What the end of a transaction leaves of the dirty pages.
use transaction_db.Base.{
  ℕ, zero, suc, ◌+◌, ◌%◌, ◌≡◌, refl, ◌∙◌, Bool, false, ◌&&◌, ◌||◌, Option, none, some, List, [],
  ◌∷◌, ◌++◌, arith, ltb, leb, ◌==◌, if◌then◌else◌, Bool-cases, inl, inr,
}
use transaction_db.Storage.Pager.{
  StoreOps, Pager, Page, cache_lookup, unchain, cache_remove, bucket_count,
}
use transaction_db.Storage.Pager.Commit.{dirty_in, dirty_from, dirty_pages, evict_all, rollback}

-- No two cached pages have the same number.
abbrev pub IsDistinct : List Page → Type 0
IsDistinct [] = Unit
IsDistinct (pg ∷ pgs) = (cache_lookup pgs pg.pgno ≡ none) × IsDistinct pgs

abbrev pub is_dirty : Option Page → Bool
is_dirty none = false
is_dirty (some pg) = pg.dirty

-- A page that is not dirty.
abbrev pub if_clean : Option Page → Option Page
if_clean none = none
if_clean (some pg) = if pg.dirty then none else some pg

abbrev pub has_page : List Page → ℕ → Bool
has_page [] n = false
has_page (pg ∷ pgs) n = pg.pgno == n || has_page pgs n

has_page-append :
    (ps qs : List Page) (n : ℕ) → has_page (ps ++ qs) n ≡ (has_page ps n || has_page qs n)
has_page-append [] qs n = refl
has_page-append (pg ∷ ps) qs n = ground (arith, has_page-append ps qs n)

has_page-dirty_in :
    (b : ℕ) (pgs : List Page) (n : ℕ)
    → IsDistinct pgs
    → has_page (dirty_in b pgs) n ≡ (n % bucket_count == b && is_dirty (cache_lookup pgs n))
unfolding dirty_in cache_lookup
has_page-dirty_in b [] n h = ground arith
has_page-dirty_in b (pg ∷ pgs) n (fresh, h) = elim (Bool-cases (pg.pgno == n)) [
  | inl same ↦
      let e : pg.pgno ≡ n = ground arith in
      let gone : cache_lookup pgs n ≡ none = rw e at fresh in
      ground (arith, e, gone, has_page-dirty_in b pgs n h)
  | inr other ↦ ground (arith, other, has_page-dirty_in b pgs n h)
]

has_page-dirty_from :
    (b k : ℕ) (pgs : List Page) (n : ℕ)
    → IsDistinct pgs
    → has_page (dirty_from b k pgs) n ≡ (
        leb b (n % bucket_count) && ltb (n % bucket_count) (b + k) && is_dirty (cache_lookup pgs n))
unfolding dirty_from
has_page-dirty_from b zero pgs n h = ground arith
has_page-dirty_from b (suc k) pgs n h =
    rw (has_page-append (dirty_in b pgs) (dirty_from (b + 1) k pgs) n)
      (ground (arith, has_page-dirty_in b pgs n h, has_page-dirty_from (b + 1) k pgs n h))

lookup-unchain :
    (pgs : List Page) (k n : ℕ)
    → IsDistinct pgs
    → cache_lookup (unchain pgs k) n ≡ (if k == n then none else cache_lookup pgs n)
unfolding cache_lookup unchain
lookup-unchain [] k n h = ground arith
lookup-unchain (pg ∷ pgs) k n (fresh, h) = ground (arith, fresh, lookup-unchain pgs k n h)

unchain-IsDistinct : (pgs : List Page) (k : ℕ) → IsDistinct pgs → IsDistinct (unchain pgs k)
unfolding unchain
unchain-IsDistinct [] k h = h
unchain-IsDistinct (pg ∷ pgs) k (fresh, h) = elim (Bool-cases (pg.pgno == k)) [
  | inl same ↦ rw same h
  | inr other ↦
      rw other
        (rw (lookup-unchain pgs k pg.pgno h) (ground (arith, fresh)), unchain-IsDistinct pgs k h)
]

module _ (ops : StoreOps) where
  lookup-evict_all :
      (ds : List Page) (p : Pager ops) (n : ℕ)
      → IsDistinct p.cache
      → cache_lookup (evict_all ops ds p).cache n
        ≡ (if has_page ds n then none else cache_lookup p.cache n)
  unfolding evict_all cache_remove
  lookup-evict_all [] p n h = refl
  lookup-evict_all (d ∷ ds) p n h =
      lookup-evict_all ds (cache_remove ops p d.pgno) n (unchain-IsDistinct p.cache d.pgno h)
      ∙ rw (lookup-unchain p.cache d.pgno n h) (ground arith)

  dirty_evicted : (o : Option Page) → (if is_dirty o then none else o) ≡ if_clean o
  dirty_evicted none = refl
  dirty_evicted (some pg) = refl

  -- Where no two cached pages have the same number: after `tdb_pager_rollback` the cached page of any
  -- number is the one that was cached before, if that was not dirty, and otherwise none is; there are
  -- no savepoints and no transaction, whether memory for the header was granted or not.
  pub rollback-clean :
      (mem : Bool) (p : Pager ops) (n : ℕ)
      → IsDistinct p.cache
      → (cache_lookup (rollback ops mem p).cache n ≡ if_clean (cache_lookup p.cache n))
        × ((rollback ops mem p).sps ≡ [])
        × ((rollback ops mem p).in_txn ≡ false)
  unfolding rollback dirty_pages
  rollback-clean mem p n h =
      let all : has_page (dirty_from 0 bucket_count p.cache) n ≡ is_dirty (cache_lookup p.cache n) =
        has_page-dirty_from 0 bucket_count p.cache n h ∙ ground arith in
      (
        lookup-evict_all (dirty_from 0 bucket_count p.cache) p n h
            ∙ rw all (dirty_evicted (cache_lookup p.cache n)),
        refl,
        refl,
      )
