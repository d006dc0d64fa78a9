-- ===== src/Storage/Pager/Commit.antt =====
-- storage/tdb_pager.c: the end of a transaction, and savepoints.
pub mod Ended
pub mod Levels
use transaction_db.Base.{
  ℕ, ◌&&◌, zero, suc, ◌+◌, ◌%◌, ◌^◌, Bool, true, false, not, ◌||◌, Option, none, some, List, [],
  ◌∷◌, ◌++◌, drop, length, take, ltb, leb, ◌==◌, if◌then◌else◌, get_elem?, ◌⊎◌, inl, inr,
}
use transaction_db.Status.{Failure, readonly, misuse}
use transaction_db.Storage.Header.{Header, hdr_serialize, hdr_parse, magic}
use transaction_db.Storage.Pager.{
  StoreOps, Pager, Page, Level, poke, cache_lookup, cache_remove, get, unref, update, unchain,
  data_of, set_data, bucket_count, soft_max,
}

-- The dirty pages of one hash chain.
unfoldable pub dirty_in : ℕ → List Page → List Page
dirty_in b [] = []
dirty_in b (pg ∷ pgs) =
    let rest = dirty_in b pgs in
    if pg.pgno % bucket_count == b then (if pg.dirty then pg ∷ rest else rest) else rest

-- The loop over the chains, with `k` of them still to come.
unfoldable pub dirty_from : ℕ → ℕ → List Page → List Page
dirty_from b zero pgs = []
dirty_from b (suc k) pgs = dirty_in b pgs ++ dirty_from (b + 1) k pgs

unfoldable pub dirty_pages : List Page → List Page
dirty_pages pgs = dirty_from 0 bucket_count pgs

-- The pages that the array of `tdb_pager_commit` and of `tdb_pager_savepoint_rollback` has room for.
unfoldable pub collect_dirty : List Page → List Page
collect_dirty pgs = take (soft_max + 64) (dirty_pages pgs)

unfoldable pub clean_all : List Page → List Page → List Page
clean_all [] pgs = pgs
clean_all (d ∷ ds) pgs = clean_all ds (update pgs d.pgno (λ q. record q { dirty = false }))

unfoldable pub images : List Page → List (ℕ × List ℕ)
images [] = []
images (pg ∷ pgs) = (pg.pgno, pg.content) ∷ images pgs

unfoldable pub find_image : List (ℕ × List ℕ) → ℕ → Option (List ℕ)
find_image [] n = none
find_image ((k, d) ∷ is) n = if k == n then some d else find_image is n

-- `memcmp(full, TDB_MAGIC, sizeof(TDB_MAGIC)) == 0`, which compares the 14 bytes of the literal.
unfoldable pub has_prefix : List ℕ → List ℕ → Bool
has_prefix [] p = true
has_prefix (m ∷ ms) [] = false
has_prefix (m ∷ ms) (b ∷ p) = if m == b then has_prefix ms p else false

module _ (ops : StoreOps) where
  open ops use {State, read_image, wal_append, wal_sync, frame_count, checkpoint_all}

  -- `flush_header`
  unfoldable pub flush_header : Bool → Pager ops → Option Failure × Pager ops
  flush_header mem p =
      let (rc, p') = get ops mem p 1 in
      elim rc [
        | some e ↦ (some e, p')
        | none ↦
            let h = record p'.hdr { change_counter = (p'.hdr.change_counter + 1) % 2 ^ 32 } in
            let flushed =
              update p'.cache 1
                (λ q. record q { content = poke 0 (hdr_serialize h) q.content; dirty = true }) in
            (none, unref ops record p' { hdr = h; hdr_dirty = false; cache = flushed } 1)
      ]

  -- The loop of `tdb_pager_commit` over the dirty pages; the last one carries the size.
  unfoldable pub append_all : State → ℕ → List Page → Option Failure × State
  append_all s size [] = (none, s)
  append_all s size (pg ∷ []) = wal_append s pg.pgno pg.content true size
  append_all s size (pg ∷ q ∷ pgs) =
      let (rc, s') = wal_append s pg.pgno pg.content false 0 in
      elim rc [ some e ↦ (some e, s') | none ↦ append_all s' size (q ∷ pgs) ]

  unfoldable pub log_pages : State → ℕ → List Page → Option Failure × State
  log_pages s size [] = (none, s)
  log_pages s size (pg ∷ pgs) =
      let (rc, s') = append_all s size (pg ∷ pgs) in
      elim rc [ some e ↦ (some e, s') | none ↦ wal_sync s' ]

  -- `tdb_pager_checkpoint`
  unfoldable pub checkpoint : Pager ops → Option Failure × Pager ops
  checkpoint p =
      if p.is_readonly
      then (none, p)
      else if frame_count p.store == 0
      then (none, p)
      else let (rc, s) = checkpoint_all p.store in (rc, record p { store = s })

  -- The end of `tdb_pager_commit`; the status of the checkpoint is ignored.
  unfoldable pub close_txn : Pager ops → List Page → Pager ops
  close_txn p ds =
      let closed = record p { cache = clean_all ds p.cache; in_txn = false; sps = [] } in
      if ltb 1000 (frame_count closed.store) then (checkpoint closed).1 else closed

  unfoldable pub commit_flushed : Pager ops → Option Failure × Pager ops
  commit_flushed p =
      let ds = collect_dirty p.cache in
      let (rc, s) = log_pages p.store p.hdr.db_size ds in
      elim rc [
        | some e ↦ (some e, record p { store = s })
        | none ↦ (none, close_txn record p { store = s } ds)
      ]

  -- `tdb_pager_commit`
  unfoldable pub commit : Bool → Pager ops → Option Failure × Pager ops
  commit mem p =
      if p.is_readonly
      then (some readonly, p)
      else (let (rc, p') = flush_header mem p in
          elim rc [ some e ↦ (some e, p') | none ↦ commit_flushed p' ])

  -- The evictions of `tdb_pager_rollback`.
  unfoldable pub evict_all : List Page → Pager ops → Pager ops
  evict_all [] p = p
  evict_all (d ∷ ds) p = evict_all ds (cache_remove ops p d.pgno)

  -- The loops of `evict_above`, in the order of the pages.
  unfoldable pub evict_past : ℕ → List Page → Pager ops → Pager ops
  evict_past maxkeep [] p = p
  evict_past maxkeep (pg ∷ pgs) p =
      evict_past maxkeep pgs
        (if ltb maxkeep pg.pgno && pg.refs == 0 then cache_remove ops p pg.pgno else p)

  unfoldable pub evict_above : Pager ops → ℕ → Pager ops
  evict_above p maxkeep = evict_past maxkeep p.cache p

  unfoldable pub reload : Bool → Header → Failure ⊎ List ℕ → Header
  reload mem h (inl e) = h
  reload mem h (inr full) =
      if mem then (if has_prefix (take 14 magic) full then hdr_parse full else h) else h

  -- `tdb_pager_rollback`
  unfoldable pub rollback : Bool → Pager ops → Pager ops
  rollback mem p = record (evict_all (dirty_pages p.cache) p) {
    hdr = reload mem p.hdr (read_image p.store 1);
    hdr_dirty = false;
    in_txn = false;
    sps = [];
  }

  -- `tdb_pager_savepoint`, which returns -1 for a pager that is read-only, with memory to be had: the
  -- code does not test it.
  unfoldable pub savepoint : Pager ops → Option ℕ × Pager ops
  savepoint p =
      let level : Level = record { saved = p.hdr; imgs = images (dirty_pages p.cache) } in
      if p.is_readonly
      then (none, p)
      else (some (length p.sps), record p { sps = p.sps ++ (level ∷ []) })

  -- `tdb_pager_savepoint_release` for a level that is not negative.
  unfoldable pub savepoint_release : Pager ops → ℕ → Option Failure × Pager ops
  savepoint_release p level =
      if leb (length p.sps) level
      then (some misuse, p)
      else (none, record p { sps = take level p.sps })

  -- The loop of `tdb_pager_savepoint_rollback` over the dirty pages.
  unfoldable pub revert_page : Pager ops → ℕ → Option (List ℕ) → Pager ops
  revert_page p n (some d) = set_data ops p n d
  revert_page p n none = cache_remove ops p n

  unfoldable pub revert_all : List Page → List (ℕ × List ℕ) → Pager ops → Pager ops
  revert_all [] is p = p
  revert_all (d ∷ ds) is p = revert_all ds is (revert_page p d.pgno (find_image is d.pgno))

  unfoldable pub revert_to : Pager ops → ℕ → Level → Pager ops
  revert_to p level sp = record (revert_all (collect_dirty p.cache) sp.imgs p) {
    sps = take (level + 1) p.sps;
    hdr = sp.saved;
    hdr_dirty = true;
  }

  -- `tdb_pager_savepoint_rollback` for a level that is not negative.
  unfoldable pub savepoint_rollback : Pager ops → ℕ → Option Failure × Pager ops
  savepoint_rollback p level = elim (get_elem? p.sps level) [
    | none ↦ (some misuse, p)
    | some sp ↦ (none, revert_to p level sp)
  ]
