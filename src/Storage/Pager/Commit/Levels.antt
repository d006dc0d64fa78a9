-- ===== src/Storage/Pager/Commit/Levels.antt =====
-- The pager keeps the promises that the transactions rely on.
use transaction_db.Base.{
  ℕ, zero, suc, ◌+◌, ◌<◌, ◌≡◌, refl, Bool, none, some, List, [], ◌∷◌, arith, length, get_elem?,
  length-take, length-append,
}
use transaction_db.Txn.Session.{PagerOps}
use transaction_db.Txn.Session.Savepoints.{HasStack}
use transaction_db.Storage.Pager.{StoreOps, Pager, Level, begin, set_max_txnid}
use transaction_db.Storage.Pager.Commit.{
  commit, rollback, savepoint, savepoint_release, savepoint_rollback, revert_to, dirty_pages,
  images,
}

get_elem?-there {ℓ} :
    {A : Type ℓ} (xs : List A) (i : ℕ) → i < length xs → (x : A) × (get_elem? xs i ≡ some x)
get_elem?-there [] i h = absurd (omega arith)
get_elem?-there (x ∷ xs) zero h = (x, refl)
get_elem?-there (x ∷ xs) (suc i) h = get_elem?-there xs i (omega arith)

module _ (ops : StoreOps) (mem : Bool) where
  -- The pager as the transactions call it; `mem` says whether memory is granted.
  abbrev pub pager_ops : PagerOps
  pager_ops = record {
    State = Pager ops;
    begin = begin ops;
    commit = commit ops mem;
    rollback = λ p. (none, rollback ops mem p);
    savepoint = savepoint ops;
    savepoint_release = savepoint_release ops;
    savepoint_rollback = savepoint_rollback ops;
    set_max_txnid = set_max_txnid ops;
  }

  savepoint_pushes :
      (p p' : Pager ops) (l : ℕ)
      → savepoint ops p ≡ (some l, p')
      → (l ≡ length p.sps) × (length p'.sps ≡ length p.sps + 1)
  unfolding savepoint
  savepoint_pushes p p' l e =
      let level : Level = record { saved = p.hdr; imgs = images (dirty_pages p.cache) } in
      ground (arith, length-append p.sps (level ∷ []))

  savepoint_refuses :
      (p p' : Pager ops) → savepoint ops p ≡ (none, p') → length p'.sps ≡ length p.sps
  unfolding savepoint
  savepoint_refuses p p' e = ground arith

  savepoint_releases :
      (p : Pager ops) (l : ℕ)
      → l < length p.sps
      → ((savepoint_release ops p l).0 ≡ none) × (length (savepoint_release ops p l).1.sps ≡ l)
  unfolding savepoint_release
  savepoint_releases p l h = ground (arith, length-take l p.sps)

  savepoint_reverts :
      (p : Pager ops) (l : ℕ)
      → l < length p.sps
      → ((savepoint_rollback ops p l).0 ≡ none)
        × (length (savepoint_rollback ops p l).1.sps ≡ l + 1)
  unfolding savepoint_rollback revert_to
  savepoint_reverts p l h =
      let (sp, e) = get_elem?-there p.sps l h in
      rw (e, savepoint_rollback) (refl, omega (arith, length-take (l + 1) p.sps))

  -- Whatever the log, the file and the allocator do, the savepoints of the pager are the stack that
  -- the transactions rely on: a new one gets the depth as its level, a refused one leaves the depth,
  -- a release of a level in the stack cuts it there, and a rollback cuts it just above.
  pub pager-HasStack : HasStack pager_ops
  pager-HasStack = record {
    depth = λ p. length p.sps;
    pushes = savepoint_pushes;
    refuses = savepoint_refuses;
    releases = savepoint_releases;
    reverts = savepoint_reverts;
  }
