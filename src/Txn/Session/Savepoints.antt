-- ===== src/Txn/Session/Savepoints.antt =====
-- Named savepoints against the stack of levels that the pager keeps.
use transaction_db.Base.{
  ℕ, zero, suc, ◌+◌, ◌<◌, ◌≡◌, refl, Option, none, some, List, [], ◌∷◌, ◌++◌, arith, length, take,
  Bool-cases, Option-cases, inl, inr, ◌⊎◌, true, false, All, length-take, length-append,
}
use transaction_db.Base.CString.{str_case_eq}
use transaction_db.Status.{Failure, notfound, error}
use transaction_db.Txn.Manager.{Txn, Savepoint}
use transaction_db.Txn.Session.{PagerOps, Env, txn_savepoint, find_sp, txn_release, txn_rollback_to}

-- What the pager promises of its savepoints: they are a stack, a new one gets the depth as its level,
-- a release cuts the stack at the level and a rollback just above it, both for a level in the stack.
pub record HasStack (ops : PagerOps) : Type 0 where
  pub depth : ops.State → ℕ
  pub pushes :
      (p p' : ops.State) (l : ℕ)
      → ops.savepoint p ≡ (some l, p')
      → (l ≡ depth p) × (depth p' ≡ depth p + 1)
  pub refuses : (p p' : ops.State) → ops.savepoint p ≡ (none, p') → depth p' ≡ depth p
  pub releases :
      (p : ops.State) (l : ℕ)
      → l < depth p
      → ((ops.savepoint_release p l).0 ≡ none) × (depth (ops.savepoint_release p l).1 ≡ l)
  pub reverts :
      (p : ops.State) (l : ℕ)
      → l < depth p
      → ((ops.savepoint_rollback p l).0 ≡ none) × (depth (ops.savepoint_rollback p l).1 ≡ l + 1)

-- The levels of a stack of savepoints count up from `n`.
abbrev pub IsStack : ℕ → List Savepoint → Type 0
IsStack n [] = Unit
IsStack n (sp ∷ sps) = (sp.level ≡ n) × IsStack (n + 1) sps

take-IsStack : (n i : ℕ) (sps : List Savepoint) → IsStack n sps → IsStack n (take i sps)
take-IsStack n zero sps h = tt
take-IsStack n (suc i) [] h = tt
take-IsStack n (suc i) (sp ∷ sps) (e, h) = (e, take-IsStack (n + 1) i sps h)

append-IsStack :
    (n : ℕ) (sps : List Savepoint) (sp : Savepoint)
    → IsStack n sps
    → sp.level ≡ n + length sps
    → IsStack n (sps ++ (sp ∷ []))
append-IsStack n [] sp h e = (omega arith, tt)
append-IsStack n (x ∷ xs) sp (e', h) e = (e', append-IsStack (n + 1) xs sp h (omega arith))

-- The savepoint that is found stands at its place in the stack.
find_sp-IsStack :
    (name : List ℕ) (n : ℕ) (sps : List Savepoint) (i : ℕ) (sp : Savepoint)
    → IsStack n sps
    → find_sp name sps ≡ some (i, sp)
    → (sp.level ≡ n + i) × (i < length sps)
unfolding find_sp
find_sp-IsStack name n [] i sp h e = cc
find_sp-IsStack name n (x ∷ xs) i sp (e', h) e = elim (Option-cases (find_sp name xs)) [
  | inl absent ↦ ground arith
  | inr ((j, found), e'') ↦ ground (arith, find_sp-IsStack name (n + 1) xs j found h e'')
]

-- The list splits around its last savepoint of the name: none behind it has the name.
abbrev pub IsLast : List ℕ → List Savepoint → List Savepoint → Savepoint → List Savepoint → Type 0
IsLast name sps before sp after =
    (sps ≡ before ++ (sp ∷ after))
    × (str_case_eq sp.name name ≡ true)
    × All (λ x. str_case_eq x.name name ≡ false) after

find_sp-absent :
    (name : List ℕ) (sps : List Savepoint)
    → find_sp name sps ≡ none
    → All (λ x. str_case_eq x.name name ≡ false) sps
unfolding find_sp
find_sp-absent name [] e = tt
find_sp-absent name (x ∷ xs) e = elim (Option-cases (find_sp name xs)) [
  | inl absent ↦ (ground arith, find_sp-absent name xs absent)
  | inr (found, e') ↦ absurd (ground arith)
]

find_sp-IsLast :
    (name : List ℕ) (sps : List Savepoint) (i : ℕ) (sp : Savepoint)
    → find_sp name sps ≡ some (i, sp)
    → (before : List Savepoint) × (after : List Savepoint) × IsLast name sps before sp after
      × (take i sps ≡ before)
      × (take (i + 1) sps ≡ before ++ (sp ∷ []))
unfolding find_sp
find_sp-IsLast name [] i sp e = absurd (ground arith)
find_sp-IsLast name (x ∷ xs) i sp e = elim (Option-cases (find_sp name xs)) [
  | inl absent ↦ elim (Bool-cases (str_case_eq x.name name)) [
    | inl same ↦
        let at : i ≡ 0 = ground arith in
        let it : x ≡ sp = ground arith in
        ([], xs, (rw it, rw (← it) same, find_sp-absent name xs absent), rw at, rw (at, it))
    | inr other ↦ absurd (ground arith)
  ]
  | inr ((j, found), e') ↦
      let at : i ≡ suc j = ground arith in
      let up : suc j + 1 ≡ suc (j + 1) = omega arith in
      let it : found ≡ sp = ground arith in
      let (before, after, (whole, same, rest), here, behind) =
        find_sp-IsLast name xs j sp (rw (← it) e') in
      (x ∷ before, after, (rw (← whole), same, rest), rw (at, ← here), rw (at, up, ← behind))
]

-- A transaction's savepoints mirror the pager's stack.
abbrev pub Mirrors : (ops : PagerOps) → HasStack ops → Env ops → Txn → Type 0
Mirrors ops laws s t = IsStack 0 t.savepoints × (length t.savepoints ≡ laws.depth s.pager)

module _ (ops : PagerOps) (laws : HasStack ops) (s : Env ops) (t : Txn) (name : List ℕ) where
  -- Over a pager that keeps a stack, and with the two stacks in step: `SAVEPOINT` keeps them in step,
  -- whether it succeeds or not.
  pub txn_savepoint-Mirrors :
      Mirrors ops laws s t → let (rc, t', s') = txn_savepoint ops s t name in Mirrors ops laws s' t'
  unfolding txn_savepoint
  txn_savepoint-Mirrors (stack, same) = elim (Bool-cases t.writable) [
    | inl writes ↦ rw writes (pushed (ops.savepoint s.pager) refl)
    | inr reads ↦ rw reads (stack, same)
  ]
    where
      pushed :
          (answer : Option ℕ × ops.State)
          → ops.savepoint s.pager ≡ answer
          → let (level, p) = answer in
            let (rc, t', s') : Option Failure × Txn × Env ops = elim level [
              | none ↦ (some error, t, record s { pager = p })
              | some l ↦ (
                none,
                record t { savepoints = t.savepoints ++ (record { name = name; level = l } ∷ []) },
                record s { pager = p },
              )
            ] in
            Mirrors ops laws s' t'
      pushed (none, p) e = (stack, omega (arith, laws.refuses s.pager p e))
      pushed (some l, p) e =
          let (top, deeper) = laws.pushes s.pager p l e in
          let sp : Savepoint = record { name = name; level = l } in
          (
            append-IsStack 0 t.savepoints sp stack (omega arith),
            omega (arith, length-append t.savepoints (sp ∷ [])),
          )

  -- What `RELEASE` and `ROLLBACK TO` should do where no savepoint has the name.
  abbrev pub IsRefused : Option Failure × Txn × Env ops → Type 0
  IsRefused (rc, t', s') =
      All (λ sp. str_case_eq sp.name name ≡ false) t.savepoints
      × (rc ≡ some notfound)
      × (t' ≡ t)
      × (s' ≡ s)

  -- What `RELEASE` should do: refuse, or cut the savepoints before the last one of the name.
  abbrev pub WasReleased : Option Failure × Txn × Env ops → Type 0
  WasReleased (rc, t', s') =
      IsRefused (rc, t', s')
      ⊎ ((before : List Savepoint) × (sp : Savepoint) × (after : List Savepoint) × IsLast name
            t.savepoints before sp after
          × (rc ≡ none)
          × (t' ≡ record t { savepoints = before })
          × Mirrors ops laws s' t')

  -- What `ROLLBACK TO` should do: refuse, or cut the savepoints behind the last one of the name.
  abbrev pub WasReverted : Option Failure × Txn × Env ops → Type 0
  WasReverted (rc, t', s') =
      IsRefused (rc, t', s')
      ⊎ ((before : List Savepoint) × (sp : Savepoint) × (after : List Savepoint) × IsLast name
            t.savepoints before sp after
          × (rc ≡ none)
          × (t' ≡ record t { savepoints = before ++ (sp ∷ []) })
          × Mirrors ops laws s' t')

  -- Over a pager that keeps a stack, and with the two stacks in step: `RELEASE` of a name that is there
  -- returns TDB_OK, drops the last savepoint of the name with all behind it, and keeps the stacks in
  -- step; of a name that is not there it changes nothing and returns TDB_NOTFOUND.
  pub txn_release-WasReleased : Mirrors ops laws s t → WasReleased (txn_release ops s t name)
  unfolding txn_release
  txn_release-WasReleased (stack, same) = elim (Option-cases (find_sp name t.savepoints)) [
    | inl absent ↦
        rw (absent, txn_release) (inl (find_sp-absent name t.savepoints absent, refl, refl, refl))
    | inr ((i, sp), found) ↦
        let (level, inside) = find_sp-IsStack name 0 t.savepoints i sp stack found in
        let (okay, cut) = laws.releases s.pager sp.level (omega arith) in
        let (before, after, last, cut_here, cut_behind) =
          find_sp-IsLast name t.savepoints i sp found in
        rw (found, txn_release)
          (inr (
            before,
            sp,
            after,
            last,
            okay,
            rw cut_here,
            (take-IsStack 0 i t.savepoints stack, omega (arith, cut, length-take i t.savepoints)),
          ))
  ]

  -- Over a pager that keeps a stack, and with the two stacks in step: `ROLLBACK TO` a name that is
  -- there returns TDB_OK, drops all behind the last savepoint of the name but not that one, and
  -- keeps the stacks in step; of a name that is not there it changes nothing and returns
  -- TDB_NOTFOUND.
  pub txn_rollback_to-WasReverted :
      Mirrors ops laws s t → WasReverted (txn_rollback_to ops s t name)
  unfolding txn_rollback_to
  txn_rollback_to-WasReverted (stack, same) = elim (Option-cases (find_sp name t.savepoints)) [
    | inl absent ↦
        rw (absent, txn_rollback_to)
          (inl (find_sp-absent name t.savepoints absent, refl, refl, refl))
    | inr ((i, sp), found) ↦
        let (level, inside) = find_sp-IsStack name 0 t.savepoints i sp stack found in
        let (okay, cut) = laws.reverts s.pager sp.level (omega arith) in
        let (before, after, last, cut_here, cut_behind) =
          find_sp-IsLast name t.savepoints i sp found in
        rw (found, txn_rollback_to)
          (inr (
            before,
            sp,
            after,
            last,
            okay,
            rw cut_behind,
            (
              take-IsStack 0 (i + 1) t.savepoints stack,
              omega (arith, cut, length-take (i + 1) t.savepoints),
            ),
          ))
  ]
