-- ===== src/Api/Env/Sharing.antt =====
-- The registry counts its references: runs of opening and closing connections.
use transaction_db.Base.{
  ℕ, ◌+◌, ◌-◌, ◌<◌, ◌≤◌, ◌≡◌, refl, sym, subst, inl, inr, Bool, true, false, Option, none, some,
  List, [], ◌∷◌, ◌++◌, arith, All, ltb, ◌==◌, if◌then◌else◌, Bool-cases, Option-cases,
}
use transaction_db.Api.Env.{
  Env, Registry, str_eq, share, env_build, enlist, acquire_shared, unshare, release_shared,
}

-- How often a number stands in a list.
abbrev pub count : ℕ → List ℕ → ℕ
count i [] = 0
count i (h ∷ hs) = (if h == i then 1 else 0) + count i hs

-- The references of environment `i` in the registry.
abbrev pub refs_of : ℕ → List Env → ℕ
refs_of i [] = 0
refs_of i (e ∷ es) = (if e.id == i then e.refs else 0) + refs_of i es

-- No two environments have the same key.
abbrev pub HasDistinctKeys : List Env → Type 0
HasDistinctKeys [] = Unit
HasDistinctKeys (e ∷ es) = All (λ f. str_eq f.key e.key ≡ false) es × HasDistinctKeys es

-- The registry, and the environments that connections hold, once for each connection.
pub record Sharing : Type 0 where
  pub registry : Registry
  pub held : List ℕ

-- What the connections hold is what the registry counts, no count is 0, and no key is listed twice.
abbrev pub IsCounted : Sharing → Type 0
IsCounted s =
    ((i : ℕ) → count i s.held ≡ refs_of i s.registry.envs)
    × All (λ e. 0 < e.refs) s.registry.envs
    × HasDistinctKeys s.registry.envs

-- A connection opens a shared environment, or closes the one that it holds.
pub data Step : Sharing → Sharing → Type 0 where
  opened :
      {s : Sharing} (key : List ℕ) (r : ℕ × Registry)
      → acquire_shared none s.registry key ≡ inr r
      → Step s (record { registry = r.1; held = r.0 ∷ s.held })
  closed :
      (g : Registry) (before after : List ℕ) (id : ℕ)
      → Step
          (record { registry = g; held = before ++ (id ∷ after) })
          (record { registry = (release_shared g id).1; held = before ++ after })

-- What a run of steps reaches from an empty registry.
pub data Reach : Sharing → Type 0 where
  start : Reach (record { registry = record { envs = []; next_id = 0 }; held = [] })
  next : {s t : Sharing} → Reach s → Step s t → Reach t

count-append :
    (i id : ℕ) (before after : List ℕ)
    → count i (before ++ (id ∷ after)) ≡ (if id == i then 1 else 0) + count i (before ++ after)
count-append i id [] after = refl
count-append i id (h ∷ before) after = omega (arith, count-append i id before after)

-- The environment that `share` finds gets one reference more, and the keys stay.
Shared : List ℕ → List Env → Option (ℕ × List Env) → Type 0
Shared key es none = All (λ e. str_eq e.key key ≡ false) es
Shared key es (some (id, es')) =
    ((i : ℕ) → refs_of i es' ≡ (if id == i then 1 else 0) + refs_of i es)
    × (All (λ e. 0 < e.refs) es → All (λ e. 0 < e.refs) es')
    × ((k : List ℕ) → All (λ e. str_eq e.key k ≡ false) es → All (λ e. str_eq e.key k ≡ false) es')
    × (HasDistinctKeys es → HasDistinctKeys es')

share_same :
    (key : List ℕ) (e : Env) (es : List Env)
    → str_eq e.key key ≡ true
    → share key (e ∷ es) ≡ some (e.id, record e { refs = e.refs + 1 } ∷ es)
unfolding share
share_same key e es h = rw h refl

share_absent :
    (key : List ℕ) (e : Env) (es : List Env)
    → str_eq e.key key ≡ false
    → share key es ≡ none
    → share key (e ∷ es) ≡ none
unfolding share
share_absent key e es h k = rw h (rw k refl)

share_later :
    (key : List ℕ) (e : Env) (es : List Env) (r : ℕ × List Env)
    → str_eq e.key key ≡ false
    → share key es ≡ some r
    → share key (e ∷ es) ≡ some (r.0, e ∷ r.1)
unfolding share
share_later key e es r h k = rw h (rw k refl)

share-Shared : (key : List ℕ) (es : List Env) → Shared key es (share key es)
unfolding Shared
share-Shared key [] = unfold share in tt
share-Shared key (e ∷ es) = elim (Bool-cases (str_eq e.key key)) [
  | inl same ↦
      subst (Shared key (e ∷ es)) (sym (share_same key e es same))
        (λ i. ground arith, λ h. (omega arith, h.1), λ k h. h, λ h. h)
  | inr other ↦ elim (Option-cases (share key es)) [
    | inl absent ↦
        subst (Shared key (e ∷ es)) (sym (share_absent key e es other absent))
          (other, subst (Shared key es) absent (share-Shared key es))
    | inr (r, found) ↦
        let (sum, positive, keys, distinct) = subst (Shared key es) found (share-Shared key es) in
        subst (Shared key (e ∷ es)) (sym (share_later key e es r other found)) (
          λ i. omega (arith, sum i),
          λ h. (h.0, positive h.1),
          λ k h. (h.0, keys k h.1),
          λ h. (keys e.key h.0, distinct h.1),
        )
  ]
]

-- One reference less for the environment that `unshare` finds, and the keys stay or go.
Unshared : ℕ → List Env → Bool × List Env → Type 0
Unshared id es (destroyed, es') =
    (0 < refs_of id es → (i : ℕ) → refs_of i es ≡ (if id == i then 1 else 0) + refs_of i es')
    × All (λ e. 0 < e.refs) es'
    × ((k : List ℕ) → All (λ e. str_eq e.key k ≡ false) es → All (λ e. str_eq e.key k ≡ false) es')
    × (HasDistinctKeys es → HasDistinctKeys es')

unshare_one :
    (id : ℕ) (e : Env) (es : List Env)
    → (e.id == id) ≡ true
    → ltb 1 e.refs ≡ false
    → unshare id (e ∷ es) ≡ (true, es)
unfolding unshare
unshare_one id e es h k = rw h (rw k refl)

unshare_more :
    (id : ℕ) (e : Env) (es : List Env)
    → (e.id == id) ≡ true
    → ltb 1 e.refs ≡ true
    → unshare id (e ∷ es) ≡ (false, record e { refs = e.refs - 1 } ∷ es)
unfolding unshare
unshare_more id e es h k = rw h (rw k refl)

unshare_later :
    (id : ℕ) (e : Env) (es : List Env)
    → (e.id == id) ≡ false
    → unshare id (e ∷ es) ≡ ((unshare id es).0, e ∷ (unshare id es).1)
unfolding unshare
unshare_later id e es h = rw h refl

unshare-Unshared :
    (id : ℕ) (es : List Env) → All (λ e. 0 < e.refs) es → Unshared id es (unshare id es)
unfolding Unshared
unshare-Unshared id [] hs = unfold unshare in (λ h. absurd (omega arith), tt, λ k h. h, λ h. h)
unshare-Unshared id (e ∷ es) (h, hs) = elim (Bool-cases (e.id == id)) [
  | inl same ↦ elim (Bool-cases (ltb 1 e.refs)) [
    | inl more ↦ subst (Unshared id (e ∷ es)) (sym (unshare_more id e es same more)) (
      λ k i.
          let same_id : e.id ≡ id = ground arith in
          let two : 2 ≤ e.refs = ground arith in ground arith,
      (ground arith, hs),
      λ k g. g,
      λ g. g,
    )
    | inr last ↦ subst (Unshared id (e ∷ es)) (sym (unshare_one id e es same last)) (
      λ k i.
          let same_id : e.id ≡ id = ground arith in
          let one : e.refs ≡ 1 = ground arith in ground arith,
      hs,
      λ k g. g.1,
      λ g. g.1,
    )
  ]
  | inr other ↦
      let (sum, positive, keys, distinct) = unshare-Unshared id es hs in
      subst (Unshared id (e ∷ es)) (sym (unshare_later id e es other)) (
        λ k i.
            let here : (if e.id == id then e.refs else 0) ≡ 0 = rw other refl in
            omega (arith, sum (omega (arith, here, k)) i),
        (h, positive),
        λ k g. (g.0, keys k g.1),
        λ g. (keys e.key g.0, distinct g.1),
      )
]

acquire_found :
    (g : Registry) (key : List ℕ) (r : ℕ × List Env)
    → share key g.envs ≡ some r
    → acquire_shared none g key ≡ inr (r.0, record g { envs = r.1 })
unfolding acquire_shared
acquire_found g key r e = rw (e, acquire_shared) refl

acquire_built :
    (g : Registry) (key : List ℕ)
    → share key g.envs ≡ none
    → acquire_shared none g key
      ≡ inr (
        g.next_id,
        record {
          envs = record { id = g.next_id; key = key; refs = 1; shared = true; writer = 0 } ∷ g.envs;
          next_id = g.next_id + 1;
        },
      )
unfolding acquire_shared env_build enlist
acquire_built g key e = rw (e, acquire_shared) refl

-- The state behind an acquire that gave `r`.
abbrev behind : Sharing → ℕ × Registry → Sharing
behind s r = record { registry = r.1; held = r.0 ∷ s.held }

acquire-IsCounted :
    (s : Sharing) (key : List ℕ)
    → IsCounted s
    → (r : ℕ × Registry) × (acquire_shared none s.registry key ≡ inr r) × IsCounted (behind s r)
unfolding Shared
acquire-IsCounted s key (counts, positive, distinct) =
    let g : Registry = s.registry in
    elim (Option-cases (share key g.envs)) [
      | inl absent ↦
          let other = subst (Shared key g.envs) absent (share-Shared key g.envs) in
          (
            (
              g.next_id,
              record {
                envs =
                    record { id = g.next_id; key = key; refs = 1; shared = true; writer = 0 }
                    ∷ g.envs;
                next_id = g.next_id + 1;
              },
            ),
            acquire_built g key absent,
            (λ i. omega (arith, counts i), (omega arith, positive), (other, distinct)),
          )
      | inr (r, found) ↦
          let (sum, pos', keys, dist') =
            subst (Shared key g.envs) found (share-Shared key g.envs) in
          (
            (r.0, record g { envs = r.1 }),
            acquire_found g key r found,
            (λ i. omega (arith, counts i, sum i), pos' positive, dist' distinct),
          )
    ]

Step-IsCounted : {s t : Sharing} → IsCounted s → Step s t → IsCounted t
unfolding release_shared Unshared
Step-IsCounted {s} h (Step.opened key r e) =
    let (r', e', h') = acquire-IsCounted s key h in
    let same : r' ≡ r = cc in subst (λ q. IsCounted (behind s q)) same h'
Step-IsCounted (counts, positive, distinct) (Step.closed g before after id) =
    let (sum, pos', keys, dist') = unshare-Unshared id g.envs positive in
    let same : (id == id) ≡ true = ground arith in
    let some_left : 0 < refs_of id g.envs =
      omega (arith, counts id, rw same at (count-append id id before after)) in
    (
      λ i. omega (arith, counts i, count-append i id before after, sum some_left i),
      pos',
      dist' distinct,
    )

-- In every state that opening and closing of connections reaches from an empty registry, as
-- `tdb_env_acquire` of shared environments that can be built and `tdb_env_release` do it: every
-- environment number has as many references in the registry as connections hold it, no environment
-- of the registry has 0 references, and no two of them have the same key.
pub Reach-IsCounted : {s : Sharing} → Reach s → IsCounted s
Reach-IsCounted Reach.start = (λ i. refl, tt, tt)
Reach-IsCounted (Reach.next reached step) = Step-IsCounted (Reach-IsCounted reached) step
