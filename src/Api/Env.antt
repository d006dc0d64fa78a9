-- ===== src/Api/Env.antt =====
-- api/tdb_env.c: the environments that connections share, by the path of their file, and the slot of
-- the writer. An environment is known by a number that no other one gets; what the code does under the
-- mutex of the registry is one step. What an environment is built of (pager, catalog, locks,
-- transactions, engine) is not modelled here: `built` is the status of the steps of `env_build`,
-- and `realpath` is a parameter.
pub mod Sharing
use transaction_db.Base.{
  ℕ, ◌+◌, ◌-◌, ◌⊎◌, inl, inr, Bool, true, false, not, ◌&&◌, ◌||◌, Option, none, some, List, [], ◌∷◌,
  ◌++◌, length, take, drop, leb, ltb, ◌==◌, if◌then◌else◌,
}
use transaction_db.Status.{Failure, busy, abort, nomem}

-- `tdb_env`: the fields of sharing and of the writer.
pub record Env : Type 0 where
  pub id : ℕ
  pub key : List ℕ
  pub refs : ℕ
  pub shared : Bool
  pub writer : ℕ

-- `g_envs`, and the number that the next environment gets.
pub record Registry : Type 0 where
  pub envs : List Env
  pub next_id : ℕ

-- `strcmp(s, t) == 0`
unfoldable pub str_eq : List ℕ → List ℕ → Bool
str_eq [] [] = true
str_eq [] (d ∷ t) = false
str_eq (c ∷ s) [] = false
str_eq (c ∷ s) (d ∷ t) = c == d && str_eq s t

abbrev pub memory_path : List ℕ
memory_path = b':' ∷ b'm' ∷ b'e' ∷ b'm' ∷ b'o' ∷ b'r' ∷ b'y' ∷ b':' ∷ []

-- `is_private`; `in_memory` says that the flags have `TDB_OPEN_MEMORY`, and `none` is NULL.
unfoldable pub is_private : Bool → Option (List ℕ) → Bool
is_private in_memory none = true
is_private in_memory (some path) = in_memory || length path == 0 || str_eq path memory_path

-- The position of the last slash, from `i` on; `last` is that of the one before.
unfoldable pub last_slash : List ℕ → ℕ → Option ℕ → Option ℕ
last_slash [] i last = last
last_slash (c ∷ s) i last = last_slash s (i + 1) (if c == b'/' then some i else last)

-- The directory that `canon_key` resolves, where it does: behind the last slash is the name.
unfoldable pub resolved_dir : (List ℕ → Option (List ℕ)) → ℕ → List ℕ → Option ℕ → Option (List ℕ)
resolved_dir realpath path_max path none = realpath (b'.' ∷ [])
resolved_dir realpath path_max path (some i) =
    if i == 0 then some (b'/' ∷ []) else if leb path_max i then none else realpath (take i path)

unfoldable pub base_name : List ℕ → Option ℕ → List ℕ
base_name path none = path
base_name path (some i) = drop (i + 1) path

unfoldable pub join_key : List ℕ → List ℕ → Option (List ℕ) → List ℕ
join_key path base none = path
join_key path base (some dir) = dir ++ (b'/' ∷ base)

-- `canon_key` with memory granted, where the platform is not Windows.
unfoldable pub canon_key : (List ℕ → Option (List ℕ)) → ℕ → List ℕ → List ℕ
canon_key realpath path_max path =
    let slash = last_slash path 0 none in
    join_key path (base_name path slash) (resolved_dir realpath path_max path slash)

-- `env_build`: the environment has one reference, and no writer.
unfoldable pub env_build : Option Failure → ℕ → List ℕ → Bool → Failure ⊎ Env
env_build (some e) id key shared = inl e
env_build none id key shared =
    inr (record { id = id; key = key; refs = 1; shared = shared; writer = 0 })

-- The loop over the registry: the environment with the key, with one more reference.
unfoldable pub share : List ℕ → List Env → Option (ℕ × List Env)
share key [] = none
share key (e ∷ es) =
    let rest = share key es in
    if str_eq e.key key
    then some (e.id, record e { refs = e.refs + 1 } ∷ es)
    else (elim rest [ none ↦ none | some (id, es') ↦ some (id, e ∷ es') ])

unfoldable pub enlist : Registry → Failure ⊎ Env → Failure ⊎ (ℕ × Registry)
enlist g (inl e) = inl e
enlist g (inr e) = inr (e.id, record { envs = e ∷ g.envs; next_id = g.next_id + 1 })

-- `tdb_env_acquire` of a shared environment.
unfoldable pub acquire_shared : Option Failure → Registry → List ℕ → Failure ⊎ (ℕ × Registry)
acquire_shared built g key = elim (share key g.envs) [
  | some (id, es) ↦ inr (id, record g { envs = es })
  | none ↦ enlist g (env_build built g.next_id key true)
]

-- A private environment, which the registry does not list.
unfoldable pub acquire_private : Option Failure → Registry → List ℕ → Failure ⊎ (ℕ × Registry)
acquire_private (some e) g path = inl e
acquire_private none g path = inr (g.next_id, record g { next_id = g.next_id + 1 })

-- `tdb_env_acquire`
unfoldable pub env_acquire :
    (List ℕ → Option (List ℕ))
    → ℕ
    → Option Failure
    → Bool
    → Registry
    → Option (List ℕ)
    → Failure ⊎ (ℕ × Registry)
env_acquire realpath path_max built in_memory g none = acquire_private built g []
env_acquire realpath path_max built in_memory g (some path) =
    if is_private in_memory (some path)
    then acquire_private built g path
    else acquire_shared built g (canon_key realpath path_max path)

-- The end of `tdb_env_release` of a shared environment: one reference less, and without the last one the
-- environment leaves the registry. The truth value says whether it is destroyed.
unfoldable pub unshare : ℕ → List Env → Bool × List Env
unshare id [] = (false, [])
unshare id (e ∷ es) =
    let (destroyed, rest) = unshare id es in
    if e.id == id
    then (if ltb 1 e.refs then (false, record e { refs = e.refs - 1 } ∷ es) else (true, es))
    else (destroyed, e ∷ rest)

unfoldable pub release_shared : Registry → ℕ → Bool × Registry
release_shared g id = let (destroyed, es) = unshare id g.envs in (destroyed, record g { envs = es })

-- `tdb_env_acquire_writer`
unfoldable pub acquire_writer : Env → ℕ → Option Failure × Env
acquire_writer e txn =
    if e.writer == 0 || e.writer == txn
    then (none, record e { writer = txn })
    else if ltb txn e.writer
    then (some busy, e)
    else (some abort, e)

-- `tdb_env_release_writer`
unfoldable pub release_writer : Env → ℕ → Env
release_writer e txn = if e.writer == txn then record e { writer = 0 } else e
