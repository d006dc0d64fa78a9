-- ===== src/Tests/Api.antt =====
-- src/api on concrete inputs.
use transaction_db.Base.{ℕ, refl, true, List, [], ◌∷◌}
use transaction_db.Api.Env.{
  Env, Registry, str_eq, share, env_build, enlist, acquire_shared, release_shared,
}
use transaction_db.Api.Env.Sharing.{Sharing, IsCounted, Step, Reach, Reach-IsCounted}

abbrev file_key : List ℕ
file_key = b'/' ∷ b'd' ∷ []

abbrev env_of : ℕ → Env
env_of refs = record { id = 0; key = file_key; refs = refs; shared = true; writer = 0 }

abbrev registry_of : ℕ → Registry
registry_of refs = record { envs = env_of refs ∷ []; next_id = 1 }

abbrev none_open : Sharing
none_open = record { registry = record { envs = []; next_id = 0 }; held = [] }

abbrev one_open : Sharing
one_open = record { registry = registry_of 1; held = 0 ∷ [] }

abbrev two_open : Sharing
two_open = record { registry = registry_of 2; held = 0 ∷ 0 ∷ [] }

first_open : Step none_open one_open
unfolding acquire_shared share env_build enlist
first_open = Step.opened file_key (0, registry_of 1) refl

second_open : Step one_open two_open
unfolding acquire_shared share str_eq
second_open = Step.opened file_key (0, registry_of 2) refl

-- Two connections open the same file, and the first one closes it.
abbrev one_closed : Sharing
one_closed = record { registry = (release_shared (registry_of 2) 0).1; held = 0 ∷ [] }

Reach-IsCounted_example : IsCounted one_closed
Reach-IsCounted_example = Reach-IsCounted (
    Reach.next (Reach.next (Reach.next Reach.start first_open) second_open)
      (Step.closed (registry_of 2) (0 ∷ []) [] 0))
