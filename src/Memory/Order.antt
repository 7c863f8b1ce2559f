-- ===== src/Memory/Order.antt =====
-- The order of a replay's `memory/committed` events, in `_projection_order` of
-- src/agent_continuity/memory_store.py: a commit is applied behind the one that it supersedes.
-- `visit` calls itself on the superseded commit only. Its fuel is the depth of calls that are left;
-- `order_commits` gives it the number of commits, which a path without a cycle does not exceed.
use local_ai_coding_agent.Common.{
  ℕ, zero, suc, String, List, [], ◌∷◌, ◌++◌, keep, length, Bool, not, Option, none, some, Result,
  ok, err, store_error, item, ◌>>=◌, Dict, get, has, put, keys, contains, concat, sort, str_leb,
  ◌==◌, if◌then◌else◌,
}
pub mod Topological
pub mod Replay
pub mod Totality
mod Tests

-- A `memory/committed` event of the log, by the fields of its payload that the order reads. A value
-- of `supersedes_id` that is no text is no key of `commits`, as none is; a list or an object, which
-- is not hashable, does not pass the projection that `append` tries before it writes.
pub record MemoryCommit : Type 0 where
  pub event_id : String
  pub memory_id : String
  pub supersedes_id : Option String

-- The variables that `visit` shares.
pub record Walk : Type 0 where
  pub visiting : List String
  pub visited : List String
  pub ordered : List MemoryCommit

-- The loop that fills `commits`.
unfoldable pub collect_commits : Dict MemoryCommit → List MemoryCommit → Result (Dict MemoryCommit)
collect_commits d [] = ok d
collect_commits d (c ∷ cs) = do
  let rest = collect_commits (put c.memory_id c d) cs
  if has c.memory_id d
      then err
          (store_error (concat ("duplicate memory_id in canonical events: " ∷ c.memory_id ∷ [])))
      else rest

abbrev pub cycle {ℓ} : {A : Type ℓ} → Result A
cycle = err (store_error "memory supersession cycle in canonical events")

abbrev pub enter : String → Walk → Walk
enter id w = record { visiting = id ∷ w.visiting; visited = w.visited; ordered = w.ordered }

abbrev pub leave : String → MemoryCommit → Walk → Walk
leave id c w = record {
  visiting = keep (λ x. not (x == id)) w.visiting;
  visited = id ∷ w.visited;
  ordered = w.ordered ++ c ∷ [];
}

module _ (commits : Dict MemoryCommit) where
  -- `if dependency in commits: visit(dependency)`
  unfoldable pub follow : (String → Walk → Result Walk) → Option String → Walk → Result Walk
  follow again none w = ok w
  follow again (some dependency) w = if has dependency commits then again dependency w else ok w

  unfoldable pub visit : ℕ → String → Walk → Result Walk
  unfolding follow
  visit zero id w = if contains id w.visited then ok w else cycle
  visit (suc n) id w =
      if contains id w.visited then ok w else if contains id w.visiting then cycle else (do
        c ← item (get id commits)
        after ← follow (visit n) c.supersedes_id (enter id w)
        ok (leave id c after))

  unfoldable pub visit_each : ℕ → List String → Walk → Result Walk
  visit_each n [] w = ok w
  visit_each n (id ∷ ids) w = do after ← visit n id w; visit_each n ids after

-- `ordered_commits`
unfoldable pub order_commits : List MemoryCommit → Result (List MemoryCommit)
order_commits events = do
  commits ← collect_commits [] events
  w ←
      visit_each commits (length commits) (sort str_leb (keys commits))
        (record { visiting = []; visited = []; ordered = [] })
  ok w.ordered
