-- ===== src/Memory/Order/Tests.antt =====
-- Three commits, one of them superseded twice over, and a cycle; the theorems on
-- `_projection_order` of src/agent_continuity/memory_store.py at this input.
use local_ai_coding_agent.Common.{
  ℕ, ◌<◌, true, some_inj, String, List, [], ◌∷◌, map, Memᴰ, Option, none, some, ok, err,
  store_error, Succeeds, ◌≡◌, refl, sym, ap, subst, ◌∙◌, arith, get, has, keys, put, contains,
  is_duplicate_free, sort, insert_sorted, str_leb, codes_leb, concat, text_append, ◌==◌,
  if◌then◌else◌,
}
use local_ai_coding_agent.Memory.Order.{
  MemoryCommit, collect_commits, follow, visit, visit_each, order_commits,
}
use local_ai_coding_agent.Memory.Order.Replay.{IsReplayOrder, order_commits-IsReplayOrder}
use local_ai_coding_agent.Memory.Order.Totality.{order_commits_total}

abbrev commit : String → Option String → MemoryCommit
commit i old = record { event_id = i; memory_id = i; supersedes_id = old }

abbrev log : List MemoryCommit
log = commit "m1" (some "m2") ∷ commit "m2" (some "m3") ∷ commit "m3" none ∷ []

ordered_log :
    order_commits log
    ≡ ok (commit "m3" none ∷ commit "m2" (some "m3") ∷ commit "m1" (some "m2") ∷ [])
unfolding order_commits collect_commits visit_each visit follow put get has keys contains sort
    insert_sorted str_leb codes_leb
ordered_log = refl

cycle_refused :
    order_commits (commit "m1" (some "m2") ∷ commit "m2" (some "m1") ∷ [])
    ≡ err (store_error "memory supersession cycle in canonical events")
unfolding order_commits collect_commits visit_each visit follow put get has keys contains sort
    insert_sorted str_leb codes_leb
cycle_refused = refl

duplicate_refused :
    order_commits (commit "m1" none ∷ commit "m1" none ∷ [])
    ≡ err (store_error "duplicate memory_id in canonical events: m1")
unfolding order_commits collect_commits put has keys contains concat text_append
duplicate_refused = refl

order_commits-IsReplayOrder_example :
    IsReplayOrder log (commit "m3" none ∷ commit "m2" (some "m3") ∷ commit "m1" (some "m2") ∷ [])
order_commits-IsReplayOrder_example = order_commits-IsReplayOrder log ordered_log

abbrev rank : String → ℕ
rank i = if i == "m1" then 2 else if i == "m2" then 1 else 0

ids_distinct : is_duplicate_free (map (λ c. c.memory_id) log) ≡ true
unfolding is_duplicate_free contains
ids_distinct = refl

ranks_below : (c : MemoryCommit) → Memᴰ c log → rank c.memory_id < 3
ranks_below c (Memᴰ.head e) = subst (λ x. rank x.memory_id < 3) (sym e) (omega arith)
ranks_below c (Memᴰ.tail (Memᴰ.head e)) = subst (λ x. rank x.memory_id < 3) (sym e) (omega arith)
ranks_below c (Memᴰ.tail (Memᴰ.tail (Memᴰ.head e))) =
    subst (λ x. rank x.memory_id < 3) (sym e) (omega arith)
ranks_below c (Memᴰ.tail (Memᴰ.tail (Memᴰ.tail m))) = elim m [ ]

-- The rank falls by a step of the log.
falls_by :
    (x : MemoryCommit) (o : Option String) (i : String) (n : ℕ)
    → o ≡ some i
    → rank i < n
    → o ≡ some x.memory_id
    → rank x.memory_id < n
falls_by x o i n e r s = subst (λ j. rank j < n) (some_inj (sym e ∙ s)) r

ranks_fall :
    (c x : MemoryCommit)
    → Memᴰ c log
    → Memᴰ x log
    → c.supersedes_id ≡ some x.memory_id
    → rank x.memory_id < rank c.memory_id
ranks_fall c x (Memᴰ.head e) m s =
    subst (λ y. rank x.memory_id < rank y.memory_id) (sym e)
      (falls_by x c.supersedes_id "m2" 2 (ap (λ y. y.supersedes_id) e) (omega arith) s)
ranks_fall c x (Memᴰ.tail (Memᴰ.head e)) m s =
    subst (λ y. rank x.memory_id < rank y.memory_id) (sym e)
      (falls_by x c.supersedes_id "m3" 1 (ap (λ y. y.supersedes_id) e) (omega arith) s)
ranks_fall c x (Memᴰ.tail (Memᴰ.tail (Memᴰ.head e))) m s =
    absurd (lost (ap (λ y. y.supersedes_id) e) s)
  where
    lost : c.supersedes_id ≡ none → c.supersedes_id ≡ some x.memory_id → ⊥
    lost a b = cc
ranks_fall c x (Memᴰ.tail (Memᴰ.tail (Memᴰ.tail k))) m s = elim k [ ]

order_commits_total_example : Succeeds (order_commits log)
order_commits_total_example = order_commits_total log rank ids_distinct ranks_below ranks_fall
