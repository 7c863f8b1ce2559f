-- ===== src/Memory/Order/Totality.antt =====
-- When `ordered_commits` in `_projection_order` of src/agent_continuity/memory_store.py exists: the
-- depth of calls that `order_commits` allows is enough for every log without a cycle.
use local_ai_coding_agent.Common.{
  ℕ, ◌+◌, zero, suc, ◌<◌, true, false, ◌||◌, String, List, [], ◌∷◌, map, Memᴰ, Option, none, some,
  ok, item, ◌≡◌, refl, sym, subst, ap, ◌∙◌, arith, inl, inr, Bool-cases, eq_iff, str_eq_self, Dict,
  get, has, put, keys, contains, has-get, ◌==◌, Succeeds, Succeeds-bind, Succeeds-item, length,
  is_duplicate_free, indexed, indexed-Memᴰ, indexed-identity, contains-sort, sort, str_leb,
  item-eq-ok,
}
use local_ai_coding_agent.Memory.Order.{
  MemoryCommit, Walk, enter, leave, follow, visit, visit_each, collect_commits, order_commits,
}
use local_ai_coding_agent.Memory.Order.Topological.{IsWalk, visit-Goes}
use local_ai_coding_agent.Memory.Order.Replay.{
  collect_commits-IsCollected, indexed-shut, has-put, nowhere,
}

length-put :
    (k : String) (c : MemoryCommit) (d : Dict MemoryCommit)
    → has k d ≡ false
    → length (put k c d) ≡ length d + 1
unfolding put has contains keys
length-put k c [] h = refl
length-put k c ((j, x) ∷ d) h =
    let other : (k == j) ≡ false = ground arith in
    let shorter = length-put k c d (ground arith) in rw other (ground arith)

collect_commits_total :
    (d : Dict MemoryCommit) (cs : List MemoryCommit)
    → is_duplicate_free (map (λ c. c.memory_id) cs) ≡ true
    → ((k : String) → has k d ≡ true → contains k (map (λ c. c.memory_id) cs) ≡ false)
    → (out : Dict MemoryCommit) × (collect_commits d cs ≡ ok out)
      × (length out ≡ length d + length cs)
unfolding collect_commits is_duplicate_free contains
collect_commits_total d [] u f = (d, refl, ground arith)
collect_commits_total d (c ∷ cs) u f =
    let new : has c.memory_id d ≡ false = elim (Bool-cases (has c.memory_id d)) [
      | inl t ↦ absurd (clash (f c.memory_id t))
      | inr n ↦ n
    ] in
    let single : contains c.memory_id (map (λ c. c.memory_id) cs) ≡ false = ground arith in
    let (out, e, n) =
      collect_commits_total (put c.memory_id c d) cs (ground arith)
        (λ k t. later k single (has-put k c.memory_id c d) t) in
    let longer = length-put c.memory_id c d new in (out, rw (new, e), ground arith)
  where
    clash :
        (c.memory_id == c.memory_id || contains c.memory_id (map (λ c. c.memory_id) cs)) ≡ false → ⊥
    clash e = absurd (ground (arith, str_eq_self c.memory_id))

    later :
        (k : String)
        → contains c.memory_id (map (λ c. c.memory_id) cs) ≡ false
        → has k (put c.memory_id c d) ≡ (k == c.memory_id || has k d)
        → has k (put c.memory_id c d) ≡ true
        → contains k (map (λ c. c.memory_id) cs) ≡ false
    later k single e t = elim (Bool-cases (k == c.memory_id)) [
      | inl this ↦
          subst (λ i. contains i (map (λ c. c.memory_id) cs) ≡ false)
            (sym ((eq_iff k c.memory_id).0 this)) single
      | inr other ↦ let g = f k (ground arith) in ground arith
    ]

none_there : (k : String) → has {V = MemoryCommit} k [] ≡ true → ⊥
unfolding has contains keys
none_there k t = cc

has-sorted :
    (s : String) (d : Dict MemoryCommit)
    → contains s (sort str_leb (keys d)) ≡ true
    → has s d ≡ true
unfolding has
has-sorted s d m = sym (contains-sort s (keys d)) ∙ m

module _ (commits : Dict MemoryCommit)
    (named : (k : String) (c : MemoryCommit) → get k commits ≡ some c → c.memory_id ≡ k)
    (rank : String → ℕ)
    (falls : (k i : String) (c : MemoryCommit)
      → get k commits ≡ some c
      → c.supersedes_id ≡ some i
      → has i commits ≡ true
      → rank i < rank k) where
  -- What is being visited has a greater rank.
  abbrev IsAbove : String → Walk → Type 0
  IsAbove id w = (s : String) → contains s w.visiting ≡ true → rank id < rank s

  follow_total :
      (n : ℕ) (o : Option String) (w : Walk)
      → ((i : String) → o ≡ some i → has i commits ≡ true → Succeeds (visit commits n i w))
      → Succeeds (follow commits (visit commits n) o w)
  unfolding follow
  follow_total n none w h = (w, refl)
  follow_total n (some i) w h = elim (Bool-cases (has i commits)) [
    | inl t ↦ rw t (h i refl t)
    | inr f ↦ rw f (w, refl)
  ]

  visit_total :
      (n : ℕ) (id : String) (w : Walk)
      → has id commits ≡ true
      → rank id < n
      → IsAbove id w
      → Succeeds (visit commits n id w)
  unfolding visit contains
  visit_total zero id w t r a = absurd (no r)
    where
      no : rank id < 0 → ⊥
      no r = omega arith
  visit_total (suc n) id w t r a = elim (Bool-cases (contains id w.visited)) [
    | inl seen ↦ rw seen (w, refl)
    | inr new ↦
        let out : contains id w.visiting ≡ false = elim (Bool-cases (contains id w.visiting)) [
          | inl u ↦ absurd (self (a id u))
          | inr f ↦ f
        ] in
        rw (new, out)
          (Succeeds-bind (item (get id commits)) _ (Succeeds-item id commits t) λ c e.
            Succeeds-bind (follow commits (visit commits n) c.supersedes_id (enter id w)) _
              (follow_total n c.supersedes_id (enter id w) λ i s k.
                let down = falls id i c (item-eq-ok (get id commits) e) s k in
                visit_total n i (enter id w) k (omega arith) (λ s m. elim (Bool-cases (s == id)) [
                  | inl this ↦ subst (λ x. rank i < rank x) (sym ((eq_iff s id).0 this)) down
                  | inr other ↦ let up = a s (ground arith) in omega arith
                ]))
              (λ v _. (leave id c v, refl)))
  ]
    where
      self : rank id < rank id → ⊥
      self r = omega arith

  visit_each_total :
      (n : ℕ) (ids : List String) (w : Walk)
      → IsWalk commits named w
      → w.visiting ≡ []
      → ((s : String) → contains s ids ≡ true → (has s commits ≡ true) × (rank s < n))
      → Succeeds (visit_each commits n ids w)
  unfolding visit_each contains
  visit_each_total n [] w k e h = (w, refl)
  visit_each_total n (id ∷ ids) w k e h =
      let (t, r) = h id (ground (arith, str_eq_self id)) in
      Succeeds-bind (visit commits n id w) _
        (visit_total n id w t r (λ s m. absurd (nowhere s (subst (λ l. contains s l ≡ true) e m))))
        (λ v q.
          let (goes, _) = visit-Goes commits named n id w v k q in
          visit_each_total n ids v goes.walk (goes.same ∙ e) (λ s m. h s (ground arith)))

-- A log whose identifiers are distinct, and whose commits have ranks below their number that fall
-- from each commit to the one it supersedes, so that there is no cycle, is ordered.
pub order_commits_total :
    (log : List MemoryCommit) (rank : String → ℕ)
    → is_duplicate_free (map (λ c. c.memory_id) log) ≡ true
    → ((c : MemoryCommit) → Memᴰ c log → rank c.memory_id < length log)
    → ((c x : MemoryCommit)
        → Memᴰ c log
        → Memᴰ x log
        → c.supersedes_id ≡ some x.memory_id
        → rank x.memory_id < rank c.memory_id)
    → Succeeds (order_commits log)
unfolding order_commits
order_commits_total log rank single below falls =
    let (commits, e, longer) =
      collect_commits_total [] log single (λ k t. absurd (none_there k t)) in
    let size : length commits ≡ length log = longer ∙ omega arith in
    let r = collect_commits-IsCollected [] log e in
    let dict : commits ≡ indexed (λ c. c.memory_id) log = r.by_id ∙ indexed-shut log in
    let named : (k : String) (c : MemoryCommit) → get k commits ≡ some c → c.memory_id ≡ k =
      λ k c g. indexed-identity (λ c. c.memory_id) k c log (subst (λ d. get k d ≡ some c) dict g) in
    let in_log : (k : String) (c : MemoryCommit) → get k commits ≡ some c → Memᴰ c log =
      λ k c g. indexed-Memᴰ (λ c. c.memory_id) k c log (subst (λ d. get k d ≡ some c) dict g) in
    rw e (
      Succeeds-bind
        (visit_each commits (length commits) (sort str_leb (keys commits))
          (record { visiting = []; visited = []; ordered = [] }))
        _
        (visit_each_total commits named rank
          (λ k i c g s t.
            let (x, gx) = has-get i commits t in
            subst (λ j. rank i < rank j) (named k c g)
              (subst (λ j. rank j < rank c.memory_id) (named i x gx)
                (falls c x (in_log k c g) (in_log i x gx) (s ∙ ap some (sym (named i x gx))))))
          (length commits) (sort str_leb (keys commits))
          (record { visiting = []; visited = []; ordered = [] })
          (record { follows = tt; ids = refl; members = tt }) refl
          (λ s m.
            let here = has-sorted s commits m in
            let (x, gx) = has-get s commits here in
            (
              here,
              subst (λ j. rank j < length commits) (named s x gx)
                  (subst (λ n. rank x.memory_id < n) (sym size) (below x (in_log s x gx))),
            )))
        (λ w _. (w.ordered, refl)))
