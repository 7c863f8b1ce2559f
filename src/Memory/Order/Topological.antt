-- ===== src/Memory/Order/Topological.antt =====
-- The order of a replay's commits, in `_projection_order` of src/agent_continuity/memory_store.py:
-- what `order_commits` returns has every commit once, behind the one that it supersedes.
use local_ai_coding_agent.Common.{
  ℕ, zero, suc, Bool, true, false, not, ◌||◌, String, List, [], ◌∷◌, ◌++◌, keep, Memᴰ, Option, none,
  some, ok, ok_inj, bind_inv, if_inv, item, item-eq-ok, ◌≡◌, refl, sym, subst, ap, ◌∙◌, ◌⊎◌, arith,
  inl, inr, Bool-cases, some_inj, eq_iff, str_eq_self, All, All-append, Dict, get, has, contains,
  ◌==◌,
}
use local_ai_coding_agent.Memory.Order.{
  MemoryCommit, Walk, enter, leave, cycle, follow, visit, visit_each,
}

-- A commit stands behind the known one that it supersedes.
abbrev pub IsBehind : (String → Bool) → MemoryCommit → List String → Type 0
IsBehind known c seen =
    (i : String) → c.supersedes_id ≡ some i → known i ≡ true → contains i seen ≡ true

-- Each commit is new, and stands behind the known one that it supersedes.
abbrev pub Follows : (String → Bool) → List String → List MemoryCommit → Type 0
Follows known seen [] = Unit
Follows known seen (c ∷ cs) =
    (contains c.memory_id seen ≡ false)
    × IsBehind known c seen
    × Follows known (c.memory_id ∷ seen) cs

-- The identifiers of the commits, the last one first, before others.
abbrev pub ids_onto : List MemoryCommit → List String → List String
ids_onto [] seen = seen
ids_onto (c ∷ cs) seen = ids_onto cs (c.memory_id ∷ seen)

ids_onto-snoc :
    (cs : List MemoryCommit) (c : MemoryCommit) (seen : List String)
    → ids_onto (cs ++ c ∷ []) seen ≡ c.memory_id ∷ ids_onto cs seen
ids_onto-snoc [] c seen = refl
ids_onto-snoc (x ∷ cs) c seen = ids_onto-snoc cs c (x.memory_id ∷ seen)

module _ (known : String → Bool) where
  Follows-snoc :
      (seen : List String) (cs : List MemoryCommit) (c : MemoryCommit)
      → Follows known seen cs
      → contains c.memory_id (ids_onto cs seen) ≡ false
      → IsBehind known c (ids_onto cs seen)
      → Follows known seen (cs ++ c ∷ [])
  Follows-snoc seen [] c f new behind = (new, behind, tt)
  Follows-snoc seen (x ∷ cs) c (a, b, f) new behind =
      (a, b, Follows-snoc (x.memory_id ∷ seen) cs c f new behind)

keep-absent :
    (id : String) (xs : List String) → contains id xs ≡ false → keep (λ x. not (x == id)) xs ≡ xs
unfolding contains
keep-absent id [] h = refl
keep-absent id (x ∷ xs) h =
    let different : (x == id) ≡ false = ground (arith, eq_iff x id, eq_iff id x) in
    rw different (ap (λ l. x ∷ l) (keep-absent id xs (ground arith)))

module _ (commits : Dict MemoryCommit)
    (named : (k : String) (c : MemoryCommit) → get k commits ≡ some c → c.memory_id ≡ k) where
  abbrev known : String → Bool
  known i = has i commits

  -- What is ordered so far: commits of the log in order, and their identifiers are the visited ones.
  pub record IsWalk (w : Walk) : Type 0 where
    pub follows : Follows known [] w.ordered
    pub ids : w.visited ≡ ids_onto w.ordered []
    pub members : All (λ c. get c.memory_id commits ≡ some c) w.ordered

  -- A visit adds to what is visited, but nothing that is being visited.
  pub record Goes (w after : Walk) : Type 0 where
    pub walk : IsWalk after
    pub same : after.visiting ≡ w.visiting
    pub grows : (s : String) → contains s w.visited ≡ true → contains s after.visited ≡ true
    pub spares :
        (s : String)
        → contains s w.visiting ≡ true
        → contains s after.visited ≡ contains s w.visited

  Goes-refl : (w : Walk) → IsWalk w → Goes w w
  Goes-refl w k = record { walk = k; same = refl; grows = λ s h. h; spares = λ s h. refl }

  abbrev Visits : ℕ → Type 0
  Visits n =
      (id : String) (w after : Walk)
      → IsWalk w
      → visit commits n id w ≡ ok after
      → Goes w after × (contains id after.visited ≡ true)

  follow-Goes :
      (n : ℕ)
      → Visits n
      → (o : Option String) (w : Walk) {after : Walk} → IsWalk w
      → follow commits (visit commits n) o w ≡ ok after
      → Goes w after
        × ((i : String) → o ≡ some i → known i ≡ true → contains i after.visited ≡ true)
  unfolding follow
  follow-Goes n visits none w k h =
      subst
        (λ v.
          Goes w v × ((i : String) → none ≡ some i → known i ≡ true → contains i v.visited ≡ true))
        (ok_inj h) (Goes-refl w k, λ i e _. absurd (cc))
  follow-Goes n visits (some j) w {after} k h =
      if_inv (has j commits) (visit commits n j w) (ok w) h
        (λ t h1.
          let (goes, done) = visits j w after k h1 in
          (goes, λ i e _. subst (λ x. contains x after.visited ≡ true) (some_inj e) done))
        (λ f h1.
          subst
            (λ v.
              Goes w v
              × ((i : String) → some j ≡ some i → known i ≡ true → contains i v.visited ≡ true))
            (ok_inj h1) (Goes-refl w k, λ i e t. absurd (unknown i (some_inj e) t f)))
    where
      unknown : (i : String) → j ≡ i → known i ≡ true → has j commits ≡ false → ⊥
      unknown i e t f = cc

  pub enter-IsWalk : (id : String) (w : Walk) → IsWalk w → IsWalk (enter id w)
  enter-IsWalk id w k = record { follows = k.follows; ids = k.ids; members = k.members }

  leave-Goes :
      (id : String) (c : MemoryCommit) (w after : Walk)
      → get id commits ≡ some c
      → contains id w.visited ≡ false
      → contains id w.visiting ≡ false
      → Goes (enter id w) after
      → ((i : String) → c.supersedes_id ≡ some i → known i ≡ true → contains i after.visited ≡ true)
      → Goes w (leave id c after) × (contains id (leave id c after).visited ≡ true)
  unfolding contains
  leave-Goes id c w after e new out goes reached =
      let name = named id c e in
      let untouched : contains id after.visited ≡ false =
        goes.spares id (ground (arith, str_eq_self id)) ∙ new in
      let k = goes.walk in
      (
        record {
          walk = record {
            follows =
                Follows-snoc known [] after.ordered c k.follows
                  (rw name (subst (λ l. contains id l ≡ false) k.ids untouched))
                  (λ i s t. subst (λ l. contains i l ≡ true) k.ids (reached i s t));
            ids =
                ap (λ x. x ∷ after.visited) (sym name)
                ∙ ap (λ l. c.memory_id ∷ l) k.ids
                ∙ sym (ids_onto-snoc after.ordered c []);
            members =
                All-append (λ c. get c.memory_id commits ≡ some c) after.ordered (c ∷ []) k.members
                  (subst (λ k. get k commits ≡ some c) (sym name) e, tt);
          };
          same = ap (keep (λ x. not (x == id))) goes.same ∙ dropped;
          grows = λ s h. later s (goes.grows s h);
          spares = λ s h. other s h;
        },
        ground (arith, str_eq_self id),
      )
    where
      dropped : keep (λ x. not (x == id)) (id ∷ w.visiting) ≡ w.visiting
      dropped = rw (str_eq_self id) (keep-absent id w.visiting out)

      later :
          (s : String)
          → contains s after.visited ≡ true
          → (s == id || contains s after.visited) ≡ true
      later s h = ground arith

      other :
          (s : String)
          → contains s w.visiting ≡ true
          → (s == id || contains s after.visited) ≡ contains s w.visited
      other s h =
          let apart : (s == id) ≡ false = ground (arith, eq_iff s id, different s h) in
          rw apart (goes.spares s (rw (apart, h)))
        where
          different : (s : String) → contains s w.visiting ≡ true → s ≡ id → ⊥
          different s h e = cc

  pub visit-Goes : (n : ℕ) → Visits n
  unfolding visit
  visit-Goes zero id w after k h =
      if_inv (contains id w.visited) (ok w) cycle h
        (λ t h1.
          subst (λ v. Goes w v × (contains id v.visited ≡ true)) (ok_inj h1) (Goes-refl w k, t))
        (λ f h1. absurd (cc))
  visit-Goes (suc n) id w after k h =
      if_inv (contains id w.visited) (ok w) _ h
        (λ t h1.
          subst (λ v. Goes w v × (contains id v.visited ≡ true)) (ok_inj h1) (Goes-refl w k, t))
        (λ new h1.
          if_inv (contains id w.visiting) cycle _ h1 (λ t h2. absurd (cc))
            (λ out h2. bind_inv (item (get id commits)) _ h2 λ c e h3.
              bind_inv (follow commits (visit commits n) c.supersedes_id (enter id w)) _ h3
                λ v e1 h4.
                  let (goes, reached) =
                    follow-Goes n (visit-Goes n) c.supersedes_id (enter id w) (enter-IsWalk id w k)
                      e1 in
                  subst (λ v. Goes w v × (contains id v.visited ≡ true)) (ok_inj h4)
                    (leave-Goes id c w v (item-eq-ok (get id commits) e) new out goes reached)))

  -- Every identifier of a list is visited.
  pub visit_each-Goes :
      (n : ℕ) (ids : List String) (w after : Walk)
      → IsWalk w
      → visit_each commits n ids w ≡ ok after
      → Goes w after × ((s : String) → contains s ids ≡ true → contains s after.visited ≡ true)
  unfolding visit_each contains
  visit_each-Goes n [] w after k h =
      subst (λ v. Goes w v × ((s : String) → false ≡ true → contains s v.visited ≡ true)) (ok_inj h)
        (Goes-refl w k, λ s e. absurd (cc))
  visit_each-Goes n (id ∷ ids) w after k h = bind_inv (visit commits n id w) _ h λ v e h1.
      let (first, done) = visit-Goes n id w v k e in
      let (rest, all_done) = visit_each-Goes n ids v after first.walk h1 in
      (
        record {
          walk = rest.walk;
          same = rest.same ∙ first.same;
          grows = λ s t. rest.grows s (first.grows s t);
          spares = λ s t.
              rest.spares s (subst (λ l. contains s l ≡ true) (sym first.same) t)
              ∙ first.spares s t;
        },
        λ s t. elim (Bool-cases (s == id)) [
          | inl this ↦
              rest.grows s
                (subst (λ x. contains x v.visited ≡ true) (sym ((eq_iff s id).0 this)) done)
          | inr other ↦ all_done s (ground arith)
        ],
      )

-- An identifier that the ordered commits have belongs to one of them.
pub ids_onto-Memᴰ :
    (s : String) (cs : List MemoryCommit) (seen : List String)
    → contains s (ids_onto cs seen) ≡ true
    → (contains s seen ≡ true) ⊎ ((c : MemoryCommit) × Memᴰ c cs × (c.memory_id ≡ s))
ids_onto-Memᴰ s [] seen h = inl h
ids_onto-Memᴰ s (c ∷ cs) seen h = elim (ids_onto-Memᴰ s cs (c.memory_id ∷ seen) h) [
  | inl t ↦ elim (Bool-cases (s == c.memory_id)) [
    | inl this ↦ inr (c, Memᴰ.head refl, sym ((eq_iff s c.memory_id).0 this))
    | inr other ↦ inl (unfold contains in ground arith)
  ]
  | inr (x, m, e) ↦ inr (x, Memᴰ.tail m, e)
]
