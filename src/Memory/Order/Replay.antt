-- ===== src/Memory/Order/Replay.antt =====
-- `ordered_commits` in `_projection_order` of src/agent_continuity/memory_store.py, as a whole: which
-- commits it has, in which order, and when there is none.
use local_ai_coding_agent.Common.{
  Bool, true, false, not, ◌||◌, String, List, [], ◌∷◌, map, Memᴰ, some, is_none, ok, ok_inj,
  bind_inv, if_inv, ◌≡◌, refl, sym, subst, ap, ◌∙◌, arith, inl, inr, Bool-cases, some_inj, eq_iff,
  str_eq_self, All-Memᴰ, Dict, get, has, put, keys, contains, get-put, has-eq, get-has, ◌==◌,
  length, is_duplicate_free, indexed_from, indexed, indexed-get, indexed-Memᴰ, indexed-identity,
  contains-sort, sort, str_leb,
}
use local_ai_coding_agent.Memory.Order.{
  MemoryCommit, Walk, visit_each, collect_commits, order_commits,
}
use local_ai_coding_agent.Memory.Order.Topological.{Follows, visit_each-Goes, ids_onto-Memᴰ}

pub has-put :
    (j k : String) (c : MemoryCommit) (d : Dict MemoryCommit)
    → has j (put k c d) ≡ (j == k || has j d)
has-put j k c d = elim (Bool-cases (j == k)) [
  | inl t ↦ has-eq j (put k c d) ∙ ap (λ o. not (is_none o)) (get-put j k c d) ∙ rw t
  | inr f ↦
      has-eq j (put k c d) ∙ ap (λ o. not (is_none o)) (get-put j k c d) ∙ rw (f, has-eq j d) refl
]

-- The dictionary of the commits is the one by their identifiers, which are distinct.
pub record IsCollected (d : Dict MemoryCommit) (cs : List MemoryCommit) (out : Dict MemoryCommit)
    : Type 0 where
  pub by_id : out ≡ indexed_from (λ c. c.memory_id) d cs
  pub distinct_ids : is_duplicate_free (map (λ c. c.memory_id) cs) ≡ true
  pub fresh : (k : String) → has k d ≡ true → contains k (map (λ c. c.memory_id) cs) ≡ false

pub collect_commits-IsCollected :
    (d : Dict MemoryCommit) (cs : List MemoryCommit) {out : Dict MemoryCommit}
    → collect_commits d cs ≡ ok out
    → IsCollected d cs out
unfolding collect_commits indexed_from is_duplicate_free contains
collect_commits-IsCollected d [] h = record {
  by_id = sym (ok_inj h);
  distinct_ids = refl;
  fresh = λ k _. refl;
}
collect_commits-IsCollected d (c ∷ cs) h =
    if_inv (has c.memory_id d) _ (collect_commits (put c.memory_id c d) cs) h (λ t h1. absurd (cc))
      (λ new h1.
        let r = collect_commits-IsCollected (put c.memory_id c d) cs h1 in
        let here : has c.memory_id (put c.memory_id c d) ≡ true =
          has-put c.memory_id c.memory_id c d ∙ rw (str_eq_self c.memory_id) in
        record {
          by_id = r.by_id;
          distinct_ids = rw (r.fresh c.memory_id here, r.distinct_ids);
          fresh = λ k t.
              let apart : (k == c.memory_id) ≡ false =
                ground (arith, eq_iff k c.memory_id, clash k t new) in
              rw (apart, r.fresh k (has-put k c.memory_id c d ∙ rw (apart, t)));
        })
  where
    clash : (k : String) → has k d ≡ true → has c.memory_id d ≡ false → k ≡ c.memory_id → ⊥
    clash k t f e = cc

-- The order of a replay: it has the commits of the log and no others, each once, and each behind the
-- commit of the log that it supersedes.
pub record IsReplayOrder (log ordered : List MemoryCommit) : Type 0 where
  pub complete : (c : MemoryCommit) → Memᴰ c log → Memᴰ c ordered
  pub sound : (c : MemoryCommit) → Memᴰ c ordered → Memᴰ c log
  pub follows : Follows (λ i. contains i (map (λ c. c.memory_id) log)) [] ordered

Follows-known :
    (known more : String → Bool) (seen : List String) (cs : List MemoryCommit)
    → ((i : String) → more i ≡ true → known i ≡ true)
    → Follows known seen cs
    → Follows more seen cs
Follows-known known more seen [] f h = tt
Follows-known known more seen (c ∷ cs) f (a, b, h) =
    (a, λ i e t. b i e (f i t), Follows-known known more (c.memory_id ∷ seen) cs f h)

pub id-Memᴰ :
    (i : String) (cs : List MemoryCommit)
    → contains i (map (λ c. c.memory_id) cs) ≡ true
    → (c : MemoryCommit) × Memᴰ c cs × (c.memory_id ≡ i)
unfolding contains
id-Memᴰ i [] h = absurd (cc)
id-Memᴰ i (c ∷ cs) h = elim (Bool-cases (i == c.memory_id)) [
  | inl t ↦ (c, Memᴰ.head refl, sym ((eq_iff i c.memory_id).0 t))
  | inr f ↦ let (x, m, e) = id-Memᴰ i cs (ground arith) in (x, Memᴰ.tail m, e)
]

pub indexed-shut :
    (cs : List MemoryCommit) → indexed_from (λ c. c.memory_id) [] cs ≡ indexed (λ c. c.memory_id) cs
unfolding indexed
indexed-shut cs = refl

pub key-here :
    (k : String) (d : Dict MemoryCommit) {c : MemoryCommit}
    → get k d ≡ some c
    → contains k (keys d) ≡ true
unfolding has
key-here k d g = get-has k d g

pub nowhere : (s : String) → contains s [] ≡ true → ⊥
unfolding contains
nowhere s t = cc

-- The commits that are returned are those of the log, each once, and each stands behind the commit
-- of the log that it supersedes.
pub order_commits-IsReplayOrder :
    (log : List MemoryCommit) {ordered : List MemoryCommit}
    → order_commits log ≡ ok ordered
    → IsReplayOrder log ordered
unfolding order_commits
order_commits-IsReplayOrder log {ordered} h = bind_inv (collect_commits [] log) _ h λ commits e h1.
    let r = collect_commits-IsCollected [] log e in
    let start : Walk = record { visiting = []; visited = []; ordered = [] } in
    let ids = sort str_leb (keys commits) in
    let named : (k : String) (c : MemoryCommit) → get k commits ≡ some c → c.memory_id ≡ k =
      λ k c g.
        indexed-identity (λ c. c.memory_id) k c log
          (subst (λ d. get k d ≡ some c) (r.by_id ∙ indexed-shut log) g) in
    bind_inv (visit_each commits (length commits) ids start) _ h1 λ w e1 h2.
      let (goes, done) =
        visit_each-Goes commits named (length commits) ids start w
          (record { follows = tt; ids = refl; members = tt }) e1 in
      let k = goes.walk in
      let listed : (c : MemoryCommit) → Memᴰ c log → get c.memory_id commits ≡ some c = λ c m.
        subst (λ d. get c.memory_id d ≡ some c) (sym (r.by_id ∙ indexed-shut log))
          (indexed-get (λ c. c.memory_id) c log r.distinct_ids m) in
      subst (IsReplayOrder log) (ok_inj h2) (record {
        complete = λ c m.
            let g = listed c m in
            let visited =
              done c.memory_id
                (contains-sort c.memory_id (keys commits) ∙ key-here c.memory_id commits g) in
            elim (ids_onto-Memᴰ c.memory_id w.ordered []
              (subst (λ l. contains c.memory_id l ≡ true) k.ids visited)) [
                | inl t ↦ absurd (nowhere c.memory_id t)
                | inr (x, n, q) ↦
                    let gx =
                      All-Memᴰ (λ c. get c.memory_id commits ≡ some c) x w.ordered k.members n in
                    subst (λ y. Memᴰ y w.ordered)
                      (some_inj (sym gx ∙ ap (λ i. get i commits) q ∙ g)) n
              ];
        sound = λ c n.
            indexed-Memᴰ (λ c. c.memory_id) c.memory_id c log
              (subst (λ d. get c.memory_id d ≡ some c) (r.by_id ∙ indexed-shut log)
                (All-Memᴰ (λ c. get c.memory_id commits ≡ some c) c w.ordered k.members n));
        follows =
            Follows-known (λ i. has i commits) (λ i. contains i (map (λ c. c.memory_id) log)) []
              w.ordered
              (λ i t.
                let (x, m, q) = id-Memᴰ i log t in
                get-has i commits (subst (λ j. get j commits ≡ some x) q (listed x m)))
              k.follows;
      })
