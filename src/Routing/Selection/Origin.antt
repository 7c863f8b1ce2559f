-- ===== src/Routing/Selection/Origin.antt =====
-- Where a selected route comes from: `select_route` of src/agent_continuity/routing.py chooses only
-- routes of the manifest whose own consideration found no reason against them.
use local_ai_coding_agent.Common.{
  String, List, [], ◌∷◌, Option, none, some, true, ◌≡◌, refl, sym, ◌∙◌, arith, get, All, All-keep,
  All-sort, ok, map_result, map_result-cons, >>=-eq-ok, sort, str_leb, ◌==◌, eq_iff, Bool-cases,
  inl, inr, subst, keys, some_inj, ap,
}
use local_ai_coding_agent.Routing.Types.{
  RoutingManifest, RouteDefinition, RoutingRequest, RuntimeState, RouteConsideration,
}
use local_ai_coding_agent.Routing.WellFormed.{IsWellFormed}
use local_ai_coding_agent.Routing.Eligibility.{is_production, consider_route}
use local_ai_coding_agent.Routing.Selection.Ranking.{
  select_non_primary, select_over, proven_teams, first_or, singles, key_leb, team_leb, is_single,
  is_proven_team,
}
use local_ai_coding_agent.Routing.Selection.{
  is_among, select_by_mode, select_production, select_candidate, consider_at, considerations, by_id,
  eligible_routes, select_by_mode, select_production, select_candidate,
}
use local_ai_coding_agent.Routing.Eligibility.{is_production}
use local_ai_coding_agent.Routing.Totality.Telemetry.{consider_at-id}

-- `c` is the consideration of the manifest's route at its identifier.
abbrev pub IsConsideration :
    RoutingManifest → RoutingRequest → RuntimeState → RouteConsideration → Type 0
IsConsideration m q rt c =
    (r : RouteDefinition) × (get c.route_id m.routes ≡ some r) × (consider_route m q rt r ≡ ok c)

-- `r` is a route of the manifest, and its consideration is eligible.
abbrev pub IsEligible : RoutingManifest → RoutingRequest → RuntimeState → RouteDefinition → Type 0
IsEligible m q rt r =
    (c : RouteConsideration) × (get c.route_id m.routes ≡ some r)
    × (consider_route m q rt r ≡ ok c)
    × (c.eligible ≡ true)

abbrev pub AllSelected : (RouteDefinition → Type 0) → Option RouteDefinition → Type 0
AllSelected P none = Unit
AllSelected P (some r) = P r

by_id-All :
    (P : RouteConsideration → Type 0) (i : String) (cs : List RouteConsideration)
    {d : RouteConsideration}
    → All P cs
    → by_id i cs ≡ some d
    → P d × (d.route_id ≡ i)
unfolding by_id
by_id-All P i [] h e = absurd (cc)
by_id-All P i (c ∷ cs) {d} h e = go (by_id i cs) refl (λ x k. by_id-All P i cs {d = x} h.1 k)
  where
    go :
        (o : Option RouteConsideration)
        → by_id i cs ≡ o
        → ((x : RouteConsideration) → by_id i cs ≡ some x → P x × (x.route_id ≡ i))
        → P d × (d.route_id ≡ i)
    go (some x) k ih = subst (λ y. P y × (y.route_id ≡ i)) (some_inj (rw (k, by_id) at e)) (ih x k)
    go none k ih = elim (Bool-cases (i == c.route_id)) [
      | inl t ↦
          subst (λ y. P y × (y.route_id ≡ i)) (some_inj (rw t at (rw (k, by_id) at e)))
            (h.0, sym ((eq_iff i c.route_id).0 t))
      | inr f ↦ absurd (cc (rw f at (rw (k, by_id) at e)))
    ]

pub eligible_routes-All :
    (m : RoutingManifest) (q : RoutingRequest) (rt : RuntimeState) (cs : List RouteConsideration)
    {es : List RouteDefinition}
    → All (IsConsideration m q rt) cs
    → eligible_routes m cs ≡ ok es
    → All (IsEligible m q rt) es
unfolding eligible_routes
eligible_routes-All m q rt [] {es} h e = subst (All (IsEligible m q rt)) {x = []} {y = es} (cc) tt
eligible_routes-All m q rt (c ∷ cs) {es} ((r, er, k), hs) e = elim (Bool-cases c.eligible) [
  | inl t ↦
      let (rs, f, g) =
        >>=-eq-ok (eligible_routes m cs) (λ rs. ok (r ∷ rs)) (rw er at (rw t at e)) in
      subst (All (IsEligible m q rt)) {x = r ∷ rs} {y = es} (cc)
        ((c, er, k, t), eligible_routes-All m q rt cs hs f)
  | inr f ↦ eligible_routes-All m q rt cs hs (rw f at e)
]

select_over-All :
    (P : RouteDefinition → Type 0) (bs rs : List RouteDefinition)
    → All P bs
    → All P rs
    → AllSelected P (select_over bs rs)
unfolding select_over proven_teams
select_over-All P [] rs h k = tt
select_over-All P (b ∷ bs) rs h k =
    first (sort team_leb (proven_teams b rs))
      (All-sort P team_leb (proven_teams b rs) (All-keep P (is_proven_team b) rs k))
  where
    first : (ts : List RouteDefinition) → All P ts → P (first_or ts b)
    first [] a = h.0
    first (t ∷ ts) a = a.0

pub select_non_primary-All :
    (P : RouteDefinition → Type 0) (rs : List RouteDefinition)
    → All P rs
    → AllSelected P (select_non_primary rs)
unfolding select_non_primary singles
select_non_primary-All P rs h =
    select_over-All P (sort key_leb (singles rs)) rs
      (All-sort P key_leb (singles rs) (All-keep P (λ r. is_single r.composition) rs h)) h

is_among-All :
    (P : RouteDefinition → Type 0) (i : String) (rs : List RouteDefinition)
    → All P rs
    → is_among i rs ≡ true
    → (r : RouteDefinition) × P r × (r.id ≡ i)
unfolding is_among
is_among-All P i [] h a = absurd (cc)
is_among-All P i (r ∷ rs) h a = elim (Bool-cases (i == r.id)) [
  | inl e ↦ (r, h.0, sym ((eq_iff i r.id).0 e))
  | inr e ↦ is_among-All P i rs h.1 (rw e at a)
]

module _ {m : RoutingManifest} (w : IsWellFormed m) (q : RoutingRequest) (rt : RuntimeState) where
  consider_at-IsConsideration :
      (i : String) {c : RouteConsideration} → consider_at m q rt i ≡ ok c → IsConsideration m q rt c
  unfolding consider_at
  consider_at-IsConsideration i {c} h = go (get i m.routes) refl
    where
      go : (o : Option RouteDefinition) → get i m.routes ≡ o → IsConsideration m q rt c
      go none e = absurd (ground arith)
      go (some r) e = (r, rw (consider_at-id w q rt i h) e, rw (e, consider_at) at h)

  map_result-All :
      (ks : List String) {cs : List RouteConsideration}
      → map_result (consider_at m q rt) ks ≡ ok cs
      → All (IsConsideration m q rt) cs
  map_result-All [] {cs} h = subst (All (IsConsideration m q rt)) {x = []} {y = cs} (cc) tt
  map_result-All (k ∷ ks) {cs} h =
      let (c, ds, e, es, eq) = map_result-cons (consider_at m q rt) k ks h in
      subst (All (IsConsideration m q rt)) (sym eq)
        (consider_at-IsConsideration k e, map_result-All ks es)

  pub considerations-All :
      {cs : List RouteConsideration}
      → considerations m q rt ≡ ok cs
      → All (IsConsideration m q rt) cs
  unfolding considerations
  considerations-All h = map_result-All (sort str_leb (keys m.routes)) h

  -- The consideration under a route's own identifier is the route's.
  pub by_id-IsConsideration :
      {cs : List RouteConsideration} (i : String) (r : RouteDefinition) {c : RouteConsideration}
      → considerations m q rt ≡ ok cs
      → get i m.routes ≡ some r
      → by_id r.id cs ≡ some c
      → (get c.route_id m.routes ≡ some r) × (consider_route m q rt r ≡ ok c)
  by_id-IsConsideration {cs} i r {c} ecs er e =
      let ((s, es, k), eq) =
        by_id-All (IsConsideration m q rt) r.id cs (considerations-All ecs) e in
      let at_id : get c.route_id m.routes ≡ some r =
        ap (λ k. get k m.routes) (eq ∙ w.keyed i r er) ∙ er in
      let same : s ≡ r = some_inj (sym es ∙ at_id) in (at_id, rw same at k)

  candidate-IsEligible :
      (o : Option String) (es : List RouteDefinition) {selected : Option RouteDefinition}
      → All (IsEligible m q rt) es
      → select_candidate m o es ≡ ok selected
      → AllSelected (IsEligible m q rt) selected
  unfolding select_candidate
  candidate-IsEligible o [] {selected} h e =
      subst (AllSelected (IsEligible m q rt)) {x = none} {y = selected} (cc) tt
  candidate-IsEligible none (x ∷ xs) h e = absurd (cc)
  candidate-IsEligible (some i) (x ∷ xs) {selected} h e = go (get i m.routes) refl
    where
      P : RouteDefinition → Type 0
      P = IsEligible m q rt

      among :
          (r : RouteDefinition) → get i m.routes ≡ some r → (is_among r.id (x ∷ xs) ≡ true) → P r
      among r er a =
          let (s, (c, ec, k, l), same) = is_among-All P r.id (x ∷ xs) h a in
          let at_key : c.route_id ≡ i = sym (w.keyed c.route_id s ec) ∙ (same ∙ w.keyed i r er) in
          let eq : s ≡ r = some_inj (sym ec ∙ (ap (λ k. get k m.routes) at_key ∙ er)) in
          subst P eq (c, ec, k, l)

      go : (o : Option RouteDefinition) → get i m.routes ≡ o → AllSelected P selected
      go none er = absurd (ground arith)
      go (some r) er = elim (Bool-cases (is_among r.id (x ∷ xs))) [
        | inl t ↦ subst (AllSelected P) {x = some r} {y = selected} (ground arith) (among r er t)
        | inr f ↦ subst (AllSelected P) {x = none} {y = selected} (ground arith) tt
      ]

  -- The selected route, in either mode, is eligible by its own consideration.
  pub selected-IsEligible :
      {cs : List RouteConsideration} (es : List RouteDefinition) (primary : RouteDefinition)
      {selected : Option RouteDefinition}
      → considerations m q rt ≡ ok cs
      → eligible_routes m cs ≡ ok es
      → get m.policy.cloud_primary_route_id m.routes ≡ some primary
      → select_by_mode m q cs es primary ≡ ok selected
      → AllSelected (IsEligible m q rt) selected
  unfolding select_by_mode select_production
  selected-IsEligible {cs} es primary {selected} ecs ees ep h =
      elim (Bool-cases (is_production q.mode)) [
        | inl p ↦ go (by_id primary.id cs) refl (rw p at h)
        | inr n ↦ candidate-IsEligible q.candidate_route_id es all_eligible (rw n at h)
      ]
    where
      P : RouteDefinition → Type 0
      P = IsEligible m q rt

      all_eligible : All P es
      all_eligible = eligible_routes-All m q rt cs (considerations-All ecs) ees

      go :
          (o : Option RouteConsideration)
          → by_id primary.id cs ≡ o
          → select_production cs es primary ≡ ok selected
          → AllSelected P selected
      go none e k = absurd (ground arith)
      go (some c) e k =
          let (ec, kc) = by_id-IsConsideration m.policy.cloud_primary_route_id primary ecs ep e in
          elim (Bool-cases c.eligible) [
            | inl t ↦
                subst (AllSelected P) {x = some primary} {y = selected} (ground arith)
                  (c, ec, kc, t)
            | inr f ↦
                subst (AllSelected P) {x = select_non_primary es} {y = selected} (ground arith)
                  (select_non_primary-All P es all_eligible)
          ]
