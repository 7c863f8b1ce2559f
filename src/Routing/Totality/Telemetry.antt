-- ===== src/Routing/Totality/Telemetry.antt =====
-- The considerations of `select_route` in src/agent_continuity/routing.py: one for each route, in
-- the order of identifiers.
use local_ai_coding_agent.Common.{
  String, List, [], ◌∷◌, Option, none, some, true, ◌≡◌, refl, sym, ◌∙◌, arith, get, has, keys,
  Succeeds, Succeeds-map_result, contains, contains-sort, has-get, ok, map_result, map_result-cons,
  sort, str_leb, ◌==◌, Bool-cases, inl, inr, ap,
}
use local_ai_coding_agent.Routing.Types.{
  RoutingManifest, RouteDefinition, RoutingRequest, RuntimeState, RouteConsideration,
}
use local_ai_coding_agent.Routing.Eligibility.{consider_route}
use local_ai_coding_agent.Routing.Selection.{consider_at, considerations, by_id}
use local_ai_coding_agent.Routing.WellFormed.{IsWellFormed}
use local_ai_coding_agent.Routing.Validation.Soundness.{IsValidated, route-IsKnown}
use local_ai_coding_agent.Routing.Totality.{consider_route_total}

abbrev pub ids : List RouteConsideration → List String
ids [] = []
ids (c ∷ cs) = c.route_id ∷ ids cs

pub consider_route-id :
    (m : RoutingManifest) (q : RoutingRequest) (rt : RuntimeState) (r : RouteDefinition)
    {c : RouteConsideration}
    → consider_route m q rt r ≡ ok c
    → c.route_id ≡ r.id
unfolding consider_route
consider_route-id m q rt r h = ground arith

-- The consideration that `by_id` finds is one of the list's, under its own identifier.
pub by_id-IsIn :
    (i : String) (cs : List RouteConsideration)
    → contains i (ids cs) ≡ true
    → (c : RouteConsideration) × (by_id i cs ≡ some c)
unfolding by_id contains
by_id-IsIn i [] h = absurd (cc)
by_id-IsIn i (c ∷ cs) h = elim (Bool-cases (i == c.route_id)) [
  | inl e ↦ here (by_id i cs) refl e
  | inr e ↦ let (d, k) = by_id-IsIn i cs (rw e at h) in (d, rw k)
]
  where
    here :
        (o : Option RouteConsideration)
        → by_id i cs ≡ o
        → (i == c.route_id) ≡ true
        → (d : RouteConsideration) × (by_id i (c ∷ cs) ≡ some d)
    here (some d) e k = (d, rw (e, by_id))
    here none e k = (c, rw (e, by_id) (rw k))

module _ {m : RoutingManifest} (w : IsWellFormed m) (q : RoutingRequest) (rt : RuntimeState) where
  pub consider_at-id :
      (i : String) {c : RouteConsideration} → consider_at m q rt i ≡ ok c → c.route_id ≡ i
  unfolding consider_at
  consider_at-id i h = go (get i m.routes) refl h
    where
      go :
          (o : Option RouteDefinition)
          → get i m.routes ≡ o
          → {c : RouteConsideration} → (consider_at m q rt i ≡ ok c)
          → c.route_id ≡ i
      go none e h = absurd (ground arith)
      go (some r) e h = consider_route-id m q rt r (rw (e, consider_at) at h) ∙ w.keyed i r e

  map_result-ids :
      (ks : List String) {cs : List RouteConsideration}
      → map_result (consider_at m q rt) ks ≡ ok cs
      → ids cs ≡ ks
  map_result-ids [] {cs} h = ap ids {x = cs} {y = []} (cc)
  map_result-ids (k ∷ ks) h =
      let (c, ds, e, es, eq) = map_result-cons (consider_at m q rt) k ks h in
      ap ids eq ∙ cc (consider_at-id k e, map_result-ids ks es)

  -- Exactly the manifest's routes are considered, each once, in the order of identifiers.
  pub considerations-ids :
      {cs : List RouteConsideration}
      → considerations m q rt ≡ ok cs
      → ids cs ≡ sort str_leb (keys m.routes)
  unfolding considerations
  considerations-ids h = map_result-ids (sort str_leb (keys m.routes)) h

  pub considerations_total : IsValidated m → Succeeds (considerations m q rt)
  unfolding considerations consider_at
  considerations_total valid =
      Succeeds-map_result (consider_at m q rt) (sort str_leb (keys m.routes)) (λ s c.
        let (r, e) =
          has-get s m.routes (unfold has in (sym (contains-sort s (keys m.routes)) ∙ c)) in
        let (d, k) = consider_route_total valid q rt r (route-IsKnown valid s r e) in (d, rw e k))

  -- Each route of the manifest has a consideration.
  pub by_id_total :
      {cs : List RouteConsideration} (i : String)
      → considerations m q rt ≡ ok cs
      → has i m.routes ≡ true
      → (c : RouteConsideration) × (by_id i cs ≡ some c)
  unfolding has
  by_id_total {cs} i e h =
      by_id-IsIn i cs (rw (considerations-ids e) (contains-sort i (keys m.routes) ∙ h))
