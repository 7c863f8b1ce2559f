-- ===== src/Routing/Decisions/Production.antt =====
-- The primary route and the fallback telemetry of `select_route` in production mode
-- (src/agent_continuity/routing.py).
use local_ai_coding_agent.Common.{
  String, List, Option, none, some, Bool, true, false, ◌≡◌, ◌≢◌, refl, sym, ◌∙◌, arith, get, ok,
  Json, ap, Bool-cases, inl, inr, some_inj, ok_inj, bind_inv, subst, if◌then◌else◌, str_eq_self,
  is_empty, ◌==◌, eq_iff,
}
use local_ai_coding_agent.Routing.Types.{
  production, RoutingManifest, RouteDefinition, RoutingRequest, RuntimeState, RouteConsideration,
  RoutingDecision, fallback_cloud_unavailable, cloud_primary_incompatible,
  no_accepted_compatible_route,
}
use local_ai_coding_agent.Routing.WellFormed.{IsWellFormed}
use local_ai_coding_agent.Routing.Locality.{route_has_cloud_dependency}
use local_ai_coding_agent.Routing.Selection.{
  decision, select_route, of_selected, select_by_mode, select_production, by_id, fallback,
  no_fallback, Fallback, names_cloud, Choice,
}
use local_ai_coding_agent.Routing.Selection.Ranking.{select_non_primary}
use local_ai_coding_agent.Routing.Eligibility.{verifier_reasons, consider_route}
use local_ai_coding_agent.Routing.Selection.Origin.{by_id-IsConsideration}
use local_ai_coding_agent.Routing.Permission.{IsPermitted, consider_route-IsPermitted}
use local_ai_coding_agent.Routing.Decisions.{IsChoice, IsDecision, select_route-IsDecision}
use local_ai_coding_agent.Routing.Decisions.Safety.{selected_id}

-- What a production decision should report, given the primary route's consideration.
abbrev pub report : RouteDefinition → RouteConsideration → Option RouteDefinition → Fallback
report primary c none = record {
  from = some primary.id;
  code = some no_accepted_compatible_route;
  details = c.reason_codes;
}
report primary c (some r) = if r.id == primary.id then no_fallback else record {
  from = some primary.id;
  code = some (
      if names_cloud c.reason_codes
      then fallback_cloud_unavailable
      else cloud_primary_incompatible);
  details = c.reason_codes;
}

-- A choice in production mode, by the primary route's consideration.
pub record IsProduction (m : RoutingManifest) (q : RoutingRequest) (rt : RuntimeState) (x : Choice)
    (es : List RouteDefinition) (primary : RouteDefinition) : Type 0 where
  pub primary_considered : RouteConsideration
  pub is_considered : consider_route m q rt primary ≡ ok primary_considered
  pub selected_eq :
      x.selected ≡ (if primary_considered.eligible then some primary else select_non_primary es)
  pub explained_eq : x.explained ≡ report primary primary_considered x.selected

select_production_eq :
    (m : RoutingManifest) (q : RoutingRequest) (x : Choice) (es : List RouteDefinition)
    (primary : RouteDefinition)
    → q.mode ≡ production
    → select_by_mode m q x.considered es primary ≡ ok x.selected
    → (c : RouteConsideration) × (by_id primary.id x.considered ≡ some c)
      × (x.selected ≡ (if c.eligible then some primary else select_non_primary es))
unfolding select_by_mode select_production
select_production_eq m q x es primary pr h = go (by_id primary.id x.considered) refl
  where
    go :
        (o : Option RouteConsideration)
        → by_id primary.id x.considered ≡ o
        → (c : RouteConsideration) × (by_id primary.id x.considered ≡ some c)
          × (x.selected ≡ (if c.eligible then some primary else select_non_primary es))
    go none e = absurd (ground arith)
    go (some c) e = (c, e, ground arith)

report_eq :
    (q : RoutingRequest) (cs : List RouteConsideration) (primary : RouteDefinition)
    (c : RouteConsideration) (o : Option RouteDefinition) {f : Fallback}
    → q.mode ≡ production
    → by_id primary.id cs ≡ some c
    → fallback q cs primary o ≡ ok f
    → f ≡ report primary c o
unfolding fallback
report_eq q cs primary c none pr e h = ground arith
report_eq q cs primary c (some r) pr e h = elim (Bool-cases (r.id == primary.id)) [
  | inl t ↦ ground arith
  | inr n ↦ ground arith
]

pub choice-IsProduction :
    {m : RoutingManifest} {q : RoutingRequest} {rt : RuntimeState} {x : Choice}
    → IsWellFormed m
    → q.mode ≡ production
    → (k : IsChoice m q rt x) → IsProduction m q rt x k.eligible k.primary
choice-IsProduction {m} {q} {rt} {x} w pr k =
    let (c, ec, es) = select_production_eq m q x k.eligible k.primary pr k.is_selected in
    record {
      primary_considered = c;
      is_considered =
          (by_id-IsConsideration w q rt m.policy.cloud_primary_route_id k.primary k.considered
            k.is_primary ec).1;
      selected_eq = es;
      explained_eq = report_eq q x.considered k.primary c x.selected pr ec k.is_fallback;
    }

consider_route-eligible :
    (m : RoutingManifest) (q : RoutingRequest) (rt : RuntimeState) (r : RouteDefinition)
    {c : RouteConsideration}
    → consider_route m q rt r ≡ ok c
    → c.eligible ≡ is_empty c.reason_codes
unfolding consider_route
consider_route-eligible m q rt r {c} h = bind_inv (route_has_cloud_dependency m r) _ h λ a e1 h1.
    bind_inv (verifier_reasons m rt r.verifier_id) _ h1
      λ b e2 h2. subst (λ x. x.eligible ≡ is_empty x.reason_codes) (ok_inj h2) refl

-- What is reported of a route that is not eligible, where another or none is selected.
report_other :
    (primary : RouteDefinition) (c : RouteConsideration) (o : Option RouteDefinition)
    → of_selected (λ r. r.id) o ≢ some primary.id
    → ((report primary c o).from ≡ some primary.id)
      × ((report primary c o).details ≡ c.reason_codes)
report_other primary c none ne = (refl, refl)
report_other primary c (some r) ne = elim (Bool-cases (r.id == primary.id)) [
  | inl t ↦ absurd (ne (ap some ((eq_iff r.id primary.id).0 t)))
  | inr f ↦ rw f (refl, refl)
]

module _ (digest : Json → String) (m : RoutingManifest) (q : RoutingRequest) (rt : RuntimeState)
    (d : RoutingDecision) (primary : RouteDefinition) where
  -- The parts of a production decision, over the manifest's primary route.
  pub production_parts :
      IsWellFormed m
      → select_route digest m q rt ≡ ok d
      → q.mode ≡ production
      → get m.policy.cloud_primary_route_id m.routes ≡ some primary
      → (x : IsDecision digest m q rt d) × IsProduction m q rt x.choice x.is_choice.eligible primary
  production_parts w h pr ep =
      let x = select_route-IsDecision digest m q rt h in
      (
        x,
        subst (IsProduction m q rt x.choice x.is_choice.eligible)
            (some_inj (sym x.is_choice.is_primary ∙ ep)) (choice-IsProduction w pr x.is_choice),
      )

  -- In production mode a permitted primary route is selected, and no fallback is reported.
  pub primary_preferred :
      IsWellFormed m
      → select_route digest m q rt ≡ ok d
      → q.mode ≡ production
      → get m.policy.cloud_primary_route_id m.routes ≡ some primary
      → IsPermitted m q rt primary
      → (d.selected_route_id ≡ some primary.id)
        × (d.fallback_reason_code ≡ none)
        × (d.fallback_from_route_id ≡ none)
  unfolding decision
  primary_preferred w h pr ep p =
      let (x, k) = production_parts w h pr ep in
      let t = (consider_route-IsPermitted m q rt primary k.is_considered).1 p in
      let sel : x.choice.selected ≡ some primary = k.selected_eq ∙ rw t in
      let unreported : x.choice.explained ≡ no_fallback =
        k.explained_eq
        ∙ (ap (report primary k.primary_considered) sel ∙ rw (str_eq_self primary.id)) in
      (
        selected_id digest m q rt d x ∙ ap (of_selected (λ r. r.id)) sel,
        ap (λ y. y.fallback_reason_code) (sym x.is_built) ∙ ap (λ f. f.code) unreported,
        ap (λ y. y.fallback_from_route_id) (sym x.is_built) ∙ ap (λ f. f.from) unreported,
      )

  -- In production mode, if the primary route is not selected, the decision reports it as the route
  -- fallen back from, with the reasons of its own consideration, of which there is at least one.
  pub fallback_explained :
      IsWellFormed m
      → select_route digest m q rt ≡ ok d
      → q.mode ≡ production
      → get m.policy.cloud_primary_route_id m.routes ≡ some primary
      → d.selected_route_id ≢ some primary.id
      → (d.fallback_from_route_id ≡ some primary.id)
        × (is_empty d.fallback_detail_codes ≡ false)
        × ((c : RouteConsideration) × (consider_route m q rt primary ≡ ok c)
            × (d.fallback_detail_codes ≡ c.reason_codes))
  unfolding decision
  fallback_explained w h pr ep ne =
      let (x, k) = production_parts w h pr ep in
      let c = k.primary_considered in
      let (from, details) =
        report_other primary c x.choice.selected (λ e. ne (selected_id digest m q rt d x ∙ e)) in
      let reasons : d.fallback_detail_codes ≡ c.reason_codes =
        ap (λ y. y.fallback_detail_codes) (sym x.is_built)
        ∙ (ap (λ f. f.details) k.explained_eq ∙ details) in
      (
        ap (λ y. y.fallback_from_route_id) (sym x.is_built)
            ∙ (ap (λ f. f.from) k.explained_eq ∙ from),
        ap is_empty reasons
            ∙ (sym (consider_route-eligible m q rt primary k.is_considered)
                ∙ ineligible x k c.eligible refl),
        (c, k.is_considered, reasons),
      )
    where
      ineligible :
          (x : IsDecision digest m q rt d)
          (k : IsProduction m q rt x.choice x.is_choice.eligible primary) (b : Bool)
          → k.primary_considered.eligible ≡ b
          → b ≡ false
      ineligible x k false e = refl
      ineligible x k true e = absurd (
          ne (
            selected_id digest m q rt d x
            ∙ ap (of_selected (λ r. r.id)) {y = some primary} (k.selected_eq ∙ rw e)))
