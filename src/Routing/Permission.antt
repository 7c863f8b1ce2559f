-- ===== src/Routing/Permission.antt =====
-- When `_consider_route` of src/agent_continuity/routing.py finds a route eligible.
use local_ai_coding_agent.Common.{
  ℕ, ◌≤◌, String, List, map, Option, none, some, Bool, true, false, not, ◌&&◌, ◌≡◌, ◌⊎◌, refl, sym,
  ◌∙◌, arith, get, ok, err, Result, contains, is_subset, is_empty, is_empty-append, is_empty-map,
  is_empty-sorted_set, is_empty-difference, sorted_set, difference, subst, some_inj, str_eq_self,
  eq_iff, ◌↔◌,
}
use local_ai_coding_agent.Routing.Types.{
  Mode, production, qualification, accepted, RoutingManifest, RouteDefinition, VerifierComponent,
  RoutingRequest, RuntimeState, Reason, RouteConsideration,
}
use local_ai_coding_agent.Routing.Locality.{supports, route_has_cloud_dependency}
use local_ai_coding_agent.Routing.Eligibility.{
  exceeds, policy_reasons, component_reasons, verifier_reasons, surface_reasons, consider_route,
  when,
}

-- Production takes accepted routes only, qualification only the requested candidate.
pub record PolicyAllows (q : RoutingRequest) (r : RouteDefinition) : Type 0 where
  pub production_accepted : q.mode ≡ production → r.qualification_status ≡ accepted
  pub qualification_candidate : q.mode ≡ qualification → q.candidate_route_id ≡ some r.id

-- The route's own models, harness and edges are up.
pub record ComponentsAreUp (rt : RuntimeState) (r : RouteDefinition) : Type 0 where
  pub models : is_subset r.model_ids rt.operable_model_ids ≡ true
  pub harness : contains r.harness_id rt.operable_harness_ids ≡ true
  pub inference_edge : contains r.inference_edge_id rt.available_edge_ids ≡ true
  pub execution_edge : contains r.execution_edge_id rt.available_edge_ids ≡ true

-- The verifier's model, harness and edge are up.
pub record VerifierIsUp (rt : RuntimeState) (v : VerifierComponent) : Type 0 where
  pub model : contains v.model_id rt.operable_model_ids ≡ true
  pub harness : contains v.harness_id rt.operable_harness_ids ≡ true
  pub edge : contains v.inference_edge_id rt.available_edge_ids ≡ true

abbrev pub OptionalVerifierIsUp : RoutingManifest → RuntimeState → Option String → Type 0
OptionalVerifierIsUp m rt none = Unit
OptionalVerifierIsUp m rt (some i) =
    (v : VerifierComponent) × (get i m.verifiers ≡ some v) × VerifierIsUp rt v

abbrev pub Within : ℕ → Option ℕ → Type 0
Within tokens none = Unit
Within tokens (some limit) = tokens ≤ limit

-- The route covers the requested role, capability, language, context and tools, and the runtime
-- satisfies its tags.
pub record SurfaceCovers (q : RoutingRequest) (rt : RuntimeState) (r : RouteDefinition)
    : Type 0 where
  pub tags : is_subset r.required_runtime_tags rt.satisfied_runtime_tags ≡ true
  pub role : supports r.roles q.role ≡ true
  pub capability : supports r.capabilities q.capability ≡ true
  pub language : supports r.languages q.language ≡ true
  pub context : Within q.context_tokens r.max_context_tokens
  pub tools : is_subset q.tool_needs r.tool_needs ≡ true

pub record IsPermitted (m : RoutingManifest) (q : RoutingRequest) (rt : RuntimeState)
    (r : RouteDefinition) : Type 0 where
  pub policy : PolicyAllows q r
  pub cloud : (route_has_cloud_dependency m r ≡ ok false) ⊎ (rt.cloud_available ≡ true)
  pub components : ComponentsAreUp rt r
  pub verifier : OptionalVerifierIsUp m rt r.verifier_id
  pub surface : SurfaceCovers q rt r

policy_reasons_iff :
    (q : RoutingRequest) (r : RouteDefinition)
    → (is_empty (policy_reasons q r) ≡ true) ↔ PolicyAllows q r
unfolding policy_reasons
policy_reasons_iff q r = (
  λ h. record {
    production_accepted = ground arith;
    qualification_candidate = candidate q.candidate_route_id refl h;
  },
  λ p. allowed q.mode refl p,
)
  where
    candidate :
        (o : Option String)
        → q.candidate_route_id ≡ o
        → is_empty (policy_reasons q r) ≡ true
        → q.mode ≡ qualification
        → q.candidate_route_id ≡ some r.id
    candidate none e h k = absurd (ground arith)
    candidate (some i) e h k = ground (arith, eq_iff i r.id)

    allowed :
        (mode : Mode) → q.mode ≡ mode → PolicyAllows q r → is_empty (policy_reasons q r) ≡ true
    allowed production e p = ground (arith, p.production_accepted e)
    allowed qualification e p =
        let same = p.qualification_candidate e in ground (arith, same, str_eq_self r.id)

is_empty-missing :
    (f : String → Reason) (xs ys : List String)
    → is_empty (map f (sorted_set (difference xs ys))) ≡ is_subset xs ys
is_empty-missing f xs ys =
    is_empty-map f (sorted_set (difference xs ys))
    ∙ (is_empty-sorted_set (difference xs ys) ∙ is_empty-difference xs ys)

component_reasons_iff :
    (rt : RuntimeState) (r : RouteDefinition)
    → (is_empty (component_reasons rt r) ≡ true) ↔ ComponentsAreUp rt r
unfolding component_reasons
component_reasons_iff rt r =
    rw (is_empty-append, is_empty-missing)
      (
        (λ h. record {
          models = ground (arith, h);
          harness = ground (arith, h);
          inference_edge = ground (arith, h);
          execution_edge = ground (arith, h);
        }),
        (λ u. ground (arith, u.models)),
      )

surface_reasons_iff :
    (q : RoutingRequest) (rt : RuntimeState) (r : RouteDefinition)
    → (is_empty (surface_reasons q rt r) ≡ true) ↔ SurfaceCovers q rt r
unfolding surface_reasons
surface_reasons_iff q rt r =
    rw
      (
        is_empty-append, is_empty-missing, is_empty-append, is_empty-append, is_empty-append,
        is_empty-append, is_empty-missing,
      )
      (
        (λ h. record {
          tags = ground (arith, h);
          role = ground (arith, h);
          capability = ground (arith, h);
          language = ground (arith, h);
          context = within r.max_context_tokens refl (ground (arith, h));
          tools = ground (arith, h);
        }),
        (λ u. ground (arith, u.tags, context_ok r.max_context_tokens refl u.context)),
      )
  where
    within :
        (o : Option ℕ)
        → r.max_context_tokens ≡ o
        → exceeds q.context_tokens o ≡ false
        → Within q.context_tokens r.max_context_tokens
    within none e h = rw e tt
    within (some l) e h = rw e (ground arith)

    context_ok :
        (o : Option ℕ)
        → r.max_context_tokens ≡ o
        → Within q.context_tokens o
        → exceeds q.context_tokens r.max_context_tokens ≡ false
    context_ok none e h = rw e
    context_ok (some l) e h = rw e (ground arith)

verifier_reasons_iff :
    (m : RoutingManifest) (rt : RuntimeState) (o : Option String) (xs : List Reason)
    → verifier_reasons m rt o ≡ ok xs
    → (is_empty xs ≡ true) ↔ OptionalVerifierIsUp m rt o
unfolding verifier_reasons
verifier_reasons_iff m rt none xs e = ((λ h. tt), (λ h. ground arith))
verifier_reasons_iff m rt (some i) xs e = go (get i m.verifiers) refl
  where
    go :
        (o : Option VerifierComponent)
        → get i m.verifiers ≡ o
        → (is_empty xs ≡ true) ↔ OptionalVerifierIsUp m rt (some i)
    go none f = absurd (ground arith)
    go (some v) f = (
      λ h. (v, f, record { model = ground arith; harness = ground arith; edge = ground arith }),
      λ (w, g, u). same w (some_inj (sym f ∙ g)) u,
    )
      where
        same : (w : VerifierComponent) → v ≡ w → VerifierIsUp rt w → is_empty xs ≡ true
        same w k u = let u' = subst (VerifierIsUp rt) (sym k) u in ground (arith, u'.model)

is_empty-when : (b : Bool) (x : Reason) → is_empty (when b x) ≡ not b
is_empty-when true x = refl
is_empty-when false x = refl

eligible_of : {c d : RouteConsideration} → ok c ≡ ok d → c.eligible ≡ d.eligible
eligible_of h = cc

-- What a consideration's eligibility is computed from.
record Parts (m : RoutingManifest) (q : RoutingRequest) (rt : RuntimeState) (r : RouteDefinition)
    (eligible : Bool) : Type 0 where
  on_cloud : Bool
  by_verifier : List Reason
  cloud_eq : route_has_cloud_dependency m r ≡ ok on_cloud
  verifier_eq : verifier_reasons m rt r.verifier_id ≡ ok by_verifier
  eligible_eq : eligible ≡ (
      is_empty (policy_reasons q r)
      && (not (on_cloud && not rt.cloud_available)
          && (is_empty (component_reasons rt r)
              && (is_empty by_verifier && is_empty (surface_reasons q rt r)))))

consider_route-Parts :
    (m : RoutingManifest) (q : RoutingRequest) (rt : RuntimeState) (r : RouteDefinition)
    {c : RouteConsideration}
    → consider_route m q rt r ≡ ok c
    → Parts m q rt r c.eligible
unfolding consider_route
consider_route-Parts m q rt r {c} h =
    go (route_has_cloud_dependency m r) refl (verifier_reasons m rt r.verifier_id) refl
  where
    go :
        (a : Result Bool)
        → route_has_cloud_dependency m r ≡ a
        → (b : Result (List Reason)) → verifier_reasons m rt r.verifier_id ≡ b
        → Parts m q rt r c.eligible
    go (err e) ea b eb = absurd (ground arith)
    go (ok a) ea (err e) eb = absurd (ground arith)
    go (ok a) ea (ok xs) eb = record {
      on_cloud = a;
      by_verifier = xs;
      cloud_eq = ea;
      verifier_eq = eb;
      eligible_eq =
          sym (eligible_of (rw (ea, eb, consider_route) at h))
          ∙ rw (is_empty-append, is_empty-append, is_empty-append, is_empty-append, is_empty-when);
    }

-- A route is eligible, by its consideration, exactly when it is permitted.
pub consider_route-IsPermitted :
    (m : RoutingManifest) (q : RoutingRequest) (rt : RuntimeState) (r : RouteDefinition)
    {c : RouteConsideration}
    → consider_route m q rt r ≡ ok c
    → (c.eligible ≡ true) ↔ IsPermitted m q rt r
consider_route-IsPermitted m q rt r {c} h =
    let p = consider_route-Parts m q rt r h in
    let v = verifier_reasons_iff m rt r.verifier_id p.by_verifier p.verifier_eq in
    (
      λ e. record {
        policy = (policy_reasons_iff q r).0 (ground (arith, p.eligible_eq));
        cloud = ground (arith, p.eligible_eq, p.cloud_eq);
        components = (component_reasons_iff rt r).0 (ground (arith, p.eligible_eq));
        verifier = v.0 (ground (arith, p.eligible_eq));
        surface = (surface_reasons_iff q rt r).0 (ground (arith, p.eligible_eq));
      },
      λ k.
          let a = (policy_reasons_iff q r).1 k.policy in
          let b = (component_reasons_iff rt r).1 k.components in
          let d = v.1 k.verifier in
          let f = (surface_reasons_iff q rt r).1 k.surface in
          ground (arith, p.eligible_eq, p.cloud_eq, k.cloud),
    )
