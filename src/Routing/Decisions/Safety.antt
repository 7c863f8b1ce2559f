-- ===== src/Routing/Decisions/Safety.antt =====
-- Which route `select_route` of src/agent_continuity/routing.py may choose.
use local_ai_coding_agent.Common.{
  String, List, [], ◌∷◌, ◌++◌, all, All, map_result, map_result-cons, bind_inv, item, item-eq-ok,
  ok_inj, and-true, subst, refl, Option, none, some, true, false, ◌≡◌, sym, ◌∙◌, arith, get, ok,
  Json, ap, inl, inr, some_inj,
}
use local_ai_coding_agent.Routing.Types.{
  Locality, local, cloud, ModelComponent, HarnessComponent, EdgeComponent, VerifierComponent,
  RoutingManifest, RouteDefinition, RoutingRequest, RuntimeState, RoutingDecision,
}
use local_ai_coding_agent.Routing.WellFormed.{IsWellFormed}
use local_ai_coding_agent.Routing.Locality.{
  is_local, model_locality, harness_locality, edge_locality, verifier_localities, route_localities,
  route_is_local, route_has_cloud_dependency,
}
use local_ai_coding_agent.Routing.Selection.{decision, select_route, of_selected}
use local_ai_coding_agent.Routing.Selection.Origin.{AllSelected, IsEligible, selected-IsEligible}
use local_ai_coding_agent.Routing.Permission.{IsPermitted, consider_route-IsPermitted}
use local_ai_coding_agent.Routing.Decisions.{IsDecision, select_route-IsDecision}

module _ (m : RoutingManifest) where
  abbrev pub IsLocalModel : String → Type 0
  IsLocalModel i = (c : ModelComponent) × (get i m.models ≡ some c) × (c.locality ≡ local)

  abbrev pub IsLocalHarness : String → Type 0
  IsLocalHarness i = (c : HarnessComponent) × (get i m.harnesses ≡ some c) × (c.locality ≡ local)

  abbrev pub IsLocalEdge : String → Type 0
  IsLocalEdge i = (c : EdgeComponent) × (get i m.edges ≡ some c) × (c.locality ≡ local)

  abbrev pub IsLocalVerifier : Option String → Type 0
  IsLocalVerifier none = Unit
  IsLocalVerifier (some i) =
      (v : VerifierComponent) × (get i m.verifiers ≡ some v)
      × IsLocalModel v.model_id
      × IsLocalHarness v.harness_id
      × IsLocalEdge v.inference_edge_id

  -- Every component of the route, and of its verifier, is local.
  pub record IsAllLocal (r : RouteDefinition) : Type 0 where
    pub models : All IsLocalModel r.model_ids
    pub harness : IsLocalHarness r.harness_id
    pub inference_edge : IsLocalEdge r.inference_edge_id
    pub execution_edge : IsLocalEdge r.execution_edge_id
    pub verifier : IsLocalVerifier r.verifier_id

  local_one : (l : Locality) → is_local l ≡ true → l ≡ local
  local_one local h = refl
  local_one cloud h = absurd (cc)

  model_here :
      (i : String) {l : Locality} → model_locality m i ≡ ok l → is_local l ≡ true → IsLocalModel i
  unfolding model_locality
  model_here i h t = bind_inv (item (get i m.models)) _ h λ c e h1.
      (c, item-eq-ok _ e, local_one c.locality (subst (λ l. is_local l ≡ true) (sym (ok_inj h1)) t))

  harness_here :
      (i : String) {l : Locality}
      → harness_locality m i ≡ ok l
      → is_local l ≡ true
      → IsLocalHarness i
  unfolding harness_locality
  harness_here i h t = bind_inv (item (get i m.harnesses)) _ h λ c e h1.
      (c, item-eq-ok _ e, local_one c.locality (subst (λ l. is_local l ≡ true) (sym (ok_inj h1)) t))

  edge_here :
      (i : String) {l : Locality} → edge_locality m i ≡ ok l → is_local l ≡ true → IsLocalEdge i
  unfolding edge_locality
  edge_here i h t = bind_inv (item (get i m.edges)) _ h λ c e h1.
      (c, item-eq-ok _ e, local_one c.locality (subst (λ l. is_local l ≡ true) (sym (ok_inj h1)) t))

  models_here :
      (is : List String) (ls : List Locality)
      → map_result (model_locality m) is ≡ ok ls
      → all is_local ls ≡ true
      → All IsLocalModel is
  models_here [] ls h t = tt
  models_here (i ∷ is) ls h t =
      let (l, rest, e1, e2, e3) = map_result-cons (model_locality m) i is h in
      let (a, b) =
        and-true (is_local l) (all is_local rest) (subst (λ ls. all is_local ls ≡ true) e3 t) in
      (model_here i e1 a, models_here is rest e2 b)

  verifier_here :
      (o : Option String) (ls : List Locality)
      → verifier_localities m o ≡ ok ls
      → all is_local ls ≡ true
      → IsLocalVerifier o
  unfolding verifier_localities
  verifier_here none ls h t = tt
  verifier_here (some i) ls h t = bind_inv (item (get i m.verifiers)) _ h λ v e h1.
      bind_inv (model_locality m v.model_id) _ h1 λ a ea h2.
        bind_inv (harness_locality m v.harness_id) _ h2 λ b eb h3.
          bind_inv (edge_locality m v.inference_edge_id) _ h3 λ c ec h4.
            let t : all is_local (a ∷ b ∷ c ∷ []) ≡ true =
              subst (λ ls. all is_local ls ≡ true) (sym (ok_inj h4)) t in
            let (ta, t1) = and-true (is_local a) _ t in
            let (tb, t2) = and-true (is_local b) _ t1 in
            let (tc, _) = and-true (is_local c) _ t2 in
            (
              v,
              item-eq-ok _ e,
              model_here v.model_id ea ta,
              harness_here v.harness_id eb tb,
              edge_here v.inference_edge_id ec tc,
            )

  all-split :
      (xs ys : List Locality)
      → all is_local (xs ++ ys) ≡ true
      → (all is_local xs ≡ true) × (all is_local ys ≡ true)
  all-split [] ys h = (refl, h)
  all-split (x ∷ xs) ys h =
      let (a, b) = and-true (is_local x) (all is_local (xs ++ ys)) h in
      let (c, d) = all-split xs ys b in (rw (a, c), d)

  route_is_local-IsAllLocal : (r : RouteDefinition) → route_is_local m r ≡ ok true → IsAllLocal r
  unfolding route_is_local route_localities
  route_is_local-IsAllLocal r h = bind_inv (route_localities m r) _ h λ ls e h1.
      bind_inv (map_result (model_locality m) r.model_ids) _ e λ models em k1.
        bind_inv (harness_locality m r.harness_id) _ k1 λ a ea k2.
          bind_inv (edge_locality m r.inference_edge_id) _ k2 λ b eb k3.
            bind_inv (edge_locality m r.execution_edge_id) _ k3 λ c ec k4.
              bind_inv (verifier_localities m r.verifier_id) _ k4 λ vs ev k5.
                let (tm, t1) =
                  all-split models (a ∷ b ∷ c ∷ vs) (ap (all is_local) (ok_inj k5) ∙ ok_inj h1) in
                let (ta, t2) = and-true (is_local a) _ t1 in
                let (tb, t3) = and-true (is_local b) _ t2 in
                let (tc, tv) = and-true (is_local c) _ t3 in
                record {
                  models = models_here r.model_ids models em tm;
                  harness = harness_here r.harness_id ea ta;
                  inference_edge = edge_here r.inference_edge_id eb tb;
                  execution_edge = edge_here r.execution_edge_id ec tc;
                  verifier = verifier_here r.verifier_id vs ev tv;
                }

module _ (digest : Json → String) (m : RoutingManifest) (q : RoutingRequest) (rt : RuntimeState)
    (d : RoutingDecision) where
  pub selected_id :
      (x : IsDecision digest m q rt d)
      → d.selected_route_id ≡ of_selected (λ r. r.id) x.choice.selected
  unfolding decision
  selected_id x = ap (λ y. y.selected_route_id) (sym x.is_built)

  -- The selected route of a decision, with its consideration.
  pub IsDecision-IsEligible :
      IsWellFormed m
      → (x : IsDecision digest m q rt d) → AllSelected (IsEligible m q rt) x.choice.selected
  IsDecision-IsEligible w x =
      let c = x.is_choice in
      selected-IsEligible w q rt c.eligible c.primary c.considered c.are_eligible c.is_primary
        c.is_selected

  -- A decision names only a route of the manifest, and one that the policy, the cloud's state, the
  -- components, the verifier and the requested surface all permit.
  pub selected-IsPermitted :
      (i : String)
      → IsWellFormed m
      → select_route digest m q rt ≡ ok d
      → d.selected_route_id ≡ some i
      → (r : RouteDefinition) × (get i m.routes ≡ some r) × IsPermitted m q rt r
  selected-IsPermitted i w h e =
      let x = select_route-IsDecision digest m q rt h in
      go x.choice.selected (sym (selected_id x) ∙ e) (IsDecision-IsEligible w x)
    where
      go :
          (o : Option RouteDefinition)
          → of_selected (λ r. r.id) o ≡ some i
          → AllSelected (IsEligible m q rt) o
          → (r : RouteDefinition) × (get i m.routes ≡ some r) × IsPermitted m q rt r
      go none e a = absurd (cc)
      go (some r) e (c, ec, k, t) =
          let at_key : c.route_id ≡ i = sym (w.keyed c.route_id r ec) ∙ some_inj e in
          (
            r,
            ap (λ k. get k m.routes) (sym at_key) ∙ ec,
            (consider_route-IsPermitted m q rt r k).0 t,
          )

  -- Without the cloud, everything that the selected route runs on is local: its models, harness and
  -- edges, and its verifier's model, harness and edge.
  pub offline-IsAllLocal :
      (i : String)
      → IsWellFormed m
      → select_route digest m q rt ≡ ok d
      → rt.cloud_available ≡ false
      → d.selected_route_id ≡ some i
      → (r : RouteDefinition) × (get i m.routes ≡ some r) × IsAllLocal m r
  offline-IsAllLocal i w h off e =
      let (r, er, p) = selected-IsPermitted i w h e in
      (
        r,
        er,
        route_is_local-IsAllLocal m r
            (is_here r (elim p.cloud [ inl l ↦ l | inr c ↦ absurd (cc (c, off)) ])),
      )
    where
      is_here :
          (r : RouteDefinition)
          → route_has_cloud_dependency m r ≡ ok false
          → route_is_local m r ≡ ok true
      is_here r l = unfold route_has_cloud_dependency in ground arith
