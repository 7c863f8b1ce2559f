-- ===== src/Routing/Totality.antt =====
-- No lookup of `select_route` in src/agent_continuity/routing.py fails on a validated manifest:
-- the localities and considerations (here), the choice and the evidence (in the children).
pub mod Telemetry
pub mod Evidence
pub mod Choice
use local_ai_coding_agent.Common.{
  String, List, [], ◌∷◌, ◌++◌, Option, none, some, Bool, true, false, ◌≡◌, refl, arith, get, has,
  keys, Succeeds, Succeeds-bind, Succeeds-then, Succeeds-item, Succeeds-map_result, contains,
  contains-is_subset, is_subset, has-eq, has-get, ok, item, map_result,
}
use local_ai_coding_agent.Routing.Types.{
  RoutingManifest, RouteDefinition, VerifierComponent, RoutingRequest, RuntimeState,
}
use local_ai_coding_agent.Routing.Locality.{
  model_locality, harness_locality, edge_locality, verifier_localities, route_localities,
  route_is_local, route_has_cloud_dependency,
}
use local_ai_coding_agent.Routing.Eligibility.{verifier_reasons, consider_route}
use local_ai_coding_agent.Routing.Validation.Routes.{is_known_verifier}
use local_ai_coding_agent.Routing.Validation.Soundness.{
  IsValidated, VerifierIsKnown, RouteIsKnown, verifier-IsKnown,
}

module _ {m : RoutingManifest} (valid : IsValidated m) where
  model_locality_total : (i : String) → has i m.models ≡ true → Succeeds (model_locality m i)
  unfolding model_locality
  model_locality_total i h =
      Succeeds-then _ _ (Succeeds-item i m.models h) (λ c. (c.locality, refl))

  harness_locality_total : (i : String) → has i m.harnesses ≡ true → Succeeds (harness_locality m i)
  unfolding harness_locality
  harness_locality_total i h =
      Succeeds-then _ _ (Succeeds-item i m.harnesses h) (λ c. (c.locality, refl))

  edge_locality_total : (i : String) → has i m.edges ≡ true → Succeeds (edge_locality m i)
  unfolding edge_locality
  edge_locality_total i h = Succeeds-then _ _ (Succeeds-item i m.edges h) (λ c. (c.locality, refl))

  verifier_localities_total :
      (o : Option String) → is_known_verifier m o ≡ true → Succeeds (verifier_localities m o)
  unfolding verifier_localities
  verifier_localities_total none h = ([], refl)
  verifier_localities_total (some i) h =
      let (v, e) = has-get i m.verifiers h in
      let known = verifier-IsKnown valid i v e in
      let (a, ea) = model_locality_total v.model_id known.model in
      let (b, eb) = harness_locality_total v.harness_id known.harness in
      let (c, ec) = edge_locality_total v.inference_edge_id known.edge in
      (a ∷ b ∷ c ∷ [], rw (e, ea, eb, ec))

  pub route_localities_total :
      (r : RouteDefinition) → RouteIsKnown m r → Succeeds (route_localities m r)
  unfolding route_localities
  route_localities_total r k =
      let (ms, em) =
        Succeeds-map_result (model_locality m) r.model_ids
          (λ s c. model_locality_total s (unfold has in contains-is_subset s _ _ k.models c)) in
      let (h, eh) = harness_locality_total r.harness_id k.harness in
      let (i, ei) = edge_locality_total r.inference_edge_id k.inference_edge in
      let (e, ee) = edge_locality_total r.execution_edge_id k.execution_edge in
      let (v, ev) = verifier_localities_total r.verifier_id k.verifier in
      (ms ++ (h ∷ i ∷ e ∷ v), rw (em, eh, ei, ee, ev))

  pub route_has_cloud_dependency_total :
      (r : RouteDefinition) → RouteIsKnown m r → Succeeds (route_has_cloud_dependency m r)
  unfolding route_has_cloud_dependency
  route_has_cloud_dependency_total r k =
      Succeeds-then _ _ (Succeeds-then _ _ (route_localities_total r k) (λ l. (_, refl)))
        (λ here. (_, refl))

  verifier_reasons_total :
      (rt : RuntimeState) (o : Option String)
      → is_known_verifier m o ≡ true
      → Succeeds (verifier_reasons m rt o)
  unfolding verifier_reasons
  verifier_reasons_total rt none h = ([], refl)
  verifier_reasons_total rt (some i) h =
      Succeeds-then _ _ (Succeeds-item i m.verifiers h) (λ v. (_, refl))

  pub consider_route_total :
      (q : RoutingRequest) (rt : RuntimeState) (r : RouteDefinition)
      → RouteIsKnown m r
      → Succeeds (consider_route m q rt r)
  unfolding consider_route
  consider_route_total q rt r k =
      Succeeds-then _ _ (route_has_cloud_dependency_total r k) (λ c.
        Succeeds-then _ _ (verifier_reasons_total rt r.verifier_id k.verifier) (λ v. (_, refl)))
