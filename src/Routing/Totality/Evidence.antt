-- ===== src/Routing/Totality/Evidence.antt =====
-- The evidence that `select_route` of src/agent_continuity/routing.py collects is in the manifest.
use local_ai_coding_agent.Common.{
  String, List, [], ◌∷◌, ◌++◌, Option, none, some, true, ◌≡◌, refl, arith, get, has, keys, Succeeds,
  Succeeds-then, Succeeds-item, Succeeds-map_result, contains-is_subset, has-get, ok, is_subset,
  Result, is_subset-append, is_subset-sorted_set,
}
use local_ai_coding_agent.Routing.Types.{RoutingManifest, RouteDefinition}
use local_ai_coding_agent.Routing.Selection.Evidence.{
  model_evidence, models_evidence, harness_evidence, edge_evidence, verifier_evidence,
  collect_evidence, decision_evidence, evidence_hash, evidence_hashes,
}
use local_ai_coding_agent.Routing.WellFormed.{IsWellFormed}
use local_ai_coding_agent.Routing.Validation.Routes.{is_known_verifier}
use local_ai_coding_agent.Routing.Validation.Soundness.{
  IsValidated, route-IsKnown, verifier-IsKnown,
}

-- The route, if any, is one of the manifest's.
abbrev pub IsOfManifest : RoutingManifest → Option RouteDefinition → Type 0
IsOfManifest m none = Unit
IsOfManifest m (some r) = (i : String) × (get i m.routes ≡ some r)

-- The computation returns identifiers of known evidence.
abbrev ReturnsKnown : RoutingManifest → Result (List String) → Type 0
ReturnsKnown m x = (xs : List String) × (x ≡ ok xs) × (is_subset xs (keys m.evidence) ≡ true)

module _ {m : RoutingManifest} (w : IsWellFormed m) (valid : IsValidated m) where
  model_evidence-known : (i : String) → has i m.models ≡ true → ReturnsKnown m (model_evidence m i)
  unfolding model_evidence
  model_evidence-known i h =
      let (c, e) = has-get i m.models h in (c.evidence_ids, rw e, w.models_cite i c e)

  harness_evidence-known :
      (i : String) → has i m.harnesses ≡ true → ReturnsKnown m (harness_evidence m i)
  unfolding harness_evidence
  harness_evidence-known i h =
      let (c, e) = has-get i m.harnesses h in (c.evidence_ids, rw e, w.harnesses_cite i c e)

  edge_evidence-known : (i : String) → has i m.edges ≡ true → ReturnsKnown m (edge_evidence m i)
  unfolding edge_evidence
  edge_evidence-known i h =
      let (c, e) = has-get i m.edges h in (c.evidence_ids, rw e, w.edges_cite i c e)

  models_evidence-known :
      (is : List String)
      → is_subset is (keys m.models) ≡ true
      → ReturnsKnown m (models_evidence m is)
  unfolding models_evidence is_subset
  models_evidence-known [] h = ([], refl, refl)
  models_evidence-known (i ∷ is) h =
      let (xs, e, k) = model_evidence-known i (unfold has in ground (arith, h)) in
      let (ys, f, l) = models_evidence-known is (ground (arith, h)) in
      (xs ++ ys, rw (e, f), is_subset-append xs ys _ k l)

  verifier_evidence-known :
      (o : Option String) → is_known_verifier m o ≡ true → ReturnsKnown m (verifier_evidence m o)
  unfolding verifier_evidence
  verifier_evidence-known none h = ([], refl, unfold is_subset in refl)
  verifier_evidence-known (some i) h =
      let (v, ev) = has-get i m.verifiers h in
      let known = verifier-IsKnown valid i v ev in
      let (a, ea, ka) = model_evidence-known v.model_id known.model in
      let (b, eb, kb) = harness_evidence-known v.harness_id known.harness in
      let (c, ec, kc) = edge_evidence-known v.inference_edge_id known.edge in
      (
        v.evidence_ids ++ (a ++ (b ++ c)),
        rw (ev, ea, eb, ec),
        is_subset-append v.evidence_ids _ _ (w.verifiers_cite i v ev)
            (is_subset-append a _ _ ka (is_subset-append b c _ kb kc)),
      )

  collect_evidence-known :
      (i : String) (r : RouteDefinition)
      → get i m.routes ≡ some r
      → ReturnsKnown m (collect_evidence m r)
  unfolding collect_evidence
  collect_evidence-known i r er =
      let k = route-IsKnown valid i r er in
      let (a, ea, ka) = models_evidence-known r.model_ids k.models in
      let (b, eb, kb) = harness_evidence-known r.harness_id k.harness in
      let (c, ec, kc) = edge_evidence-known r.inference_edge_id k.inference_edge in
      let (d, ed, kd) = edge_evidence-known r.execution_edge_id k.execution_edge in
      let (v, ev, kv) = verifier_evidence-known r.verifier_id k.verifier in
      (
        r.evidence_ids ++ (a ++ (b ++ (c ++ (d ++ (v ++ r.comparison_evidence_ids))))),
        rw (ea, eb, ec, ed, ev),
        is_subset-append r.evidence_ids _ _ (w.routes_cite i r er) (
            is_subset-append a _ _ ka (
              is_subset-append b _ _ kb (
                is_subset-append c _ _ kc (
                  is_subset-append d _ _ kd
                    (is_subset-append v _ _ kv (w.comparisons_cite i r er)))))),
      )

  pub decision_evidence-known :
      (o : Option RouteDefinition) → IsOfManifest m o → ReturnsKnown m (decision_evidence m o)
  unfolding decision_evidence
  decision_evidence-known none h = ([], refl, unfold is_subset in refl)
  decision_evidence-known (some r) (i, e) =
      let (xs, ex, k) = collect_evidence-known i r e in (_, rw ex, is_subset-sorted_set xs _ k)

pub evidence_hashes_total :
    (m : RoutingManifest) (xs : List String)
    → is_subset xs (keys m.evidence) ≡ true
    → Succeeds (evidence_hashes m xs)
unfolding evidence_hashes evidence_hash
evidence_hashes_total m xs h = Succeeds-map_result (evidence_hash m) xs (λ s c.
    Succeeds-then _ _ (Succeeds-item s m.evidence (unfold has in contains-is_subset s xs _ h c))
      (λ e. (_, refl)))
