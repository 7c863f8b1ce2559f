-- ===== src/Routing/Parsing/WellFormed.antt =====
-- What `validate_routing_manifest` of src/agent_continuity/routing.py guarantees of the manifest it
-- returns.
use local_ai_coding_agent.Common.{
  Bool, true, String, List, [], Option, some, Result, ok, ok_inj, bind_inv, >>-eq-ok, guard-eq-ok,
  ◌>>=◌, ◌≡◌, subst, Dict, Json, get, keys, is_subset, AllEntries-get, manifest_error,
}
use local_ai_coding_agent.Routing.Types.{RoutingManifest, RoutingPolicy, RouteDefinition}
use local_ai_coding_agent.Routing.Validation.{validate_cross_references}
use local_ai_coding_agent.Routing.WellFormed.{IsWellFormed, CitesKnown, CitesKnown-AllEntries}
use local_ai_coding_agent.Routing.Parsing.{
  at, object_with, identifier, nonempty_array, parse_entries,
}
use local_ai_coding_agent.Routing.Parsing.Evidence.{Observation, parse_evidence}
use local_ai_coding_agent.Routing.Parsing.Components.{
  parse_models, parse_harnesses, parse_edges, parse_verifiers, parse_model, parse_harness,
  parse_edge, parse_verifier,
}
use local_ai_coding_agent.Routing.Parsing.Routes.{parse_routes, parse_route}
use local_ai_coding_agent.Routing.Parsing.Manifest.{
  Parts, parse_parts, parse_policy, build_manifest, is_one, manifest_fields, component_fields,
  validate_routing_manifest,
}
use local_ai_coding_agent.Routing.Parsing.Soundness.{
  parse_array-AllEntries, parse_model-Known, parse_harness-Known, parse_edge-Known,
  parse_verifier-Known, parse_route-Sound, IsSound,
}

-- Each entry of the parsed parts cites parsed evidence, and each route has its own identifier.
pub record IsSoundParts (p : Parts) : Type 0 where
  pub models_sound : CitesKnown (keys p.evidence) (λ c. c.evidence_ids) p.models
  pub harnesses_sound : CitesKnown (keys p.evidence) (λ c. c.evidence_ids) p.harnesses
  pub edges_sound : CitesKnown (keys p.evidence) (λ c. c.evidence_ids) p.edges
  pub verifiers_sound : CitesKnown (keys p.evidence) (λ c. c.evidence_ids) p.verifiers
  pub routes_sound :
      (i : String) (r : RouteDefinition) → get i p.routes ≡ some r → IsSound p.evidence i r

-- An array whose items cite known evidence parses to entries that do.
parse_array-CitesKnown {ℓ} :
    {V : Type ℓ} (known : List String) (cited : V → List String)
    (parse : Dict V → Json → Result (String × V)) (raw : Dict Json) (key : String) {d : Dict V}
    → ((output : Dict V) (v : Json) (e : String × V)
        → parse output v ≡ ok e
        → is_subset (cited e.1) known ≡ true)
    → (at raw key >>= λ v. (nonempty_array v >>= λ vs. parse_entries parse [] vs)) ≡ ok d
    → CitesKnown known cited d
parse_array-CitesKnown known cited parse raw key {d} each h = bind_inv (at raw key) _ h λ v e1 h1.
    CitesKnown-AllEntries known cited d
      (parse_array-AllEntries (λ k c. is_subset (cited c) known ≡ true) parse v each h1)

pub parse_parts-IsSoundParts :
    (verify : Bool) (root : Option (String → Observation)) (raw : Dict Json) (p : Parts)
    → parse_parts verify root raw ≡ ok p
    → IsSoundParts p
unfolding parse_parts parse_models parse_harnesses parse_edges parse_verifiers parse_routes
parse_parts-IsSoundParts verify root raw p h =
    bind_inv (at raw "evidence" >>= parse_evidence verify root) _ h λ evidence e1 h1.
      bind_inv (at raw "components" >>= object_with component_fields) _ h1 λ cs e2 h2.
        bind_inv (at cs "models" >>= parse_models evidence) _ h2 λ models e3 h3.
          bind_inv (at cs "harnesses" >>= parse_harnesses evidence) _ h3 λ harnesses e4 h4.
            bind_inv (at cs "edges" >>= parse_edges evidence) _ h4 λ edges e5 h5.
              bind_inv (at cs "verifiers" >>= parse_verifiers evidence) _ h5 λ verifiers e6 h6.
                bind_inv (at raw "routes" >>= parse_routes evidence) _ h6 λ routes e7 h7.
                  subst IsSoundParts (ok_inj h7) (record {
                    models_sound =
                        parse_array-CitesKnown (keys evidence) (λ c. c.evidence_ids)
                          (parse_model evidence) cs "models" (parse_model-Known evidence) e3;
                    harnesses_sound =
                        parse_array-CitesKnown (keys evidence) (λ c. c.evidence_ids)
                          (parse_harness evidence) cs "harnesses" (parse_harness-Known evidence) e4;
                    edges_sound =
                        parse_array-CitesKnown (keys evidence) (λ c. c.evidence_ids)
                          (parse_edge evidence) cs "edges" (parse_edge-Known evidence) e5;
                    verifiers_sound =
                        parse_array-CitesKnown (keys evidence) (λ c. c.evidence_ids)
                          (parse_verifier evidence) cs "verifiers" (parse_verifier-Known evidence)
                          e6;
                    routes_sound =
                        bind_inv (at raw "routes") (parse_routes evidence) e7 λ v u w i r g.
                          AllEntries-get (IsSound evidence) i routes
                            (parse_array-AllEntries (IsSound evidence) (parse_route evidence) v
                              (parse_route-Sound evidence) w)
                            g;
                  })

build_manifest-IsWellFormed :
    (digest : Json → String) (v : Json) (p : Parts) (policy : RoutingPolicy) (i : String)
    → IsSoundParts p
    → IsWellFormed (build_manifest digest v p policy i)
unfolding build_manifest
build_manifest-IsWellFormed digest v p policy i s = record {
  keyed = λ j r g. (s.routes_sound j r g).0;
  models_cite = s.models_sound;
  harnesses_cite = s.harnesses_sound;
  edges_cite = s.edges_sound;
  verifiers_cite = s.verifiers_sound;
  routes_cite = λ j r g. (s.routes_sound j r g).1;
  comparisons_cite = λ j r g. (s.routes_sound j r g).2;
}

-- A manifest that is returned has its routes under their own identifiers, cites evidence of its own
-- only, and has passed the cross-reference validation.
pub validate_routing_manifest-IsWellFormed :
    (digest : Json → String) (verify : Bool) (root : Option (String → Observation)) (v : Json)
    {m : RoutingManifest}
    → validate_routing_manifest digest verify root v ≡ ok m
    → IsWellFormed m × (validate_cross_references m ≡ ok tt)
unfolding validate_routing_manifest
validate_routing_manifest-IsWellFormed digest verify root v {m} h =
    bind_inv (object_with manifest_fields v) _ h λ raw e1 h1.
      bind_inv (at raw "schema_version") _ h1 λ version e2 h2.
        let (_, h3) =
          guard-eq-ok (is_one version) (manifest_error "only routing schema_version 1 is supported")
            _ h2 in
        bind_inv (parse_parts verify root raw) _ h3 λ parts e4 h4.
          bind_inv (at raw "policy" >>= parse_policy) _ h4 λ policy e5 h5.
            bind_inv (at raw "manifest_id" >>= identifier) _ h5 λ i e6 h6.
              let built = build_manifest digest v parts policy i in
              let (t, h7) = >>-eq-ok (validate_cross_references built) (ok built) h6 in
              subst (λ m. IsWellFormed m × (validate_cross_references m ≡ ok tt)) (ok_inj h7)
                (
                  build_manifest-IsWellFormed digest v parts policy i
                      (parse_parts-IsSoundParts verify root raw parts e4),
                  t,
                )
