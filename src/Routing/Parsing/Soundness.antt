-- ===== src/Routing/Parsing/Soundness.antt =====
-- What the parsers of src/agent_continuity/routing.py guarantee: a parsed manifest is well formed.
use local_ai_coding_agent.Common.{
  Bool, true, false, String, List, [], ◌∷◌, ◌++◌, Result, ok, ok_inj, bind_inv, guard-eq-ok, ◌>>=◌,
  ◌≡◌, refl, sym, subst, Dict, Json, keys, is_subset, is_empty, difference, is_empty-difference,
  AllEntries, AllEntries-append, ◌∙◌, manifest_error,
}
use local_ai_coding_agent.Routing.Types.{
  EvidenceRecord, ModelComponent, HarnessComponent, EdgeComponent, VerifierComponent,
  RouteDefinition,
}
use local_ai_coding_agent.Routing.Parsing.{
  at, identifier, text, one_of, parse_status, parse_locality, context_limit, string_tuple,
  parse_evidence_ids, parse_entries, nonempty_array, object_with, fresh_id,
}
use local_ai_coding_agent.Routing.Parsing.Components.{
  parse_model, parse_harness, parse_edge, parse_verifier, model_fields, harness_fields, edge_fields,
  verifier_fields, kind_of,
}
use local_ai_coding_agent.Routing.Parsing.Routes.{
  RouteHead, route_fields, is_text_not_run, parse_route_head, parse_route_body, parse_route,
}

module _ {ℓ κ} {V : Type ℓ} (P : String → V → Type κ) where
  -- What each parsed entry satisfies, all entries satisfy.
  parse_entries-AllEntries :
      (parse : Dict V → Json → Result (String × V))
      → ((output : Dict V) (v : Json) (e : String × V) → parse output v ≡ ok e → P e.0 e.1)
      → (output : Dict V) (vs : List Json) {d : Dict V} → AllEntries P output
      → parse_entries parse output vs ≡ ok d
      → AllEntries P d
  unfolding parse_entries
  parse_entries-AllEntries parse each output [] a h = subst (AllEntries P) (ok_inj h) a
  parse_entries-AllEntries parse each output (v ∷ vs) a h = bind_inv (parse output v) _ h λ e e1 h1.
      parse_entries-AllEntries parse each (output ++ e ∷ []) vs
        (AllEntries-append P output e.0 e.1 a (each output v e e1)) h1

  pub parse_array-AllEntries :
      (parse : Dict V → Json → Result (String × V)) (v : Json) {d : Dict V}
      → ((output : Dict V) (v : Json) (e : String × V) → parse output v ≡ ok e → P e.0 e.1)
      → (nonempty_array v >>= λ vs. parse_entries parse [] vs) ≡ ok d
      → AllEntries P d
  parse_array-AllEntries parse v each h =
      bind_inv (nonempty_array v) _ h λ vs e1 h1. parse_entries-AllEntries parse each [] vs tt h1

parse_evidence_ids-known {ℓ} :
    {V : Type ℓ} (evidence : Dict V) (allow_empty : Bool) (raw : Dict Json) (key : String)
    {ids : List String}
    → (at raw key >>= parse_evidence_ids evidence allow_empty) ≡ ok ids
    → is_subset ids (keys evidence) ≡ true
unfolding parse_evidence_ids
parse_evidence_ids-known evidence allow_empty raw key h = bind_inv (at raw key) _ h λ v e1 h1.
    bind_inv (string_tuple allow_empty false v) _ h1 λ xs e2 h2.
      let (t, e3) =
        guard-eq-ok (is_empty (difference xs (keys evidence)))
          (manifest_error "references unknown evidence") (ok xs) h2 in
      subst (λ ys. is_subset ys (keys evidence) ≡ true) (ok_inj e3)
        (sym (is_empty-difference xs (keys evidence)) ∙ t)

module _ (evidence : Dict EvidenceRecord) where
  -- The identifiers are of known evidence.
  abbrev pub Known : List String → Type 0
  Known ids = is_subset ids (keys evidence) ≡ true

  pub parse_model-Known :
      (output : Dict ModelComponent) (v : Json) (e : String × ModelComponent)
      → parse_model evidence output v ≡ ok e
      → Known e.1.evidence_ids
  unfolding parse_model
  parse_model-Known output v e h = bind_inv (object_with model_fields v) _ h λ raw e1 h1.
      bind_inv (fresh_id output raw) _ h1 λ i e2 h2.
        bind_inv (at raw "name" >>= text) _ h2 λ name e3 h3.
          bind_inv (at raw "provider" >>= identifier) _ h3 λ provider e4 h4.
            bind_inv (at raw "locality" >>= parse_locality) _ h4 λ locality e5 h5.
              bind_inv (at raw "roles" >>= string_tuple false true) _ h5 λ roles e6 h6.
                bind_inv (at raw "languages" >>= string_tuple false true) _ h6 λ languages e7 h7.
                  bind_inv (at raw "max_context_tokens" >>= context_limit) _ h7 λ limit e8 h8.
                    bind_inv (at raw "evidence_ids" >>= parse_evidence_ids evidence false) _ h8
                      λ ids e9 h9.
                        subst (λ p. Known p.1.evidence_ids) (ok_inj h9)
                          (parse_evidence_ids-known evidence false raw "evidence_ids" e9)

  pub parse_harness-Known :
      (output : Dict HarnessComponent) (v : Json) (e : String × HarnessComponent)
      → parse_harness evidence output v ≡ ok e
      → Known e.1.evidence_ids
  unfolding parse_harness
  parse_harness-Known output v e h = bind_inv (object_with harness_fields v) _ h λ raw e1 h1.
      bind_inv (fresh_id output raw) _ h1 λ i e2 h2.
        bind_inv (at raw "name" >>= text) _ h2 λ name e3 h3.
          bind_inv (at raw "locality" >>= parse_locality) _ h3 λ locality e4 h4.
            bind_inv (at raw "mode" >>= identifier) _ h4 λ mode e5 h5.
              bind_inv (at raw "tools" >>= string_tuple false false) _ h5 λ tools e6 h6.
                bind_inv (at raw "evidence_ids" >>= parse_evidence_ids evidence false) _ h6
                  λ ids e7 h7.
                    subst (λ p. Known p.1.evidence_ids) (ok_inj h7)
                      (parse_evidence_ids-known evidence false raw "evidence_ids" e7)

  pub parse_edge-Known :
      (output : Dict EdgeComponent) (v : Json) (e : String × EdgeComponent)
      → parse_edge evidence output v ≡ ok e
      → Known e.1.evidence_ids
  unfolding parse_edge
  parse_edge-Known output v e h = bind_inv (object_with edge_fields v) _ h λ raw e1 h1.
      bind_inv (fresh_id output raw) _ h1 λ i e2 h2.
        bind_inv (at raw "kind" >>= one_of kind_of) _ h2 λ kind e3 h3.
          bind_inv (at raw "name" >>= text) _ h3 λ name e4 h4.
            bind_inv (at raw "locality" >>= parse_locality) _ h4 λ locality e5 h5.
              bind_inv (at raw "capabilities" >>= string_tuple false false) _ h5
                λ capabilities e6 h6.
                  bind_inv (at raw "evidence_ids" >>= parse_evidence_ids evidence false) _ h6
                    λ ids e7 h7.
                      subst (λ p. Known p.1.evidence_ids) (ok_inj h7)
                        (parse_evidence_ids-known evidence false raw "evidence_ids" e7)

  pub parse_verifier-Known :
      (output : Dict VerifierComponent) (v : Json) (e : String × VerifierComponent)
      → parse_verifier evidence output v ≡ ok e
      → Known e.1.evidence_ids
  unfolding parse_verifier
  parse_verifier-Known output v e h = bind_inv (object_with verifier_fields v) _ h λ raw e1 h1.
      bind_inv (fresh_id output raw) _ h1 λ i e2 h2.
        bind_inv (at raw "name" >>= text) _ h2 λ name e3 h3.
          bind_inv (at raw "model_id" >>= identifier) _ h3 λ model_id e4 h4.
            bind_inv (at raw "harness_id" >>= identifier) _ h4 λ harness_id e5 h5.
              bind_inv (at raw "inference_edge_id" >>= identifier) _ h5 λ edge_id e6 h6.
                bind_inv (at raw "status" >>= parse_status) _ h6 λ status e7 h7.
                  bind_inv (at raw "evidence_ids" >>= parse_evidence_ids evidence false) _ h7
                    λ ids e8 h8.
                      subst (λ p. Known p.1.evidence_ids) (ok_inj h8)
                        (parse_evidence_ids-known evidence false raw "evidence_ids" e8)

  -- A route under its identifier that cites known evidence.
  abbrev pub IsSound : String → RouteDefinition → Type 0
  IsSound i r = (r.id ≡ i) × Known r.evidence_ids × Known r.comparison_evidence_ids

  parse_route_body-Sound :
      (i : String) (head : RouteHead) (raw : Dict Json) (r : RouteDefinition)
      → parse_route_body evidence i head raw ≡ ok r
      → IsSound i r
  unfolding parse_route_body
  parse_route_body-Sound i head raw r h = bind_inv (at raw "name" >>= text) _ h λ name e1 h1.
      bind_inv (at raw "qualification_status") _ h1 λ status_value e2 h2.
        bind_inv (parse_status status_value) _ h2 λ status e3 h3.
          bind_inv (at raw "model_ids" >>= string_tuple false false) _ h3 λ model_ids e4 h4.
            bind_inv (at raw "harness_id" >>= identifier) _ h4 λ harness_id e5 h5.
              bind_inv (at raw "inference_edge_id" >>= identifier) _ h5 λ inference e6 h6.
                bind_inv (at raw "execution_edge_id" >>= identifier) _ h6 λ execution e7 h7.
                  bind_inv (at raw "roles" >>= string_tuple false true) _ h7 λ roles e8 h8.
                    bind_inv (at raw "capabilities" >>= string_tuple false true) _ h8
                      λ capabilities e9 h9.
                        bind_inv (at raw "languages" >>= string_tuple false true) _ h9
                          λ languages e10 h10.
                            bind_inv (at raw "tool_needs" >>= string_tuple true false) _ h10
                              λ tool_needs e11 h11.
                                bind_inv (at raw "max_context_tokens" >>= context_limit) _ h11
                                  λ limit e12 h12.
                                    bind_inv
                                      (at raw "required_runtime_tags" >>= string_tuple true false) _
                                      h12
                                      λ tags e13 h13.
                                        bind_inv
                                          (at raw "evidence_ids"
                                            >>= parse_evidence_ids evidence
                                                (is_text_not_run status_value))
                                          _ h13
                                          λ ids e14 h14.
                                            bind_inv
                                              (at raw "comparison_evidence_ids"
                                                >>= parse_evidence_ids evidence true)
                                              _ h14
                                              λ comparison e15 h15. subst (IsSound i) (ok_inj h15) (
                                                refl,
                                                parse_evidence_ids-known evidence
                                                    (is_text_not_run status_value) raw
                                                    "evidence_ids" e14,
                                                parse_evidence_ids-known evidence true raw
                                                    "comparison_evidence_ids" e15,
                                              )

  pub parse_route-Sound :
      (output : Dict RouteDefinition) (v : Json) (e : String × RouteDefinition)
      → parse_route evidence output v ≡ ok e
      → IsSound e.0 e.1
  unfolding parse_route
  parse_route-Sound output v e h = bind_inv (object_with route_fields v) _ h λ raw e1 h1.
      bind_inv (fresh_id output raw) _ h1 λ i e2 h2.
        bind_inv (parse_route_head raw) _ h2 λ head e3 h3.
          bind_inv (parse_route_body evidence i head raw) _ h3 λ r e4 h4.
            subst (λ p. IsSound p.0 p.1) (ok_inj h4) (parse_route_body-Sound i head raw r e4)
