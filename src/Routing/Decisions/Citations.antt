-- ===== src/Routing/Decisions/Citations.antt =====
-- The evidence that a decision of `select_route` cites (src/agent_continuity/routing.py).
use local_ai_coding_agent.Common.{
  String, List, [], ◌∷◌, Option, none, some, true, ◌≡◌, ◌||◌, sym, ◌∙◌, arith, inl, inr, get,
  contains, contains-append, contains-sorted_set, sorted_set-IsSorted, IsSorted, str_leb, ok,
  ok_inj, bind_inv, some_inj, subst, ap, Bool-cases, ◌==◌, eq_iff, Json, item, item-eq-ok,
  map_result, map_result-cons, Dict,
}
use local_ai_coding_agent.Routing.Types.{
  RoutingManifest, RouteDefinition, RoutingRequest, RuntimeState, RoutingDecision, EvidenceRecord,
}
use local_ai_coding_agent.Routing.Selection.{select_route, decision, of_selected}
use local_ai_coding_agent.Routing.Selection.Origin.{AllSelected, IsEligible}
use local_ai_coding_agent.Routing.Decisions.Safety.{selected_id, IsDecision-IsEligible}
use local_ai_coding_agent.Routing.Selection.Evidence.{
  models_evidence, harness_evidence, edge_evidence, verifier_evidence, collect_evidence,
  decision_evidence, evidence_hash, evidence_hashes,
}
use local_ai_coding_agent.Routing.WellFormed.{IsWellFormed}
use local_ai_coding_agent.Routing.Decisions.{select_route-IsDecision}

-- A cited identifier names a record of the manifest, and stands with that record's hash.
abbrev pub IsCited : RoutingManifest → Dict String → String → Type 0
IsCited m hashes i =
    (e : EvidenceRecord) × (get i m.evidence ≡ some e) × (get i hashes ≡ some e.sha256)

evidence_hash_eq :
    (m : RoutingManifest) (i : String) {p : String × String}
    → evidence_hash m i ≡ ok p
    → (e : EvidenceRecord) × (get i m.evidence ≡ some e) × (p ≡ (i, e.sha256))
unfolding evidence_hash
evidence_hash_eq m i h =
    bind_inv (item (get i m.evidence)) _ h λ e e1 e2. (e, item-eq-ok _ e1, sym (ok_inj e2))

hashes-IsCited :
    (m : RoutingManifest) (xs : List String) {hs : Dict String} (i : String)
    → map_result (evidence_hash m) xs ≡ ok hs
    → contains i xs ≡ true
    → IsCited m hs i
unfolding contains get
hashes-IsCited m [] i h c = absurd (cc)
hashes-IsCited m (x ∷ xs) {hs} i h c =
    let (p, ps, ep, eps, eq) = map_result-cons (evidence_hash m) x xs h in
    let (e, ee, pe) = evidence_hash_eq m x ep in
    subst (λ d. IsCited m d i) (sym (eq ∙ ap (λ y. y ∷ ps) pe))
      (elim (Bool-cases (i == x)) [
        | inl t ↦ (e, ap (λ j. get j m.evidence) ((eq_iff i x).0 t) ∙ ee, rw t)
        | inr f ↦ let (e', a, b) = hashes-IsCited m xs i eps (rw f at c) in (e', a, rw f b)
      ])

collect-cites :
    (m : RoutingManifest) (r : RouteDefinition) {xs : List String} (i : String)
    → collect_evidence m r ≡ ok xs
    → (contains i r.evidence_ids || contains i r.comparison_evidence_ids) ≡ true
    → contains i xs ≡ true
unfolding collect_evidence
collect-cites m r i h c = bind_inv (models_evidence m r.model_ids) _ h λ a e1 h1.
    bind_inv (harness_evidence m r.harness_id) _ h1 λ b e2 h2.
      bind_inv (edge_evidence m r.inference_edge_id) _ h2 λ u e3 h3.
        bind_inv (edge_evidence m r.execution_edge_id) _ h3 λ v e4 h4.
          bind_inv (verifier_evidence m r.verifier_id) _ h4 λ w e5 h5.
            subst (λ xs. contains i xs ≡ true) (ok_inj h5)
              (rw
                (
                  contains-append, contains-append, contains-append, contains-append,
                  contains-append, contains-append,
                )
                (ground arith))

-- The evidence of a decision: its identifiers are in order, each names a record of the manifest and
-- stands with that record's hash, and the selected route's own and comparison evidence is cited.
pub record IsWellCited (m : RoutingManifest) (d : RoutingDecision) : Type 0 where
  pub sorted : IsSorted str_leb d.evidence_ids
  pub cited : (i : String) → contains i d.evidence_ids ≡ true → IsCited m d.evidence_sha256 i
  pub complete :
      (r : RouteDefinition)
      → d.selected_route_id ≡ some r.id
      → get r.id m.routes ≡ some r
      → (i : String) → (contains i r.evidence_ids || contains i r.comparison_evidence_ids) ≡ true
      → contains i d.evidence_ids ≡ true

decision_evidence-IsSorted :
    (m : RoutingManifest) (o : Option RouteDefinition) {xs : List String}
    → decision_evidence m o ≡ ok xs
    → IsSorted str_leb xs
unfolding decision_evidence
decision_evidence-IsSorted m none h = subst (IsSorted str_leb) (ok_inj h) tt
decision_evidence-IsSorted m (some r) h =
    bind_inv (collect_evidence m r) _ h
      λ ys e1 e2. subst (IsSorted str_leb) (ok_inj e2) (sorted_set-IsSorted ys)

decision_evidence-cites :
    (m : RoutingManifest) (r : RouteDefinition) {xs : List String} (i : String)
    → decision_evidence m (some r) ≡ ok xs
    → (contains i r.evidence_ids || contains i r.comparison_evidence_ids) ≡ true
    → contains i xs ≡ true
unfolding decision_evidence
decision_evidence-cites m r i h c = bind_inv (collect_evidence m r) _ h λ ys e1 e2.
    subst (λ xs. contains i xs ≡ true) (ok_inj e2)
      (contains-sorted_set i ys ∙ collect-cites m r i e1 c)

-- Every decision over a well-formed manifest is well cited.
pub select_route-IsWellCited :
    (digest : Json → String) (m : RoutingManifest) (q : RoutingRequest) (rt : RuntimeState)
    (d : RoutingDecision)
    → IsWellFormed m
    → select_route digest m q rt ≡ ok d
    → IsWellCited m d
unfolding decision evidence_hashes
select_route-IsWellCited digest m q rt d w h =
    let x = select_route-IsDecision digest m q rt h in
    let ids_eq : x.cited ≡ d.evidence_ids = ap (λ y. y.evidence_ids) x.is_built in
    let hashes_eq : x.hashes ≡ d.evidence_sha256 = ap (λ y. y.evidence_sha256) x.is_built in
    record {
      sorted =
          subst (IsSorted str_leb) ids_eq
            (decision_evidence-IsSorted m x.choice.selected x.is_cited);
      cited = λ i c.
          subst (λ hs. IsCited m hs i) hashes_eq
            (hashes-IsCited m x.cited i x.is_hashed (rw (← ids_eq) at c));
      complete = λ r e er i c.
          subst (λ xs. contains i xs ≡ true) ids_eq
            (of_selection r er i c x.cited x.choice.selected
              (sym (selected_id digest m q rt d x) ∙ e) (IsDecision-IsEligible digest m q rt d w x)
              x.is_cited);
    }
  where
    of_selection :
        (r : RouteDefinition)
        → get r.id m.routes ≡ some r
        → (i : String) → (contains i r.evidence_ids || contains i r.comparison_evidence_ids) ≡ true
        → (xs : List String) (o : Option RouteDefinition) → of_selected (λ s. s.id) o ≡ some r.id
        → AllSelected (IsEligible m q rt) o
        → decision_evidence m o ≡ ok xs
        → contains i xs ≡ true
    of_selection r er i c xs none e el h = absurd (cc)
    of_selection r er i c xs (some s) e (k, es, _, _) h =
        let at_key : k.route_id ≡ r.id = sym (w.keyed k.route_id s es) ∙ some_inj e in
        let same : s ≡ r = some_inj (sym es ∙ (ap (λ j. get j m.routes) at_key ∙ er)) in
        decision_evidence-cites m r i (subst (λ y. decision_evidence m (some y) ≡ ok xs) same h) c
