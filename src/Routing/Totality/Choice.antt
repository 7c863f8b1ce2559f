-- ===== src/Routing/Totality/Choice.antt =====
-- `select_route` of src/agent_continuity/routing.py returns on a validated manifest.
use local_ai_coding_agent.Common.{
  String, List, [], ◌∷◌, Option, none, some, true, ◌≡◌, ◌||◌, refl, sym, ◌∙◌, arith, get, has, keys,
  Succeeds, Succeeds-then, Succeeds-item, contains, contains-sort, has-get, ok, Bool-cases, inl,
  inr, Succeeds-if, ◌&&◌, not, Json, str_eq_self, get-has, ◌==◌, if◌then◌else◌, item,
}
use local_ai_coding_agent.Routing.Types.{
  RoutingManifest, RouteDefinition, RoutingRequest, RuntimeState, RouteConsideration,
}
use local_ai_coding_agent.Routing.Eligibility.{is_production, runtime_references_are_known}
use local_ai_coding_agent.Routing.Selection.{
  is_known_candidate, considerations, by_id, eligible_routes, select_production, select_candidate,
  select_by_mode, candidate_fallback, fallback, Choice, choose_among, choose, decision,
  select_route, no_fallback,
}
use local_ai_coding_agent.Routing.WellFormed.{IsWellFormed}
use local_ai_coding_agent.Routing.Validation.{validate_cross_references}
use local_ai_coding_agent.Routing.Validation.Soundness.{
  IsValidated, validate-IsValidated, primary-IsCloud,
}
use local_ai_coding_agent.Routing.Totality.Telemetry.{
  ids, considerations-ids, considerations_total, by_id_total,
}
use local_ai_coding_agent.Routing.Totality.Evidence.{
  decision_evidence-known, evidence_hashes_total, IsOfManifest,
}
use local_ai_coding_agent.Routing.Selection.Ranking.{select_non_primary}
use local_ai_coding_agent.Routing.Selection.Origin.{IsEligible, AllSelected, selected-IsEligible}

-- All of the considered identifiers are routes of the manifest.
abbrev AllKnown : RoutingManifest → List RouteConsideration → Type 0
AllKnown m cs = (i : String) → contains i (ids cs) ≡ true → has i m.routes ≡ true

eligible_routes_total :
    (m : RoutingManifest) (cs : List RouteConsideration)
    → AllKnown m cs
    → Succeeds (eligible_routes m cs)
unfolding eligible_routes contains
eligible_routes_total m [] h = ([], refl)
eligible_routes_total m (c ∷ cs) h =
    let (r, e) = has-get c.route_id m.routes (h c.route_id (rw (str_eq_self c.route_id))) in
    let (rs, k) = eligible_routes_total m cs (λ i p. h i (ground (arith, p))) in
    elim (Bool-cases c.eligible) [ inl t ↦ (r ∷ rs, rw (t, e, k)) | inr f ↦ (rs, rw (f, k)) ]

select_candidate_total :
    (m : RoutingManifest) (o : Option String) (es : List RouteDefinition)
    → is_known_candidate m o ≡ true
    → Succeeds (select_candidate m o es)
unfolding select_candidate
select_candidate_total m o [] k = (none, refl)
select_candidate_total m none (x ∷ xs) k = absurd (cc)
select_candidate_total m (some i) (x ∷ xs) k =
    Succeeds-then (item (get i m.routes)) _ (Succeeds-item i m.routes k) (λ r. (_, refl))

module _ {m : RoutingManifest} (w : IsWellFormed m) (valid : IsValidated m) (q : RoutingRequest)
    (rt : RuntimeState) (cs : List RouteConsideration) (ecs : considerations m q rt ≡ ok cs) where
  considered-AllKnown : AllKnown m cs
  unfolding has
  considered-AllKnown i h =
      sym (contains-sort i (keys m.routes)) ∙ (rw (considerations-ids w q rt ecs) at h)

  primary_considered :
      (primary : RouteDefinition)
      → get m.policy.cloud_primary_route_id m.routes ≡ some primary
      → (c : RouteConsideration) × (by_id primary.id cs ≡ some c)
  primary_considered primary e =
      by_id_total w q rt primary.id ecs
        (rw (w.keyed m.policy.cloud_primary_route_id primary e) (get-has _ m.routes e))

  select_by_mode_total :
      (es : List RouteDefinition) (primary : RouteDefinition)
      → get m.policy.cloud_primary_route_id m.routes ≡ some primary
      → (is_production q.mode || is_known_candidate m q.candidate_route_id) ≡ true
      → Succeeds (select_by_mode m q cs es primary)
  unfolding select_by_mode select_production select_candidate
  select_by_mode_total es primary e k = elim (Bool-cases (is_production q.mode)) [
    | inl p ↦
        let (c, f) = primary_considered primary e in
        ((if c.eligible then some primary else select_non_primary es), rw (p, f))
    | inr n ↦ rw n (select_candidate_total m q.candidate_route_id es (rw n at k))
  ]

  candidate_fallback_total :
      (o : Option String) → is_known_candidate m o ≡ true → Succeeds (candidate_fallback cs o)
  unfolding candidate_fallback
  candidate_fallback_total none h = absurd (cc)
  candidate_fallback_total (some i) h =
      let (c, f) = by_id_total w q rt i ecs h in
      Succeeds-then (item (by_id i cs)) _ (c, rw f) (λ d. (_, refl))

  fallback_total :
      (primary : RouteDefinition) (selected : Option RouteDefinition)
      → get m.policy.cloud_primary_route_id m.routes ≡ some primary
      → (is_production q.mode || is_known_candidate m q.candidate_route_id) ≡ true
      → Succeeds (fallback q cs primary selected)
  unfolding fallback
  fallback_total primary (some r) e k =
      let (c, f) = primary_considered primary e in
      Succeeds-if (is_production q.mode && not (r.id == primary.id)) _ _
        (λ _. Succeeds-then (item (by_id primary.id cs)) _ (c, rw f) (λ d. (_, refl)))
        (λ _. (no_fallback, refl))
  fallback_total primary none e k =
      Succeeds-if (is_production q.mode) _ _
        (λ _.
          let (c, f) = primary_considered primary e in
          Succeeds-then (item (by_id primary.id cs)) _ (c, rw f) (λ d. (_, refl)))
        (λ n. candidate_fallback_total q.candidate_route_id (rw n at k))

choose_total :
    {m : RoutingManifest} (w : IsWellFormed m) (valid : IsValidated m) (q : RoutingRequest)
    (rt : RuntimeState)
    → runtime_references_are_known m rt ≡ ok tt
    → (is_production q.mode || is_known_candidate m q.candidate_route_id) ≡ true
    → (c : Choice) × (choose m q rt ≡ ok c) × IsOfManifest m c.selected
unfolding choose choose_among
choose_total {m} w valid q rt known k =
    let (cs, ecs) = considerations_total w q rt valid in
    let (es, ees) = eligible_routes_total m cs (considered-AllKnown w valid q rt cs ecs) in
    let (primary, ep, _, _) = primary-IsCloud valid in
    let (s, se) = select_by_mode_total w valid q rt cs ecs es primary ep k in
    let (f, fe) = fallback_total w valid q rt cs ecs primary s ep k in
    (
      record { considered = cs; selected = s; explained = f },
      rw (known, k, ecs, ees, ep, se, fe),
      of_manifest s (selected-IsEligible w q rt es primary ecs ees ep se),
    )
  where
    of_manifest :
        (o : Option RouteDefinition) → AllSelected (IsEligible m q rt) o → IsOfManifest m o
    of_manifest none h = tt
    of_manifest (some r) (c, e, _, _) = (c.route_id, e)

-- On a well-formed manifest that passes the cross-reference validation, with a runtime snapshot of
-- known components and, in qualification mode, a known candidate, `select_route` returns a
-- decision: no subscript of a mapping fails.
pub select_route_total :
    (digest : Json → String) (m : RoutingManifest) (q : RoutingRequest) (rt : RuntimeState)
    → IsWellFormed m
    → validate_cross_references m ≡ ok tt
    → runtime_references_are_known m rt ≡ ok tt
    → (is_production q.mode || is_known_candidate m q.candidate_route_id) ≡ true
    → Succeeds (select_route digest m q rt)
unfolding select_route
select_route_total digest m q rt w v known k =
    let valid = validate-IsValidated m v in
    let (c, e, om) = choose_total w valid q rt known k in
    let (xs, ex, kx) = decision_evidence-known w valid c.selected om in
    let (hs, eh) = evidence_hashes_total m xs kx in (decision digest m q rt c xs hs, rw (e, ex, eh))
