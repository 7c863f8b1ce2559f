-- ===== src/Routing/Tests.antt =====
-- A small manifest with a cloud primary route, a local single route and a local team, and what the
-- routing model does on it; the theorems of src/agent_continuity/routing.py at this manifest.
use local_ai_coding_agent.Common.{
  ℕ, String, List, [], ◌∷◌, Option, none, some, Bool, true, false, false≢true, sym, ◌∙◌, ◌↔◌, ◌⊎◌,
  is_duplicate_free, ◌≡◌, ◌≢◌, refl, arith, Json, pos, get, has, keys, contains, is_subset,
  difference, sorted_set, sort, distinct, str_leb, set_eq, values, Result, err, ok, is_empty,
  insert_sorted, codes_leb, Succeeds, AllEntries-get, eq_iff,
}
use local_ai_coding_agent.Routing.Types.{
  Locality, Composition, cloud, local, combined, single, team, production, accepted, not_run,
  ModelComponent, EdgeComponent, RouteDefinition, RoutingManifest, RoutingRequest, RuntimeState,
  RoutingDecision, RouteConsideration, routed, unroutable,
}
use local_ai_coding_agent.Routing.Locality.{route_is_local, supports, route_has_cloud_dependency}
use local_ai_coding_agent.Routing.Eligibility.{
  runtime_references_are_known, consider_route, policy_reasons, component_reasons, verifier_reasons,
  surface_reasons,
}
use local_ai_coding_agent.Routing.Canonical.{sorted_array, request_canonical, runtime_canonical}
use local_ai_coding_agent.Routing.Selection.{select_route}
use local_ai_coding_agent.Routing.Selection.Evidence.{decision_evidence, evidence_hashes}
use local_ai_coding_agent.Routing.Selection.Ranking.{
  is_proven_team, key_leb, team_leb, select_non_primary,
}
use local_ai_coding_agent.Routing.Validation.{validate_cross_references}
use local_ai_coding_agent.Routing.Validation.Verifiers.{check_verifier}
use local_ai_coding_agent.Routing.Validation.Routes.{
  check_route, check_references, check_composition, check_acceptance, check_accepted_verifier,
  check_tools, check_model, check_xcode,
}
use local_ai_coding_agent.Routing.Validation.Teams.{
  check_team, check_baseline, check_accepted_team, same_surface,
}
use local_ai_coding_agent.Routing.Validation.Policy.{
  check_policy, check_primary, check_apple, check_sovereign,
}
use local_ai_coding_agent.Routing.WellFormed.{IsWellFormed, CitesKnown-AllEntries}
use local_ai_coding_agent.Routing.Selection.{considerations}
use local_ai_coding_agent.Routing.Totality.Telemetry.{ids, considerations-ids}
use local_ai_coding_agent.Routing.Permission.{IsPermitted, consider_route-IsPermitted}
use local_ai_coding_agent.Routing.Fields.{is_identifier}
use local_ai_coding_agent.Routing.Adjudication.{
  IsOutcome, adjudicate_qualification_status, adjudicate_qualification_status-IsOutcome,
}
use local_ai_coding_agent.Routing.Validation.Governance.{IsGoverned, validated-IsGoverned}
use local_ai_coding_agent.Routing.Decisions.Safety.{
  IsAllLocal, selected-IsPermitted, offline-IsAllLocal,
}
use local_ai_coding_agent.Routing.Decisions.Production.{primary_preferred, fallback_explained}
use local_ai_coding_agent.Routing.Decisions.Merits.{IsProvenOver}
use local_ai_coding_agent.Routing.Decisions.Completeness.{
  IsOffered, IsBestOffered, IsBestOfferedTeam, fallback-IsBest, offered_single-routed,
}
use local_ai_coding_agent.Routing.Decisions.Citations.{IsWellCited, select_route-IsWellCited}
use local_ai_coding_agent.Routing.Totality.Choice.{select_route_total}
use local_ai_coding_agent.Routing.Requests.{check_request, check_request-candidate}
use local_ai_coding_agent.Routing.Eligibility.{is_production}
use local_ai_coding_agent.Common.{is_none}

abbrev cited : List String
cited = "run" ∷ []

abbrev model_of : String → Locality → ModelComponent
model_of i l = record {
  id = i;
  name = i;
  provider = "own";
  locality = l;
  roles = "*" ∷ [];
  languages = "*" ∷ [];
  max_context_tokens = none;
  evidence_ids = cited;
}

abbrev edge_of : String → Locality → EdgeComponent
edge_of i l = record {
  id = i;
  name = i;
  locality = l;
  kind = combined;
  capabilities = "xcode" ∷ "shell" ∷ [];
  evidence_ids = cited;
}

abbrev route_of : String → Composition → List String → String → ℕ → Option String → RouteDefinition
route_of i c models edge priority baseline = record {
  id = i;
  name = i;
  qualification_status = accepted;
  composition = c;
  model_ids = models;
  harness_id = "harness";
  verifier_id = some "verifier";
  inference_edge_id = edge;
  execution_edge_id = "mac";
  roles = "implement" ∷ [];
  capabilities = "*" ∷ [];
  languages = "python" ∷ [];
  tool_needs = "shell" ∷ [];
  max_context_tokens = some 4096;
  priority = priority;
  required_runtime_tags = [];
  evidence_ids = cited;
  baseline_route_id = baseline;
  team_gain_basis_points = elim baseline [ none ↦ none | some _ ↦ some (pos 250) ];
  comparison_evidence_ids = elim baseline [ none ↦ [] | some _ ↦ "compare" ∷ [] ];
}

abbrev manifest : RoutingManifest
manifest = record {
  schema_version = 1;
  manifest_id = "small";
  evidence =
      ("run", record { id = "run"; path = "runs/run.json"; sha256 = "sha256:run" })
      ∷ (
        "compare",
        record { id = "compare"; path = "runs/compare.json"; sha256 = "sha256:compare" },
      )
      ∷ [];
  models =
      ("big", model_of "big" cloud) ∷ ("a", model_of "a" local) ∷ ("b", model_of "b" local) ∷ [];
  harnesses =
      (
        "harness",
        record {
          id = "harness";
          name = "harness";
          locality = local;
          mode = "cli";
          tools = "edit" ∷ [];
          evidence_ids = cited;
        },
      )
      ∷ [];
  verifiers =
      (
        "verifier",
        record {
          id = "verifier";
          name = "verifier";
          model_id = "a";
          harness_id = "harness";
          inference_edge_id = "mac";
          status = accepted;
          evidence_ids = cited;
        },
      )
      ∷ [];
  edges = ("remote", edge_of "remote" cloud) ∷ ("mac", edge_of "mac" local) ∷ [];
  routes =
      ("primary", route_of "primary" single ("big" ∷ []) "remote" 0 none)
      ∷ ("solo", route_of "solo" single ("a" ∷ []) "mac" 10 none)
      ∷ ("duo", route_of "duo" team ("a" ∷ "b" ∷ []) "mac" 20 (some "solo"))
      ∷ [];
  policy = record {
    cloud_primary_route_id = "primary";
    sovereign_route_ids = "solo" ∷ [];
    apple_execution_edge_id = "mac";
    production_eligible_statuses = "accepted" ∷ [];
    automatic_retries = 0;
  };
  sha256 = "sha256:manifest";
}

abbrev request : RoutingRequest
request = record {
  task_id = "t";
  role = "implement";
  capability = "edit";
  language = "python";
  context_tokens = 2048;
  tool_needs = "shell" ∷ [];
  mode = production;
  candidate_route_id = none;
}

abbrev runtime : Bool → List String → RuntimeState
runtime up models = record {
  cloud_available = up;
  operable_model_ids = models;
  operable_harness_ids = "harness" ∷ [];
  available_edge_ids = "remote" ∷ "mac" ∷ [];
  satisfied_runtime_tags = [];
}

abbrev digest : Json → String
digest j = "sha256:digest"

abbrev known : List String
known = "run" ∷ "compare" ∷ []

manifest-IsWellFormed : IsWellFormed manifest
unfolding is_subset contains keys
manifest-IsWellFormed = record {
  keyed = λ i r.
      AllEntries-get (λ k (v : RouteDefinition). v.id ≡ k) i manifest.routes
        (refl, (refl, (refl, tt)));
  models_cite =
      CitesKnown-AllEntries known (λ c. c.evidence_ids) manifest.models (refl, (refl, (refl, tt)));
  harnesses_cite = CitesKnown-AllEntries known (λ c. c.evidence_ids) manifest.harnesses (refl, tt);
  edges_cite = CitesKnown-AllEntries known (λ c. c.evidence_ids) manifest.edges (refl, (refl, tt));
  verifiers_cite = CitesKnown-AllEntries known (λ c. c.evidence_ids) manifest.verifiers (refl, tt);
  routes_cite =
      CitesKnown-AllEntries known (λ r. r.evidence_ids) manifest.routes (refl, (refl, (refl, tt)));
  comparisons_cite =
      CitesKnown-AllEntries known (λ r. r.comparison_evidence_ids) manifest.routes
        (refl, (refl, (refl, tt)));
}

manifest_valid : validate_cross_references manifest ≡ ok tt
unfolding validate_cross_references check_verifier check_route check_references check_composition
    check_acceptance check_accepted_verifier check_tools check_model check_xcode check_team
    check_baseline check_accepted_team same_surface check_policy check_primary check_apple
    check_sovereign route_is_local supports get has values contains is_subset set_eq difference keys
manifest_valid = refl

abbrev all_models : List String
all_models = "big" ∷ "a" ∷ "b" ∷ []

runtime_known :
    (runtime_references_are_known manifest (runtime true all_models) ≡ ok tt)
    × (runtime_references_are_known manifest (runtime false all_models) ≡ ok tt)
    × (runtime_references_are_known manifest (runtime false ("a" ∷ [])) ≡ ok tt)
unfolding runtime_references_are_known difference contains keys
runtime_known = (refl, refl, refl)

select_route_total_example :
    Succeeds (select_route digest manifest request (runtime true all_models))
select_route_total_example =
    select_route_total digest manifest request (runtime true all_models) manifest-IsWellFormed
      manifest_valid runtime_known.0 refl

abbrev undecided : RoutingDecision
undecided = record {
  status = unroutable;
  selected_route_id = none;
  model_ids = [];
  harness_id = none;
  verifier_id = none;
  inference_edge_id = none;
  execution_edge_id = none;
  fallback_from_route_id = none;
  fallback_reason_code = none;
  fallback_detail_codes = [];
  evidence_ids = [];
  evidence_sha256 = [];
  considered = [];
  request_sha256 = "";
  runtime_sha256 = "";
  manifest_sha256 = "";
  automatic_retries = 0;
}

abbrev value : Result RoutingDecision → RoutingDecision
value (ok d) = d
value (err e) = undecided

-- With everything up, with the cloud down, and with one local model only.
decide : Bool → List String → RoutingDecision
unfolding select_route runtime_references_are_known difference contains keys get has sort
    insert_sorted str_leb codes_leb distinct sorted_set consider_route policy_reasons
    component_reasons verifier_reasons surface_reasons supports is_subset route_has_cloud_dependency
    request_canonical runtime_canonical sorted_array decision_evidence evidence_hashes
    select_non_primary is_proven_team team_leb key_leb
decide up models = value (select_route digest manifest request (runtime up models))

decisions :
    (select_route digest manifest request (runtime true all_models) ≡ ok (decide true all_models))
    × (select_route digest manifest request (runtime false all_models)
        ≡ ok (decide false all_models))
    × (select_route digest manifest request (runtime false ("a" ∷ []))
        ≡ ok (decide false ("a" ∷ [])))
unfolding decide
decisions = (refl, refl, refl)

-- The primary route while the cloud is up; the team without the cloud; the single route when only
-- one local model runs.
selections :
    ((decide true all_models).selected_route_id ≡ some "primary")
    × ((decide false all_models).selected_route_id ≡ some "duo")
    × ((decide false ("a" ∷ [])).selected_route_id ≡ some "solo")
unfolding decide
selections = (refl, refl, refl)

primary : RouteDefinition
primary = route_of "primary" single ("big" ∷ []) "remote" 0 none

solo : RouteDefinition
solo = route_of "solo" single ("a" ∷ []) "mac" 10 none

duo : RouteDefinition
duo = route_of "duo" team ("a" ∷ "b" ∷ []) "mac" 20 (some "solo")

duo_found : get "duo" manifest.routes ≡ some duo
unfolding get duo
duo_found = refl

primary_found : get "primary" manifest.routes ≡ some primary
unfolding get primary
primary_found = refl

solo_found : get "solo" manifest.routes ≡ some solo
unfolding get solo
solo_found = refl

selected-IsPermitted_example :
    (r : RouteDefinition) × (get "duo" manifest.routes ≡ some r)
    × IsPermitted manifest request (runtime false all_models) r
selected-IsPermitted_example =
    selected-IsPermitted digest manifest request (runtime false all_models)
      (decide false all_models) "duo" manifest-IsWellFormed decisions.1 selections.1

offline-IsAllLocal_example :
    (r : RouteDefinition) × (get "duo" manifest.routes ≡ some r) × IsAllLocal manifest r
offline-IsAllLocal_example =
    offline-IsAllLocal digest manifest request (runtime false all_models) (decide false all_models)
      "duo" manifest-IsWellFormed decisions.1 refl selections.1

-- The consideration of a route, as a value.
consideration : RouteDefinition → RuntimeState → RouteConsideration
unfolding decide primary solo
consideration r rt = elim (consider_route manifest request rt r) [
  | ok c ↦ c
  | err e ↦ record {
    route_id = "";
    qualification_status = not_run;
    eligible = false;
    reason_codes = [];
  }
]

considered :
    (consider_route manifest request (runtime true all_models) primary
      ≡ ok (consideration primary (runtime true all_models)))
    × (consider_route manifest request (runtime false all_models) primary
        ≡ ok (consideration primary (runtime false all_models)))
    × (consider_route manifest request (runtime false all_models) solo
        ≡ ok (consideration solo (runtime false all_models)))
unfolding consideration
considered = (refl, refl, refl)

eligibility :
    ((consideration primary (runtime true all_models)).eligible ≡ true)
    × ((consideration primary (runtime false all_models)).eligible ≡ false)
    × ((consideration solo (runtime false all_models)).eligible ≡ true)
unfolding consideration
eligibility = (refl, refl, refl)

consider_route-IsPermitted_example :
    ((consideration solo (runtime false all_models)).eligible ≡ true)
    ↔ IsPermitted manifest request (runtime false all_models) solo
consider_route-IsPermitted_example =
    consider_route-IsPermitted manifest request (runtime false all_models) solo considered.2

primary-IsPermitted : IsPermitted manifest request (runtime true all_models) primary
primary-IsPermitted =
    (consider_route-IsPermitted manifest request (runtime true all_models) primary considered.0).0
      eligibility.0

primary_forbidden : ¬ IsPermitted manifest request (runtime false all_models) primary
primary_forbidden p = false≢true (
    sym eligibility.1
    ∙ (consider_route-IsPermitted manifest request (runtime false all_models) primary
          considered.1).1
        p)

primary_preferred_example :
    ((decide true all_models).selected_route_id ≡ some primary.id)
    × ((decide true all_models).fallback_reason_code ≡ none)
    × ((decide true all_models).fallback_from_route_id ≡ none)
primary_preferred_example =
    primary_preferred digest manifest request (runtime true all_models) (decide true all_models)
      primary manifest-IsWellFormed decisions.0 refl primary_found primary-IsPermitted

not_primary : (decide false all_models).selected_route_id ≢ some primary.id
unfolding decide primary
not_primary = ground (arith, eq_iff "duo" "primary")

fallback_explained_example :
    ((decide false all_models).fallback_from_route_id ≡ some primary.id)
    × (is_empty (decide false all_models).fallback_detail_codes ≡ false)
    × ((c : RouteConsideration) × (consider_route manifest request
            (runtime false all_models)
            primary
          ≡ ok c)
        × ((decide false all_models).fallback_detail_codes ≡ c.reason_codes))
fallback_explained_example =
    fallback_explained digest manifest request (runtime false all_models) (decide false all_models)
      primary manifest-IsWellFormed decisions.1 refl primary_found not_primary

fallback-IsBest_example :
    (best : RouteDefinition) × IsBestOffered manifest request (runtime false all_models) best
    × ((best.id ≡ "duo")
          × ((x : RouteDefinition)
              → IsOffered manifest request (runtime false all_models) x
              → ¬ IsProvenOver best x)
        ⊎ ((r : RouteDefinition) × (r.id ≡ "duo")
            × IsBestOfferedTeam manifest request (runtime false all_models) best r))
fallback-IsBest_example =
    fallback-IsBest digest manifest request (runtime false all_models) (decide false all_models)
      primary "duo" manifest-IsWellFormed decisions.1 refl primary_found primary_forbidden
      selections.1

solo-IsOffered : IsOffered manifest request (runtime false all_models) solo
solo-IsOffered = (
  "solo",
  solo_found,
  (consider_route-IsPermitted manifest request (runtime false all_models) solo considered.2).0
      eligibility.2,
)

offered_single-routed_example : (decide false all_models).status ≡ routed
unfolding solo
offered_single-routed_example =
    offered_single-routed digest manifest request (runtime false all_models)
      (decide false all_models) primary solo manifest-IsWellFormed decisions.1 refl primary_found
      solo-IsOffered refl

select_route-IsWellCited_example : IsWellCited manifest (decide false all_models)
select_route-IsWellCited_example =
    select_route-IsWellCited digest manifest request (runtime false all_models)
      (decide false all_models) manifest-IsWellFormed decisions.1

validated-IsGoverned_example : IsGoverned manifest duo
validated-IsGoverned_example = validated-IsGoverned manifest "duo" duo manifest_valid duo_found

considered_all :
    considerations manifest request (runtime false all_models)
    ≡ ok (decide false all_models).considered
unfolding decide considerations
considered_all = refl

considerations-ids_example :
    ids (decide false all_models).considered ≡ sort str_leb (keys manifest.routes)
considerations-ids_example =
    considerations-ids manifest-IsWellFormed request (runtime false all_models) considered_all

observed : adjudicate_qualification_status not_run accepted true true ("run" ∷ []) ≡ ok accepted
unfolding adjudicate_qualification_status is_duplicate_free contains is_identifier
observed = refl

adjudicate_qualification_status-IsOutcome_example :
    adjudicate_qualification_status not_run accepted true true cited ≡ ok accepted
    ↔ (is_duplicate_free cited ≡ true) × IsOutcome not_run accepted true true cited accepted
adjudicate_qualification_status-IsOutcome_example =
    adjudicate_qualification_status-IsOutcome not_run accepted accepted true true cited

request_checked : check_request request ≡ ok tt
unfolding check_request is_identifier is_duplicate_free contains
request_checked = refl

check_request-candidate_example : is_none request.candidate_route_id ≡ is_production request.mode
check_request-candidate_example = check_request-candidate request request_checked
