-- ===== src/Routing/Selection.antt =====
-- `_select_non_primary` and `select_route` of src/agent_continuity/routing.py. `hashlib` is the
-- parameter `digest`, from the canonical JSON value to the text of its hash.
pub mod Ranking
pub mod Evidence
pub mod Origin
use local_ai_coding_agent.Common.{
  ℕ, Bool, true, false, not, ◌&&◌, ◌||◌, String, List, [], ◌∷◌, ◌++◌, map, Option, none, some,
  Result, ok, err, Error, request_error, guard, ◌>>=◌, ◌>>◌, item, get, keys, has, sorted_set, sort,
  str_leb, is_empty, ◌==◌, if◌then◌else◌, map_result, Dict, Json,
}
use local_ai_coding_agent.Routing.Types.{
  Mode, production, qualification, RoutingManifest, RouteDefinition, RoutingRequest, RuntimeState,
  Reason, cloud_unavailable, RouteConsideration, FallbackCode, fallback_cloud_unavailable,
  cloud_primary_incompatible, qualification_candidate_unavailable, no_accepted_compatible_route,
  DecisionStatus, routed, unroutable, RoutingDecision,
}
use local_ai_coding_agent.Routing.Eligibility.{
  is_production, runtime_references_are_known, consider_route,
}
use local_ai_coding_agent.Routing.Canonical.{request_canonical, runtime_canonical}
use Ranking.{select_non_primary}
use Evidence.{decision_evidence, evidence_hashes}

-- `request.candidate_route_id in manifest.routes`
abbrev pub is_known_candidate : RoutingManifest → Option String → Bool
is_known_candidate m none = false
is_known_candidate m (some c) = has c m.routes

unfoldable pub consider_at :
    RoutingManifest → RoutingRequest → RuntimeState → String → Result RouteConsideration
consider_at m q rt i = do r ← item (get i m.routes); consider_route m q rt r

unfoldable pub considerations :
    RoutingManifest → RoutingRequest → RuntimeState → Result (List RouteConsideration)
unfolding consider_at
considerations m q rt = map_result (consider_at m q rt) (sort str_leb (keys m.routes))

-- `{item.route_id: item for item in considerations}` read at a key: the last item wins.
unfoldable pub by_id : String → List RouteConsideration → Option RouteConsideration
by_id i [] = none
by_id i (c ∷ cs) =
    let later = by_id i cs in
    elim later [ some d ↦ some d | none ↦ if i == c.route_id then some c else none ]

unfoldable pub eligible_routes :
    RoutingManifest → List RouteConsideration → Result (List RouteDefinition)
eligible_routes m [] = ok []
eligible_routes m (c ∷ cs) =
    let rest = eligible_routes m cs in
    if c.eligible then (do r ← item (get c.route_id m.routes); rs ← rest; ok (r ∷ rs)) else rest

-- `id in {item.id for item in eligible}`
unfoldable pub is_among : String → List RouteDefinition → Bool
is_among i [] = false
is_among i (r ∷ rs) = i == r.id || is_among i rs

unfoldable pub select_candidate :
    RoutingManifest → Option String → List RouteDefinition → Result (Option RouteDefinition)
unfolding is_among
select_candidate m candidate [] = ok none
select_candidate m none (e ∷ es) = item none
select_candidate m (some c) (e ∷ es) = do
  r ← item (get c m.routes)
  ok (if is_among r.id (e ∷ es) then some r else none)

unfoldable pub select_production :
    List RouteConsideration
    → List RouteDefinition
    → RouteDefinition
    → Result (Option RouteDefinition)
unfolding by_id
select_production cs eligible primary = do
  c ← item (by_id primary.id cs)
  ok (if c.eligible then some primary else select_non_primary eligible)

unfoldable pub select_by_mode :
    RoutingManifest
    → RoutingRequest
    → List RouteConsideration
    → List RouteDefinition
    → RouteDefinition
    → Result (Option RouteDefinition)
unfolding select_candidate select_production
select_by_mode m q cs eligible primary =
    if is_production q.mode
    then select_production cs eligible primary
    else select_candidate m q.candidate_route_id eligible

pub record Fallback : Type 0 where
  pub from : Option String
  pub code : Option FallbackCode
  pub details : List Reason

abbrev pub no_fallback : Fallback
no_fallback = record { from = none; code = none; details = [] }

-- `"cloud_unavailable" in fallback_details`
unfoldable pub names_cloud : List Reason → Bool
names_cloud [] = false
names_cloud (cloud_unavailable ∷ rs) = true
names_cloud (_ ∷ rs) = names_cloud rs

unfoldable pub candidate_fallback : List RouteConsideration → Option String → Result Fallback
unfolding by_id
candidate_fallback cs candidate = do
  i ← item candidate
  c ← item (by_id i cs)
  ok (record {
    from = none;
    code = some qualification_candidate_unavailable;
    details = c.reason_codes;
  })

unfoldable pub fallback :
    RoutingRequest
    → List RouteConsideration
    → RouteDefinition
    → Option RouteDefinition
    → Result Fallback
unfolding by_id names_cloud candidate_fallback
fallback q cs primary (some r) =
    if is_production q.mode && not (r.id == primary.id)
    then (do
      c ← item (by_id primary.id cs)
      ok (record {
        from = some primary.id;
        code = some (
            if names_cloud c.reason_codes
            then fallback_cloud_unavailable
            else cloud_primary_incompatible);
        details = c.reason_codes;
      }))
    else ok no_fallback
fallback q cs primary none =
    if is_production q.mode
    then (do
      c ← item (by_id primary.id cs)
      ok (record {
        from = some primary.id;
        code = some no_accepted_compatible_route;
        details = c.reason_codes;
      }))
    else candidate_fallback cs q.candidate_route_id

abbrev pub decision_status : Option RouteDefinition → DecisionStatus
decision_status none = unroutable
decision_status (some r) = routed

abbrev pub model_ids_of : Option RouteDefinition → List String
model_ids_of none = []
model_ids_of (some r) = r.model_ids

abbrev pub verifier_of : Option RouteDefinition → Option String
verifier_of none = none
verifier_of (some r) = r.verifier_id

-- `f(selected) if selected is not None else None`
abbrev pub of_selected : (RouteDefinition → String) → Option RouteDefinition → Option String
of_selected f none = none
of_selected f (some r) = some (f r)

-- The choice itself, with the considerations and the fallback that explain it.
pub record Choice : Type 0 where
  pub considered : List RouteConsideration
  pub selected : Option RouteDefinition
  pub explained : Fallback

unfoldable pub choose_among : RoutingManifest → RoutingRequest → RuntimeState → Result Choice
unfolding considerations eligible_routes select_by_mode fallback
choose_among m q rt = do
  cs ← considerations m q rt
  eligible ← eligible_routes m cs
  primary ← item (get m.policy.cloud_primary_route_id m.routes)
  selected ← select_by_mode m q cs eligible primary
  f ← fallback q cs primary selected
  ok (record { considered = cs; selected = selected; explained = f })

unfoldable pub choose : RoutingManifest → RoutingRequest → RuntimeState → Result Choice
choose m q rt = do
  runtime_references_are_known m rt
  guard (is_production q.mode || is_known_candidate m q.candidate_route_id)
      (request_error "unknown candidate route")
  choose_among m q rt

-- The decision that `select_route` returns, built from what it has computed.
unfoldable pub decision :
    (Json → String)
    → RoutingManifest
    → RoutingRequest
    → RuntimeState
    → Choice
    → List String
    → Dict String
    → RoutingDecision
decision digest m q rt c evidence_ids hashes = record {
  status = decision_status c.selected;
  selected_route_id = of_selected (λ r. r.id) c.selected;
  model_ids = model_ids_of c.selected;
  harness_id = of_selected (λ r. r.harness_id) c.selected;
  verifier_id = verifier_of c.selected;
  inference_edge_id = of_selected (λ r. r.inference_edge_id) c.selected;
  execution_edge_id = of_selected (λ r. r.execution_edge_id) c.selected;
  fallback_from_route_id = c.explained.from;
  fallback_reason_code = c.explained.code;
  fallback_detail_codes = c.explained.details;
  evidence_ids = evidence_ids;
  evidence_sha256 = hashes;
  considered = c.considered;
  request_sha256 = digest (request_canonical q);
  runtime_sha256 = digest (runtime_canonical rt);
  manifest_sha256 = m.sha256;
  automatic_retries = 0;
}

unfoldable pub select_route :
    (Json → String) → RoutingManifest → RoutingRequest → RuntimeState → Result RoutingDecision
unfolding choose choose_among decision
select_route digest m q rt = do
  c ← choose m q rt
  evidence_ids ← decision_evidence m c.selected
  hashes ← evidence_hashes m evidence_ids
  ok (decision digest m q rt c evidence_ids hashes)
