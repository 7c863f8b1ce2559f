-- ===== src/Routing/Eligibility.antt =====
-- `_runtime_references_are_known` and `_consider_route` of src/agent_continuity/routing.py.
use local_ai_coding_agent.Common.{
  ℕ, Bool, true, false, not, ◌&&◌, String, List, [], ◌∷◌, ◌++◌, map, Option, none, some, Result, ok,
  request_error, guard, ◌>>=◌, item, get, keys, contains, difference, sorted_set, is_empty, ltb,
  ◌==◌, if◌then◌else◌,
}
use local_ai_coding_agent.Routing.Types.{
  Mode, production, qualification, Status, accepted, RoutingManifest, RouteDefinition,
  RoutingRequest, RuntimeState, Reason, status, not_requested_candidate, cloud_unavailable,
  model_unavailable, harness_unavailable, inference_edge_unavailable, execution_edge_unavailable,
  verifier_model_unavailable, verifier_harness_unavailable, verifier_edge_unavailable,
  runtime_tag_missing, role_unsupported, capability_unsupported, language_unsupported,
  context_exceeds_route_limit, tool_unsupported, RouteConsideration,
}
use local_ai_coding_agent.Routing.Locality.{supports, route_has_cloud_dependency}

-- The sets hold stable identifiers only: `RuntimeState` has checked its items.
unfoldable pub runtime_references_are_known : RoutingManifest → RuntimeState → Result (Unit {0})
runtime_references_are_known m rt =
    guard
      (is_empty (difference rt.operable_model_ids (keys m.models))
        && is_empty (difference rt.operable_harness_ids (keys m.harnesses))
        && is_empty (difference rt.available_edge_ids (keys m.edges)))
      (request_error "runtime snapshot references unknown components")

-- `if b: reasons.append(r)`
abbrev pub when : Bool → Reason → List Reason
when b r = if b then r ∷ [] else []

abbrev pub is_production : Mode → Bool
is_production production = true
is_production qualification = false

-- `PRODUCTION_ELIGIBLE_STATUSES`
abbrev pub is_accepted : Status → Bool
is_accepted accepted = true
is_accepted _ = false

-- `request.candidate_route_id == id`
abbrev pub is_candidate : Option String → String → Bool
is_candidate none id = false
is_candidate (some c) id = c == id

-- `limit is not None and tokens > limit`
abbrev pub exceeds : ℕ → Option ℕ → Bool
exceeds tokens none = false
exceeds tokens (some limit) = ltb limit tokens

unfoldable pub policy_reasons : RoutingRequest → RouteDefinition → List Reason
policy_reasons q r =
    when (is_production q.mode && not (is_accepted r.qualification_status))
      (status r.qualification_status)
    ++ when (not (is_production q.mode) && not (is_candidate q.candidate_route_id r.id))
        not_requested_candidate

unfoldable pub component_reasons : RuntimeState → RouteDefinition → List Reason
component_reasons rt r =
    map model_unavailable (sorted_set (difference r.model_ids rt.operable_model_ids))
    ++ (when (not (contains r.harness_id rt.operable_harness_ids))
          (harness_unavailable r.harness_id)
        ++ (when (not (contains r.inference_edge_id rt.available_edge_ids))
              (inference_edge_unavailable r.inference_edge_id)
            ++ when (not (contains r.execution_edge_id rt.available_edge_ids))
                (execution_edge_unavailable r.execution_edge_id)))

unfoldable pub verifier_reasons :
    RoutingManifest → RuntimeState → Option String → Result (List Reason)
verifier_reasons m rt none = ok []
verifier_reasons m rt (some i) = do
  v ← item (get i m.verifiers)
  ok (
      when (not (contains v.model_id rt.operable_model_ids)) (verifier_model_unavailable v.model_id)
      ++ (when (not (contains v.harness_id rt.operable_harness_ids))
            (verifier_harness_unavailable v.harness_id)
          ++ when (not (contains v.inference_edge_id rt.available_edge_ids))
              (verifier_edge_unavailable v.inference_edge_id)))

unfoldable pub surface_reasons : RoutingRequest → RuntimeState → RouteDefinition → List Reason
surface_reasons q rt r =
    map runtime_tag_missing
      (sorted_set (difference r.required_runtime_tags rt.satisfied_runtime_tags))
    ++ (when (not (supports r.roles q.role)) role_unsupported
        ++ (when (not (supports r.capabilities q.capability)) capability_unsupported
            ++ (when (not (supports r.languages q.language)) language_unsupported
                ++ (when (exceeds q.context_tokens r.max_context_tokens) context_exceeds_route_limit
                    ++ map tool_unsupported (sorted_set (difference q.tool_needs r.tool_needs))))))

unfoldable pub consider_route :
    RoutingManifest → RoutingRequest → RuntimeState → RouteDefinition → Result RouteConsideration
consider_route m q rt r = do
  on_cloud ← route_has_cloud_dependency m r
  by_verifier ← verifier_reasons m rt r.verifier_id
  let reasons =
      policy_reasons q r
      ++ (when (on_cloud && not rt.cloud_available) cloud_unavailable
          ++ (component_reasons rt r ++ (by_verifier ++ surface_reasons q rt r)))
  ok (record {
    route_id = r.id;
    qualification_status = r.qualification_status;
    eligible = is_empty reasons;
    reason_codes = reasons;
  })
