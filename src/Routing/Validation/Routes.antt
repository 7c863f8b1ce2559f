-- ===== src/Routing/Validation/Routes.antt =====
-- The second loop of `_validate_cross_references`: each route's references, composition,
-- acceptance, tools and models, in the source's order.
use local_ai_coding_agent.Common.{
  ℕ, Bool, true, false, not, ◌&&◌, ◌||◌, String, ◌++◌, Option, none, some, Result, ok, err,
  manifest_error, guard, ◌>>=◌, ◌>>◌, item, required, get, has, keys, is_empty, is_none, contains,
  difference, all, length, ltb, nat_eq, for_each, ◌==◌, if◌then◌else◌,
}
use local_ai_coding_agent.Routing.Types.{RoutingManifest, RouteDefinition}
use local_ai_coding_agent.Routing.Locality.{supports}
use local_ai_coding_agent.Routing.Eligibility.{is_accepted}
use local_ai_coding_agent.Routing.Selection.Ranking.{is_single}
use local_ai_coding_agent.Routing.Validation.Verifiers.{can_infer, can_execute}

-- `verifier_id is None or verifier_id in manifest.verifiers`
abbrev pub is_known_verifier : RoutingManifest → Option String → Bool
is_known_verifier m none = true
is_known_verifier m (some i) = has i m.verifiers

unfoldable pub check_references : RoutingManifest → RouteDefinition → Result (Unit {0})
check_references m r = do
  guard (is_empty (difference r.model_ids (keys m.models)))
      (manifest_error "route has unknown models")
  guard (has r.harness_id m.harnesses) (manifest_error "route references unknown harness")
  guard (is_known_verifier m r.verifier_id) (manifest_error "route references unknown verifier")
  inference_edge ←
      required (get r.inference_edge_id m.edges) (manifest_error "route references an unknown edge")
  execution_edge ←
      required (get r.execution_edge_id m.edges) (manifest_error "route references an unknown edge")
  guard (can_infer inference_edge.kind) (manifest_error "route requires an inference edge")
  guard (can_execute execution_edge.kind) (manifest_error "route requires an execution edge")

unfoldable pub check_composition : RouteDefinition → Result (Unit {0})
check_composition r = do
  guard (not (is_single r.composition && not (nat_eq (length r.model_ids) 1)))
      (manifest_error "single route must name exactly one model")
  guard (not (not (is_single r.composition) && ltb (length r.model_ids) 2))
      (manifest_error "team route must name at least two models")
  guard
      (not (
        is_single r.composition
        && (not (is_none r.baseline_route_id)
            || (not (is_none r.team_gain_basis_points)
                || not (is_empty r.comparison_evidence_ids)))))
      (manifest_error "single route cannot declare team comparison")

unfoldable pub check_accepted_verifier : RoutingManifest → Option String → Result (Unit {0})
check_accepted_verifier m none =
    err (manifest_error "accepted implementation route requires a verifier")
check_accepted_verifier m (some i) = do
  v ← item (get i m.verifiers)
  guard (is_accepted v.status) (manifest_error "accepted route requires an accepted verifier")

unfoldable pub check_acceptance : RoutingManifest → RouteDefinition → Result (Unit {0})
check_acceptance m r = do
  (if contains "implement" r.roles && is_accepted r.qualification_status
      then check_accepted_verifier m r.verifier_id
      else ok tt)
  guard (not (is_accepted r.qualification_status && is_empty r.evidence_ids))
      (manifest_error "accepted route requires evidence")

-- Each tool is one of the harness or of the execution edge.
unfoldable pub check_tools : RoutingManifest → RouteDefinition → Result (Unit {0})
check_tools m r = do
  harness ← item (get r.harness_id m.harnesses)
  edge ←
      required (get r.execution_edge_id m.edges) (manifest_error "route references an unknown edge")
  guard (is_empty (difference r.tool_needs (harness.tools ++ edge.capabilities)))
      (manifest_error "route has tools unsupported by its harness and execution edge")

-- `limit is not None and model_limit is not None and limit > model_limit`
abbrev pub exceeds_limit : Option ℕ → Option ℕ → Bool
exceeds_limit (some limit) (some model_limit) = ltb model_limit limit
exceeds_limit (some limit) none = false
exceeds_limit none _ = false

unfoldable pub check_model : RoutingManifest → RouteDefinition → String → Result (Unit {0})
check_model m r i = do
  model ← item (get i m.models)
  guard (all (supports model.roles) r.roles)
      (manifest_error "route claims a role unsupported by model")
  guard (all (supports model.languages) r.languages)
      (manifest_error "route claims a language unsupported by model")
  guard (not (exceeds_limit r.max_context_tokens model.max_context_tokens))
      (manifest_error "route exceeds model context limit")

unfoldable pub check_xcode : RoutingManifest → RouteDefinition → Result (Unit {0})
check_xcode m r =
    guard
      (not (
        contains "xcode" r.tool_needs
        && not (r.execution_edge_id == m.policy.apple_execution_edge_id)))
      (manifest_error "route must send Xcode work to the Mac edge")

unfoldable pub check_route : RoutingManifest → RouteDefinition → Result (Unit {0})
check_route m r = do
  check_references m r
  check_composition r
  check_acceptance m r
  check_tools m r
  for_each (check_model m r) r.model_ids
  check_xcode m r
