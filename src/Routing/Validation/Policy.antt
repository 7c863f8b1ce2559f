-- ===== src/Routing/Validation/Policy.antt =====
-- The end of `_validate_cross_references`: the policy's primary route, Apple edge and sovereign
-- routes.
use local_ai_coding_agent.Common.{
  not, ◌&&◌, String, Result, manifest_error, guard, ◌>>=◌, ◌>>◌, required, get, contains, for_each,
}
use local_ai_coding_agent.Routing.Types.{RoutingManifest}
use local_ai_coding_agent.Routing.Locality.{is_local, route_is_local}
use local_ai_coding_agent.Routing.Eligibility.{is_accepted}
use local_ai_coding_agent.Routing.Validation.Verifiers.{can_execute}

unfoldable pub check_primary : RoutingManifest → Result (Unit {0})
check_primary m = do
  primary ←
      required (get m.policy.cloud_primary_route_id m.routes)
        (manifest_error "cloud primary route must exist and be accepted")
  guard (is_accepted primary.qualification_status)
      (manifest_error "cloud primary route must exist and be accepted")
  here ← route_is_local m primary
  guard (not here) (manifest_error "cloud primary route must actually contain a cloud component")

unfoldable pub check_apple : RoutingManifest → Result (Unit {0})
check_apple m = do
  apple ←
      required (get m.policy.apple_execution_edge_id m.edges)
        (manifest_error "apple_execution_edge_id must be a local execution edge")
  guard (is_local apple.locality && can_execute apple.kind)
      (manifest_error "apple_execution_edge_id must be a local execution edge")
  guard (contains "xcode" apple.capabilities)
      (manifest_error "Apple execution edge must advertise Xcode")

unfoldable pub check_sovereign : RoutingManifest → String → Result (Unit {0})
check_sovereign m i = do
  r ← required (get i m.routes) (manifest_error "unknown sovereign route")
  guard (is_accepted r.qualification_status) (manifest_error "sovereign route must be accepted")
  here ← route_is_local m r
  guard here (manifest_error "sovereign route must have no cloud dependency")

unfoldable pub check_policy : RoutingManifest → Result (Unit {0})
check_policy m = do
  check_primary m
  check_apple m
  for_each (check_sovereign m) m.policy.sovereign_route_ids
