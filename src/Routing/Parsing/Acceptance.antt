-- ===== src/Routing/Parsing/Acceptance.antt =====
-- From a decoded manifest to a routing decision: `validate_routing_manifest` and `select_route` of
-- src/agent_continuity/routing.py together.
use local_ai_coding_agent.Common.{Bool, true, String, Option, ok, ◌≡◌, ◌||◌, Json, Succeeds}
use local_ai_coding_agent.Routing.Types.{RoutingManifest, RoutingRequest, RuntimeState}
use local_ai_coding_agent.Routing.Eligibility.{is_production, runtime_references_are_known}
use local_ai_coding_agent.Routing.Selection.{select_route, is_known_candidate}
use local_ai_coding_agent.Routing.Totality.Choice.{select_route_total}
use local_ai_coding_agent.Routing.Parsing.Evidence.{Observation}
use local_ai_coding_agent.Routing.Parsing.Manifest.{validate_routing_manifest}
use local_ai_coding_agent.Routing.Parsing.WellFormed.{validate_routing_manifest-IsWellFormed}

-- When `validate_routing_manifest` returns a manifest, and the runtime snapshot names known
-- components only and, in qualification mode, the candidate is known, `select_route` returns a
-- decision on that manifest: no subscript of a mapping fails.
pub accepted_manifest_routes :
    (digest : Json → String) (verify : Bool) (root : Option (String → Observation)) (v : Json)
    (m : RoutingManifest) (q : RoutingRequest) (rt : RuntimeState)
    → validate_routing_manifest digest verify root v ≡ ok m
    → runtime_references_are_known m rt ≡ ok tt
    → (is_production q.mode || is_known_candidate m q.candidate_route_id) ≡ true
    → Succeeds (select_route digest m q rt)
accepted_manifest_routes digest verify root v m q rt h known k =
    let (w, valid) = validate_routing_manifest-IsWellFormed digest verify root v h in
    select_route_total digest m q rt w valid known k
