-- ===== src/Routing/Parsing/Manifest.antt =====
-- `_parse_policy` and `validate_routing_manifest` of src/agent_continuity/routing.py. The hash of
-- the manifest is a parameter, `digest`.
use local_ai_coding_agent.Common.{
  Bool, true, false, String, List, [], ◌∷◌, Option, Result, ok, manifest_error, guard, ◌>>=◌, ◌>>◌,
  Dict, Json, int, pos, zero, suc, set_eq,
}
use local_ai_coding_agent.Routing.Types.{
  RoutingPolicy, RoutingManifest, EvidenceRecord, ModelComponent, HarnessComponent, EdgeComponent,
  VerifierComponent, RouteDefinition,
}
use local_ai_coding_agent.Routing.Validation.{validate_cross_references}
use local_ai_coding_agent.Routing.Parsing.{object_with, at, identifier, string_tuple}
use local_ai_coding_agent.Routing.Parsing.Evidence.{Observation, parse_evidence}
use local_ai_coding_agent.Routing.Parsing.Components.{
  parse_models, parse_harnesses, parse_edges, parse_verifiers,
}
use local_ai_coding_agent.Routing.Parsing.Routes.{parse_routes}

-- `isinstance(v, int) and v == n`, for the numbers 0 and 1.
abbrev pub is_zero : Json → Bool
is_zero (int (pos zero)) = true
is_zero _ = false

abbrev pub is_one : Json → Bool
is_one (int (pos (suc zero))) = true
is_one _ = false

abbrev pub policy_fields : List String
policy_fields =
    "cloud_primary_route_id" ∷ "sovereign_route_ids" ∷ "apple_execution_edge_id"
    ∷ "production_eligible_statuses" ∷ "automatic_retries" ∷ []

abbrev pub component_fields : List String
component_fields = "models" ∷ "harnesses" ∷ "verifiers" ∷ "edges" ∷ []

abbrev pub manifest_fields : List String
manifest_fields =
    "schema_version" ∷ "manifest_id" ∷ "evidence" ∷ "components" ∷ "routes" ∷ "policy" ∷ []

unfoldable pub parse_policy : Json → Result RoutingPolicy
parse_policy v = do
  raw ← object_with policy_fields v
  statuses ← at raw "production_eligible_statuses" >>= string_tuple false false
  guard (set_eq statuses ("accepted" ∷ []))
      (manifest_error "only accepted routes may be production eligible")
  retries ← at raw "automatic_retries"
  guard (is_zero retries) (manifest_error "routing automatic_retries must be exactly zero")
  primary ← at raw "cloud_primary_route_id" >>= identifier
  sovereign ← at raw "sovereign_route_ids" >>= string_tuple false false
  apple ← at raw "apple_execution_edge_id" >>= identifier
  ok (record {
    cloud_primary_route_id = primary;
    sovereign_route_ids = sovereign;
    apple_execution_edge_id = apple;
    production_eligible_statuses = statuses;
    automatic_retries = 0;
  })

-- The five dictionaries of components and routes.
pub record Parts : Type 0 where
  pub evidence : Dict EvidenceRecord
  pub models : Dict ModelComponent
  pub harnesses : Dict HarnessComponent
  pub edges : Dict EdgeComponent
  pub verifiers : Dict VerifierComponent
  pub routes : Dict RouteDefinition

unfoldable pub parse_parts : Bool → Option (String → Observation) → Dict Json → Result Parts
parse_parts verify root raw = do
  evidence ← at raw "evidence" >>= parse_evidence verify root
  components ← at raw "components" >>= object_with component_fields
  models ← at components "models" >>= parse_models evidence
  harnesses ← at components "harnesses" >>= parse_harnesses evidence
  edges ← at components "edges" >>= parse_edges evidence
  verifiers ← at components "verifiers" >>= parse_verifiers evidence
  routes ← at raw "routes" >>= parse_routes evidence
  ok (record {
    evidence = evidence;
    models = models;
    harnesses = harnesses;
    edges = edges;
    verifiers = verifiers;
    routes = routes;
  })

unfoldable pub build_manifest :
    (Json → String) → Json → Parts → RoutingPolicy → String → RoutingManifest
build_manifest digest v parts policy i = record {
  schema_version = 1;
  manifest_id = i;
  evidence = parts.evidence;
  models = parts.models;
  harnesses = parts.harnesses;
  verifiers = parts.verifiers;
  edges = parts.edges;
  routes = parts.routes;
  policy = policy;
  sha256 = digest v;
}

-- The value stands for the snapshot that `_json_snapshot` takes of it, by which the source refuses a
-- value without a canonical text.
unfoldable pub validate_routing_manifest :
    (Json → String) → Bool → Option (String → Observation) → Json → Result RoutingManifest
validate_routing_manifest digest verify root v = do
  raw ← object_with manifest_fields v
  version ← at raw "schema_version"
  guard (is_one version) (manifest_error "only routing schema_version 1 is supported")
  parts ← parse_parts verify root raw
  policy ← at raw "policy" >>= parse_policy
  i ← at raw "manifest_id" >>= identifier
  let manifest = build_manifest digest v parts policy i
  validate_cross_references manifest
  ok manifest
