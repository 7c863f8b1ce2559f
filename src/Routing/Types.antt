-- ===== src/Routing/Types.antt =====
-- The dataclasses of src/agent_continuity/routing.py. A literal type is a data type with the
-- source's words as constructors; a mapping is a dictionary, a frozen set a list of its items.
use local_ai_coding_agent.Common.{ℕ, Bool, String, List, Option, ℤ, Dict}

pub data Locality : Type 0 where
  cloud local : Locality

pub data EdgeKind : Type 0 where
  inference execution combined : EdgeKind

pub data Composition : Type 0 where
  single team : Composition

pub data Mode : Type 0 where
  production qualification : Mode

-- `OUTCOME_STATUSES`
pub data Status : Type 0 where
  accepted rejected inconclusive evaluator_invalid runtime_blocked not_run : Status

pub record EvidenceRecord : Type 0 where
  pub id : String
  pub path : String
  pub sha256 : String

pub record ModelComponent : Type 0 where
  pub id : String
  pub name : String
  pub provider : String
  pub locality : Locality
  pub roles : List String
  pub languages : List String
  pub max_context_tokens : Option ℕ
  pub evidence_ids : List String

pub record HarnessComponent : Type 0 where
  pub id : String
  pub name : String
  pub locality : Locality
  pub mode : String
  pub tools : List String
  pub evidence_ids : List String

pub record EdgeComponent : Type 0 where
  pub id : String
  pub name : String
  pub locality : Locality
  pub kind : EdgeKind
  pub capabilities : List String
  pub evidence_ids : List String

pub record VerifierComponent : Type 0 where
  pub id : String
  pub name : String
  pub model_id : String
  pub harness_id : String
  pub inference_edge_id : String
  pub status : Status
  pub evidence_ids : List String

pub record RouteDefinition : Type 0 where
  pub id : String
  pub name : String
  pub qualification_status : Status
  pub composition : Composition
  pub model_ids : List String
  pub harness_id : String
  pub verifier_id : Option String
  pub inference_edge_id : String
  pub execution_edge_id : String
  pub roles : List String
  pub capabilities : List String
  pub languages : List String
  pub tool_needs : List String
  pub max_context_tokens : Option ℕ
  pub priority : ℕ
  pub required_runtime_tags : List String
  pub evidence_ids : List String
  pub baseline_route_id : Option String
  pub team_gain_basis_points : Option ℤ
  pub comparison_evidence_ids : List String

pub record RoutingPolicy : Type 0 where
  pub cloud_primary_route_id : String
  pub sovereign_route_ids : List String
  pub apple_execution_edge_id : String
  pub production_eligible_statuses : List String
  pub automatic_retries : ℕ

pub record RoutingManifest : Type 0 where
  pub schema_version : ℕ
  pub manifest_id : String
  pub evidence : Dict EvidenceRecord
  pub models : Dict ModelComponent
  pub harnesses : Dict HarnessComponent
  pub verifiers : Dict VerifierComponent
  pub edges : Dict EdgeComponent
  pub routes : Dict RouteDefinition
  pub policy : RoutingPolicy
  pub sha256 : String

pub record RoutingRequest : Type 0 where
  pub task_id : String
  pub role : String
  pub capability : String
  pub language : String
  pub context_tokens : ℕ
  pub tool_needs : List String
  pub mode : Mode
  pub candidate_route_id : Option String

pub record RuntimeState : Type 0 where
  pub cloud_available : Bool
  pub operable_model_ids : List String
  pub operable_harness_ids : List String
  pub available_edge_ids : List String
  pub satisfied_runtime_tags : List String

-- The reason codes: a prefix, with the text after it where the source appends one.
pub data Reason : Type 0 where
  status : Status → Reason
  not_requested_candidate : Reason
  cloud_unavailable : Reason
  model_unavailable : String → Reason
  harness_unavailable : String → Reason
  inference_edge_unavailable : String → Reason
  execution_edge_unavailable : String → Reason
  verifier_model_unavailable : String → Reason
  verifier_harness_unavailable : String → Reason
  verifier_edge_unavailable : String → Reason
  runtime_tag_missing : String → Reason
  role_unsupported : Reason
  capability_unsupported : Reason
  language_unsupported : Reason
  context_exceeds_route_limit : Reason
  tool_unsupported : String → Reason

pub record RouteConsideration : Type 0 where
  pub route_id : String
  pub qualification_status : Status
  pub eligible : Bool
  pub reason_codes : List Reason

pub data FallbackCode : Type 0 where
  fallback_cloud_unavailable : FallbackCode
  cloud_primary_incompatible : FallbackCode
  qualification_candidate_unavailable : FallbackCode
  no_accepted_compatible_route : FallbackCode

pub data DecisionStatus : Type 0 where
  routed unroutable : DecisionStatus

pub record RoutingDecision : Type 0 where
  pub status : DecisionStatus
  pub selected_route_id : Option String
  pub model_ids : List String
  pub harness_id : Option String
  pub verifier_id : Option String
  pub inference_edge_id : Option String
  pub execution_edge_id : Option String
  pub fallback_from_route_id : Option String
  pub fallback_reason_code : Option FallbackCode
  pub fallback_detail_codes : List Reason
  pub evidence_ids : List String
  pub evidence_sha256 : Dict String
  pub considered : List RouteConsideration
  pub request_sha256 : String
  pub runtime_sha256 : String
  pub manifest_sha256 : String
  pub automatic_retries : ℕ
