-- ===== src/Routing/Parsing/Routes.antt =====
-- `_parse_routes` of src/agent_continuity/routing.py.
use local_ai_coding_agent.Common.{
  ℕ, Bool, true, false, String, List, [], ◌∷◌, Option, none, some, Result, ok, err, manifest_error,
  guard, ◌>>=◌, ◌>>◌, Dict, Json, str, int, null, pos, negsuc, ℤ, leb, ltb, ◌==◌, if◌then◌else◌,
}
use local_ai_coding_agent.Routing.Types.{Composition, single, team, EvidenceRecord, RouteDefinition}
use local_ai_coding_agent.Routing.Parsing.{
  object_with, at, identifier, optional, text, string_tuple, one_of, parse_status, context_limit,
  parse_evidence_ids, nonempty_array, parse_entries, fresh_id,
}

abbrev pub composition_of : String → Option Composition
composition_of s = if s == "single" then some single else if s == "team" then some team else none

-- `null`, or an integer from -10000 to 10000.
unfoldable pub parse_gain : Json → Result (Option ℤ)
parse_gain null = ok none
parse_gain (int (pos n)) = do
  guard (leb n 10000) (manifest_error "team_gain_basis_points must be null or -10000..10000")
  ok (some (pos n))
parse_gain (int (negsuc n)) = do
  guard (ltb n 10000) (manifest_error "team_gain_basis_points must be null or -10000..10000")
  ok (some (negsuc n))
parse_gain _ = err (manifest_error "team_gain_basis_points must be null or -10000..10000")

unfoldable pub parse_priority : Json → Result ℕ
parse_priority (int (pos n)) = do
  guard (leb n 10000) (manifest_error "priority must be 0..10000")
  ok n
parse_priority _ = err (manifest_error "priority must be 0..10000")

-- `raw["qualification_status"] == "not_run"`
abbrev pub is_text_not_run : Json → Bool
is_text_not_run (str s) = s == "not_run"
is_text_not_run _ = false

-- The fields that are checked before the route is built.
pub record RouteHead : Type 0 where
  pub composition : Composition
  pub verifier_id : Option String
  pub baseline_route_id : Option String
  pub gain : Option ℤ
  pub priority : ℕ

unfoldable pub parse_route_head : Dict Json → Result RouteHead
unfolding parse_gain parse_priority
parse_route_head raw = do
  composition ← at raw "composition" >>= one_of composition_of
  verifier_id ← at raw "verifier_id" >>= optional identifier
  baseline ← at raw "baseline_route_id" >>= optional identifier
  gain ← at raw "team_gain_basis_points" >>= parse_gain
  priority ← at raw "priority" >>= parse_priority
  ok (record {
    composition = composition;
    verifier_id = verifier_id;
    baseline_route_id = baseline;
    gain = gain;
    priority = priority;
  })

abbrev pub route_fields : List String
route_fields =
    "id" ∷ "name" ∷ "qualification_status" ∷ "composition" ∷ "model_ids" ∷ "harness_id"
    ∷ "verifier_id" ∷ "inference_edge_id" ∷ "execution_edge_id" ∷ "roles" ∷ "capabilities"
    ∷ "languages" ∷ "tool_needs" ∷ "max_context_tokens" ∷ "priority" ∷ "required_runtime_tags"
    ∷ "evidence_ids" ∷ "baseline_route_id" ∷ "team_gain_basis_points" ∷ "comparison_evidence_ids"
    ∷ []

module _ (evidence : Dict EvidenceRecord) where
  -- The arguments of `RouteDefinition`, in their order.
  unfoldable pub parse_route_body : String → RouteHead → Dict Json → Result RouteDefinition
  parse_route_body i head raw = do
    name ← at raw "name" >>= text
    status_value ← at raw "qualification_status"
    status ← parse_status status_value
    model_ids ← at raw "model_ids" >>= string_tuple false false
    harness_id ← at raw "harness_id" >>= identifier
    inference ← at raw "inference_edge_id" >>= identifier
    execution ← at raw "execution_edge_id" >>= identifier
    roles ← at raw "roles" >>= string_tuple false true
    capabilities ← at raw "capabilities" >>= string_tuple false true
    languages ← at raw "languages" >>= string_tuple false true
    tool_needs ← at raw "tool_needs" >>= string_tuple true false
    limit ← at raw "max_context_tokens" >>= context_limit
    tags ← at raw "required_runtime_tags" >>= string_tuple true false
    evidence_ids ←
        at raw "evidence_ids" >>= parse_evidence_ids evidence (is_text_not_run status_value)
    comparison ← at raw "comparison_evidence_ids" >>= parse_evidence_ids evidence true
    ok (record {
      id = i;
      name = name;
      qualification_status = status;
      composition = head.composition;
      model_ids = model_ids;
      harness_id = harness_id;
      verifier_id = head.verifier_id;
      inference_edge_id = inference;
      execution_edge_id = execution;
      roles = roles;
      capabilities = capabilities;
      languages = languages;
      tool_needs = tool_needs;
      max_context_tokens = limit;
      priority = head.priority;
      required_runtime_tags = tags;
      evidence_ids = evidence_ids;
      baseline_route_id = head.baseline_route_id;
      team_gain_basis_points = head.gain;
      comparison_evidence_ids = comparison;
    })

  unfoldable pub parse_route : Dict RouteDefinition → Json → Result (String × RouteDefinition)
  parse_route output v = do
    raw ← object_with route_fields v
    i ← fresh_id output raw
    head ← parse_route_head raw
    r ← parse_route_body i head raw
    ok (i, r)

  unfoldable pub parse_routes : Json → Result (Dict RouteDefinition)
  parse_routes v = do vs ← nonempty_array v; parse_entries parse_route [] vs
