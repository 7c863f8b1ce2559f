-- ===== src/Routing/Parsing/Tests.antt =====
-- A decoded manifest with a cloud route and a local route, and what the parsers of
-- src/agent_continuity/routing.py make of it.
use local_ai_coding_agent.Common.{
  ℕ, String, List, [], ◌∷◌, none, some, true, is_duplicate_free, ◌≡◌, refl, if◌then◌else◌, ◌==◌,
  Json, Items, Fields, nil, cons, end, field, null, int, arr, obj, str, pos, str_items, get, has,
  keys, contains, is_subset, difference, set_eq, values, ok, Succeeds, text_append, join,
}
use local_ai_coding_agent.Routing.Types.{production, RoutingRequest, RuntimeState}
use local_ai_coding_agent.Routing.Selection.{select_route}
use local_ai_coding_agent.Routing.Parsing.Evidence.{
  Observation, regular, irregular, parse_evidence, parse_evidence_record, segments, path_parts,
  is_absolute, as_posix, canonical_digest, verify_file,
}
use local_ai_coding_agent.Routing.Parsing.{
  nonempty_array, parse_entries, object_with, object, exact_keys, fresh_id, text, identifier,
}
use local_ai_coding_agent.Routing.Fields.{is_identifier, is_digest, is_text, strip}
use local_ai_coding_agent.Routing.Parsing.Manifest.{
  validate_routing_manifest, parse_parts, parse_policy, build_manifest,
}
use local_ai_coding_agent.Routing.Parsing.{
  one_of, hashed, string_tuple, strings, context_limit, parse_evidence_ids, parse_status,
  parse_locality,
}
use local_ai_coding_agent.Routing.Parsing.Components.{
  parse_models, parse_model, parse_harnesses, parse_harness, parse_edges, parse_edge,
  parse_verifiers, parse_verifier,
}
use local_ai_coding_agent.Routing.Parsing.Routes.{
  parse_routes, parse_route, parse_route_head, parse_route_body, parse_gain, parse_priority,
}
use local_ai_coding_agent.Routing.Locality.{route_is_local, supports}
use local_ai_coding_agent.Routing.Eligibility.{runtime_references_are_known}
use local_ai_coding_agent.Routing.Validation.{validate_cross_references}
use local_ai_coding_agent.Routing.Validation.Verifiers.{check_verifier}
use local_ai_coding_agent.Routing.Validation.Routes.{
  check_route, check_references, check_composition, check_acceptance, check_accepted_verifier,
  check_tools, check_model, check_xcode,
}
use local_ai_coding_agent.Routing.Validation.Teams.{
  check_team, check_baseline, check_accepted_team, same_surface,
}
use local_ai_coding_agent.Routing.Validation.Policy.{
  check_policy, check_primary, check_apple, check_sovereign,
}
use local_ai_coding_agent.Routing.Parsing.Acceptance.{accepted_manifest_routes}
use local_ai_coding_agent.Routing.Parsing.WellFormed.{validate_routing_manifest-IsWellFormed}
use local_ai_coding_agent.Routing.WellFormed.{IsWellFormed}

abbrev array : List Json → Items
array [] = nil
array (v ∷ vs) = cons v (array vs)

abbrev object_of : List (String × Json) → Fields
object_of [] = end
object_of ((k, v) ∷ fs) = field k v (object_of fs)

abbrev names : List String → Json
names xs = arr (str_items xs)

abbrev any : Json
any = names ("*" ∷ [])

abbrev cited : Json
cited = names ("run" ∷ [])

abbrev hash_text : String
hash_text = "sha256:0123456789abcdef0123456789abcdef0123456789abcdef0123456789abcdef"

abbrev evidence_json : Json
evidence_json = arr (
    array (
      obj (
        object_of
          (("id", str "run") ∷ ("path", str "runs\\./run.json") ∷ ("sha256", str hash_text) ∷ []))
      ∷ []))

abbrev model_json : String → String → Json
model_json i l = obj (
    object_of (
      ("id", str i)
      ∷ ("name", str i)
      ∷ ("provider", str "own")
      ∷ ("locality", str l)
      ∷ ("roles", any)
      ∷ ("languages", any)
      ∷ ("max_context_tokens", null)
      ∷ ("evidence_ids", cited)
      ∷ []))

abbrev harness_json : Json
harness_json = obj (
    object_of (
      ("id", str "harness")
      ∷ ("name", str " harness ")
      ∷ ("locality", str "local")
      ∷ ("mode", str "cli")
      ∷ ("tools", names ("edit" ∷ []))
      ∷ ("evidence_ids", cited)
      ∷ []))

abbrev edge_json : String → String → Json
edge_json i l = obj (
    object_of (
      ("id", str i)
      ∷ ("name", str i)
      ∷ ("locality", str l)
      ∷ ("kind", str "combined")
      ∷ ("capabilities", names ("xcode" ∷ "shell" ∷ []))
      ∷ ("evidence_ids", cited)
      ∷ []))

abbrev verifier_json : Json
verifier_json = obj (
    object_of (
      ("id", str "verifier")
      ∷ ("name", str "verifier")
      ∷ ("model_id", str "a")
      ∷ ("harness_id", str "harness")
      ∷ ("inference_edge_id", str "mac")
      ∷ ("status", str "accepted")
      ∷ ("evidence_ids", cited)
      ∷ []))

abbrev route_json : String → String → String → ℕ → Json
route_json i model edge priority = obj (
    object_of (
      ("id", str i)
      ∷ ("name", str i)
      ∷ ("qualification_status", str "accepted")
      ∷ ("composition", str "single")
      ∷ ("model_ids", names (model ∷ []))
      ∷ ("harness_id", str "harness")
      ∷ ("verifier_id", str "verifier")
      ∷ ("inference_edge_id", str edge)
      ∷ ("execution_edge_id", str "mac")
      ∷ ("roles", names ("implement" ∷ []))
      ∷ ("capabilities", any)
      ∷ ("languages", names ("python" ∷ []))
      ∷ ("tool_needs", names ("shell" ∷ []))
      ∷ ("max_context_tokens", int (pos 4096))
      ∷ ("priority", int (pos priority))
      ∷ ("required_runtime_tags", names [])
      ∷ ("evidence_ids", cited)
      ∷ ("baseline_route_id", null)
      ∷ ("team_gain_basis_points", null)
      ∷ ("comparison_evidence_ids", names [])
      ∷ []))

abbrev policy_json : Json
policy_json = obj (
    object_of (
      ("cloud_primary_route_id", str "primary")
      ∷ ("sovereign_route_ids", names ("solo" ∷ []))
      ∷ ("apple_execution_edge_id", str "mac")
      ∷ ("production_eligible_statuses", names ("accepted" ∷ []))
      ∷ ("automatic_retries", int (pos 0))
      ∷ []))

abbrev components_json : Json
components_json = obj (
    object_of (
      ("models", arr (array (model_json "big" "cloud" ∷ model_json "a" "local" ∷ [])))
      ∷ ("harnesses", arr (array (harness_json ∷ [])))
      ∷ ("verifiers", arr (array (verifier_json ∷ [])))
      ∷ ("edges", arr (array (edge_json "remote" "cloud" ∷ edge_json "mac" "local" ∷ [])))
      ∷ []))

abbrev manifest_json : Json
manifest_json = obj (
    object_of (
      ("schema_version", int (pos 1))
      ∷ ("manifest_id", str "small")
      ∷ ("evidence", evidence_json)
      ∷ ("components", components_json)
      ∷ (
        "routes",
        arr (array (route_json "primary" "big" "remote" 0 ∷ route_json "solo" "a" "mac" 10 ∷ [])),
      )
      ∷ ("policy", policy_json)
      ∷ []))

abbrev observe : String → Observation
observe path = if path == "runs/run.json" then regular hash_text else irregular

abbrev digest : Json → String
digest j = "sha256:digest"

evidence_parses :
    parse_evidence true (some observe) evidence_json
    ≡ ok (("run", record { id = "run"; path = "runs/run.json"; sha256 = hash_text }) ∷ [])
unfolding parse_evidence parse_evidence_record segments path_parts is_absolute as_posix
    canonical_digest verify_file nonempty_array parse_entries object_with object exact_keys fresh_id
    text identifier is_identifier is_digest is_text strip get has keys set_eq is_subset contains
    difference text_append join
evidence_parses = refl

manifest_parses : Succeeds (validate_routing_manifest digest true (some observe) manifest_json)
unfolding parse_evidence parse_evidence_record segments path_parts is_absolute as_posix
    canonical_digest verify_file nonempty_array parse_entries object_with object exact_keys fresh_id
    text identifier is_identifier is_digest is_text strip get has keys set_eq is_subset contains
    difference text_append join validate_routing_manifest parse_parts parse_models parse_model
    parse_harnesses parse_harness parse_edges parse_edge parse_verifiers parse_verifier parse_routes
    parse_route parse_route_head parse_route_body parse_gain parse_priority parse_policy
    build_manifest one_of hashed string_tuple strings context_limit parse_evidence_ids
    validate_cross_references check_verifier check_route check_references check_composition
    check_acceptance check_accepted_verifier check_tools check_model check_xcode check_team
    check_baseline check_accepted_team same_surface check_policy check_primary check_apple
    check_sovereign route_is_local supports values parse_status parse_locality is_duplicate_free
manifest_parses = (_, refl)

abbrev request : RoutingRequest
request = record {
  task_id = "t";
  role = "implement";
  capability = "edit";
  language = "python";
  context_tokens = 2048;
  tool_needs = "shell" ∷ [];
  mode = production;
  candidate_route_id = none;
}

abbrev runtime : RuntimeState
runtime = record {
  cloud_available = true;
  operable_model_ids = "big" ∷ "a" ∷ [];
  operable_harness_ids = "harness" ∷ [];
  available_edge_ids = "remote" ∷ "mac" ∷ [];
  satisfied_runtime_tags = [];
}

runtime_known : runtime_references_are_known manifest_parses.0 runtime ≡ ok tt
unfolding manifest_parses runtime_references_are_known difference contains keys
runtime_known = refl

accepted_manifest_routes_example : Succeeds (select_route digest manifest_parses.0 request runtime)
accepted_manifest_routes_example =
    accepted_manifest_routes digest true (some observe) manifest_json manifest_parses.0 request
      runtime manifest_parses.1 runtime_known refl

validate_routing_manifest-IsWellFormed_example :
    IsWellFormed manifest_parses.0 × (validate_cross_references manifest_parses.0 ≡ ok tt)
validate_routing_manifest-IsWellFormed_example =
    validate_routing_manifest-IsWellFormed digest true (some observe) manifest_json
      manifest_parses.1
