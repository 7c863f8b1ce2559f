-- ===== src/Routing/Requests.antt =====
-- The checks that the constructors of `RoutingRequest` and `RuntimeState` make, in
-- src/agent_continuity/routing.py, of values that have the fields' types.
use local_ai_coding_agent.Common.{
  String, Option, none, some, Bool, true, false, not, ◌||◌, Result, ok, request_error, guard, ◌>>◌,
  ◌≡◌, refl, leb, all, is_none, is_duplicate_free, guard-eq-ok,
}
use local_ai_coding_agent.Routing.Types.{RoutingRequest, RuntimeState}
use local_ai_coding_agent.Routing.Eligibility.{is_production}
use local_ai_coding_agent.Routing.Fields.{is_identifier}

abbrev pub is_optional_identifier : Option String → Bool
is_optional_identifier none = true
is_optional_identifier (some s) = is_identifier s

-- `RoutingRequest.__post_init__`
unfoldable pub check_request : RoutingRequest → Result (Unit {0})
check_request q = do
  guard (is_identifier q.task_id) (request_error "task_id must be a lowercase stable identifier")
  guard (is_identifier q.role) (request_error "must be a lowercase stable identifier")
  guard (is_identifier q.capability) (request_error "must be a lowercase stable identifier")
  guard (is_identifier q.language) (request_error "must be a lowercase stable identifier")
  guard (leb 1 q.context_tokens) (request_error "context_tokens must be a positive integer")
  guard (is_duplicate_free q.tool_needs) (request_error "tool_needs must be a duplicate-free tuple")
  guard (all is_identifier q.tool_needs)
      (request_error "tool_needs must contain stable identifiers")
  guard (is_production q.mode || not (is_none q.candidate_route_id))
      (request_error "qualification mode requires candidate_route_id")
  guard (not (is_production q.mode) || is_none q.candidate_route_id)
      (request_error "production mode forbids candidate_route_id")
  guard (is_optional_identifier q.candidate_route_id)
      (request_error "candidate_route_id must be a stable identifier")

-- `RuntimeState.__post_init__`
unfoldable pub check_runtime : RuntimeState → Result (Unit {0})
check_runtime rt = do
  guard (all is_identifier rt.operable_model_ids)
      (request_error "runtime operable_model_ids must contain stable identifiers")
  guard (all is_identifier rt.operable_harness_ids)
      (request_error "runtime operable_harness_ids must contain stable identifiers")
  guard (all is_identifier rt.available_edge_ids)
      (request_error "runtime available_edge_ids must contain stable identifiers")
  guard (all is_identifier rt.satisfied_runtime_tags)
      (request_error "runtime satisfied_runtime_tags must contain stable identifiers")

-- A request that was constructed names a candidate exactly in qualification mode.
pub check_request-candidate :
    (q : RoutingRequest)
    → check_request q ≡ ok tt
    → is_none q.candidate_route_id ≡ is_production q.mode
unfolding check_request
check_request-candidate q h =
    let (_, h1) =
      guard-eq-ok (is_identifier q.task_id)
        (request_error "task_id must be a lowercase stable identifier") _ h in
    let (_, h2) =
      guard-eq-ok (is_identifier q.role) (request_error "must be a lowercase stable identifier") _
        h1 in
    let (_, h3) =
      guard-eq-ok (is_identifier q.capability)
        (request_error "must be a lowercase stable identifier") _ h2 in
    let (_, h4) =
      guard-eq-ok (is_identifier q.language) (request_error "must be a lowercase stable identifier")
        _ h3 in
    let (_, h5) =
      guard-eq-ok (leb 1 q.context_tokens)
        (request_error "context_tokens must be a positive integer") _ h4 in
    let (_, h6) =
      guard-eq-ok (is_duplicate_free q.tool_needs)
        (request_error "tool_needs must be a duplicate-free tuple") _ h5 in
    let (_, h7) =
      guard-eq-ok (all is_identifier q.tool_needs)
        (request_error "tool_needs must contain stable identifiers") _ h6 in
    let (a, h8) =
      guard-eq-ok (is_production q.mode || not (is_none q.candidate_route_id))
        (request_error "qualification mode requires candidate_route_id") _ h7 in
    let (b, _) =
      guard-eq-ok (not (is_production q.mode) || is_none q.candidate_route_id)
        (request_error "production mode forbids candidate_route_id") _ h8 in
    agree (is_production q.mode) (is_none q.candidate_route_id) a b
  where
    agree : (p n : Bool) → (p || not n) ≡ true → (not p || n) ≡ true → n ≡ p
    agree true true a b = refl
    agree false false a b = refl
    agree true false a b = cc
    agree false true a b = cc
