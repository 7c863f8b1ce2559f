-- ===== src/Compaction/Samples.antt =====
-- Two task states, as `validate_task_state` of src/agent_continuity/compaction.py accepts them, and a compaction that is
-- accepted, for the tests.
use local_ai_coding_agent.Common.{
  List, [], ◌∷◌, some, true, ok, ◌≡◌, refl, get, keys, contains, difference, is_subset,
  is_duplicate_free, sorted_set, distinct, sort, insert_sorted, texts_eq, indexed, indexed_from,
  put, has, String, Option, none, Json,
}
use local_ai_coding_agent.Routing.Fields.{strip, strip_left, strip_right, is_digest}
use local_ai_coding_agent.Compaction.Types.{TaskState, SourceRange, CompactionResult}
use local_ai_coding_agent.Compaction.Values.{
  state_object, state_text, is_trimmed, state_identifier, is_stable_id, state_sha256, state_list,
  parse_each, item_path, field_path, id_list, state_items,
}
use local_ai_coding_agent.Compaction.Times.{
  utc, read_time, check_time, read_fields, read_digits, is_zone, is_fraction, is_calendar_time,
}
use local_ai_coding_agent.Compaction.Items.{
  read, read_word, read_proof, positive, objective_item, criterion_item, constraint_item,
  decision_item, completed_item, current_action_item, next_action_item, blocker_item,
  tool_call_item, artifact_item, dispute_item, objective_json, criterion_json, constraint_json,
  decision_json, completed_json, current_action_json, next_action_json, blocker_json,
  tool_call_json, artifact_json, dispute_json,
}
use local_ai_coding_agent.Compaction.State.{
  validate_task_state, read_state, previous_hash, check_actions, check_all_dependencies,
  check_dependencies, are_distinct, state_json, task_state_sha256,
}
use local_ai_coding_agent.Compaction.References.{
  answered, Resolver, check_references_of, check_source_range, range_outcome, check_range,
  range_issues, frozen_issues, through_issues, event_issues, evidence_issues, artifact_issues,
  event_paths, evidence_paths, each_indexed, each_citation,
}
use local_ai_coding_agent.Compaction.Invariants.{
  invariant_issues, exact_field, exact_issues, each_entry, proof_field, proof_issues, keeps_text,
  keeps_evidence, stays_proved, is_newly_backed, newly_completed, preserved, objective_eq,
  constraint_eq, decision_eq, completed_eq, current_action_eq, next_action_eq, tool_call_eq,
  artifact_eq, dispute_eq,
}
use local_ai_coding_agent.Compaction.Proposal.{
  checked_state, caught, candidate_issues, proposal_issues, pair_issues, link_issues,
  ordered_issues, distinct_issues, issue_leb, preserved_of, validate_compaction_proposal,
}

abbrev pub hash_text : String
hash_text = "sha256:0123456789abcdef0123456789abcdef0123456789abcdef0123456789abcdef"

abbrev pub digest : Json → String
digest v = hash_text

abbrev pub time : String
time = "2026-02-28T23:59:59.5Z"

abbrev pub state_of : String → List String → String → Option String → TaskState
state_of status proofs through previous = record {
  task_id = "T-1";
  objective = record { text = "fix the parser"; source_event_id = "E1" };
  success_criteria =
      record { id = "C1"; text = "tests pass"; status = status; evidence_ids = proofs } ∷ [];
  constraints =
      record { id = "K1"; text = "no network"; status = "active"; source_event_id = "E1" } ∷ [];
  decisions =
      record {
        id = "D1";
        text = "recursive descent";
        rationale = "small";
        source_event_ids = "E1" ∷ [];
      }
      ∷ [];
  completed =
      record { id = "W1"; text = "lexer"; evidence_ids = "P1" ∷ []; completed_at = time } ∷ [];
  current_action = record { text = "write the parser"; owner = "agent"; started_at = time };
  next_actions =
      record { id = "N1"; order = 1; text = "parse"; depends_on = [] }
      ∷ record { id = "N2"; order = 2; text = "print"; depends_on = "N1" ∷ [] }
      ∷ [];
  blockers = record { id = "B1"; text = "slow disk"; status = "active"; evidence_ids = [] } ∷ [];
  open_tool_calls = record { call_id = "X1"; tool = "shell"; outcome = "unknown" } ∷ [];
  artifacts = record { path = "src/lexer.py"; sha256 = hash_text; evidence_id = "P1" } ∷ [];
  disputes = [];
  through_event_id = through;
  previous_state_sha256 = previous;
}

abbrev pub first_state : TaskState
first_state = state_of "open" [] "E5" none

abbrev pub next_state : TaskState
next_state = state_of "met" ("P2" ∷ []) "E9" (some hash_text)

pub first_valid : validate_task_state (state_json first_state) ≡ ok first_state
unfolding validate_task_state read_state previous_hash check_actions check_all_dependencies
    check_dependencies are_distinct state_json objective_json criterion_json constraint_json
    decision_json completed_json current_action_json next_action_json blocker_json tool_call_json
    artifact_json dispute_json read read_word read_proof positive objective_item criterion_item
    constraint_item decision_item completed_item current_action_item next_action_item blocker_item
    tool_call_item artifact_item dispute_item utc read_time check_time read_fields read_digits
    is_zone is_fraction is_calendar_time state_object state_text is_trimmed state_identifier
    is_stable_id state_sha256 state_list parse_each item_path field_path id_list state_items strip
    strip_left strip_right is_digest get keys contains difference is_duplicate_free sorted_set
    distinct sort insert_sorted is_subset
first_valid = refl

pub next_valid : validate_task_state (state_json next_state) ≡ ok next_state
unfolding validate_task_state read_state previous_hash check_actions check_all_dependencies
    check_dependencies are_distinct state_json objective_json criterion_json constraint_json
    decision_json completed_json current_action_json next_action_json blocker_json tool_call_json
    artifact_json dispute_json read read_word read_proof positive objective_item criterion_item
    constraint_item decision_item completed_item current_action_item next_action_item blocker_item
    tool_call_item artifact_item dispute_item utc read_time check_time read_fields read_digits
    is_zone is_fraction is_calendar_time state_object state_text is_trimmed state_identifier
    is_stable_id state_sha256 state_list parse_each item_path field_path id_list state_items strip
    strip_left strip_right is_digest get keys contains difference is_duplicate_free sorted_set
    distinct sort insert_sorted is_subset
next_valid = refl

abbrev pub resolver : Resolver
resolver = record {
  event_record_sha256 = λ id. answered (some hash_text);
  evidence_exists = λ id. answered true;
  artifact_sha256 = λ path. answered (some hash_text);
}

abbrev pub range : SourceRange
range = record {
  first_event_id = "E6";
  first_record_sha256 = hash_text;
  last_event_id = "E9";
  last_record_sha256 = hash_text;
  retained_tail_event_id = "E10";
}

pub proposal_accepted :
    (result : CompactionResult) × (validate_compaction_proposal digest resolver range
        (state_json first_state)
        (state_json next_state)
      ≡ ok result)
    × (result.accepted ≡ true)
unfolding validate_compaction_proposal checked_state caught candidate_issues proposal_issues
    pair_issues link_issues ordered_issues distinct_issues issue_leb preserved_of task_state_sha256
    check_references_of check_source_range range_outcome check_range range_issues frozen_issues
    through_issues event_issues evidence_issues artifact_issues event_paths evidence_paths
    each_indexed each_citation invariant_issues exact_field exact_issues each_entry proof_field
    proof_issues keeps_text keeps_evidence stays_proved is_newly_backed newly_completed preserved
    objective_eq constraint_eq decision_eq completed_eq current_action_eq next_action_eq
    tool_call_eq artifact_eq dispute_eq texts_eq indexed indexed_from put has validate_task_state
    read_state previous_hash check_actions check_all_dependencies check_dependencies are_distinct
    state_json objective_json criterion_json constraint_json decision_json completed_json
    current_action_json next_action_json blocker_json tool_call_json artifact_json dispute_json read
    read_word read_proof positive objective_item criterion_item constraint_item decision_item
    completed_item current_action_item next_action_item blocker_item tool_call_item artifact_item
    dispute_item utc read_time check_time read_fields read_digits is_zone is_fraction
    is_calendar_time state_object state_text is_trimmed state_identifier is_stable_id state_sha256
    state_list parse_each item_path field_path id_list state_items strip strip_left strip_right
    is_digest get keys contains difference is_duplicate_free sorted_set distinct sort insert_sorted
    is_subset
proposal_accepted = (_, refl, refl)
