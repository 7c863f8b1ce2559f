-- ===== src/Compaction/Tests.antt =====
-- A task state and a compaction of it, with the theorems on src/agent_continuity/compaction.py at this
-- input.
use local_ai_coding_agent.Common.{
  List, [], ◌∷◌, ◌++◌, map, some, ok, ◌≡◌, refl, str, map_result, Succeeds, get, keys, contains,
  difference, is_subset, is_duplicate_free, sorted_set, distinct, sort, insert_sorted, texts_eq,
  indexed, indexed_from, put, text_append, concat, has, str_leb, codes_leb,
}
use local_ai_coding_agent.Routing.Fields.{strip, strip_left, strip_right, is_digest}
use local_ai_coding_agent.Compaction.Types.{TaskState, CompactionResult}
use local_ai_coding_agent.Compaction.Values.{
  state_object, state_text, is_trimmed, state_identifier, is_stable_id, state_sha256, state_list,
  parse_each, item_path, field_path, id_list, state_items,
}
use local_ai_coding_agent.Compaction.Times.{
  utc, read_time, check_time, read_fields, read_digits, is_zone, is_fraction, is_calendar_time,
}
use local_ai_coding_agent.Compaction.Items.{
  read, read_word, read_proof, positive, objective_item, criterion_item, constraint_item,
  decision_item, completed_item, current_action_item, next_action_item, blocker_item,
  tool_call_item, artifact_item, dispute_item, objective_json, criterion_json, constraint_json,
  decision_json, completed_json, current_action_json, next_action_json, blocker_json,
  tool_call_json, artifact_json, dispute_json,
}
use local_ai_coding_agent.Compaction.State.{
  validate_task_state, read_state, previous_hash, check_actions, check_all_dependencies,
  check_dependencies, are_distinct, state_json, task_state_sha256,
}
use local_ai_coding_agent.Compaction.Again.{validate_task_state-Again}
use local_ai_coding_agent.Compaction.Errors.{
  validate_task_state-IsTame, validate_compaction_proposal_total,
}
use local_ai_coding_agent.Compaction.Errors.Values.{IsTame}
use local_ai_coding_agent.Compaction.References.{
  check_references_of, check_source_range, range_outcome, check_range, range_issues, frozen_issues,
  through_issues, event_issues, evidence_issues, artifact_issues, event_paths, evidence_paths,
  each_indexed, each_citation,
}
use local_ai_coding_agent.Compaction.Invariants.{
  invariant_issues, exact_field, exact_issues, each_entry, proof_field, proof_issues, keeps_text,
  keeps_evidence, stays_proved, is_newly_backed, newly_completed, preserved, objective_eq,
  constraint_eq, decision_eq, completed_eq, current_action_eq, next_action_eq, tool_call_eq,
  artifact_eq, dispute_eq,
}
use local_ai_coding_agent.Compaction.Proposal.{
  checked_state, caught, candidate_issues, proposal_issues, pair_issues, link_issues,
  ordered_issues, distinct_issues, issue_leb, preserved_of, validate_compaction_proposal,
}
use local_ai_coding_agent.Compaction.Preserved.Admission.{IsAdmitted, accepted-IsAdmitted}
use local_ai_coding_agent.Compaction.Chain.{
  check_revision, check_revisions, check_normalized, validate_state_chain,
}
use local_ai_coding_agent.Compaction.Chain.Links.{
  IsChain, state_hash, validate_state_chain-IsChain, validate_state_chain_total, accepted-IsChain,
}
use local_ai_coding_agent.Compaction.Samples.{
  resolver, range, proposal_accepted, hash_text, digest, state_of, first_state, next_state,
  first_valid, next_valid,
}

-- A criterion that is met without new evidence is not accepted.
proposal_rejected :
    (result : CompactionResult) × (validate_compaction_proposal digest resolver range
        (state_json next_state)
        (state_json (state_of "open" ("P2" ∷ []) "E9" (some hash_text)))
      ≡ ok result)
    × (map (λ i. i.code) result.issues ≡ "completion_reversed" ∷ "stale_through_event" ∷ [])
unfolding validate_compaction_proposal checked_state caught candidate_issues proposal_issues
    pair_issues link_issues ordered_issues distinct_issues issue_leb preserved_of task_state_sha256
    check_references_of check_source_range range_outcome check_range range_issues frozen_issues
    through_issues event_issues evidence_issues artifact_issues event_paths evidence_paths
    each_indexed each_citation invariant_issues exact_field exact_issues each_entry proof_field
    proof_issues keeps_text keeps_evidence stays_proved is_newly_backed newly_completed preserved
    objective_eq constraint_eq decision_eq completed_eq current_action_eq next_action_eq
    tool_call_eq artifact_eq dispute_eq texts_eq indexed indexed_from put has validate_task_state
    read_state previous_hash check_actions check_all_dependencies check_dependencies are_distinct
    state_json objective_json criterion_json constraint_json decision_json completed_json
    current_action_json next_action_json blocker_json tool_call_json artifact_json dispute_json read
    read_word read_proof positive objective_item criterion_item constraint_item decision_item
    completed_item current_action_item next_action_item blocker_item tool_call_item artifact_item
    dispute_item utc read_time check_time read_fields read_digits is_zone is_fraction
    is_calendar_time state_object state_text is_trimmed state_identifier is_stable_id state_sha256
    state_list parse_each item_path field_path id_list state_items strip strip_left strip_right
    is_digest get keys contains difference is_duplicate_free sorted_set distinct sort insert_sorted
    is_subset text_append concat str_leb codes_leb
proposal_rejected = (_, refl, refl)

chain_accepted :
    validate_state_chain digest ([] ++ state_json first_state ∷ []) ≡ ok (hash_text ∷ [])
unfolding validate_state_chain check_normalized check_revisions check_revision task_state_sha256
    validate_task_state read_state previous_hash check_actions check_all_dependencies
    check_dependencies are_distinct state_json objective_json criterion_json constraint_json
    decision_json completed_json current_action_json next_action_json blocker_json tool_call_json
    artifact_json dispute_json read read_word read_proof positive objective_item criterion_item
    constraint_item decision_item completed_item current_action_item next_action_item blocker_item
    tool_call_item artifact_item dispute_item utc read_time check_time read_fields read_digits
    is_zone is_fraction is_calendar_time state_object state_text is_trimmed state_identifier
    is_stable_id state_sha256 state_list parse_each item_path field_path id_list state_items strip
    strip_left strip_right is_digest get keys contains difference is_duplicate_free sorted_set
    distinct sort insert_sorted is_subset
chain_accepted = refl

chain_of_two :
    validate_state_chain digest (state_json first_state ∷ state_json next_state ∷ [])
    ≡ ok (hash_text ∷ hash_text ∷ [])
unfolding validate_state_chain check_normalized check_revisions check_revision task_state_sha256
    validate_task_state read_state previous_hash check_actions check_all_dependencies
    check_dependencies are_distinct state_json objective_json criterion_json constraint_json
    decision_json completed_json current_action_json next_action_json blocker_json tool_call_json
    artifact_json dispute_json read read_word read_proof positive objective_item criterion_item
    constraint_item decision_item completed_item current_action_item next_action_item blocker_item
    tool_call_item artifact_item dispute_item utc read_time check_time read_fields read_digits
    is_zone is_fraction is_calendar_time state_object state_text is_trimmed state_identifier
    is_stable_id state_sha256 state_list parse_each item_path field_path id_list state_items strip
    strip_left strip_right is_digest get keys contains difference is_duplicate_free sorted_set
    distinct sort insert_sorted is_subset
chain_of_two = refl

accepted-IsAdmitted_example :
    IsAdmitted digest resolver range (state_json first_state) (state_json next_state)
accepted-IsAdmitted_example =
    accepted-IsAdmitted digest resolver range (state_json first_state) (state_json next_state)
      proposal_accepted.1 proposal_accepted.2

accepted-IsChain_example :
    Succeeds
      (validate_state_chain digest ([] ++ state_json first_state ∷ state_json next_state ∷ []))
accepted-IsChain_example =
    accepted-IsChain digest resolver range [] (state_json first_state) (state_json next_state)
      chain_accepted proposal_accepted.1 proposal_accepted.2

validate_task_state-Again_example : validate_task_state (state_json next_state) ≡ ok next_state
validate_task_state-Again_example =
    validate_task_state-Again (state_json next_state) next_state next_valid

validate_task_state-IsTame_example : IsTame (validate_task_state (str "no state"))
validate_task_state-IsTame_example = validate_task_state-IsTame (str "no state")

validate_compaction_proposal_total_example :
    Succeeds
      (validate_compaction_proposal digest resolver range (str "no state") (state_json next_state))
validate_compaction_proposal_total_example =
    validate_compaction_proposal_total digest resolver range (str "no state")
      (state_json next_state)

validate_state_chain-IsChain_example :
    (ss : List TaskState) × (map_result validate_task_state
        (state_json first_state ∷ state_json next_state ∷ [])
      ≡ ok ss)
    × IsChain digest ss
    × (hash_text ∷ hash_text ∷ [] ≡ map (state_hash digest) ss)
validate_state_chain-IsChain_example =
    validate_state_chain-IsChain digest (state_json first_state ∷ state_json next_state ∷ [])
      chain_of_two

validate_state_chain_total_example :
    validate_state_chain digest (state_json first_state ∷ [])
    ≡ ok (map (state_hash digest) (first_state ∷ []))
validate_state_chain_total_example =
    validate_state_chain_total digest (state_json first_state ∷ []) (first_state ∷ [])
      (rw first_valid) (refl, refl, tt)
