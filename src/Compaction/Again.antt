-- ===== src/Compaction/Again.antt =====
-- A validated task state of src/agent_continuity/compaction.py is a normal form: its dictionary is
-- accepted again, unchanged, and has a hash.
use local_ai_coding_agent.Common.{
  ℕ, Bool, true, false, not, ◌&&◌, ◌||◌, String, List, [], ◌∷◌, Option, none, some, Result, ok, err,
  ok_inj, bind_inv, guard-eq-ok, guard, item, ◌>>=◌, ◌>>◌, ◌≡◌, refl, sym, subst, ap, ◌∙◌, Dict,
  Json, Fields, str, int, pos, arr, obj, null, bool, float, end, field, str_items, optional_str,
  fields_dict, get, keys, difference, contains, is_empty, sorted_set, distinct, sort, ◌==◌,
}
use local_ai_coding_agent.Compaction.Types.{TaskState}
use local_ai_coding_agent.Compaction.Values.{
  state_object, state_identifier, state_sha256, state_items, field_path, state_error,
}
use local_ai_coding_agent.Compaction.Items.{
  read, objective_item, criterion_item, constraint_item, decision_item, completed_item,
  current_action_item, next_action_item, blocker_item, tool_call_item, artifact_item, dispute_item,
  objective_json, criterion_json, constraint_json, decision_json, completed_json,
  current_action_json, next_action_json, blocker_json, tool_call_json, artifact_json, dispute_json,
}
use local_ai_coding_agent.Compaction.State.{
  validate_task_state, read_state, state_json, previous_hash, is_the_text, task_state_schema,
  top_level_keys, check_actions, list_json, task_state_sha256,
}
use local_ai_coding_agent.Compaction.Again.Values.{
  Again, identifier-Again, sha256-Again, read_inv, items-Again,
}
use local_ai_coding_agent.Compaction.Again.Items.{
  objective-Again, criterion-Again, constraint-Again, decision-Again, completed-Again,
  current_action-Again, next_action-Again, blocker-Again, tool_call-Again, artifact-Again,
  dispute-Again,
}
mod Values
mod Items

previous_hash-Again :
    (v : Json) (o : Option String) → previous_hash v ≡ ok o → previous_hash (optional_str o) ≡ ok o
unfolding previous_hash
previous_hash-Again null o h = subst (λ o. previous_hash (optional_str o) ≡ ok o) (ok_inj h) refl
previous_hash-Again (bool b) o h =
    bind_inv (state_sha256 (bool b) "state.previous_state_sha256") _ h λ hash e h1.
      subst (λ o. previous_hash (optional_str o) ≡ ok o) (ok_inj h1)
        (rw (
          sha256-Again (bool b) "state.previous_state_sha256" "state.previous_state_sha256" hash e))
previous_hash-Again (int n) o h =
    bind_inv (state_sha256 (int n) "state.previous_state_sha256") _ h λ hash e h1.
      subst (λ o. previous_hash (optional_str o) ≡ ok o) (ok_inj h1)
        (rw
          (sha256-Again (int n) "state.previous_state_sha256" "state.previous_state_sha256" hash e))
previous_hash-Again (float s) o h =
    bind_inv (state_sha256 (float s) "state.previous_state_sha256") _ h λ hash e h1.
      subst (λ o. previous_hash (optional_str o) ≡ ok o) (ok_inj h1)
        (rw (
          sha256-Again (float s) "state.previous_state_sha256" "state.previous_state_sha256" hash
            e))
previous_hash-Again (str s) o h =
    bind_inv (state_sha256 (str s) "state.previous_state_sha256") _ h λ hash e h1.
      subst (λ o. previous_hash (optional_str o) ≡ ok o) (ok_inj h1)
        (rw
          (sha256-Again (str s) "state.previous_state_sha256" "state.previous_state_sha256" hash e))
previous_hash-Again (arr xs) o h =
    bind_inv (state_sha256 (arr xs) "state.previous_state_sha256") _ h λ hash e h1.
      subst (λ o. previous_hash (optional_str o) ≡ ok o) (ok_inj h1)
        (rw (
          sha256-Again (arr xs) "state.previous_state_sha256" "state.previous_state_sha256" hash e))
previous_hash-Again (obj fs) o h =
    bind_inv (state_sha256 (obj fs) "state.previous_state_sha256") _ h λ hash e h1.
      subst (λ o. previous_hash (optional_str o) ≡ ok o) (ok_inj h1)
        (rw (
          sha256-Again (obj fs) "state.previous_state_sha256" "state.previous_state_sha256" hash e))

previous_again :
    (raw : Dict Json) (o : Option String)
    → (item (get "previous_state_sha256" raw) >>= previous_hash) ≡ ok o
    → previous_hash (optional_str o) ≡ ok o
previous_again raw o h =
    bind_inv (item (get "previous_state_sha256" raw)) _ h λ v e h1. previous_hash-Again v o h1

-- The fields of a state's dictionary.
state_dict : TaskState → Dict Json
unfolding state_json
state_dict s = elim (state_json s) [ obj fs ↦ fields_dict fs | _ ↦ [] ]

read_state-Again :
    (raw : Dict Json) (s : TaskState) → read_state raw ≡ ok s → read_state (state_dict s) ≡ ok s
unfolding read_state read state_dict state_json get
read_state-Again raw s h = bind_inv (item (get "schema" raw)) _ h λ schema e0 h0.
    let (_, hs) = guard-eq-ok (is_the_text schema task_state_schema) _ _ h0 in
    bind_inv (item (get "previous_state_sha256" raw) >>= previous_hash) _ hs λ previous ep h0.
      read_inv raw "state" "state" state_identifier str identifier-Again "task_id" _ h0
        λ task_id e1 h1.
          read_inv raw "state" "state" objective_item objective_json objective-Again "objective" _
            h1
            λ objective e2 h2.
              read_inv raw "state" "state" (state_items criterion_item "id" (λ x. x.id))
                (list_json criterion_json)
                (items-Again criterion_item criterion_json criterion-Again "id" (λ x. x.id))
                "success_criteria" _ h2
                λ criteria e3 h3.
                  read_inv raw "state" "state" (state_items constraint_item "id" (λ x. x.id))
                    (list_json constraint_json)
                    (items-Again constraint_item constraint_json constraint-Again "id" (λ x. x.id))
                    "constraints" _ h3
                    λ constraints e4 h4.
                      read_inv raw "state" "state" (state_items decision_item "id" (λ x. x.id))
                        (list_json decision_json)
                        (items-Again decision_item decision_json decision-Again "id" (λ x. x.id))
                        "decisions" _ h4
                        λ decisions e5 h5.
                          read_inv raw "state" "state" (state_items completed_item "id" (λ x. x.id))
                            (list_json completed_json)
                            (items-Again completed_item completed_json completed-Again "id"
                              (λ x. x.id))
                            "completed" _ h5
                            λ completed e6 h6.
                              read_inv raw "state" "state" current_action_item current_action_json
                                current_action-Again "current_action" _ h6
                                λ current e7 h7.
                                  read_inv raw "state" "state"
                                    (state_items next_action_item "id" (λ x. x.id))
                                    (list_json next_action_json)
                                    (items-Again next_action_item next_action_json next_action-Again
                                      "id" (λ x. x.id))
                                    "next_actions" _ h7
                                    λ next_actions e8 h8.
                                      read_inv raw "state" "state"
                                        (state_items blocker_item "id" (λ x. x.id))
                                        (list_json blocker_json)
                                        (items-Again blocker_item blocker_json blocker-Again "id"
                                          (λ x. x.id))
                                        "blockers" _ h8
                                        λ blockers e9 h9.
                                          read_inv raw "state" "state"
                                            (state_items tool_call_item "call_id" (λ x. x.call_id))
                                            (list_json tool_call_json)
                                            (items-Again tool_call_item tool_call_json
                                              tool_call-Again "call_id" (λ x. x.call_id))
                                            "open_tool_calls" _ h9
                                            λ calls e10 h10.
                                              read_inv raw "state" "state"
                                                (state_items artifact_item "path" (λ x. x.path))
                                                (list_json artifact_json)
                                                (items-Again artifact_item artifact_json
                                                  artifact-Again "path" (λ x. x.path))
                                                "artifacts" _ h10
                                                λ artifacts e11 h11.
                                                  read_inv raw "state" "state"
                                                    (state_items dispute_item "id" (λ x. x.id))
                                                    (list_json dispute_json)
                                                    (items-Again dispute_item dispute_json
                                                      dispute-Again "id" (λ x. x.id))
                                                    "disputes" _ h11
                                                    λ disputes e12 h12.
                                                      read_inv raw "state" "state" state_identifier
                                                        str identifier-Again "through_event_id" _
                                                        h12
                                                        λ through e13 h13.
                                                          subst
                                                            (λ s. read_state (state_dict s) ≡ ok s)
                                                            (ok_inj h13)
                                                            (rw (
                                                            previous_again raw previous ep,
                                                            e1,
                                                            e2,
                                                            e3,
                                                            e4,
                                                            e5,
                                                            e6,
                                                            e7,
                                                            e8,
                                                            e9,
                                                            e10,
                                                            e11,
                                                            e12,
                                                            e13,
                                                            ))

-- What `validate_task_state` returned, it accepts again unchanged.
pub validate_task_state-Again :
    (v : Json) (s : TaskState)
    → validate_task_state v ≡ ok s
    → validate_task_state (state_json s) ≡ ok s
unfolding validate_task_state state_object state_json state_dict difference contains keys sorted_set
    distinct sort
validate_task_state-Again v s h = bind_inv (state_object v "state" top_level_keys) _ h λ raw e1 h1.
    bind_inv (read_state raw) _ h1 λ t e2 h2.
      bind_inv (check_actions t.next_actions) _ h2 λ _ e3 h3.
        subst (λ s. validate_task_state (state_json s) ≡ ok s) (ok_inj h3)
          (rw (read_state-Again raw t e2, e3))

-- A validated state has a hash: that of its dictionary.
pub task_state_sha256-json :
    (digest : Json → String) (v : Json) (s : TaskState)
    → validate_task_state v ≡ ok s
    → task_state_sha256 digest (state_json s) ≡ ok (digest (state_json s))
unfolding task_state_sha256
task_state_sha256-json digest v s h = rw (validate_task_state-Again v s h)
