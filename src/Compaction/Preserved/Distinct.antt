-- ===== src/Compaction/Preserved/Distinct.antt =====
-- In a validated task state of src/agent_continuity/compaction.py no two items of a list have one
-- identity.
use local_ai_coding_agent.Common.{
  true, String, List, map, Result, ok, ok_inj, bind_inv, guard-eq-ok, item, ◌>>=◌, ◌≡◌, subst, Dict,
  Json, get, is_duplicate_free,
}
use local_ai_coding_agent.Compaction.Types.{TaskState}
use local_ai_coding_agent.Compaction.Values.{
  state_object, state_identifier, state_list, state_items, parse_each, field_path,
}
use local_ai_coding_agent.Compaction.Items.{
  read, objective_item, criterion_item, constraint_item, decision_item, completed_item,
  current_action_item, next_action_item, blocker_item, tool_call_item, artifact_item, dispute_item,
}
use local_ai_coding_agent.Compaction.State.{
  validate_task_state, read_state, previous_hash, is_the_text, task_state_schema, top_level_keys,
  check_actions,
}

module _ {ℓ} {A : Type ℓ} (parse : Json → String → Result A) (name : String)
    (identity : A → String) where
  state_items-distinct :
      (v : Json) (path : String) (xs : List A)
      → state_items parse name identity v path ≡ ok xs
      → is_duplicate_free (map identity xs) ≡ true
  unfolding state_items
  state_items-distinct v path xs h = bind_inv (state_list v path) _ h λ vs e h1.
      bind_inv (parse_each parse path 0 vs) _ h1 λ ys es h2.
        let (t, h3) = guard-eq-ok (is_duplicate_free (map identity ys)) _ (ok ys) h2 in
        subst (λ xs. is_duplicate_free (map identity xs) ≡ true) (ok_inj h3) t

  read_items-distinct :
      (raw : Dict Json) (path key : String) (xs : List A)
      → read (state_items parse name identity) raw path key ≡ ok xs
      → is_duplicate_free (map identity xs) ≡ true
  unfolding read
  read_items-distinct raw path key xs h =
      bind_inv (item (get key raw)) _ h λ v e h1. state_items-distinct v (field_path path key) xs h1

-- Items that were read are distinct; the rest of a proof goes on with the rest of the block.
module _ {ℓ κ ν} {A : Type ℓ} {B : Type κ} {C : Type ν} (raw : Dict Json) (path : String) where
  distinct_inv :
      (parse : Json → String → Result A) (name : String) (identity : A → String) (key : String)
      (f : List A → Result B) {b : B}
      → (read (state_items parse name identity) raw path key >>= f) ≡ ok b
      → ((xs : List A) → is_duplicate_free (map identity xs) ≡ true → f xs ≡ ok b → C)
      → C
  distinct_inv parse name identity key f h k =
      bind_inv (read (state_items parse name identity) raw path key) f h
        λ xs e h1. k xs (read_items-distinct parse name identity raw path key xs e) h1

pub record IsDistinct (s : TaskState) : Type 0 where
  pub success_criteria : is_duplicate_free (map (λ x. x.id) s.success_criteria) ≡ true
  pub constraints : is_duplicate_free (map (λ x. x.id) s.constraints) ≡ true
  pub decisions : is_duplicate_free (map (λ x. x.id) s.decisions) ≡ true
  pub completed : is_duplicate_free (map (λ x. x.id) s.completed) ≡ true
  pub next_actions : is_duplicate_free (map (λ x. x.id) s.next_actions) ≡ true
  pub blockers : is_duplicate_free (map (λ x. x.id) s.blockers) ≡ true
  pub open_tool_calls : is_duplicate_free (map (λ x. x.call_id) s.open_tool_calls) ≡ true
  pub artifacts : is_duplicate_free (map (λ x. x.path) s.artifacts) ≡ true
  pub disputes : is_duplicate_free (map (λ x. x.id) s.disputes) ≡ true

read_state-IsDistinct : (raw : Dict Json) (s : TaskState) → read_state raw ≡ ok s → IsDistinct s
unfolding read_state
read_state-IsDistinct raw s h = bind_inv (item (get "schema" raw)) _ h λ schema e0 h0.
    let (_, hs) = guard-eq-ok (is_the_text schema task_state_schema) _ _ h0 in
    bind_inv (item (get "previous_state_sha256" raw) >>= previous_hash) _ hs λ previous ep h0.
      bind_inv (read state_identifier raw "state" "task_id") _ h0 λ task_id e1 h1.
        bind_inv (read objective_item raw "state" "objective") _ h1 λ objective e2 h2.
          distinct_inv raw "state" criterion_item "id" (λ x. x.id) "success_criteria" _ h2
            λ criteria d2 h3.
              distinct_inv raw "state" constraint_item "id" (λ x. x.id) "constraints" _ h3
                λ constraints d3 h4.
                  distinct_inv raw "state" decision_item "id" (λ x. x.id) "decisions" _ h4
                    λ decisions d4 h5.
                      distinct_inv raw "state" completed_item "id" (λ x. x.id) "completed" _ h5
                        λ completed d5 h6.
                          bind_inv (read current_action_item raw "state" "current_action") _ h6
                            λ current e h7.
                              distinct_inv raw "state" next_action_item "id" (λ x. x.id)
                                "next_actions" _ h7
                                λ next_actions d7 h8.
                                  distinct_inv raw "state" blocker_item "id" (λ x. x.id) "blockers"
                                    _ h8
                                    λ blockers d8 h9.
                                      distinct_inv raw "state" tool_call_item "call_id"
                                        (λ x. x.call_id) "open_tool_calls" _ h9
                                        λ calls d9 h10.
                                          distinct_inv raw "state" artifact_item "path"
                                            (λ x. x.path) "artifacts" _ h10
                                            λ artifacts d10 h11.
                                              distinct_inv raw "state" dispute_item "id" (λ x. x.id)
                                                "disputes" _ h11
                                                λ disputes d11 h12.
                                                  bind_inv
                                                    (read state_identifier raw "state"
                                                      "through_event_id")
                                                    _ h12
                                                    λ through et h13.
                                                      subst IsDistinct (ok_inj h13) (record {
                                                        success_criteria = d2;
                                                        constraints = d3;
                                                        decisions = d4;
                                                        completed = d5;
                                                        next_actions = d7;
                                                        blockers = d8;
                                                        open_tool_calls = d9;
                                                        artifacts = d10;
                                                        disputes = d11;
                                                      })

pub validate_task_state-IsDistinct :
    (v : Json) (s : TaskState) → validate_task_state v ≡ ok s → IsDistinct s
unfolding validate_task_state
validate_task_state-IsDistinct v s h =
    bind_inv (state_object v "state" top_level_keys) _ h λ raw e1 h1.
      bind_inv (read_state raw) _ h1 λ t e2 h2.
        bind_inv (check_actions t.next_actions) _ h2
          λ _ e3 h3. subst IsDistinct (ok_inj h3) (read_state-IsDistinct raw t e2)
