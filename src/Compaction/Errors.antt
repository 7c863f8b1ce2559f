-- ===== src/Compaction/Errors.antt =====
-- Errors of src/agent_continuity/compaction.py: `validate_task_state` raises nothing but
-- `TaskStateError`, so `validate_compaction_proposal` always returns a result.
use local_ai_coding_agent.Common.{
  ℕ, ◌+◌, Bool, true, false, not, String, List, [], ◌∷◌, ◌++◌, Option, none, some, Result, ok, err,
  Error, contract_error, manifest_error, store_error, request_error, key_error, type_error, item,
  ◌>>=◌, ◌>>◌, ◌≡◌, refl, sym, subst, ap, ◌∙◌, arith, Dict, Json, str, int, arr, obj, null, bool,
  float, get, contains, difference, sorted_set, map, is_empty, Succeeds, Succeeds-bind,
  Succeeds-then,
}
use local_ai_coding_agent.Compaction.Types.{TaskState, NextAction, SourceRange, CompactionResult}
use local_ai_coding_agent.Compaction.Values.{
  state_object, state_identifier, state_sha256, state_items,
}
use local_ai_coding_agent.Compaction.Items.{
  read, objective_item, criterion_item, constraint_item, decision_item, completed_item,
  current_action_item, next_action_item, blocker_item, tool_call_item, artifact_item, dispute_item,
}
use local_ai_coding_agent.Compaction.State.{
  validate_task_state, read_state, state_json, previous_hash, is_the_text, task_state_schema,
  top_level_keys, check_actions, check_dependencies, check_all_dependencies, are_distinct,
  task_state_sha256,
}
use local_ai_coding_agent.Compaction.References.{
  Resolver, check_range, range_outcome, check_source_range, check_references_of,
}
use local_ai_coding_agent.Compaction.Proposal.{
  Checked, valid, invalid, caught, checked_state, candidate_issues, proposal_issues,
  validate_compaction_proposal,
}
use local_ai_coding_agent.Compaction.Errors.Values.{
  Known, field-IsTame, object-IsTame, is_task_error, IsTame, IsTame-bind, IsTame-check,
  IsTame-guard, Tame, state_object-IsTame, state_object-item, identifier-Tame, sha256-Tame,
  items-Tame, read-IsTame,
}
use local_ai_coding_agent.Compaction.Errors.Items.{
  objective-Tame, criterion-Tame, constraint-Tame, decision-Tame, completed-Tame,
  current_action-Tame, next_action-Tame, blocker-Tame, tool_call-Tame, artifact-Tame, dispute-Tame,
}
pub mod Values
mod Items

previous_hash-IsTame : (v : Json) → IsTame (previous_hash v)
unfolding previous_hash
previous_hash-IsTame null = tt
previous_hash-IsTame (bool b) =
    IsTame-bind (state_sha256 (bool b) "state.previous_state_sha256") _
      (sha256-Tame (bool b) "state.previous_state_sha256") λ s _. tt
previous_hash-IsTame (int n) =
    IsTame-bind (state_sha256 (int n) "state.previous_state_sha256") _
      (sha256-Tame (int n) "state.previous_state_sha256") λ s _. tt
previous_hash-IsTame (float s) =
    IsTame-bind (state_sha256 (float s) "state.previous_state_sha256") _
      (sha256-Tame (float s) "state.previous_state_sha256") λ s _. tt
previous_hash-IsTame (str s) =
    IsTame-bind (state_sha256 (str s) "state.previous_state_sha256") _
      (sha256-Tame (str s) "state.previous_state_sha256") λ s _. tt
previous_hash-IsTame (arr xs) =
    IsTame-bind (state_sha256 (arr xs) "state.previous_state_sha256") _
      (sha256-Tame (arr xs) "state.previous_state_sha256") λ s _. tt
previous_hash-IsTame (obj fs) =
    IsTame-bind (state_sha256 (obj fs) "state.previous_state_sha256") _
      (sha256-Tame (obj fs) "state.previous_state_sha256") λ s _. tt

Succeeds-IsTame {ℓ} : {A : Type ℓ} (m : Result A) → Succeeds m → IsTame m
Succeeds-IsTame (ok a) h = tt
Succeeds-IsTame (err e) h = absurd (cc (h.1))

read_state-IsTame : (raw : Dict Json) → Known top_level_keys raw → IsTame (read_state raw)
unfolding read_state contains
read_state-IsTame raw keys =
    IsTame-bind (item (get "schema" raw)) _ (there "schema" refl) λ schema _.
      IsTame-check (is_the_text schema task_state_schema) _ _ (
        IsTame-bind (item (get "previous_state_sha256" raw) >>= previous_hash) _
          (IsTame-bind (item (get "previous_state_sha256" raw)) _
            (there "previous_state_sha256" refl) λ v _. previous_hash-IsTame v)
          λ previous _. field-IsTame raw keys _ "state" _ _ identifier-Tame refl λ task_id.
            field-IsTame raw keys _ "state" _ _ objective-Tame refl λ objective.
              field-IsTame raw keys _ "state" _ _
                (items-Tame criterion_item criterion-Tame "id" (λ x. x.id)) refl
                λ criteria.
                  field-IsTame raw keys _ "state" _ _
                    (items-Tame constraint_item constraint-Tame "id" (λ x. x.id)) refl
                    λ constraints.
                      field-IsTame raw keys _ "state" _ _
                        (items-Tame decision_item decision-Tame "id" (λ x. x.id)) refl
                        λ decisions.
                          field-IsTame raw keys _ "state" _ _
                            (items-Tame completed_item completed-Tame "id" (λ x. x.id)) refl
                            λ completed.
                              field-IsTame raw keys _ "state" _ _ current_action-Tame refl
                                λ current.
                                  field-IsTame raw keys _ "state" _ _
                                    (items-Tame next_action_item next_action-Tame "id" (λ x. x.id))
                                    refl
                                    λ next_actions.
                                      field-IsTame raw keys _ "state" _ _
                                        (items-Tame blocker_item blocker-Tame "id" (λ x. x.id)) refl
                                        λ blockers.
                                          field-IsTame raw keys _ "state" _ _
                                            (items-Tame tool_call_item tool_call-Tame "call_id"
                                              (λ x. x.call_id))
                                            refl
                                            λ calls.
                                              field-IsTame raw keys _ "state" _ _
                                                (items-Tame artifact_item artifact-Tame "path"
                                                  (λ x. x.path))
                                                refl
                                                λ artifacts.
                                                  field-IsTame raw keys _ "state" _ _
                                                    (items-Tame dispute_item dispute-Tame "id"
                                                      (λ x. x.id))
                                                    refl
                                                    λ disputes.
                                                      field-IsTame raw keys _ "state" _ _
                                                        identifier-Tame refl λ through. tt)
  where
    there : (n : String) → contains n top_level_keys ≡ true → IsTame (item (get n raw))
    there n c = Succeeds-IsTame (item (get n raw)) (keys.there n c)

check_all-IsTame :
    (ids : List String) (i : ℕ) (xs : List NextAction) → IsTame (check_all_dependencies ids i xs)
unfolding check_all_dependencies check_dependencies
check_all-IsTame ids i [] = tt
check_all-IsTame ids i (a ∷ xs) =
    IsTame-bind (check_dependencies ids i a) _
      (IsTame-check (is_empty (sorted_set (difference a.depends_on ids))) _ _
        (IsTame-guard (not (contains a.id a.depends_on)) _))
      λ _ _. check_all-IsTame ids (i + 1) xs

check_actions-IsTame : (xs : List NextAction) → IsTame (check_actions xs)
unfolding check_actions
check_actions-IsTame xs =
    IsTame-check (are_distinct (map (λ a. a.order) xs)) _ _
      (check_all-IsTame (map (λ a. a.id) xs) 0 xs)

-- `validate_task_state` returns a state or raises a `TaskStateError`, whatever the decoded value is:
-- no key is missing where it subscripts, and nothing else goes wrong.
pub validate_task_state-IsTame : (v : Json) → IsTame (validate_task_state v)
unfolding validate_task_state
validate_task_state-IsTame v = object-IsTame v "state" top_level_keys _ λ raw keys.
    IsTame-bind (read_state raw) _ (read_state-IsTame raw keys) λ s _.
      IsTame-bind (check_actions s.next_actions) _ (check_actions-IsTame s.next_actions) λ _ _. tt

check_range-IsTame : (range : SourceRange) → IsTame (check_range range)
unfolding check_range
check_range-IsTame range =
    IsTame-bind (state_identifier (str range.first_event_id) "source_range.first_event_id") _
      (identifier-Tame (str range.first_event_id) "source_range.first_event_id")
      λ _ _.
        IsTame-bind (state_identifier (str range.last_event_id) "source_range.last_event_id") _
          (identifier-Tame (str range.last_event_id) "source_range.last_event_id")
          λ _ _.
            IsTame-bind
              (state_identifier (str range.retained_tail_event_id)
                "source_range.retained_tail_event_id")
              _
              (identifier-Tame (str range.retained_tail_event_id)
                "source_range.retained_tail_event_id")
              λ _ _.
                IsTame-bind
                  (state_sha256 (str range.first_record_sha256) "source_range.first_record_sha256")
                  _ (sha256-Tame (str range.first_record_sha256) "source_range.first_record_sha256")
                  λ _ _.
                    IsTame-bind
                      (state_sha256 (str range.last_record_sha256)
                        "source_range.last_record_sha256")
                      _
                      (sha256-Tame (str range.last_record_sha256) "source_range.last_record_sha256")
                      λ _ _. tt

caught-Succeeds : (m : Result Checked) → IsTame m → Succeeds (caught m)
unfolding caught
caught-Succeeds (ok c) t = (c, refl)
caught-Succeeds (err (contract_error m)) t = (invalid m, refl)
caught-Succeeds (err (manifest_error m)) t = absurd (cc)
caught-Succeeds (err (store_error m)) t = absurd (cc)
caught-Succeeds (err (request_error m)) t = absurd (cc)
caught-Succeeds (err key_error) t = absurd (cc)
caught-Succeeds (err type_error) t = absurd (cc)

module _ (digest : Json → String) where
  checked_state-Succeeds : (v : Json) → Succeeds (checked_state digest v)
  unfolding checked_state task_state_sha256
  checked_state-Succeeds v = caught-Succeeds _ (
      IsTame-bind (validate_task_state v) _ (validate_task_state-IsTame v) λ s _.
        IsTame-bind (task_state_sha256 digest (state_json s)) _
          (IsTame-bind (validate_task_state (state_json s)) _
            (validate_task_state-IsTame (state_json s)) λ _ _. tt)
          λ _ _. tt)

  module _ (r : Resolver) (range : SourceRange) where
    range_outcome-Succeeds :
        (s : TaskState) (o : Result (Unit {0})) → IsTame o → Succeeds (range_outcome r s range o)
    unfolding range_outcome
    range_outcome-Succeeds s (ok done) t = (_, refl)
    range_outcome-Succeeds s (err (contract_error m)) t = (_, refl)
    range_outcome-Succeeds s (err (manifest_error m)) t = absurd (cc)
    range_outcome-Succeeds s (err (store_error m)) t = absurd (cc)
    range_outcome-Succeeds s (err (request_error m)) t = absurd (cc)
    range_outcome-Succeeds s (err key_error) t = absurd (cc)
    range_outcome-Succeeds s (err type_error) t = absurd (cc)

    candidate_issues-Succeeds : (c : Checked) → Succeeds (candidate_issues digest r range c)
    unfolding candidate_issues check_source_range
    candidate_issues-Succeeds (invalid m) = (_, refl)
    candidate_issues-Succeeds (valid c h) =
        Succeeds-then (range_outcome r c range (check_range range)) _
          (range_outcome-Succeeds c (check_range range) (check_range-IsTame range)) λ xs. (_, refl)

    -- `validate_compaction_proposal` returns a result on any two decoded values, whatever the resolver
    -- answers or raises.
    pub validate_compaction_proposal_total :
        (v w : Json) → Succeeds (validate_compaction_proposal digest r range v w)
    unfolding validate_compaction_proposal proposal_issues
    validate_compaction_proposal_total v w =
        Succeeds-then (checked_state digest v) _ (checked_state-Succeeds v) λ p.
          Succeeds-then (checked_state digest w) _ (checked_state-Succeeds w) λ c.
            Succeeds-then (proposal_issues digest r range p c) _
              (Succeeds-then (candidate_issues digest r range c) _ (candidate_issues-Succeeds c)
                λ xs. (_, refl))
              λ xs. (_, refl)
