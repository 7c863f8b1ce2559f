-- ===== src/Compaction/State.antt =====
-- `validate_task_state`, `task_state_sha256` and `load_task_state`'s decoded part, of
-- src/agent_continuity/compaction.py. The hash of a value's canonical JSON is a parameter, `digest`.
use local_ai_coding_agent.Common.{
  ℕ, ◌+◌, Bool, true, false, not, ◌&&◌, ◌||◌, String, List, [], ◌∷◌, map, Option, none, some,
  Result, ok, guard, item, ◌>>=◌, ◌>>◌, Dict, Json, Items, end, field, str, arr, obj, null, nil,
  cons, optional_str, get, contains, difference, is_empty, sorted_set, join, decimal, nat_eq, ◌==◌,
}
use local_ai_coding_agent.Compaction.Types.{NextAction, TaskState}
use local_ai_coding_agent.Compaction.Values.{
  state_object, state_identifier, state_sha256, state_items, state_error,
}
use local_ai_coding_agent.Compaction.Items.{
  read, objective_item, criterion_item, constraint_item, decision_item, completed_item,
  current_action_item, next_action_item, blocker_item, tool_call_item, artifact_item, dispute_item,
  objective_json, criterion_json, constraint_json, decision_json, completed_json,
  current_action_json, next_action_json, blocker_json, tool_call_json, artifact_json, dispute_json,
}

abbrev pub task_state_schema : String
task_state_schema = "coding-intelligence-task-state/v1"

-- `_TOP_LEVEL_KEYS`
abbrev pub top_level_keys : List String
top_level_keys =
    "schema" ∷ "task_id" ∷ "objective" ∷ "success_criteria" ∷ "constraints" ∷ "decisions"
    ∷ "completed" ∷ "current_action" ∷ "next_actions" ∷ "blockers" ∷ "open_tool_calls" ∷ "artifacts"
    ∷ "disputes" ∷ "through_event_id" ∷ "previous_state_sha256" ∷ []

-- `value == text`, for any value.
abbrev pub is_the_text : Json → String → Bool
is_the_text (str s) t = s == t
is_the_text v t = false

-- `None`, or a digest.
unfoldable pub previous_hash : Json → Result (Option String)
previous_hash null = ok none
previous_hash v = do s ← state_sha256 v "state.previous_state_sha256"; ok (some s)

abbrev pub member : ℕ → List ℕ → Bool
member n [] = false
member n (m ∷ ms) = nat_eq n m || member n ms

-- `len(orders) == len(set(orders))`
unfoldable pub are_distinct : List ℕ → Bool
are_distinct [] = true
are_distinct (n ∷ ns) = not (member n ns) && are_distinct ns

-- An action depends on other actions of the state only.
unfoldable pub check_dependencies : List String → ℕ → NextAction → Result (Unit {0})
check_dependencies ids index a = do
  let missing = sorted_set (difference a.depends_on ids)
  guard (is_empty missing) (
      state_error (
        "state.next_actions["
        ∷ decimal index
        ∷ "].depends_on names unknown actions: "
        ∷ join ", " missing
        ∷ []))
  guard (not (contains a.id a.depends_on))
      (state_error ("state.next_actions[" ∷ decimal index ∷ "] cannot depend on itself" ∷ []))

unfoldable pub check_all_dependencies : List String → ℕ → List NextAction → Result (Unit {0})
check_all_dependencies ids index [] = ok tt
check_all_dependencies ids index (a ∷ xs) = do
  check_dependencies ids index a
  check_all_dependencies ids (index + 1) xs

-- The checks that span the next actions.
unfoldable pub check_actions : List NextAction → Result (Unit {0})
check_actions xs = do
  guard (are_distinct (map (λ a. a.order) xs))
      (state_error ("state.next_actions contains duplicate order values" ∷ []))
  check_all_dependencies (map (λ a. a.id) xs) 0 xs

-- The normalized dictionary, before the checks that span several items.
unfoldable pub read_state : Dict Json → Result TaskState
read_state raw = do
  schema ← item (get "schema" raw)
  guard (is_the_text schema task_state_schema)
      (state_error ("state.schema must be " ∷ task_state_schema ∷ []))
  previous ← item (get "previous_state_sha256" raw) >>= previous_hash
  task_id ← read state_identifier raw "state" "task_id"
  objective ← read objective_item raw "state" "objective"
  criteria ← read (state_items criterion_item "id" (λ x. x.id)) raw "state" "success_criteria"
  constraints ← read (state_items constraint_item "id" (λ x. x.id)) raw "state" "constraints"
  decisions ← read (state_items decision_item "id" (λ x. x.id)) raw "state" "decisions"
  completed ← read (state_items completed_item "id" (λ x. x.id)) raw "state" "completed"
  current ← read current_action_item raw "state" "current_action"
  next_actions ← read (state_items next_action_item "id" (λ x. x.id)) raw "state" "next_actions"
  blockers ← read (state_items blocker_item "id" (λ x. x.id)) raw "state" "blockers"
  calls ← read (state_items tool_call_item "call_id" (λ x. x.call_id)) raw "state" "open_tool_calls"
  artifacts ← read (state_items artifact_item "path" (λ x. x.path)) raw "state" "artifacts"
  disputes ← read (state_items dispute_item "id" (λ x. x.id)) raw "state" "disputes"
  through ← read state_identifier raw "state" "through_event_id"
  ok (record {
    task_id = task_id;
    objective = objective;
    success_criteria = criteria;
    constraints = constraints;
    decisions = decisions;
    completed = completed;
    current_action = current;
    next_actions = next_actions;
    blockers = blockers;
    open_tool_calls = calls;
    artifacts = artifacts;
    disputes = disputes;
    through_event_id = through;
    previous_state_sha256 = previous;
  })

unfoldable pub validate_task_state : Json → Result TaskState
validate_task_state v = do
  raw ← state_object v "state" top_level_keys
  s ← read_state raw
  check_actions s.next_actions
  ok s

abbrev pub json_each {ℓ} : {A : Type ℓ} → (A → Json) → List A → Items
json_each f [] = nil
json_each f (x ∷ xs) = cons (f x) (json_each f xs)

abbrev pub list_json {ℓ} : {A : Type ℓ} → (A → Json) → List A → Json
list_json f xs = arr (json_each f xs)

-- The dictionary that `validate_task_state` returns.
unfoldable pub state_json : TaskState → Json
state_json s = obj (
    field "schema" (str task_state_schema) (
      field "task_id" (str s.task_id) (
        field "objective" (objective_json s.objective) (
          field "success_criteria" (list_json criterion_json s.success_criteria) (
            field "constraints" (list_json constraint_json s.constraints) (
              field "decisions" (list_json decision_json s.decisions) (
                field "completed" (list_json completed_json s.completed) (
                  field "current_action" (current_action_json s.current_action) (
                    field "next_actions" (list_json next_action_json s.next_actions) (
                      field "blockers" (list_json blocker_json s.blockers) (
                        field "open_tool_calls" (list_json tool_call_json s.open_tool_calls) (
                          field "artifacts" (list_json artifact_json s.artifacts) (
                            field "disputes" (list_json dispute_json s.disputes) (
                              field "through_event_id" (str s.through_event_id) (
                                field "previous_state_sha256" (optional_str s.previous_state_sha256)
                                  end)))))))))))))))

module _ (digest : Json → String) where
  -- `task_state_sha256`, which validates its argument again.
  unfoldable pub task_state_sha256 : Json → Result String
  task_state_sha256 v = do s ← validate_task_state v; ok (digest (state_json s))
