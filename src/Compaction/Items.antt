-- ===== src/Compaction/Items.antt =====
-- The items of a task state in src/agent_continuity/compaction.py: `_objective` to `_dispute`, and the
-- dictionaries that they return, as JSON.
use local_ai_coding_agent.Common.{
  ℕ, Bool, true, not, ◌&&◌, ◌||◌, String, List, [], ◌∷◌, Result, ok, err, guard, item, ◌>>=◌, ◌>>◌,
  Dict, Json, end, field, str, int, pos, arr, obj, str_items, get, leb, is_empty, ◌==◌,
}
use local_ai_coding_agent.Compaction.Types.{
  Objective, Criterion, Constraint, Decision, CompletedItem, CurrentAction, NextAction, Blocker,
  ToolCall, Artifact, Dispute,
}
use local_ai_coding_agent.Compaction.Values.{
  state_object, state_text, state_identifier, state_sha256, id_list, field_path, state_error,
}
use local_ai_coding_agent.Compaction.Times.{utc}

-- `parse(raw[name], f"{path}.{name}")`
unfoldable pub read {ℓ} :
    {A : Type ℓ} → (Json → String → Result A) → Dict Json → String → String → Result A
read parse raw path name = do v ← item (get name raw); parse v (field_path path name)

-- `_text(raw["status"], ...)`, one of two words.
unfoldable pub read_word : Dict Json → String → String → String → String → Result String
read_word raw path name first second = do
  s ← read state_text raw path name
  guard (s == first || s == second)
      (state_error (path ∷ "." ∷ name ∷ " must be " ∷ first ∷ " or " ∷ second ∷ []))
  ok s

-- A positive integer that is no boolean.
unfoldable pub positive : Json → String → Result ℕ
positive (int (pos n)) path = do
  guard (leb 1 n) (state_error (path ∷ " must be a positive integer" ∷ []))
  ok n
positive v path = err (state_error (path ∷ " must be a positive integer" ∷ []))

-- Identifiers that may not be missing, where the test demands them.
unfoldable pub read_proof : Bool → Dict Json → String → String → String → Result (List String)
read_proof needed raw path name complaint = do
  ids ← read id_list raw path name
  guard (not (needed && is_empty ids)) (state_error (path ∷ "." ∷ name ∷ complaint ∷ []))
  ok ids

abbrev pub ids_json : List String → Json
ids_json ids = arr (str_items ids)

-- `_objective`
unfoldable pub objective_item : Json → String → Result Objective
objective_item v path = do
  raw ← state_object v path ("text" ∷ "source_event_id" ∷ [])
  text ← read state_text raw path "text"
  source_event_id ← read state_identifier raw path "source_event_id"
  ok (record { text = text; source_event_id = source_event_id })

unfoldable pub objective_json : Objective → Json
objective_json x =
    obj (field "text" (str x.text) (field "source_event_id" (str x.source_event_id) end))

-- `_criterion`
unfoldable pub criterion_item : Json → String → Result Criterion
criterion_item v path = do
  raw ← state_object v path ("id" ∷ "text" ∷ "status" ∷ "evidence_ids" ∷ [])
  status ← read_word raw path "status" "open" "met"
  evidence_ids ← read_proof (status == "met") raw path "evidence_ids" " must prove a met criterion"
  id ← read state_identifier raw path "id"
  text ← read state_text raw path "text"
  ok (record { id = id; text = text; status = status; evidence_ids = evidence_ids })

unfoldable pub criterion_json : Criterion → Json
criterion_json x = obj (
    field "id" (str x.id) (
      field "text" (str x.text)
        (field "status" (str x.status) (field "evidence_ids" (ids_json x.evidence_ids) end))))

-- `_constraint`
unfoldable pub constraint_item : Json → String → Result Constraint
constraint_item v path = do
  raw ← state_object v path ("id" ∷ "text" ∷ "status" ∷ "source_event_id" ∷ [])
  status ← read_word raw path "status" "active" "retired"
  id ← read state_identifier raw path "id"
  text ← read state_text raw path "text"
  source_event_id ← read state_identifier raw path "source_event_id"
  ok (record { id = id; text = text; status = status; source_event_id = source_event_id })

unfoldable pub constraint_json : Constraint → Json
constraint_json x = obj (
    field "id" (str x.id) (
      field "text" (str x.text)
        (field "status" (str x.status) (field "source_event_id" (str x.source_event_id) end))))

-- `_decision`
unfoldable pub decision_item : Json → String → Result Decision
decision_item v path = do
  raw ← state_object v path ("id" ∷ "text" ∷ "rationale" ∷ "source_event_ids" ∷ [])
  source_event_ids ← read_proof true raw path "source_event_ids" " must cite at least one event"
  id ← read state_identifier raw path "id"
  text ← read state_text raw path "text"
  rationale ← read state_text raw path "rationale"
  ok (record { id = id; text = text; rationale = rationale; source_event_ids = source_event_ids })

unfoldable pub decision_json : Decision → Json
decision_json x = obj (
    field "id" (str x.id) (
      field "text" (str x.text) (
        field "rationale" (str x.rationale)
          (field "source_event_ids" (ids_json x.source_event_ids) end))))

-- `_completed`
unfoldable pub completed_item : Json → String → Result CompletedItem
completed_item v path = do
  raw ← state_object v path ("id" ∷ "text" ∷ "evidence_ids" ∷ "completed_at" ∷ [])
  evidence_ids ← read_proof true raw path "evidence_ids" " must prove completed work"
  id ← read state_identifier raw path "id"
  text ← read state_text raw path "text"
  completed_at ← read utc raw path "completed_at"
  ok (record { id = id; text = text; evidence_ids = evidence_ids; completed_at = completed_at })

unfoldable pub completed_json : CompletedItem → Json
completed_json x = obj (
    field "id" (str x.id) (
      field "text" (str x.text) (
        field "evidence_ids" (ids_json x.evidence_ids)
          (field "completed_at" (str x.completed_at) end))))

-- `_current_action`
unfoldable pub current_action_item : Json → String → Result CurrentAction
current_action_item v path = do
  raw ← state_object v path ("text" ∷ "owner" ∷ "started_at" ∷ [])
  text ← read state_text raw path "text"
  owner ← read state_identifier raw path "owner"
  started_at ← read utc raw path "started_at"
  ok (record { text = text; owner = owner; started_at = started_at })

unfoldable pub current_action_json : CurrentAction → Json
current_action_json x = obj (
    field "text" (str x.text)
      (field "owner" (str x.owner) (field "started_at" (str x.started_at) end)))

-- `_next_action`
unfoldable pub next_action_item : Json → String → Result NextAction
next_action_item v path = do
  raw ← state_object v path ("id" ∷ "order" ∷ "text" ∷ "depends_on" ∷ [])
  order ← read positive raw path "order"
  id ← read state_identifier raw path "id"
  text ← read state_text raw path "text"
  depends_on ← read id_list raw path "depends_on"
  ok (record { id = id; order = order; text = text; depends_on = depends_on })

unfoldable pub next_action_json : NextAction → Json
next_action_json x = obj (
    field "id" (str x.id) (
      field "order" (int (pos x.order))
        (field "text" (str x.text) (field "depends_on" (ids_json x.depends_on) end))))

-- `_blocker`
unfoldable pub blocker_item : Json → String → Result Blocker
blocker_item v path = do
  raw ← state_object v path ("id" ∷ "text" ∷ "status" ∷ "evidence_ids" ∷ [])
  status ← read_word raw path "status" "active" "cleared"
  evidence_ids ←
      read_proof (status == "cleared") raw path "evidence_ids" " must prove a cleared blocker"
  id ← read state_identifier raw path "id"
  text ← read state_text raw path "text"
  ok (record { id = id; text = text; status = status; evidence_ids = evidence_ids })

unfoldable pub blocker_json : Blocker → Json
blocker_json x = obj (
    field "id" (str x.id) (
      field "text" (str x.text)
        (field "status" (str x.status) (field "evidence_ids" (ids_json x.evidence_ids) end))))

-- `_tool_call`
unfoldable pub tool_call_item : Json → String → Result ToolCall
tool_call_item v path = do
  raw ← state_object v path ("call_id" ∷ "tool" ∷ "outcome" ∷ [])
  outcome ← read_word raw path "outcome" "not_started" "unknown"
  call_id ← read state_identifier raw path "call_id"
  tool ← read state_identifier raw path "tool"
  ok (record { call_id = call_id; tool = tool; outcome = outcome })

unfoldable pub tool_call_json : ToolCall → Json
tool_call_json x = obj (
    field "call_id" (str x.call_id)
      (field "tool" (str x.tool) (field "outcome" (str x.outcome) end)))

-- `_artifact`
unfoldable pub artifact_item : Json → String → Result Artifact
artifact_item v path = do
  raw ← state_object v path ("path" ∷ "sha256" ∷ "evidence_id" ∷ [])
  location ← read state_text raw path "path"
  sha256 ← read state_sha256 raw path "sha256"
  evidence_id ← read state_identifier raw path "evidence_id"
  ok (record { path = location; sha256 = sha256; evidence_id = evidence_id })

unfoldable pub artifact_json : Artifact → Json
artifact_json x = obj (
    field "path" (str x.path)
      (field "sha256" (str x.sha256) (field "evidence_id" (str x.evidence_id) end)))

-- `_dispute`
unfoldable pub dispute_item : Json → String → Result Dispute
dispute_item v path = do
  raw ← state_object v path ("id" ∷ "text" ∷ "status" ∷ "evidence_ids" ∷ [])
  status ← read_word raw path "status" "unresolved" "resolved"
  evidence_ids ← read_proof true raw path "evidence_ids" " must cite the dispute"
  id ← read state_identifier raw path "id"
  text ← read state_text raw path "text"
  ok (record { id = id; text = text; status = status; evidence_ids = evidence_ids })

unfoldable pub dispute_json : Dispute → Json
dispute_json x = obj (
    field "id" (str x.id) (
      field "text" (str x.text)
        (field "status" (str x.status) (field "evidence_ids" (ids_json x.evidence_ids) end))))
