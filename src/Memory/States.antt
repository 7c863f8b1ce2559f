-- ===== src/Memory/States.antt =====
-- The task states of src/agent_continuity/memory_store.py: `_normalize_payload` of a `state/committed`
-- event, and `_apply_task_state`, which keeps the table `task_state`. The JSON encoder `dumps` and
-- the hash `digest` of a value's canonical text are parameters.
use local_ai_coding_agent.Common.{
  ℕ, suc, ◌+◌, true, String, List, [], ◌∷◌, Option, none, some, Result, ok, err, Error,
  contract_error, store_error, guard, required, ◌>>=◌, ◌>>◌, Dict, Json, Fields, end, field, str,
  int, bool, obj, pos, fields_dict, get, has, put, text_append, nat_eq, is_none, ◌==◌,
  if◌then◌else◌,
}
use local_ai_coding_agent.Compaction.Types.{TaskState}
use local_ai_coding_agent.Compaction.State.{validate_task_state, task_state_sha256, state_json}
use local_ai_coding_agent.Compaction.Proposal.{hash_eq}

-- An event of the log, as far as the task states read it.
pub record StateEvent : Type 0 where
  pub event_id : String
  pub task_id : Option String
  pub occurred_at : String
  pub payload : Fields

-- The normalized payload of a `state/committed` event.
pub record StateCommit : Type 0 where
  pub task_id : String
  pub revision : ℕ
  pub state : TaskState

-- A row of `task_state`, whose primary key is the task.
pub record StateRow : Type 0 where
  pub revision : ℕ
  pub state_json : String
  pub state_sha256 : String
  pub through_event_id : String
  pub committed_at : String

-- `isinstance(value, int)` and `value >= 1`: `True` is an `int`, and equal to 1.
unfoldable pub positive_revision : Option Json → Result ℕ
positive_revision (some (int (pos (suc n)))) = ok (suc n)
positive_revision (some (bool true)) = ok 1
positive_revision v = err (store_error "state revision must be a positive integer")

unfoldable pub state_fields : Option Json → Result Fields
state_fields (some (obj fs)) = ok fs
state_fields v = err (store_error "state/committed requires a state object")

unfoldable pub add_field : String → Json → Fields → Fields
add_field k v end = field k v end
add_field k v (field j w fs) = field j w (add_field k v fs)

-- `d.setdefault(k, v)`
unfoldable pub set_default : String → Json → Fields → Fields
set_default k v fs = if has k (fields_dict fs) then fs else add_field k v fs

-- `except TaskStateError as error: raise ...(f"{words}{error}")`
unfoldable pub reworded {ℓ} : {A : Type ℓ} → (String → Error) → String → Result A → Result A
reworded raise words (ok a) = ok a
reworded raise words (err (contract_error message)) = err (raise (text_append words message))
reworded raise words (err other) = err other

-- `_normalize_payload` of a `state/committed` event, behind its first check, which `commit_state`
-- makes: the payload has a canonical text.
unfoldable pub normalize_state_commit : StateEvent → Result StateCommit
normalize_state_commit e = do
  task_id ← required e.task_id (store_error "state/committed requires task_id")
  revision ← positive_revision (get "revision" (fields_dict e.payload))
  raw ← state_fields (get "state" (fields_dict e.payload))
  s ←
      reworded store_error "invalid task state: "
        (validate_task_state (obj (set_default "through_event_id" (str e.event_id) raw)))
  guard (s.task_id == task_id) (store_error "state task_id must equal event task_id")
  guard (s.through_event_id == e.event_id)
      (store_error "state through_event_id must equal commit event_id")
  ok (record { task_id = task_id; revision = revision; state = s })

-- The first revision of a task, or the one after the revision in the table.
unfoldable pub check_successor : Option StateRow → StateCommit → Result (Unit {0})
check_successor none c = do
  guard (nat_eq c.revision 1) (store_error "first task-state revision must be 1")
  guard (is_none c.state.previous_state_sha256)
      (store_error "first task-state revision must have no previous hash")
check_successor (some row) c = do
  guard (nat_eq c.revision (row.revision + 1))
      (store_error "task-state revision must increase by exactly one")
  guard (hash_eq c.state.previous_state_sha256 row.state_sha256)
      (store_error "task-state previous_state_sha256 mismatch")

module _ (dumps : Json → Option String) (digest : Json → String) where
  -- `_apply_task_state`
  unfoldable pub apply_task_state :
      Dict StateRow → StateEvent → StateCommit → Result (Dict StateRow)
  apply_task_state rows e c = do
    text ← required (dumps (state_json c.state)) (store_error "value is not canonical JSON")
    hash ← task_state_sha256 digest (state_json c.state)
    check_successor (get c.task_id rows) c
    ok (
        put c.task_id
          (record {
            revision = c.revision;
            state_json = text;
            state_sha256 = hash;
            through_event_id = e.event_id;
            committed_at = e.occurred_at;
          })
          rows)

  -- `append` of a `state/committed` event: the payload has a canonical text, is normalized, and is
  -- projected. That the identifiers are UUIDs and the event's is new, and the checks of the actor, the
  -- scope and the segment file, are not modelled: an append that the source accepts is one here.
  unfoldable pub commit_state : Dict StateRow → StateEvent → Result (Dict StateRow)
  commit_state rows e = do
    text ← required (dumps (obj e.payload)) (store_error "value is not canonical JSON")
    c ← normalize_state_commit e
    apply_task_state rows e c

  -- A sequence of such appends.
  unfoldable pub commit_states : Dict StateRow → List StateEvent → Result (Dict StateRow)
  commit_states rows [] = ok rows
  commit_states rows (e ∷ es) = do next ← commit_state rows e; commit_states next es
