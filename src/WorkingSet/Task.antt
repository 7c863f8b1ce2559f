-- ===== src/WorkingSet/Task.antt =====
-- `_load_current_state` and the whole of `pack_working_set`, of src/agent_continuity/working_set.py:
-- the task's row is loaded and checked, the query is built from its state, the store is searched,
-- and the working set is packed. `loads` decodes JSON; the store's full-text search is a parameter.
use local_ai_coding_agent.Common.{
  Bool, not, ◌&&◌, String, List, [], ◌∷◌, ◌++◌, map, keep, Option, none, some, Result, ok,
  contract_error, guard, required, is_empty, ◌>>=◌, ◌>>◌, Dict, Json, get, concat, ◌==◌,
}
use local_ai_coding_agent.Compaction.Types.{TaskState}
use local_ai_coding_agent.Compaction.State.{validate_task_state, task_state_sha256, state_json}
use local_ai_coding_agent.Memory.States.{StateRow, reworded}
use local_ai_coding_agent.WorkingSet.Types.{Candidate, WorkingSet}
use local_ai_coding_agent.WorkingSet.Ledger.{Counted}
use local_ai_coding_agent.WorkingSet.Query.{QueryInput, QueryComponent, build_literal_query}
use local_ai_coding_agent.WorkingSet.Scopes.{MemoryScope, ScopeValue, normalize_scopes}
use local_ai_coding_agent.WorkingSet.Packing.{pack_working_set}
pub mod Currency
mod Tests

-- The state, and the row it was read from.
pub record Current : Type 0 where
  pub state : TaskState
  pub row : StateRow

-- The texts of the blockers that are active, and the tools whose calls are open.
abbrev pub active_blockers : TaskState → List String
active_blockers s = map (λ b. b.text) (keep (λ b. b.status == "active") s.blockers)

abbrev pub open_tools : TaskState → List String
open_tools s = map (λ c. c.tool) s.open_tool_calls

-- The inputs of the query: the caller's, behind the state's own tools and blockers.
abbrev pub task_query : TaskState → QueryInput → QueryInput
task_query s q = record {
  request = q.request;
  file_symbols = q.file_symbols;
  errors = q.errors;
  tools = open_tools s ++ q.tools;
  blockers = active_blockers s ++ q.blockers;
}

-- The working set, and the other parts of its audit.
pub record TaskWorkingSet : Type 0 where
  pub working_set : WorkingSet
  pub literal_query : String
  pub components : List QueryComponent
  pub scopes : List MemoryScope
  pub current : Current

module _ (loads : String → Option Json) (digest : Json → String) where
  -- The checks on a row of the task.
  unfoldable pub check_current : String → StateRow → Result Current
  check_current task_id row = do
    v ← required (loads row.state_json) (contract_error "current task state is invalid")
    s ← reworded contract_error "current task state is invalid: " (validate_task_state v)
    hash ← task_state_sha256 digest (state_json s)
    guard (row.state_sha256 == hash) (contract_error "current task-state projection hash mismatch")
    guard (s.task_id == task_id && s.through_event_id == row.through_event_id)
        (contract_error "current task-state projection identity mismatch")
    ok (record { state = s; row = row })

  -- `_load_current_state`
  unfoldable pub load_current_state : Dict StateRow → String → Result Current
  load_current_state rows task_id = do
    row ←
        required (get task_id rows)
          (contract_error (concat ("no committed task state exists for task_id " ∷ task_id ∷ [])))
    check_current task_id row

  module _ (dumps : Json → Option String) (counter : String → Counted) where
    -- `pack_working_set`, on a store with this table and this search, and with a counter whose
    -- identifier is a text that is not empty, as `_CountLedger` asks.
    unfoldable pub pack_task :
        Dict StateRow
        → (String → List MemoryScope → Result (List Candidate))
        → String
        → QueryInput
        → List ScopeValue
        → Result TaskWorkingSet
    pack_task rows search task_id q scopes = do
      guard (not (task_id == "")) (contract_error "task_id must be non-empty text")
      guard (not (is_empty scopes)) (contract_error "at least one explicit exact scope is required")
      normalized ← normalize_scopes dumps scopes
      current ← load_current_state rows task_id
      query ← build_literal_query current.state.objective.text (task_query current.state q)
      candidates ← search query.0 normalized
      w ← pack_working_set dumps counter (state_json current.state) candidates
      ok (record {
        working_set = w;
        literal_query = query.0;
        components = query.1;
        scopes = normalized;
        current = current;
      })
