-- ===== src/WorkingSet/Task/Tests.antt =====
-- A task whose state was committed, packed; the theorems on src/agent_continuity/working_set.py at
-- this input.
use local_ai_coding_agent.Common.{
  Memᴰ, ◌∙◌, sym, ap, subst, Result, Dict, obj, values, join, text_append, ◌+◌, ◌++◌, end, field,
  length, Succeeds, put, String, List, [], ◌∷◌, ◌++◌, Option, some, ok, ◌≡◌, refl, Json, str,
  Succeeds, get, keys, contains, difference, sort, insert_sorted, put, text_append,
}
use local_ai_coding_agent.Routing.Fields.{strip, strip_left, strip_right}
use local_ai_coding_agent.Compaction.Types.{TaskState}
use local_ai_coding_agent.Compaction.State.{state_json}
use local_ai_coding_agent.Compaction.Samples.{first_valid, digest, first_state}
use local_ai_coding_agent.Memory.States.{StateEvent, StateRow, reworded}
use local_ai_coding_agent.Compaction.Again.{task_state_sha256-json}
use local_ai_coding_agent.Memory.Samples.{dumps, event_of, row_after, first_commit, history-first}
use local_ai_coding_agent.Memory.Payloads.{history}
use local_ai_coding_agent.WorkingSet.Types.{Candidate}
use local_ai_coding_agent.WorkingSet.Ledger.{Counted, counted, count, cached_count, fresh_count}
use local_ai_coding_agent.WorkingSet.Query.{
  QueryInput, build_literal_query, query_components, group_components, query_component,
}
use local_ai_coding_agent.WorkingSet.Blocks.{canonical_text}
use local_ai_coding_agent.WorkingSet.Scopes.{
  MemoryScope, ScopeValue, mapping, from_value, check_scope, read_owner, read_part, scope_key,
  restated, scopes_by_key, normalize_scopes,
}
use local_ai_coding_agent.WorkingSet.Packing.{pack_working_set, count_state, start, pack_candidates}
use local_ai_coding_agent.WorkingSet.Task.{check_current, load_current_state, pack_task}
use local_ai_coding_agent.WorkingSet.Task.Currency.{IsAlone, load_current_state-committed}

abbrev loads : String → Option Json
loads text = some (state_json first_state)

abbrev counter : String → Counted
counter text = counted 7

abbrev event : StateEvent
event = event_of 1 first_state

abbrev row : StateRow
row = row_after 1 first_state

abbrev rows : Dict StateRow
rows = ("T-1", row) ∷ []

abbrev search : String → List MemoryScope → Result (List Candidate)
search query scopes = ok []

abbrev question : QueryInput
question = record {
  request = "continue";
  file_symbols = [];
  errors = [];
  tools = [];
  blockers = [];
}

abbrev scopes : List ScopeValue
scopes = mapping (obj (field "owner_id" (str "owner") end)) ∷ []

loaded : load_current_state loads digest rows "T-1" ≡ ok (record { state = first_state; row = row })
unfolding load_current_state check_current reworded get
loaded =
    rw (first_valid, task_state_sha256-json digest (state_json first_state) first_state first_valid)
      refl

packed : Succeeds (pack_task loads digest dumps counter rows search "T-1" question scopes)
unfolding pack_task restated normalize_scopes scopes_by_key scope_key from_value check_scope
    read_owner read_part build_literal_query query_components group_components query_component
    canonical_text pack_working_set count_state start pack_candidates count cached_count fresh_count
    text_append join put values get keys contains difference sort insert_sorted strip strip_left
    strip_right
packed = rw loaded (_, refl)

event-IsAlone : (c : TaskState) → c ≡ first_state → IsAlone digest "T-1" (event ∷ []) c
event-IsAlone c e s m h = go (subst (Memᴰ s) history-first m)
  where
    go : Memᴰ s (first_state ∷ []) → state_json s ≡ state_json c
    go (Memᴰ.head k) = ap state_json (k ∙ sym e)
    go (Memᴰ.tail k) = elim k [ ]

load_current_state-committed_example :
    (front : List TaskState) × (history "T-1" (event ∷ []) ≡ front ++ first_state ∷ [])
    × (row.revision ≡ length front + 1)
load_current_state-committed_example =
    load_current_state-committed loads digest dumps "T-1" (event ∷ [])
      (event-IsAlone first_state refl) first_commit loaded
