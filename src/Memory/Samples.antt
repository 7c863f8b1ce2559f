-- ===== src/Memory/Samples.antt =====
-- Two commits of task states to src/agent_continuity/memory_store.py, for the tests.
use local_ai_coding_agent.Common.{
  ℕ, String, [], ◌∷◌, Option, some, ok, ◌≡◌, refl, Json, Fields, end, field, int, pos, obj, get,
  put,
}
use local_ai_coding_agent.Compaction.Types.{TaskState}
use local_ai_coding_agent.Compaction.State.{state_json}
use local_ai_coding_agent.Compaction.Again.{task_state_sha256-json}
use local_ai_coding_agent.Compaction.Samples.{
  hash_text, digest, time, first_state, next_state, first_valid, next_valid,
}
use local_ai_coding_agent.Memory.States.{
  StateEvent, StateRow, normalize_state_commit, check_successor, apply_task_state, commit_state,
  commit_states,
}
use local_ai_coding_agent.Memory.Payloads.{history, committed, Continues, normalized}

abbrev pub dumps : Json → Option String
dumps v = some "{}"

abbrev pub event_of : ℕ → TaskState → StateEvent
event_of n s = record {
  event_id = s.through_event_id;
  task_id = some "T-1";
  occurred_at = time;
  payload = field "revision" (int (pos n)) (field "state" (state_json s) end);
}

abbrev pub row_after : ℕ → TaskState → StateRow
row_after n s = record {
  revision = n;
  state_json = "{}";
  state_sha256 = hash_text;
  through_event_id = s.through_event_id;
  committed_at = time;
}

unfoldable pub fields_of : TaskState → Fields
unfolding state_json
fields_of s = elim (state_json s) [ obj fs ↦ fs | _ ↦ end ]

pub first_Continues :
    Continues "T-1"
      (row_after 0 first_state)
      (fields_of first_state)
      first_state
      (event_of 1 first_state)
unfolding fields_of get state_json
first_Continues = record {
  task = refl;
  revision = refl;
  state = refl;
  valid = first_valid;
  through = refl;
}

pub next_Continues :
    Continues "T-1"
      (row_after 1 first_state)
      (fields_of next_state)
      next_state
      (event_of 2 next_state)
unfolding fields_of get state_json
next_Continues = record {
  task = refl;
  revision = refl;
  state = refl;
  valid = next_valid;
  through = refl;
}

first_normal :
    normalize_state_commit (event_of 1 first_state)
    ≡ ok (record { task_id = "T-1"; revision = 1; state = first_state })
first_normal =
    normalized "T-1" (row_after 0 first_state) (fields_of first_state) first_state
      (event_of 1 first_state) first_Continues refl

next_normal :
    normalize_state_commit (event_of 2 next_state)
    ≡ ok (record { task_id = "T-1"; revision = 2; state = next_state })
next_normal =
    normalized "T-1" (row_after 1 first_state) (fields_of next_state) next_state
      (event_of 2 next_state) next_Continues refl

pub first_commit :
    commit_states dumps digest [] (event_of 1 first_state ∷ [])
    ≡ ok (("T-1", row_after 1 first_state) ∷ [])
unfolding commit_states commit_state apply_task_state check_successor get put
first_commit =
    rw
      (first_normal, task_state_sha256-json digest (state_json first_state) first_state first_valid)
      refl

pub both_commit :
    commit_states dumps digest [] (event_of 1 first_state ∷ event_of 2 next_state ∷ [])
    ≡ ok (("T-1", row_after 2 next_state) ∷ [])
unfolding commit_states commit_state apply_task_state check_successor get put
both_commit =
    rw
      (
        first_normal,
        task_state_sha256-json digest (state_json first_state) first_state first_valid,
        next_normal,
        task_state_sha256-json digest (state_json next_state) next_state next_valid,
      )
      refl

pub history-first : history "T-1" (event_of 1 first_state ∷ []) ≡ first_state ∷ []
unfolding history committed
history-first = rw first_normal refl
