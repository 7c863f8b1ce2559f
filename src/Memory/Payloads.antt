-- ===== src/Memory/Payloads.antt =====
-- What `_normalize_payload` of src/agent_continuity/memory_store.py makes of a `state/committed` event,
-- and the states that a log of these commits for a task.
use local_ai_coding_agent.Compaction.Chain.Links.{IsValidated}
use local_ai_coding_agent.Common.{
  suc, Error, true, String, List, some, ok, ok_inj, bind_inv, item-eq-ok, guard-eq-ok, is_empty,
  sorted_set, difference, keys, ◌≡◌, refl, sym, subst, str_eq_self, Dict, Json, Fields, int, pos,
  obj, fields_dict, get, has, get-has, contains, [], ◌∷◌, ◌++◌, Result, err, manifest_error,
  request_error, key_error, type_error, required, contract_error, store_error, eq_iff, str, ◌==◌,
  if◌then◌else◌,
}
use local_ai_coding_agent.Compaction.Types.{TaskState}
use local_ai_coding_agent.Compaction.Values.{state_object}
use local_ai_coding_agent.Compaction.State.{validate_task_state, top_level_keys}
use local_ai_coding_agent.Compaction.Errors.Values.{state_object-item}
use local_ai_coding_agent.Memory.States.{
  StateEvent, StateRow, positive_revision, state_fields, set_default, reworded,
  normalize_state_commit, StateCommit,
}

object_is_itself :
    (fs : Fields) (path : String) (names : List String) (raw : Dict Json)
    → state_object (obj fs) path names ≡ ok raw
    → raw ≡ fields_dict fs
unfolding state_object
object_is_itself fs path names raw h =
    let (_, h1) =
      guard-eq-ok (is_empty (sorted_set (difference names (keys (fields_dict fs))))) _ _ h in
    let (_, h2) =
      guard-eq-ok (is_empty (sorted_set (difference (keys (fields_dict fs)) names))) _
        (ok (fields_dict fs)) h1 in
    sym (ok_inj h2)

-- A value that is a valid state is an object that names the event it goes through.
through_event_is_there :
    (fs : Fields) (c : TaskState)
    → validate_task_state (obj fs) ≡ ok c
    → has "through_event_id" (fields_dict fs) ≡ true
unfolding validate_task_state contains
through_event_is_there fs c h =
    bind_inv (state_object (obj fs) "state" top_level_keys) _ h λ raw e _.
      let (v, there) =
        state_object-item (obj fs) "state" top_level_keys "through_event_id" e refl in
      get-has "through_event_id" (fields_dict fs) (
        subst (λ d. get "through_event_id" d ≡ some v)
          (object_is_itself fs "state" top_level_keys raw e)
          (item-eq-ok (get "through_event_id" raw) there))

-- An event that commits a state to a task behind a row.
pub record Continues (t : String) (row : StateRow) (fs : Fields) (c : TaskState) (e : StateEvent)
    : Type 0 where
  pub task : e.task_id ≡ some t
  pub revision : get "revision" (fields_dict e.payload) ≡ some (int (pos (suc row.revision)))
  pub state : get "state" (fields_dict e.payload) ≡ some (obj fs)
  pub valid : validate_task_state (obj fs) ≡ ok c
  pub through : c.through_event_id ≡ e.event_id

pub normalized :
    (t : String) (row : StateRow) (fs : Fields) (c : TaskState) (e : StateEvent)
    → Continues t row fs c e
    → c.task_id ≡ t
    → normalize_state_commit e ≡ ok (record { task_id = t; revision = suc row.revision; state = c })
unfolding normalize_state_commit positive_revision state_fields set_default reworded
normalized t row fs c e k same = rw (
  k.task,
  k.revision,
  k.state,
  through_event_is_there fs c k.valid,
  k.valid,
  same,
  k.through,
  str_eq_self t,
  str_eq_self e.event_id,
)

-- The states that a payload, and a log, commit for a task.
unfoldable pub committed : String → Result StateCommit → List TaskState
committed t (ok c) = if t == c.task_id then c.state ∷ [] else []
committed t (err e) = []

unfoldable pub history : String → List StateEvent → List TaskState
history t [] = []
history t (e ∷ es) = committed t (normalize_state_commit e) ++ history t es

pub reworded-inv {ℓ} :
    {A : Type ℓ} (raise : String → Error) (words : String) (m : Result A) {a : A}
    → reworded raise words m ≡ ok a
    → m ≡ ok a
unfolding reworded
reworded-inv raise words (ok a) h = h
reworded-inv raise words (err (contract_error m)) h = absurd (cc)
reworded-inv raise words (err (manifest_error m)) h = absurd (cc)
reworded-inv raise words (err (store_error m)) h = absurd (cc)
reworded-inv raise words (err (request_error m)) h = absurd (cc)
reworded-inv raise words (err key_error) h = absurd (cc)
reworded-inv raise words (err type_error) h = absurd (cc)

-- A commit of an event: its state is valid, of the event's task, and goes through the event.
abbrev pub IsCommit : StateEvent → StateCommit → Type 0
IsCommit e c =
    IsValidated c.state × (c.state.task_id ≡ c.task_id) × (c.state.through_event_id ≡ e.event_id)

pub normalize_state_commit-IsCommit :
    (e : StateEvent) {c : StateCommit} → normalize_state_commit e ≡ ok c → IsCommit e c
unfolding normalize_state_commit
normalize_state_commit-IsCommit e h = bind_inv (required e.task_id _) _ h λ t e1 h1.
    bind_inv (positive_revision (get "revision" (fields_dict e.payload))) _ h1 λ n e2 h2.
      bind_inv (state_fields (get "state" (fields_dict e.payload))) _ h2 λ raw e3 h3.
        bind_inv
          (reworded store_error "invalid task state: "
            (validate_task_state (obj (set_default "through_event_id" (str e.event_id) raw))))
          _ h3
          λ s e4 h4.
            let (same, h5) = guard-eq-ok (s.task_id == t) _ _ h4 in
            let (through, h6) = guard-eq-ok (s.through_event_id == e.event_id) _ _ h5 in
            subst (IsCommit e) (ok_inj h6) (
              (_, reworded-inv store_error "invalid task state: " _ e4),
              (eq_iff s.task_id t).0 same,
              (eq_iff s.through_event_id e.event_id).0 through,
            )
