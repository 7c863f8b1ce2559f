-- ===== src/Memory/Errors.antt =====
-- What a commit of a task state to src/agent_continuity/memory_store.py raises.
use local_ai_coding_agent.Common.{
  nat_eq, ◌+◌, true, Bool, is_none, String, List, [], ◌∷◌, Option, none, some, Result, ok, err,
  Error, ◌≡◌, ◌>>=◌, contract_error, store_error, manifest_error, request_error, key_error,
  type_error, guard, required, ◌>>◌, refl, Dict, Json, bool, false, int, pos, negsuc, zero, suc,
  str, float, arr, obj, null, fields_dict, get, ◌==◌,
}
use local_ai_coding_agent.Compaction.Proposal.{hash_eq}
use local_ai_coding_agent.Compaction.Again.{task_state_sha256-json}
use local_ai_coding_agent.Memory.Payloads.{IsCommit, normalize_state_commit-IsCommit}
use local_ai_coding_agent.Compaction.State.{validate_task_state, state_json}
use local_ai_coding_agent.Compaction.Errors.{validate_task_state-IsTame}
use local_ai_coding_agent.Compaction.Errors.Values.{IsTame}
use local_ai_coding_agent.Memory.States.{
  StateEvent, StateCommit, StateRow, positive_revision, state_fields, set_default, reworded,
  normalize_state_commit, check_successor, apply_task_state, commit_state, commit_states,
}

abbrev is_store_error : Error → Bool
is_store_error (store_error m) = true
is_store_error _ = false

-- The call returns, or it raises a `MemoryStoreError`.
abbrev pub IsStoreTame {ℓ} : {A : Type ℓ} → Result A → Type 0
IsStoreTame (ok a) = Unit
IsStoreTame (err e) = is_store_error e ≡ true

IsStoreTame-bind {ℓ κ} :
    {A : Type ℓ} {B : Type κ} (m : Result A) (f : A → Result B)
    → IsStoreTame m
    → ((a : A) → m ≡ ok a → IsStoreTame (f a))
    → IsStoreTame (m >>= f)
IsStoreTame-bind (ok a) f t k = k a refl
IsStoreTame-bind (err e) f t k = t

guard-IsStoreTame : (t : Bool) (m : String) → IsStoreTame (guard t (store_error m))
guard-IsStoreTame true m = tt
guard-IsStoreTame false m = refl

required-IsStoreTame {ℓ} :
    {A : Type ℓ} (o : Option A) (m : String) → IsStoreTame (required o (store_error m))
required-IsStoreTame none m = refl
required-IsStoreTame (some a) m = tt

-- A `TaskStateError` is caught, and a `MemoryStoreError` raised for it.
reworded-IsStoreTame {ℓ} :
    {A : Type ℓ} (words : String) (m : Result A)
    → IsTame m
    → IsStoreTame (reworded store_error words m)
unfolding reworded
reworded-IsStoreTame words (ok a) t = tt
reworded-IsStoreTame words (err (contract_error m)) t = refl
reworded-IsStoreTame words (err (store_error m)) t = absurd (cc)
reworded-IsStoreTame words (err (manifest_error m)) t = absurd (cc)
reworded-IsStoreTame words (err (request_error m)) t = absurd (cc)
reworded-IsStoreTame words (err key_error) t = absurd (cc)
reworded-IsStoreTame words (err type_error) t = absurd (cc)

positive_revision-IsStoreTame : (o : Option Json) → IsStoreTame (positive_revision o)
unfolding positive_revision
positive_revision-IsStoreTame none = refl
positive_revision-IsStoreTame (some null) = refl
positive_revision-IsStoreTame (some (bool true)) = tt
positive_revision-IsStoreTame (some (bool false)) = refl
positive_revision-IsStoreTame (some (int (pos zero))) = refl
positive_revision-IsStoreTame (some (int (pos (suc n)))) = tt
positive_revision-IsStoreTame (some (int (negsuc n))) = refl
positive_revision-IsStoreTame (some (float s)) = refl
positive_revision-IsStoreTame (some (str s)) = refl
positive_revision-IsStoreTame (some (arr vs)) = refl
positive_revision-IsStoreTame (some (obj fs)) = refl

state_fields-IsStoreTame : (o : Option Json) → IsStoreTame (state_fields o)
unfolding state_fields
state_fields-IsStoreTame none = refl
state_fields-IsStoreTame (some null) = refl
state_fields-IsStoreTame (some (bool b)) = refl
state_fields-IsStoreTame (some (int n)) = refl
state_fields-IsStoreTame (some (float s)) = refl
state_fields-IsStoreTame (some (str s)) = refl
state_fields-IsStoreTame (some (arr vs)) = refl
state_fields-IsStoreTame (some (obj fs)) = tt

normalize_state_commit-IsStoreTame : (e : StateEvent) → IsStoreTame (normalize_state_commit e)
unfolding normalize_state_commit
normalize_state_commit-IsStoreTame e =
    IsStoreTame-bind (required e.task_id _) _ (required-IsStoreTame e.task_id _) λ t _.
      IsStoreTame-bind (positive_revision (get "revision" (fields_dict e.payload))) _
        (positive_revision-IsStoreTame _)
        λ n _.
          IsStoreTame-bind (state_fields (get "state" (fields_dict e.payload))) _
            (state_fields-IsStoreTame _)
            λ fs _.
              let v = obj (set_default "through_event_id" (str e.event_id) fs) in
              IsStoreTame-bind (reworded store_error "invalid task state: " (validate_task_state v))
                _
                (reworded-IsStoreTame "invalid task state: " (validate_task_state v)
                  (validate_task_state-IsTame v))
                λ s _.
                  IsStoreTame-bind (guard (s.task_id == t) _) _
                    (guard-IsStoreTame (s.task_id == t) _)
                    λ _ _.
                      IsStoreTame-bind (guard (s.through_event_id == e.event_id) _) _
                        (guard-IsStoreTame (s.through_event_id == e.event_id) _) λ _ _. tt

guards-IsStoreTame :
    (t u : Bool) (m n : String) → IsStoreTame (guard t (store_error m) >> guard u (store_error n))
guards-IsStoreTame true u m n = guard-IsStoreTame u n
guards-IsStoreTame false u m n = refl

check_successor-IsStoreTame :
    (o : Option StateRow) (c : StateCommit) → IsStoreTame (check_successor o c)
unfolding check_successor
check_successor-IsStoreTame none c =
    guards-IsStoreTame (nat_eq c.revision 1) (is_none c.state.previous_state_sha256) _ _
check_successor-IsStoreTame (some row) c =
    guards-IsStoreTame (nat_eq c.revision (row.revision + 1))
      (hash_eq c.state.previous_state_sha256 row.state_sha256) _ _

module _ (dumps : Json → Option String) (digest : Json → String) where
  apply_task_state-IsStoreTame :
      (rows : Dict StateRow) (e : StateEvent) (c : StateCommit)
      → IsCommit e c
      → IsStoreTame (apply_task_state dumps digest rows e c)
  unfolding apply_task_state
  apply_task_state-IsStoreTame rows e c ((v, valid), _, _) =
      IsStoreTame-bind (required (dumps (state_json c.state)) _) _
        (required-IsStoreTame (dumps (state_json c.state)) _)
        λ text _. rw (task_state_sha256-json digest v c.state valid) (
          IsStoreTame-bind (check_successor (get c.task_id rows) c) _
            (check_successor-IsStoreTame (get c.task_id rows) c) λ _ _. tt)

  commit_state-IsStoreTame :
      (rows : Dict StateRow) (e : StateEvent) → IsStoreTame (commit_state dumps digest rows e)
  unfolding commit_state
  commit_state-IsStoreTame rows e =
      IsStoreTame-bind (required (dumps (obj e.payload)) _) _
        (required-IsStoreTame (dumps (obj e.payload)) _)
        λ text _.
          IsStoreTame-bind (normalize_state_commit e) _ (normalize_state_commit-IsStoreTame e)
            λ c h. apply_task_state-IsStoreTame rows e c (normalize_state_commit-IsCommit e h)

  -- A sequence of appends of `state/committed` events is projected, or a `MemoryStoreError` is raised,
  -- whatever the payloads and the table are: a `TaskStateError` is caught, no key is missing and
  -- nothing else goes wrong.
  pub commit_states-IsStoreTame :
      (rows : Dict StateRow) (es : List StateEvent)
      → IsStoreTame (commit_states dumps digest rows es)
  unfolding commit_states
  commit_states-IsStoreTame rows [] = tt
  commit_states-IsStoreTame rows (e ∷ es) =
      IsStoreTame-bind (commit_state dumps digest rows e) _ (commit_state-IsStoreTame rows e)
        λ next _. commit_states-IsStoreTame next es
