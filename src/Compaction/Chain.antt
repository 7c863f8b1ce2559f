-- ===== src/Compaction/Chain.antt =====
-- `validate_state_chain` of src/agent_continuity/compaction.py.
use local_ai_coding_agent.Common.{
  ℕ, ◌+◌, Bool, true, false, not, String, List, [], ◌∷◌, ◌++◌, Option, none, some, Result, ok, err,
  guard, map_result, is_none, ◌>>=◌, ◌>>◌, Json, decimal, ◌==◌,
}
use local_ai_coding_agent.Compaction.Types.{TaskState}
use local_ai_coding_agent.Compaction.Values.{state_error}
use local_ai_coding_agent.Compaction.State.{validate_task_state, task_state_sha256, state_json}
use local_ai_coding_agent.Compaction.Proposal.{hash_eq}
pub mod Links

module _ (digest : Json → String) where
  -- A revision behind the one with this hash.
  unfoldable pub check_revision : String → String → ℕ → TaskState → Result String
  check_revision task_id last index s = do
    guard (s.task_id == task_id)
        (state_error ("state chain task_id changed at revision " ∷ decimal index ∷ []))
    guard (hash_eq s.previous_state_sha256 last)
        (state_error ("state chain is broken at revision " ∷ decimal index ∷ []))
    task_state_sha256 digest (state_json s)

  -- The loop over the later revisions: `digests`, and the last of them.
  unfoldable pub check_revisions :
      String → String → ℕ → List String → List TaskState → Result (List String)
  check_revisions task_id last index digests [] = ok digests
  check_revisions task_id last index digests (s ∷ ss) = do
    hash ← check_revision task_id last index s
    check_revisions task_id hash (index + 1) (digests ++ hash ∷ []) ss

  unfoldable pub check_normalized : List TaskState → Result (List String)
  check_normalized [] = err (state_error ("state chain must contain at least one revision" ∷ []))
  check_normalized (s ∷ ss) = do
    guard (is_none s.previous_state_sha256)
        (state_error ("first state revision must have a null previous_state_sha256" ∷ []))
    hash ← task_state_sha256 digest (state_json s)
    check_revisions s.task_id hash 1 (hash ∷ []) ss

  unfoldable pub validate_state_chain : List Json → Result (List String)
  validate_state_chain states = do
    normalized ← map_result validate_task_state states
    check_normalized normalized
