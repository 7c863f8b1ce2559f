-- ===== src/Memory/Tests.antt =====
-- The theorems on src/agent_continuity/memory_store.py at two commits of task states.
use local_ai_coding_agent.Common.{
  String, List, [], ◌∷◌, ◌++◌, map, none, ok, err, store_error, ◌≡◌, refl, ◌↔◌, ◌+◌, get, length,
}
use local_ai_coding_agent.Compaction.State.{state_json}
use local_ai_coding_agent.Compaction.Samples.{digest, first_state, next_state}
use local_ai_coding_agent.Compaction.Chain.{validate_state_chain}
use local_ai_coding_agent.Memory.States.{
  normalize_state_commit, positive_revision, commit_state, commit_states,
}
use local_ai_coding_agent.Memory.Ledger.{commit_states-IsChain, commit_states-none}
use local_ai_coding_agent.Memory.Payloads.{history}
use local_ai_coding_agent.Memory.Errors.{IsStoreTame, commit_states-IsStoreTame}
use local_ai_coding_agent.Memory.Samples.{dumps, event_of, row_after, first_commit, both_commit}

-- A commit of revision 0 is refused.
early_commit :
    commit_states dumps digest [] (event_of 0 first_state ∷ [])
    ≡ err (store_error "state revision must be a positive integer")
unfolding commit_states commit_state normalize_state_commit positive_revision get
early_commit = refl

commit_states-IsChain_example :
    (front : List String) × (validate_state_chain digest
        (map state_json (history "T-1" (event_of 1 first_state ∷ event_of 2 next_state ∷ [])))
      ≡ ok (front ++ (row_after 2 next_state).state_sha256 ∷ []))
    × ((row_after 2 next_state).revision ≡ length front + 1)
unfolding get
commit_states-IsChain_example =
    commit_states-IsChain dumps digest "T-1" (event_of 1 first_state ∷ event_of 2 next_state ∷ [])
      (row_after 2 next_state) both_commit refl

commit_states-none_example :
    (get "T-2" (("T-1", row_after 1 first_state) ∷ []) ≡ none)
    ↔ (history "T-2" (event_of 1 first_state ∷ []) ≡ [])
commit_states-none_example =
    commit_states-none dumps digest "T-2" (event_of 1 first_state ∷ []) first_commit

commit_states-IsStoreTame_example :
    IsStoreTame (commit_states dumps digest [] (event_of 0 first_state ∷ []))
commit_states-IsStoreTame_example =
    commit_states-IsStoreTame dumps digest [] (event_of 0 first_state ∷ [])
