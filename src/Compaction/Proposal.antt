-- ===== src/Compaction/Proposal.antt =====
-- `validate_compaction_proposal` of src/agent_continuity/compaction.py.
use local_ai_coding_agent.Common.{
  Bool, false, not, ◌&&◌, ◌||◌, String, List, [], ◌∷◌, ◌++◌, Option, none, some, Result, ok, err,
  contract_error, ◌>>=◌, Json, Dict, is_empty, sort, str_leb, ◌==◌, if◌then◌else◌,
}
use local_ai_coding_agent.Compaction.Types.{
  TaskState, SourceRange, ValidationIssue, CompactionResult,
}
use local_ai_coding_agent.Compaction.State.{validate_task_state, task_state_sha256, state_json}
use local_ai_coding_agent.Compaction.References.{
  Resolver, issue, check_references_of, check_source_range,
}
use local_ai_coding_agent.Compaction.Invariants.{unless, invariant_issues, preserved}

-- A state that is validated and hashed, or the message of the `TaskStateError`.
pub data Checked : Type 0 where
  valid : TaskState → String → Checked
  invalid : String → Checked

-- `except TaskStateError`: another exception goes on.
unfoldable pub caught : Result Checked → Result Checked
caught (ok c) = ok c
caught (err (contract_error message)) = ok (invalid message)
caught (err other) = err other

unfoldable pub checked_state : (Json → String) → Json → Result Checked
unfolding caught
checked_state digest v =
    caught
      (do s ← validate_task_state v; h ← task_state_sha256 digest (state_json s); ok (valid s h))

abbrev pub hash_of : Checked → Option String
hash_of (valid s h) = some h
hash_of (invalid m) = none

abbrev pub invalid_issues : String → String → Checked → List ValidationIssue
invalid_issues code path (valid s h) = []
invalid_issues code path (invalid m) = issue code path (m ∷ []) ∷ []

abbrev pub hash_eq : Option String → String → Bool
hash_eq none h = false
hash_eq (some g) h = g == h

-- The candidate links to the previous state and goes beyond it.
unfoldable pub link_issues : TaskState → String → TaskState → List ValidationIssue
link_issues p hash c =
    unless (hash_eq c.previous_state_sha256 hash)
      (issue "previous_state_hash_mismatch" "previous_state_sha256" ("expected " ∷ hash ∷ []))
    ++ unless (not (c.through_event_id == p.through_event_id)) (
        issue "stale_through_event" "through_event_id"
          ("candidate does not advance beyond the previous state" ∷ []))

unfoldable pub pair_issues : Checked → Checked → List ValidationIssue
unfolding link_issues invariant_issues
pair_issues (valid p hash) (valid c h) = link_issues p hash c ++ invariant_issues p c
pair_issues (valid p hash) (invalid m) = []
pair_issues (invalid m) c = []

unfoldable pub preserved_of : Checked → Checked → Dict (List String)
unfolding preserved
preserved_of (valid p hash) (valid c h) = preserved p
preserved_of (valid p hash) (invalid m) = []
preserved_of (invalid m) c = []

-- The order of issues: by code, path and message.
unfoldable pub issue_leb : ValidationIssue → ValidationIssue → Bool
issue_leb a b =
    if a.code == b.code
    then (if a.path == b.path then str_leb a.message b.message else str_leb a.path b.path)
    else str_leb a.code b.code

abbrev pub issue_eq : ValidationIssue → ValidationIssue → Bool
issue_eq a b = a.code == b.code && (a.path == b.path && a.message == b.message)

abbrev pub has_issue : ValidationIssue → List ValidationIssue → Bool
has_issue a [] = false
has_issue a (b ∷ bs) = issue_eq a b || has_issue a bs

-- `set(issues)`
unfoldable pub distinct_issues : List ValidationIssue → List ValidationIssue
distinct_issues [] = []
distinct_issues (a ∷ xs) =
    let rest = distinct_issues xs in if has_issue a xs then rest else a ∷ rest

-- `sorted(set(issues))`
unfoldable pub ordered_issues : List ValidationIssue → List ValidationIssue
unfolding distinct_issues issue_leb sort
ordered_issues xs = sort issue_leb (distinct_issues xs)

module _ (digest : Json → String) (r : Resolver) (range : SourceRange) where
  -- The source range and the references of a candidate that is valid.
  unfoldable pub candidate_issues : Checked → Result (List ValidationIssue)
  candidate_issues (valid c h) = do
    xs ← check_source_range r c range
    ok (xs ++ check_references_of r c)
  candidate_issues (invalid m) = ok []

  -- The issues of the proposal, in the order in which they are found.
  unfoldable pub proposal_issues : Checked → Checked → Result (List ValidationIssue)
  proposal_issues p c = do
    xs ← candidate_issues c
    ok (
        invalid_issues "invalid_previous_state" "previous_state" p
        ++ (invalid_issues "invalid_candidate_state" "candidate_state" c
            ++ (xs ++ pair_issues p c)))

  unfoldable pub validate_compaction_proposal : Json → Json → Result CompactionResult
  validate_compaction_proposal previous candidate = do
    p ← checked_state digest previous
    c ← checked_state digest candidate
    xs ← proposal_issues p c
    let ordered = ordered_issues xs
    ok (record {
      accepted = is_empty ordered;
      previous_state_sha256 = hash_of p;
      candidate_state_sha256 = hash_of c;
      source_range = range;
      issues = ordered;
      preserved = preserved_of p c;
    })
