-- ===== src/Compaction/Types.antt =====
-- The task state of src/agent_continuity/compaction.py as `validate_task_state` returns it, and the
-- values of its compaction checks.
use local_ai_coding_agent.Common.{ℕ, String, List, Option, Bool, Dict}

pub record Objective : Type 0 where
  pub text : String
  pub source_event_id : String

pub record Criterion : Type 0 where
  pub id : String
  pub text : String
  pub status : String
  pub evidence_ids : List String

pub record Constraint : Type 0 where
  pub id : String
  pub text : String
  pub status : String
  pub source_event_id : String

pub record Decision : Type 0 where
  pub id : String
  pub text : String
  pub rationale : String
  pub source_event_ids : List String

pub record CompletedItem : Type 0 where
  pub id : String
  pub text : String
  pub evidence_ids : List String
  pub completed_at : String

pub record CurrentAction : Type 0 where
  pub text : String
  pub owner : String
  pub started_at : String

pub record NextAction : Type 0 where
  pub id : String
  pub order : ℕ
  pub text : String
  pub depends_on : List String

pub record Blocker : Type 0 where
  pub id : String
  pub text : String
  pub status : String
  pub evidence_ids : List String

pub record ToolCall : Type 0 where
  pub call_id : String
  pub tool : String
  pub outcome : String

pub record Artifact : Type 0 where
  pub path : String
  pub sha256 : String
  pub evidence_id : String

pub record Dispute : Type 0 where
  pub id : String
  pub text : String
  pub status : String
  pub evidence_ids : List String

pub record TaskState : Type 0 where
  pub task_id : String
  pub objective : Objective
  pub success_criteria : List Criterion
  pub constraints : List Constraint
  pub decisions : List Decision
  pub completed : List CompletedItem
  pub current_action : CurrentAction
  pub next_actions : List NextAction
  pub blockers : List Blocker
  pub open_tool_calls : List ToolCall
  pub artifacts : List Artifact
  pub disputes : List Dispute
  pub through_event_id : String
  pub previous_state_sha256 : Option String

-- `FrozenSourceRange`
pub record SourceRange : Type 0 where
  pub first_event_id : String
  pub first_record_sha256 : String
  pub last_event_id : String
  pub last_record_sha256 : String
  pub retained_tail_event_id : String

pub record ValidationIssue : Type 0 where
  pub code : String
  pub path : String
  pub message : String

-- `CompactionValidationResult`; `preserved` has the identifiers of each field, in the order in which
-- the fields were checked.
pub record CompactionResult : Type 0 where
  pub accepted : Bool
  pub previous_state_sha256 : Option String
  pub candidate_state_sha256 : Option String
  pub source_range : SourceRange
  pub issues : List ValidationIssue
  pub preserved : Dict (List String)
