-- ===== src/WorkingSet/Types.antt =====
-- The values of src/agent_continuity/working_set.py: retrieved memories, and the audit of what was
-- packed. A column that may be NULL is an option.
use local_ai_coding_agent.Common.{ℕ, String, List, Option, Json}

-- An item of a memory's evidence.
pub record EvidenceItem : Type 0 where
  pub evidence_id : Option String
  pub source_kind : Option String
  pub source_locator : Option String
  pub source_event_id : Option String
  pub source_sha256 : Option String
  pub observed_at : Option String
  pub authority : Option String
  pub excerpt : Option String

-- A search result of the memory store.
pub record Candidate : Type 0 where
  pub memory_id : String
  pub retrieval : Json
  pub kind : Json
  pub subject : Json
  pub predicate : Json
  pub object : Json
  pub status : Json
  pub valid_from : Json
  pub valid_to : Json
  pub observed_at : Json
  pub recorded_at : Json
  pub verification_status : Json
  pub source_event_id : Option String
  pub evidence : List EvidenceItem

pub record Provenance : Type 0 where
  pub source_event_ids : List String
  pub evidence : List Json

pub data Representation : Type 0 where
  full compact : Representation

pub data AuditDecision : Type 0 where
  excluded included : AuditDecision

pub data AuditReason : Type 0 where
  missing_provenance max_memories per_memory_token_cap memory_token_budget : AuditReason
  was_included : AuditReason

pub record CandidateAudit : Type 0 where
  pub rank : ℕ
  pub memory_id : String
  pub retrieval : Json
  pub provenance : Provenance
  pub decision : AuditDecision
  pub reason : AuditReason
  pub representation : Option Representation
  pub candidate_tokens : Option ℕ
  pub memory_tokens_if_included : Option ℕ

pub record WorkingSet : Type 0 where
  pub model_text : String
  pub state_tokens : ℕ
  pub memory_tokens : ℕ
  pub total_tokens : ℕ
  pub included_memory_ids : List String
  pub candidates : List CandidateAudit

-- The fixed budgets.
abbrev pub state_token_budget : ℕ
state_token_budget = 2048

abbrev pub memory_token_budget_size : ℕ
memory_token_budget_size = 4096

abbrev pub per_memory_cap : ℕ
per_memory_cap = 512

abbrev pub memory_limit : ℕ
memory_limit = 8
