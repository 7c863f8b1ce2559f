-- ===== src/WorkingSet/Packing.antt =====
-- The packing of `pack_working_set` in src/agent_continuity/working_set.py, from the task state and
-- the candidates that the store gave it under its lock.
use local_ai_coding_agent.Common.{
  ℕ, ◌+◌, String, List, [], ◌∷◌, ◌++◌, Option, none, some, Bool, true, false, ◌||◌, Result, ok, err,
  contract_error, guard, ◌>>=◌, ◌>>◌, Dict, Json, ltb, leb, not, length, is_empty, if◌then◌else◌,
  text_append,
}
use local_ai_coding_agent.WorkingSet.Types.{
  Candidate, Provenance, Representation, full, compact, AuditDecision, excluded, included,
  AuditReason, missing_provenance, max_memories, per_memory_token_cap, memory_token_budget,
  was_included, CandidateAudit, WorkingSet, state_token_budget, memory_token_budget_size,
  per_memory_cap, memory_limit,
}
use local_ai_coding_agent.WorkingSet.Ledger.{Counted, Count, count}
use local_ai_coding_agent.WorkingSet.Blocks.{provenance, canonical_text, memory_block}
pub mod Reasons
pub mod Steps
pub mod Loop
pub mod Bounds
pub mod Totality
mod Tests

-- The variables of the loop over the candidates, and the ledger's cache.
pub record Packing : Type 0 where
  pub memory_text : String
  pub memory_tokens : ℕ
  pub included_ids : List String
  pub audits : List CandidateAudit
  pub cache : Dict ℕ

-- A block that was rendered and counted.
pub record Block : Type 0 where
  pub text : String
  pub representation : Representation
  pub tokens : ℕ
  pub cache : Dict ℕ

-- `not provenance["source_event_ids"] or not provenance["evidence"]`
abbrev pub is_unattributed : Provenance → Bool
is_unattributed p = is_empty p.source_event_ids || is_empty p.evidence

-- The audit of a candidate that was excluded before it was counted, of one that is too long, and of
-- one whose total was counted.
abbrev pub early_audit : ℕ → Candidate → AuditReason → CandidateAudit
early_audit rank c why = record {
  rank = rank;
  memory_id = c.memory_id;
  retrieval = c.retrieval;
  provenance = provenance c;
  decision = excluded;
  reason = why;
  representation = none;
  candidate_tokens = none;
  memory_tokens_if_included = none;
}

abbrev pub block_audit : ℕ → Candidate → Block → CandidateAudit
block_audit rank c b = record {
  rank = rank;
  memory_id = c.memory_id;
  retrieval = c.retrieval;
  provenance = provenance c;
  decision = excluded;
  reason = per_memory_token_cap;
  representation = some b.representation;
  candidate_tokens = some b.tokens;
  memory_tokens_if_included = none;
}

abbrev pub total_audit : ℕ → Candidate → Block → ℕ → AuditDecision → AuditReason → CandidateAudit
total_audit rank c b total what why = record {
  rank = rank;
  memory_id = c.memory_id;
  retrieval = c.retrieval;
  provenance = provenance c;
  decision = what;
  reason = why;
  representation = some b.representation;
  candidate_tokens = some b.tokens;
  memory_tokens_if_included = some total;
}

-- The loop goes on with one more audit, and the cache as it is now.
abbrev pub exclude : Packing → Dict ℕ → CandidateAudit → Packing
exclude p cache a = record {
  memory_text = p.memory_text;
  memory_tokens = p.memory_tokens;
  included_ids = p.included_ids;
  audits = p.audits ++ a ∷ [];
  cache = cache;
}

abbrev pub include : Packing → Candidate → String → Count → CandidateAudit → Packing
include p c proposed total a = record {
  memory_text = proposed;
  memory_tokens = total.tokens;
  included_ids = p.included_ids ++ c.memory_id ∷ [];
  audits = p.audits ++ a ∷ [];
  cache = total.cache;
}

abbrev pub memory_header : String
memory_header = "## RETRIEVED LONG-TERM MEMORY\n"

-- The loop's variables before the first candidate.
unfoldable pub start : (String → Counted) → Dict ℕ → Result Packing
start counter cache = do
  n ← count counter cache memory_header
  guard (leb n.tokens memory_token_budget_size)
      (contract_error "memory header requires more tokens than its budget")
  ok (record {
    memory_text = memory_header;
    memory_tokens = n.tokens;
    included_ids = [];
    audits = [];
    cache = n.cache;
  })

module _ (dumps : Json → Option String) (counter : String → Counted) where
  unfoldable pub render : Candidate → Dict ℕ → Representation → Result Block
  render c cache r = do
    text ← memory_block dumps c r
    n ← count counter cache text
    ok (record { text = text; representation = r; tokens = n.tokens; cache = n.cache })

  -- The full block, or the compact one when the full one is too long.
  unfoldable pub fit_block : Candidate → Dict ℕ → Result Block
  fit_block c cache = do
    b ← render c cache full
    if ltb per_memory_cap b.tokens then render c b.cache compact else ok b

  -- A block within its cap joins the memory text, when the whole stays within the budget.
  unfoldable pub propose : ℕ → Candidate → Packing → Block → Result Packing
  propose rank c p b = do
    total ← count counter b.cache (text_append p.memory_text b.text)
    if ltb memory_token_budget_size total.tokens
        then ok
            (exclude p total.cache (total_audit rank c b total.tokens excluded memory_token_budget))
        else ok (
            include p c (text_append p.memory_text b.text) total
              (total_audit rank c b total.tokens included was_included))

  unfoldable pub weigh : ℕ → Candidate → Packing → Result Packing
  weigh rank c p = do
    b ← fit_block c p.cache
    if ltb per_memory_cap b.tokens
        then ok (exclude p b.cache (block_audit rank c b))
        else propose rank c p b

  -- The body of the loop.
  unfoldable pub pack_candidate : ℕ → Candidate → Packing → Result Packing
  pack_candidate rank c p =
      if is_unattributed (provenance c)
      then ok (exclude p p.cache (early_audit rank c missing_provenance))
      else if leb memory_limit (length p.included_ids)
      then ok (exclude p p.cache (early_audit rank c max_memories))
      else weigh rank c p

  unfoldable pub pack_candidates : ℕ → List Candidate → Packing → Result Packing
  pack_candidates rank [] p = ok p
  pack_candidates rank (c ∷ cs) p = do q ← pack_candidate rank c p; pack_candidates (rank + 1) cs q

  -- `state_text` and its count, within the budget.
  unfoldable pub count_state : Json → Result (String × Count)
  count_state state = do
    text ← canonical_text dumps state
    let state_text = text_append "## CURRENT TYPED TASK STATE\n" (text_append text "\n")
    n ← count counter [] state_text
    guard (leb n.tokens state_token_budget)
        (contract_error "current task state requires more tokens than its budget")
    ok (state_text, n)

  unfoldable pub pack_working_set : Json → List Candidate → Result WorkingSet
  pack_working_set state candidates = do
    s ← count_state state
    p ← start counter s.1.cache
    q ← pack_candidates 1 candidates p
    let model_text = text_append s.0 (text_append "\n" q.memory_text)
    total ← count counter q.cache model_text
    ok (record {
      model_text = model_text;
      state_tokens = s.1.tokens;
      memory_tokens = q.memory_tokens;
      total_tokens = total.tokens;
      included_memory_ids = q.included_ids;
      candidates = q.audits;
    })
