-- ===== src/Compaction/Errors/Items.antt =====
-- The items of a task state in src/agent_continuity/compaction.py: their parsers raise nothing but
-- `TaskStateError`.
use local_ai_coding_agent.Common.{refl, contains}
use local_ai_coding_agent.Compaction.Items.{
  objective_item, criterion_item, constraint_item, decision_item, completed_item,
  current_action_item, next_action_item, blocker_item, tool_call_item, artifact_item, dispute_item,
}
use local_ai_coding_agent.Compaction.Errors.Values.{
  Tame, object-IsTame, field-IsTame, word-IsTame, proof-IsTame, text-Tame, identifier-Tame,
  sha256-Tame, utc-Tame, positive-Tame, id_list-Tame,
}

pub objective-Tame : Tame objective_item
unfolding objective_item contains
objective-Tame v path = object-IsTame v path _ _ λ raw keys.
    field-IsTame raw keys _ path _ _ text-Tame refl
      λ text. field-IsTame raw keys _ path _ _ identifier-Tame refl λ source_event_id. tt

pub criterion-Tame : Tame criterion_item
unfolding criterion_item contains
criterion-Tame v path = object-IsTame v path _ _ λ raw keys.
    word-IsTame raw keys path _ _ _ _ refl λ status.
      proof-IsTame raw keys _ path _ _ _ refl λ evidence_ids.
        field-IsTame raw keys _ path _ _ identifier-Tame refl
          λ id. field-IsTame raw keys _ path _ _ text-Tame refl λ text. tt

pub constraint-Tame : Tame constraint_item
unfolding constraint_item contains
constraint-Tame v path = object-IsTame v path _ _ λ raw keys.
    word-IsTame raw keys path _ _ _ _ refl λ status.
      field-IsTame raw keys _ path _ _ identifier-Tame refl λ id.
        field-IsTame raw keys _ path _ _ text-Tame refl
          λ text. field-IsTame raw keys _ path _ _ identifier-Tame refl λ source_event_id. tt

pub decision-Tame : Tame decision_item
unfolding decision_item contains
decision-Tame v path = object-IsTame v path _ _ λ raw keys.
    proof-IsTame raw keys _ path _ _ _ refl λ source_event_ids.
      field-IsTame raw keys _ path _ _ identifier-Tame refl λ id.
        field-IsTame raw keys _ path _ _ text-Tame refl
          λ text. field-IsTame raw keys _ path _ _ text-Tame refl λ rationale. tt

pub completed-Tame : Tame completed_item
unfolding completed_item contains
completed-Tame v path = object-IsTame v path _ _ λ raw keys.
    proof-IsTame raw keys _ path _ _ _ refl λ evidence_ids.
      field-IsTame raw keys _ path _ _ identifier-Tame refl λ id.
        field-IsTame raw keys _ path _ _ text-Tame refl
          λ text. field-IsTame raw keys _ path _ _ utc-Tame refl λ completed_at. tt

pub current_action-Tame : Tame current_action_item
unfolding current_action_item contains
current_action-Tame v path = object-IsTame v path _ _ λ raw keys.
    field-IsTame raw keys _ path _ _ text-Tame refl λ text.
      field-IsTame raw keys _ path _ _ identifier-Tame refl
        λ owner. field-IsTame raw keys _ path _ _ utc-Tame refl λ started_at. tt

pub next_action-Tame : Tame next_action_item
unfolding next_action_item contains
next_action-Tame v path = object-IsTame v path _ _ λ raw keys.
    field-IsTame raw keys _ path _ _ positive-Tame refl λ order.
      field-IsTame raw keys _ path _ _ identifier-Tame refl λ id.
        field-IsTame raw keys _ path _ _ text-Tame refl
          λ text. field-IsTame raw keys _ path _ _ id_list-Tame refl λ depends_on. tt

pub blocker-Tame : Tame blocker_item
unfolding blocker_item contains
blocker-Tame v path = object-IsTame v path _ _ λ raw keys.
    word-IsTame raw keys path _ _ _ _ refl λ status.
      proof-IsTame raw keys _ path _ _ _ refl λ evidence_ids.
        field-IsTame raw keys _ path _ _ identifier-Tame refl
          λ id. field-IsTame raw keys _ path _ _ text-Tame refl λ text. tt

pub tool_call-Tame : Tame tool_call_item
unfolding tool_call_item contains
tool_call-Tame v path = object-IsTame v path _ _ λ raw keys.
    word-IsTame raw keys path _ _ _ _ refl λ outcome.
      field-IsTame raw keys _ path _ _ identifier-Tame refl
        λ call_id. field-IsTame raw keys _ path _ _ identifier-Tame refl λ tool. tt

pub artifact-Tame : Tame artifact_item
unfolding artifact_item contains
artifact-Tame v path = object-IsTame v path _ _ λ raw keys.
    field-IsTame raw keys _ path _ _ text-Tame refl λ location.
      field-IsTame raw keys _ path _ _ sha256-Tame refl
        λ sha256. field-IsTame raw keys _ path _ _ identifier-Tame refl λ evidence_id. tt

pub dispute-Tame : Tame dispute_item
unfolding dispute_item contains
dispute-Tame v path = object-IsTame v path _ _ λ raw keys.
    word-IsTame raw keys path _ _ _ _ refl λ status.
      proof-IsTame raw keys _ path _ _ _ refl λ evidence_ids.
        field-IsTame raw keys _ path _ _ identifier-Tame refl
          λ id. field-IsTame raw keys _ path _ _ text-Tame refl λ text. tt
