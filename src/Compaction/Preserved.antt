-- ===== src/Compaction/Preserved.antt =====
-- The admission boundary of src/agent_continuity/compaction.py: what an accepted proposal preserves of
-- the previous state.
use local_ai_coding_agent.Common.{
  ℕ, Bool, true, false, not, String, List, [], ◌∷◌, ◌++◌, Option, none, some, Result, ok, err,
  ok_inj, bind_inv, ◌>>=◌, ◌>>◌, ◌≡◌, ◌≢◌, refl, sym, subst, ap, ◌∙◌, arith, eq_iff, Json, is_empty,
  contains, difference, contains-difference, contains-is_subset, Memᴰ, str_eq_self, ◌==◌, Error,
  contract_error,
}
use local_ai_coding_agent.Compaction.Types.{
  TaskState, SourceRange, ValidationIssue, CompactionResult, Constraint, Decision, Criterion,
  Blocker,
}
use local_ai_coding_agent.Compaction.State.{validate_task_state, task_state_sha256, state_json}
use local_ai_coding_agent.Compaction.References.{Resolver, check_references_of, check_source_range}
use local_ai_coding_agent.Compaction.Invariants.{
  Words, Proof, unless, invariant_issues, criterion_words, criterion_proof, blocker_words,
  blocker_proof, objective_eq, constraint_eq, decision_eq, completed_eq, current_action_eq,
  next_action_eq, tool_call_eq, artifact_eq, dispute_eq, exact_field, proof_field, newly_completed,
}
use local_ai_coding_agent.Compaction.Preserved.Fields.{
  append_nil, unless_nil, IsKept, IsAdvanced, IsAdvancedIn, exact_field-IsKept,
  proof_field-IsAdvancedIn, objective_eq-Decides, constraint_eq-Decides, decision_eq-Decides,
  completed_eq-Decides, current_action_eq-Decides, next_action_eq-Decides, tool_call_eq-Decides,
  artifact_eq-Decides, dispute_eq-Decides,
}
use local_ai_coding_agent.Compaction.Preserved.Distinct.{IsDistinct}
pub mod Fields
pub mod Distinct
pub mod Citations
pub mod Range
pub mod Admission

-- An item and its successor: the text is the same, no evidence is lost, what was proved stays proved,
-- and what is newly proved has evidence that is new.
pub record Advances (pending proved text text_after status status_after : String)
    (evidence evidence_after : List String) : Type 0 where
  pub text_kept : text ≡ text_after
  pub evidence_kept : (i : String) → contains i evidence ≡ true → contains i evidence_after ≡ true
  pub proof_kept : status ≡ proved → status_after ≡ proved
  pub proof_backed :
      status ≡ pending
      → status_after ≡ proved
      → (i : String) × (contains i evidence_after ≡ true) × (contains i evidence ≡ false)

-- An item that stands in one list and not in another.
new_item :
    (xs ys : List String) (d : List String)
    → difference ys xs ≡ d
    → is_empty d ≡ false
    → (i : String) × (contains i ys ≡ true) × (contains i xs ≡ false)
new_item xs ys [] e h = absurd (cc)
new_item xs ys (i ∷ d) e h =
    let here : contains i (difference ys xs) ≡ true =
      ap (contains i) e ∙ unfold contains in rw (str_eq_self i) in
    let both = sym (contains-difference i ys xs) ∙ here in (i, ground arith, ground arith)

IsAdvanced-Advances :
    (w : Words) (x y : Proof)
    → IsAdvanced w x y
    → Advances w.pending w.proved x.text y.text x.status y.status x.evidence_ids y.evidence_ids
IsAdvanced-Advances w x y a = record {
  text_kept = a.text_kept;
  evidence_kept = λ i m. contains-is_subset i x.evidence_ids y.evidence_ids a.evidence_kept m;
  proof_kept = a.proof_kept;
  proof_backed = λ e f. new_item x.evidence_ids y.evidence_ids _ refl (a.proof_backed e f);
}

-- What a compacted state keeps of the previous one.
pub record Preserves (p c : TaskState) : Type 0 where
  pub same_task : p.task_id ≡ c.task_id
  pub same_objective : p.objective ≡ c.objective
  pub same_action : p.current_action ≡ c.current_action
  pub constraints : IsKept p.constraints c.constraints
  pub decisions : IsKept p.decisions c.decisions
  pub completed : IsKept p.completed c.completed
  pub next_actions : IsKept p.next_actions c.next_actions
  pub open_tool_calls : IsKept p.open_tool_calls c.open_tool_calls
  pub artifacts : IsKept p.artifacts c.artifacts
  pub disputes : IsKept p.disputes c.disputes
  pub criteria :
      (x : Criterion)
      → Memᴰ x p.success_criteria
      → (y : Criterion) × Memᴰ y c.success_criteria
        × (y.id ≡ x.id)
        × Advances "open" "met" x.text y.text x.status y.status x.evidence_ids y.evidence_ids
  pub blockers :
      (x : Blocker)
      → Memᴰ x p.blockers
      → (y : Blocker) × Memᴰ y c.blockers
        × (y.id ≡ x.id)
        × Advances "active" "cleared" x.text y.text x.status y.status x.evidence_ids y.evidence_ids

pub invariant_issues-Preserves :
    (p c : TaskState) → IsDistinct p → invariant_issues p c ≡ [] → Preserves p c
unfolding invariant_issues
invariant_issues-Preserves p c d h =
    let (task, h1) = append_nil (unless (p.task_id == c.task_id) _) _ h in
    let (objective, h2) = append_nil (unless (objective_eq p.objective c.objective) _) _ h1 in
    let (constraints, h3) =
      append_nil (exact_field "constraints" (λ x. x.id) constraint_eq p.constraints c.constraints) _
        h2 in
    let (decisions, h4) =
      append_nil (exact_field "decisions" (λ x. x.id) decision_eq p.decisions c.decisions) _ h3 in
    let (completed, h5) =
      append_nil (exact_field "completed" (λ x. x.id) completed_eq p.completed c.completed) _ h4 in
    let (actions, h6) =
      append_nil
        (exact_field "next_actions" (λ x. x.id) next_action_eq p.next_actions c.next_actions) _
        h5 in
    let (calls, h7) =
      append_nil
        (exact_field "open_tool_calls" (λ x. x.call_id) tool_call_eq p.open_tool_calls
          c.open_tool_calls)
        _ h6 in
    let (artifacts, h8) =
      append_nil (exact_field "artifacts" (λ x. x.path) artifact_eq p.artifacts c.artifacts) _ h7 in
    let (disputes, h9) =
      append_nil (exact_field "disputes" (λ x. x.id) dispute_eq p.disputes c.disputes) _ h8 in
    let (criteria, h10) =
      append_nil
        (proof_field criterion_words (λ x. x.id) criterion_proof p.success_criteria
          c.success_criteria)
        _ h9 in
    let (blockers, h11) =
      append_nil (proof_field blocker_words (λ x. x.id) blocker_proof p.blockers c.blockers) _
        h10 in
    let (_, action) = append_nil (newly_completed p.completed c.completed) _ h11 in
    record {
      same_task = (eq_iff p.task_id c.task_id).0 (unless_nil (p.task_id == c.task_id) _ task);
      same_objective =
          objective_eq-Decides p.objective c.objective
            (unless_nil (objective_eq p.objective c.objective) _ objective);
      same_action =
          current_action_eq-Decides p.current_action c.current_action
            (unless_nil (current_action_eq p.current_action c.current_action) _ action);
      constraints =
          exact_field-IsKept "constraints" (λ x. x.id) constraint_eq constraint_eq-Decides
            p.constraints c.constraints d.constraints constraints;
      decisions =
          exact_field-IsKept "decisions" (λ x. x.id) decision_eq decision_eq-Decides p.decisions
            c.decisions d.decisions decisions;
      completed =
          exact_field-IsKept "completed" (λ x. x.id) completed_eq completed_eq-Decides p.completed
            c.completed d.completed completed;
      next_actions =
          exact_field-IsKept "next_actions" (λ x. x.id) next_action_eq next_action_eq-Decides
            p.next_actions c.next_actions d.next_actions actions;
      open_tool_calls =
          exact_field-IsKept "open_tool_calls" (λ x. x.call_id) tool_call_eq tool_call_eq-Decides
            p.open_tool_calls c.open_tool_calls d.open_tool_calls calls;
      artifacts =
          exact_field-IsKept "artifacts" (λ x. x.path) artifact_eq artifact_eq-Decides p.artifacts
            c.artifacts d.artifacts artifacts;
      disputes =
          exact_field-IsKept "disputes" (λ x. x.id) dispute_eq dispute_eq-Decides p.disputes
            c.disputes d.disputes disputes;
      criteria = λ x m.
          let (y, n, e, k) =
            proof_field-IsAdvancedIn criterion_words (λ x. x.id) criterion_proof p.success_criteria
              c.success_criteria d.success_criteria criteria x m in
          (y, n, e, IsAdvanced-Advances criterion_words (criterion_proof x) (criterion_proof y) k);
      blockers = λ x m.
          let (y, n, e, k) =
            proof_field-IsAdvancedIn blocker_words (λ x. x.id) blocker_proof p.blockers c.blockers
              d.blockers blockers x m in
          (y, n, e, IsAdvanced-Advances blocker_words (blocker_proof x) (blocker_proof y) k);
    }
