-- ===== src/Compaction/Invariants.antt =====
-- `_check_invariants` of src/agent_continuity/compaction.py.
use local_ai_coding_agent.Common.{
  nat_eq, Bool, true, false, not, ◌&&◌, ◌||◌, String, List, [], ◌∷◌, ◌++◌, Option, none, some, Dict,
  get, keys, has, is_empty, is_subset, difference, texts_eq, sort, str_leb, concat, indexed, ◌==◌,
}
use local_ai_coding_agent.Compaction.Types.{
  Objective, Criterion, Constraint, Decision, CompletedItem, CurrentAction, NextAction, Blocker,
  ToolCall, Artifact, Dispute, TaskState, ValidationIssue,
}
use local_ai_coding_agent.Compaction.References.{issue}

-- `==` of the dictionaries of two items.
unfoldable pub objective_eq : Objective → Objective → Bool
objective_eq a b = a.text == b.text && a.source_event_id == b.source_event_id

unfoldable pub constraint_eq : Constraint → Constraint → Bool
constraint_eq a b =
    (a.id == b.id && a.text == b.text)
    && (a.status == b.status && a.source_event_id == b.source_event_id)

unfoldable pub decision_eq : Decision → Decision → Bool
decision_eq a b =
    (a.id == b.id && a.text == b.text)
    && (a.rationale == b.rationale && texts_eq a.source_event_ids b.source_event_ids)

unfoldable pub completed_eq : CompletedItem → CompletedItem → Bool
completed_eq a b =
    (a.id == b.id && a.text == b.text)
    && (texts_eq a.evidence_ids b.evidence_ids && a.completed_at == b.completed_at)

unfoldable pub current_action_eq : CurrentAction → CurrentAction → Bool
current_action_eq a b = a.text == b.text && (a.owner == b.owner && a.started_at == b.started_at)

unfoldable pub next_action_eq : NextAction → NextAction → Bool
next_action_eq a b =
    (a.id == b.id && nat_eq a.order b.order)
    && (a.text == b.text && texts_eq a.depends_on b.depends_on)

unfoldable pub tool_call_eq : ToolCall → ToolCall → Bool
tool_call_eq a b = a.call_id == b.call_id && (a.tool == b.tool && a.outcome == b.outcome)

unfoldable pub artifact_eq : Artifact → Artifact → Bool
artifact_eq a b = a.path == b.path && (a.sha256 == b.sha256 && a.evidence_id == b.evidence_id)

unfoldable pub dispute_eq : Dispute → Dispute → Bool
dispute_eq a b =
    (a.id == b.id && a.text == b.text)
    && (a.status == b.status && texts_eq a.evidence_ids b.evidence_ids)

-- An issue that is reported when the test fails.
abbrev pub unless : Bool → ValidationIssue → List ValidationIssue
unless true i = []
unless false i = i ∷ []

-- `for item_id, item in items`
unfoldable pub each_entry {ℓ} :
    {V : Type ℓ} → (String → V → List ValidationIssue) → Dict V → List ValidationIssue
each_entry f [] = []
each_entry f ((k, v) ∷ d) = f k v ++ each_entry f d

abbrev pub entry_path : String → String → String
entry_path name id = concat (name ∷ "[" ∷ id ∷ "]" ∷ [])

module _ {ℓ} {A : Type ℓ} (name : String) (identity : A → String) (same : A → A → Bool) where
  -- An item of the previous state, against the candidate's of the same identity.
  unfoldable pub exact_issues : String → A → Option A → List ValidationIssue
  exact_issues id x none =
      issue "invariant_omitted" (entry_path name id) ("required " ∷ name ∷ " item was omitted" ∷ [])
      ∷ []
  exact_issues id x (some y) =
      unless (same x y)
        (issue "invariant_changed" (entry_path name id) ("required " ∷ name ∷ " item changed" ∷ []))

  -- The loop over one of the `exact_fields`.
  unfoldable pub exact_field : List A → List A → List ValidationIssue
  unfolding exact_issues each_entry
  exact_field old new =
      let after = indexed identity new in
      each_entry (λ id x. exact_issues id x (get id after)) (indexed identity old)

-- `tuple(sorted(old))`
abbrev pub preserved_ids {ℓ} : {A : Type ℓ} → (A → String) → List A → List String
preserved_ids identity old = sort str_leb (keys (indexed identity old))

-- The words for an item that is proved by evidence: a criterion that is met, a blocker that is
-- cleared.
pub record Words : Type 0 where
  pub name : String
  pub thing : String
  pub pending : String
  pub proved : String
  pub reversed_code : String
  pub reversed_message : String
  pub unproven_code : String
  pub unproven_message : String

abbrev pub criterion_words : Words
criterion_words = record {
  name = "success_criteria";
  thing = "success criterion";
  pending = "open";
  proved = "met";
  reversed_code = "completion_reversed";
  reversed_message = "met criterion returned to open";
  unproven_code = "unproven_completion";
  unproven_message = "newly met criterion lacks new completion evidence";
}

abbrev pub blocker_words : Words
blocker_words = record {
  name = "blockers";
  thing = "blocker";
  pending = "active";
  proved = "cleared";
  reversed_code = "blocker_reopened";
  reversed_message = "cleared blocker returned to active";
  unproven_code = "unproven_clearance";
  unproven_message = "cleared blocker lacks new clearance evidence";
}

-- What the loops look at in an item.
pub record Proof : Type 0 where
  pub text : String
  pub status : String
  pub evidence_ids : List String

abbrev pub criterion_proof : Criterion → Proof
criterion_proof x = record { text = x.text; status = x.status; evidence_ids = x.evidence_ids }

abbrev pub blocker_proof : Blocker → Proof
blocker_proof x = record { text = x.text; status = x.status; evidence_ids = x.evidence_ids }

module _ (w : Words) where
  -- The text stays, evidence is kept, and nothing that was proved is pending again.
  unfoldable pub keeps_text : Proof → Proof → Bool
  keeps_text x y = x.text == y.text

  unfoldable pub keeps_evidence : Proof → Proof → Bool
  keeps_evidence x y = is_subset x.evidence_ids y.evidence_ids

  unfoldable pub stays_proved : Proof → Proof → Bool
  stays_proved x y = not (x.status == w.proved && not (y.status == w.proved))

  -- What is newly proved has new evidence.
  unfoldable pub is_newly_backed : Proof → Proof → Bool
  is_newly_backed x y = not (
      x.status == w.pending
      && (y.status == w.proved && is_empty (difference y.evidence_ids x.evidence_ids)))

  unfoldable pub proof_issues : String → Proof → Option Proof → List ValidationIssue
  proof_issues id x none =
      issue "invariant_omitted" (entry_path w.name id) (w.thing ∷ " was omitted" ∷ []) ∷ []
  proof_issues id x (some y) =
      unless (keeps_text x y)
        (issue "invariant_changed" (entry_path w.name id) (w.thing ∷ " text changed" ∷ []))
      ++ (unless (keeps_evidence x y) (
            issue "evidence_omitted" (entry_path w.name id)
              (w.thing ∷ " evidence was omitted" ∷ []))
          ++ (unless (stays_proved x y)
                (issue w.reversed_code (entry_path w.name id) (w.reversed_message ∷ []))
              ++ unless (is_newly_backed x y)
                  (issue w.unproven_code (entry_path w.name id) (w.unproven_message ∷ []))))

module _ {ℓ} {A : Type ℓ} (w : Words) (identity : A → String) (proof : A → Proof) where
  abbrev pub proof_of : Option A → Option Proof
  proof_of none = none
  proof_of (some x) = some (proof x)

  -- The loop over the success criteria or the blockers.
  unfoldable pub proof_field : List A → List A → List ValidationIssue
  unfolding proof_issues each_entry
  proof_field old new =
      let after = indexed identity new in
      each_entry (λ id x. proof_issues w id (proof x) (proof_of (get id after)))
        (indexed identity old)

-- A completed item that is new has evidence.
unfoldable pub newly_completed : List CompletedItem → List CompletedItem → List ValidationIssue
unfolding each_entry
newly_completed old new =
    let before = indexed (λ x. x.id) old in
    each_entry
      (λ id x. unless (has id before || not (is_empty x.evidence_ids)) (
        issue "unproven_completion" (entry_path "completed" id)
          ("newly completed item lacks evidence" ∷ [])))
      (indexed (λ x. x.id) new)

-- The issues of `_check_invariants`, in order.
unfoldable pub invariant_issues : TaskState → TaskState → List ValidationIssue
unfolding exact_field proof_field newly_completed
invariant_issues p c =
    unless (p.task_id == c.task_id)
      (issue "task_changed" "task_id" ("compaction cannot change task_id" ∷ []))
    ++ (unless (objective_eq p.objective c.objective)
          (issue "objective_changed" "objective" ("objective must survive exactly" ∷ []))
        ++ (exact_field "constraints" (λ x. x.id) constraint_eq p.constraints c.constraints
            ++ (exact_field "decisions" (λ x. x.id) decision_eq p.decisions c.decisions
                ++ (exact_field "completed" (λ x. x.id) completed_eq p.completed c.completed
                    ++ (exact_field "next_actions" (λ x. x.id) next_action_eq p.next_actions
                          c.next_actions
                        ++ (exact_field "open_tool_calls" (λ x. x.call_id) tool_call_eq
                              p.open_tool_calls c.open_tool_calls
                            ++ (exact_field "artifacts" (λ x. x.path) artifact_eq p.artifacts
                                  c.artifacts
                                ++ (exact_field "disputes" (λ x. x.id) dispute_eq p.disputes
                                      c.disputes
                                    ++ (proof_field criterion_words (λ x. x.id) criterion_proof
                                          p.success_criteria c.success_criteria
                                        ++ (proof_field blocker_words (λ x. x.id) blocker_proof
                                              p.blockers c.blockers
                                            ++ (newly_completed p.completed c.completed
                                                ++ unless
                                                    (current_action_eq p.current_action
                                                      c.current_action)
                                                    (issue "current_action_changed" "current_action"
                                                      ("compaction cannot change the active action without a prior state transition"
                                                        ∷ [])))))))))))))

-- The identifiers that `_check_invariants` returns.
unfoldable pub preserved : TaskState → Dict (List String)
preserved p =
    ("constraints", preserved_ids (λ x. x.id) p.constraints)
    ∷ ("decisions", preserved_ids (λ x. x.id) p.decisions)
    ∷ ("completed", preserved_ids (λ x. x.id) p.completed)
    ∷ ("next_actions", preserved_ids (λ x. x.id) p.next_actions)
    ∷ ("open_tool_calls", preserved_ids (λ x. x.call_id) p.open_tool_calls)
    ∷ ("artifacts", preserved_ids (λ x. x.path) p.artifacts)
    ∷ ("disputes", preserved_ids (λ x. x.id) p.disputes)
    ∷ ("success_criteria", preserved_ids (λ x. x.id) p.success_criteria)
    ∷ ("blockers", preserved_ids (λ x. x.id) p.blockers)
    ∷ ("objective", p.objective.source_event_id ∷ [])
    ∷ []
