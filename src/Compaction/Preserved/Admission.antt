-- ===== src/Compaction/Preserved/Admission.antt =====
-- `validate_compaction_proposal` of src/agent_continuity/compaction.py as an admission boundary.
use local_ai_coding_agent.Common.{
  Bool, true, false, not, String, List, [], ◌∷◌, ◌++◌, Option, none, some, Result, ok, err, ok_inj,
  bind_inv, contract_error, manifest_error, store_error, request_error, key_error, type_error,
  ◌>>=◌, ◌≡◌, ◌≢◌, refl, sym, subst, ap, ◌∙◌, arith, eq_iff, Json, is_empty, sort, insert_sorted,
  ◌==◌, Bool-cases, inl, inr,
}
use local_ai_coding_agent.Compaction.Types.{
  TaskState, SourceRange, ValidationIssue, CompactionResult,
}
use local_ai_coding_agent.Compaction.State.{validate_task_state, task_state_sha256, state_json}
use local_ai_coding_agent.Compaction.Again.{task_state_sha256-json}
use local_ai_coding_agent.Compaction.References.{Resolver, check_references_of, check_source_range}
use local_ai_coding_agent.Compaction.Invariants.{unless, invariant_issues}
use local_ai_coding_agent.Compaction.Proposal.{
  Checked, valid, invalid, caught, checked_state, hash_eq, link_issues, pair_issues, issue_leb,
  distinct_issues, has_issue, ordered_issues, candidate_issues, proposal_issues,
  validate_compaction_proposal,
}
use local_ai_coding_agent.Compaction.Preserved.Fields.{append_nil, unless_nil}
use local_ai_coding_agent.Compaction.Preserved.Distinct.{validate_task_state-IsDistinct}
use local_ai_coding_agent.Compaction.Preserved.Citations.{
  IsResolved, check_references_of-IsResolved,
}
use local_ai_coding_agent.Compaction.Preserved.Range.{IsFrozen, check_source_range-IsFrozen}
use local_ai_coding_agent.Compaction.Preserved.{Preserves, invariant_issues-Preserves}

insert-cons {ℓ} :
    {A : Type ℓ} (le : A → A → Bool) (x : A) (ys : List A)
    → is_empty (insert_sorted le x ys) ≡ false
unfolding insert_sorted
insert-cons le x [] = refl
insert-cons le x (y ∷ ys) = ground arith

sort_nil {ℓ} : {A : Type ℓ} (le : A → A → Bool) (xs : List A) → is_empty (sort le xs) ≡ is_empty xs
unfolding sort
sort_nil le [] = refl
sort_nil le (x ∷ xs) = insert-cons le x (sort le xs)

distinct_nil : (xs : List ValidationIssue) → is_empty (distinct_issues xs) ≡ true → xs ≡ []
unfolding distinct_issues
distinct_nil [] h = refl
distinct_nil (x ∷ xs) h = elim (Bool-cases (has_issue x xs)) [
  | inl e ↦
      let none_left = distinct_nil xs (rw (e, distinct_issues) at h) in
      absurd (cc (e, ap (has_issue x) none_left))
  | inr e ↦ absurd (cc (rw (e, distinct_issues) at h))
]

-- No issue is reported exactly when none was found.
ordered_nil : (xs : List ValidationIssue) → is_empty (ordered_issues xs) ≡ true → xs ≡ []
unfolding ordered_issues
ordered_nil xs h = distinct_nil xs (sym (sort_nil issue_leb (distinct_issues xs)) ∙ h)

-- A state that was checked is valid, and its hash is that of its dictionary.
checked_state-valid :
    (digest : Json → String) (v : Json) (s : TaskState) (hash : String)
    → checked_state digest v ≡ ok (valid s hash)
    → (validate_task_state v ≡ ok s) × (hash ≡ digest (state_json s))
unfolding checked_state
checked_state-valid digest v s hash h = go (validate_task_state v) refl h
  where
    then_hash : TaskState → Result Checked
    then_hash s = task_state_sha256 digest (state_json s) >>= λ h. ok (valid s h)

    uncaught : (o : Result Checked) → caught o ≡ ok (valid s hash) → o ≡ ok (valid s hash)
    uncaught (ok c) h = unfold caught in h
    uncaught (err (contract_error m)) h = absurd (unfold caught in cc)
    uncaught (err (manifest_error m)) h = absurd (unfold caught in cc)
    uncaught (err (store_error m)) h = absurd (unfold caught in cc)
    uncaught (err (request_error m)) h = absurd (unfold caught in cc)
    uncaught (err key_error) h = absurd (unfold caught in cc)
    uncaught (err type_error) h = absurd (unfold caught in cc)

    go :
        (o : Result TaskState)
        → validate_task_state v ≡ o
        → caught (o >>= then_hash) ≡ ok (valid s hash)
        → (validate_task_state v ≡ ok s) × (hash ≡ digest (state_json s))
    go (err e) q h = absurd (cc (uncaught (err e) h))
    go (ok t) q h =
        bind_inv (task_state_sha256 digest (state_json t)) _ (uncaught (then_hash t) h) λ g e k.
          let same : valid t g ≡ valid s hash = ok_inj k in
          let same_state : t ≡ s = cc in
          let same_hash : g ≡ hash = cc in
          let real = task_state_sha256-json digest v t q in
          (
            q ∙ ap ok same_state,
            sym same_hash ∙ ok_inj (sym e ∙ real) ∙ ap (λ s. digest (state_json s)) same_state,
          )

-- What stands behind an accepted proposal: both states are valid; the candidate links to the hash of
-- the previous state and goes beyond it; it keeps what the previous state holds; its citations
-- resolve; and the frozen source range is what the resolver observes.
pub record IsAdmitted (digest : Json → String) (r : Resolver) (range : SourceRange) (v w : Json)
    : Type 0 where
  pub previous : TaskState
  pub candidate : TaskState
  pub previous_valid : validate_task_state v ≡ ok previous
  pub candidate_valid : validate_task_state w ≡ ok candidate
  pub linked : candidate.previous_state_sha256 ≡ some (digest (state_json previous))
  pub advanced : candidate.through_event_id ≢ previous.through_event_id
  pub preserves : Preserves previous candidate
  pub resolved : IsResolved r candidate
  pub frozen : IsFrozen r candidate range

hash_eq-some : (o : Option String) (h : String) → hash_eq o h ≡ true → o ≡ some h
hash_eq-some none h e = absurd (cc)
hash_eq-some (some g) h e = ap some ((eq_iff g h).0 e)

link_issues_nil :
    (p : TaskState) (hash : String) (c : TaskState)
    → link_issues p hash c ≡ []
    → (c.previous_state_sha256 ≡ some hash) × (c.through_event_id ≢ p.through_event_id)
unfolding link_issues
link_issues_nil p hash c h =
    let (a, b) = append_nil (unless (hash_eq c.previous_state_sha256 hash) _) _ h in
    let differs = unless_nil (not (c.through_event_id == p.through_event_id)) _ b in
    (
      hash_eq-some c.previous_state_sha256 hash
          (unless_nil (hash_eq c.previous_state_sha256 hash) _ a),
      λ e. absurd (ground (arith, eq_iff c.through_event_id p.through_event_id)),
    )

module _ (digest : Json → String) (r : Resolver) (range : SourceRange) where
  candidate_issues_nil :
      (c : TaskState) (h : String)
      → candidate_issues digest r range (valid c h) ≡ ok []
      → IsResolved r c × IsFrozen r c range
  unfolding candidate_issues
  candidate_issues_nil c h e = bind_inv (check_source_range r c range) _ e λ xs e1 h1.
      let (a, b) = append_nil xs (check_references_of r c) (ok_inj h1) in
      (
        check_references_of-IsResolved r c b,
        check_source_range-IsFrozen r c range
            (subst (λ ys. check_source_range r c range ≡ ok ys) a e1),
      )

  proposal_nil :
      (v w : Json) (p c : Checked)
      → checked_state digest v ≡ ok p
      → checked_state digest w ≡ ok c
      → proposal_issues digest r range p c ≡ ok []
      → IsAdmitted digest r range v w
  unfolding proposal_issues pair_issues
  proposal_nil v w (invalid m) c ep ec h =
      bind_inv (candidate_issues digest r range c) _ h λ xs e1 h1. absurd (cc)
  proposal_nil v w (valid p hp) (invalid m) ep ec h =
      bind_inv (candidate_issues digest r range (invalid m)) _ h λ xs e1 h1. absurd (cc)
  proposal_nil v w (valid p hp) (valid c hc) ep ec h =
      bind_inv (candidate_issues digest r range (valid c hc)) _ h λ xs e1 h1.
        let (a, rest) = append_nil xs (link_issues p hp c ++ invariant_issues p c) (ok_inj h1) in
        let (links, keeps) = append_nil (link_issues p hp c) (invariant_issues p c) rest in
        let (vp, hash) = checked_state-valid digest v p hp ep in
        let (vc, _) = checked_state-valid digest w c hc ec in
        let (linked, advanced) = link_issues_nil p hp c links in
        let (resolved, frozen) =
          candidate_issues_nil c hc
            (subst (λ ys. candidate_issues digest r range (valid c hc) ≡ ok ys) a e1) in
        record {
          previous = p;
          candidate = c;
          previous_valid = vp;
          candidate_valid = vc;
          linked = linked ∙ ap some hash;
          advanced = advanced;
          preserves = invariant_issues-Preserves p c (validate_task_state-IsDistinct v p vp) keeps;
          resolved = resolved;
          frozen = frozen;
        }

  -- A proposal is accepted only if both states are valid, the candidate links to the hash of the
  -- previous state and goes beyond its last event, keeps its task, objective, current action and
  -- every constraint, decision, completed item, next action, open tool call, artifact and dispute
  -- unchanged, keeps every criterion and blocker with its text and evidence without taking a proof
  -- back, proves new ones by new evidence, cites only what resolves, and reaches exactly through the
  -- frozen source range, whose first and last events have their frozen hashes.
  pub accepted-IsAdmitted :
      (v w : Json) {result : CompactionResult}
      → validate_compaction_proposal digest r range v w ≡ ok result
      → result.accepted ≡ true
      → IsAdmitted digest r range v w
  unfolding validate_compaction_proposal
  accepted-IsAdmitted v w h accepted = bind_inv (checked_state digest v) _ h λ p ep h1.
      bind_inv (checked_state digest w) _ h1 λ c ec h2.
        bind_inv (proposal_issues digest r range p c) _ h2 λ xs e h3.
          let none_left : is_empty (ordered_issues xs) ≡ true =
            ap (λ x. x.accepted) (ok_inj h3) ∙ accepted in
          proposal_nil v w p c ep ec
            (subst (λ ys. proposal_issues digest r range p c ≡ ok ys) (ordered_nil xs none_left) e)
