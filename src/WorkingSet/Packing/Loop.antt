-- ===== src/WorkingSet/Packing/Loop.antt =====
-- What the loop of `pack_working_set` in src/agent_continuity/working_set.py keeps, and what it adds to
-- its variables.
use local_ai_coding_agent.Common.{
  ℕ, ◌+◌, String, List, [], ◌∷◌, ◌++◌, Option, Bool, true, false, ok, ok_inj, bind_inv, guard-eq-ok,
  contract_error, ◌≡◌, refl, subst, ap, ◌∙◌, arith, Dict, Json, leb, length, if◌then◌else◌,
  text_append,
}
use local_ai_coding_agent.WorkingSet.Types.{
  Candidate, CandidateAudit, AuditDecision, excluded, included, state_token_budget,
  memory_token_budget_size, memory_limit,
}
use local_ai_coding_agent.WorkingSet.Ledger.{
  Counted, counted, Count, count, IsExact, count-IsCounted,
}
use local_ai_coding_agent.WorkingSet.Blocks.{canonical_text}
use local_ai_coding_agent.WorkingSet.Packing.{
  Packing, pack_candidate, pack_candidates, count_state, start, memory_header,
}
use local_ai_coding_agent.WorkingSet.Packing.Reasons.{IsRun}
use local_ai_coding_agent.WorkingSet.Packing.Steps.{Step, skipped, taken, pack_candidate-Step}

-- The identifiers of the audits that include their candidate, in order.
abbrev pub was_taken : AuditDecision → Bool
was_taken included = true
was_taken excluded = false

unfoldable pub included_of : List CandidateAudit → List String
included_of [] = []
included_of (a ∷ xs) =
    let rest = included_of xs in if was_taken a.decision then a.memory_id ∷ rest else rest

append-cons {ℓ} :
    {A : Type ℓ} (xs : List A) (a : A) (ys : List A) → (xs ++ a ∷ []) ++ ys ≡ xs ++ a ∷ ys
append-cons [] a ys = refl
append-cons (x ∷ xs) a ys = ap (λ zs. x ∷ zs) (append-cons xs a ys)

length-append_one {ℓ} : {A : Type ℓ} (xs : List A) (a : A) → length (xs ++ a ∷ []) ≡ length xs + 1
length-append_one [] a = refl
length-append_one (x ∷ xs) a = ground (arith, length-append_one xs a)

module _ (dumps : Json → Option String) (counter : String → Counted) where
  -- The loop's variables are within the limits, and their counts are exact.
  pub record IsPacked (p : Packing) : Type 0 where
    pub few : leb (length p.included_ids) memory_limit ≡ true
    pub within : leb p.memory_tokens memory_token_budget_size ≡ true
    pub exact_text : counter p.memory_text ≡ counted p.memory_tokens
    pub exact_cache : IsExact counter p.cache

  Step-IsPacked :
      (rank : ℕ) (c : Candidate) (p q : Packing)
      → IsPacked p
      → Step dumps counter rank c p q
      → IsPacked q
  Step-IsPacked rank c p q k (skipped cache a _ _ _ exact) = record {
    few = k.few;
    within = k.within;
    exact_text = k.exact_text;
    exact_cache = exact;
  }
  Step-IsPacked rank c p q k (taken b total few within measured _) = record {
    few = ground (arith, length-append_one p.included_ids c.memory_id);
    within = within;
    exact_text = measured.0;
    exact_cache = measured.1;
  }

  -- What the loop adds to the variables over these candidates.
  pub record Adds (rank : ℕ) (cs : List Candidate) (p q : Packing) : Type 0 where
    pub audits : List CandidateAudit
    pub appended : q.audits ≡ p.audits ++ audits
    pub taken_ids : q.included_ids ≡ p.included_ids ++ included_of audits
    pub accounted :
        IsRun dumps counter rank
          (length p.included_ids)
          p.memory_text
          cs
          audits
          (length q.included_ids)
          q.memory_text
    pub packed : IsPacked q

  append_none : {A : Type 0} (xs : List A) → xs ≡ xs ++ []
  append_none [] = refl
  append_none (x ∷ xs) = ap (λ zs. x ∷ zs) (append_none xs)

  Adds-Step :
      (rank : ℕ) (c : Candidate) (cs : List Candidate) (p p1 q : Packing)
      → Step dumps counter rank c p p1
      → Adds (rank + 1) cs p1 q
      → Adds rank (c ∷ cs) p q
  unfolding included_of
  Adds-Step rank c cs p p1 q (skipped cache a e just about exact) r = record {
    audits = a ∷ r.audits;
    appended = r.appended ∙ append-cons p.audits a r.audits;
    taken_ids = r.taken_ids ∙ (rw e);
    accounted = (about, (_, _, just, r.accounted));
    packed = r.packed;
  }
  Adds-Step rank c cs p p1 q (taken b total few within measured just) r = record {
    audits = _ ∷ r.audits;
    appended = r.appended ∙ append-cons p.audits _ r.audits;
    taken_ids = r.taken_ids ∙ append-cons p.included_ids c.memory_id (included_of r.audits);
    accounted = (
      (refl, refl),
      (
        _,
        _,
        just,
        subst
            (λ n.
              IsRun dumps counter (rank + 1) n (text_append p.memory_text b.text) cs r.audits
                (length q.included_ids) q.memory_text)
            (length-append_one p.included_ids c.memory_id ∙ ground arith) r.accounted,
      ),
    );
    packed = r.packed;
  }

  pub pack_candidates-Adds :
      (rank : ℕ) (cs : List Candidate) (p : Packing) {q : Packing}
      → IsPacked p
      → pack_candidates dumps counter rank cs p ≡ ok q
      → Adds rank cs p q
  unfolding pack_candidates included_of
  pack_candidates-Adds rank [] p k h = subst (Adds rank [] p) (ok_inj h) (record {
    audits = [];
    appended = append_none p.audits;
    taken_ids = append_none p.included_ids;
    accounted = (refl, refl);
    packed = k;
  })
  pack_candidates-Adds rank (c ∷ cs) p {q} k h =
      bind_inv (pack_candidate dumps counter rank c p) _ h λ p1 e1 h1.
        let step = pack_candidate-Step dumps counter rank c p k.exact_cache e1 in
        Adds-Step rank c cs p p1 q step
          (pack_candidates-Adds (rank + 1) cs p1 (Step-IsPacked rank c p p1 k step) h1)

  -- A task state that was counted: its text's exact count, within the budget.
  pub count_state-Within :
      (state : Json) {s : String × Count}
      → count_state dumps counter state ≡ ok s
      → (counter s.0 ≡ counted s.1.tokens)
        × IsExact counter s.1.cache
        × (leb s.1.tokens state_token_budget ≡ true)
  unfolding count_state
  count_state-Within state h = bind_inv (canonical_text dumps state) _ h λ text e1 h1.
      let state_text = text_append "## CURRENT TYPED TASK STATE\n" (text_append text "\n") in
      bind_inv (count counter [] state_text) _ h1 λ n e2 h2.
        let measured = count-IsCounted counter [] state_text tt e2 in
        let (t, h3) =
          guard-eq-ok (leb n.tokens state_token_budget)
            (contract_error "current task state requires more tokens than its budget") _ h2 in
        subst
          (λ s.
            (counter s.0 ≡ counted s.1.tokens)
            × IsExact counter s.1.cache
            × (leb s.1.tokens state_token_budget ≡ true))
          (ok_inj h3) (measured.0, measured.1, t)

  pub start-IsPacked :
      (cache : Dict ℕ) {p : Packing}
      → IsExact counter cache
      → start counter cache ≡ ok p
      → IsPacked p × (p.audits ≡ []) × (p.included_ids ≡ []) × (p.memory_text ≡ memory_header)
  unfolding start
  start-IsPacked cache exact h = bind_inv (count counter cache memory_header) _ h λ n e1 h1.
      let measured = count-IsCounted counter cache memory_header exact e1 in
      let (t, h2) =
        guard-eq-ok (leb n.tokens memory_token_budget_size)
          (contract_error "memory header requires more tokens than its budget") _ h1 in
      subst
        (λ p.
          IsPacked p × (p.audits ≡ []) × (p.included_ids ≡ []) × (p.memory_text ≡ memory_header))
        (ok_inj h2)
        (
          record { few = refl; within = t; exact_text = measured.0; exact_cache = measured.1 },
          refl,
          refl,
          refl,
        )
