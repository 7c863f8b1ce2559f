-- ===== src/WorkingSet/Packing/Steps.antt =====
-- A candidate's step in the loop of `pack_working_set` (src/agent_continuity/working_set.py), as a
-- relation between the loop's variables before and after it.
use local_ai_coding_agent.Common.{
  ℕ, String, Option, true, false, ok, ok_inj, bind_inv, if_inv, ◌≡◌, refl, sym, suc, subst, arith,
  Dict, Json, ltb, leb, length, text_append,
}
use local_ai_coding_agent.WorkingSet.Types.{
  Candidate, Representation, full, compact, excluded, included, missing_provenance, max_memories,
  memory_token_budget, was_included, CandidateAudit, memory_token_budget_size, per_memory_cap,
  memory_limit,
}
use local_ai_coding_agent.WorkingSet.Packing.Reasons.{
  IsAbout, HasNoProvenance, IsCountedBlock, IsTried, as_full, as_compact, Verdict, unattributed,
  too_many, too_long, over_budget, long-IsTried, is_unattributed-HasNoProvenance, attributed,
}
use local_ai_coding_agent.WorkingSet.Ledger.{
  Counted, Count, count, IsExact, IsCounted, count-IsCounted,
}
use local_ai_coding_agent.WorkingSet.Blocks.{provenance, memory_block}
use local_ai_coding_agent.WorkingSet.Packing.{
  Packing, Block, is_unattributed, early_audit, block_audit, total_audit, exclude, include, render,
  fit_block, propose, weigh, pack_candidate,
}

module _ (dumps : Json → Option String) (counter : String → Counted) (rank : ℕ) (c : Candidate)
    (p : Packing) where
  -- A verdict on the candidate behind the loop's variables.
  abbrev pub HasVerdict : CandidateAudit → ℕ → String → Type 0
  HasVerdict a n text = Verdict dumps counter c (length p.included_ids) p.memory_text a n text

  pub data Step : Packing → Type 0 where
    skipped :
        (cache : Dict ℕ) (a : CandidateAudit)
        → a.decision ≡ excluded
        → HasVerdict a (length p.included_ids) p.memory_text
        → IsAbout rank c a
        → IsExact counter cache
        → Step (exclude p cache a)
    taken :
        (b : Block) (total : Count)
        → leb memory_limit (length p.included_ids) ≡ false
        → leb total.tokens memory_token_budget_size ≡ true
        → IsCounted counter (text_append p.memory_text b.text) total
        → HasVerdict
            (total_audit rank c b total.tokens included was_included)
            (suc (length p.included_ids))
            (text_append p.memory_text b.text)
        → Step (
            include p c
              (text_append p.memory_text b.text)
              total
              (total_audit rank c b total.tokens included was_included))

module _ (dumps : Json → Option String) (counter : String → Counted) where
  -- A rendered block is the candidate's, with its exact count.
  render-IsBlock :
      (c : Candidate) (cache : Dict ℕ) (r : Representation) {b : Block}
      → IsExact counter cache
      → render dumps counter c cache r ≡ ok b
      → (b.representation ≡ r)
        × IsCountedBlock dumps counter c r b.text b.tokens
        × IsExact counter b.cache
  unfolding render
  render-IsBlock c cache r exact h = bind_inv (memory_block dumps c r) _ h λ text e1 h1.
      bind_inv (count counter cache text) _ h1 λ n e2 h2.
        let (is_count, exact1) = count-IsCounted counter cache text exact e2 in
        subst
          (λ b.
            (b.representation ≡ r)
            × IsCountedBlock dumps counter c r b.text b.tokens
            × IsExact counter b.cache)
          (ok_inj h2) (refl, record { is_text = e1; is_count = is_count }, exact1)

  -- A block that was tried, with its exact count.
  record IsFitted (c : Candidate) (b : Block) : Type 0 where
    tried : IsTried dumps counter c b.text b.tokens b.representation
    exact : IsExact counter b.cache

  fit_block-IsFitted :
      (c : Candidate) (cache : Dict ℕ) {b : Block}
      → IsExact counter cache
      → fit_block dumps counter c cache ≡ ok b
      → IsFitted c b
  unfolding fit_block
  fit_block-IsFitted c cache exact h = bind_inv (render dumps counter c cache full) _ h λ f e1 h1.
      let (f_full, long, exact1) = render-IsBlock c cache full exact e1 in
      if_inv (ltb per_memory_cap f.tokens) (render dumps counter c f.cache compact) (ok f) h1
        (λ t k.
          let (is_compact, short, exact2) = render-IsBlock c f.cache compact exact1 k in
          record {
            tried =
                subst (IsTried dumps counter c _ _) (sym is_compact)
                  (as_compact f.text f.tokens long t short);
            exact = exact2;
          })
        (λ t k. subst (IsFitted c) (ok_inj k) (record {
          tried =
              subst (IsTried dumps counter c f.text f.tokens) (sym f_full)
                (as_full long (ground arith));
          exact = exact1;
        }))

  module _ (rank : ℕ) (c : Candidate) (p : Packing) {q : Packing} where
    propose-Step :
        (b : Block)
        → ¬ HasNoProvenance c
        → leb memory_limit (length p.included_ids) ≡ false
        → ltb per_memory_cap b.tokens ≡ false
        → IsFitted c b
        → propose dumps counter rank c p b ≡ ok q
        → Step dumps counter rank c p q
    unfolding propose
    propose-Step b known few small fit h =
        bind_inv (count counter b.cache (text_append p.memory_text b.text)) _ h λ total e1 h1.
          let measured =
            count-IsCounted counter b.cache (text_append p.memory_text b.text) fit.exact e1 in
          if_inv (ltb memory_token_budget_size total.tokens) _ _ h1
            (λ t k. subst (Step dumps counter rank c p) (ok_inj k) (
              skipped total.cache (total_audit rank c b total.tokens excluded memory_token_budget)
                refl
                (over_budget b.text b.tokens total.tokens b.representation refl refl known
                  (ground arith) fit.tried refl refl (ground arith) measured.0 refl t)
                (refl, refl) measured.1))
            (λ t k. subst (Step dumps counter rank c p) (ok_inj k) (
              taken b total few (ground arith) measured (
                Verdict.taken b.text b.tokens total.tokens b.representation refl refl known
                  (ground arith) fit.tried refl refl (ground arith) measured.0 refl
                  (ground arith))))

    weigh-Step :
        ¬ HasNoProvenance c
        → leb memory_limit (length p.included_ids) ≡ false
        → IsExact counter p.cache
        → weigh dumps counter rank c p ≡ ok q
        → Step dumps counter rank c p q
    unfolding weigh
    weigh-Step known few exact h = bind_inv (fit_block dumps counter c p.cache) _ h λ b e1 h1.
        let fit = fit_block-IsFitted c p.cache exact e1 in
        if_inv (ltb per_memory_cap b.tokens) _ _ h1
          (λ t k. subst (Step dumps counter rank c p) (ok_inj k) (
            skipped b.cache (block_audit rank c b) refl
              (too_long b.text b.tokens refl refl known (ground arith)
                (long-IsTried dumps counter c b.text b.tokens b.representation fit.tried t) refl t)
              (refl, refl) fit.exact))
          (λ small k. propose-Step b known few small fit k)

    pub pack_candidate-Step :
        IsExact counter p.cache
        → pack_candidate dumps counter rank c p ≡ ok q
        → Step dumps counter rank c p q
    unfolding pack_candidate
    pack_candidate-Step exact h =
        if_inv (is_unattributed (provenance c)) _ _ h
          (λ t k. subst (Step dumps counter rank c p) (ok_inj k) (
            skipped p.cache (early_audit rank c missing_provenance) refl
              (unattributed refl refl (is_unattributed-HasNoProvenance c t)) (refl, refl) exact))
          (λ f k.
            let known = attributed c f in
            if_inv (leb memory_limit (length p.included_ids)) _ _ k
              (λ t l. subst (Step dumps counter rank c p) (ok_inj l) (
                skipped p.cache (early_audit rank c max_memories) refl (too_many refl refl known t)
                  (refl, refl) exact))
              (λ few l. weigh-Step known few exact l))
