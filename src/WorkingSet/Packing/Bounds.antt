-- ===== src/WorkingSet/Packing/Bounds.antt =====
-- What `pack_working_set` of src/agent_continuity/working_set.py keeps: budgets, exact counts, and an
-- audit that accounts for each candidate.
use local_ai_coding_agent.Common.{
  ℕ, String, List, [], ◌++◌, Option, true, ok, ok_inj, bind_inv, ◌≡◌, refl, sym, subst, ap, ◌∙◌,
  Json, leb, length, text_append,
}
use local_ai_coding_agent.WorkingSet.Types.{
  Candidate, CandidateAudit, WorkingSet, state_token_budget, memory_token_budget_size, memory_limit,
}
use local_ai_coding_agent.WorkingSet.Ledger.{Counted, counted, count, count-IsCounted}
use local_ai_coding_agent.WorkingSet.Packing.{
  Packing, pack_candidates, count_state, start, memory_header, pack_working_set,
}
use local_ai_coding_agent.WorkingSet.Packing.Reasons.{IsRun}
use local_ai_coding_agent.WorkingSet.Packing.Loop.{
  included_of, pack_candidates-Adds, count_state-Within, start-IsPacked,
}

-- A working set whose parts are within their budgets, and whose counts are the counter's own: of
-- the state text, of the memory text, and of the two with a line break between.
pub record IsBounded (counter : String → Counted) (w : WorkingSet) : Type 0 where
  pub state_text : String
  pub memory_text : String
  pub texts : w.model_text ≡ text_append state_text (text_append "\n" memory_text)
  pub exact_state : counter state_text ≡ counted w.state_tokens
  pub exact_memory : counter memory_text ≡ counted w.memory_tokens
  pub exact_total : counter w.model_text ≡ counted w.total_tokens
  pub state_within : leb w.state_tokens state_token_budget ≡ true
  pub memory_within : leb w.memory_tokens memory_token_budget_size ≡ true
  pub few_memories : leb (length w.included_memory_ids) memory_limit ≡ true

-- The audits are a run over the candidates from no memory and the header of the memory text, up to
-- the included memories and the memory text of the model text; and the included memories are those
-- of the audits that include theirs.
pub record IsAudited (dumps : Json → Option String) (counter : String → Counted)
    (candidates : List Candidate) (w : WorkingSet) : Type 0 where
  pub state_text : String
  pub memory_text : String
  pub texts : w.model_text ≡ text_append state_text (text_append "\n" memory_text)
  pub accounted :
      IsRun dumps counter 1 0 "## RETRIEVED LONG-TERM MEMORY\n" candidates w.candidates
        (length w.included_memory_ids)
        memory_text
  pub taken : w.included_memory_ids ≡ included_of w.candidates

from_start :
    (dumps : Json → Option String) (counter : String → Counted) (cs : List Candidate) (p : Packing)
    (xs : List CandidateAudit) (n : ℕ) (text : String)
    → p.included_ids ≡ []
    → p.memory_text ≡ memory_header
    → IsRun dumps counter 1 (length p.included_ids) p.memory_text cs xs n text
    → IsRun dumps counter 1 0 memory_header cs xs n text
from_start dumps counter cs p xs n text e t r =
    subst (λ h. IsRun dumps counter 1 0 h cs xs n text) t
      (subst (λ ids. IsRun dumps counter 1 (length ids) p.memory_text cs xs n text) e r)

-- A run of `pack_working_set` that returned: its parts, and what is known of them.
packed_parts {ℓ} :
    {C : Type ℓ} (dumps : Json → Option String) (counter : String → Counted) (state : Json)
    (cs : List Candidate) {w : WorkingSet}
    → pack_working_set dumps counter state cs ≡ ok w
    → (IsBounded counter w → IsAudited dumps counter cs w → C)
    → C
unfolding pack_working_set
packed_parts dumps counter state cs {w} h k =
    bind_inv (count_state dumps counter state) _ h λ s e1 h1.
      let (es, xs, ws) = count_state-Within dumps counter state e1 in
      bind_inv (start counter s.1.cache) _ h1 λ p e2 h2.
        let (kp, ap0, ip0, tp0) = start-IsPacked dumps counter s.1.cache xs e2 in
        bind_inv (pack_candidates dumps counter 1 cs p) _ h2 λ q e3 h3.
          let r = pack_candidates-Adds dumps counter 1 cs p kp e3 in
          let model_text = text_append s.0 (text_append "\n" q.memory_text) in
          bind_inv (count counter q.cache model_text) _ h3 λ total e4 h4.
            let measured = count-IsCounted counter q.cache model_text r.packed.exact_cache e4 in
            let same : r.audits ≡ q.audits = sym (r.appended ∙ ap (λ xs. xs ++ r.audits) ap0) in
            k
              (subst (IsBounded counter) (ok_inj h4) (record {
                state_text = s.0;
                memory_text = q.memory_text;
                texts = refl;
                exact_state = es;
                exact_memory = r.packed.exact_text;
                exact_total = measured.0;
                state_within = ws;
                memory_within = r.packed.within;
                few_memories = r.packed.few;
              }))
              (subst (IsAudited dumps counter cs) (ok_inj h4) (record {
                state_text = s.0;
                memory_text = q.memory_text;
                texts = refl;
                accounted =
                    from_start dumps counter cs p q.audits (length q.included_ids) q.memory_text ip0
                      tp0
                      (subst
                        (λ xs.
                          IsRun dumps counter 1 (length p.included_ids) p.memory_text cs xs
                            (length q.included_ids) q.memory_text)
                        same r.accounted);
                taken =
                    r.taken_ids ∙ ap (λ xs. xs ++ included_of r.audits) ip0 ∙ ap included_of same;
              }))

-- A working set that is returned keeps its budgets: at most 2048 tokens of state, 4096 of memory
-- and 8 memories, and the three counts are exact for the texts that the model receives.
pub pack_working_set-IsBounded :
    (dumps : Json → Option String) (counter : String → Counted) (state : Json)
    (candidates : List Candidate) {w : WorkingSet}
    → pack_working_set dumps counter state candidates ≡ ok w
    → IsBounded counter w
pack_working_set-IsBounded dumps counter state cs h =
    packed_parts dumps counter state cs h (λ b _. b)

-- A working set that is returned accounts for every candidate, by one audit each, in order, whose
-- reason holds: missing_provenance of a candidate without evidence or source event; max_memories
-- behind 8 included ones; per_memory_token_cap when its full and its compact text count over 512
-- tokens; memory_token_budget when the memory text with its text counts over 4096; and otherwise it
-- is included, and the memory text goes on with its text. The included memories are those.
pub pack_working_set-IsAudited :
    (dumps : Json → Option String) (counter : String → Counted) (state : Json)
    (candidates : List Candidate) {w : WorkingSet}
    → pack_working_set dumps counter state candidates ≡ ok w
    → IsAudited dumps counter candidates w
pack_working_set-IsAudited dumps counter state cs h =
    packed_parts dumps counter state cs h (λ _ a. a)
