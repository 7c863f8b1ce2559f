-- ===== src/WorkingSet/Packing/Totality.antt =====
-- When the packing of src/agent_continuity/working_set.py returns a working set.
use local_ai_coding_agent.Common.{
  ℕ, ◌+◌, String, List, [], ◌∷◌, map, Option, none, some, Bool, true, false, Result, Error, ok,
  guard, contract_error, ◌>>◌, ◌≡◌, refl, sym, subst, ◌∙◌, Dict, Json, ltb, leb, length, All,
  is_none, if◌then◌else◌, text_append, Succeeds, Succeeds-bind, Succeeds-then, Succeeds-if,
  required,
}
use local_ai_coding_agent.WorkingSet.Types.{
  Candidate, Representation, full, compact, per_memory_cap, memory_token_budget_size, memory_limit,
}
use local_ai_coding_agent.WorkingSet.Ledger.{
  Counted, counted, count, count_total, IsExact, count-IsCounted,
}
use local_ai_coding_agent.WorkingSet.Blocks.{
  provenance, truthy_texts, compact_source_ids, compact_value, canonical_text, block_value,
  memory_block,
}
use local_ai_coding_agent.WorkingSet.Packing.Loop.{count_state-Within}
use local_ai_coding_agent.WorkingSet.Packing.{
  Packing, is_unattributed, render, fit_block, propose, weigh, pack_candidate, pack_candidates,
  count_state, memory_header, start, pack_working_set,
}

-- A test whose branches both return.
Succeeds-either {ℓ} :
    {A : Type ℓ} (t : Bool) (x y : Result A)
    → Succeeds x
    → Succeeds y
    → Succeeds (if t then x else y)
Succeeds-either t x y s r = Succeeds-if t x y (λ _. s) (λ _. r)

Succeeds-guard {ℓ} :
    {A : Type ℓ} (t : Bool) (e : Error) (k : Result A)
    → t ≡ true
    → Succeeds k
    → Succeeds (guard t e >> k)
Succeeds-guard true e k h s = s
Succeeds-guard false e k h s = absurd (cc)

Succeeds-required {ℓ} :
    {A : Type ℓ} (o : Option A) (e : Error) {a : A} → o ≡ some a → Succeeds (required o e)
Succeeds-required (some a) e h = (a, refl)
Succeeds-required none e h = absurd (cc)

-- The candidate names its source event, as the store's schema demands of each memory.
abbrev pub HasSource : Candidate → Type 0
HasSource c = is_none c.source_event_id ≡ false

-- The JSON encoder writes every value, and the token counter counts every text.
abbrev pub Encodes : (Json → Option String) → Type 0
Encodes dumps = (v : Json) → (s : String) × (dumps v ≡ some s)

abbrev pub Counts : (String → Counted) → Type 0
Counts counter = (t : String) → (n : ℕ) × (counter t ≡ counted n)

compact_value_total : (c : Candidate) → HasSource c → Succeeds (compact_value c)
unfolding compact_value compact_source_ids
compact_value_total c s =
    Succeeds-then
      (compact_source_ids c.source_event_id
        (truthy_texts (map (λ e. e.source_event_id) c.evidence)))
      _ (ids c.source_event_id (truthy_texts (map (λ e. e.source_event_id) c.evidence)) s)
      (λ ids. (_, refl))
  where
    ids :
        (o : Option String) (ss : List String)
        → is_none o ≡ false
        → Succeeds (compact_source_ids o ss)
    ids (some i) ss h = (_, refl)
    ids none ss h = absurd (cc)

counted_inj : {m n : ℕ} → counted m ≡ counted n → m ≡ n
counted_inj h = cc

module _ (dumps : Json → Option String) (counter : String → Counted) (encodes : Encodes dumps)
    (counts : Counts counter) where
  counts_all : (cache : Dict ℕ) (t : String) → Succeeds (count counter cache t)
  counts_all cache t = count_total counter cache t (counts t).1

  memory_block_total :
      (c : Candidate) (r : Representation) → HasSource c → Succeeds (memory_block dumps c r)
  unfolding memory_block block_value canonical_text
  memory_block_total c r s = Succeeds-then (block_value dumps c r) _ (value r) λ v.
      Succeeds-then (required (dumps v) (contract_error "working-set value is not canonical JSON"))
        _ (Succeeds-required (dumps v) _ (encodes v).1) λ text. (_, refl)
    where
      value : (r : Representation) → Succeeds (block_value dumps c r)
      value full = (_, refl)
      value compact = compact_value_total c s

  render_total :
      (c : Candidate) (cache : Dict ℕ) (r : Representation)
      → HasSource c
      → Succeeds (render dumps counter c cache r)
  unfolding render
  render_total c cache r s =
      Succeeds-then (memory_block dumps c r) _ (memory_block_total c r s)
        λ text. Succeeds-then (count counter cache text) _ (counts_all cache text) λ n. (_, refl)

  fit_block_total :
      (c : Candidate) (cache : Dict ℕ) → HasSource c → Succeeds (fit_block dumps counter c cache)
  unfolding fit_block
  fit_block_total c cache s =
      Succeeds-then (render dumps counter c cache full) _ (render_total c cache full s) λ b.
        Succeeds-either (ltb per_memory_cap b.tokens) (render dumps counter c b.cache compact)
          (ok b) (render_total c b.cache compact s) (_, refl)

  pack_candidate_total :
      (rank : ℕ) (c : Candidate) (p : Packing)
      → HasSource c
      → Succeeds (pack_candidate dumps counter rank c p)
  unfolding pack_candidate weigh propose
  pack_candidate_total rank c p s =
      Succeeds-either (is_unattributed (provenance c)) _ _ (_, refl)
        (Succeeds-either (leb memory_limit (length p.included_ids)) _ _ (_, refl)
          (Succeeds-then (fit_block dumps counter c p.cache) _ (fit_block_total c p.cache s) λ b.
            Succeeds-either (ltb per_memory_cap b.tokens) _ _ (_, refl)
              (Succeeds-then (count counter b.cache (text_append p.memory_text b.text)) _
                (counts_all b.cache (text_append p.memory_text b.text))
                λ total.
                  Succeeds-either (ltb memory_token_budget_size total.tokens) _ _ (_, refl)
                    (_, refl))))

  pack_candidates_total :
      (rank : ℕ) (cs : List Candidate) (p : Packing)
      → All HasSource cs
      → Succeeds (pack_candidates dumps counter rank cs p)
  unfolding pack_candidates
  pack_candidates_total rank [] p s = (_, refl)
  pack_candidates_total rank (c ∷ cs) p s =
      Succeeds-then (pack_candidate dumps counter rank c p) _ (pack_candidate_total rank c p s.0)
        λ q. pack_candidates_total (rank + 1) cs q s.1

  start_total :
      (cache : Dict ℕ) {n : ℕ}
      → IsExact counter cache
      → counter memory_header ≡ counted n
      → leb n memory_token_budget_size ≡ true
      → Succeeds (start counter cache)
  unfolding start
  start_total cache {n} exact e fits =
      Succeeds-bind (count counter cache memory_header) _ (counts_all cache memory_header) λ c h.
        let measured = count-IsCounted counter cache memory_header exact h in
        let same : leb c.tokens memory_token_budget_size ≡ true =
          subst (λ k. leb k memory_token_budget_size ≡ true) (counted_inj (sym e ∙ measured.0))
            fits in
        Succeeds-guard (leb c.tokens memory_token_budget_size) _ _ same (_, refl)

  -- With an encoder that writes every value and a counter that counts every text, a task state and
  -- a header that fit their budgets are packed with any candidates that name their source events:
  -- no candidate makes the packing fail.
  pub pack_working_set_total :
      (state : Json) (candidates : List Candidate) {n : ℕ}
      → Succeeds (count_state dumps counter state)
      → counter memory_header ≡ counted n
      → leb n memory_token_budget_size ≡ true
      → All HasSource candidates
      → Succeeds (pack_working_set dumps counter state candidates)
  unfolding pack_working_set
  pack_working_set_total state cs fits e header s =
      Succeeds-bind (count_state dumps counter state) _ fits λ st h.
        let (_, exact, _) = count_state-Within dumps counter state h in
        Succeeds-then (start counter st.1.cache) _ (start_total st.1.cache exact e header) λ p.
          Succeeds-then (pack_candidates dumps counter 1 cs p) _ (pack_candidates_total 1 cs p s)
            λ q.
              let model_text = text_append st.0 (text_append "\n" q.memory_text) in
              Succeeds-then (count counter q.cache model_text) _ (counts_all q.cache model_text)
                (λ total. (_, refl))
