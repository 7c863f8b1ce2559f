-- ===== src/WorkingSet/Packing/Reasons.antt =====
-- The reasons that an audit of `pack_working_set` in src/agent_continuity/working_set.py gives, stated
-- over the candidate, the memories that are included before it, and the memory text so far.
use local_ai_coding_agent.Common.{
  ℕ, suc, ◌+◌, String, List, [], ◌∷◌, ◌++◌, map, Option, none, some, true, false, ok, ◌≡◌, ◌⊎◌, inl,
  inr, refl, sym, ◌∙◌, ap, subst, arith, Json, ltb, leb, is_empty, sorted_set, distinct, sort,
  contains, contains-sorted_set, str_eq_self, text_append, Memᴰ, eq_iff, ◌==◌, Bool-cases, obj, end,
}
use local_ai_coding_agent.WorkingSet.Types.{
  Candidate, EvidenceItem, Representation, full, compact, excluded, included, missing_provenance,
  max_memories, per_memory_token_cap, memory_token_budget, was_included, CandidateAudit,
}
use local_ai_coding_agent.WorkingSet.Ledger.{Counted, counted}
use local_ai_coding_agent.WorkingSet.Blocks.{
  provenance, truthy_texts, present, attribution, memory_block,
}
use local_ai_coding_agent.WorkingSet.Packing.{is_unattributed}

-- No event is named as a source.
abbrev pub NamesNoEvent : Option String → Type 0
NamesNoEvent o = (o ≡ none) ⊎ (o ≡ some "")

-- A candidate without evidence, or without an event as source: neither its own nor of an evidence.
abbrev pub HasNoProvenance : Candidate → Type 0
HasNoProvenance c =
    (c.evidence ≡ [])
    ⊎ ((c.source_event_id ≡ none)
        × ((e : EvidenceItem) → Memᴰ e c.evidence → NamesNoEvent e.source_event_id))

module _ (dumps : Json → Option String) (counter : String → Counted) (c : Candidate) where
  -- The candidate's text in a representation, and its exact count.
  pub record IsCountedBlock (r : Representation) (text : String) (tokens : ℕ) : Type 0 where
    pub is_text : memory_block dumps c r ≡ ok text
    pub is_count : counter text ≡ counted tokens

  -- The block that is tried: the full one, or the compact one when the full one has over 512 tokens.
  pub data IsTried (text : String) (tokens : ℕ) : Representation → Type 0 where
    as_full : IsCountedBlock full text tokens → leb tokens 512 ≡ true → IsTried text tokens full
    as_compact :
        (long : String) (n : ℕ)
        → IsCountedBlock full long n
        → ltb 512 n ≡ true
        → IsCountedBlock compact text tokens
        → IsTried text tokens compact

  -- An audit of the candidate behind `n` included memories and the memory text `before`: the reason
  -- it gives holds, and the number and the text after it.
  pub data Verdict (n : ℕ) (before : String) (a : CandidateAudit) : ℕ → String → Type 0 where
    unattributed :
        a.reason ≡ missing_provenance
        → a.decision ≡ excluded
        → HasNoProvenance c
        → Verdict n before a n before
    too_many :
        a.reason ≡ max_memories
        → a.decision ≡ excluded
        → ¬ HasNoProvenance c
        → leb 8 n ≡ true
        → Verdict n before a n before
    too_long :
        (text : String) (tokens : ℕ)
        → a.reason ≡ per_memory_token_cap
        → a.decision ≡ excluded
        → ¬ HasNoProvenance c
        → ltb n 8 ≡ true
        → IsTried text tokens compact
        → a.candidate_tokens ≡ some tokens
        → ltb 512 tokens ≡ true
        → Verdict n before a n before
    over_budget :
        (text : String) (tokens total : ℕ) (r : Representation)
        → a.reason ≡ memory_token_budget
        → a.decision ≡ excluded
        → ¬ HasNoProvenance c
        → ltb n 8 ≡ true
        → IsTried text tokens r
        → a.representation ≡ some r
        → a.candidate_tokens ≡ some tokens
        → leb tokens 512 ≡ true
        → counter (text_append before text) ≡ counted total
        → a.memory_tokens_if_included ≡ some total
        → ltb 4096 total ≡ true
        → Verdict n before a n before
    taken :
        (text : String) (tokens total : ℕ) (r : Representation)
        → a.reason ≡ was_included
        → a.decision ≡ included
        → ¬ HasNoProvenance c
        → ltb n 8 ≡ true
        → IsTried text tokens r
        → a.representation ≡ some r
        → a.candidate_tokens ≡ some tokens
        → leb tokens 512 ≡ true
        → counter (text_append before text) ≡ counted total
        → a.memory_tokens_if_included ≡ some total
        → leb total 4096 ≡ true
        → Verdict n before a (suc n) (text_append before text)

-- The audit stands at the rank, and is about the candidate.
abbrev pub IsAbout : ℕ → Candidate → CandidateAudit → Type 0
IsAbout rank c a = (a.rank ≡ rank) × (a.memory_id ≡ c.memory_id)

module _ (dumps : Json → Option String) (counter : String → Counted) where
  -- One audit for each candidate, in the candidates' order, with ranks that count up: a verdict on
  -- the candidate behind the memories and the text that the verdicts before it included.
  abbrev pub IsRun : ℕ → ℕ → String → List Candidate → List CandidateAudit → ℕ → String → Type 0
  IsRun rank n text [] [] last whole = (n ≡ last) × (text ≡ whole)
  IsRun rank n text [] (a ∷ xs) last whole = ⊥
  IsRun rank n text (c ∷ cs) [] last whole = ⊥
  IsRun rank n text (c ∷ cs) (a ∷ xs) last whole =
      IsAbout rank c a
      × ((n1 : ℕ) × (text1 : String) × Verdict dumps counter c n text a n1 text1
          × IsRun (rank + 1) n1 text1 cs xs last whole)

-- A block of over 512 tokens that was tried is the compact one.
pub long-IsTried :
    (dumps : Json → Option String) (counter : String → Counted) (c : Candidate) (text : String)
    (tokens : ℕ) (r : Representation)
    → IsTried dumps counter c text tokens r
    → ltb 512 tokens ≡ true
    → IsTried dumps counter c text tokens compact
long-IsTried dumps counter c text tokens full (as_full k small) t = absurd (ground arith)
long-IsTried dumps counter c text tokens compact (as_compact long n k over short) t =
    as_compact long n k over short

empty_texts :
    (o : Option String) (os : List (Option String))
    → is_empty (truthy_texts (o ∷ os)) ≡ true
    → NamesNoEvent o × (is_empty (truthy_texts os) ≡ true)
unfolding truthy_texts
empty_texts none os h = (inl refl, h)
empty_texts (some s) os h = elim (Bool-cases (s == "")) [
  | inl e ↦ (inr (ap some ((eq_iff s "").0 e)), ground arith)
  | inr f ↦ absurd (ground arith)
]

texts_empty :
    (o : Option String) (os : List (Option String))
    → NamesNoEvent o
    → is_empty (truthy_texts os) ≡ true
    → is_empty (truthy_texts (o ∷ os)) ≡ true
unfolding truthy_texts
texts_empty o os (inl e) h = rw e h
texts_empty o os (inr e) h = rw e h

-- No text is kept exactly if no item names an event.
truthy_texts-empty :
    (es : List EvidenceItem)
    → is_empty (truthy_texts (map (λ e. e.source_event_id) es)) ≡ true
    → (e : EvidenceItem) → Memᴰ e es
    → NamesNoEvent e.source_event_id
truthy_texts-empty [] h e m = elim m [ ]
truthy_texts-empty (x ∷ es) h e (Memᴰ.head k) =
    subst (λ y. NamesNoEvent y.source_event_id) (sym k)
      (empty_texts x.source_event_id (map (λ e. e.source_event_id) es) h).0
truthy_texts-empty (x ∷ es) h e (Memᴰ.tail m) =
    truthy_texts-empty es (empty_texts x.source_event_id (map (λ e. e.source_event_id) es) h).1 e m

empty-truthy_texts :
    (es : List EvidenceItem)
    → ((e : EvidenceItem) → Memᴰ e es → NamesNoEvent e.source_event_id)
    → is_empty (truthy_texts (map (λ e. e.source_event_id) es)) ≡ true
unfolding truthy_texts
empty-truthy_texts [] k = refl
empty-truthy_texts (x ∷ es) k =
    texts_empty x.source_event_id (map (λ e. e.source_event_id) es) (k x (Memᴰ.head refl))
      (empty-truthy_texts es (λ e m. k e (Memᴰ.tail m)))

is_empty-sorted_set : (xs : List String) → is_empty (sorted_set xs) ≡ is_empty xs
is_empty-sorted_set [] = unfold sorted_set distinct sort in refl
is_empty-sorted_set (x ∷ xs) = go (sorted_set (x ∷ xs)) refl
  where
    there : contains x (sorted_set (x ∷ xs)) ≡ true
    there = contains-sorted_set x (x ∷ xs) ∙ unfold contains in ground (arith, str_eq_self x)

    go : (ys : List String) → sorted_set (x ∷ xs) ≡ ys → is_empty ys ≡ false
    go [] e = absurd (unfold contains in ground (arith, rw e at there))
    go (y ∷ ys) e = refl

is_empty-present :
    (o : Option String) (ts : List String)
    → is_empty (present o ++ ts) ≡ true
    → (o ≡ none) × (is_empty ts ≡ true)
is_empty-present none ts h = (refl, h)
is_empty-present (some s) ts h = absurd (cc)

abbrev events : Candidate → List String
events c = present c.source_event_id ++ truthy_texts (map (λ e. e.source_event_id) c.evidence)

-- The audit's test is that the candidate has no provenance.
pub is_unattributed-HasNoProvenance :
    (c : Candidate) → is_unattributed (provenance c) ≡ true → HasNoProvenance c
unfolding provenance
is_unattributed-HasNoProvenance c h = go c.evidence refl
  where
    go : (es : List EvidenceItem) → c.evidence ≡ es → HasNoProvenance c
    go [] e = inl e
    go (x ∷ es) e =
        let items : is_empty (map (λ x. obj (attribution x end)) c.evidence) ≡ false = rw e refl in
        let (own, others) =
          is_empty-present c.source_event_id _
            (ground (arith, h, items, is_empty-sorted_set (events c))) in
        inr (own, truthy_texts-empty c.evidence others)

pub attributed : (c : Candidate) → is_unattributed (provenance c) ≡ false → ¬ HasNoProvenance c
unfolding provenance
attributed c h (inl e) =
    let items : is_empty (map (λ x. obj (attribution x end)) c.evidence) ≡ true = rw e refl in
    ground (arith, h, items)
attributed c h (inr (own, others)) =
    let none_named : is_empty (events c) ≡ true = rw own (empty-truthy_texts c.evidence others) in
    ground (arith, h, none_named, is_empty-sorted_set (events c))
