-- ===== src/Compaction/Preserved/Citations.antt =====
-- What `_check_references` of src/agent_continuity/compaction.py establishes when it reports nothing.
use local_ai_coding_agent.Common.{
  ℕ, ◌+◌, Bool, true, false, String, List, [], ◌∷◌, ◌++◌, Option, none, some, ◌≡◌, refl, ap, sym,
  subst, All, All-Memᴰ, Memᴰ, eq_iff, Bool-cases, inl, inr, ◌==◌, arith, concat,
}
use local_ai_coding_agent.Compaction.Types.{
  TaskState, ValidationIssue, Artifact, Constraint, Decision, Criterion, CompletedItem, Blocker,
  Dispute,
}
use local_ai_coding_agent.Compaction.References.{
  Answer, index_text, answered, failed, Resolver, Citation, each_indexed, each_citation, cited_ids,
  event_paths, evidence_paths, event_issues, evidence_issues, artifact_issues, check_references_of,
}
use local_ai_coding_agent.Compaction.Preserved.Fields.{append_nil}

each_citation_nil :
    (f : Citation → List ValidationIssue) (cs : List Citation)
    → each_citation f cs ≡ []
    → All (λ c. f c ≡ []) cs
unfolding each_citation
each_citation_nil f [] h = tt
each_citation_nil f (c ∷ cs) h =
    let (a, b) = append_nil (f c) (each_citation f cs) h in (a, each_citation_nil f cs b)

-- An event that the resolver knows.
abbrev pub Exists : Answer (Option String) → Type 0
Exists a = (hash : String) × (a ≡ answered (some hash))

pub event_issues_nil :
    (path id : String) (a : Answer (Option String)) → event_issues path id a ≡ [] → Exists a
unfolding event_issues
event_issues_nil path id (failed reason) h = absurd (cc)
event_issues_nil path id (answered none) h = absurd (cc)
event_issues_nil path id (answered (some hash)) h = (hash, refl)

evidence_issues_nil :
    (path id : String) (a : Answer Bool) → evidence_issues path id a ≡ [] → a ≡ answered true
unfolding evidence_issues
evidence_issues_nil path id (failed reason) h = absurd (cc)
evidence_issues_nil path id (answered false) h = absurd (cc)
evidence_issues_nil path id (answered true) h = refl

artifact_issues_nil :
    (index : ℕ) (x : Artifact) (a : Answer (Option String))
    → artifact_issues index x a ≡ []
    → a ≡ answered (some x.sha256)
unfolding artifact_issues
artifact_issues_nil index x (failed reason) h = absurd (cc)
artifact_issues_nil index x (answered none) h = absurd (cc)
artifact_issues_nil index x (answered (some actual)) h = elim (Bool-cases (actual == x.sha256)) [
  | inl e ↦ ap (λ s. answered (some s)) ((eq_iff actual x.sha256).0 e)
  | inr e ↦ absurd (ground arith)
]

All-split {ℓ κ} :
    {A : Type ℓ} (P : A → Type κ) (xs ys : List A) → All P (xs ++ ys) → All P xs × All P ys
All-split P [] ys h = (tt, h)
All-split P (x ∷ xs) ys h = let (a, b) = All-split P xs ys h.1 in ((h.0, a), b)

-- What holds of all values that the items give holds of each item's values.
each_indexed-All {ℓ κ ν} :
    {A : Type ℓ} {B : Type κ} (P : B → Type ν) (f : ℕ → A → List B) (k : ℕ) (xs : List A)
    → All P (each_indexed f k xs)
    → (x : A) → Memᴰ x xs
    → (j : ℕ) × All P (f j x)
unfolding each_indexed
each_indexed-All P f k [] h x m = elim m [ ]
each_indexed-All P f k (y ∷ ys) h x (Memᴰ.head e) =
    (k, subst (λ z. All P (f k z)) (sym e) (All-split P (f k y) (each_indexed f (k + 1) ys) h).0)
each_indexed-All P f k (y ∷ ys) h x (Memᴰ.tail m) =
    each_indexed-All P f (k + 1) ys (All-split P (f k y) (each_indexed f (k + 1) ys) h).1 x m

cited_ids-All :
    (Q : String → Type 0) (field name : String) (k : ℕ) (ids : List String)
    → All (λ c. Q c.1) (cited_ids field name k ids)
    → (i : String) → Memᴰ i ids
    → Q i
cited_ids-All Q field name k ids h i m = (each_indexed-All (λ c. Q c.1) _ 0 ids h i m).1.0

-- The citations of some items, each of which cites a list of identifiers.
items-All {ℓ} :
    {A : Type ℓ} (Q : String → Type 0) (field name : String) (ids : A → List String) (xs : List A)
    → All (λ c. Q c.1) (each_indexed (λ i x. cited_ids field name i (ids x)) 0 xs)
    → (x : A) → Memᴰ x xs
    → (i : String) → Memᴰ i (ids x)
    → Q i
items-All Q field name ids xs h x m i n =
    let (k, a) = each_indexed-All (λ c. Q c.1) (λ i x. cited_ids field name i (ids x)) 0 xs h x m in
    cited_ids-All Q field name k (ids x) a i n

module _ (r : Resolver) where
  -- An event, and an item of evidence, that the resolver knows.
  abbrev pub KnowsEvent : String → Type 0
  KnowsEvent id = Exists (r.event_record_sha256 id)

  abbrev pub KnowsEvidence : String → Type 0
  KnowsEvidence id = r.evidence_exists id ≡ answered true

  -- Whatever an item of the state cites resolves, and every artifact has its recorded hash.
  pub record IsResolved (s : TaskState) : Type 0 where
    pub objective : KnowsEvent s.objective.source_event_id
    pub through : KnowsEvent s.through_event_id
    pub constraints : (x : Constraint) → Memᴰ x s.constraints → KnowsEvent x.source_event_id
    pub decisions :
        (x : Decision)
        → Memᴰ x s.decisions
        → (i : String) → Memᴰ i x.source_event_ids
        → KnowsEvent i
    pub criteria :
        (x : Criterion)
        → Memᴰ x s.success_criteria
        → (i : String) → Memᴰ i x.evidence_ids
        → KnowsEvidence i
    pub completed :
        (x : CompletedItem)
        → Memᴰ x s.completed
        → (i : String) → Memᴰ i x.evidence_ids
        → KnowsEvidence i
    pub blockers :
        (x : Blocker) → Memᴰ x s.blockers → (i : String) → Memᴰ i x.evidence_ids → KnowsEvidence i
    pub disputes :
        (x : Dispute) → Memᴰ x s.disputes → (i : String) → Memᴰ i x.evidence_ids → KnowsEvidence i
    pub artifact_evidence : (x : Artifact) → Memᴰ x s.artifacts → KnowsEvidence x.evidence_id
    pub artifact_hashes :
        (x : Artifact) → Memᴰ x s.artifacts → r.artifact_sha256 x.path ≡ answered (some x.sha256)

  events-Exists :
      (cs : List Citation)
      → All (λ c. event_issues c.0 c.1 (r.event_record_sha256 c.1) ≡ []) cs
      → All (λ c. Exists (r.event_record_sha256 c.1)) cs
  events-Exists [] h = tt
  events-Exists (c ∷ cs) h =
      (event_issues_nil c.0 c.1 (r.event_record_sha256 c.1) h.0, events-Exists cs h.1)

  evidence-All :
      (cs : List Citation)
      → All (λ c. evidence_issues c.0 c.1 (r.evidence_exists c.1) ≡ []) cs
      → All (λ c. r.evidence_exists c.1 ≡ answered true) cs
  evidence-All [] h = tt
  evidence-All (c ∷ cs) h =
      (evidence_issues_nil c.0 c.1 (r.evidence_exists c.1) h.0, evidence-All cs h.1)

  artifacts-All :
      (index : ℕ) (xs : List Artifact)
      → each_indexed (λ i x. artifact_issues i x (r.artifact_sha256 x.path)) index xs ≡ []
      → All (λ x. r.artifact_sha256 x.path ≡ answered (some x.sha256)) xs
  unfolding each_indexed
  artifacts-All index [] h = tt
  artifacts-All index (x ∷ xs) h =
      let (a, b) = append_nil (artifact_issues index x (r.artifact_sha256 x.path)) _ h in
      (artifact_issues_nil index x (r.artifact_sha256 x.path) a, artifacts-All (index + 1) xs b)

  pub check_references_of-IsResolved : (s : TaskState) → check_references_of r s ≡ [] → IsResolved s
  unfolding check_references_of event_paths evidence_paths
  check_references_of-IsResolved s h =
      let events = λ (c : Citation). event_issues c.0 c.1 (r.event_record_sha256 c.1) in
      let evidence = λ (c : Citation). evidence_issues c.0 c.1 (r.evidence_exists c.1) in
      let (a, h1) = append_nil (each_citation events (event_paths s)) _ h in
      let (b, h2) = append_nil (each_citation evidence (evidence_paths s)) _ h1 in
      let cited = events-Exists (event_paths s) (each_citation_nil events (event_paths s) a) in
      let proved =
        evidence-All (evidence_paths s) (each_citation_nil evidence (evidence_paths s) b) in
      let (constraints, decisions) = All-split (λ c. KnowsEvent c.1) _ _ cited.1.1 in
      let (criteria, p1) = All-split (λ c. KnowsEvidence c.1) _ _ proved in
      let (completed, p2) = All-split (λ c. KnowsEvidence c.1) _ _ p1 in
      let (blockers, p3) = All-split (λ c. KnowsEvidence c.1) _ _ p2 in
      let (disputes, artifacts) = All-split (λ c. KnowsEvidence c.1) _ _ p3 in
      let hashes = artifacts-All 0 s.artifacts h2 in
      record {
        objective = cited.0;
        through = cited.1.0;
        constraints = λ x m.
            (each_indexed-All (λ c. KnowsEvent c.1)
              (λ i c.
                (concat (index_text "constraints" i "].source_event_id"), c.source_event_id) ∷ [])
              0 s.constraints constraints x m).1.0;
        decisions =
            items-All KnowsEvent "decisions" "source_event_ids" (λ x. x.source_event_ids)
              s.decisions decisions;
        criteria =
            items-All KnowsEvidence "success_criteria" "evidence_ids" (λ x. x.evidence_ids)
              s.success_criteria criteria;
        completed =
            items-All KnowsEvidence "completed" "evidence_ids" (λ x. x.evidence_ids) s.completed
              completed;
        blockers =
            items-All KnowsEvidence "blockers" "evidence_ids" (λ x. x.evidence_ids) s.blockers
              blockers;
        disputes =
            items-All KnowsEvidence "disputes" "evidence_ids" (λ x. x.evidence_ids) s.disputes
              disputes;
        artifact_evidence = λ x m.
            (each_indexed-All (λ c. KnowsEvidence c.1)
              (λ i x. (concat (index_text "artifacts" i "].evidence_id"), x.evidence_id) ∷ []) 0
              s.artifacts artifacts x m).1.0;
        artifact_hashes = λ x m.
            All-Memᴰ (λ x. r.artifact_sha256 x.path ≡ answered (some x.sha256)) x s.artifacts hashes
              m;
      }
