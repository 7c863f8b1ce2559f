-- ===== src/Compaction/References.antt =====
-- `_check_references` and `_check_source_range` of src/agent_continuity/compaction.py. The resolver is
-- a parameter: what it answers, or the text of the exception that it raises.
use local_ai_coding_agent.Common.{
  ℕ, ◌+◌, Bool, true, false, String, List, [], ◌∷◌, ◌++◌, Option, none, some, Result, ok, err,
  contract_error, ◌>>=◌, str, concat, decimal, ◌==◌, if◌then◌else◌,
}
use local_ai_coding_agent.Compaction.Types.{TaskState, Artifact, SourceRange, ValidationIssue}
use local_ai_coding_agent.Compaction.Values.{state_identifier, state_sha256}

pub data Answer {ℓ} (A : Type ℓ) : Type ℓ where
  answered : A → Answer A
  failed : String → Answer A

-- `CitationResolver`
pub record Resolver : Type 0 where
  pub event_record_sha256 : String → Answer (Option String)
  pub evidence_exists : String → Answer Bool
  pub artifact_sha256 : String → Answer (Option String)

-- `ValidationIssue(code, path, message)`, the message in parts.
abbrev pub issue : String → String → List String → ValidationIssue
issue code path message = record { code = code; path = path; message = concat message }

-- `for index, item in enumerate(items)`, each item giving some values.
unfoldable pub each_indexed {ℓ κ} :
    {A : Type ℓ} {B : Type κ} → (ℕ → A → List B) → ℕ → List A → List B
each_indexed f index [] = []
each_indexed f index (x ∷ xs) = f index x ++ each_indexed f (index + 1) xs

abbrev pub index_text : String → ℕ → String → List String
index_text field index rest = field ∷ "[" ∷ decimal index ∷ rest ∷ []

-- A citation: where it stands, and the identifier.
abbrev pub Citation : Type 0
Citation = String × String

-- The citations of a list of identifiers in a field of an item.
abbrev pub cited_ids : String → String → ℕ → List String → List Citation
cited_ids field name index ids =
    each_indexed
      (λ sub id.
        (concat (field ∷ "[" ∷ decimal index ∷ "]." ∷ name ∷ "[" ∷ decimal sub ∷ "]" ∷ []), id)
        ∷ [])
      0 ids

unfoldable pub event_paths : TaskState → List Citation
unfolding each_indexed
event_paths s =
    ("objective.source_event_id", s.objective.source_event_id)
    ∷ ("through_event_id", s.through_event_id)
    ∷ (each_indexed
          (λ i c. (concat (index_text "constraints" i "].source_event_id"), c.source_event_id) ∷ [])
          0 s.constraints
        ++ each_indexed (λ i d. cited_ids "decisions" "source_event_ids" i d.source_event_ids) 0
            s.decisions)

unfoldable pub evidence_paths : TaskState → List Citation
unfolding each_indexed
evidence_paths s =
    each_indexed (λ i x. cited_ids "success_criteria" "evidence_ids" i x.evidence_ids) 0
      s.success_criteria
    ++ (each_indexed (λ i x. cited_ids "completed" "evidence_ids" i x.evidence_ids) 0 s.completed
        ++ (each_indexed (λ i x. cited_ids "blockers" "evidence_ids" i x.evidence_ids) 0 s.blockers
            ++ (each_indexed (λ i x. cited_ids "disputes" "evidence_ids" i x.evidence_ids) 0
                  s.disputes
                ++ each_indexed
                    (λ i x. (concat (index_text "artifacts" i "].evidence_id"), x.evidence_id) ∷ [])
                    0 s.artifacts)))

-- What an answer about an event adds, where no hash is expected.
unfoldable pub event_issues : String → String → Answer (Option String) → List ValidationIssue
event_issues path id (failed reason) =
    issue "resolver_error" path ("event resolver failed: " ∷ reason ∷ []) ∷ []
event_issues path id (answered none) =
    issue "missing_event" path ("event does not exist: " ∷ id ∷ []) ∷ []
event_issues path id (answered (some hash)) = []

unfoldable pub evidence_issues : String → String → Answer Bool → List ValidationIssue
evidence_issues path id (failed reason) =
    issue "resolver_error" path ("evidence resolver failed: " ∷ reason ∷ []) ∷ []
evidence_issues path id (answered false) =
    issue "missing_evidence" path ("evidence does not exist: " ∷ id ∷ []) ∷ []
evidence_issues path id (answered true) = []

unfoldable pub artifact_issues : ℕ → Artifact → Answer (Option String) → List ValidationIssue
artifact_issues index x (failed reason) =
    issue "resolver_error" (concat (index_text "artifacts" index "]"))
      ("artifact resolver failed: " ∷ reason ∷ [])
    ∷ []
artifact_issues index x (answered none) =
    issue "missing_artifact" (concat (index_text "artifacts" index "].path"))
      ("artifact cannot be observed: " ∷ x.path ∷ [])
    ∷ []
artifact_issues index x (answered (some actual)) =
    if actual == x.sha256
    then []
    else issue "stale_artifact" (concat (index_text "artifacts" index "].sha256"))
        ("recorded " ∷ x.sha256 ∷ " but observed " ∷ actual ∷ [])
      ∷ []

-- What the loop over some citations adds.
unfoldable pub each_citation :
    (Citation → List ValidationIssue) → List Citation → List ValidationIssue
each_citation f [] = []
each_citation f (c ∷ cs) = f c ++ each_citation f cs

-- The first or the last event of the range: it exists, with the frozen hash.
unfoldable pub frozen_issues :
    String → String → String → Answer (Option String) → List ValidationIssue
frozen_issues label id expected (failed reason) =
    issue "resolver_error" (concat ("source_range." ∷ label ∷ "_event_id" ∷ []))
      ("event resolver failed: " ∷ reason ∷ [])
    ∷ []
frozen_issues label id expected (answered none) =
    issue "missing_event" (concat ("source_range." ∷ label ∷ "_event_id" ∷ []))
      ("event does not exist: " ∷ id ∷ [])
    ∷ []
frozen_issues label id expected (answered (some observed)) =
    if observed == expected
    then []
    else issue "source_hash_mismatch" (concat ("source_range." ∷ label ∷ "_record_sha256" ∷ []))
        ("recorded " ∷ expected ∷ " but observed " ∷ observed ∷ [])
      ∷ []

-- The identifiers and hashes of the range are well formed.
unfoldable pub check_range : SourceRange → Result (Unit {0})
check_range range = do
  first_id ← state_identifier (str range.first_event_id) "source_range.first_event_id"
  last_id ← state_identifier (str range.last_event_id) "source_range.last_event_id"
  tail_id ←
      state_identifier (str range.retained_tail_event_id) "source_range.retained_tail_event_id"
  first_hash ← state_sha256 (str range.first_record_sha256) "source_range.first_record_sha256"
  last_hash ← state_sha256 (str range.last_record_sha256) "source_range.last_record_sha256"
  ok tt

unfoldable pub through_issues : TaskState → SourceRange → List ValidationIssue
through_issues s range =
    if s.through_event_id == range.last_event_id
    then []
    else issue "stale_through_event" "through_event_id"
        ("candidate must advance through the frozen source range's last event" ∷ [])
      ∷ []

module _ (r : Resolver) where
  -- `_check_references`
  unfoldable pub check_references_of : TaskState → List ValidationIssue
  unfolding each_indexed each_citation
  check_references_of s =
      each_citation (λ c. event_issues c.0 c.1 (r.event_record_sha256 c.1)) (event_paths s)
      ++ (each_citation (λ c. evidence_issues c.0 c.1 (r.evidence_exists c.1)) (evidence_paths s)
          ++ each_indexed (λ i x. artifact_issues i x (r.artifact_sha256 x.path)) 0 s.artifacts)

  unfoldable pub range_issues : TaskState → SourceRange → List ValidationIssue
  unfolding frozen_issues through_issues
  range_issues s range =
      frozen_issues "first" range.first_event_id range.first_record_sha256
        (r.event_record_sha256 range.first_event_id)
      ++ (frozen_issues "last" range.last_event_id range.last_record_sha256
            (r.event_record_sha256 range.last_event_id)
          ++ (event_issues "source_range.retained_tail_event_id" range.retained_tail_event_id
                (r.event_record_sha256 range.retained_tail_event_id)
              ++ through_issues s range))

  unfoldable pub range_outcome :
      TaskState → SourceRange → Result (Unit {0}) → Result (List ValidationIssue)
  range_outcome s range (ok done) = ok (range_issues s range)
  range_outcome s range (err (contract_error message)) =
      ok (issue "invalid_source_range" "source_range" (message ∷ []) ∷ [])
  range_outcome s range (err other) = err other

  -- `_check_source_range`; only a `TaskStateError` is caught.
  unfoldable pub check_source_range : TaskState → SourceRange → Result (List ValidationIssue)
  check_source_range s range = range_outcome s range (check_range range)
