-- ===== src/Compaction/Preserved/Range.antt =====
-- What `_check_source_range` of src/agent_continuity/compaction.py establishes when it reports nothing.
use local_ai_coding_agent.Common.{
  String, [], Option, none, some, Result, ok, err, ok_inj, contract_error, manifest_error,
  store_error, request_error, key_error, type_error, ◌≡◌, ap, eq_iff, Bool-cases, inl, inr, ◌==◌,
  arith,
}
use local_ai_coding_agent.Compaction.Types.{TaskState, SourceRange}
use local_ai_coding_agent.Compaction.References.{
  Answer, answered, failed, Resolver, event_issues, frozen_issues, check_range, through_issues,
  range_issues, range_outcome, check_source_range,
}
use local_ai_coding_agent.Compaction.Preserved.Fields.{append_nil}
use local_ai_coding_agent.Compaction.Preserved.Citations.{Exists, event_issues_nil}

frozen_issues_nil :
    (label id expected : String) (a : Answer (Option String))
    → frozen_issues label id expected a ≡ []
    → a ≡ answered (some expected)
unfolding frozen_issues
frozen_issues_nil label id expected (failed reason) h = absurd (cc)
frozen_issues_nil label id expected (answered none) h = absurd (cc)
frozen_issues_nil label id expected (answered (some actual)) h =
    elim (Bool-cases (actual == expected)) [
      | inl e ↦ ap (λ s. answered (some s)) ((eq_iff actual expected).0 e)
      | inr e ↦ absurd (ground arith)
    ]

module _ (r : Resolver) where
  -- The frozen range's first and last events have their frozen hashes, the retained tail exists, and
  -- the state reaches through the last event.
  pub record IsFrozen (s : TaskState) (range : SourceRange) : Type 0 where
    pub first :
        r.event_record_sha256 range.first_event_id ≡ answered (some range.first_record_sha256)
    pub last : r.event_record_sha256 range.last_event_id ≡ answered (some range.last_record_sha256)
    pub tail : Exists (r.event_record_sha256 range.retained_tail_event_id)
    pub through : s.through_event_id ≡ range.last_event_id

  through_issues_nil :
      (s : TaskState) (range : SourceRange)
      → through_issues s range ≡ []
      → s.through_event_id ≡ range.last_event_id
  unfolding through_issues
  through_issues_nil s range h = elim (Bool-cases (s.through_event_id == range.last_event_id)) [
    | inl e ↦ (eq_iff s.through_event_id range.last_event_id).0 e
    | inr e ↦ absurd (ground arith)
  ]

  range_issues-IsFrozen :
      (s : TaskState) (range : SourceRange) → range_issues r s range ≡ [] → IsFrozen s range
  unfolding range_issues
  range_issues-IsFrozen s range h =
      let (a, h1) =
        append_nil
          (frozen_issues "first" range.first_event_id range.first_record_sha256
            (r.event_record_sha256 range.first_event_id))
          _ h in
      let (b, h2) =
        append_nil
          (frozen_issues "last" range.last_event_id range.last_record_sha256
            (r.event_record_sha256 range.last_event_id))
          _ h1 in
      let (c, d) =
        append_nil
          (event_issues "source_range.retained_tail_event_id" range.retained_tail_event_id
            (r.event_record_sha256 range.retained_tail_event_id))
          _ h2 in
      record {
        first =
            frozen_issues_nil "first" range.first_event_id range.first_record_sha256
              (r.event_record_sha256 range.first_event_id) a;
        last =
            frozen_issues_nil "last" range.last_event_id range.last_record_sha256
              (r.event_record_sha256 range.last_event_id) b;
        tail =
            event_issues_nil "source_range.retained_tail_event_id" range.retained_tail_event_id
              (r.event_record_sha256 range.retained_tail_event_id) c;
        through = through_issues_nil s range d;
      }

  range_outcome-IsFrozen :
      (s : TaskState) (range : SourceRange) (o : Result (Unit {0}))
      → range_outcome r s range o ≡ ok []
      → IsFrozen s range
  unfolding range_outcome
  range_outcome-IsFrozen s range (ok done) h = range_issues-IsFrozen s range (ok_inj h)
  range_outcome-IsFrozen s range (err (contract_error m)) h = absurd (cc)
  range_outcome-IsFrozen s range (err (manifest_error m)) h = absurd (cc)
  range_outcome-IsFrozen s range (err (store_error m)) h = absurd (cc)
  range_outcome-IsFrozen s range (err (request_error m)) h = absurd (cc)
  range_outcome-IsFrozen s range (err key_error) h = absurd (cc)
  range_outcome-IsFrozen s range (err type_error) h = absurd (cc)

  pub check_source_range-IsFrozen :
      (s : TaskState) (range : SourceRange)
      → check_source_range r s range ≡ ok []
      → IsFrozen s range
  unfolding check_source_range
  check_source_range-IsFrozen s range h = range_outcome-IsFrozen s range (check_range range) h
