-- ===== src/WorkingSet/Blocks.antt =====
-- `_provenance`, `_memory_block` and `_canonical_text` of src/agent_continuity/working_set.py. The
-- JSON encoder is a parameter: the canonical text of a value, when it has one.
use local_ai_coding_agent.Common.{
  String, List, [], ◌∷◌, ◌++◌, map, Option, none, some, Result, ok, err, contract_error, type_error,
  required, ◌>>=◌, Json, Items, Fields, null, str, arr, obj, nil, cons, end, field, str_items,
  optional_str, sorted_set, ◌==◌, if◌then◌else◌, text_append,
}
use local_ai_coding_agent.WorkingSet.Types.{
  EvidenceItem, Candidate, Provenance, Representation, full, compact,
}

-- A set of the texts that a comprehension keeps: `None` is dropped, and the empty text is false.
unfoldable pub truthy_texts : List (Option String) → List String
truthy_texts [] = []
truthy_texts (none ∷ xs) = truthy_texts xs
truthy_texts (some s ∷ xs) = let rest = truthy_texts xs in if s == "" then rest else s ∷ rest

-- `{value} - {None}`
abbrev pub present : Option String → List String
present none = []
present (some s) = s ∷ []

-- The columns of an evidence item that attribute it, before further fields.
abbrev pub attribution : EvidenceItem → Fields → Fields
attribution e rest = field "evidence_id" (optional_str e.evidence_id) (
    field "source_kind" (optional_str e.source_kind) (
      field "source_locator" (optional_str e.source_locator) (
        field "source_event_id" (optional_str e.source_event_id) (
          field "source_sha256" (optional_str e.source_sha256) (
            field "observed_at" (optional_str e.observed_at)
              (field "authority" (optional_str e.authority) rest))))))

-- `_provenance`
unfoldable pub provenance : Candidate → Provenance
unfolding truthy_texts sorted_set
provenance c = record {
  source_event_ids =
      sorted_set
        (present c.source_event_id ++ truthy_texts (map (λ e. e.source_event_id) c.evidence));
  evidence = map (λ e. obj (attribution e end)) c.evidence;
}

abbrev pub json_items : List Json → Items
json_items [] = nil
json_items (v ∷ vs) = cons v (json_items vs)

abbrev pub claim : Candidate → Json
claim c =
    obj (field "subject" c.subject (field "predicate" c.predicate (field "object" c.object end)))

-- `sorted({source_event_id, *others})`: `None` and a text cannot be compared.
unfoldable pub compact_source_ids : Option String → List String → Result Json
unfolding sorted_set
compact_source_ids none [] = ok (arr (cons null nil))
compact_source_ids none (s ∷ ss) = err type_error
compact_source_ids (some i) ss = ok (arr (str_items (sorted_set (i ∷ ss))))

-- `sorted` of the set of a column's texts.
abbrev pub column : (EvidenceItem → Option String) → List EvidenceItem → Json
column f es = arr (str_items (sorted_set (truthy_texts (map f es))))

unfoldable pub compact_value : Candidate → Result Json
unfolding compact_source_ids truthy_texts sorted_set
compact_value c = do
  ids ←
      compact_source_ids c.source_event_id (truthy_texts (map (λ e. e.source_event_id) c.evidence))
  let hashes = column (λ e. e.source_sha256) c.evidence
  let authorities = column (λ e. e.authority) c.evidence
  ok (
      obj (
        field "memory_id" (str c.memory_id) (
          field "claim" (claim c) (
            field "verification_status" c.verification_status (
              field "provenance"
                (obj (
                  field "source_event_ids" ids
                    (field "source_sha256" hashes (field "authorities" authorities end))))
                end)))))

abbrev pub temporal : Candidate → Json
temporal c = obj (
    field "status" c.status (
      field "valid_from" c.valid_from (
        field "valid_to" c.valid_to
          (field "observed_at" c.observed_at (field "recorded_at" c.recorded_at end)))))

abbrev pub full_evidence : EvidenceItem → Json
full_evidence e = obj (attribution e (field "excerpt" (optional_str e.excerpt) end))

abbrev pub full_value : Candidate → Json
full_value c = obj (
    field "memory_id" (str c.memory_id) (
      field "kind" c.kind (
        field "claim" (claim c) (
          field "temporal" (temporal c) (
            field "verification_status" c.verification_status (
              field "provenance"
                (obj (
                  field "source_event_id" (optional_str c.source_event_id)
                    (field "evidence" (arr (json_items (map full_evidence c.evidence))) end)))
                end))))))

module _ (dumps : Json → Option String) where
  -- `_canonical_text`
  unfoldable pub canonical_text : Json → Result String
  canonical_text v = required (dumps v) (contract_error "working-set value is not canonical JSON")

  unfoldable pub block_value : Candidate → Representation → Result Json
  unfolding compact_value
  block_value c full = ok (full_value c)
  block_value c compact = compact_value c

  -- `_memory_block`
  unfoldable pub memory_block : Candidate → Representation → Result String
  unfolding canonical_text block_value text_append
  memory_block c r = do
    v ← block_value c r
    text ← canonical_text v
    ok (text_append "### MEMORY\n" (text_append text "\n"))
