-- ===== src/Compaction/Reports.antt =====
-- The dictionaries that `FrozenSourceRange`, `ValidationIssue` and `CompactionValidationResult` of
-- src/agent_continuity/compaction.py give, and the objects that `load_task_state` decodes.
use local_ai_coding_agent.Common.{
  true, not, String, List, [], ◌∷◌, ◌++◌, Result, ok, guard, ◌>>◌, Dict, Json, Fields, end, field,
  str, bool, arr, obj, str_items, optional_str, has, sort, str_leb, if◌then◌else◌,
}
use local_ai_coding_agent.Compaction.Types.{SourceRange, ValidationIssue, CompactionResult}
use local_ai_coding_agent.Compaction.Values.{state_error}
use local_ai_coding_agent.Compaction.State.{list_json}

unfoldable pub range_json : SourceRange → Json
range_json r = obj (
    field "first_event_id" (str r.first_event_id) (
      field "first_record_sha256" (str r.first_record_sha256) (
        field "last_event_id" (str r.last_event_id) (
          field "last_record_sha256" (str r.last_record_sha256)
            (field "retained_tail_event_id" (str r.retained_tail_event_id) end)))))

unfoldable pub issue_json : ValidationIssue → Json
issue_json i =
    obj
      (field "code" (str i.code) (field "path" (str i.path) (field "message" (str i.message) end)))

abbrev pub ids_fields : Dict (List String) → Fields
ids_fields [] = end
ids_fields ((k, ids) ∷ d) = field k (arr (str_items ids)) (ids_fields d)

-- `CompactionValidationResult.as_dict`
unfoldable pub result_json : CompactionResult → Json
unfolding range_json issue_json sort
result_json r =
    let accepted = r.accepted in
    obj (
      field "schema" (str "coding-intelligence-compaction-validation/v1") (
        field "accepted" (bool accepted) (
          field "deterministic_checks" (str (if accepted then "passed" else "rejected")) (
            field "previous_state_sha256" (optional_str r.previous_state_sha256) (
              field "candidate_state_sha256" (optional_str r.candidate_state_sha256) (
                field "source_range" (range_json r.source_range) (
                  field "issues" (list_json issue_json r.issues) (
                    field "preserved" (obj (ids_fields (sort (λ a b. str_leb a.0 b.0) r.preserved)))
                      (field "semantic_verifier"
                        (obj (
                          field "eligible" (bool accepted) (
                            field "required" (bool true) (
                              field "status" (str (if accepted then "pending" else "not_run")) (
                                field "checks"
                                  (arr (
                                    str_items
                                      ("semantic_omissions" ∷ "semantic_contradictions" ∷ [])))
                                  end)))))
                        end)))))))))

-- `_unique_object`, over the pairs of a JSON object.
unfoldable pub unique_object : Dict Json → List (String × Json) → Result (Dict Json)
unique_object result [] = ok result
unique_object result ((k, v) ∷ pairs) = do
  guard (not (has k result)) (state_error ("duplicate JSON key: " ∷ k ∷ []))
  unique_object (result ++ (k, v) ∷ []) pairs
