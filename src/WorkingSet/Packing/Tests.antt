-- ===== src/WorkingSet/Packing/Tests.antt =====
-- Two memories, one of them without provenance, packed with a counter of characters; the theorems on
-- src/agent_continuity/working_set.py at this input.
use local_ai_coding_agent.Common.{
  ◌≢◌, ℕ, ◌+◌, String, List, [], ◌∷◌, Option, none, some, true, ◌≡◌, refl, Json, null, str,
  Succeeds, text_append, join, get, sorted_set, distinct, sort, insert_sorted, contains,
}
use local_ai_coding_agent.WorkingSet.Types.{EvidenceItem, Candidate}
use local_ai_coding_agent.WorkingSet.Ledger.{Counted, counted, count, cached_count, fresh_count}
use local_ai_coding_agent.WorkingSet.Query.{
  asked_texts, QueryInput, build_literal_query, build_literal_query-literals, query_components,
  group_components, query_component, literals,
}
use local_ai_coding_agent.WorkingSet.Blocks.{
  provenance, truthy_texts, compact_source_ids, compact_value, canonical_text, block_value,
  memory_block,
}
use local_ai_coding_agent.WorkingSet.Packing.{
  render, fit_block, propose, weigh, pack_candidate, pack_candidates, count_state, start,
  pack_working_set,
}
use local_ai_coding_agent.WorkingSet.Packing.Bounds.{
  IsBounded, IsAudited, pack_working_set-IsBounded, pack_working_set-IsAudited,
}
use local_ai_coding_agent.WorkingSet.Packing.Totality.{pack_working_set_total}

abbrev characters : String → ℕ
characters String.[] = 0
characters (String.◌∷◌ c s) = 1 + characters s

abbrev counter : String → Counted
counter s = counted (characters s)

abbrev dumps : Json → Option String
dumps v = some "{}"

abbrev item_of : Option String → EvidenceItem
item_of source = record {
  evidence_id = some "e";
  source_kind = some "run";
  source_locator = some "runs/1";
  source_event_id = source;
  source_sha256 = none;
  observed_at = none;
  authority = some "verifier";
  excerpt = none;
}

abbrev candidate_of : String → List EvidenceItem → Candidate
candidate_of i items = record {
  memory_id = i;
  retrieval = null;
  kind = str "claim";
  subject = str "s";
  predicate = str "p";
  object = str "o";
  status = str "current";
  valid_from = null;
  valid_to = null;
  observed_at = null;
  recorded_at = null;
  verification_status = str "verified";
  source_event_id = some "event";
  evidence = items;
}

abbrev memories : List Candidate
memories = candidate_of "a" (item_of (some "event") ∷ []) ∷ candidate_of "b" [] ∷ []

packed : Succeeds (pack_working_set dumps counter null memories)
unfolding pack_working_set count_state start pack_candidates pack_candidate weigh propose fit_block
    render memory_block block_value canonical_text compact_value compact_source_ids truthy_texts
    provenance count cached_count fresh_count text_append get sorted_set distinct sort insert_sorted
    contains
packed = (_, refl)

packed_ids : packed.0.included_memory_ids ≡ "a" ∷ []
unfolding packed
packed_ids = refl

pack_working_set-IsBounded_example : IsBounded counter packed.0
pack_working_set-IsBounded_example = pack_working_set-IsBounded dumps counter null memories packed.1

pack_working_set-IsAudited_example : IsAudited dumps counter memories packed.0
pack_working_set-IsAudited_example = pack_working_set-IsAudited dumps counter null memories packed.1

state_fits : Succeeds (count_state dumps counter null)
unfolding count_state canonical_text count cached_count fresh_count text_append get
state_fits = (_, refl)

pack_working_set_total_example : Succeeds (pack_working_set dumps counter null memories)
pack_working_set_total_example =
    pack_working_set_total dumps counter (λ v. ("{}", refl)) (λ t. (characters t, refl)) null
      memories state_fits refl refl (refl, (refl, tt))

abbrev query : QueryInput
query = record {
  request = "fix it";
  file_symbols = "main" ∷ [];
  errors = [];
  tools = "shell" ∷ [];
  blockers = [];
}

query_builds : Succeeds (build_literal_query "goal" query)
unfolding build_literal_query query_components group_components query_component join text_append
query_builds = (_, refl)

query_text : query_builds.0.0 ≡ "fix it\ngoal\nmain\nshell"
unfolding query_builds
query_text = refl

build_literal_query-literals_example :
    (query_builds.0.0 ≡ join "\n" (asked_texts "goal" query))
    × (literals query_builds.0.1 ≡ asked_texts "goal" query)
    × ((s : String) → contains s (asked_texts "goal" query) ≡ true → s ≢ "")
build_literal_query-literals_example = build_literal_query-literals "goal" query query_builds.1
