-- ===== src/Routing/Parsing/Components.antt =====
-- `_parse_models`, `_parse_harnesses`, `_parse_edges` and `_parse_verifiers` of
-- src/agent_continuity/routing.py.
use local_ai_coding_agent.Common.{
  true, false, String, List, [], ◌∷◌, Option, none, some, Result, ok, ◌>>=◌, Dict, Json, ◌==◌,
  if◌then◌else◌,
}
use local_ai_coding_agent.Routing.Types.{
  EdgeKind, inference, execution, combined, EvidenceRecord, ModelComponent, HarnessComponent,
  EdgeComponent, VerifierComponent,
}
use local_ai_coding_agent.Routing.Parsing.{
  object_with, at, identifier, text, string_tuple, one_of, parse_status, parse_locality,
  context_limit, parse_evidence_ids, nonempty_array, parse_entries, fresh_id,
}

abbrev pub kind_of : String → Option EdgeKind
kind_of s =
    if s == "inference"
    then some inference
    else if s == "execution"
    then some execution
    else if s == "combined"
    then some combined
    else none

-- The fields that an item of each array has.
abbrev pub model_fields : List String
model_fields =
    "id" ∷ "name" ∷ "provider" ∷ "locality" ∷ "roles" ∷ "languages" ∷ "max_context_tokens"
    ∷ "evidence_ids" ∷ []

abbrev pub harness_fields : List String
harness_fields = "id" ∷ "name" ∷ "locality" ∷ "mode" ∷ "tools" ∷ "evidence_ids" ∷ []

abbrev pub edge_fields : List String
edge_fields = "id" ∷ "name" ∷ "locality" ∷ "kind" ∷ "capabilities" ∷ "evidence_ids" ∷ []

abbrev pub verifier_fields : List String
verifier_fields =
    "id" ∷ "name" ∷ "model_id" ∷ "harness_id" ∷ "inference_edge_id" ∷ "status" ∷ "evidence_ids" ∷ []

module _ (evidence : Dict EvidenceRecord) where
  unfoldable pub parse_model : Dict ModelComponent → Json → Result (String × ModelComponent)
  parse_model output v = do
    raw ← object_with model_fields v
    i ← fresh_id output raw
    name ← at raw "name" >>= text
    provider ← at raw "provider" >>= identifier
    locality ← at raw "locality" >>= parse_locality
    roles ← at raw "roles" >>= string_tuple false true
    languages ← at raw "languages" >>= string_tuple false true
    limit ← at raw "max_context_tokens" >>= context_limit
    evidence_ids ← at raw "evidence_ids" >>= parse_evidence_ids evidence false
    ok (
      i,
      record {
        id = i;
        name = name;
        provider = provider;
        locality = locality;
        roles = roles;
        languages = languages;
        max_context_tokens = limit;
        evidence_ids = evidence_ids;
      },
    )

  unfoldable pub parse_harness : Dict HarnessComponent → Json → Result (String × HarnessComponent)
  parse_harness output v = do
    raw ← object_with harness_fields v
    i ← fresh_id output raw
    name ← at raw "name" >>= text
    locality ← at raw "locality" >>= parse_locality
    mode ← at raw "mode" >>= identifier
    tools ← at raw "tools" >>= string_tuple false false
    evidence_ids ← at raw "evidence_ids" >>= parse_evidence_ids evidence false
    ok (
      i,
      record {
        id = i;
        name = name;
        locality = locality;
        mode = mode;
        tools = tools;
        evidence_ids = evidence_ids;
      },
    )

  unfoldable pub parse_edge : Dict EdgeComponent → Json → Result (String × EdgeComponent)
  parse_edge output v = do
    raw ← object_with edge_fields v
    i ← fresh_id output raw
    kind ← at raw "kind" >>= one_of kind_of
    name ← at raw "name" >>= text
    locality ← at raw "locality" >>= parse_locality
    capabilities ← at raw "capabilities" >>= string_tuple false false
    evidence_ids ← at raw "evidence_ids" >>= parse_evidence_ids evidence false
    ok (
      i,
      record {
        id = i;
        name = name;
        locality = locality;
        kind = kind;
        capabilities = capabilities;
        evidence_ids = evidence_ids;
      },
    )

  unfoldable pub parse_verifier :
      Dict VerifierComponent → Json → Result (String × VerifierComponent)
  parse_verifier output v = do
    raw ← object_with verifier_fields v
    i ← fresh_id output raw
    name ← at raw "name" >>= text
    model_id ← at raw "model_id" >>= identifier
    harness_id ← at raw "harness_id" >>= identifier
    edge_id ← at raw "inference_edge_id" >>= identifier
    status ← at raw "status" >>= parse_status
    evidence_ids ← at raw "evidence_ids" >>= parse_evidence_ids evidence false
    ok (
      i,
      record {
        id = i;
        name = name;
        model_id = model_id;
        harness_id = harness_id;
        inference_edge_id = edge_id;
        status = status;
        evidence_ids = evidence_ids;
      },
    )

  unfoldable pub parse_models : Json → Result (Dict ModelComponent)
  parse_models v = do vs ← nonempty_array v; parse_entries parse_model [] vs

  unfoldable pub parse_harnesses : Json → Result (Dict HarnessComponent)
  parse_harnesses v = do vs ← nonempty_array v; parse_entries parse_harness [] vs

  unfoldable pub parse_edges : Json → Result (Dict EdgeComponent)
  parse_edges v = do vs ← nonempty_array v; parse_entries parse_edge [] vs

  unfoldable pub parse_verifiers : Json → Result (Dict VerifierComponent)
  parse_verifiers v = do vs ← nonempty_array v; parse_entries parse_verifier [] vs
