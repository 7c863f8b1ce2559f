-- ===== src/Routing/Selection/Evidence.antt =====
-- The evidence that a routing decision cites, in `select_route` of
-- src/agent_continuity/routing.py.
use local_ai_coding_agent.Common.{
  String, List, [], ◌∷◌, ◌++◌, Option, none, some, Result, ok, ◌>>=◌, item, get, Dict, sorted_set,
  map_result,
}
use local_ai_coding_agent.Routing.Types.{RoutingManifest, RouteDefinition}

module _ (m : RoutingManifest) where
  unfoldable pub model_evidence : String → Result (List String)
  model_evidence i = do c ← item (get i m.models); ok c.evidence_ids

  unfoldable pub models_evidence : List String → Result (List String)
  unfolding model_evidence
  models_evidence [] = ok []
  models_evidence (i ∷ is) = do xs ← model_evidence i; ys ← models_evidence is; ok (xs ++ ys)

  unfoldable pub harness_evidence : String → Result (List String)
  harness_evidence i = do c ← item (get i m.harnesses); ok c.evidence_ids

  unfoldable pub edge_evidence : String → Result (List String)
  edge_evidence i = do c ← item (get i m.edges); ok c.evidence_ids

  unfoldable pub verifier_evidence : Option String → Result (List String)
  unfolding model_evidence harness_evidence edge_evidence
  verifier_evidence none = ok []
  verifier_evidence (some i) = do
    v ← item (get i m.verifiers)
    a ← model_evidence v.model_id
    b ← harness_evidence v.harness_id
    c ← edge_evidence v.inference_edge_id
    ok (v.evidence_ids ++ (a ++ (b ++ c)))

  unfoldable pub collect_evidence : RouteDefinition → Result (List String)
  unfolding models_evidence verifier_evidence
  collect_evidence r = do
    models ← models_evidence r.model_ids
    h ← harness_evidence r.harness_id
    i ← edge_evidence r.inference_edge_id
    e ← edge_evidence r.execution_edge_id
    v ← verifier_evidence r.verifier_id
    ok (r.evidence_ids ++ (models ++ (h ++ (i ++ (e ++ (v ++ r.comparison_evidence_ids))))))

  unfoldable pub decision_evidence : Option RouteDefinition → Result (List String)
  unfolding collect_evidence
  decision_evidence none = ok []
  decision_evidence (some r) = do collected ← collect_evidence r; ok (sorted_set collected)

  unfoldable pub evidence_hash : String → Result (String × String)
  evidence_hash i = do e ← item (get i m.evidence); ok (i, e.sha256)

  unfoldable pub evidence_hashes : List String → Result (Dict String)
  unfolding evidence_hash
  evidence_hashes is = map_result evidence_hash is
