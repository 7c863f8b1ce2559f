-- ===== src/Routing/Validation/Verifiers.antt =====
-- The first loop of `_validate_cross_references`: each verifier's references.
use local_ai_coding_agent.Common.{
  Bool, true, false, not, ◌&&◌, Result, manifest_error, guard, ◌>>=◌, ◌>>◌, item, required, get,
  has, is_empty,
}
use local_ai_coding_agent.Routing.Types.{
  EdgeKind, inference, execution, RoutingManifest, VerifierComponent,
}
use local_ai_coding_agent.Routing.Locality.{supports}
use local_ai_coding_agent.Routing.Eligibility.{is_accepted}

-- `edge.kind in {"inference", "combined"}`
abbrev pub can_infer : EdgeKind → Bool
can_infer execution = false
can_infer _ = true

-- `edge.kind in {"execution", "combined"}`
abbrev pub can_execute : EdgeKind → Bool
can_execute inference = false
can_execute _ = true

unfoldable pub check_verifier : RoutingManifest → VerifierComponent → Result (Unit {0})
check_verifier m v = do
  guard (has v.model_id m.models) (manifest_error "verifier references unknown model")
  guard (has v.harness_id m.harnesses) (manifest_error "verifier references unknown harness")
  edge ←
      required (get v.inference_edge_id m.edges) (manifest_error "verifier references unknown edge")
  guard (can_infer edge.kind) (manifest_error "verifier requires an inference edge")
  model ← item (get v.model_id m.models)
  guard (supports model.roles "verify")
      (manifest_error "verifier uses a model without the verify role")
  guard (not (is_accepted v.status && is_empty v.evidence_ids))
      (manifest_error "accepted verifier requires evidence")
