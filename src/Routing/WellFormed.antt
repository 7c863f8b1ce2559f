-- ===== src/Routing/WellFormed.antt =====
-- What the parsers of src/agent_continuity/routing.py give a manifest: each route stands under its
-- own identifier, and every cited evidence record is in the manifest.
use local_ai_coding_agent.Common.{
  String, true, some, ◌≡◌, get, keys, is_subset, AllEntries, AllEntries-get, Dict, List,
}
use local_ai_coding_agent.Routing.Types.{RoutingManifest, RouteDefinition}

-- Each entry cites evidence of `evidence` only.
abbrev pub CitesKnown {ℓ} : {V : Type ℓ} → List String → (V → List String) → Dict V → Type ℓ
CitesKnown {V} known cited d =
    (i : String) (v : V) → get i d ≡ some v → is_subset (cited v) known ≡ true

pub CitesKnown-AllEntries {ℓ} :
    {V : Type ℓ} (known : List String) (cited : V → List String) (d : Dict V)
    → AllEntries (λ k v. is_subset (cited v) known ≡ true) d
    → CitesKnown known cited d
CitesKnown-AllEntries known cited d h i v e =
    AllEntries-get (λ k v. is_subset (cited v) known ≡ true) i d h e

pub record IsWellFormed (m : RoutingManifest) : Type 0 where
  pub keyed : (i : String) (r : RouteDefinition) → get i m.routes ≡ some r → r.id ≡ i
  pub models_cite : CitesKnown (keys m.evidence) (λ c. c.evidence_ids) m.models
  pub harnesses_cite : CitesKnown (keys m.evidence) (λ c. c.evidence_ids) m.harnesses
  pub edges_cite : CitesKnown (keys m.evidence) (λ c. c.evidence_ids) m.edges
  pub verifiers_cite : CitesKnown (keys m.evidence) (λ c. c.evidence_ids) m.verifiers
  pub routes_cite : CitesKnown (keys m.evidence) (λ r. r.evidence_ids) m.routes
  pub comparisons_cite : CitesKnown (keys m.evidence) (λ r. r.comparison_evidence_ids) m.routes
