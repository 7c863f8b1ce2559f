-- ===== src/Routing/Validation/Soundness.antt =====
-- What a manifest that passes `_validate_cross_references` satisfies: every reference of a
-- verifier, a route and the policy names a component of the manifest.
use local_ai_coding_agent.Common.{
  true, false, none, Option, String, some, ok, ◌≡◌, arith, get, has, has-eq, refl, keys, is_subset,
  is_empty-difference, for_each, for_each-get, for_each-contains, contains, >>-eq-ok, values,
}
use local_ai_coding_agent.Routing.Types.{RoutingManifest, RouteDefinition, VerifierComponent}
use local_ai_coding_agent.Routing.Locality.{route_is_local}
use local_ai_coding_agent.Routing.Eligibility.{is_accepted}
use local_ai_coding_agent.Routing.Validation.{validate_cross_references}
use local_ai_coding_agent.Routing.Validation.Verifiers.{check_verifier}
use local_ai_coding_agent.Routing.Validation.Routes.{
  check_route, check_references, is_known_verifier,
}
use local_ai_coding_agent.Routing.Validation.Teams.{check_team}
use local_ai_coding_agent.Routing.Validation.Policy.{
  check_policy, check_primary, check_apple, check_sovereign,
}

-- The references of a verifier are known.
pub record VerifierIsKnown (m : RoutingManifest) (v : VerifierComponent) : Type 0 where
  pub model : has v.model_id m.models ≡ true
  pub harness : has v.harness_id m.harnesses ≡ true
  pub edge : has v.inference_edge_id m.edges ≡ true

-- The references of a route are known.
pub record RouteIsKnown (m : RoutingManifest) (r : RouteDefinition) : Type 0 where
  pub models : is_subset r.model_ids (keys m.models) ≡ true
  pub harness : has r.harness_id m.harnesses ≡ true
  pub verifier : is_known_verifier m r.verifier_id ≡ true
  pub inference_edge : has r.inference_edge_id m.edges ≡ true
  pub execution_edge : has r.execution_edge_id m.edges ≡ true

check_verifier-IsKnown :
    (m : RoutingManifest) (v : VerifierComponent) → check_verifier m v ≡ ok tt → VerifierIsKnown m v
unfolding check_verifier
check_verifier-IsKnown m v h = record {
  model = ground arith;
  harness = ground arith;
  edge = ground (arith, has-eq v.inference_edge_id m.edges);
}

check_references-IsKnown :
    (m : RoutingManifest) (r : RouteDefinition) → check_references m r ≡ ok tt → RouteIsKnown m r
unfolding check_references
check_references-IsKnown m r h = record {
  models = ground (arith, is_empty-difference r.model_ids (keys m.models));
  harness = ground arith;
  verifier = ground arith;
  inference_edge = ground (arith, has-eq r.inference_edge_id m.edges);
  execution_edge = ground (arith, has-eq r.execution_edge_id m.edges);
}

abbrev pub IsCloudPrimary : RoutingManifest → Type 0
IsCloudPrimary m =
    (r : RouteDefinition) × (get m.policy.cloud_primary_route_id m.routes ≡ some r)
    × (is_accepted r.qualification_status ≡ true)
    × (route_is_local m r ≡ ok false)

abbrev pub IsSovereign : RoutingManifest → String → Type 0
IsSovereign m i =
    (r : RouteDefinition) × (get i m.routes ≡ some r)
    × (is_accepted r.qualification_status ≡ true)
    × (route_is_local m r ≡ ok true)

check_primary-IsCloud : (m : RoutingManifest) → check_primary m ≡ ok tt → IsCloudPrimary m
unfolding check_primary
check_primary-IsCloud m h = go (get m.policy.cloud_primary_route_id m.routes) refl
  where
    go :
        (o : Option RouteDefinition)
        → get m.policy.cloud_primary_route_id m.routes ≡ o
        → IsCloudPrimary m
    go none e = absurd (ground arith)
    go (some r) e = (r, e, ground arith, ground arith)

check_contains-IsSovereign :
    (m : RoutingManifest) (i : String) → check_sovereign m i ≡ ok tt → IsSovereign m i
unfolding check_sovereign
check_contains-IsSovereign m i h = go (get i m.routes) refl
  where
    go : (o : Option RouteDefinition) → get i m.routes ≡ o → IsSovereign m i
    go none e = absurd (ground arith)
    go (some r) e = (r, e, ground arith, ground arith)

-- The four parts of a validation that passed.
pub record IsValidated (m : RoutingManifest) : Type 0 where
  pub verifiers : for_each (check_verifier m) (values m.verifiers) ≡ ok tt
  pub routes : for_each (check_route m) (values m.routes) ≡ ok tt
  pub teams : for_each (check_team m) (values m.routes) ≡ ok tt
  pub policy : check_policy m ≡ ok tt

pub validate-IsValidated :
    (m : RoutingManifest) → validate_cross_references m ≡ ok tt → IsValidated m
unfolding validate_cross_references
validate-IsValidated m h =
    let (verifiers, h1) = >>-eq-ok _ _ h in
    let (routes, h2) = >>-eq-ok _ _ h1 in
    let (teams, policy) = >>-eq-ok _ _ h2 in
    record { verifiers = verifiers; routes = routes; teams = teams; policy = policy }

module _ {m : RoutingManifest} (valid : IsValidated m) where
  pub verifier-IsKnown :
      (i : String) (v : VerifierComponent) → get i m.verifiers ≡ some v → VerifierIsKnown m v
  verifier-IsKnown i v e =
      check_verifier-IsKnown m v (for_each-get (check_verifier m) i m.verifiers valid.verifiers e)

  pub route-IsKnown :
      (i : String) (r : RouteDefinition) → get i m.routes ≡ some r → RouteIsKnown m r
  unfolding check_route
  route-IsKnown i r e =
      check_references-IsKnown m r
        (>>-eq-ok _ _ (for_each-get (check_route m) i m.routes valid.routes e)).0

  -- The primary route is one of the manifest's, is accepted, and is not local.
  pub primary-IsCloud : IsCloudPrimary m
  unfolding check_policy
  primary-IsCloud = check_primary-IsCloud m (>>-eq-ok (check_primary m) _ valid.policy).0

  -- A sovereign route is one of the manifest's, is accepted, and is local.
  pub contains-IsSovereign :
      (i : String) → contains i m.policy.sovereign_route_ids ≡ true → IsSovereign m i
  unfolding check_policy
  contains-IsSovereign i c =
      let (_, rest) = >>-eq-ok (check_primary m) _ valid.policy in
      let (_, loop) = >>-eq-ok (check_apple m) _ rest in
      check_contains-IsSovereign m i (for_each-contains (check_sovereign m) i _ loop c)
