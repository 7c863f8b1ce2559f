-- ===== src/Routing/Validation/Governance.antt =====
-- The acceptance rules that `_validate_cross_references` of src/agent_continuity/routing.py puts on
-- each route.
use local_ai_coding_agent.Common.{
  ℕ, suc, pos, String, List, [], ◌∷◌, Option, none, some, true, ◌≡◌, ◌≢◌, refl, ap, arith, get,
  contains, contains-is_subset, set_eq, is_empty, is_none, ok, eq_iff, leb, length, >>-eq-ok,
  for_each, for_each-get, item, bind_inv, item-eq-ok,
}
use local_ai_coding_agent.Routing.Types.{
  accepted, single, team, RoutingManifest, RouteDefinition, VerifierComponent,
}
use local_ai_coding_agent.Routing.Decisions.Merits.{has_gain-positive}
use local_ai_coding_agent.Routing.Validation.{validate_cross_references}
use local_ai_coding_agent.Routing.Validation.Routes.{
  check_references, check_composition, check_acceptance, check_accepted_verifier, check_tools,
  check_model, check_xcode, check_route,
}
use local_ai_coding_agent.Routing.Validation.Teams.{
  check_team, check_baseline, check_accepted_team, same_surface, limit_eq,
}
use local_ai_coding_agent.Routing.Validation.Soundness.{validate-IsValidated}

-- The route's verifier is one of the manifest's, and is accepted.
abbrev pub HasAcceptedVerifier : RoutingManifest → Option String → Type 0
HasAcceptedVerifier m none = ⊥
HasAcceptedVerifier m (some i) =
    (v : VerifierComponent) × (get i m.verifiers ≡ some v) × (v.status ≡ accepted)

-- The lists have the same members.
abbrev pub IsSameSet : List String → List String → Type 0
IsSameSet xs ys = (s : String) → contains s xs ≡ contains s ys

-- Two routes do the same kind of work: they are comparable.
pub record IsSameSurface (r b : RouteDefinition) : Type 0 where
  pub roles : IsSameSet r.roles b.roles
  pub capabilities : IsSameSet r.capabilities b.capabilities
  pub languages : IsSameSet r.languages b.languages
  pub tool_needs : IsSameSet r.tool_needs b.tool_needs
  pub limit : r.max_context_tokens ≡ b.max_context_tokens

-- The baseline is a single route of the manifest, and a route that is accepted has an accepted one
-- that does the same kind of work.
pub record IsBaseline (m : RoutingManifest) (r b : RouteDefinition) (i : String) : Type 0 where
  pub known : get i m.routes ≡ some b
  pub alone : b.composition ≡ single
  pub qualified : r.qualification_status ≡ accepted → b.qualification_status ≡ accepted
  pub surface : r.qualification_status ≡ accepted → IsSameSurface r b

abbrev pub HasBaseline : RoutingManifest → RouteDefinition → Option String → Type 0
HasBaseline m r none = ⊥
HasBaseline m r (some i) = (b : RouteDefinition) × IsBaseline m r b i

-- What an accepted team has measured.
pub record IsMeasured (r : RouteDefinition) : Type 0 where
  pub gain : (n : ℕ) × (r.team_gain_basis_points ≡ some (pos (suc n)))
  pub compared : r.comparison_evidence_ids ≢ []

-- A single route: one model, and no comparison.
pub record IsSingle (r : RouteDefinition) : Type 0 where
  pub one_model : length r.model_ids ≡ 1
  pub no_baseline : r.baseline_route_id ≡ none
  pub no_gain : r.team_gain_basis_points ≡ none
  pub no_comparison : r.comparison_evidence_ids ≡ []

-- What the validation asks of a route.
pub record IsGoverned (m : RoutingManifest) (r : RouteDefinition) : Type 0 where
  pub evidence : r.qualification_status ≡ accepted → r.evidence_ids ≢ []
  pub verifier :
      r.qualification_status ≡ accepted
      → contains "implement" r.roles ≡ true
      → HasAcceptedVerifier m r.verifier_id
  pub alone : r.composition ≡ single → IsSingle r
  pub two_models : r.composition ≡ team → leb 2 (length r.model_ids) ≡ true
  pub baseline : r.composition ≡ team → HasBaseline m r r.baseline_route_id
  pub measured : r.composition ≡ team → r.qualification_status ≡ accepted → IsMeasured r
  pub xcode :
      contains "xcode" r.tool_needs ≡ true → r.execution_edge_id ≡ m.policy.apple_execution_edge_id

-- The checks of a route that passed, one by one.
record Checks (m : RoutingManifest) (r : RouteDefinition) : Type 0 where
  composition : check_composition r ≡ ok tt
  acceptance : check_acceptance m r ≡ ok tt
  xcode : check_xcode m r ≡ ok tt

check_route-Checks :
    (m : RoutingManifest) (r : RouteDefinition) → check_route m r ≡ ok tt → Checks m r
unfolding check_route
check_route-Checks m r h =
    let h1 = (>>-eq-ok (check_references m r) _ h).1 in
    let h2 = >>-eq-ok (check_composition r) _ h1 in
    let h3 = >>-eq-ok (check_acceptance m r) _ h2.1 in
    let h4 = (>>-eq-ok (check_tools m r) _ h3.1).1 in
    let h5 = (>>-eq-ok (for_each (check_model m r) r.model_ids) _ h4).1 in
    record { composition = h2.0; acceptance = h3.0; xcode = h5 }

accepted_verifier :
    (m : RoutingManifest) (o : Option String)
    → check_accepted_verifier m o ≡ ok tt
    → HasAcceptedVerifier m o
unfolding check_accepted_verifier
accepted_verifier m none h = cc
accepted_verifier m (some i) h =
    bind_inv (item (get i m.verifiers)) _ h λ v e1 e2. (v, item-eq-ok _ e1, ground arith)

acceptance_verifier :
    (m : RoutingManifest) (r : RouteDefinition)
    → check_acceptance m r ≡ ok tt
    → r.qualification_status ≡ accepted
    → contains "implement" r.roles ≡ true
    → check_accepted_verifier m r.verifier_id ≡ ok tt
unfolding check_acceptance
acceptance_verifier m r h a i = ground arith

set_eq-IsSameSet : (xs ys : List String) → set_eq xs ys ≡ true → IsSameSet xs ys
unfolding set_eq
set_eq-IsSameSet xs ys h s = ground (arith, contains-is_subset s xs ys, contains-is_subset s ys xs)

limit_eq-same : (a b : Option ℕ) → limit_eq a b ≡ true → a ≡ b
limit_eq-same none none h = refl
limit_eq-same none (some b) h = absurd (cc)
limit_eq-same (some a) none h = absurd (cc)
limit_eq-same (some a) (some b) h = ap some (ground arith)

same_surface-IsSameSurface : (r b : RouteDefinition) → same_surface r b ≡ true → IsSameSurface r b
unfolding same_surface
same_surface-IsSameSurface r b h = record {
  roles = set_eq-IsSameSet r.roles b.roles (ground arith);
  capabilities = set_eq-IsSameSet r.capabilities b.capabilities (ground arith);
  languages = set_eq-IsSameSet r.languages b.languages (ground arith);
  tool_needs = set_eq-IsSameSet r.tool_needs b.tool_needs (ground arith);
  limit = limit_eq-same r.max_context_tokens b.max_context_tokens (ground arith);
}

is_empty-nil : (xs : List String) → is_empty xs ≡ true → xs ≡ []
is_empty-nil [] h = refl
is_empty-nil (x ∷ xs) h = absurd (cc)

is_none-none {ℓ} : {A : Type ℓ} (o : Option A) → is_none o ≡ true → o ≡ none
is_none-none none h = refl
is_none-none (some a) h = absurd (cc)

composition-IsSingle :
    (r : RouteDefinition) → check_composition r ≡ ok tt → r.composition ≡ single → IsSingle r
unfolding check_composition
composition-IsSingle r h s = record {
  one_model = ground arith;
  no_baseline = is_none-none r.baseline_route_id (ground arith);
  no_gain = is_none-none r.team_gain_basis_points (ground arith);
  no_comparison = is_empty-nil r.comparison_evidence_ids (ground arith);
}

accepted_team-IsMeasured : (r b : RouteDefinition) → check_accepted_team r b ≡ ok tt → IsMeasured r
unfolding check_accepted_team
accepted_team-IsMeasured r b h = record {
  gain = has_gain-positive r.team_gain_basis_points (ground arith);
  compared = λ e. ground (arith, e);
}

-- A team that passed its checks: its baseline, and what it has measured.
abbrev TeamParts : RoutingManifest → RouteDefinition → Option String → Type 0
TeamParts m r o = HasBaseline m r o × (r.qualification_status ≡ accepted → IsMeasured r)

baseline_parts :
    (m : RoutingManifest) (r b : RouteDefinition) (i : String)
    → get i m.routes ≡ some b
    → b.composition ≡ single
    → (r.qualification_status ≡ accepted → check_accepted_team r b ≡ ok tt)
    → TeamParts m r (some i)
baseline_parts m r b i known s h = (
  (
    b,
    record {
      known = known;
      alone = s;
      qualified = λ a. unfold check_accepted_team in ground (arith, h a);
      surface =
          λ a. same_surface-IsSameSurface r b (unfold check_accepted_team in ground (arith, h a));
    },
  ),
  λ a. accepted_team-IsMeasured r b (h a),
)

team_parts :
    (m : RoutingManifest) (r : RouteDefinition)
    → check_team m r ≡ ok tt
    → r.composition ≡ team
    → TeamParts m r r.baseline_route_id
unfolding check_team
team_parts m r h t = go r.baseline_route_id refl
  where
    checked : check_baseline m r ≡ ok tt
    checked = ground arith

    found :
        (i : String) (o : Option RouteDefinition)
        → r.baseline_route_id ≡ some i
        → get i m.routes ≡ o
        → TeamParts m r (some i)
    found i none e f = absurd (unfold check_baseline in ground (arith, checked))
    found i (some b) e f =
        baseline_parts m r b i f (unfold check_baseline in ground (arith, checked))
          (λ a. unfold check_baseline in ground (arith, checked))

    go : (o : Option String) → r.baseline_route_id ≡ o → TeamParts m r o
    go none e = absurd (unfold check_baseline in ground (arith, checked))
    go (some i) e = found i (get i m.routes) e refl

-- Every route of a manifest that passes the validation is governed: an accepted route has evidence,
-- and an accepted verifier if it implements; a single route has one model and no comparison; a team
-- has two models or more and a known single baseline; an accepted team has an accepted baseline with
-- its task surface, comparison evidence and a positive gain; and Xcode work runs on the Mac edge.
pub validated-IsGoverned :
    (m : RoutingManifest) (i : String) (r : RouteDefinition)
    → validate_cross_references m ≡ ok tt
    → get i m.routes ≡ some r
    → IsGoverned m r
validated-IsGoverned m i r h e =
    let v = validate-IsValidated m h in
    let c = check_route-Checks m r (for_each-get (check_route m) i m.routes v.routes e) in
    let t = for_each-get (check_team m) i m.routes v.teams e in
    record {
      evidence = λ a e. unfold check_acceptance in ground (arith, c.acceptance);
      verifier =
          λ a k. accepted_verifier m r.verifier_id (acceptance_verifier m r c.acceptance a k);
      alone = λ s. composition-IsSingle r c.composition s;
      two_models = λ s. unfold check_composition in ground (arith, c.composition);
      baseline = λ s. (team_parts m r t s).0;
      measured = λ s a. (team_parts m r t s).1 a;
      xcode = λ k.
          unfold check_xcode in
          ground (arith, c.xcode, eq_iff r.execution_edge_id m.policy.apple_execution_edge_id);
    }
