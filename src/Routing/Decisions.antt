-- ===== src/Routing/Decisions.antt =====
-- What a decision of `select_route` in src/agent_continuity/routing.py guarantees.
pub mod Safety
pub mod Production
pub mod Merits
pub mod Optimality
pub mod Completeness
pub mod Citations
use local_ai_coding_agent.Common.{
  String, List, [], ◌∷◌, Option, none, some, Bool, true, false, not, ◌≡◌, ◌&&◌, ◌||◌, refl, sym,
  ◌∙◌, arith, get, keys, sort, str_leb, ok, err, Result, Json, is_empty, if◌then◌else◌, ◌==◌,
  eq_iff, Bool-cases, inl, inr, some_inj, ap, Dict, subst, bind_inv, item-eq-ok, ok_inj, ◌>>=◌,
  >>-eq-ok, guard-eq-ok, item, ◌≢◌, str_eq_self,
}
use local_ai_coding_agent.Routing.Types.{
  Mode, production, qualification, RoutingManifest, RouteDefinition, RoutingRequest, RuntimeState,
  RouteConsideration, RoutingDecision, Reason, routed, unroutable, FallbackCode,
}
use local_ai_coding_agent.Routing.WellFormed.{IsWellFormed}
use local_ai_coding_agent.Routing.Locality.{route_is_local, route_has_cloud_dependency}
use local_ai_coding_agent.Routing.Eligibility.{
  is_production, runtime_references_are_known, consider_route,
}
use local_ai_coding_agent.Routing.Selection.{
  is_known_candidate, considerations, by_id, eligible_routes, select_by_mode, select_production,
  fallback, Fallback, Choice, choose_among, choose, decision, select_route,
}
use local_ai_coding_agent.Routing.Selection.Evidence.{decision_evidence, evidence_hashes}
use local_ai_coding_agent.Routing.Selection.Origin.{
  IsEligible, AllSelected, selected-IsEligible, by_id-IsConsideration,
}
use local_ai_coding_agent.Routing.Totality.Telemetry.{ids, considerations-ids}
use local_ai_coding_agent.Routing.Permission.{IsPermitted, consider_route-IsPermitted}

-- The steps of a choice that was made.
pub record IsChoice (m : RoutingManifest) (q : RoutingRequest) (rt : RuntimeState) (c : Choice)
    : Type 0 where
  pub considered : considerations m q rt ≡ ok c.considered
  pub eligible : List RouteDefinition
  pub are_eligible : eligible_routes m c.considered ≡ ok eligible
  pub primary : RouteDefinition
  pub is_primary : get m.policy.cloud_primary_route_id m.routes ≡ some primary
  pub is_selected : select_by_mode m q c.considered eligible primary ≡ ok c.selected
  pub is_fallback : fallback q c.considered primary c.selected ≡ ok c.explained

choose_among-IsChoice :
    (m : RoutingManifest) (q : RoutingRequest) (rt : RuntimeState) (c : Choice)
    → choose_among m q rt ≡ ok c
    → IsChoice m q rt c
unfolding choose_among
choose_among-IsChoice m q rt c h = bind_inv (considerations m q rt) _ h λ cs e1 h1.
    bind_inv (eligible_routes m cs) _ h1 λ es e2 h2.
      bind_inv (item (get m.policy.cloud_primary_route_id m.routes)) _ h2 λ p e3 h3.
        bind_inv (select_by_mode m q cs es p) _ h3 λ s e4 h4.
          bind_inv (fallback q cs p s) _ h4 λ f e5 h5. subst (IsChoice m q rt) (ok_inj h5) (record {
            considered = e1;
            eligible = es;
            are_eligible = e2;
            primary = p;
            is_primary = item-eq-ok _ e3;
            is_selected = e4;
            is_fallback = e5;
          })

-- A decision and what it was built from.
pub record IsDecision (digest : Json → String) (m : RoutingManifest) (q : RoutingRequest)
    (rt : RuntimeState) (d : RoutingDecision) : Type 0 where
  pub choice : Choice
  pub cited : List String
  pub hashes : Dict String
  pub is_choice : IsChoice m q rt choice
  pub is_cited : decision_evidence m choice.selected ≡ ok cited
  pub is_hashed : evidence_hashes m cited ≡ ok hashes
  pub is_built : decision digest m q rt choice cited hashes ≡ d

pub select_route-IsDecision :
    (digest : Json → String) (m : RoutingManifest) (q : RoutingRequest) (rt : RuntimeState)
    {d : RoutingDecision}
    → select_route digest m q rt ≡ ok d
    → IsDecision digest m q rt d
unfolding select_route choose
select_route-IsDecision digest m q rt h = bind_inv (choose m q rt) _ h λ c e1 h1.
    bind_inv (decision_evidence m c.selected) _ h1 λ xs e2 h2.
      bind_inv (evidence_hashes m xs) _ h2 λ hs e3 h3. record {
        choice = c;
        cited = xs;
        hashes = hs;
        is_choice = choose_among-IsChoice m q rt c (chosen c e1);
        is_cited = e2;
        is_hashed = e3;
        is_built = ok_inj h3;
      }
  where
    chosen : (c : Choice) → choose m q rt ≡ ok c → choose_among m q rt ≡ ok c
    chosen c e =
        (guard-eq-ok (is_production q.mode || is_known_candidate m q.candidate_route_id) _ _
          (>>-eq-ok (runtime_references_are_known m rt) _ e).1).1
