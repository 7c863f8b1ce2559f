-- ===== src/Routing/Decisions/Completeness.antt =====
-- `select_route` of src/agent_continuity/routing.py misses no permitted route: in production its
-- choice is the primary route or the best of all permitted routes.
use local_ai_coding_agent.Common.{
  arith, String, List, [], ◌∷◌, Option, none, some, Bool, true, false, ◌≡◌, ◌⊎◌, refl, sym, ◌∙◌,
  inl, inr, All, All-Memᴰ, Memᴰ, get, has, get-has, keys, contains, contains-sort, ok, ok_inj,
  bind_inv, some_inj, subst, ap, Bool-cases, if◌then◌else◌, ◌==◌, eq_iff, Json,
}
use local_ai_coding_agent.Routing.Types.{
  production, single, RoutingManifest, RouteDefinition, RoutingRequest, RuntimeState,
  RouteConsideration, RoutingDecision, routed,
}
use local_ai_coding_agent.Routing.WellFormed.{IsWellFormed}
use local_ai_coding_agent.Routing.Selection.{
  eligible_routes, select_route, decision, of_selected, decision_status,
}
use local_ai_coding_agent.Routing.Selection.Ranking.{is_single, select_non_primary}
use local_ai_coding_agent.Routing.Selection.Origin.{
  IsConsideration, IsEligible, considerations-All, eligible_routes-All,
}
use local_ai_coding_agent.Routing.Totality.Telemetry.{ids, considerations-ids}
use local_ai_coding_agent.Routing.Permission.{IsPermitted, consider_route-IsPermitted}
use local_ai_coding_agent.Routing.Decisions.{IsDecision}
use local_ai_coding_agent.Routing.Decisions.Safety.{selected_id}
use local_ai_coding_agent.Routing.Decisions.Production.{IsProduction, production_parts}
use local_ai_coding_agent.Routing.Decisions.Merits.{
  IsAhead, HasMoreGain, IsProvenOver, key_leb-IsAhead, is_single-single,
  is_proven_team-IsProvenOver, proven_team_is, team_leb-HasMoreGain,
}
use local_ai_coding_agent.Routing.Decisions.Optimality.{
  IsBestTeam, NoTeam, select_non_primary-IsBest, select_non_primary-some,
}

module _ (m : RoutingManifest) (q : RoutingRequest) (rt : RuntimeState) where
  -- A permitted route that has been considered is among the eligible ones.
  eligible_routes_complete :
      (i : String) (r : RouteDefinition) (cs : List RouteConsideration) {es : List RouteDefinition}
      → All (IsConsideration m q rt) cs
      → eligible_routes m cs ≡ ok es
      → contains i (ids cs) ≡ true
      → get i m.routes ≡ some r
      → IsPermitted m q rt r
      → Memᴰ r es
  unfolding eligible_routes contains
  eligible_routes_complete i r [] h e c er p = absurd (cc)
  eligible_routes_complete i r (c ∷ cs) {es} ((s, est, k), hs) e mem er p =
      elim (Bool-cases (i == c.route_id)) [
        | inl t ↦
            let same : s ≡ r =
              some_inj
                (sym est ∙ (ap (λ j. get j m.routes) (sym ((eq_iff i c.route_id).0 t)) ∙ er)) in
            let el =
              (consider_route-IsPermitted m q rt s k).1 (subst (IsPermitted m q rt) (sym same) p) in
            bind_inv (eligible_routes m cs) (λ rs. ok (s ∷ rs)) (rw est at (rw el at e))
              λ rs e1 e2. subst (Memᴰ r) (ok_inj e2) (Memᴰ.head (sym same))
        | inr f ↦ elim (Bool-cases c.eligible) [
          | inl el ↦
              bind_inv (eligible_routes m cs) (λ rs. ok (s ∷ rs)) (rw est at (rw el at e))
                λ rs e1 e2.
                  subst (Memᴰ r) (ok_inj e2)
                    (Memᴰ.tail (eligible_routes_complete i r cs hs e1 (rw f at mem) er p))
          | inr ne ↦ eligible_routes_complete i r cs hs (rw ne at e) (rw f at mem) er p
        ]
      ]

-- `x` is a permitted route of the manifest.
abbrev pub IsOffered : RoutingManifest → RoutingRequest → RuntimeState → RouteDefinition → Type 0
IsOffered m q rt x = (i : String) × (get i m.routes ≡ some x) × IsPermitted m q rt x

-- `best` is a permitted single route, ahead of each permitted single route.
pub record IsBestOffered (m : RoutingManifest) (q : RoutingRequest) (rt : RuntimeState)
    (best : RouteDefinition) : Type 0 where
  pub offered : IsOffered m q rt best
  pub alone : best.composition ≡ single
  pub least : (x : RouteDefinition) → IsOffered m q rt x → x.composition ≡ single → IsAhead best x

-- `r` is a permitted team that is proven over `best`, with the largest gain of all such teams, and
-- ahead of those with the same gain.
pub record IsBestOfferedTeam (m : RoutingManifest) (q : RoutingRequest) (rt : RuntimeState)
    (best r : RouteDefinition) : Type 0 where
  pub offered : IsOffered m q rt r
  pub proven : IsProvenOver best r
  pub most : (x : RouteDefinition) → IsOffered m q rt x → IsProvenOver best x → HasMoreGain r x

module _ (digest : Json → String) (m : RoutingManifest) (q : RoutingRequest) (rt : RuntimeState)
    (d : RoutingDecision) where
  -- The eligible routes of a decision are exactly the permitted routes.
  offered_eligible :
      IsWellFormed m
      → (x : IsDecision digest m q rt d) (r : RouteDefinition) → IsOffered m q rt r
      → Memᴰ r x.is_choice.eligible
  offered_eligible w x r (i, er, p) =
      eligible_routes_complete m q rt i r x.choice.considered
        (considerations-All w q rt x.is_choice.considered) x.is_choice.are_eligible
        (rw (considerations-ids w q rt x.is_choice.considered)
          (contains-sort i (keys m.routes) ∙ unfold has in get-has i m.routes er))
        er p

  eligible-IsOffered :
      IsWellFormed m
      → (x : IsDecision digest m q rt d) (r : RouteDefinition) → Memᴰ r x.is_choice.eligible
      → IsOffered m q rt r
  eligible-IsOffered w x r mem =
      let (c, ec, k, t) =
        All-Memᴰ (IsEligible m q rt) r x.is_choice.eligible
          (eligible_routes-All m q rt x.choice.considered
            (considerations-All w q rt x.is_choice.considered) x.is_choice.are_eligible)
          mem in
      (c.route_id, ec, (consider_route-IsPermitted m q rt r k).0 t)

  not_eligible :
      (primary : RouteDefinition) (x : IsDecision digest m q rt d)
      (k : IsProduction m q rt x.choice x.is_choice.eligible primary)
      → ¬ IsPermitted m q rt primary
      → x.choice.selected ≡ select_non_primary x.is_choice.eligible
  not_eligible primary x k np = elim (Bool-cases k.primary_considered.eligible) [
    | inl t ↦ absurd (np ((consider_route-IsPermitted m q rt primary k.is_considered).0 t))
    | inr f ↦ k.selected_eq ∙ rw f
  ]

  -- In production mode, where the primary route is not permitted, there is a permitted single route
  -- ahead of all of them, by priority and then identifier. The selected route is this one, if no
  -- permitted team has a positive compared gain over it, or else the permitted team that has the
  -- largest such gain, ahead of those with the same gain.
  pub fallback-IsBest :
      (primary : RouteDefinition) (i : String)
      → IsWellFormed m
      → select_route digest m q rt ≡ ok d
      → q.mode ≡ production
      → get m.policy.cloud_primary_route_id m.routes ≡ some primary
      → ¬ IsPermitted m q rt primary
      → d.selected_route_id ≡ some i
      → (best : RouteDefinition) × IsBestOffered m q rt best
        × ((best.id ≡ i) × ((x : RouteDefinition) → IsOffered m q rt x → ¬ IsProvenOver best x)
            ⊎ ((r : RouteDefinition) × (r.id ≡ i) × IsBestOfferedTeam m q rt best r))
  fallback-IsBest primary i w h pr ep np e =
      let (x, k) = production_parts digest m q rt d primary w h pr ep in
      go x (select_non_primary x.is_choice.eligible) refl (
        ap (of_selected (λ r. r.id)) (sym (not_eligible primary x k np))
        ∙ (sym (selected_id digest m q rt d x) ∙ e))
    where
      Answer : RouteDefinition → Type 0
      Answer best =
          (best.id ≡ i) × ((x : RouteDefinition) → IsOffered m q rt x → ¬ IsProvenOver best x)
          ⊎ ((r : RouteDefinition) × (r.id ≡ i) × IsBestOfferedTeam m q rt best r)

      team :
          (x : IsDecision digest m q rt d) (best r : RouteDefinition)
          → r.id ≡ i
          → (r ≡ best) × NoTeam best x.is_choice.eligible ⊎ IsBestTeam best r x.is_choice.eligible
          → Answer best
      team x best r ri (inl (same, none_proven)) = inl (
        ap (λ y. y.id) (sym same) ∙ ri,
        λ y oy k.
            ground (arith, proven_team_is best y k, none_proven y (offered_eligible w x y oy)),
      )
      team x best r ri (inr b) = inr (
        r,
        ri,
        record {
          offered = eligible-IsOffered w x r b.member;
          proven = is_proven_team-IsProvenOver best r b.proven;
          most = λ y oy t.
              team_leb-HasMoreGain r y
                (b.most y (offered_eligible w x y oy) (proven_team_is best y t));
        },
      )

      go :
          (x : IsDecision digest m q rt d) (o : Option RouteDefinition)
          → select_non_primary x.is_choice.eligible ≡ o
          → of_selected (λ r. r.id) o ≡ some i
          → (best : RouteDefinition) × IsBestOffered m q rt best × Answer best
      go x none eo ei = absurd (cc)
      go x (some r) eo ei =
          let (best, b, t) = select_non_primary-IsBest x.is_choice.eligible r eo in
          (
            best,
            record {
              offered = eligible-IsOffered w x best b.member;
              alone = is_single-single best.composition b.single;
              least = λ y oy s.
                  key_leb-IsAhead best y (b.least y (offered_eligible w x y oy) (ap is_single s));
            },
            team x best r (some_inj ei) t,
          )

  -- In production mode a permitted single route is enough for the request to be routed.
  pub offered_single-routed :
      (primary r : RouteDefinition)
      → IsWellFormed m
      → select_route digest m q rt ≡ ok d
      → q.mode ≡ production
      → get m.policy.cloud_primary_route_id m.routes ≡ some primary
      → IsOffered m q rt r
      → is_single r.composition ≡ true
      → d.status ≡ routed
  unfolding decision
  offered_single-routed primary r w h pr ep o t =
      let (x, k) = production_parts digest m q rt d primary w h pr ep in
      let (s, es) = select_non_primary-some x.is_choice.eligible r (offered_eligible w x r o) t in
      ap (λ y. y.status) (sym x.is_built)
      ∙ (ap decision_status k.selected_eq ∙ status k.primary_considered.eligible es)
    where
      status :
          (b : Bool) {o : Option RouteDefinition} {s : RouteDefinition}
          → o ≡ some s
          → decision_status (if b then some primary else o) ≡ routed
      status true e = refl
      status false e = ap decision_status e
