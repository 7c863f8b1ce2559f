-- ===== src/Routing/Selection/Ranking.antt =====
-- `_select_non_primary` of src/agent_continuity/routing.py: the best single route, or the best
-- team that has measured a gain over it.
use local_ai_coding_agent.Common.{
  Bool, true, false, not, ◌&&◌, String, List, [], ◌∷◌, Option, none, some, ℤ, pos, is_positive,
  leb_ℤ, -ℤ◌, keep, sort, str_leb, ltb, leb, is_empty, ◌==◌, if◌then◌else◌,
}
use local_ai_coding_agent.Routing.Types.{Composition, single, team, RouteDefinition}

abbrev pub is_single : Composition → Bool
is_single single = true
is_single team = false

-- `(priority, id)`
unfoldable pub key_leb : RouteDefinition → RouteDefinition → Bool
key_leb a b =
    if ltb a.priority b.priority then true else (leb a.priority b.priority && str_leb a.id b.id)

-- `int(route.team_gain_basis_points or 0)`
abbrev pub gain_or_zero : Option ℤ → ℤ
gain_or_zero none = pos 0
gain_or_zero (some g) = g

-- `(-gain, priority, id)`
unfoldable pub team_leb : RouteDefinition → RouteDefinition → Bool
team_leb a b =
    let ga = -ℤ◌ (gain_or_zero a.team_gain_basis_points) in
    let gb = -ℤ◌ (gain_or_zero b.team_gain_basis_points) in
    if leb_ℤ ga gb then (if leb_ℤ gb ga then key_leb a b else true) else false

abbrev pub names_baseline : Option String → String → Bool
names_baseline none id = false
names_baseline (some b) id = b == id

abbrev pub has_gain : Option ℤ → Bool
has_gain none = false
has_gain (some g) = is_positive g

unfoldable pub is_proven_team : RouteDefinition → RouteDefinition → Bool
is_proven_team best r =
    not (is_single r.composition)
    && (names_baseline r.baseline_route_id best.id
        && (has_gain r.team_gain_basis_points && not (is_empty r.comparison_evidence_ids)))

unfoldable pub singles : List RouteDefinition → List RouteDefinition
singles rs = keep (λ r. is_single r.composition) rs

unfoldable pub proven_teams : RouteDefinition → List RouteDefinition → List RouteDefinition
unfolding is_proven_team
proven_teams best rs = keep (λ r. is_proven_team best r) rs

abbrev pub first_or : List RouteDefinition → RouteDefinition → RouteDefinition
first_or [] r = r
first_or (x ∷ xs) r = x

unfoldable pub select_over : List RouteDefinition → List RouteDefinition → Option RouteDefinition
unfolding proven_teams team_leb
select_over [] rs = none
select_over (best ∷ others) rs = some (first_or (sort team_leb (proven_teams best rs)) best)

unfoldable pub select_non_primary : List RouteDefinition → Option RouteDefinition
unfolding select_over singles
select_non_primary rs = select_over (sort key_leb (singles rs)) rs
