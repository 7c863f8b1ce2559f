-- ===== src/Routing/Validation/Teams.antt =====
-- The third loop of `_validate_cross_references`: a team's comparison with its single baseline.
use local_ai_coding_agent.Common.{
  ℕ, Bool, true, false, not, ◌&&◌, Option, none, some, Result, ok, manifest_error, guard, ◌>>=◌,
  ◌>>◌, required, get, is_empty, set_eq, nat_eq, if◌then◌else◌,
}
use local_ai_coding_agent.Routing.Types.{RoutingManifest, RouteDefinition}
use local_ai_coding_agent.Routing.Eligibility.{is_accepted}
use local_ai_coding_agent.Routing.Selection.Ranking.{is_single, has_gain}

abbrev pub limit_eq : Option ℕ → Option ℕ → Bool
limit_eq none none = true
limit_eq none (some b) = false
limit_eq (some a) none = false
limit_eq (some a) (some b) = nat_eq a b

-- The fields that make two routes comparable.
unfoldable pub same_surface : RouteDefinition → RouteDefinition → Bool
same_surface r b =
    set_eq r.roles b.roles
    && (set_eq r.capabilities b.capabilities
        && (set_eq r.languages b.languages
            && (set_eq r.tool_needs b.tool_needs
                && limit_eq r.max_context_tokens b.max_context_tokens)))

unfoldable pub check_accepted_team : RouteDefinition → RouteDefinition → Result (Unit {0})
check_accepted_team r baseline = do
  guard (is_accepted baseline.qualification_status)
      (manifest_error "accepted team route requires an accepted single baseline")
  guard (same_surface r baseline)
      (manifest_error "accepted team route must match its single baseline task surface")
  guard (not (is_empty r.comparison_evidence_ids))
      (manifest_error "accepted team route requires comparative evidence")
  guard (has_gain r.team_gain_basis_points)
      (manifest_error "accepted team route requires measured positive gain")

unfoldable pub check_baseline : RoutingManifest → RouteDefinition → Result (Unit {0})
check_baseline m r = do
  i ← required r.baseline_route_id (manifest_error "team route requires a single baseline")
  baseline ←
      required (get i m.routes) (manifest_error "team route baseline must be a known single route")
  guard (is_single baseline.composition)
      (manifest_error "team route baseline must be a known single route")
  if is_accepted r.qualification_status then check_accepted_team r baseline else ok tt

unfoldable pub check_team : RoutingManifest → RouteDefinition → Result (Unit {0})
check_team m r = if is_single r.composition then ok tt else check_baseline m r
