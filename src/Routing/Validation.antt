-- ===== src/Routing/Validation.antt =====
-- `_validate_cross_references` of src/agent_continuity/routing.py, its loops in the source's order.
pub mod Verifiers
pub mod Routes
pub mod Teams
pub mod Policy
pub mod Soundness
pub mod Governance
use local_ai_coding_agent.Common.{Result, ◌>>=◌, ◌>>◌, for_each, values}
use local_ai_coding_agent.Routing.Types.{RoutingManifest}
use Verifiers.{check_verifier}
use Routes.{check_route}
use Teams.{check_team}
use Policy.{check_policy}

unfoldable pub validate_cross_references : RoutingManifest → Result (Unit {0})
validate_cross_references m = do
  for_each (check_verifier m) (values m.verifiers)
  for_each (check_route m) (values m.routes)
  for_each (check_team m) (values m.routes)
  check_policy m
