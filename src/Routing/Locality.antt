-- ===== src/Routing/Locality.antt =====
-- `_supports`, `_route_is_local` and `_route_has_cloud_dependency` of
-- src/agent_continuity/routing.py. A subscript of a mapping may fail with `key_error`.
use local_ai_coding_agent.Common.{
  Bool, true, false, not, ◌||◌, String, List, [], ◌∷◌, ◌++◌, Option, none, some, Result, ok, ◌>>=◌,
  item, get, contains, all, map_result,
}
use local_ai_coding_agent.Routing.Types.{Locality, cloud, local, RoutingManifest, RouteDefinition}

unfoldable pub supports : List String → String → Bool
unfolding contains
supports values requested = contains "*" values || contains requested values

abbrev pub is_local : Locality → Bool
is_local local = true
is_local cloud = false

module _ (m : RoutingManifest) where
  unfoldable pub model_locality : String → Result Locality
  model_locality i = do c ← item (get i m.models); ok c.locality

  unfoldable pub harness_locality : String → Result Locality
  harness_locality i = do c ← item (get i m.harnesses); ok c.locality

  unfoldable pub edge_locality : String → Result Locality
  edge_locality i = do c ← item (get i m.edges); ok c.locality

  -- The localities of the verifier's own components.
  unfoldable pub verifier_localities : Option String → Result (List Locality)
  unfolding model_locality harness_locality edge_locality
  verifier_localities none = ok []
  verifier_localities (some i) = do
    v ← item (get i m.verifiers)
    a ← model_locality v.model_id
    b ← harness_locality v.harness_id
    c ← edge_locality v.inference_edge_id
    ok (a ∷ b ∷ c ∷ [])

  unfoldable pub route_localities : RouteDefinition → Result (List Locality)
  unfolding verifier_localities
  route_localities r = do
    models ← map_result model_locality r.model_ids
    h ← harness_locality r.harness_id
    i ← edge_locality r.inference_edge_id
    e ← edge_locality r.execution_edge_id
    verifier ← verifier_localities r.verifier_id
    ok (models ++ (h ∷ i ∷ e ∷ verifier))

  unfoldable pub route_is_local : RouteDefinition → Result Bool
  unfolding route_localities
  route_is_local r = do localities ← route_localities r; ok (all is_local localities)

  unfoldable pub route_has_cloud_dependency : RouteDefinition → Result Bool
  unfolding route_is_local
  route_has_cloud_dependency r = do here ← route_is_local r; ok (not here)
