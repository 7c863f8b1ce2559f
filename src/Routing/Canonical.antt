-- ===== src/Routing/Canonical.antt =====
-- The `canonical` methods of `RoutingRequest` and `RuntimeState` in
-- src/agent_continuity/routing.py.
use local_ai_coding_agent.Common.{
  String, List, Json, str, int, bool, arr, obj, pos, end, field, str_items, optional_str, sort,
  str_leb,
}
use local_ai_coding_agent.Routing.Types.{
  Mode, production, qualification, RoutingRequest, RuntimeState,
}

abbrev pub mode_text : Mode → String
mode_text production = "production"
mode_text qualification = "qualification"

-- `sorted(values)`
unfoldable pub sorted_array : List String → Json
sorted_array xs = arr (str_items (sort str_leb xs))

unfoldable pub request_canonical : RoutingRequest → Json
unfolding sorted_array
request_canonical q = obj (
    field "task_id" (str q.task_id) (
      field "role" (str q.role) (
        field "capability" (str q.capability) (
          field "language" (str q.language) (
            field "context_tokens" (int (pos q.context_tokens)) (
              field "tool_needs" (sorted_array q.tool_needs) (
                field "mode" (str (mode_text q.mode))
                  (field "candidate_route_id" (optional_str q.candidate_route_id) end))))))))

unfoldable pub runtime_canonical : RuntimeState → Json
unfolding sorted_array
runtime_canonical rt = obj (
    field "cloud_available" (bool rt.cloud_available) (
      field "operable_model_ids" (sorted_array rt.operable_model_ids) (
        field "operable_harness_ids" (sorted_array rt.operable_harness_ids) (
          field "available_edge_ids" (sorted_array rt.available_edge_ids)
            (field "satisfied_runtime_tags" (sorted_array rt.satisfied_runtime_tags) end)))))
