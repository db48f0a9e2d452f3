-- ===== src/Executors/Routing.antt =====
-- How the router of app/tools/executors/router.py treats names and targets, beside the native
-- executor.
use cloud_agent_platform_dem.Prelude.{
  String, false, ◌≡◌, refl, inl, inr, Option, Option-cases, arith,
}
use cloud_agent_platform_dem.Prelude.Dict.{get}
use cloud_agent_platform_dem.Prelude.Exec.{Error, ok, err, tool_not_found}
use cloud_agent_platform_dem.Text.{Unicode}
use cloud_agent_platform_dem.Tools.{ToolRequest, ToolContext}
use cloud_agent_platform_dem.Registry.{ToolRegistry, has_tool, get_tool, get_definition}
use cloud_agent_platform_dem.Policy.{Paths}
use cloud_agent_platform_dem.Executors.{Executor, failed, not_found_text, execute, route}

has_tool-get_tool :
    {E : Type 0} (registry : ToolRegistry E) (name : String)
    → has_tool name registry ≡ false
    → get_tool name registry ≡ err (tool_not_found name)
unfolding has_tool get_tool
has_tool-get_tool registry name unknown = elim (Option-cases (get registry name)) [
  | inl missing ↦ rw (missing, get_tool) refl
  | inr (t, found) ↦ absurd (ground arith)
]

module _ {E : Type 0} (u : Unicode) (paths : Paths) (shown : Error → String)
    (registry : ToolRegistry E) (mcp_executor : Option (Executor E)) where
  -- For a name that the registry lacks, the native executor gives a failed result while the router in
  -- front of it raises `ToolNotFoundError`. In both cases the world stays as it is.
  pub route-unknown :
      (request : ToolRequest) (c : ToolContext) (e : E)
      → has_tool request.tool_name registry ≡ false
      → (execute u paths shown registry request c e
          ≡ (ok (failed request (not_found_text request.tool_name)), e))
        × (route registry (execute u paths shown registry) mcp_executor request c e
            ≡ (err (tool_not_found request.tool_name), e))
  unfolding execute route get_definition
  route-unknown request c e unknown =
      let missing = has_tool-get_tool registry request.tool_name unknown in
      (rw missing refl, rw (missing, route, get_definition) refl)
