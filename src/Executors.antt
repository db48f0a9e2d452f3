-- ===== src/Executors.antt =====
-- app/tools/executors: the native executor, which checks a request before its tool runs, the one for
-- MCP, and the router between the two. The state `E` is the world that the tools read and change;
-- the registry is only read. `shown` is the text `f"{type(exc).__name__}: {exc}"` of an exception.
pub mod Guard
pub mod Routing
mod Tests
use cloud_agent_platform_dem.Prelude.{
  String, Bool, true, false, Option, none, some, List, [], ◌∷◌, if◌then◌else◌,
}
use cloud_agent_platform_dem.Prelude.Exec.{
  ◌after◌, Error, Check, Exec, Result, ok, err, pure, raise, tool_validation_error, value_error,
}
use cloud_agent_platform_dem.Text.{Unicode, concat}
use cloud_agent_platform_dem.Value.{Fields, end, field, bool}
use cloud_agent_platform_dem.Tools.{
  ToolDefinition, ToolExecutionTarget, ToolRequest, ToolContext, ToolResult, PolicyDecision, native,
  mcp, failed_result,
}
use cloud_agent_platform_dem.Registry.{NativeTool, ToolRegistry, get_tool, get_definition}
use cloud_agent_platform_dem.Validator.{validate_request}
use cloud_agent_platform_dem.Policy.{Paths, try_evaluate}

-- `ToolResult.failed(request, error)`
abbrev pub failed : ToolRequest → String → ToolResult
failed request error = failed_result request error "" end

-- The text of a `ToolValidationError` or a `ValueError`, which validation catches.
abbrev pub caught_text : Error → Option String
caught_text (tool_validation_error text) = some text
caught_text (value_error text) = some text
caught_text _ = none

abbrev pub not_found_text : String → String
not_found_text name = concat ("Tool not found: " ∷ name ∷ [])

module _ {E : Type 0} where
  -- `except Exception`: what the action changed before it raised stays.
  abbrev pub catch : (Error → ToolResult) → Result ToolResult × E → Result ToolResult × E
  catch handler (ok r, e) = (ok r, e)
  catch handler (err x, e) = (ok (handler x), e)

  -- An exception of the validation: a failed result if it is caught.
  abbrev pub reject : ToolRequest → Error → Option String → Exec E ToolResult
  reject request x (some text) = pure (failed request text)
  reject request x none = raise x

  unfoldable pub validation : Unicode → NativeTool E → ToolRequest → Check
  validation u t request =
      t.validate request.arguments after validate_request u request t.definition

  abbrev pub denied : ToolRequest → PolicyDecision → Exec E ToolResult
  denied request decision =
      pure (failed_result request decision.reason "" (field "policy_denied" (bool true) end))

  abbrev pub run_tool :
      (Error → String) → NativeTool E → ToolRequest → ToolContext → Exec E ToolResult
  run_tool shown t request c e = catch (λ x. failed request (shown x)) (t.execute request c e)

module _ {E : Type 0} (u : Unicode) (paths : Paths) (shown : Error → String)
    (registry : ToolRegistry E) where
  -- The policy stands outside the `try` statement, so what it raises leaves `execute`.
  abbrev pub decided :
      Result PolicyDecision → NativeTool E → ToolRequest → ToolContext → Exec E ToolResult
  decided (err x) t request c = raise x
  decided (ok d) t request c = if d.allowed then run_tool shown t request c else denied request d

  unfoldable pub execute_permitted : NativeTool E → ToolRequest → ToolContext → Exec E ToolResult
  execute_permitted t request c = decided (try_evaluate u paths request t.definition c) t request c

  abbrev pub execute_checked : Check → NativeTool E → ToolRequest → ToolContext → Exec E ToolResult
  execute_checked (ok x) t request c = execute_permitted t request c
  execute_checked (err x) t request c = reject request x (caught_text x)

  abbrev pub execute_found : Result (NativeTool E) → ToolRequest → ToolContext → Exec E ToolResult
  execute_found (ok t) request c = execute_checked (validation u t request) t request c
  execute_found (err x) request c = pure (failed request (not_found_text request.tool_name))

  -- `NativeExecutor.execute`
  unfoldable pub execute : ToolRequest → ToolContext → Exec E ToolResult
  execute request c = execute_found (get_tool request.tool_name registry) request c

abbrev pub Executor : Type 0 → Type 0
Executor E = ToolRequest → ToolContext → Exec E ToolResult

-- `MCPExecutor.execute`
unfoldable pub mcp_execute : {E : Type 0} → Executor E
mcp_execute request c =
    pure (failed request "MCP execution is planned for a later implementation phase.")

abbrev target_text : ToolExecutionTarget → String
target_text native = "native"
target_text mcp = "mcp"

module _ {E : Type 0} (registry : ToolRegistry E) (native_executor : Executor E)
    (mcp_executor : Option (Executor E)) where
  abbrev pub route_to : ToolExecutionTarget → Option (Executor E) → Executor E
  route_to native other request c = native_executor request c
  route_to mcp (some executor) request c = executor request c
  route_to mcp none request c =
      pure (failed request (concat ("No executor configured for target: " ∷ target_text mcp ∷ [])))

  abbrev pub route_found : Result ToolDefinition → Executor E
  route_found (ok definition) request c =
      route_to definition.execution_target mcp_executor request c
  route_found (err x) request c = raise x

  -- `ExecutorRouter.execute`
  unfoldable pub route : Executor E
  route request c = route_found (get_definition request.tool_name registry) request c
