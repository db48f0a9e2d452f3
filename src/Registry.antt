-- ===== src/Registry.antt =====
-- app/tools/registry.py and the interface of app/tools/base.py. A tool is its definition, its check
-- of the arguments and its action on a state `E` of the world.
pub mod Laws
use cloud_agent_platform_dem.Prelude.{
  String, Bool, true, false, ◌&&◌, not, Option, none, some, List, [], ◌∷◌, map, if◌then◌else◌,
}
use cloud_agent_platform_dem.Prelude.Dict.{Dict, get, put, values}
use cloud_agent_platform_dem.Prelude.Exec.{
  Check, Exec, Result, ok, err, ◌>>=◌, ◌>>◌, raise, pure, tool_not_found, duplicate_tool,
}
use cloud_agent_platform_dem.Value.{Value, Fields}
use cloud_agent_platform_dem.Tools.{
  ToolDefinition, ToolRequest, ToolContext, ToolResult, to_model_schema,
}

pub record NativeTool (E : Type 0) : Type 0 where
  pub definition : ToolDefinition
  pub validate : Fields → Check
  pub execute : ToolRequest → ToolContext → Exec E ToolResult

-- `_native_tools`
abbrev pub ToolRegistry : Type 0 → Type 0
ToolRegistry E = Dict (NativeTool E)

module _ {E : Type 0} where
  unfoldable pub has_tool : String → ToolRegistry E → Bool
  unfolding get
  has_tool name r = elim (get r name) [ none ↦ false | some t ↦ true ]

  unfoldable pub register : NativeTool E → Bool → Exec (ToolRegistry E) Unit
  unfolding get put has_tool
  register t replace r =
      if not replace && has_tool t.definition.name r
      then (err (duplicate_tool t.definition.name), r)
      else (ok tt, put r t.definition.name t)

  unfoldable pub register_many : List (NativeTool E) → Bool → Exec (ToolRegistry E) Unit
  unfolding register
  register_many [] replace = pure tt
  register_many (t ∷ ts) replace = register t replace >> register_many ts replace

  abbrev found_or_raise : String → Option (NativeTool E) → Result (NativeTool E)
  found_or_raise name none = err (tool_not_found name)
  found_or_raise name (some t) = ok t

  unfoldable pub get_tool : String → ToolRegistry E → Result (NativeTool E)
  unfolding get
  get_tool name r = found_or_raise name (get r name)

  unfoldable pub get_definition : String → ToolRegistry E → Result ToolDefinition
  unfolding get_tool
  get_definition name r = elim (get_tool name r) [ ok t ↦ ok t.definition | err e ↦ err e ]

  unfoldable pub list_tools : ToolRegistry E → List (NativeTool E)
  list_tools r = values r

  unfoldable pub list_definitions : ToolRegistry E → List ToolDefinition
  list_definitions r = map (λ t. t.definition) (list_tools r)

  unfoldable pub list_model_schemas : ToolRegistry E → List Value
  list_model_schemas r = map to_model_schema (list_definitions r)
