-- ===== src/Executors/Tests.antt =====
-- The executors of app/tools/executors, with the validator, the policy and the registry, on a tool
-- that writes: the world is a list of texts, and the tool adds one.
use cloud_agent_platform_dem.Prelude.{
  String, Bool, true, false, ◌≡◌, refl, subst, sym, ◌⊎◌, ◌↔◌, none, some, List, [], ◌∷◌, str_eq,
  any,
}
use cloud_agent_platform_dem.Prelude.Exec.{Error, ok, err, ok_injective}
use cloud_agent_platform_dem.Prelude.Dict.{get}
use cloud_agent_platform_dem.Text.{Unicode, is_one_of}
use cloud_agent_platform_dem.Value.{end, field, str, object, array, cons, nil, get_field}
use cloud_agent_platform_dem.Tools.{
  ToolDefinition, ToolRequest, ToolContext, ToolResult, ok_result, high, native, allow, deny,
  schema_or_default,
}
use cloud_agent_platform_dem.Registry.{NativeTool, ToolRegistry, register, get_tool}
use cloud_agent_platform_dem.Policy.{
  Paths, evaluate, try_evaluate, is_path_name, workspace_path, artifact_path,
}
use cloud_agent_platform_dem.Validator.{
  validate_request, check_all_required, check_values, check_type,
}
use cloud_agent_platform_dem.Policy.Permission.{IsPermitted, evaluate-allowed_iff}
use cloud_agent_platform_dem.Validator.Conformance.{Conforms, validate_request-Conforms}
use cloud_agent_platform_dem.Executors.{failed, catch, execute, execute_permitted, validation}
use cloud_agent_platform_dem.Executors.Guard.{IsCleared, execute_guarded, execute_returns}

abbrev plain : Unicode
plain = record { lower = λ s. s; strip = λ s. s; repr = λ s. s }

-- Every path is absolute and resolved; one is inside a root when it is that root.
abbrev flat : Paths
flat = record {
  resolve = λ s. s;
  resolve_error = λ s. none;
  is_absolute = λ s. true;
  join_path = λ a b. b;
  is_relative_to = str_eq;
}

abbrev note : ToolDefinition
note = record {
  name = "note";
  description = "";
  parameters_schema = field "type" (str "object") (
      field "properties" (object (field "path" (object (field "type" (str "string") end)) end))
        (field "required" (array (cons (str "path") nil)) end));
  risk_level = high;
  execution_target = native;
  requires_write = true;
  allowed_roles = [];
}

abbrev note_tool : NativeTool (List String)
note_tool = record {
  definition = note;
  validate = λ arguments. ok tt;
  execute = λ request c written. (ok (ok_result request "noted" none end), "note" ∷ written);
}

abbrev registry : ToolRegistry (List String)
registry = ("note", note_tool) ∷ []

abbrev context : Bool → ToolContext
context allow_write = record {
  task_id = "task";
  workspace_root = "/w";
  role = "agent";
  artifact_root = some "/a";
  allowed_paths = [];
  allow_write = allow_write;
  allow_network = false;
  metadata = end;
}

abbrev asks : String → String → ToolRequest
asks name path = record { tool_name = name; arguments = field "path" (str path) end; id = "1" }

abbrev shown : Error → String
shown x = "error"

abbrev world : String → String → Bool → List String
world name path allow_write =
    (execute plain flat shown registry (asks name path) (context allow_write) []).1

runs : world "note" "/w" true ≡ "note" ∷ []
unfolding execute validation execute_permitted try_evaluate get_tool get register get_field str_eq
    any is_one_of validate_request check_all_required check_values check_type is_path_name
    workspace_path allow
runs = refl

execute_guarded_example :
    ((execute plain flat shown registry (asks "note" "/w") (context true) []).1 ≡ [])
    ⊎ ((t : NativeTool (List String)) × IsCleared plain flat registry
          (asks "note" "/w")
          (context true)
          t
        × (execute plain flat shown registry (asks "note" "/w") (context true) []
            ≡ catch
                (λ x. failed (asks "note" "/w") (shown x))
                (t.execute (asks "note" "/w") (context true) [])))
execute_guarded_example =
    execute_guarded plain flat shown registry (asks "note" "/w") (context true) []

stays_out : world "note" "/etc" true ≡ []
unfolding execute validation execute_permitted try_evaluate get_tool get register get_field str_eq
    any is_one_of validate_request check_all_required check_values check_type is_path_name
    workspace_path artifact_path allow deny
stays_out = refl

accepts : validation plain note_tool (asks "note" "/w") ≡ ok tt
unfolding validation get_field str_eq any is_one_of validate_request check_all_required check_values
    check_type
accepts = refl

permits : (try_evaluate plain flat (asks "note" "/w") note (context true)) ≡ ok allow
unfolding try_evaluate str_eq any is_one_of is_path_name workspace_path allow
permits = refl

execute_returns_example :
    (r : ToolResult) × (e' : List String) × (execute plain flat shown registry
        (asks "note" "/w")
        (context true)
        []
      ≡ (ok r, e'))
unfolding get_tool get str_eq
execute_returns_example =
    execute_returns plain flat shown registry (asks "note" "/w") (context true) []
      (λ t x found raised. absurd (
        let wrong : validation plain note_tool (asks "note" "/w") ≡ err x =
          subst (λ k. validation plain k (asks "note" "/w") ≡ err x) (sym (ok_injective found))
            raised in
        cc (accepts, wrong)))
      (λ t found. (
        allow,
        subst
            (λ k. try_evaluate plain flat (asks "note" "/w") k.definition (context true) ≡ ok allow)
            (ok_injective found) permits,
      ))

abbrev note_request : ToolRequest
note_request = asks "note" "/w"

evaluate-allowed_iff_example :
    (evaluate plain flat note_request note (context true)).allowed ≡ true
    ↔ IsPermitted plain flat note_request note (context true)
evaluate-allowed_iff_example = evaluate-allowed_iff plain flat note_request note (context true)

validate_request-Conforms_example :
    (note_request.tool_name ≡ note.name)
    × Conforms note_request.arguments (schema_or_default note.parameters_schema)
unfolding validate_request check_all_required check_values check_type get_field str_eq
validate_request-Conforms_example = validate_request-Conforms plain note_request note refl
