-- ===== src/Tools.antt =====
-- app/tools/models.py: definitions, requests and results of tools. A `Path` is its text.
use cloud_agent_platform_dem.Prelude.{String, Bool, true, false, Option, none, some, List, [], ◌∷◌}
use cloud_agent_platform_dem.Text.{concat, text_or}
use cloud_agent_platform_dem.Value.{Value, Fields, end, field, str, object}

pub data ToolRiskLevel : Type 0 where
  low medium high : ToolRiskLevel

pub data ToolExecutionTarget : Type 0 where
  native mcp : ToolExecutionTarget

pub record ToolDefinition : Type 0 where
  pub name : String
  pub description : String
  pub parameters_schema : Fields
  pub risk_level : ToolRiskLevel
  pub execution_target : ToolExecutionTarget
  pub requires_write : Bool
  pub allowed_roles : List String

-- `parameters_schema or {"type": "object", "properties": {}}`
abbrev pub schema_or_default : Fields → Fields
schema_or_default end = field "type" (str "object") (field "properties" (object end) end)
schema_or_default (field k v fs) = field k v fs

unfoldable pub to_model_schema : ToolDefinition → Value
to_model_schema d = object (
    field "type" (str "function") (
      field "function"
        (object (
          field "name" (str d.name) (
            field "description" (str d.description)
              (field "parameters" (object (schema_or_default d.parameters_schema)) end))))
        end))

pub record ToolRequest : Type 0 where
  pub tool_name : String
  pub arguments : Fields
  pub id : String

pub record ToolResult : Type 0 where
  pub tool_name : String
  pub request_id : String
  pub success : Bool
  pub content : String
  pub data_value : Option Value
  pub error : Option String
  pub metadata : Fields

unfoldable pub ok_result : ToolRequest → String → Option Value → Fields → ToolResult
ok_result request content data_value metadata = record {
  tool_name = request.tool_name;
  request_id = request.id;
  success = true;
  content = content;
  data_value = data_value;
  error = none;
  metadata = metadata;
}

unfoldable pub failed_result : ToolRequest → String → String → Fields → ToolResult
failed_result request error content metadata = record {
  tool_name = request.tool_name;
  request_id = request.id;
  success = false;
  content = text_or (some content) error;
  data_value = none;
  error = some error;
  metadata = metadata;
}

abbrev content_of : Bool → ToolResult → String
content_of true r = r.content
content_of false r = concat ("Tool " ∷ r.tool_name ∷ " failed: " ∷ text_or r.error r.content ∷ [])

unfoldable pub to_model_content : ToolResult → String
to_model_content r = content_of r.success r

pub record ToolContext : Type 0 where
  pub task_id : String
  pub workspace_root : String
  pub role : String
  pub artifact_root : Option String
  pub allowed_paths : List String
  pub allow_write : Bool
  pub allow_network : Bool
  pub metadata : Fields

pub record PolicyDecision : Type 0 where
  pub allowed : Bool
  pub reason : String

unfoldable pub allow : PolicyDecision
allow = record { allowed = true; reason = "" }

unfoldable pub deny : String → PolicyDecision
deny reason = record { allowed = false; reason = reason }
