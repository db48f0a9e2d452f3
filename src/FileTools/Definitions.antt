-- ===== src/FileTools/Definitions.antt =====
-- The definitions of the tools of app/tools/native/file_tools.py and artifact_tools.py.
use cloud_agent_platform_dem.Prelude.{String, Bool, true, false, List, [], ◌∷◌}
use cloud_agent_platform_dem.Value.{Items, Fields, nil, cons, end, field, str, bool, array, object}
use cloud_agent_platform_dem.Tools.{ToolDefinition, ToolRiskLevel, low, medium, native}

abbrev typed : String → String → Fields → Fields
typed name type rest = field name (object (field "type" (str type) end)) rest

-- A schema without required arguments leaves the key out.
abbrev required : List String → Fields → Fields
required [] rest = rest
required (n ∷ ns) rest = field "required" (array (names (n ∷ ns))) rest
  where
    names : List String → Items
    names [] = nil
    names (k ∷ ks) = cons (str k) (names ks)

abbrev define : String → String → Fields → List String → ToolRiskLevel → Bool → ToolDefinition
define name description properties needed risk writes = record {
  name = name;
  description = description;
  parameters_schema = field "type" (str "object") (
      field "properties" (object properties)
        (required needed (field "additionalProperties" (bool false) end)));
  risk_level = risk;
  execution_target = native;
  requires_write = writes;
  allowed_roles = [];
}

abbrev pub list_files : ToolDefinition
list_files =
    define "list_files" "List files and directories under a workspace path."
      (typed "path" "string" (typed "max_depth" "integer" end)) ("path" ∷ []) low false

abbrev pub read_file : ToolDefinition
read_file =
    define "read_file" "Read a UTF-8 text file from the workspace."
      (typed "path" "string" (typed "max_chars" "integer" end)) ("path" ∷ []) low false

abbrev pub write_file : ToolDefinition
write_file =
    define "write_file" "Write a UTF-8 text file inside the workspace."
      (typed "path" "string" (typed "content" "string" end)) ("path" ∷ "content" ∷ []) medium true

abbrev pub edit_file : ToolDefinition
edit_file =
    define "edit_file" "Replace text in a UTF-8 workspace file."
      (typed "path" "string" (typed "old_text" "string" (typed "new_text" "string" end)))
      ("path" ∷ "old_text" ∷ "new_text" ∷ []) medium true

abbrev pub write_artifact : ToolDefinition
write_artifact =
    define "write_artifact" "Write a task artifact under the artifact root."
      (typed "path" "string" (typed "content" "string" end)) ("path" ∷ "content" ∷ []) medium false

abbrev pub list_artifacts : ToolDefinition
list_artifacts = define "list_artifacts" "List task artifacts." end [] low false

abbrev pub finish_task : ToolDefinition
finish_task =
    define "finish_task" "Declare that the agent believes the task is complete."
      (typed "summary" "string" (typed "status" "string" end)) ("summary" ∷ []) low false
