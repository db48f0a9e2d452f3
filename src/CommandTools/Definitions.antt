-- ===== src/CommandTools/Definitions.antt =====
-- The definitions of the tools of app/tools/native/command_tools.py.
use cloud_agent_platform_dem.Prelude.{String, false, []}
use cloud_agent_platform_dem.Value.{Fields, end, field, str, bool, object}
use cloud_agent_platform_dem.Tools.{ToolDefinition, high, native}

pub data CommandTool : Type 0 where
  run_test run_lint run_build run_compile run_program : CommandTool

abbrev pub tool_name : CommandTool → String
tool_name run_test = "run_test"
tool_name run_lint = "run_lint"
tool_name run_build = "run_build"
tool_name run_compile = "run_compile"
tool_name run_program = "run_program"

abbrev description : CommandTool → String
description run_test = "Run a supported test command in the task sandbox."
description run_lint = "Run a supported lint command in the task sandbox."
description run_build = "Run a supported project build command in the task sandbox."
description run_compile = "Run a supported compile or static check command in the task sandbox."
description run_program = "Run a repository program through a supported runtime."

abbrev typed : String → String → Fields → Fields
typed name type rest = field name (object (field "type" (str type) end)) rest

-- The properties that all five have.
abbrev common : Fields
common =
    typed "args" "array"
      (typed "timeout_seconds" "integer" (typed "max_output_bytes" "integer" end))

abbrev properties : CommandTool → Fields
properties run_test = typed "tool" "string" (typed "path" "string" common)
properties run_lint = typed "tool" "string" (typed "path" "string" common)
properties run_build = typed "tool" "string" (typed "target" "string" common)
properties run_compile = typed "language" "string" (typed "path" "string" common)
properties run_program =
    typed "runtime" "string" (typed "path" "string" (typed "module" "string" common))

-- `definition`
unfoldable pub definition : CommandTool → ToolDefinition
definition t = record {
  name = tool_name t;
  description = description t;
  parameters_schema =
      field "type" (str "object") (
        field "properties" (object (properties t)) (field "additionalProperties" (bool false) end));
  risk_level = high;
  execution_target = native;
  requires_write = false;
  allowed_roles = [];
}
