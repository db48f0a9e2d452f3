-- ===== src/CommandTools.antt =====
-- app/tools/native/command_tools.py: the five tools that run commands in the sandbox of a task. What a
-- `PurePosixPath` is, and the texts of numbers and errors, are parameters.
pub mod Definitions
pub mod Arguments
pub mod Control
pub mod Acceptance
mod Tests
use cloud_agent_platform_dem.Prelude.{
  String, Bool, true, false, ◌||◌, Option, none, some, List, [], ◌∷◌, ◌++◌, str_eq, if◌then◌else◌,
}
use cloud_agent_platform_dem.Prelude.Int.{ℤ, pos}
use cloud_agent_platform_dem.Prelude.Exec.{
  Exec, Error, Result, ok, err, pure, raise, lift, continue, ◌>>=◌, ◌>>◌, value_error,
  tool_validation_error,
}
use cloud_agent_platform_dem.Text.{Unicode, is_empty, concat, join}
use cloud_agent_platform_dem.Value.{
  Value, Items, Fields, null, bool, int, str, array, object, nil, cons, end, field, get_field,
}
use cloud_agent_platform_dem.Tools.{ToolRequest, ToolResult, ToolContext, ok_result, failed_result}
use cloud_agent_platform_dem.Registry.{NativeTool}
use cloud_agent_platform_dem.Policy.{Paths, artifact_path}
use cloud_agent_platform_dem.Sandbox.{CommandSpec}
use cloud_agent_platform_dem.SandboxService.{SandboxService, CommandResult, success}
use cloud_agent_platform_dem.Orchestrator.TaskSandbox.{is_sandbox_error}
use cloud_agent_platform_dem.CommandTools.Definitions.{
  CommandTool, run_test, run_lint, run_build, run_compile, run_program, definition,
}
use cloud_agent_platform_dem.CommandTools.Arguments.{PosixPaths, command_spec}

-- `_format_output`
unfoldable pub format_output : String → String → String
unfolding concat join
format_output stdout stderr = either (given "stdout:\n" stdout ++ given "stderr:\n" stderr)
  where
    given : String → String → List String
    given label text = if is_empty text then [] else concat (label ∷ text ∷ []) ∷ []

    either : List String → String
    either [] = "(no output)"
    either (p ∷ ps) = join "\n\n" (p ∷ ps)

abbrev texts : List String → Items
texts [] = nil
texts (s ∷ ss) = cons (str s) (texts ss)

-- The `data` of a result: the fields of the command's result, but for the duration, and the tool.
abbrev command_data : ToolRequest → CommandResult → Value
command_data request r = object (
    field "sandbox_id" (str r.sandbox_id) (
      field "command" (array (texts r.command)) (
        field "exit_code" (int r.exit_code) (
          field "stdout" (str r.stdout) (
            field "stderr" (str r.stderr) (
              field "timed_out" (bool r.timed_out) (
                field "truncated" (bool r.truncated)
                  (field "controlled_tool" (str request.tool_name) end))))))))

-- `except (SandboxError, ValueError)`; a `ToolValidationError` is a `ValueError`.
abbrev pub is_caught : Error → Bool
is_caught (value_error m) = true
is_caught (tool_validation_error m) = true
is_caught x = is_sandbox_error x

module _ {W : Type 0} (shown_int : ℤ → String) (error_text : Error → String) (posix : PosixPaths)
    (u : Unicode) (paths : Paths) (mkdir : String → Exec W (Unit {0})) where
  -- The result for a command that ran.
  unfoldable pub result_of : ToolRequest → CommandResult → ToolResult
  unfolding format_output success concat ok_result
  result_of request r =
      if success r
      then ok_result request (format_output r.stdout r.stderr) (some (command_data request r)) end
      else record {
        tool_name = request.tool_name;
        request_id = request.id;
        success = false;
        content = format_output r.stdout r.stderr;
        data_value = some (command_data request r);
        error = some (
            if r.timed_out
            then "Command timed out"
            else concat ("Command exited with " ∷ shown_int r.exit_code ∷ []));
        metadata = end;
      }

  abbrev pub answered : ToolRequest → Result CommandResult × W → Result ToolResult × W
  answered request (ok r, w) = (ok (result_of request r), w)
  answered request (err x, w) =
      if is_caught x then (ok (failed_result request (error_text x) "" end), w) else (err x, w)

  module _ (service : SandboxService W) (sandbox_id : String)
      (default_timeout default_max_output : ℤ) where
    abbrev pub attempt : CommandTool → ToolRequest → Exec W CommandResult
    attempt tool request = do
      spec ← lift (command_spec posix default_timeout default_max_output tool request.arguments)
      service.execute sandbox_id spec

    -- `execute`
    unfoldable pub execute : CommandTool → ToolRequest → ToolContext → Exec W ToolResult
    unfolding command_spec result_of failed_result artifact_path is_sandbox_error
    execute tool request c = do
      mkdir (artifact_path u paths c)
      λ w. answered request (attempt tool request w)

    abbrev tool_of : CommandTool → NativeTool W
    tool_of tool = record {
      definition = definition tool;
      validate = λ arguments. ok tt;
      execute = execute tool;
    }

    -- `build_controlled_command_tools`
    unfoldable pub build_controlled_command_tools : List (NativeTool W)
    unfolding execute definition
    build_controlled_command_tools =
        tool_of run_test
        ∷ tool_of run_lint
        ∷ tool_of run_build
        ∷ tool_of run_compile
        ∷ tool_of run_program
        ∷ []
