-- ===== src/Verifier.antt =====
-- app/verification/verifier.py and models.py: whether what an agent did counts as success. `Paths`
-- and `is_file` are what pathlib does. A check keeps its verdict and its text; its metadata, which
-- nothing reads back, are left out.
pub mod Passing
mod Tests
use cloud_agent_platform_dem.Prelude.{
  ℕ, String, Bool, true, false, ◌&&◌, ◌||◌, not, Option, none, some, List, [], ◌∷◌, ◌++◌, any, map,
  select, str_eq, if◌then◌else◌,
}
use cloud_agent_platform_dem.Text.{Unicode, contains, is_one_of, is_empty, concat, join}
use cloud_agent_platform_dem.Value.{Value, Items, Fields, bool, str, array, nil, cons, get_field}
use cloud_agent_platform_dem.Domain.{TaskRequest}
use cloud_agent_platform_dem.Tools.{ToolResult}
use cloud_agent_platform_dem.AgentLoop.{AgentLoopResult, completed}
use cloud_agent_platform_dem.Policy.{Paths}

pub record VerificationCheck : Type 0 where
  pub name : String
  pub passed : Bool
  pub message : String

pub record VerificationResult : Type 0 where
  pub passed : Bool
  pub checks : List VerificationCheck
  pub summary : String

pub record VerificationContext : Type 0 where
  pub task_request : TaskRequest
  pub workspace_root : String
  pub artifact_root : String
  pub artifact_paths : List String
  pub loop_result : AgentLoopResult

abbrev failed_checks : List VerificationCheck → List VerificationCheck
failed_checks checks = select (λ k. not k.passed) checks

-- `VerificationResult.error_summary`
unfoldable pub error_summary : VerificationResult → String
unfolding select join
error_summary r =
    if r.passed
    then ""
    else (if is_empty r.summary
        then join "; "
            (select (λ m. not (is_empty m)) (map (λ k. k.message) (failed_checks r.checks)))
        else r.summary)

abbrev artifact_keywords : List String
artifact_keywords =
    "artifact" ∷ "artifacts" ∷ "create" ∷ "document" ∷ "file" ∷ "generate" ∷ "output" ∷ "persist"
    ∷ "report" ∷ "result" ∷ "save" ∷ "summary" ∷ "write" ∷ []

abbrev command_keywords : List String
command_keywords =
    "build" ∷ "command" ∷ "compile" ∷ "execute" ∷ "lint" ∷ "npm test" ∷ "program" ∷ "pytest"
    ∷ "python --version" ∷ "run" ∷ "test" ∷ "tests" ∷ []

-- `_contains_keyword`, which is asked where the metadata hold no bool.
unfoldable pub contains_keyword : Unicode → String → List String → Bool
unfolding any contains
contains_keyword u text keywords = any (contains (u.lower text)) keywords

abbrev told_or_mentioned : Unicode → String → List String → Option Value → Bool
told_or_mentioned u prompt keywords (some (bool b)) = b
told_or_mentioned u prompt keywords _ = contains_keyword u prompt keywords

unfoldable pub expects_artifact : Unicode → VerificationContext → Bool
unfolding contains_keyword get_field
expects_artifact u c =
    told_or_mentioned u c.task_request.prompt artifact_keywords
      (get_field c.task_request.metadata "requires_artifact")

unfoldable pub expects_command : Unicode → VerificationContext → Bool
unfolding contains_keyword get_field
expects_command u c =
    told_or_mentioned u c.task_request.prompt command_keywords
      (get_field c.task_request.metadata "requires_command")

abbrev texts_in : Items → List String
texts_in nil = []
texts_in (cons (str s) xs) = if is_empty s then texts_in xs else s ∷ texts_in xs
texts_in (cons _ xs) = texts_in xs

abbrev texts_of : Option Value → List String
texts_of (some (array xs)) = texts_in xs
texts_of _ = []

unfoldable pub expected_artifacts : VerificationContext → List String
unfolding get_field
expected_artifacts c = texts_of (get_field c.task_request.metadata "expected_artifacts")

unfoldable pub has_successful_tool : String → VerificationContext → Bool
unfolding any
has_successful_tool name c =
    any (λ r. str_eq r.tool_name name && r.success) c.loop_result.tool_results

-- `CONTROLLED_COMMAND_TOOLS` of tools/native/command_tools.py.
abbrev pub controlled_command_tools : List String
controlled_command_tools =
    "run_test" ∷ "run_lint" ∷ "run_build" ∷ "run_compile" ∷ "run_program" ∷ []

unfoldable pub is_successful_command : ToolResult → Bool
unfolding is_one_of
is_successful_command r = is_one_of controlled_command_tools r.tool_name && r.success

abbrev check_of : String → Bool → String → VerificationCheck
check_of name passed message = record { name = name; passed = passed; message = message }

unfoldable pub check_agent_completed : VerificationContext → VerificationCheck
unfolding completed concat
check_agent_completed c =
    if completed c.loop_result
    then check_of "agent_completed" true
        (concat ("Agent ended with status " ∷ c.loop_result.status ∷ "." ∷ []))
    else check_of "agent_completed" false
        (concat ("Agent did not complete: " ∷ c.loop_result.status ∷ "." ∷ []))

abbrev pub is_some_result : List ToolResult → Bool
is_some_result [] = false
is_some_result (r ∷ rs) = true

unfoldable pub check_completion_evidence : Unicode → VerificationContext → VerificationCheck
unfolding has_successful_tool expects_artifact expects_command completed
check_completion_evidence u c =
    if has_successful_tool "finish_task" c
    then check_of "completion_evidence" true "finish_task completed successfully."
    else (if not (
            expects_artifact u c
            || (expects_command u c || is_some_result c.loop_result.tool_results))
          && completed c.loop_result
        then check_of "completion_evidence" true "Text-only completion accepted for this task."
        else check_of "completion_evidence" false "Task requires successful finish_task evidence.")

unfoldable pub check_command_execution : Unicode → VerificationContext → VerificationCheck
unfolding expects_command is_successful_command any
check_command_execution u c =
    if not (expects_command u c)
    then check_of "command_execution" true "No command execution requirement detected."
    else (if any is_successful_command c.loop_result.tool_results
        then check_of "command_execution" true
            "A controlled sandbox command completed successfully."
        else check_of "command_execution" false
            "Task appears to require command execution, but no controlled command tool succeeded.")

module _ (u : Unicode) (paths : Paths) (is_file : String → Bool) where
  -- `_artifact_exists`
  unfoldable pub artifact_exists : String → String → Bool
  artifact_exists artifact_root relative_path =
      let candidate = paths.resolve (paths.join_path artifact_root relative_path) in
      paths.is_relative_to candidate (paths.resolve artifact_root) && is_file candidate

  abbrev pub is_missing : VerificationContext → String → Bool
  is_missing c path =
      not (is_one_of c.artifact_paths path) || not (artifact_exists c.artifact_root path)

  abbrev check_missing : List String → VerificationCheck
  check_missing [] = check_of "artifacts" true "Expected artifacts were produced."
  check_missing (m ∷ ms) =
      check_of "artifacts" false
        (concat ("Missing expected artifact(s): " ∷ join ", " (m ∷ ms) ∷ []))

  -- The checks of the expected artifacts, if there are any, and of the artifacts that exist.
  abbrev pub check_expected : VerificationContext → List String → VerificationCheck
  check_expected c [] =
      if not (expects_artifact u c)
      then check_of "artifacts" true "No artifact requirement detected."
      else (if any (artifact_exists c.artifact_root) c.artifact_paths
          then check_of "artifacts" true "At least one artifact was produced."
          else check_of "artifacts" false
              "Task appears to require an artifact, but none were produced.")
  check_expected c (p ∷ ps) = check_missing (select (is_missing c) (p ∷ ps))

  unfoldable pub check_artifacts : VerificationContext → VerificationCheck
  unfolding expected_artifacts artifact_exists expects_artifact select any concat join is_one_of
  check_artifacts c = check_expected c (expected_artifacts c)

  abbrev all_passed : List VerificationCheck → Bool
  all_passed [] = true
  all_passed (k ∷ ks) = k.passed && all_passed ks

  -- `BasicVerificationService.verify`
  unfoldable pub verify : VerificationContext → VerificationResult
  unfolding check_agent_completed check_completion_evidence check_artifacts check_command_execution
  verify c =
      let checks =
        check_agent_completed c
        ∷ check_completion_evidence u c
        ∷ check_artifacts c
        ∷ check_command_execution u c
        ∷ [] in
      record {
        passed = all_passed checks;
        checks = checks;
        summary =
            if all_passed checks
            then "Verification passed."
            else concat (
                "Verification failed: "
                ∷ join "; " (map (λ k. k.message) (failed_checks checks))
                ∷ []);
      }
