-- ===== src/Verifier/Tests.antt =====
-- The verification of app/verification/verifier.py for a task that wants a report.
use cloud_agent_platform_dem.Prelude.{
  ◌≡◌, refl, ◌⊎◌, String, Bool, true, false, none, List, [], ◌∷◌, str_eq, any, select,
}
use cloud_agent_platform_dem.Text.{Unicode, is_one_of}
use cloud_agent_platform_dem.Value.{end, field, bool, str, array, cons, nil, get_field}
use cloud_agent_platform_dem.Domain.{TaskRequest, default_request}
use cloud_agent_platform_dem.Tools.{ToolResult}
use cloud_agent_platform_dem.AgentLoop.{completed}
use cloud_agent_platform_dem.Policy.{Paths}
use cloud_agent_platform_dem.Verifier.{
  VerificationContext, verify, expects_command, expected_artifacts, is_successful_command,
  has_successful_tool, check_agent_completed, check_completion_evidence, check_artifacts,
  check_command_execution, artifact_exists,
}
use cloud_agent_platform_dem.Verifier.Passing.{Succeeded, HasEvidence, HasArtifacts, verify_passed}

abbrev plain : Unicode
plain = record { lower = λ s. s; strip = λ s. s; repr = λ s. s }

abbrev flat : Paths
flat = record {
  resolve = λ s. s;
  resolve_error = λ s. none;
  is_absolute = λ s. true;
  join_path = λ a b. b;
  is_relative_to = λ path root. true;
}

abbrev finish : ToolResult
finish = record {
  tool_name = "finish_task";
  request_id = "1";
  success = true;
  content = "done";
  data_value = none;
  error = none;
  metadata = end;
}

abbrev wanting : TaskRequest
wanting = record (default_request "explain") {
  metadata =
      field "expected_artifacts" (array (cons (str "report.md") nil))
        (field "requires_command" (bool false) end);
}

abbrev context : List String → VerificationContext
context written = record {
  task_request = wanting;
  workspace_root = "/w";
  artifact_root = "/a";
  artifact_paths = written;
  loop_result = record {
    status = "finished";
    final_response = "done";
    messages = [];
    model_responses = [];
    tool_results = finish ∷ [];
    turns = 1;
    tool_calls = 1;
  };
}

abbrev is_file : String → Bool
is_file path = str_eq path "report.md"

without_report : (verify plain flat is_file (context [])).passed ≡ false
unfolding verify check_agent_completed check_completion_evidence check_artifacts
    check_command_execution has_successful_tool any str_eq completed expected_artifacts get_field
    select is_one_of
without_report = refl

verify_passed_example :
    (completed (context ("report.md" ∷ [])).loop_result ≡ true)
    × HasEvidence plain (context ("report.md" ∷ []))
    × HasArtifacts plain flat is_file (context ("report.md" ∷ []))
    × ((expects_command plain (context ("report.md" ∷ [])) ≡ false)
        ⊎ Succeeded is_successful_command (context ("report.md" ∷ [])))
unfolding verify check_agent_completed check_completion_evidence check_artifacts
    check_command_execution has_successful_tool any str_eq completed expected_artifacts get_field
    select is_one_of expects_command artifact_exists
verify_passed_example = verify_passed plain flat is_file (context ("report.md" ∷ [])) refl
