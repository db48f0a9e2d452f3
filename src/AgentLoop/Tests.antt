-- ===== src/AgentLoop/Tests.antt =====
-- The loop of app/orchestration/agent_loop.py with a scripted provider and a constant executor.
use cloud_agent_platform_dem.Prelude.{
  ◌≡◌, refl, String, true, Option, none, some, List, [], ◌∷◌, str_eq,
}
use cloud_agent_platform_dem.Prelude.Exec.{ok, err}
use cloud_agent_platform_dem.Value.{end, field, bool, object, get_field}
use cloud_agent_platform_dem.Llm.{ModelToolCall, ModelResponse, text_response, tools_response}
use cloud_agent_platform_dem.Tools.{ToolContext, ok_result}
use cloud_agent_platform_dem.AgentLoop.{
  AgentLoopConfig, Parts, run, run_turns, run_calls, respond, result_of, has_finished, add_result,
  add_response, request_for,
}
use cloud_agent_platform_dem.AgentLoop.Limits.{IsAccounted, OnReturn, run-IsAccounted}
use cloud_agent_platform_dem.AgentLoop.Ending.{HasEnded, Returns, NeverRaise, run-HasEnded}

abbrev next_response : List ModelResponse → ModelResponse
next_response [] = text_response "done"
next_response (r ∷ rs) = r

abbrev others : List ModelResponse → List ModelResponse
others [] = []
others (r ∷ rs) = rs

-- A provider that gives the responses of a script in turn, and an executor whose tools all finish.
abbrev scripted : Parts (List ModelResponse)
scripted = record {
  generate = λ request script. (ok (next_response script), others script);
  execute = λ request context script.
      (ok (ok_result request "ran" (some (object (field "finished" (bool true) end))) end), script);
  schemas = [];
}

scripted_never_raises : NeverRaise scripted
scripted_never_raises = record {
  generates = λ request script. (next_response script, others script, refl);
  executes = λ request context script. (
    ok_result request "ran" (some (object (field "finished" (bool true) end))) end,
    script,
    refl,
  );
}

abbrev config : AgentLoopConfig
config = record { max_turns = 3; max_tool_calls = 2; system_prompt = "help" }

abbrev context : ToolContext
context = record {
  task_id = "task";
  workspace_root = "/w";
  role = "developer";
  artifact_root = none;
  allowed_paths = [];
  allow_write = true;
  allow_network = true;
  metadata = end;
}

abbrev call : String → ModelToolCall
call name = record { name = name; arguments = end; id = name }

abbrev script : List ModelResponse
script =
    tools_response (call "read_file" ∷ []) ""
    ∷ tools_response (call "finish_task" ∷ call "read_file" ∷ []) ""
    ∷ []

abbrev status_of : List ModelResponse → Option String
status_of s = elim (run scripted config context none "fix" [] none s).0 [
  | ok r ↦ some r.status
  | err e ↦ none
]

-- The second turn finishes, and its second call is not made.
finishes : status_of script ≡ some "finished"
unfolding run run_turns run_calls respond tools_response has_finished result_of request_for
    ok_result add_result add_response get_field str_eq
finishes = refl

run-IsAccounted_example :
    OnReturn (IsAccounted config 0) (run scripted config context none "fix" [] none script).0
run-IsAccounted_example = run-IsAccounted scripted config context none "fix" [] none script

run-HasEnded_example :
    Returns (HasEnded config) (run scripted config context none "fix" [] none script).0
run-HasEnded_example =
    run-HasEnded scripted config context none "fix" [] none script scripted_never_raises
