-- ===== src/Runners/Tests.antt =====
-- The sequential runner of app/orchestration/runners/sequential.py, with two phases of which the
-- second gives up.
use cloud_agent_platform_dem.Prelude.{ℕ, String, false, ◌≡◌, refl, none, List, [], ◌∷◌, str_eq}
use cloud_agent_platform_dem.Prelude.Exec.{ok}
use cloud_agent_platform_dem.Value.{end}
use cloud_agent_platform_dem.AgentLoop.{AgentLoopResult, completed}
use cloud_agent_platform_dem.Profile.{explore, develop, review}
use cloud_agent_platform_dem.Runners.{
  RunnerInput, AgentRunner, PhaseRunner, nothing_yet, run_sequential, run_phases, add_phase,
  phase_input,
}
use cloud_agent_platform_dem.Runners.Trace.{Traces, run_sequential-Traces}

abbrev ends_with : String → ℕ → AgentLoopResult
ends_with status turns = record {
  status = status;
  final_response = status;
  messages = [];
  model_responses = [];
  tool_results = [];
  turns = turns;
  tool_calls = 1;
}

-- Each run is noted by the role that it is given.
abbrev noting : String → ℕ → AgentRunner (List String)
noting status turns i done = (ok (ends_with status turns), i.role ∷ done)

abbrev phases : List (PhaseRunner (List String))
phases =
    record { phase = explore; runner = noting "completed" 2 }
    ∷ record { phase = develop; runner = noting "turn_limit_reached" 5 }
    ∷ record { phase = review; runner = noting "completed" 1 }
    ∷ []

abbrev input : RunnerInput
input = record {
  task = "fix";
  task_id = "task";
  workspace_root = "/w";
  artifact_root = none;
  allow_write = false;
  role = "agent";
  metadata = end;
}

-- The third phase is not run.
stops : (run_sequential phases input []).1 ≡ "develop" ∷ "explore" ∷ []
unfolding run_sequential run_phases completed str_eq add_phase phase_input
stops = refl

run_sequential-Traces_example :
    (result : AgentLoopResult) × (e' : List String) × (run_sequential phases input []
      ≡ (ok result, e'))
    × Traces input nothing_yet phases [] result e'
run_sequential-Traces_example =
    run_sequential-Traces input phases []
      (λ i e. (_, _, refl), (λ i e. (_, _, refl), (λ i e. (_, _, refl), tt)))
