-- ===== src/Coordinator/Tests.antt =====
-- The coordinator of app/orchestration/multi_agent with a runner that always completes.
use cloud_agent_platform_dem.Prelude.{ℕ, false, String, ◌≡◌, refl, none, some, List, [], ◌∷◌}
use cloud_agent_platform_dem.Prelude.Dict.{Dict, get}
use cloud_agent_platform_dem.Prelude.Exec.{ok}
use cloud_agent_platform_dem.Value.{Value, end}
use cloud_agent_platform_dem.AgentLoop.{AgentLoopResult}
use cloud_agent_platform_dem.Profile.{TaskPhase, explore, review}
use cloud_agent_platform_dem.Runners.{RunnerInput, AgentRunner}
use cloud_agent_platform_dem.Blackboard.{Blackboard}
use cloud_agent_platform_dem.Blackboard.Authority.{IsAuthorised}
use cloud_agent_platform_dem.Coordinator.{RoleRunners, run_sync}
use cloud_agent_platform_dem.Coordinator.Success.{AreReady, LeavesBoard, run_sync_leaves}

abbrev result : AgentLoopResult
result = record {
  status = "completed";
  final_response = "done";
  messages = [];
  model_responses = [];
  tool_results = [];
  turns = 1;
  tool_calls = 0;
}

abbrev runner : AgentRunner ℕ
runner i time = (ok result, time)

abbrev runners : RoleRunners ℕ
runners role = some runner

runners_ready : AreReady runners
runners_ready = record {
  runner = λ role. runner;
  present = λ role. refl;
  returning = λ role i e. (result, e, refl);
}

abbrev input : RunnerInput
input = record {
  task = "fix";
  task_id = "task";
  workspace_root = "/w";
  artifact_root = none;
  allow_write = false;
  role = "agent";
  metadata = end;
}

abbrev clock : ℕ → ℕ
clock time = time

abbrev fresh_id : ℕ → String
fresh_id time = "id"

abbrev shown : Dict Value → String
shown d = "{}"

abbrev phases : List TaskPhase
phases = explore ∷ review ∷ []

abbrev fresh : Blackboard
fresh = []

fresh-IsAuthorised : IsAuthorised fresh
unfolding get
fresh-IsAuthorised = record { distinct = tt; allowed = λ k i found. absurd (cc) }

run_sync_leaves_example :
    (r : AgentLoopResult) × (board : Blackboard) × (e : ℕ) × (run_sync clock fresh_id shown runners
        input phases
        (fresh, 7)
      ≡ (ok r, (board, e)))
    × IsAuthorised board
    × LeavesBoard shown runners input runners_ready phases r board
run_sync_leaves_example =
    run_sync_leaves clock fresh_id shown runners input runners_ready phases fresh 7
      fresh-IsAuthorised
