-- ===== src/Runners.antt =====
-- app/orchestration/runners and execution_router.py: what runs a task in one of the three modes. A
-- runner reads and changes a state `E` of the world and may raise.
pub mod Trace
mod Tests
use cloud_agent_platform_dem.Prelude.{
  ℕ, ◌+◌, String, Bool, true, false, Option, none, some, List, [], ◌∷◌, ◌++◌, if◌then◌else◌,
}
use cloud_agent_platform_dem.Prelude.Exec.{Exec, Result, ok, err, pure, ◌>>=◌, value_error}
use cloud_agent_platform_dem.Text.{is_empty, concat, join}
use cloud_agent_platform_dem.Value.{
  Value, Fields, Items, nil, cons, str, array, get_field, put_field,
}
use cloud_agent_platform_dem.Llm.{ChatMessage}
use cloud_agent_platform_dem.Tools.{ToolContext}
use cloud_agent_platform_dem.AgentLoop.{AgentLoopConfig, AgentLoopResult, Parts, completed}
use cloud_agent_platform_dem.AgentLoop
use cloud_agent_platform_dem.Profile.{
  ExecutionMode, TaskPhase, TaskProfile, single, sequential, sync, phase_text,
}

pub record RunnerInput : Type 0 where
  pub task : String
  pub task_id : String
  pub workspace_root : String
  pub artifact_root : Option String
  pub allow_write : Bool
  pub role : String
  pub metadata : Fields

-- `AgentRunner.run`
abbrev pub AgentRunner : Type 0 → Type 0
AgentRunner E = RunnerInput → Exec E AgentLoopResult

abbrev asked_model : Option Value → Option String
asked_model (some (str name)) = if is_empty name then none else some name
asked_model _ = none

-- `SingleAgentRunner.run`
unfoldable pub run_single : {E : Type 0} → Parts E → AgentLoopConfig → AgentRunner E
unfolding get_field
run_single parts config i =
    AgentLoop.run parts config
      (record {
        task_id = i.task_id;
        workspace_root = i.workspace_root;
        role = i.role;
        artifact_root = i.artifact_root;
        allowed_paths = [];
        allow_write = i.allow_write;
        allow_network = false;
        metadata = i.metadata;
      })
      (asked_model (get_field i.metadata "model_name")) i.task [] none

pub record PhaseRunner (E : Type 0) : Type 0 where
  pub phase : TaskPhase
  pub runner : AgentRunner E

-- `SequentialRunner.__init__`
abbrev pub sequential_runner : {E : Type 0} → List (PhaseRunner E) → Result (List (PhaseRunner E))
sequential_runner [] = err (value_error "SequentialRunner requires at least one phase runner")
sequential_runner (p ∷ ps) = ok (p ∷ ps)

abbrev texts : List String → Items
texts [] = nil
texts (s ∷ ss) = cons (str s) (texts ss)

-- `_phase_prompt`
unfoldable pub phase_prompt : String → TaskPhase → List String → String
unfolding concat join
phase_prompt task phase previous =
    if is_empty (join "\n" previous)
    then concat ("Phase: " ∷ phase_text phase ∷ "\nTask: " ∷ task ∷ [])
    else concat (
        "Phase: "
        ∷ phase_text phase
        ∷ "\nTask: "
        ∷ task
        ∷ "\nPrevious phase summaries:\n"
        ∷ join "\n" previous
        ∷ [])

unfoldable pub phase_input : RunnerInput → TaskPhase → List String → RunnerInput
unfolding phase_prompt put_field
phase_input i phase summaries = record i {
  task = phase_prompt i.task phase summaries;
  role = phase_text phase;
  metadata =
      put_field (put_field i.metadata "phase" (str (phase_text phase))) "previous_summaries"
        (array (texts summaries));
}

-- The local variables of `run`.
pub record Sums : Type 0 where
  pub summaries : List String
  pub messages : List ChatMessage
  pub total_turns : ℕ
  pub total_tool_calls : ℕ

abbrev pub nothing_yet : Sums
nothing_yet = record { summaries = []; messages = []; total_turns = 0; total_tool_calls = 0 }

abbrev pub phase_summary : TaskPhase → AgentLoopResult → String
phase_summary phase r = concat (phase_text phase ∷ ": " ∷ r.final_response ∷ [])

unfoldable pub add_phase : TaskPhase → AgentLoopResult → Sums → Sums
add_phase phase r a = record {
  summaries = a.summaries ++ phase_summary phase r ∷ [];
  messages = a.messages ++ r.messages;
  total_turns = a.total_turns + r.turns;
  total_tool_calls = a.total_tool_calls + r.tool_calls;
}

unfoldable pub sequence_result : String → String → Sums → AgentLoopResult
sequence_result status final_response a = record {
  status = status;
  final_response = final_response;
  messages = a.messages;
  model_responses = [];
  tool_results = [];
  turns = a.total_turns;
  tool_calls = a.total_tool_calls;
}

module _ {E : Type 0} (i : RunnerInput) where
  unfoldable pub run_phases : List (PhaseRunner E) → Sums → Exec E AgentLoopResult
  unfolding completed join
  run_phases [] a = pure (sequence_result "completed" (join "\n" a.summaries) a)
  run_phases (p ∷ ps) a = do
    r ← p.runner (phase_input i p.phase a.summaries)
    let b = add_phase p.phase r a
    let rest = run_phases ps b
    if completed r then rest else pure (sequence_result r.status r.final_response b)

-- `SequentialRunner.run`
unfoldable pub run_sequential : {E : Type 0} → List (PhaseRunner E) → AgentRunner E
run_sequential ps i = run_phases i ps nothing_yet

-- `ExecutionRouter.__init__` and `route`
pub record ExecutionRouter (E : Type 0) : Type 0 where
  pub single_runner : AgentRunner E
  pub sequential_runner : AgentRunner E
  pub sync_runner : AgentRunner E

abbrev or_else : {E : Type 0} → Option (AgentRunner E) → AgentRunner E → AgentRunner E
or_else none runner = runner
or_else (some other) runner = other

unfoldable pub execution_router :
    {E : Type 0}
    → AgentRunner E
    → Option (AgentRunner E)
    → Option (AgentRunner E)
    → ExecutionRouter E
execution_router one in_sequence in_sync = record {
  single_runner = one;
  sequential_runner = or_else in_sequence one;
  sync_runner = or_else in_sync (or_else in_sequence one);
}

abbrev runner_for : {E : Type 0} → ExecutionRouter E → ExecutionMode → AgentRunner E
runner_for router single = router.single_runner
runner_for router sequential = router.sequential_runner
runner_for router sync = router.sync_runner

unfoldable pub route : {E : Type 0} → ExecutionRouter E → TaskProfile → AgentRunner E
route router p = runner_for router p.mode
