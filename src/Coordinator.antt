-- ===== src/Coordinator.antt =====
-- app/orchestration/multi_agent: models.py, coordinator.py and delegation.py, and the runner of
-- runners/sync_multi_agent.py. The state is the shared board and the world `E`; `clock` reads the
-- time off the world and `fresh` an unused id, and `shown` is the text of a dict in an f-string.
pub mod Success
mod Tests
use cloud_agent_platform_dem.Prelude.{
  ℕ, ◌+◌, String, Bool, true, false, Option, none, some, List, [], ◌∷◌, ◌++◌, if◌then◌else◌,
}
use cloud_agent_platform_dem.Prelude.Int.{ℤ, pos, negsuc}
use cloud_agent_platform_dem.Prelude.Dict.{Dict}
use cloud_agent_platform_dem.Prelude.Exec.{
  Exec, Result, Error, ok, err, pure, raise, gets, ◌>>=◌, ◌>>◌, key_error,
}
use cloud_agent_platform_dem.Text.{concat, join}
use cloud_agent_platform_dem.Value.{
  Value, Fields, end, field, str, int, bool, object, get_field, put_field,
}
use cloud_agent_platform_dem.Domain.{DateTime}
use cloud_agent_platform_dem.AgentLoop.{AgentLoopResult, completed}
use cloud_agent_platform_dem.Profile.{
  TaskPhase, explore, develop, review, report_phase, phase_text, all_phases,
}
use cloud_agent_platform_dem.Runners.{RunnerInput, AgentRunner}
use cloud_agent_platform_dem.Blackboard.{
  AgentRole, manager, explorer, developer, reviewer, role_text, Blackboard, BlackboardItem, write,
  snapshot,
}

pub record DelegationRequest : Type 0 where
  pub task_id : String
  pub phase : TaskPhase
  pub role : AgentRole
  pub prompt : String
  pub context : Dict Value
  pub id : String

pub record DelegationResult : Type 0 where
  pub request_id : String
  pub role : AgentRole
  pub phase : TaskPhase
  pub success : Bool
  pub summary : String
  pub metadata : Fields

-- `PHASE_ROLE_MAP`
abbrev pub phase_role : TaskPhase → AgentRole
phase_role explore = explorer
phase_role develop = developer
phase_role review = reviewer
phase_role report_phase = manager

-- `_blackboard_prefix`
abbrev pub blackboard_prefix : AgentRole → String
blackboard_prefix explorer = "finding"
blackboard_prefix developer = "implementation"
blackboard_prefix reviewer = "review"
blackboard_prefix manager = "decision"

-- The key that the result of a phase is written under.
unfoldable pub phase_key : TaskPhase → String
unfolding concat
phase_key phase = concat (blackboard_prefix (phase_role phase) ∷ ":" ∷ phase_text phase ∷ [])

abbrev pub delegation_result : DelegationRequest → AgentLoopResult → DelegationResult
delegation_result request r = record {
  request_id = request.id;
  role = request.role;
  phase = request.phase;
  success = completed r;
  summary = r.final_response;
  metadata =
      field "status" (str r.status)
        (field "turns" (int (pos r.turns)) (field "tool_calls" (int (pos r.tool_calls)) end));
}

-- `int(metadata.get(key, 0))`, on what `delegation_result` puts there.
abbrev pub count_of : Option Value → ℕ
count_of (some (int (pos n))) = n
count_of _ = 0

-- The runners of the coordinator; one that is missing raises a `KeyError`.
abbrev pub RoleRunners : Type 0 → Type 0
RoleRunners E = AgentRole → Option (AgentRunner E)

-- An action on the world, under the board.
abbrev pub on_world : {E A : Type 0} → Exec E A → Exec (Blackboard × E) A
on_world m (board, e) = let (r, e') = m e in (r, (board, e'))

abbrev pub on_board : {E A : Type 0} → (E → Exec Blackboard A) → Exec (Blackboard × E) A
on_board m (board, e) = let (r, board') = m e board in (r, (board', e))

abbrev run_by : {E : Type 0} → AgentRole → Option (AgentRunner E) → AgentRunner E
run_by role none i = raise (key_error (role_text role))
run_by role (some runner) i = runner i

-- `DelegationService.delegate`, with the runners by role.
unfoldable pub delegate :
    {E : Type 0} → RoleRunners E → DelegationRequest → RunnerInput → Exec E DelegationResult
delegate runners request i = do
  r ← run_by request.role (runners request.role) i
  pure (delegation_result request r)

unfoldable pub delegate_input :
    (Dict Value → String) → RunnerInput → DelegationRequest → RunnerInput
unfolding concat put_field
delegate_input shown i request = record i {
  task = concat (
      "Role: "
      ∷ role_text request.role
      ∷ "\nPhase: "
      ∷ phase_text request.phase
      ∷ "\nTask: "
      ∷ request.prompt
      ∷ "\nBlackboard: "
      ∷ shown request.context
      ∷ []);
  role = role_text request.role;
  metadata = put_field i.metadata "phase" (str (phase_text request.phase));
}

unfoldable pub request_for : RunnerInput → String → TaskPhase → Blackboard → DelegationRequest
unfolding snapshot
request_for i id phase board = record {
  task_id = i.task_id;
  phase = phase;
  role = phase_role phase;
  prompt = i.task;
  context = snapshot board;
  id = id;
}

unfoldable pub board_value : DelegationResult → Value
board_value d = object (
    field "success" (bool d.success)
      (field "summary" (str d.summary) (field "metadata" (object d.metadata) end)))

unfoldable pub coordinator_result : String → String → ℕ → ℕ → AgentLoopResult
coordinator_result status final_response turns tool_calls = record {
  status = status;
  final_response = final_response;
  messages = [];
  model_responses = [];
  tool_results = [];
  turns = turns;
  tool_calls = tool_calls;
}

abbrev pub summary_line : TaskPhase → DelegationResult → String
summary_line phase d =
    concat (role_text (phase_role phase) ∷ "/" ∷ phase_text phase ∷ ": " ∷ d.summary ∷ [])

module _ {E : Type 0} (clock : E → DateTime) (fresh : E → String) (shown : Dict Value → String)
    (runners : RoleRunners E) (i : RunnerInput) where
  -- `_run_delegate`
  unfoldable pub run_delegate : DelegationRequest → Exec E DelegationResult
  unfolding delegate_input
  run_delegate request = do
    r ← run_by request.role (runners request.role) (delegate_input shown i request)
    pure (delegation_result request r)

  -- One round of the loop, up to the write to the board.
  unfoldable pub run_phase : TaskPhase → Exec (Blackboard × E) DelegationResult
  unfolding run_delegate request_for board_value write phase_key
  run_phase phase = do
    request ← gets (λ s. request_for i (fresh s.1) phase s.0)
    d ← on_world (run_delegate request)
    item ← on_board (λ e. write (clock e) (phase_key phase) (board_value d) (phase_role phase))
    pure d

  -- `run_phases`, from the sums so far.
  unfoldable pub run_phases :
      List TaskPhase → List String → ℕ → ℕ → Exec (Blackboard × E) AgentLoopResult
  unfolding run_phase coordinator_result concat join get_field
  run_phases [] summaries turns tool_calls =
      pure (coordinator_result "completed" (join "\n" summaries) turns tool_calls)
  run_phases (phase ∷ phases) summaries turns tool_calls = do
    d ← run_phase phase
    let turns' = turns + count_of (get_field d.metadata "turns")
    let tool_calls' = tool_calls + count_of (get_field d.metadata "tool_calls")
    let rest = run_phases phases (summaries ++ summary_line phase d ∷ []) turns' tool_calls'
    let failed = coordinator_result "delegation_failed" d.summary turns' tool_calls'
    if d.success then rest else pure failed

  -- `SyncMultiAgentRunner.run`: no phases given means the three of a task.
  unfoldable pub run_sync : List TaskPhase → Exec (Blackboard × E) AgentLoopResult
  run_sync [] = run_phases all_phases [] 0 0
  run_sync (p ∷ ps) = run_phases (p ∷ ps) [] 0 0
