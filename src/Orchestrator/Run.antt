-- ===== src/Orchestrator/Run.antt =====
-- `TaskOrchestrator.run`, by its parts: the moves to PREPARING and the workspace, the repository,
-- the sandbox, the agent, the verification and the result, and the handler of every exception. A run
-- that is cancelled, which its handler does not catch, is not modelled.
use cloud_agent_platform_dem.Prelude.{String, ◌&&◌, Option, none, some, List, if◌then◌else◌}
use cloud_agent_platform_dem.Prelude.Exec.{
  Exec, Error, Result, ok, err, pure, lift, gets, ◌>>=◌, ◌>>◌,
}
use cloud_agent_platform_dem.Text.{concat}
use cloud_agent_platform_dem.Value.{Fields}
use cloud_agent_platform_dem.Domain.{
  Task, scheduled, preparing, sandbox_starting, running, verifying, succeeded, failed, is_terminal,
}
use cloud_agent_platform_dem.StateMachine.{transition}
use cloud_agent_platform_dem.TaskStore.{require, update}
use cloud_agent_platform_dem.Lease.{ExecutionLease}
use cloud_agent_platform_dem.AgentLoop.{AgentLoopResult, completed}
use cloud_agent_platform_dem.Verifier.{VerificationResult, error_summary}
use cloud_agent_platform_dem.Workspace.{WorkspaceLayout, create_workspace}
use cloud_agent_platform_dem.Worker.{OrchestratorResult}
use cloud_agent_platform_dem.Orchestrator.World.{
  World, Parts, Session, PreparedRepository, on_store, on_world,
}
use cloud_agent_platform_dem.Orchestrator.Request.{sandbox_requested}
use cloud_agent_platform_dem.Orchestrator.Metadata.{
  runner_metadata, result_metadata, failure_metadata,
}
use cloud_agent_platform_dem.Orchestrator.TaskSandbox.{start_task_sandbox, cleanup_task_sandbox}
use cloud_agent_platform_dem.Orchestrator.Steps.{
  advance, put_task, move, prepare_given, classify_task, select_runner, list_artifacts, save,
  assign_sandbox, assign_profile, failure_result, fail_unless_ended,
}

module _ {E : Type 0} (parts : Parts E) where
  -- The repository, and the place of the workspace written to the task.
  unfoldable pub prepare : WorkspaceLayout → Exec (Session E) (Option PreparedRepository)
  unfolding put_task
  prepare layout = do
    task ← gets (λ s. s.task)
    prepared ← on_world (prepare_given parts layout.repository task.request.repository)
    now ← gets (λ s. parts.now s.world)
    let located = record task { workspace_root = some layout.root; updated_at = now }
    put_task located
    pure prepared

  -- The start of the sandbox.
  unfoldable pub start_for_task : WorkspaceLayout → String → Exec (Session E) (Unit {0})
  unfolding start_task_sandbox
  start_for_task layout workspace_root = do
    task ← gets (λ s. s.task)
    sandbox ← on_world (start_task_sandbox parts task.request workspace_root layout.artifacts)
    assign_sandbox sandbox

  -- The move to SANDBOX_STARTING if a sandbox is requested, and the start of the sandbox.
  unfoldable pub start_sandbox :
      WorkspaceLayout → String → ExecutionLease → Exec (Session E) (Unit {0})
  unfolding move start_for_task sandbox_requested
  start_sandbox layout workspace_root lease = do
    task ← gets (λ s. s.task)
    if sandbox_requested parts task.request then move parts sandbox_starting lease else pure tt
    start_for_task layout workspace_root

  -- The move to RUNNING, the choice of the runner and its run.
  unfoldable pub run_agent :
      WorkspaceLayout → String → ExecutionLease → Exec (Session E) AgentLoopResult
  unfolding move classify_task select_runner runner_metadata
  run_agent layout workspace_root lease = do
    move parts running lease
    s ← gets (λ s. s)
    profile ← lift (classify_task parts s.task.request)
    assign_profile profile
    on_world (
        select_runner parts profile (record {
          task = s.task.request.prompt;
          task_id = s.task.id;
          workspace_root = workspace_root;
          artifact_root = some layout.artifacts;
          allow_write = s.task.request.allow_write;
          role = "agent";
          metadata = runner_metadata parts s.task.request s.task_sandbox profile;
        }))

  -- The result of a run that was verified.
  unfoldable pub conclude :
      AgentLoopResult
      → VerificationResult
      → List String
      → Fields
      → Exec (Session E) OrchestratorResult
  unfolding save completed error_summary
  conclude loop v artifact_paths metadata =
      let error = if completed loop then error_summary v else loop.status in
      if completed loop && v.passed
      then save parts succeeded
          (record {
            status = succeeded;
            summary = loop.final_response;
            artifact_paths = artifact_paths;
            error = none;
            metadata = metadata;
          })
          none
      else save parts failed
          (record {
            status = failed;
            summary = loop.final_response;
            artifact_paths = artifact_paths;
            error = some error;
            metadata = metadata;
          })
          (some error)

  -- The move to VERIFYING, the verification, the end of the sandbox and the result.
  unfoldable pub verify_result :
      WorkspaceLayout
      → String
      → ExecutionLease
      → Option PreparedRepository
      → AgentLoopResult
      → Exec (Session E) OrchestratorResult
  unfolding move list_artifacts cleanup_task_sandbox conclude result_metadata
  verify_result layout workspace_root lease prepared loop = do
    move parts verifying lease
    s ← gets (λ s. s)
    let artifact_paths = list_artifacts parts layout.artifacts s.world
    v ← on_world (
        parts.verify (record {
          task_request = s.task.request;
          workspace_root = workspace_root;
          artifact_root = layout.artifacts;
          artifact_paths = artifact_paths;
          loop_result = loop;
        }))
    cleanup ← on_world (cleanup_task_sandbox parts s.task_sandbox)
    assign_sandbox none
    conclude loop v artifact_paths
        (result_metadata loop layout prepared s.task_profile s.task_sandbox cleanup v)

  -- The body of the `try`.
  unfoldable pub try_body : WorkspaceLayout → ExecutionLease → Exec (Session E) OrchestratorResult
  unfolding prepare start_sandbox run_agent verify_result
  try_body layout lease = do
    prepared ← prepare layout
    workspace_root ←
        gets
          (λ s. if parts.exists layout.repository s.world then layout.repository else layout.root)
    start_sandbox layout workspace_root lease
    loop ← run_agent layout workspace_root lease
    verify_result layout workspace_root lease prepared loop

  -- `except Exception`, for every exception that it catches: an `Error` is one of them, and no
  -- cancellation is.
  unfoldable pub handle_failure : Error → Session E → Result OrchestratorResult × World E
  unfolding cleanup_task_sandbox failure_metadata require transition update is_terminal concat
  handle_failure x s =
      (do
        cleanup ← cleanup_task_sandbox parts s.task_sandbox
        let result = failure_result parts x (failure_metadata s.task_profile s.task_sandbox cleanup)
        current ← on_store (require s.task.id)
        fail_unless_ended parts result current
        pure (record {
          task_id = s.task.id;
          status = failed;
          summary = result.summary;
          error = result.error;
          metadata = result.metadata;
        }))
        s.world

  abbrev pub handled : Result OrchestratorResult × Session E → Result OrchestratorResult × World E
  handled (ok r, s) = (ok r, s.world)
  handled (err x, s) = handle_failure x s

  -- The `try` statement, with the variables as they are set before it.
  abbrev pub try_run : Task → WorkspaceLayout → ExecutionLease → Exec (World E) OrchestratorResult
  try_run task layout lease w = handled (
      try_body layout lease
        (record { world = w; task = task; task_sandbox = none; task_profile = none }))

  -- `run`
  unfoldable pub run : String → ExecutionLease → Exec (World E) OrchestratorResult
  unfolding advance create_workspace try_body handle_failure require
  run task_id lease = do
    task ← on_store (require task_id)
    taken ← advance parts task scheduled lease
    prepared ← advance parts taken preparing lease
    layout ← create_workspace parts.mkdir parts.paths parts.workspaces_root prepared.id
    try_run prepared layout lease
