-- ===== src/Orchestrator/Steps.antt =====
-- The steps of `TaskOrchestrator.run`: a move of the task and its write to the store, the choice of
-- the runner, the list of artifacts, and the move with the result.
use cloud_agent_platform_dem.Prelude.{String, Option, none, some, List, [], ◌∷◌, if◌then◌else◌}
use cloud_agent_platform_dem.Prelude.Exec.{
  Exec, Error, Result, ok, err, pure, lift, gets, ◌>>=◌, ◌>>◌,
}
use cloud_agent_platform_dem.Text.{concat}
use cloud_agent_platform_dem.Value.{Fields}
use cloud_agent_platform_dem.Domain.{
  Task, TaskRequest, TaskStatus, TaskResult, RepositoryRef, failed, is_terminal,
}
use cloud_agent_platform_dem.StateMachine.{transition}
use cloud_agent_platform_dem.TaskStore.{require, update}
use cloud_agent_platform_dem.Lease.{ExecutionLease}
use cloud_agent_platform_dem.Profile.{TaskProfile}
use cloud_agent_platform_dem.Runners.{AgentRunner, ExecutionRouter, route}
use cloud_agent_platform_dem.Worker.{OrchestratorResult}
use cloud_agent_platform_dem.Orchestrator.World.{
  World, Parts, Session, TaskSandboxRuntime, PreparedRepository, on_store, on_world,
}

-- An assignment to a variable of `run`.
module _ {E : Type 0} where
  abbrev pub assign_task : Task → Exec (Session E) (Unit {0})
  assign_task task s = pure tt (record s { task = task })

  abbrev pub assign_sandbox : Option (TaskSandboxRuntime E) → Exec (Session E) (Unit {0})
  assign_sandbox sandbox s = pure tt (record s { task_sandbox = sandbox })

  abbrev pub assign_profile : Option TaskProfile → Exec (Session E) (Unit {0})
  assign_profile profile s = pure tt (record s { task_profile = profile })

  -- The assignment and `await self.task_store.update(task)`.
  unfoldable pub put_task : Task → Exec (Session E) (Unit {0})
  unfolding update
  put_task task = do assign_task task; on_world (on_store (update task)); pure tt

module _ {E : Type 0} (parts : Parts E) where
  -- `self.state_machine.transition(task, status, lease_id=lease.id)` and the update of the store.
  unfoldable pub advance : Task → TaskStatus → ExecutionLease → Exec (World E) Task
  unfolding transition update
  advance task status lease = do
    now ← gets parts.now
    moved ← lift (transition now task status (some lease.id) none none)
    on_store (update moved)
    pure moved

  -- The same from the task as the store has it now, with the new task assigned before the update.
  unfoldable pub move : TaskStatus → ExecutionLease → Exec (Session E) (Unit {0})
  unfolding transition put_task require
  move status lease = do
    task ← gets (λ s. s.task)
    current ← on_world (on_store (require task.id))
    now ← gets (λ s. parts.now s.world)
    moved ← lift (transition now current status (some lease.id) none none)
    put_task moved

  abbrev pub prepare_given :
      String → Option RepositoryRef → Exec (World E) (Option PreparedRepository)
  prepare_given destination none = pure none
  prepare_given destination (some r) = do
    prepared ←
        parts.prepare_repository
          (record { url = r.url; ref = r.ref; access_token = r.access_token }) destination
    pure (some prepared)

  abbrev pub classify_by :
      TaskRequest → Option (TaskRequest → Result TaskProfile) → Result (Option TaskProfile)
  classify_by request none = ok none
  classify_by request (some classifier) = elim (classifier request) [
    | ok p ↦ ok (some p)
    | err x ↦ err x
  ]

  -- `_classify_task`
  unfoldable pub classify_task : TaskRequest → Result (Option TaskProfile)
  classify_task request = classify_by request parts.task_classifier

  abbrev pub select_from :
      Option TaskProfile → Option (ExecutionRouter (World E)) → AgentRunner (World E)
  select_from none router = parts.runner
  select_from (some p) none = parts.runner
  select_from (some p) (some router) = route router p

  -- `_select_runner`
  unfoldable pub select_runner : Option TaskProfile → AgentRunner (World E)
  unfolding route
  select_runner profile = select_from profile parts.execution_router

  -- `_list_artifacts`: `files_below` gives the sorted relative paths of the files under a directory.
  unfoldable pub list_artifacts : String → World E → List String
  list_artifacts artifact_root w =
      if parts.exists artifact_root w then parts.files_below artifact_root w else []

  -- The last move, with the result in the task.
  unfoldable pub save :
      TaskStatus → TaskResult → Option String → Exec (Session E) OrchestratorResult
  unfolding transition update require
  save status result error = do
    task ← gets (λ s. s.task)
    current ← on_world (on_store (require task.id))
    now ← gets (λ s. parts.now s.world)
    updated ← lift (transition now current status none (some result) error)
    on_world (on_store (update updated))
    pure (record {
      task_id = task.id;
      status = updated.status;
      summary = result.summary;
      error = result.error;
      metadata = result.metadata;
    })

  abbrev pub failure_result : Error → Fields → TaskResult
  failure_result x metadata = record {
    status = failed;
    summary = "Task execution failed.";
    artifact_paths = [];
    error = some (concat (parts.error_name x ∷ ": " ∷ parts.error_text x ∷ []));
    metadata = metadata;
  }

  -- The task as the store has it now fails, unless it has ended.
  abbrev pub fail_unless_ended : TaskResult → Task → Exec (World E) (Unit {0})
  fail_unless_ended result current = if is_terminal current then pure tt else (do
    now ← gets parts.now
    updated ← lift (transition now current failed none (some result) result.error)
    on_store (update updated)
    pure tt)
