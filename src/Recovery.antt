-- ===== src/Recovery.antt =====
-- app/orchestration/recovery_service.py. No call in the loop waits, so the method is one step; it
-- may raise in the middle of its loop, and what it has written by then stays.
pub mod Effect
mod Tests
use cloud_agent_platform_dem.Prelude.{
  ◌+◌, String, Bool, true, false, Option, none, some, List, [], ◌∷◌, ◌++◌, ltb, if◌then◌else◌,
}
use cloud_agent_platform_dem.Prelude.Exec.{Exec, Result, pure, lift, ◌>>=◌, ◌>>◌}
use cloud_agent_platform_dem.Value.{end}
use cloud_agent_platform_dem.Domain.{
  DateTime, seconds, Task, TaskResult, leased, queued, failed, status_eq, is_active_status,
}
use cloud_agent_platform_dem.StateMachine.{transition}
use cloud_agent_platform_dem.TaskStore.{TaskStore, list, update}

abbrev pub stale_result : TaskResult
stale_result = record {
  status = failed;
  summary = "Recovered stale running task as failed.";
  artifact_paths = [];
  error = some "stale_running_task";
  metadata = end;
}

-- `task.updated_at > now - timedelta(seconds=older_than_seconds)`, with the subtraction moved over.
unfoldable pub is_fresh : DateTime → DateTime → Task → Bool
is_fresh now older_than_seconds task = ltb now (task.updated_at + seconds older_than_seconds)

-- The new version of a stale task.
unfoldable pub recover_task : DateTime → Task → Result Task
unfolding transition
recover_task now task =
    if status_eq task.status leased
    then transition now task queued none none none
    else transition now task failed none (some stale_result) stale_result.error

-- The body of the loop, with the list of the ids recovered so far.
unfoldable pub visit : DateTime → DateTime → List String → Task → Exec TaskStore (List String)
unfolding is_fresh update
visit now older_than_seconds recovered task =
    if is_fresh now older_than_seconds task then pure recovered else (do
      updated ← lift (recover_task now task)
      update updated
      pure (recovered ++ task.id ∷ []))

unfoldable pub visit_all :
    DateTime → DateTime → List String → List Task → Exec TaskStore (List String)
visit_all now older_than_seconds recovered [] = pure recovered
visit_all now older_than_seconds recovered (task ∷ tasks) = do
  recovered' ← visit now older_than_seconds recovered task
  visit_all now older_than_seconds recovered' tasks

unfoldable pub recover_stale_tasks : DateTime → DateTime → Exec TaskStore (List String)
recover_stale_tasks now older_than_seconds s =
    visit_all now older_than_seconds [] (list is_active_status s) s
