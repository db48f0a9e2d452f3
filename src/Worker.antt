-- ===== src/Worker.antt =====
-- app/orchestration/task_worker.py and models.py. What the worker calls is its scheduler, the lease
-- manager and the orchestrator, a parameter: an action on the world that may raise, in which
-- the heartbeats and whatever else happens while it runs are included.
pub mod Release
mod Tests
use cloud_agent_platform_dem.Prelude.{
  ℕ, String, Bool, true, false, Option, none, some, List, [], ◌∷◌, if◌then◌else◌,
}
use cloud_agent_platform_dem.Prelude.Exec.{Exec, Result, ok, err, pure, gets, ◌>>=◌}
use cloud_agent_platform_dem.Value.{Fields}
use cloud_agent_platform_dem.Domain.{DateTime, Task, TaskStatus}
use cloud_agent_platform_dem.Lease.{ExecutionLease, acquire, release}
use cloud_agent_platform_dem.World.{World, with_system}
use cloud_agent_platform_dem.Scheduler.{TaskScheduler, next_task}

pub record OrchestratorResult : Type 0 where
  pub task_id : String
  pub status : TaskStatus
  pub summary : String
  pub error : Option String
  pub metadata : Fields

pub record WorkerResult : Type 0 where
  pub worker_id : String
  pub task_id : Option String
  pub processed : Bool
  pub status : Option TaskStatus
  pub error : Option String

-- `TaskOrchestrator.run`
abbrev pub Orchestrator : Type 0 → Type 0
Orchestrator E = String → ExecutionLease → Exec (World E) OrchestratorResult

-- What a round reads from outside: the id of its lease, and the clock when it acquires and releases.
pub record Round : Type 0 where
  pub lease_id : String
  pub acquired_at : DateTime
  pub released_at : DateTime

abbrev pub idle_result : String → WorkerResult
idle_result worker_id = record {
  worker_id = worker_id;
  task_id = none;
  processed = false;
  status = none;
  error = none;
}

abbrev pub processed_result : String → String → OrchestratorResult → WorkerResult
processed_result worker_id task_id r = record {
  worker_id = worker_id;
  task_id = some task_id;
  processed = true;
  status = some r.status;
  error = r.error;
}

-- `try: ... finally: release`, whether the action returns or raises.
abbrev pub finally_release :
    {E A : Type 0} → DateTime → String → Result A × World E → Result A × World E
finally_release now lease_id (r, w) = (r, record w { system = release now lease_id w.system })

module _ {E : Type 0} (scheduler : TaskScheduler) (orchestrate : Orchestrator E)
    (worker_id : String) where
  unfoldable pub run_leased : Round → Task → ExecutionLease → Exec (World E) WorkerResult
  unfolding release
  run_leased round task lease s =
      finally_release round.released_at lease.id
        ((do r ← orchestrate task.id lease; pure (processed_result worker_id task.id r)) s)

  abbrev pub process_task : Round → Option Task → Exec (World E) WorkerResult
  process_task round none = pure (idle_result worker_id)
  process_task round (some task) = do
    lease ← with_system (acquire round.acquired_at round.lease_id task.id worker_id)
    run_leased round task lease

  -- `process_once`
  unfoldable pub process_once : Round → Exec (World E) WorkerResult
  unfolding run_leased next_task acquire
  process_once round = do
    task ← gets (λ w. next_task scheduler w.system.store)
    process_task round task

  -- `run_until_idle`, with as many rounds as `max_tasks`.
  unfoldable pub run_until_idle : List Round → Exec (World E) (List WorkerResult)
  unfolding process_once
  run_until_idle [] = pure []
  run_until_idle (round ∷ rounds) = do
    r ← process_once round
    let rest = run_until_idle rounds
    if r.processed then (rest >>= λ rs. pure (r ∷ rs)) else pure []
