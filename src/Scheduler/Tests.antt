-- ===== src/Scheduler/Tests.antt =====
-- The scheduler of app/orchestration/task_scheduler.py on small inputs.
use cloud_agent_platform_dem.Prelude.{
  ℕ, ◌+◌, ◌≡◌, refl, ◌⊎◌, String, false, none, some, [], ◌∷◌, length, select, str_eq, arith,
  str_eq_iff,
}
use cloud_agent_platform_dem.Prelude.Sort.{find, sort_by}
use cloud_agent_platform_dem.Prelude.Int.{ℤ, pos, negsuc}
use cloud_agent_platform_dem.Prelude.Dict.{get, put}
use cloud_agent_platform_dem.Prelude.Exec.{ok}
use cloud_agent_platform_dem.Text.{Unicode}
use cloud_agent_platform_dem.Domain.{Task, TaskRequest, queued, default_request}
use cloud_agent_platform_dem.Domain
use cloud_agent_platform_dem.TaskStore.{TaskStore, get_task, list}
use cloud_agent_platform_dem.TaskStore.Laws.{IsWellFormed}
use cloud_agent_platform_dem.Lease.{ExecutionLease, System, acquire}
use cloud_agent_platform_dem.Lease.Acquire.{acquired}
use cloud_agent_platform_dem.Scheduler.{
  TaskScheduler, active_tasks, requires_sandbox, next_task, no_later, concurrency_full,
  sandbox_capacity_available,
}
use cloud_agent_platform_dem.Scheduler.Order.{HasRoom, HasSandboxRoom, ComesFirst, next_task_lem}
use cloud_agent_platform_dem.Scheduler.Capacity.{IsAtMost, next_task-acquire_within_limits}

abbrev plain : Unicode
plain = record { lower = λ s. s; strip = λ s. s; repr = λ s. s }

abbrev scheduler : TaskScheduler
scheduler = record {
  unicode = plain;
  max_concurrent_tasks = some (pos 1);
  max_sandbox_tasks = some (pos 0);
}

abbrev asks : ℤ → String → TaskRequest
asks priority provider = record (default_request "explain") {
  priority = priority;
  sandbox_provider = provider;
}

abbrev waiting : String → ℕ → TaskRequest → Task
waiting id at request = record (Domain.create at id request none) {
  status = queued;
  queued_at = some at;
}

-- The task of the highest priority asks for a sandbox, for which there is no room.
abbrev store : TaskStore
store = record {
  tasks =
      ("a", waiting "a" 10 (asks (negsuc 0) "disabled"))
      ∷ ("b", waiting "b" 12 (asks (pos 3) "docker"))
      ∷ ("c", waiting "c" 13 (asks (pos 2) "none"))
      ∷ ("d", waiting "d" 11 (asks (pos 2) "none"))
      ∷ [];
}

keyed : (k : String) (t : Task) → get store.tasks k ≡ some t → t.id ≡ k
unfolding get Domain.create
keyed k t found =
    ground (arith, found, str_eq_iff "a" k, str_eq_iff "b" k, str_eq_iff "c" k, str_eq_iff "d" k)

store-IsWellFormed : IsWellFormed store
unfolding get str_eq
store-IsWellFormed = record { distinct = (refl, (refl, (refl, (refl, tt)))); keyed = keyed }

next_task-store : next_task scheduler store ≡ some (waiting "d" 11 (asks (pos 2) "none"))
unfolding next_task concurrency_full sandbox_capacity_available requires_sandbox list no_later find
    sort_by str_eq Domain.create
next_task-store = refl

abbrev system : System
system = record { store = store; leases = []; ttl_seconds = 60 }

abbrev chosen : Task
chosen = waiting "d" 11 (asks (pos 2) "none")

abbrev lease : ExecutionLease
lease = record {
  id = "l";
  task_id = "d";
  worker_id = "w";
  acquired_at = 20;
  expires_at = 60000020;
  released_at = none;
}

acquire-chosen :
    acquire 20 "l" chosen.id "w" system ≡ (ok lease, acquired 20 "l" "d" "w" chosen system)
unfolding acquire get put str_eq Domain.create
acquire-chosen = refl

next_task-acquire_within_limits_example :
    (length (active_tasks (acquired 20 "l" "d" "w" chosen system).store)
      ≡ length (active_tasks store) + 1)
    × IsAtMost (some (pos 1)) (length (active_tasks (acquired 20 "l" "d" "w" chosen system).store))
    × ((requires_sandbox scheduler chosen ≡ false)
        ⊎ IsAtMost (some (pos 0)) (
            length (
              select
                (requires_sandbox scheduler)
                (active_tasks (acquired 20 "l" "d" "w" chosen system).store))))
next_task-acquire_within_limits_example =
    next_task-acquire_within_limits scheduler 20 "l" "w" chosen system lease
      (acquired 20 "l" "d" "w" chosen system) store-IsWellFormed next_task-store acquire-chosen

next_task_lem_example :
    ((next_task scheduler store ≡ none)
      × ((¬ HasRoom scheduler store)
          ⊎ ((u : Task)
              → get_task u.id store ≡ some u
              → u.status ≡ queued
              → ¬ HasSandboxRoom scheduler store u)))
    ⊎ ((t : Task) × (next_task scheduler store ≡ some t)
        × (get_task t.id store ≡ some t)
        × (t.status ≡ queued)
        × HasRoom scheduler store
        × HasSandboxRoom scheduler store t
        × ((u : Task)
            → get_task u.id store ≡ some u
            → u.status ≡ queued
            → HasSandboxRoom scheduler store u
            → (u ≡ t) ⊎ ComesFirst t u))
next_task_lem_example = next_task_lem scheduler store store-IsWellFormed
