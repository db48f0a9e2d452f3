-- ===== src/Worker/Tests.antt =====
-- A round of the worker of app/orchestration/task_worker.py whose orchestrator raises.
use cloud_agent_platform_dem.Prelude.{◌≡◌, ◌⊎◌, none, some, []}
use cloud_agent_platform_dem.Prelude.Dict.{get}
use cloud_agent_platform_dem.Prelude.Exec.{Error, ok, err, value_error}
use cloud_agent_platform_dem.Text.{Unicode}
use cloud_agent_platform_dem.Domain.{Task, queued, default_request}
use cloud_agent_platform_dem.Domain
use cloud_agent_platform_dem.TaskStore.{empty, create}
use cloud_agent_platform_dem.TaskStore.Laws.{IsWellFormed, create-IsWellFormed}
use cloud_agent_platform_dem.Lease.{ExecutionLease, System, acquire}
use cloud_agent_platform_dem.Scheduler.{TaskScheduler, next_task}
use cloud_agent_platform_dem.World.{World}
use cloud_agent_platform_dem.Worker.{Orchestrator, Round, idle_result, process_once}
use cloud_agent_platform_dem.Worker.Release.{HasRun, process_once_lem}

abbrev one : Task
one = record (Domain.create 10 "one" (default_request "explain") none) {
  status = queued;
  queued_at = some 11;
}

abbrev start : System
start = record { store = (create one empty).1; leases = []; ttl_seconds = 1 }

start-IsWellFormed : IsWellFormed start.store
unfolding get
start-IsWellFormed =
    create-IsWellFormed one empty (record { distinct = tt; keyed = λ k t found. absurd (cc) })

abbrev plain : Unicode
plain = record { lower = λ s. s; strip = λ s. s; repr = λ s. s }

abbrev scheduler : TaskScheduler
scheduler = record { unicode = plain; max_concurrent_tasks = none; max_sandbox_tasks = none }

abbrev world : World (Unit {0})
world = record { system = start; outside = tt }

abbrev raising : Orchestrator (Unit {0})
raising task_id lease s = (err (value_error "no"), s)

abbrev round : Round
round = record { lease_id = "a"; acquired_at = 20; released_at = 30 }

process_once_lem_example :
    ((next_task scheduler start.store ≡ none)
      × (process_once scheduler raising "w" round world ≡ (ok (idle_result "w"), world)))
    ⊎ ((t : Task) × (x : Error) × (next_task scheduler start.store ≡ some t)
        × (acquire 20 "a" t.id "w" start ≡ (err x, start))
        × (process_once scheduler raising "w" round world ≡ (err x, world)))
    ⊎ ((t : Task) × (lease : ExecutionLease) × (s' : System) × (next_task scheduler start.store
          ≡ some t)
        × (acquire 20 "a" t.id "w" start ≡ (ok lease, s'))
        × HasRun raising "w" t lease
            (record world { system = s' })
            (process_once scheduler raising "w" round world))
process_once_lem_example = process_once_lem scheduler raising "w" round world start-IsWellFormed
