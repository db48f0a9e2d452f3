-- ===== src/Lease/Tests.antt =====
-- The lease manager of app/orchestration/execution_lease.py on small inputs.
use cloud_agent_platform_dem.Prelude.{str_eq, ◌≡◌, refl, ◌≢◌, ◌⊎◌, none, some, List, [], ◌∷◌, arith}
use cloud_agent_platform_dem.Prelude.Dict.{get, put}
use cloud_agent_platform_dem.Prelude.Exec.{
  ok, err, task_not_found, lease_task_not_queued, lease_already_active,
}
use cloud_agent_platform_dem.Domain.{DateTime, Task, queued, default_request, seconds}
use cloud_agent_platform_dem.Domain
use cloud_agent_platform_dem.TaskStore.{empty, create, get_task}
use cloud_agent_platform_dem.TaskStore.Laws.{IsWellFormed, create-IsWellFormed}
use cloud_agent_platform_dem.Lease.{
  ExecutionLease, System, active_lease_for_task, acquire, heartbeat, release, get_lease, new_lease,
}
use cloud_agent_platform_dem.Lease.Acquire.{acquired, acquire_lem}
use cloud_agent_platform_dem.Lease.Exclusion.{
  Event, beat, released, handle_all, IsExclusive, handle_all-IsExclusive,
}

abbrev one : Task
one = record (Domain.create 10 "one" (default_request "explain") none) {
  status = queued;
  queued_at = some 11;
}

abbrev start : System
start = record { store = (create one empty).1; leases = []; ttl_seconds = 1 }

start-IsWellFormed : IsWellFormed start.store
unfolding get
start-IsWellFormed =
    create-IsWellFormed one empty (record { distinct = tt; keyed = λ k t found. absurd (cc) })

-- A second worker is refused while the first holds the task, and the task is no longer queued.
abbrev events : List (DateTime × Event)
events =
    (20, Event.acquired "a" "one" "w")
    ∷ (30, beat "a")
    ∷ (40, Event.acquired "b" "one" "v")
    ∷ (50, released "a")
    ∷ []

acquire_twice :
    (acquire 40 "b" "one" "v" (handle_all events start)).0 ≡ err (lease_task_not_queued "one")
unfolding acquire handle_all heartbeat release create get put Domain.create str_eq
acquire_twice = refl

handle_all-IsExclusive_example : IsExclusive 60 (handle_all events start)
unfolding get_lease get
handle_all-IsExclusive_example =
    handle_all-IsExclusive events 0 60 start start-IsWellFormed (omega arith)
      (λ j k l m fl fm al am same. absurd (cc fl))

acquire_lem_example :
    ((t : Task) × (get_task "one" start.store ≡ some t)
      × (t.status ≡ queued)
      × (active_lease_for_task "one" 20 start ≡ none)
      × (acquire 20 "a" "one" "w" start
          ≡ (ok (new_lease 20 "a" "one" "w" 1), acquired 20 "a" "one" "w" t start)))
    ⊎ ((get_task "one" start.store ≡ none)
        × (acquire 20 "a" "one" "w" start ≡ (err (task_not_found "one"), start)))
    ⊎ ((t : Task) × (get_task "one" start.store ≡ some t)
        × (t.status ≢ queued)
        × (acquire 20 "a" "one" "w" start ≡ (err (lease_task_not_queued "one"), start)))
    ⊎ ((t : Task) × (held : ExecutionLease) × (get_task "one" start.store ≡ some t)
        × (t.status ≡ queued)
        × (active_lease_for_task "one" 20 start ≡ some held)
        × (acquire 20 "a" "one" "w" start ≡ (err (lease_already_active "one"), start)))
acquire_lem_example = acquire_lem 20 "a" "one" "w" start start-IsWellFormed

abbrev leased_once : System
leased_once = (acquire 20 "a" "one" "w" start).1
