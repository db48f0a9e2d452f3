-- ===== src/Worker/Release.antt =====
-- A round of the worker of app/orchestration/task_worker.py, on every branch.
use cloud_agent_platform_dem.Prelude.{
  String, true, ◌≡◌, refl, ◌⊎◌, inl, inr, none, some, Option-cases, Bool-cases,
}
use cloud_agent_platform_dem.Prelude.Dict.{get, get-put_self}
use cloud_agent_platform_dem.Prelude.Exec.{Result, Error, ok, err, Result-cases}
use cloud_agent_platform_dem.Domain.{DateTime, Task}
use cloud_agent_platform_dem.TaskStore.Laws.{IsWellFormed}
use cloud_agent_platform_dem.Lease.{
  ExecutionLease, System, acquire, release, is_released, get_lease,
}
use cloud_agent_platform_dem.Lease.Acquire.{acquire_lem}
use cloud_agent_platform_dem.Scheduler.{TaskScheduler, next_task}
use cloud_agent_platform_dem.World.{World}
use cloud_agent_platform_dem.Worker.{
  Orchestrator, OrchestratorResult, WorkerResult, Round, idle_result, processed_result, run_leased,
  process_once,
}

-- No lease of this id is held: there is none, or it is released.
abbrev pub IsGivenBack : String → System → Type 0
IsGivenBack lease_id s =
    (get_lease lease_id s ≡ none)
    ⊎ ((l : ExecutionLease) × (get_lease lease_id s ≡ some l) × (is_released l ≡ true))

pub release-IsGivenBack :
    (now : DateTime) (lease_id : String) (s : System)
    → IsGivenBack lease_id (release now lease_id s)
unfolding release get_lease is_released
release-IsGivenBack now lease_id s = elim (Option-cases (get s.leases lease_id)) [
  | inl e ↦ rw e (inl e)
  | inr (l, e) ↦ rw e (elim (Bool-cases (is_released l)) [
    | inl f ↦ rw f (inr (l, e, f))
    | inr f ↦ rw f (inr (_, get-put_self s.leases lease_id _, refl))
  ])
]

pub release-store :
    (now : DateTime) (lease_id : String) (s : System) → (release now lease_id s).store ≡ s.store
unfolding release is_released
release-store now lease_id s = elim (Option-cases (get s.leases lease_id)) [
  | inl e ↦ rw e refl
  | inr (l, e) ↦ rw e (elim (Bool-cases (is_released l)) [ inl f ↦ rw f refl | inr f ↦ rw f refl ])
]

-- How a round ends that has acquired the lease of a task.
abbrev pub HasRun :
    {E : Type 0}
    → Orchestrator E
    → String
    → Task
    → ExecutionLease
    → World E
    → Result WorkerResult × World E
    → Type 0
HasRun orchestrate worker_id t lease s' (outcome, final) =
    IsGivenBack lease.id final.system
    × (((r : OrchestratorResult) × ((orchestrate t.id lease s').0 ≡ ok r)
          × (outcome ≡ ok (processed_result worker_id t.id r)))
        ⊎ ((x : Error) × ((orchestrate t.id lease s').0 ≡ err x) × (outcome ≡ err x)))

-- An acquisition gives a lease of that id, or raises and leaves the system as it is.
pub acquire-raises :
    (now : DateTime) (lease_id task_id worker_id : String) (s : System)
    → IsWellFormed s.store
    → ((lease : ExecutionLease) × (s' : System) × (lease.id ≡ lease_id)
        × (acquire now lease_id task_id worker_id s ≡ (ok lease, s')))
      ⊎ ((x : Error) × (acquire now lease_id task_id worker_id s ≡ (err x, s)))
acquire-raises now lease_id task_id worker_id s w =
    elim (acquire_lem now lease_id task_id worker_id s w) [
      | inl (t, found, is_queued, free, e) ↦ inl (_, _, refl, e)
      | inr rest ↦ elim rest [
        | inl (missing, e) ↦ inr (_, e)
        | inr rest' ↦ elim rest' [
          | inl (t, found, other, e) ↦ inr (_, e)
          | inr (t, held, found, is_queued, active, e) ↦ inr (_, e)
        ]
      ]
    ]

module _ {E : Type 0} (scheduler : TaskScheduler) (orchestrate : Orchestrator E)
    (worker_id : String) where
  run_leased-HasRun :
      (round : Round) (t : Task) (lease : ExecutionLease) (s' : World E)
      → HasRun orchestrate worker_id t lease s'
          (run_leased scheduler orchestrate worker_id round t lease s')
  unfolding run_leased
  run_leased-HasRun round t lease s' = elim (Result-cases (orchestrate t.id lease s').0) [
    | inl (r, e) ↦ rw e (release-IsGivenBack round.released_at lease.id _, inl (r, refl, refl))
    | inr (x, e) ↦ rw e (release-IsGivenBack round.released_at lease.id _, inr (x, refl, refl))
  ]

  -- On a well-formed store, a round of the worker returns the idle result and changes nothing when the
  -- scheduler has no task for it; when `acquire` raises for the scheduler's task, it raises that error
  -- and changes nothing; and when `acquire` gives a lease, it ends with the lease given back, whether
  -- the orchestrator returned or raised: its result becomes the worker's, and its exception is
  -- raised.
  pub process_once_lem :
      (round : Round) (s : World E)
      → IsWellFormed s.system.store
      → ((next_task scheduler s.system.store ≡ none)
          × (process_once scheduler orchestrate worker_id round s
              ≡ (ok (idle_result worker_id), s)))
        ⊎ ((t : Task) × (x : Error) × (next_task scheduler s.system.store ≡ some t)
            × (acquire round.acquired_at round.lease_id t.id worker_id s.system ≡ (err x, s.system))
            × (process_once scheduler orchestrate worker_id round s ≡ (err x, s)))
        ⊎ ((t : Task) × (lease : ExecutionLease) × (s' : System) × (next_task scheduler
                s.system.store
              ≡ some t)
            × (acquire round.acquired_at round.lease_id t.id worker_id s.system ≡ (ok lease, s'))
            × HasRun orchestrate worker_id t lease
                (record s { system = s' })
                (process_once scheduler orchestrate worker_id round s))
  unfolding process_once
  process_once_lem round s w = elim (Option-cases (next_task scheduler s.system.store)) [
    | inl e ↦ rw e (inl (refl, refl))
    | inr (t, e) ↦
        rw e (elim (acquire-raises round.acquired_at round.lease_id t.id worker_id s.system w) [
          | inr (x, f) ↦ rw f (inr (inl (t, x, refl, f, refl)))
          | inl (lease, s', same, f) ↦ rw f (
              inr (
                inr (
                  t,
                  lease,
                  s',
                  refl,
                  f,
                  run_leased-HasRun round t lease (record s { system = s' }),
                )))
        ])
  ]
