-- ===== src/Orchestrator/Round.antt =====
-- A round of the worker of app/orchestration/task_worker.py with the orchestrator of
-- app/orchestration/task_orchestrator.py.
use cloud_agent_platform_dem.Prelude.{
  String, ◌≡◌, refl, ◌⊎◌, inl, inr, subst, sym, none, some, Option-cases,
}
use cloud_agent_platform_dem.Prelude.Exec.{Result, Error, ok, err, continue, pure}
use cloud_agent_platform_dem.Prelude.Hoare.{Ends, returned, raised}
use cloud_agent_platform_dem.Domain.{Task}
use cloud_agent_platform_dem.TaskStore.Laws.{IsWellFormed}
use cloud_agent_platform_dem.Lease.{ExecutionLease, System, acquire, release}
use cloud_agent_platform_dem.Lease.Exclusion.{acquire-IsWellFormed}
use cloud_agent_platform_dem.Scheduler.{TaskScheduler, next_task}
use cloud_agent_platform_dem.World.{World}
use cloud_agent_platform_dem.Worker.{
  OrchestratorResult, WorkerResult, Round, finally_release, idle_result, processed_result,
  run_leased, process_once,
}
use cloud_agent_platform_dem.Worker.Release.{
  IsGivenBack, acquire-raises, release-IsGivenBack, release-store,
}
use cloud_agent_platform_dem.Orchestrator.World.{Parts}
use cloud_agent_platform_dem.Orchestrator.Run.{run}
use cloud_agent_platform_dem.Orchestrator.Writes.{IsValid}
use cloud_agent_platform_dem.Orchestrator.Outcome.{HasEnded}
use cloud_agent_platform_dem.Orchestrator.Terminal.{KeepsAll, run_lem}

module _ {E : Type 0} (parts : Parts E) (worker_id : String) (round : Round) where
  -- How a round ends that has leased the task `t`, in the world `leased`: its lease is given back, and
  -- it returns what comes of the result of the run, which has ended the task as it says, or raises
  -- what the run raised.
  abbrev pub HasWorked : Task → ExecutionLease → World E → Result WorkerResult × World E → Type 0
  HasWorked t lease leased (r, w) =
      IsValid w
      × IsGivenBack round.lease_id w.system
      × (((o : OrchestratorResult) × ((run parts t.id lease leased).0 ≡ ok o)
            × (r ≡ ok (processed_result worker_id t.id o))
            × HasEnded parts t.id o w)
          ⊎ ((x : Error) × ((run parts t.id lease leased).0 ≡ err x) × (r ≡ err x)))

  -- A round that started in the world `w`, by what the scheduler and `acquire` gave.
  abbrev pub HasRound : TaskScheduler → World E → Result WorkerResult × World E → Type 0
  HasRound scheduler w outcome =
      ((next_task scheduler w.system.store ≡ none) × (outcome ≡ (ok (idle_result worker_id), w)))
      ⊎ ((t : Task) × (x : Error) × (next_task scheduler w.system.store ≡ some t)
          × (acquire round.acquired_at round.lease_id t.id worker_id w.system ≡ (err x, w.system))
          × (outcome ≡ (err x, w)))
      ⊎ ((t : Task) × (lease : ExecutionLease) × (s' : System) × (next_task scheduler w.system.store
            ≡ some t)
          × (acquire round.acquired_at round.lease_id t.id worker_id w.system ≡ (ok lease, s'))
          × HasWorked t lease (record w { system = s' }) outcome)

  abbrev after_release : ExecutionLease → World E → World E
  after_release lease w = record w { system = release round.released_at lease.id w.system }

  given_back :
      (lease : ExecutionLease) (w : World E)
      → lease.id ≡ round.lease_id
      → IsGivenBack round.lease_id (after_release lease w).system
  given_back lease w same =
      subst (λ k. IsGivenBack k (release round.released_at lease.id w.system)) same
        (release-IsGivenBack round.released_at lease.id w.system)

  after_release-IsValid :
      (lease : ExecutionLease) (w : World E) → IsValid w → IsValid (after_release lease w)
  after_release-IsValid lease w valid =
      subst IsWellFormed (sym (release-store round.released_at lease.id w.system)) valid

  after_release-HasEnded :
      (t : Task) (lease : ExecutionLease) (o : OrchestratorResult) (w : World E)
      → HasEnded parts t.id o w
      → HasEnded parts t.id o (after_release lease w)
  after_release-HasEnded t lease o w ended =
      subst
        (λ store. HasEnded parts t.id o (record w {
          system = record (release round.released_at lease.id w.system) { store = store };
        }))
        (sym (release-store round.released_at lease.id w.system)) ended

  module _ (scheduler : TaskScheduler) (K : KeepsAll parts IsValid) where
    leased-HasWorked :
        (t : Task) (lease : ExecutionLease) (w : World E)
        → lease.id ≡ round.lease_id
        → IsValid w
        → HasWorked t lease w (run_leased scheduler (run parts) worker_id round t lease w)
    unfolding run_leased
    leased-HasWorked t lease w same valid =
        go (run parts t.id lease w).0 (run parts t.id lease w).1 refl
          (run_lem parts K t.id lease w valid)
      where
        go :
            (r : Result OrchestratorResult) (w' : World E)
            → (run parts t.id lease w).0 ≡ r
            → Ends (λ o w'. IsValid w' × HasEnded parts t.id o w') IsValid r w'
            → HasWorked t lease w (
                finally_release round.released_at lease.id
                  (continue r (λ o. pure (processed_result worker_id t.id o)) w'))
        go (ok o) w' e (returned (v, ended)) = (
          after_release-IsValid lease w' v,
          given_back lease w' same,
          inl (o, e, refl, after_release-HasEnded t lease o w' ended),
        )
        go (err x) w' e (raised v) =
            (after_release-IsValid lease w' v, given_back lease w' same, inr (x, e, refl))

    -- A round of the worker with this orchestrator, on a well-formed store that nothing it calls
    -- leaves ill formed. When the scheduler has no task, it returns the idle result and changes
    -- nothing. When `acquire` raises for the scheduler's task, it raises that error and changes
    -- nothing. When `acquire` gives a lease, the round's lease is given back at the end, the store is
    -- well formed, and the round returns the worker's result for the result of a run of the task from
    -- there, which has ended the task as it says, or it raises what that run raised.
    pub process_once-run :
        (w : World E)
        → IsValid w
        → HasRound scheduler w (process_once scheduler (run parts) worker_id round w)
    unfolding process_once
    process_once-run w valid = elim (Option-cases (next_task scheduler w.system.store)) [
      | inl e ↦ rw e (inl (refl, refl))
      | inr (t, e) ↦
          let fine =
            acquire-IsWellFormed round.acquired_at round.lease_id t.id worker_id w.system valid in
          rw e
            (elim (acquire-raises round.acquired_at round.lease_id t.id worker_id w.system valid) [
              | inr (x, f) ↦ rw f (inr (inl (t, x, refl, f, refl)))
              | inl (lease, s', same, f) ↦ rw f (
                  inr (
                    inr (
                      t,
                      lease,
                      s',
                      refl,
                      f,
                      leased-HasWorked t lease (record w { system = s' }) same (rw f at fine),
                    )))
            ])
    ]
