-- ===== src/Recovery/Tests.antt =====
-- The recovery of app/orchestration/recovery_service.py on a small store.
use mathlib.Core.Option
use cloud_agent_platform_dem.Prelude.{
  ℕ, ◌≡◌, refl, String, none, some, [], ◌∷◌, arith, str_eq, str_eq_iff,
}
use cloud_agent_platform_dem.Prelude.Dict.{get, put}
use cloud_agent_platform_dem.Prelude.Exec.{ok}
use cloud_agent_platform_dem.Domain.{
  Task, TaskStatus, leased, running, succeeded, default_request, is_active_status,
}
use cloud_agent_platform_dem.Domain
use cloud_agent_platform_dem.TaskStore.{TaskStore, get_task, list}
use cloud_agent_platform_dem.TaskStore.Laws.{IsWellFormed}
use cloud_agent_platform_dem.Recovery.{
  recover_stale_tasks, visit_all, visit, is_fresh, recover_task,
}
use cloud_agent_platform_dem.Recovery.Effect.{stale_ids, recover_entry, recover_stale_tasks_lem}

abbrev at : String → ℕ → TaskStatus → Task
at id time status = record (Domain.create time id (default_request "explain") none) {
  status = status;
}

-- "a" and "c" are stale at 3 seconds.
abbrev store : TaskStore
store = record {
  tasks =
      ("a", at "a" 500000 leased)
      ∷ ("b", at "b" 2500000 running)
      ∷ ("c", at "c" 1000000 running)
      ∷ ("d", at "d" 0 succeeded)
      ∷ [];
}

keyed : (k : String) (t : Task) → get store.tasks k ≡ some t → t.id ≡ k
unfolding get Domain.create
keyed k t found =
    ground (arith, found, str_eq_iff "a" k, str_eq_iff "b" k, str_eq_iff "c" k, str_eq_iff "d" k)

store-IsWellFormed : IsWellFormed store
unfolding get str_eq
store-IsWellFormed = record { distinct = (refl, (refl, (refl, (refl, tt)))); keyed = keyed }

recover_stale_tasks-store : (recover_stale_tasks 3000000 1 store).0 ≡ ok ("a" ∷ "c" ∷ [])
unfolding recover_stale_tasks visit_all visit is_fresh recover_task list get put str_eq
    Domain.create
recover_stale_tasks-store = refl

recover_stale_tasks_lem_example :
    (s' : TaskStore) × (recover_stale_tasks 3000000 1 store
      ≡ (ok (stale_ids 3000000 1 (list is_active_status store)), s'))
    × ((j : String) → get_task j s' ≡ Option.map (recover_entry 3000000 1) (get_task j store))
recover_stale_tasks_lem_example = recover_stale_tasks_lem 3000000 1 store store-IsWellFormed
