-- ===== src/TaskStore/Tests.antt =====
-- The store of app/storage/task_store.py on small inputs.
use cloud_agent_platform_dem.Prelude.{◌≤◌, ◌≡◌, refl, ◌⊎◌, none, some, str_eq}
use cloud_agent_platform_dem.Prelude.Dict.{get, put}
use cloud_agent_platform_dem.Domain.{Task, queued, running, status_eq, default_request}
use cloud_agent_platform_dem.Domain
use cloud_agent_platform_dem.TaskStore.{
  TaskStore, empty, create, get_task, queue_time, find_next_queued,
}
use cloud_agent_platform_dem.TaskStore.Laws.{IsWellFormed, create-IsWellFormed}
use cloud_agent_platform_dem.TaskStore.Queue.{find_next_queued_lem}

abbrev one : Task
one = record (Domain.create 10 "one" (default_request "explain") none) {
  status = queued;
  queued_at = some 11;
}

abbrev two : Task
two = record (Domain.create 5 "two" (default_request "report") none) {
  status = queued;
  queued_at = some 6;
}

abbrev both : TaskStore
both = (create two (create one empty).1).1

empty-IsWellFormed : IsWellFormed empty
unfolding get
empty-IsWellFormed = record { distinct = tt; keyed = λ k t found. absurd (cc) }

both-IsWellFormed : IsWellFormed both
both-IsWellFormed =
    create-IsWellFormed two (create one empty).1 (create-IsWellFormed one empty empty-IsWellFormed)

find_next_queued-both : find_next_queued both ≡ some two
unfolding find_next_queued create get put str_eq Domain.create
find_next_queued-both = refl

get_task-both : get_task "one" both ≡ some one
unfolding create get_task get put str_eq Domain.create
get_task-both = refl

find_next_queued_lem_example :
    ((find_next_queued both ≡ none)
      × ((u : Task) → get_task u.id both ≡ some u → ¬ (u.status ≡ queued)))
    ⊎ ((t : Task) × (find_next_queued both ≡ some t)
        × (get_task t.id both ≡ some t)
        × (t.status ≡ queued)
        × ((u : Task)
            → get_task u.id both ≡ some u
            → u.status ≡ queued
            → queue_time t ≤ queue_time u))
find_next_queued_lem_example = find_next_queued_lem both both-IsWellFormed
