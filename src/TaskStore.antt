-- ===== src/TaskStore.antt =====
-- app/storage/task_store.py. Each method holds the store's lock from its first to its last access
-- and never waits while it does, so it is one step; a method that may raise is an action.
pub mod Laws
pub mod Queue
mod Tests
use cloud_agent_platform_dem.Prelude.{
  ℕ, String, Bool, true, false, Option, none, some, List, [], ◌∷◌, select, any, leb, if◌then◌else◌,
}
use cloud_agent_platform_dem.Prelude.Sort.{sort_by}
use cloud_agent_platform_dem.Prelude.Dict.{Dict, get, put, values}
use cloud_agent_platform_dem.Prelude.Exec.{
  Exec, pure, raise, gets, ◌>>=◌, ◌>>◌, task_not_found, duplicate_task,
}
use cloud_agent_platform_dem.Domain.{DateTime, Task, TaskStatus, queued, status_eq}

pub record TaskStore : Type 0 where
  pub tasks : Dict Task

abbrev pub empty : TaskStore
empty = record { tasks = [] }

-- `task_id in self._tasks`
abbrev is_known : Option Task → Bool
is_known none = false
is_known (some task) = true

-- `self._tasks[task.id] = task`
abbrev pub write : Task → TaskStore → TaskStore
write task s = record { tasks = put s.tasks task.id task }

unfoldable pub create : Task → Exec TaskStore Task
create task s =
    if is_known (get s.tasks task.id)
    then raise (duplicate_task task.id) s
    else pure task (write task s)

unfoldable pub get_task : String → TaskStore → Option Task
get_task task_id s = get s.tasks task_id

abbrev found_or_raise : String → Option Task → Exec TaskStore Task
found_or_raise task_id none = raise (task_not_found task_id)
found_or_raise task_id (some task) = pure task

unfoldable pub require : String → Exec TaskStore Task
unfolding get_task
require task_id s = found_or_raise task_id (get_task task_id s) s

unfoldable pub update : Task → Exec TaskStore Task
update task s =
    if is_known (get s.tasks task.id)
    then pure task (write task s)
    else raise (task_not_found task.id) s

-- What `compare_and_update` does with the task that it finds.
abbrev compare_found : String → TaskStatus → Task → Option Task → Exec TaskStore Bool
compare_found task_id expected updated none s = raise (task_not_found task_id) s
compare_found task_id expected updated (some current) s =
    if status_eq current.status expected
    then pure true (record { tasks = put s.tasks task_id updated })
    else pure false s

unfoldable pub compare_and_update : String → TaskStatus → Task → Exec TaskStore Bool
compare_and_update task_id expected updated s =
    compare_found task_id expected updated (get s.tasks task_id) s

-- `list()` without statuses, and with a test for membership in them.
unfoldable pub all_tasks : TaskStore → List Task
unfolding values
all_tasks s = values s.tasks

unfoldable pub list : (TaskStatus → Bool) → TaskStore → List Task
unfolding all_tasks select
list allowed s = select (λ task. allowed task.status) (all_tasks s)

-- `task.queued_at or task.created_at`
abbrev pub queue_time : Task → DateTime
queue_time task = time_or task.queued_at task.created_at
  where
    time_or : Option DateTime → DateTime → DateTime
    time_or none t = t
    time_or (some t) _ = t

-- `queue_time x <= queue_time y`
abbrev pub queued_no_later : Task → Task → Bool
queued_no_later x y = leb (queue_time x) (queue_time y)

abbrev pub first : List Task → Option Task
first [] = none
first (x ∷ xs) = some x

unfoldable pub find_next_queued : TaskStore → Option Task
unfolding list sort_by
find_next_queued s = first (sort_by queued_no_later (list (status_eq queued) s))
