-- ===== src/Scheduler.antt =====
-- app/orchestration/task_scheduler.py. The methods only read and write the store, and none waits.
pub mod Order
pub mod Capacity
mod Tests
use cloud_agent_platform_dem.Prelude.{
  ℕ, String, Bool, true, false, not, Option, none, some, List, [], ◌∷◌, length, select, leb, ltb,
  if◌then◌else◌,
}
use cloud_agent_platform_dem.Prelude.Int.{ℤ, pos, ltb_ℤ}
use cloud_agent_platform_dem.Prelude.Sort.{sort_by, find}
use cloud_agent_platform_dem.Prelude.Exec.{Exec, pure, lift, ◌>>=◌, ◌>>◌}
use cloud_agent_platform_dem.Text.{Unicode, is_one_of}
use cloud_agent_platform_dem.Domain.{
  DateTime, Task, TaskRequest, queued, status_eq, is_active_status,
}
use cloud_agent_platform_dem.Domain
use cloud_agent_platform_dem.StateMachine.{transition}
use cloud_agent_platform_dem.TaskStore.{TaskStore, create, require, update, list, queue_time}

pub record TaskScheduler : Type 0 where
  pub unicode : Unicode
  pub max_concurrent_tasks : Option ℤ
  pub max_sandbox_tasks : Option ℤ

-- `fresh_id` is what `uuid4().hex` returns.
unfoldable pub submit : DateTime → String → TaskRequest → Option String → Exec TaskStore Task
unfolding transition create Domain.create
submit now fresh_id request task_id = do
  task ← lift (transition now (Domain.create now fresh_id request task_id) queued none none none)
  create task

unfoldable pub enqueue_existing : DateTime → String → Exec TaskStore Task
unfolding require transition update
enqueue_existing now task_id = do
  task ← require task_id
  updated ← lift (transition now task queued none none none)
  update updated

-- The comparison of the sort keys of `next_task`: higher priority first, then the time in the
-- queue, then the time of creation.
unfoldable pub no_later : Task → Task → Bool
no_later x y =
    if ltb_ℤ y.request.priority x.request.priority
    then true
    else if ltb_ℤ x.request.priority y.request.priority
    then false
    else if ltb (queue_time x) (queue_time y)
    then true
    else if ltb (queue_time y) (queue_time x)
    then false
    else leb x.created_at y.created_at

-- `list(statuses=ACTIVE_TASK_STATUSES)`
abbrev pub active_tasks : TaskStore → List Task
active_tasks s = list is_active_status s

module _ (c : TaskScheduler) where
  unfoldable pub requires_sandbox : Task → Bool
  unfolding is_one_of
  requires_sandbox task = not (
      is_one_of ("" ∷ "disabled" ∷ "none" ∷ [])
        (c.unicode.lower (c.unicode.strip task.request.sandbox_provider)))

  unfoldable pub concurrency_full : TaskStore → Bool
  concurrency_full s = elim c.max_concurrent_tasks [
    | none ↦ false
    | some m ↦ not (ltb_ℤ (pos (length (active_tasks s))) m)
  ]

  unfoldable pub sandbox_capacity_available : TaskStore → Task → Bool
  sandbox_capacity_available s task = elim c.max_sandbox_tasks [
    | none ↦ true
    | some m ↦
        if not (requires_sandbox task)
        then true
        else ltb_ℤ (pos (length (select requires_sandbox (active_tasks s)))) m
  ]

  unfoldable pub next_task : TaskStore → Option Task
  next_task s =
      if concurrency_full s
      then none
      else find (sandbox_capacity_available s) (sort_by no_later (list (status_eq queued) s))
