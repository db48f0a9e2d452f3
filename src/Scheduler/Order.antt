-- ===== src/Scheduler/Order.antt =====
-- Which task `next_task` returns.
use cloud_agent_platform_dem.Prelude.{
  ℕ, ◌<◌, ◌≤◌, ◌≡◌, refl, ◌↔◌, ◌⊎◌, inl, inr, true, false, Option, none, some, List, arith, Memᴰ,
  sym, length, select, Bool-cases, Option-cases,
}
use cloud_agent_platform_dem.Prelude.Int.{ℤ, pos, ◌<ℤ◌, ◌≤ℤ◌}
use cloud_agent_platform_dem.Prelude.Sort.{
  sort_by, mem-sort_by, sort_by-IsSortedBy, find, find-IsSortedBy, find-none,
}
use cloud_agent_platform_dem.Domain.{Task, queued, status_eq, status_eq_iff}
use cloud_agent_platform_dem.TaskStore.{TaskStore, get_task, list, queue_time}
use cloud_agent_platform_dem.TaskStore.Laws.{IsWellFormed, mem-list_iff}
use cloud_agent_platform_dem.Scheduler.{
  TaskScheduler, no_later, active_tasks, requires_sandbox, concurrency_full,
  sandbox_capacity_available, next_task,
}

no_later_total : (x y : Task) → no_later x y ≡ false → no_later y x ≡ true
unfolding no_later
no_later_total x y h = ground arith

-- The order of the queue: a higher priority comes first, then a longer time in the queue, then an
-- earlier creation.
abbrev pub ComesFirst : Task → Task → Type 0
ComesFirst x y =
    (y.request.priority <ℤ x.request.priority)
    ⊎ ((y.request.priority ≤ℤ x.request.priority) × (queue_time x < queue_time y))
    ⊎ ((y.request.priority ≤ℤ x.request.priority)
        × (queue_time x ≤ queue_time y)
        × (x.created_at ≤ y.created_at))

ComesFirst-of : (x y : Task) → no_later x y ≡ true → ComesFirst x y
unfolding no_later
ComesFirst-of x y h = ground arith

of-ComesFirst : (x y : Task) → ComesFirst x y → no_later x y ≡ true
unfolding no_later
of-ComesFirst x y (inl h) = ground arith
of-ComesFirst x y (inr (inl h)) = ground arith
of-ComesFirst x y (inr (inr h)) = ground arith

ComesFirst-trans : (x y z : Task) → ComesFirst x y → ComesFirst y z → ComesFirst x z
ComesFirst-trans x y z (inl h) (inl k) = inl (omega arith)
ComesFirst-trans x y z (inl h) (inr (inl k)) = inl (omega arith)
ComesFirst-trans x y z (inl h) (inr (inr k)) = inl (omega arith)
ComesFirst-trans x y z (inr (inl h)) (inl k) = inl (omega arith)
ComesFirst-trans x y z (inr (inl h)) (inr (inl k)) = inr (inl (omega arith))
ComesFirst-trans x y z (inr (inl h)) (inr (inr k)) = inr (inl (omega arith))
ComesFirst-trans x y z (inr (inr h)) (inl k) = inl (omega arith)
ComesFirst-trans x y z (inr (inr h)) (inr (inl k)) = inr (inl (omega arith))
ComesFirst-trans x y z (inr (inr h)) (inr (inr k)) = inr (inr (omega arith))

no_later_trans : (x y z : Task) → no_later x y ≡ true → no_later y z ≡ true → no_later x z ≡ true
no_later_trans x y z h k =
    of-ComesFirst x z (ComesFirst-trans x y z (ComesFirst-of x y h) (ComesFirst-of y z k))

-- A count is below a limit, if there is one.
abbrev pub IsBelow : Option ℤ → ℕ → Type 0
IsBelow none n = Unit
IsBelow (some m) n = pos n <ℤ m

-- The limit on tasks leaves room for one more active task.
abbrev pub HasRoom : TaskScheduler → TaskStore → Type 0
HasRoom c s = IsBelow c.max_concurrent_tasks (length (active_tasks s))

-- The task asks for no sandbox, or the limit on sandboxes leaves room for one more active task that
-- does.
abbrev pub HasSandboxRoom : TaskScheduler → TaskStore → Task → Type 0
HasSandboxRoom c s t =
    (requires_sandbox c t ≡ false)
    ⊎ IsBelow c.max_sandbox_tasks (length (select (requires_sandbox c) (active_tasks s)))

module _ (c : TaskScheduler) (s : TaskStore) where
  concurrency_full_iff : (concurrency_full c s ≡ false) ↔ HasRoom c s
  unfolding concurrency_full
  concurrency_full_iff = elim (Option-cases c.max_concurrent_tasks) [
    | inl e ↦ rw e (λ h. tt, λ h. refl)
    | inr (m, e) ↦ rw e (λ h. ground arith, λ h. ground arith)
  ]

  sandbox_capacity_available_iff :
      (t : Task) → (sandbox_capacity_available c s t ≡ true) ↔ HasSandboxRoom c s t
  unfolding sandbox_capacity_available
  sandbox_capacity_available_iff t = elim (Option-cases c.max_sandbox_tasks) [
    | inl e ↦ rw e (λ h. inr tt, λ h. refl)
    | inr (m, e) ↦ rw e (λ h. ground arith, λ h. ground arith)
  ]

-- `next_task` returns None exactly when the limit on tasks leaves no room, or no queued task passes
-- the limit on sandboxes. Otherwise it returns a task of the store that is queued and passes, while
-- the limit on tasks leaves room, and no other such task comes before it by priority, time in the
-- queue and time of creation.
pub next_task_lem :
    (c : TaskScheduler) (s : TaskStore)
    → IsWellFormed s
    → ((next_task c s ≡ none)
        × ((¬ HasRoom c s)
            ⊎ ((u : Task) → get_task u.id s ≡ some u → u.status ≡ queued → ¬ HasSandboxRoom c s u)))
      ⊎ ((t : Task) × (next_task c s ≡ some t)
          × (get_task t.id s ≡ some t)
          × (t.status ≡ queued)
          × HasRoom c s
          × HasSandboxRoom c s t
          × ((u : Task)
              → get_task u.id s ≡ some u
              → u.status ≡ queued
              → HasSandboxRoom c s u
              → (u ≡ t) ⊎ ComesFirst t u))
unfolding next_task
next_task_lem c s w = elim (Bool-cases (concurrency_full c s)) [
  | inl full ↦ inl (rw full, inl (λ room. cc ((concurrency_full_iff c s).1 room, full)))
  | inr free ↦ elim (Option-cases (find (sandbox_capacity_available c s) line)) [
    | inl nothing ↦ inl (
      rw (free, nothing),
      inr (λ u found q room. cc (
        find-none (sandbox_capacity_available c s) line nothing u (in_line u found q),
        (sandbox_capacity_available_iff c s u).1 room,
      )),
    )
    | inr (t, chosen) ↦
        let (m, passes, best) =
          find-IsSortedBy no_later (sandbox_capacity_available c s) line
            (sort_by-IsSortedBy no_later no_later_total no_later_trans (list (status_eq queued) s))
            chosen in
        let (found, q) =
          (mem-list_iff (status_eq queued) s t w).0
            ((mem-sort_by no_later (list (status_eq queued) s)).0 m) in
        inr (
          t,
          rw (free, chosen),
          found,
          sym ((status_eq_iff queued t.status).0 q),
          (concurrency_full_iff c s).0 free,
          (sandbox_capacity_available_iff c s t).0 passes,
          λ u there is_queued room.
              elim (best u (in_line u there is_queued)
                ((sandbox_capacity_available_iff c s u).1 room)) [
                  | inl same ↦ inl same
                  | inr first ↦ inr (ComesFirst-of t u first)
                ],
        )
  ]
]
  where
    line : List Task
    line = sort_by no_later (list (status_eq queued) s)

    in_line : (u : Task) → get_task u.id s ≡ some u → u.status ≡ queued → Memᴰ u line
    in_line u found q = (mem-sort_by no_later (list (status_eq queued) s)).1 (
        (mem-list_iff (status_eq queued) s u w).1
          (found, (status_eq_iff queued u.status).1 (sym q)))
