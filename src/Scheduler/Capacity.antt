-- ===== src/Scheduler/Capacity.antt =====
-- A worker that leases the task that `next_task` returned stays within the limits.
use cloud_agent_platform_dem.Prelude.{
  ℕ, ◌+◌, ◌≤◌, ◌≡◌, ◌⊎◌, inl, inr, String, Bool, false, ◌&&◌, Option, none, some, arith, sym, subst,
  length, select, select-select, ap, ◌∙◌,
}
use cloud_agent_platform_dem.Prelude.Int.{ℤ, pos, ◌≤ℤ◌}
use cloud_agent_platform_dem.Prelude.Dict.{get, put, values, length-select-put}
use cloud_agent_platform_dem.Prelude.Exec.{ok}
use cloud_agent_platform_dem.Domain.{DateTime, Task, queued, is_active_status}
use cloud_agent_platform_dem.TaskStore.{TaskStore, get_task, list}
use cloud_agent_platform_dem.TaskStore.Laws.{IsWellFormed}
use cloud_agent_platform_dem.Lease.{ExecutionLease, System, acquire}
use cloud_agent_platform_dem.Lease.Acquire.{leased_task, acquired, acquire_lem}
use cloud_agent_platform_dem.Scheduler.{TaskScheduler, active_tasks, requires_sandbox, next_task}
use cloud_agent_platform_dem.Scheduler.Order.{IsBelow, HasRoom, HasSandboxRoom, next_task_lem}

-- A count is at most a limit, if there is one.
abbrev pub IsAtMost : Option ℤ → ℕ → Type 0
IsAtMost none n = Unit
IsAtMost (some m) n = pos n ≤ℤ m

IsAtMost-of_IsBelow : (m : Option ℤ) (n k : ℕ) → IsBelow m n → k ≤ n + 1 → IsAtMost m k
IsAtMost-of_IsBelow none n k h le = tt
IsAtMost-of_IsBelow (some m) n k h le = omega arith

-- The store after the lease of a task.
abbrev after : DateTime → String → Task → TaskStore → TaskStore
after now lease_id t s = record { tasks = put s.tasks t.id (leased_task now lease_id t) }

module _ (now : DateTime) (lease_id : String) (t : Task) (s : TaskStore)
    (found : get s.tasks t.id ≡ some t) (is_queued : t.status ≡ queued) where
  active_tasks-after : length (active_tasks (after now lease_id t s)) ≡ length (active_tasks s) + 1
  unfolding list
  active_tasks-after =
      let counted =
        length-select-put (λ x. is_active_status x.status) s.tasks t.id (leased_task now lease_id t)
          found in
      let idle : is_active_status t.status ≡ false = rw is_queued in ground (arith, counted, idle)

  sandbox_tasks-after :
      (c : TaskScheduler)
      → length (select (requires_sandbox c) (active_tasks (after now lease_id t s)))
        ≤ length (select (requires_sandbox c) (active_tasks s)) + 1
  unfolding list
  sandbox_tasks-after c =
      let both : Task → Bool = λ x. is_active_status x.status && requires_sandbox c x in
      let counted = length-select-put both s.tasks t.id (leased_task now lease_id t) found in
      rw
        (
          select-select (requires_sandbox c) (λ x. is_active_status x.status)
              (values (put s.tasks t.id (leased_task now lease_id t))),
          select-select (requires_sandbox c) (λ x. is_active_status x.status) (values s.tasks),
        )
        (ground (arith, counted))

-- The store after the lease, `after`, is within the limits.
abbrev IsWithin : TaskScheduler → Task → TaskStore → TaskStore → Type 0
IsWithin c t before later =
    (length (active_tasks later) ≡ length (active_tasks before) + 1)
    × IsAtMost c.max_concurrent_tasks (length (active_tasks later))
    × ((requires_sandbox c t ≡ false)
        ⊎ IsAtMost c.max_sandbox_tasks (length (select (requires_sandbox c) (active_tasks later))))

after-IsWithin :
    (c : TaskScheduler) (now : DateTime) (lease_id : String) (t : Task) (s : TaskStore)
    → get s.tasks t.id ≡ some t
    → t.status ≡ queued
    → HasRoom c s
    → HasSandboxRoom c s t
    → IsWithin c t s (after now lease_id t s)
after-IsWithin c now lease_id t s found q room sandbox_room =
    let one_more = active_tasks-after now lease_id t s found q in
    (
      one_more,
      IsAtMost-of_IsBelow c.max_concurrent_tasks _ _ room (omega (arith, one_more)),
      elim sandbox_room [
        | inl free ↦ inl free
        | inr below ↦ inr (
            IsAtMost-of_IsBelow c.max_sandbox_tasks _ _ below
              (sandbox_tasks-after now lease_id t s found q c))
      ],
    )

-- When the task that `next_task` returns is leased at once, the active tasks are one more than
-- before and still at most the limit on tasks, and if the task asks for a sandbox, the active tasks
-- that do are still at most the limit on sandboxes.
pub next_task-acquire_within_limits :
    (c : TaskScheduler) (now : DateTime) (lease_id worker_id : String) (t : Task) (s : System)
    (lease : ExecutionLease) (s' : System)
    → IsWellFormed s.store
    → next_task c s.store ≡ some t
    → acquire now lease_id t.id worker_id s ≡ (ok lease, s')
    → (length (active_tasks s'.store) ≡ length (active_tasks s.store) + 1)
      × IsAtMost c.max_concurrent_tasks (length (active_tasks s'.store))
      × ((requires_sandbox c t ≡ false)
          ⊎ IsAtMost c.max_sandbox_tasks
              (length (select (requires_sandbox c) (active_tasks s'.store))))
unfolding get_task
next_task-acquire_within_limits c now lease_id worker_id t s lease s' w chosen leased_it =
    elim (next_task_lem c s.store w) [
      | inl (nothing, _) ↦ absurd (let e : none ≡ some t = sym nothing ∙ chosen in cc)
      | inr (u, chosen', found', q', room, sandbox_room', _) ↦
          let same : u ≡ t = cc in
          let found : get s.store.tasks t.id ≡ some t = rw same at found' in
          let q : t.status ≡ queued = rw same at q' in
          let sandbox_room : HasSandboxRoom c s.store t = rw same at sandbox_room' in
          elim (acquire_lem now lease_id t.id worker_id s w) [
            | inl (v, there, _, _, done) ↦
                let same_task : v ≡ t = cc in
                let written : (acquired now lease_id t.id worker_id v s).store ≡ s'.store =
                  ap (λ r. r.1.store) (sym done ∙ leased_it) in
                let written_t : after now lease_id t s.store ≡ s'.store =
                  subst (λ x. (acquired now lease_id t.id worker_id x s).store ≡ s'.store) same_task
                    written in
                subst (IsWithin c t s.store) written_t
                  (after-IsWithin c now lease_id t s.store found q room sandbox_room)
            | inr (inl (_, refused)) ↦ absurd (cc)
            | inr (inr (inl (_, _, _, refused))) ↦ absurd (cc)
            | inr (inr (inr (_, _, _, _, _, refused))) ↦ absurd (cc)
          ]
    ]
