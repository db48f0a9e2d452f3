-- ===== src/Lease/Acquire.antt =====
-- What `acquire`, `heartbeat` and `release` do on every branch.
use cloud_agent_platform_dem.Prelude.{
  ◌+◌, ◌<◌, ◌≤◌, ◌≡◌, refl, ◌≢◌, ◌⊎◌, inl, inr, String, none, some, arith, Bool-cases, Option-cases,
  str_eq, str_eq_iff, sym,
}
use cloud_agent_platform_dem.Prelude.Dict.{get, put, get-put}
use cloud_agent_platform_dem.Prelude.Exec.{
  ok, err, task_not_found, lease_task_not_queued, lease_already_active, lease_not_found,
  lease_released, lease_expired,
}
use cloud_agent_platform_dem.Domain.{
  DateTime, seconds, Task, queued, leased, status_eq, status_eq_iff,
}
use cloud_agent_platform_dem.TaskStore.{get_task}
use cloud_agent_platform_dem.TaskStore.Laws.{IsWellFormed}
use cloud_agent_platform_dem.Lease.{
  ExecutionLease, System, active_lease_for_task, acquire, heartbeat, release, get_lease, new_lease,
  is_expired,
}

-- The task that a successful `acquire` writes.
abbrev pub leased_task : DateTime → String → Task → Task
leased_task now lease_id t = record t {
  status = leased;
  lease_id = some lease_id;
  error = none;
  updated_at = now;
}

-- The system that a successful `acquire` leaves.
abbrev pub acquired : DateTime → String → String → String → Task → System → System
acquired now lease_id task_id worker_id t s = record s {
  store = record { tasks = put s.store.tasks task_id (leased_task now lease_id t) };
  leases = put s.leases lease_id (new_lease now lease_id task_id worker_id s.ttl_seconds);
}

-- `acquire` gives a lease exactly when the task is in the store, is queued and has no active lease.
-- Then it writes the lease, with the manager's time to live, and the task with status `leased` and
-- the lease's id. In the other cases it raises the error of the first of these tests that fails, the
-- ones before it having passed, and changes nothing.
pub acquire_lem :
    (now : DateTime) (lease_id task_id worker_id : String) (s : System)
    → IsWellFormed s.store
    → ((t : Task) × (get_task task_id s.store ≡ some t)
        × (t.status ≡ queued)
        × (active_lease_for_task task_id now s ≡ none)
        × (acquire now lease_id task_id worker_id s ≡ (
          ok (new_lease now lease_id task_id worker_id s.ttl_seconds),
          acquired now lease_id task_id worker_id t s,
        )))
      ⊎ ((get_task task_id s.store ≡ none)
          × (acquire now lease_id task_id worker_id s ≡ (err (task_not_found task_id), s)))
      ⊎ ((t : Task) × (get_task task_id s.store ≡ some t)
          × (t.status ≢ queued)
          × (acquire now lease_id task_id worker_id s ≡ (err (lease_task_not_queued task_id), s)))
      ⊎ ((t : Task) × (held : ExecutionLease) × (get_task task_id s.store ≡ some t)
          × (t.status ≡ queued)
          × (active_lease_for_task task_id now s ≡ some held)
          × (acquire now lease_id task_id worker_id s ≡ (err (lease_already_active task_id), s)))
unfolding acquire get_task
acquire_lem now lease_id task_id worker_id s w = elim (Option-cases (get s.store.tasks task_id)) [
  | inl e ↦ inr (inl (e, rw e))
  | inr (t, e) ↦ elim (Bool-cases (status_eq t.status queued)) [
    | inr not_queued ↦ inr (
        inr (
          inl
            (t, e, λ q. cc ((status_eq_iff t.status queued).1 q, not_queued), rw (e, not_queued))))
    | inl is_queued ↦ elim (Option-cases (active_lease_for_task task_id now s)) [
      | inr (held, h) ↦ inr (
          inr (
            inr (t, held, e, (status_eq_iff t.status queued).0 is_queued, h, rw (e, is_queued, h))))
      | inl free ↦
          let q : t.status ≡ queued = (status_eq_iff t.status queued).0 is_queued in
          let key : t.id ≡ task_id = w.keyed task_id t e in
          inl (t, e, q, free, rw (e, is_queued, free) (rw q (rw (key, e))))
    ]
  ]
]

-- `heartbeat` prolongs a lease to a full time to live from now, and only one that is there, is not
-- released and has not expired. In the other cases it raises the error of the first test that fails
-- and changes nothing.
pub heartbeat_lem :
    (now : DateTime) (lease_id : String) (s : System)
    → ((l : ExecutionLease) × (get_lease lease_id s ≡ some l)
        × (l.released_at ≡ none)
        × (now < l.expires_at)
        × (heartbeat now lease_id s ≡ (
          ok (record l { expires_at = now + seconds s.ttl_seconds }),
          record s {
            leases = put s.leases lease_id (record l { expires_at = now + seconds s.ttl_seconds });
          },
        )))
      ⊎ ((get_lease lease_id s ≡ none)
          × (heartbeat now lease_id s ≡ (err (lease_not_found lease_id), s)))
      ⊎ ((l : ExecutionLease) × (get_lease lease_id s ≡ some l)
          × (l.released_at ≢ none)
          × (heartbeat now lease_id s ≡ (err (lease_released lease_id), s)))
      ⊎ ((l : ExecutionLease) × (get_lease lease_id s ≡ some l)
          × (l.released_at ≡ none)
          × (l.expires_at ≤ now)
          × (heartbeat now lease_id s ≡ (err (lease_expired lease_id), s)))
unfolding heartbeat get_lease
heartbeat_lem now lease_id s = elim (Option-cases (get s.leases lease_id)) [
  | inl e ↦ inr (inl (e, rw e))
  | inr (l, e) ↦ elim (Option-cases l.released_at) [
    | inr (t, gone) ↦ inr (inr (inl (l, e, λ n. cc, rw (e, gone))))
    | inl there ↦ elim (Bool-cases (is_expired l now)) [
      | inl late ↦ inr (inr (inr (l, e, there, ground arith, rw (e, there) (rw late))))
      | inr early ↦ inl (l, e, there, ground arith, rw (e, there) (rw early))
    ]
  ]
]

-- `release` marks a lease that is there and not released as released now, and changes nothing else;
-- it does nothing to a lease that is released already or is not there.
pub get_lease-release :
    (now : DateTime) (lease_id k : String) (s : System)
    → (((release now lease_id s).store ≡ s.store)
        × ((release now lease_id s).ttl_seconds ≡ s.ttl_seconds))
      × ((get_lease k (release now lease_id s) ≡ get_lease k s)
          ⊎ ((l : ExecutionLease) × (k ≡ lease_id)
              × (get_lease k s ≡ some l)
              × (l.released_at ≡ none)
              × (get_lease k (release now lease_id s)
                  ≡ some (record l { released_at = some now }))))
unfolding release get_lease
get_lease-release now lease_id k s = elim (Option-cases (get s.leases lease_id)) [
  | inl e ↦ rw e ((refl, refl), inl refl)
  | inr (l, e) ↦ elim (Option-cases l.released_at) [
    | inr (t, gone) ↦ rw e (rw gone ((refl, refl), inl refl))
    | inl there ↦ rw e (
        rw there (
          (refl, refl),
          elim (Bool-cases (str_eq lease_id k)) [
            | inl same ↦
                let key : k ≡ lease_id = sym ((str_eq_iff lease_id k).0 same) in
                inr (
                  l,
                  key,
                  rw key e,
                  there,
                  rw (get-put s.leases lease_id k (record l { released_at = some now }), same),
                )
            | inr other ↦
                inl (rw (get-put s.leases lease_id k (record l { released_at = some now }), other))
          ],
        ))
  ]
]
