-- ===== src/Lease/Exclusion.antt =====
-- Mutual exclusion: whatever calls the manager and the store serve, and in whatever order, a task
-- has at most one lease that is neither released nor expired.
use cloud_agent_platform_dem.Prelude.{
  ◌+◌, ◌<◌, ◌≤◌, ◌≡◌, ◌≢◌, inl, inr, String, none, some, List, [], ◌∷◌, arith, str_eq_iff, sym,
  subst, ◌∙◌,
}
use cloud_agent_platform_dem.Prelude.Dict.{put, values, get-put, found_in_values}
use cloud_agent_platform_dem.Prelude.Sort.{find-none}
use cloud_agent_platform_dem.Domain.{DateTime, seconds}
use cloud_agent_platform_dem.TaskStore.{TaskStore, get_task}
use cloud_agent_platform_dem.TaskStore.Laws.{IsWellFormed, write-IsWellFormed}
use cloud_agent_platform_dem.Lease.{
  ExecutionLease, System, active_lease_for_task, acquire, heartbeat, release, get_lease, new_lease,
  holds,
}
use cloud_agent_platform_dem.Lease.Acquire.{
  leased_task, acquire_lem, heartbeat_lem, get_lease-release,
}

-- The lease is neither released nor expired at the time given.
abbrev pub IsActive : DateTime → ExecutionLease → Type 0
IsActive now l = (l.released_at ≡ none) × (now < l.expires_at)

-- Two active leases of one task are one.
abbrev pub IsExclusive : DateTime → System → Type 0
IsExclusive now s =
    (j k : String) (l m : ExecutionLease)
    → get_lease j s ≡ some l
    → get_lease k s ≡ some m
    → IsActive now l
    → IsActive now m
    → l.task_id ≡ m.task_id
    → j ≡ k

IsExclusive-later :
    (now later : DateTime) (s : System) → now ≤ later → IsExclusive now s → IsExclusive later s
IsExclusive-later now later s le x j k l m fl fm (rl, el) (rm, em) same =
    x j k l m fl fm (rl, omega arith) (rm, omega arith) same

-- Without an active lease in the table, `_active_lease_for_task` has found none.
no_active :
    (now : DateTime) (task_id k : String) (s : System) (m : ExecutionLease)
    → active_lease_for_task task_id now s ≡ none
    → get_lease k s ≡ some m
    → IsActive now m
    → task_id ≢ m.task_id
unfolding active_lease_for_task get_lease
no_active now task_id k s m free found (unreleased, unexpired) same = absurd (
    unfold holds in
    ground (
      arith,
      find-none (holds task_id now) (values s.leases) free m (found_in_values s.leases k found),
      str_eq_iff m.task_id task_id,
    ))

IsExclusive-acquire :
    (now : DateTime) (lease_id task_id worker_id : String) (s : System)
    → IsWellFormed s.store
    → IsExclusive now s
    → IsExclusive now (acquire now lease_id task_id worker_id s).1
unfolding get_lease
IsExclusive-acquire now lease_id task_id worker_id s w x =
    elim (acquire_lem now lease_id task_id worker_id s w) [
      | inl (t, _, _, free, done) ↦ rw done (λ j k l m fl fm al am same.
          let new : ExecutionLease = new_lease now lease_id task_id worker_id s.ttl_seconds in
          ground (
            arith,
            fl,
            fm,
            al,
            am,
            same,
            get-put s.leases lease_id j new,
            get-put s.leases lease_id k new,
            no_active now task_id k s m free,
            no_active now task_id j s l free,
            x j k l m,
            str_eq_iff lease_id j,
            str_eq_iff lease_id k,
          ))
      | inr (inl (_, refused)) ↦ rw refused x
      | inr (inr (inl (_, _, _, refused))) ↦ rw refused x
      | inr (inr (inr (_, _, _, _, _, refused))) ↦ rw refused x
    ]

IsExclusive-heartbeat :
    (now : DateTime) (lease_id : String) (s : System)
    → IsExclusive now s
    → IsExclusive now (heartbeat now lease_id s).1
unfolding get_lease
IsExclusive-heartbeat now lease_id s x = elim (heartbeat_lem now lease_id s) [
  | inl (old, found, unreleased, unexpired, done) ↦ rw done (λ j k l m fl fm al am same.
      let new : ExecutionLease = record old { expires_at = now + seconds s.ttl_seconds } in
      ground (
        arith,
        fl,
        fm,
        al,
        am,
        same,
        get-put s.leases lease_id j new,
        get-put s.leases lease_id k new,
        x lease_id k old m,
        x j lease_id l old,
        x j k l m,
        str_eq_iff lease_id j,
        str_eq_iff lease_id k,
      ))
  | inr (inl (_, refused)) ↦ rw refused x
  | inr (inr (inl (_, _, _, refused))) ↦ rw refused x
  | inr (inr (inr (_, _, _, _, refused))) ↦ rw refused x
]

-- A lease that is active after a release was the same lease before it.
active_before_release :
    (now : DateTime) (lease_id k : String) (s : System) (l : ExecutionLease)
    → get_lease k (release now lease_id s) ≡ some l
    → IsActive now l
    → get_lease k s ≡ some l
active_before_release now lease_id k s l found (unreleased, _) =
    elim (get_lease-release now lease_id k s).1 [
      | inl same ↦ sym same ∙ found
      | inr (old, _, _, _, gone) ↦ absurd (ground (arith, found, gone, unreleased))
    ]

IsExclusive-release :
    (now : DateTime) (lease_id : String) (s : System)
    → IsExclusive now s
    → IsExclusive now (release now lease_id s)
IsExclusive-release now lease_id s x j k l m fl fm al am same =
    x j k l m (active_before_release now lease_id j s l fl al)
      (active_before_release now lease_id k s m fm am) al am same

-- What may happen: a call of the manager, or a change of the store by another of its users.
pub data Event : Type 0 where
  acquired : (lease_id task_id worker_id : String) → Event
  beat : (lease_id : String) → Event
  released : (lease_id : String) → Event
  stored : TaskStore → Event

unfoldable pub handle : DateTime → Event → System → System
handle now (acquired lease_id task_id worker_id) s = (acquire now lease_id task_id worker_id s).1
handle now (beat lease_id) s = (heartbeat now lease_id s).1
handle now (released lease_id) s = release now lease_id s
handle now (stored store) s = record s { store = store }

unfoldable pub handle_all : List (DateTime × Event) → System → System
unfolding handle
handle_all [] s = s
handle_all ((now, e) ∷ es) s = handle_all es (handle now e s)

-- The other users of the store keep it well-formed.
abbrev KeepsStore : Event → Type 0
KeepsStore (stored store) = IsWellFormed store
KeepsStore _ = Unit

-- The clock does not run backwards from one event to the next, up to the time `end`.
abbrev pub IsHistory : DateTime → List (DateTime × Event) → DateTime → Type 0
IsHistory now [] end = now ≤ end
IsHistory now ((t, e) ∷ es) end = (now ≤ t) × KeepsStore e × IsHistory t es end

pub acquire-IsWellFormed :
    (now : DateTime) (lease_id task_id worker_id : String) (s : System)
    → IsWellFormed s.store
    → IsWellFormed (acquire now lease_id task_id worker_id s).1.store
acquire-IsWellFormed now lease_id task_id worker_id s w =
    elim (acquire_lem now lease_id task_id worker_id s w) [
      | inl (t, found, _, _, done) ↦
          let key : t.id ≡ task_id = w.keyed task_id t (unfold get_task in found) in
          rw done (
            subst
              (λ k.
                IsWellFormed (record { tasks = put s.store.tasks k (leased_task now lease_id t) }))
              key (write-IsWellFormed s.store (leased_task now lease_id t) w))
      | inr (inl (_, refused)) ↦ rw refused w
      | inr (inr (inl (_, _, _, refused))) ↦ rw refused w
      | inr (inr (inr (_, _, _, _, _, refused))) ↦ rw refused w
    ]

store-heartbeat :
    (now : DateTime) (lease_id : String) (s : System) → (heartbeat now lease_id s).1.store ≡ s.store
store-heartbeat now lease_id s = elim (heartbeat_lem now lease_id s) [
  | inl (_, _, _, _, done) ↦ rw done
  | inr (inl (_, refused)) ↦ rw refused
  | inr (inr (inl (_, _, _, refused))) ↦ rw refused
  | inr (inr (inr (_, _, _, _, refused))) ↦ rw refused
]

handle_keeps :
    (now : DateTime) (e : Event) (s : System)
    → KeepsStore e
    → IsWellFormed s.store
    → IsExclusive now s
    → IsWellFormed (handle now e s).store × IsExclusive now (handle now e s)
unfolding handle
handle_keeps now (acquired i t o) s k w x =
    (acquire-IsWellFormed now i t o s w, IsExclusive-acquire now i t o s w x)
handle_keeps now (beat i) s k w x =
    (rw (store-heartbeat now i s) w, IsExclusive-heartbeat now i s x)
handle_keeps now (released i) s k w x =
    (subst IsWellFormed (sym (get_lease-release now i i s).0.0) w, IsExclusive-release now i s x)
handle_keeps now (stored store) s k w x = unfold get_lease in (k, x)

-- From a system in which each task has at most one active lease, after any sequence of calls of
-- `acquire`, `heartbeat` and `release`, mixed with any changes of the store that keep it
-- well-formed, each task still has at most one active lease, at the time of the last event and
-- later, as long as the clock does not run backwards.
pub handle_all-IsExclusive :
    (es : List (DateTime × Event)) (start end : DateTime) (s : System)
    → IsWellFormed s.store
    → IsHistory start es end
    → IsExclusive start s
    → IsExclusive end (handle_all es s)
unfolding handle_all
handle_all-IsExclusive [] start end s w h x = IsExclusive-later start end s h x
handle_all-IsExclusive ((now, e) ∷ es) start end s w h x =
    let (stored_well, exclusive) =
      handle_keeps now e s h.1 w (IsExclusive-later start now s h.0 x) in
    handle_all-IsExclusive es now end (handle now e s) stored_well h.2 exclusive
