-- ===== src/StateMachine/Stamps.antt =====
-- What the timestamps, the lease and the result of a task say about its status, whatever calls of
-- `transition` the task has been through.
use cloud_agent_platform_dem.Prelude.{
  ◌≡◌, inl, inr, String, Bool, true, false, Option, none, some, subst, List, [], ◌∷◌, arith,
  Bool-cases,
}
use cloud_agent_platform_dem.Prelude.Exec.{ok, err, Result-cases, ok_injective}
use cloud_agent_platform_dem.Domain.{
  DateTime, Task, TaskRequest, TaskStatus, created, scheduled, preparing, sandbox_starting, running,
  verifying, succeeded, cancelled, is_terminal_status, is_active_status, create,
}
use cloud_agent_platform_dem.StateMachine.{can_transition, stamp, transition}
use cloud_agent_platform_dem.StateMachine.Graph.{Move, move, run}

abbrev is_some {ℓ} : {A : Type ℓ} → Option A → Bool
is_some none = false
is_some (some a) = true

-- The statuses in which the phase named has begun.
abbrev past_queue : TaskStatus → Bool
past_queue created = false
past_queue cancelled = false
past_queue _ = true

abbrev past_schedule : TaskStatus → Bool
past_schedule scheduled = true
past_schedule preparing = true
past_schedule sandbox_starting = true
past_schedule running = true
past_schedule verifying = true
past_schedule succeeded = true
past_schedule _ = false

abbrev past_prepare : TaskStatus → Bool
past_prepare preparing = true
past_prepare sandbox_starting = true
past_prepare running = true
past_prepare verifying = true
past_prepare succeeded = true
past_prepare _ = false

abbrev past_start : TaskStatus → Bool
past_start running = true
past_start verifying = true
past_start succeeded = true
past_start _ = false

abbrev past_verify : TaskStatus → Bool
past_verify verifying = true
past_verify succeeded = true
past_verify _ = false

-- A task carries a time for each phase that it has been through, a completion time exactly when it
-- has ended, a result only then, and a lease only while a worker holds it.
pub record IsConsistent (t : Task) : Type 0 where
  pub queued_stamped : past_queue t.status ≡ true → is_some t.queued_at ≡ true
  pub scheduled_stamped : past_schedule t.status ≡ true → is_some t.scheduled_at ≡ true
  pub preparing_stamped : past_prepare t.status ≡ true → is_some t.preparing_at ≡ true
  pub started_stamped : past_start t.status ≡ true → is_some t.started_at ≡ true
  pub verifying_stamped : past_verify t.status ≡ true → is_some t.verifying_at ≡ true
  pub completed_iff : is_some t.completed_at ≡ is_terminal_status t.status
  pub result_only_at_end : is_terminal_status t.status ≡ false → t.result ≡ none
  pub lease_only_if_active : is_active_status t.status ≡ false → t.lease_id ≡ none

IsConsistent-stamped :
    (s : TaskStatus) (m : Move) (t : Task)
    → can_transition t.status s ≡ true
    → IsConsistent t
    → IsConsistent (record (stamp s m.now m.lease_id m.result t) {
      status = s;
      error = m.error;
      updated_at = m.now;
    })
unfolding can_transition stamp
IsConsistent-stamped created m t can c = ground arith
IsConsistent-stamped _ m t can c = ground arith

move-IsConsistent : (m : Move) (t u : Task) → move m t ≡ ok u → IsConsistent t → IsConsistent u
unfolding move transition
move-IsConsistent m t u h c = elim (Bool-cases (can_transition t.status m.target)) [
  | inl can ↦
      let same : ok _ ≡ ok u = rw can at h in
      subst IsConsistent (ok_injective same) (IsConsistent-stamped m.target m t can c)
  | inr cannot ↦ absurd (let raised : err _ ≡ ok u = rw cannot at h in cc)
]

-- A run of calls of `transition` that all succeed keeps the timestamps, the lease and the result of
-- a task in accord with its status.
pub run-IsConsistent :
    (ms : List Move) (t u : Task) → run ms t ≡ ok u → IsConsistent t → IsConsistent u
unfolding run
run-IsConsistent [] t u h c = subst IsConsistent (ok_injective h) c
run-IsConsistent (m ∷ ms) t u h c = elim (Result-cases (move m t)) [
  | inl (v, moved) ↦
      run-IsConsistent ms v u (rw (moved, run) at h) (move-IsConsistent m t v moved c)
  | inr (e, raised) ↦ absurd (let stopped : err e ≡ ok u = rw (raised, run) at h in cc)
]

-- A new task is in accord.
pub create-IsConsistent :
    (now : DateTime) (fresh_id : String) (request : TaskRequest) (task_id : Option String)
    → IsConsistent (create now fresh_id request task_id)
unfolding create
create-IsConsistent now fresh_id request task_id = ground arith
