-- ===== src/StateMachine/Chronology.antt =====
-- The times of the phases follow the order of the lifecycle, as long as the clock does not run
-- backwards between calls of `transition`.
use cloud_agent_platform_dem.Prelude.{
  ◌≤◌, ◌≡◌, sym, inl, inr, String, Bool, true, false, Option, none, some, subst, List, [], ◌∷◌,
  arith, Bool-cases,
}
use cloud_agent_platform_dem.Prelude.Exec.{ok, err, Result-cases, ok_injective}
use cloud_agent_platform_dem.Domain.{
  DateTime, Task, TaskRequest, TaskStatus, created, queued, leased, scheduled, preparing,
  sandbox_starting, running, verifying, create,
}
use cloud_agent_platform_dem.StateMachine.{can_transition, stamp, transition}
use cloud_agent_platform_dem.StateMachine.Graph.{Move, move, run}

-- The statuses in which the phase named has not begun.
abbrev before_queue : TaskStatus → Bool
before_queue created = true
before_queue _ = false

abbrev before_schedule : TaskStatus → Bool
before_schedule queued = true
before_schedule leased = true
before_schedule s = before_queue s

abbrev before_prepare : TaskStatus → Bool
before_prepare scheduled = true
before_prepare s = before_schedule s

abbrev before_sandbox : TaskStatus → Bool
before_sandbox preparing = true
before_sandbox s = before_prepare s

abbrev before_start : TaskStatus → Bool
before_start sandbox_starting = true
before_start s = before_sandbox s

abbrev before_verify : TaskStatus → Bool
before_verify running = true
before_verify s = before_start s

abbrev before_end : TaskStatus → Bool
before_end verifying = true
before_end s = before_verify s

infix 50 ◌≼◌
-- Two times are in order if both are there.
abbrev pub ◌≼◌ : Option DateTime → Option DateTime → Type 0
some a ≼ some b = a ≤ b
_ ≼ _ = Unit

-- No time for a phase to come; and each time at most that of every later phase, whether or not the
-- phases between them have one, and at most that of the last update.
pub record IsChronological (t : Task) : Type 0 where
  pub unqueued : before_queue t.status ≡ true → t.queued_at ≡ none
  pub unscheduled : before_schedule t.status ≡ true → t.scheduled_at ≡ none
  pub unprepared : before_prepare t.status ≡ true → t.preparing_at ≡ none
  pub no_sandbox : before_sandbox t.status ≡ true → t.sandbox_started_at ≡ none
  pub unstarted : before_start t.status ≡ true → t.started_at ≡ none
  pub unverified : before_verify t.status ≡ true → t.verifying_at ≡ none
  pub unfinished : before_end t.status ≡ true → t.completed_at ≡ none
  pub created_first : t.created_at ≤ t.updated_at
  pub queue_after_create : some t.created_at ≼ t.queued_at
  pub schedule_after_create : some t.created_at ≼ t.scheduled_at
  pub schedule_after_queue : t.queued_at ≼ t.scheduled_at
  pub prepare_after_create : some t.created_at ≼ t.preparing_at
  pub prepare_after_queue : t.queued_at ≼ t.preparing_at
  pub prepare_after_schedule : t.scheduled_at ≼ t.preparing_at
  pub sandbox_after_create : some t.created_at ≼ t.sandbox_started_at
  pub sandbox_after_queue : t.queued_at ≼ t.sandbox_started_at
  pub sandbox_after_schedule : t.scheduled_at ≼ t.sandbox_started_at
  pub sandbox_after_prepare : t.preparing_at ≼ t.sandbox_started_at
  pub start_after_create : some t.created_at ≼ t.started_at
  pub start_after_queue : t.queued_at ≼ t.started_at
  pub start_after_schedule : t.scheduled_at ≼ t.started_at
  pub start_after_prepare : t.preparing_at ≼ t.started_at
  pub start_after_sandbox : t.sandbox_started_at ≼ t.started_at
  pub verify_after_create : some t.created_at ≼ t.verifying_at
  pub verify_after_queue : t.queued_at ≼ t.verifying_at
  pub verify_after_schedule : t.scheduled_at ≼ t.verifying_at
  pub verify_after_prepare : t.preparing_at ≼ t.verifying_at
  pub verify_after_sandbox : t.sandbox_started_at ≼ t.verifying_at
  pub verify_after_start : t.started_at ≼ t.verifying_at
  pub end_after_create : some t.created_at ≼ t.completed_at
  pub end_after_queue : t.queued_at ≼ t.completed_at
  pub end_after_schedule : t.scheduled_at ≼ t.completed_at
  pub end_after_prepare : t.preparing_at ≼ t.completed_at
  pub end_after_sandbox : t.sandbox_started_at ≼ t.completed_at
  pub end_after_start : t.started_at ≼ t.completed_at
  pub end_after_verify : t.verifying_at ≼ t.completed_at
  pub queued_known : t.queued_at ≼ some t.updated_at
  pub scheduled_known : t.scheduled_at ≼ some t.updated_at
  pub prepared_known : t.preparing_at ≼ some t.updated_at
  pub sandbox_known : t.sandbox_started_at ≼ some t.updated_at
  pub started_known : t.started_at ≼ some t.updated_at
  pub verified_known : t.verifying_at ≼ some t.updated_at
  pub ended_known : t.completed_at ≼ some t.updated_at

IsChronological-stamped :
    (s : TaskStatus) (m : Move) (t : Task)
    → can_transition t.status s ≡ true
    → t.updated_at ≤ m.now
    → IsChronological t
    → IsChronological (record (stamp s m.now m.lease_id m.result t) {
      status = s;
      error = m.error;
      updated_at = m.now;
    })
unfolding can_transition stamp
IsChronological-stamped created m t can later c = ground arith
IsChronological-stamped _ m t can later c = ground arith

updated_at-move : (m : Move) (t u : Task) → move m t ≡ ok u → u.updated_at ≡ m.now
unfolding move transition
updated_at-move m t u h = ground arith

move-IsChronological :
    (m : Move) (t u : Task)
    → move m t ≡ ok u
    → t.updated_at ≤ m.now
    → IsChronological t
    → IsChronological u
unfolding move transition
move-IsChronological m t u h later c = elim (Bool-cases (can_transition t.status m.target)) [
  | inl can ↦
      let same : ok _ ≡ ok u = rw can at h in
      subst IsChronological (ok_injective same) (IsChronological-stamped m.target m t can later c)
  | inr cannot ↦ absurd (let raised : err _ ≡ ok u = rw cannot at h in cc)
]

-- The clock does not run backwards from one call to the next.
abbrev pub IsForward : DateTime → List Move → Type 0
IsForward now [] = Unit
IsForward now (m ∷ ms) = (now ≤ m.now) × IsForward m.now ms

run-IsChronological :
    (ms : List Move) (t u : Task)
    → run ms t ≡ ok u
    → IsForward t.updated_at ms
    → IsChronological t
    → IsChronological u
unfolding run
run-IsChronological [] t u h f c = subst IsChronological (ok_injective h) c
run-IsChronological (m ∷ ms) t u h f c = elim (Result-cases (move m t)) [
  | inl (v, moved) ↦
      run-IsChronological ms v u (rw (moved, run) at h)
        (subst (λ n. IsForward n ms) (sym (updated_at-move m t v moved)) f.1)
        (move-IsChronological m t v moved f.0 c)
  | inr (e, raised) ↦ absurd (let stopped : err e ≡ ok u = rw (raised, run) at h in cc)
]

-- Of a task made by `create` and taken through any run of calls that all succeed, with a clock that
-- does not run backwards, the times of the phases follow the order of the lifecycle: none is set
-- before its phase, and none that is set is later than that of any later phase, or than the last
-- update.
pub run-create-IsChronological :
    (ms : List Move) (now : DateTime) (fresh_id : String) (request : TaskRequest)
    (task_id : Option String) (u : Task)
    → IsForward now ms
    → run ms (create now fresh_id request task_id) ≡ ok u
    → IsChronological u
unfolding create
run-create-IsChronological ms now fresh_id request task_id u f h =
    run-IsChronological ms (create now fresh_id request task_id) u h f (ground arith)
