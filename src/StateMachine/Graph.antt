-- ===== src/StateMachine/Graph.antt =====
-- The lifecycle that README.md draws, as a relation written independently of the table of
-- app/orchestration/task_state_machine.py, and runs of accepted transitions.
use cloud_agent_platform_dem.Prelude.{
  ℕ, suc, ◌+◌, ◌*◌, ◌≤◌, ◌≡◌, refl, ◌⊎◌, inl, inr, String, true, false, Option, List, [], ◌∷◌,
  length, arith, if◌then◌else◌, Bool-cases,
}
use cloud_agent_platform_dem.Prelude.Exec.{Result, ok, err, invalid_task_transition, Result-cases}
use cloud_agent_platform_dem.Domain.{
  DateTime, Task, TaskResult, TaskStatus, created, queued, leased, scheduled, preparing,
  sandbox_starting, running, verifying, succeeded, failed, cancelled, is_terminal_status,
  is_active_status, is_terminal, status_eq,
}
use cloud_agent_platform_dem.StateMachine.{can_transition, stamp, transition}

infix 40 ◌⟶◌
-- The edges of the lifecycle: one way forward from phase to phase, with the sandbox phase left out
-- where none is asked for; back to the queue only from `leased`; a failure of any task that a
-- worker holds; and a cancellation of any task that has not ended.
pub data ◌⟶◌ : TaskStatus → TaskStatus → Type 0 where
  submit : created ⟶ queued
  lease : queued ⟶ leased
  requeue : leased ⟶ queued
  schedule : leased ⟶ scheduled
  prepare : scheduled ⟶ preparing
  start_sandbox : preparing ⟶ sandbox_starting
  skip_sandbox : preparing ⟶ running
  sandbox_ready : sandbox_starting ⟶ running
  verify : running ⟶ verifying
  succeed : verifying ⟶ succeeded
  fail : {s : TaskStatus} → is_active_status s ≡ true → s ⟶ failed
  cancel : {s : TaskStatus} → is_terminal_status s ≡ false → s ⟶ cancelled

ruleset edges = (
  submit, lease, requeue, schedule, prepare, start_sandbox, skip_sandbox, sandbox_ready, verify,
  succeed, fail, cancel,
)

pub ⟶_of_can : (a b : TaskStatus) → can_transition a b ≡ true → a ⟶ b
unfolding can_transition
⟶_of_can created b h = grind (arith, edges)
⟶_of_can _ b h = grind (arith, edges)

pub can_of_⟶ : {a b : TaskStatus} → a ⟶ b → can_transition a b ≡ true
unfolding can_transition
can_of_⟶ (fail {s} h) = ground arith
can_of_⟶ (cancel {s} h) = ground arith
can_of_⟶ submit = refl
can_of_⟶ _ = refl

-- For every task, target and argument, `transition` either succeeds along an edge of the lifecycle,
-- and then the task has the new status and error and this call's time as its last update, or raises
-- InvalidTaskTransitionError, and then there is no such edge.
pub transition-⟶ :
    (now : DateTime) (task : Task) (new_status : TaskStatus) (lease_id : Option String)
    (result : Option TaskResult) (error : Option String)
    → ((t : Task) × (transition now task new_status lease_id result error ≡ ok t)
        × (task.status ⟶ new_status)
        × (t.status ≡ new_status)
        × (t.error ≡ error)
        × (t.updated_at ≡ now))
      ⊎ ((transition now task new_status lease_id result error ≡ err invalid_task_transition)
          × ¬ (task.status ⟶ new_status))
unfolding transition
transition-⟶ now task s l r e = elim (Bool-cases (can_transition task.status s)) [
  | inl can ↦ inl (
    record (stamp s now l r task) { status = s; error = e; updated_at = now },
    rw can,
    ⟶_of_can _ _ can,
    refl,
    refl,
    refl,
  )
  | inr cannot ↦ inr (rw cannot, λ edge. cc (can_of_⟶ edge))
]

no_edge : {a b : TaskStatus} → a ⟶ b → is_terminal_status a ≡ true → ⊥
no_edge (fail {s} h) k = ground arith
no_edge (cancel {s} h) k = ground arith
no_edge submit k = cc
no_edge _ k = cc

-- What one call of `transition` is given.
pub record Move : Type 0 where
  pub now : DateTime
  pub target : TaskStatus
  pub lease_id : Option String
  pub result : Option TaskResult
  pub error : Option String

unfoldable pub move : Move → Task → Result Task
move m task = transition m.now task m.target m.lease_id m.result m.error

-- A run of calls, each on the task that the one before returned.
unfoldable pub run : List Move → Task → Result Task
run [] task = ok task
run (m ∷ ms) task = elim (move m task) [ ok t ↦ run ms t | err e ↦ err e ]

-- How many calls ask for the queue.
abbrev pub requeues : List Move → ℕ
requeues [] = 0
requeues (m ∷ ms) = if status_eq m.target queued then suc (requeues ms) else requeues ms

-- The phases in order; all final statuses are equally far.
abbrev depth : TaskStatus → ℕ
depth created = 0
depth queued = 1
depth leased = 2
depth scheduled = 3
depth preparing = 4
depth sandbox_starting = 5
depth running = 6
depth verifying = 7
depth _ = 8

-- An edge goes at least one phase on, or one phase back to the queue.
depth-⟶ :
    {a b : TaskStatus} → a ⟶ b → suc (depth a) ≤ depth b + (if status_eq b queued then 2 else 0)
depth-⟶ (fail {s} h) = ground arith
depth-⟶ (cancel {s} h) = ground arith
depth-⟶ submit = omega arith
depth-⟶ _ = omega arith

depth-move :
    (m : Move) (task t : Task)
    → move m task ≡ ok t
    → suc (depth task.status) ≤ depth t.status + (if status_eq m.target queued then 2 else 0)
unfolding move
depth-move m task t h = elim (transition-⟶ m.now task m.target m.lease_id m.result m.error) [
  | inl (u, returned, edge, arrived, _, _) ↦
      let same : u ≡ t = cc in rw (← same, arrived) (depth-⟶ edge)
  | inr (raised, _) ↦ absurd (cc)
]

depth-le : (s : TaskStatus) → depth s ≤ 8
depth-le s = ground arith

run_gains :
    (ms : List Move) (task t : Task)
    → run ms task ≡ ok t
    → length ms + depth task.status ≤ depth t.status + 2 * requeues ms
unfolding run
run_gains [] task t h = ground arith
run_gains (m ∷ ms) task t h = elim (Result-cases (move m task)) [
  | inl (u, moved) ↦
      let rest : run ms u ≡ ok t = rw (moved, run) at h in
      ground (arith, depth-move m task u moved, run_gains ms u t rest)
  | inr (e, raised) ↦ absurd (let stopped : err e ≡ ok t = rw (raised, run) at h in cc)
]

-- A task's life is bounded: a run of calls that all succeed is no longer than eight calls and two
-- more for each call that asks for the queue.
pub length-run-le :
    (ms : List Move) (task t : Task) → run ms task ≡ ok t → length ms ≤ 8 + 2 * requeues ms
length-run-le ms task t h = omega (arith, run_gains ms task t h, depth-le t.status)

-- A task that has ended stays as it is: the first of any further calls raises
-- InvalidTaskTransitionError.
pub run-is_terminal :
    (m : Move) (ms : List Move) (task : Task)
    → is_terminal task ≡ true
    → run (m ∷ ms) task ≡ err invalid_task_transition
unfolding run move is_terminal
run-is_terminal m ms task ended =
    elim (transition-⟶ m.now task m.target m.lease_id m.result m.error) [
      | inl (u, moved, edge, _, _, _) ↦ absurd (no_edge edge ended)
      | inr (raised, _) ↦ rw (raised, run, move)
    ]
