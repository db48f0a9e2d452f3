-- ===== src/StateMachine/Tests.antt =====
-- Runs of the state machine of app/orchestration/task_state_machine.py on small inputs.
use cloud_agent_platform_dem.Prelude.{◌≤◌, ◌≡◌, refl, ◌⊎◌, none, some, List, [], ◌∷◌, arith, length}
use cloud_agent_platform_dem.Prelude.Exec.{ok, err, invalid_task_transition}
use cloud_agent_platform_dem.Domain.{
  Task, TaskStatus, queued, leased, scheduled, preparing, running, verifying, succeeded, create,
  default_request,
}
use cloud_agent_platform_dem.StateMachine.{transition}
use cloud_agent_platform_dem.StateMachine.Graph.{Move, move, run, length-run-le, transition-⟶, ◌⟶◌}
use cloud_agent_platform_dem.StateMachine.Stamps.{
  IsConsistent, run-IsConsistent, create-IsConsistent,
}
use cloud_agent_platform_dem.StateMachine.Chronology.{IsChronological, run-create-IsChronological}

abbrev call : TaskStatus → Move
call s = record { now = 20; target = s; lease_id = some "lease"; result = none; error = none }

abbrev fresh : Task
fresh = create 10 "id" (default_request "explain") none

-- The task goes back to the queue once.
abbrev moves : List Move
moves =
    call queued
    ∷ call leased
    ∷ call queued
    ∷ call leased
    ∷ call scheduled
    ∷ call preparing
    ∷ call running
    ∷ call verifying
    ∷ call succeeded
    ∷ []

abbrev final : Task
final = record fresh {
  status = succeeded;
  updated_at = 20;
  queued_at = some 20;
  scheduled_at = some 20;
  preparing_at = some 20;
  started_at = some 20;
  verifying_at = some 20;
  completed_at = some 20;
}

run_lem : run moves fresh ≡ ok final
unfolding run move transition create
run_lem = refl

length-run-le_example : length moves ≤ 12
length-run-le_example = length-run-le moves fresh final run_lem

run-IsConsistent_example : IsConsistent final
run-IsConsistent_example =
    run-IsConsistent moves fresh final run_lem
      (create-IsConsistent 10 "id" (default_request "explain") none)

run-create-IsChronological_example : IsChronological final
run-create-IsChronological_example =
    run-create-IsChronological moves 10 "id" (default_request "explain") none final (omega arith)
      run_lem

transition-⟶_example :
    ((t : Task) × (transition 20 fresh queued none none none ≡ ok t)
      × (fresh.status ⟶ queued)
      × (t.status ≡ queued)
      × (t.error ≡ none)
      × (t.updated_at ≡ 20))
    ⊎ ((transition 20 fresh queued none none none ≡ err invalid_task_transition)
        × ¬ (fresh.status ⟶ queued))
transition-⟶_example = transition-⟶ 20 fresh queued none none none
