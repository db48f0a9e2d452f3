-- ===== src/StateMachine.antt =====
-- app/orchestration/task_state_machine.py. The keyword arguments of `transition` are explicit, and
-- `now` is the reading of the clock that it takes.
pub mod Graph
pub mod Stamps
pub mod Chronology
mod Tests
use cloud_agent_platform_dem.Prelude.{
  ℕ, String, Bool, true, false, Option, none, some, List, [], ◌∷◌, any, str_eq, if◌then◌else◌,
}
use cloud_agent_platform_dem.Prelude.Exec.{Result, ok, err, invalid_task_transition}
use cloud_agent_platform_dem.Domain.{
  DateTime, Task, TaskResult, TaskStatus, created, queued, leased, scheduled, preparing,
  sandbox_starting, running, verifying, succeeded, failed, cancelled, status_eq,
}

-- `VALID_TRANSITIONS`
unfoldable pub valid_transitions : TaskStatus → List TaskStatus
valid_transitions created = queued ∷ cancelled ∷ []
valid_transitions queued = leased ∷ cancelled ∷ []
valid_transitions leased = scheduled ∷ queued ∷ failed ∷ cancelled ∷ []
valid_transitions scheduled = preparing ∷ failed ∷ cancelled ∷ []
valid_transitions preparing = sandbox_starting ∷ running ∷ failed ∷ cancelled ∷ []
valid_transitions sandbox_starting = running ∷ failed ∷ cancelled ∷ []
valid_transitions running = verifying ∷ failed ∷ cancelled ∷ []
valid_transitions verifying = succeeded ∷ failed ∷ cancelled ∷ []
valid_transitions succeeded = []
valid_transitions failed = []
valid_transitions cancelled = []

-- `assert_can_transition`, as a test.
unfoldable pub can_transition : TaskStatus → TaskStatus → Bool
unfolding any valid_transitions
can_transition current new_status = any (status_eq new_status) (valid_transitions current)

-- `a or b` on optional texts, of which an empty one is false.
abbrev pub or_else : Option String → Option String → Option String
or_else none b = b
or_else (some a) b = if str_eq a "" then b else some a

-- `a or now` on datetimes, which are never false.
abbrev pub first_stamp : Option DateTime → DateTime → Option DateTime
first_stamp none now = some now
first_stamp (some t) now = some t

-- The fields that a move to `new_status` changes besides the status, the error and `updated_at`.
unfoldable pub stamp : TaskStatus → DateTime → Option String → Option TaskResult → Task → Task
stamp created now lease_id result task = task
stamp queued now lease_id result task = record task {
  queued_at = first_stamp task.queued_at now;
  lease_id = none;
}
stamp leased now lease_id result task = record task { lease_id = lease_id }
stamp scheduled now lease_id result task = record task {
  scheduled_at = first_stamp task.scheduled_at now;
  lease_id = or_else lease_id task.lease_id;
}
stamp preparing now lease_id result task = record task {
  preparing_at = first_stamp task.preparing_at now;
  lease_id = or_else lease_id task.lease_id;
}
stamp sandbox_starting now lease_id result task = record task {
  sandbox_started_at = first_stamp task.sandbox_started_at now;
  lease_id = or_else lease_id task.lease_id;
}
stamp running now lease_id result task = record task {
  started_at = first_stamp task.started_at now;
  lease_id = or_else lease_id task.lease_id;
}
stamp verifying now lease_id result task = record task {
  verifying_at = first_stamp task.verifying_at now;
  lease_id = or_else lease_id task.lease_id;
}
-- succeeded, failed and cancelled
stamp _ now lease_id result task = record task {
  completed_at = some now;
  lease_id = none;
  result = result;
}

-- `transition`
unfoldable pub transition :
    DateTime
    → Task
    → TaskStatus
    → (lease_id : Option String) (result : Option TaskResult) (error : Option String) → Result Task
unfolding can_transition stamp
transition now task new_status lease_id result error =
    if can_transition task.status new_status
    then ok (record (stamp new_status now lease_id result task) {
      status = new_status;
      error = error;
      updated_at = now;
    })
    else err invalid_task_transition
