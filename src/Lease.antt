-- ===== src/Lease.antt =====
-- app/orchestration/execution_lease.py. The manager and the store that it writes to are one state.
-- Each method holds the manager's lock, calls only methods of the store that do not wait, and so is
-- one step; `now` is the reading of the clock that it takes.
pub mod Acquire
pub mod Exclusion
mod Tests
use cloud_agent_platform_dem.Prelude.{
  ◌+◌, String, Bool, true, false, not, ◌&&◌, Option, none, some, List, [], ◌∷◌, leb, str_eq,
  if◌then◌else◌,
}
use cloud_agent_platform_dem.Prelude.Dict.{Dict, get, put, values}
use cloud_agent_platform_dem.Prelude.Sort.{find}
use cloud_agent_platform_dem.Prelude.Exec.{
  Exec, pure, raise, lift, gets, ◌>>=◌, ◌>>◌, Result, lease_task_not_queued, lease_already_active,
  lease_not_found, lease_released, lease_expired,
}
use cloud_agent_platform_dem.Domain.{DateTime, seconds, Task, queued, leased, status_eq}
use cloud_agent_platform_dem.StateMachine.{transition}
use cloud_agent_platform_dem.TaskStore.{TaskStore, require, update}

pub record ExecutionLease : Type 0 where
  pub id : String
  pub task_id : String
  pub worker_id : String
  pub acquired_at : DateTime
  pub expires_at : DateTime
  pub released_at : Option DateTime

unfoldable pub is_released : ExecutionLease → Bool
is_released lease = elim lease.released_at [ none ↦ false | some t ↦ true ]

unfoldable pub is_expired : ExecutionLease → DateTime → Bool
is_expired lease now = leb lease.expires_at now

-- The store, the leases of the manager and its time to live.
pub record System : Type 0 where
  pub store : TaskStore
  pub leases : Dict ExecutionLease
  pub ttl_seconds : DateTime

-- A method of the store, called by an object that shares it.
abbrev pub with_store : {A : Type 0} → Exec TaskStore A → Exec System A
with_store m s = let (r, store) = m s.store in (r, record s { store = store })

-- The test in the loop of `_active_lease_for_task`.
unfoldable pub holds : String → DateTime → ExecutionLease → Bool
unfolding is_released is_expired
holds task_id now lease =
    str_eq lease.task_id task_id && not (is_released lease) && not (is_expired lease now)

unfoldable pub active_lease_for_task : String → DateTime → System → Option ExecutionLease
unfolding find values holds
active_lease_for_task task_id now s = find (holds task_id now) (values s.leases)

abbrev write_lease : ExecutionLease → Exec System ExecutionLease
write_lease lease s = pure lease (record s { leases = put s.leases lease.id lease })

abbrev refuse_if_held : String → Option ExecutionLease → Exec System (Unit {0})
refuse_if_held task_id none = pure tt
refuse_if_held task_id (some lease) = raise (lease_already_active task_id)

abbrev new_lease : DateTime → String → String → String → DateTime → ExecutionLease
new_lease now lease_id task_id worker_id ttl = record {
  id = lease_id;
  task_id = task_id;
  worker_id = worker_id;
  acquired_at = now;
  expires_at = now + seconds ttl;
  released_at = none;
}

-- `acquire`: `lease_id` is what `uuid4().hex` returns.
unfoldable pub acquire : DateTime → String → String → String → Exec System ExecutionLease
unfolding active_lease_for_task require update transition
acquire now lease_id task_id worker_id = do
  task ← with_store (require task_id)
  if status_eq task.status queued then pure tt else raise (lease_task_not_queued task_id)
  active ← gets (active_lease_for_task task_id now)
  refuse_if_held task_id active
  ttl ← gets (λ s. s.ttl_seconds)
  updated ← lift (transition now task leased (some lease_id) none none)
  with_store (update updated)
  write_lease (new_lease now lease_id task_id worker_id ttl)

abbrev check_active : DateTime → String → Option ExecutionLease → Exec System ExecutionLease
check_active now lease_id none = raise (lease_not_found lease_id)
check_active now lease_id (some lease) =
    if is_released lease
    then raise (lease_released lease_id)
    else if is_expired lease now
    then raise (lease_expired lease_id)
    else pure lease

unfoldable pub require_active_lease : DateTime → String → Exec System ExecutionLease
unfolding is_released is_expired
require_active_lease now lease_id s = check_active now lease_id (get s.leases lease_id) s

-- `self._leases[lease_id] = updated`
abbrev put_lease : String → ExecutionLease → System → System
put_lease lease_id lease s = record s { leases = put s.leases lease_id lease }

unfoldable pub heartbeat : DateTime → String → Exec System ExecutionLease
unfolding require_active_lease
heartbeat now lease_id = do
  lease ← require_active_lease now lease_id
  ttl ← gets (λ s. s.ttl_seconds)
  let updated = record lease { expires_at = now + seconds ttl }
  λ s. pure updated (put_lease lease_id updated s)

abbrev release_found : DateTime → String → Option ExecutionLease → System → System
release_found now lease_id none s = s
release_found now lease_id (some lease) s =
    if is_released lease then s else put_lease lease_id (record lease { released_at = some now }) s

unfoldable pub release : DateTime → String → System → System
unfolding is_released
release now lease_id s = release_found now lease_id (get s.leases lease_id) s

unfoldable pub get_lease : String → System → Option ExecutionLease
get_lease lease_id s = get s.leases lease_id
