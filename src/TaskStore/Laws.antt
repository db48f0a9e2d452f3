-- ===== src/TaskStore/Laws.antt =====
-- What the methods of the store promise: every branch, and the entries that a write leaves alone.
use cloud_agent_platform_dem.Prelude.{
  ◌≡◌, ◌≢◌, ◌⊎◌, inl, inr, String, Bool, true, false, none, some, arith, str_eq, str_eq_iff,
  if◌then◌else◌, Option-cases, Memᴰ, Bool-cases, subst, sym, ◌↔◌, mem-select, select-mem,
}
use cloud_agent_platform_dem.Prelude.Dict.{
  get, put, values, get-put, HasDistinctKeys, put-HasDistinctKeys, values_found, found_in_values,
}
use cloud_agent_platform_dem.Prelude.Exec.{ok, err, task_not_found, duplicate_task}
use cloud_agent_platform_dem.Domain.{Task, TaskStatus, status_eq, status_eq_iff}
use cloud_agent_platform_dem.TaskStore.{
  TaskStore, create, get_task, update, compare_and_update, list,
}

-- Each task stands once, under its own id.
pub record IsWellFormed (s : TaskStore) : Type 0 where
  pub distinct : HasDistinctKeys s.tasks
  pub keyed : (k : String) (t : Task) → get s.tasks k ≡ some t → t.id ≡ k

pub write-IsWellFormed :
    (s : TaskStore) (task : Task)
    → IsWellFormed s
    → IsWellFormed (record { tasks = put s.tasks task.id task })
write-IsWellFormed s task w = record {
  distinct = put-HasDistinctKeys s.tasks task.id task w.distinct;
  keyed = λ k t found.
      ground (arith, w.keyed k t, get-put s.tasks task.id k task, str_eq_iff task.id k);
}

pub create-IsWellFormed :
    (task : Task) (s : TaskStore) → IsWellFormed s → IsWellFormed (create task s).1
unfolding create
create-IsWellFormed task s w = elim (Option-cases (get s.tasks task.id)) [
  | inl e ↦ rw e (write-IsWellFormed s task w)
  | inr (t, e) ↦ rw e w
]

pub update-IsWellFormed :
    (task : Task) (s : TaskStore) → IsWellFormed s → IsWellFormed (update task s).1
unfolding update
update-IsWellFormed task s w = elim (Option-cases (get s.tasks task.id)) [
  | inl e ↦ rw e w
  | inr (t, e) ↦ rw e (write-IsWellFormed s task w)
]

-- `compare_and_update` takes any task as the new one: the id must be kept.
pub compare_and_update-IsWellFormed :
    (task_id : String) (expected : TaskStatus) (updated : Task) (s : TaskStore)
    → updated.id ≡ task_id
    → IsWellFormed s
    → IsWellFormed (compare_and_update task_id expected updated s).1
unfolding compare_and_update
compare_and_update-IsWellFormed task_id expected updated s same w =
    elim (Option-cases (get s.tasks task_id)) [
      | inl e ↦ rw e w
      | inr (t, e) ↦ elim (Bool-cases (status_eq t.status expected)) [
        | inl same_status ↦
            rw (e, same_status)
              (subst (λ k. IsWellFormed (record { tasks = put s.tasks k updated })) same
                (write-IsWellFormed s updated w))
        | inr other_status ↦ rw (e, other_status) w
      ]
    ]

-- `create` and `update` are each other's complement. On an id that is not there `create` writes the
-- task and `update` raises TaskNotFoundError; on one that is there `update` writes and `create`
-- raises DuplicateTaskError. The one that raises changes nothing, and the one that writes returns
-- the task, changes what is found under its id to it, and nothing else.
pub create-update :
    (task : Task) (s : TaskStore)
    → ((s' : TaskStore) × (create task s ≡ (ok task, s'))
        × (update task s ≡ (err (task_not_found task.id), s))
        × (get_task task.id s ≡ none)
        × ((j : String) → get_task j s' ≡ (if str_eq task.id j then some task else get_task j s)))
      ⊎ ((s' : TaskStore) × (old : Task) × (update task s ≡ (ok task, s'))
          × (create task s ≡ (err (duplicate_task task.id), s))
          × (get_task task.id s ≡ some old)
          × ((j : String) → get_task j s' ≡ (if str_eq task.id j then some task else get_task j s)))
unfolding create update get_task
create-update task s =
    let written : TaskStore = record { tasks = put s.tasks task.id task } in
    elim (Option-cases (get s.tasks task.id)) [
      | inl e ↦ inl (written, rw e, rw e, e, λ j. get-put s.tasks task.id j task)
      | inr (old, e) ↦ inr (written, old, rw e, rw e, e, λ j. get-put s.tasks task.id j task)
    ]

-- `compare_and_update` writes the new task exactly when the task is there with the expected status,
-- and says so by True; with another status it returns False, and without the task it raises
-- TaskNotFoundError, and changes nothing in both cases.
pub compare_and_update_lem :
    (task_id : String) (expected : TaskStatus) (updated : Task) (s : TaskStore)
    → ((get_task task_id s ≡ none)
        × (compare_and_update task_id expected updated s ≡ (err (task_not_found task_id), s)))
      ⊎ ((t : Task) × (s' : TaskStore) × (get_task task_id s ≡ some t)
          × (t.status ≡ expected)
          × (compare_and_update task_id expected updated s ≡ (ok true, s'))
          × ((j : String)
              → get_task j s' ≡ (if str_eq task_id j then some updated else get_task j s)))
      ⊎ ((t : Task) × (get_task task_id s ≡ some t)
          × (t.status ≢ expected)
          × (compare_and_update task_id expected updated s ≡ (ok false, s)))
unfolding compare_and_update get_task
compare_and_update_lem task_id expected updated s = elim (Option-cases (get s.tasks task_id)) [
  | inl e ↦ inl (e, rw e)
  | inr (t, e) ↦ inr (elim (Bool-cases (status_eq t.status expected)) [
    | inl same ↦ inl (
      t,
      record { tasks = put s.tasks task_id updated },
      e,
      (status_eq_iff _ _).0 same,
      rw (e, same),
      λ j. get-put s.tasks task_id j updated,
    )
    | inr other ↦
        inr (t, e, λ same. cc ((status_eq_iff t.status expected).1 same, other), rw (e, other))
  ])
]

-- `list` returns exactly the tasks of the store whose status is asked for.
pub mem-list_iff :
    (allowed : TaskStatus → Bool) (s : TaskStore) (t : Task)
    → IsWellFormed s
    → Memᴰ t (list allowed s) ↔ ((get_task t.id s ≡ some t) × (allowed t.status ≡ true))
unfolding list get_task
mem-list_iff allowed s t w = (
  λ m.
      let (inside, passes) = mem-select (λ x. allowed x.status) (values s.tasks) m in
      let (k, found) = values_found s.tasks w.distinct inside in
      (subst (λ j. get s.tasks j ≡ some t) (sym (w.keyed k t found)) found, passes),
  λ (found, passes).
      select-mem (λ x. allowed x.status) (values s.tasks) (found_in_values s.tasks t.id found)
        passes,
)
