-- ===== src/Orchestrator/Writes.antt =====
-- What the accesses of a run to the store promise, for any fact `P` about the world that a write of
-- a task keeps and that has the store well formed.
use cloud_agent_platform_dem.Prelude.{
  String, Bool, true, false, Option, none, some, ◌≡◌, refl, arith, Option-cases, Bool-cases, inl,
  inr, ◌∙◌, subst,
}
use cloud_agent_platform_dem.Prelude.Dict.{get, get-put_self}
use cloud_agent_platform_dem.Prelude.Exec.{Result, ok, err}
use cloud_agent_platform_dem.Prelude.Hoare.{Ends, returned, raised, followed}
use cloud_agent_platform_dem.Domain.{
  DateTime, Task, TaskStatus, TaskResult, created, queued, is_terminal_status,
}
use cloud_agent_platform_dem.StateMachine.{transition, stamp, can_transition}
use cloud_agent_platform_dem.TaskStore.{require, update}
use cloud_agent_platform_dem.TaskStore.Laws.{IsWellFormed}
use cloud_agent_platform_dem.Lease.{ExecutionLease}
use cloud_agent_platform_dem.Orchestrator.World.{
  World, Parts, Session, TaskSandboxRuntime, on_store,
}
use cloud_agent_platform_dem.Orchestrator.Steps.{advance, put_task, move, save}
use cloud_agent_platform_dem.Worker.{OrchestratorResult}

abbrev pub IsValid : {E : Type 0} → World E → Type 0
IsValid w = IsWellFormed w.system.store

-- The task that the store has under an id.
abbrev pub Stored : {E : Type 0} → World E → String → Task → Type 0
Stored w id t = get w.system.store.tasks id ≡ some t

-- The statuses that a run writes, from all of which a task may fail or has ended.
abbrev pub is_underway : TaskStatus → Bool
is_underway created = false
is_underway queued = false
is_underway _ = true

is_underway_of_terminal :
    (status : TaskStatus) → is_terminal_status status ≡ true → is_underway status ≡ true
is_underway_of_terminal status h = ground arith

-- A fact that has the store well formed and that no write of a run undoes.
pub record IsStable {E : Type 0} (P : World E → Type 0) : Type 0 where
  pub valid : (w : World E) → P w → IsValid w
  pub updating :
      (t : Task) (w : World E) → is_underway t.status ≡ true → P w → P (on_store (update t) w).1

pub stamp-id :
    (status : TaskStatus) (now : DateTime) (lease_id : Option String) (result : Option TaskResult)
    (t : Task)
    → (stamp status now lease_id result t).id ≡ t.id
unfolding stamp
stamp-id created now lease_id result t = refl
stamp-id _ now lease_id result t = ground arith

stamp-result :
    (status : TaskStatus) (now : DateTime) (lease_id : Option String) (result : Option TaskResult)
    (t : Task)
    → is_terminal_status status ≡ true
    → (stamp status now lease_id result t).result ≡ result
unfolding stamp
stamp-result created now lease_id result t h = absurd (cc)
stamp-result _ now lease_id result t h = ground arith

pub transition-Ends :
    {S : Type 0} (P : S → Type 0) (now : DateTime) (t : Task) (status : TaskStatus)
    (lease_id : Option String) (result : Option TaskResult) (error : Option String) (s : S)
    → P s
    → Ends
        (λ moved s'.
          P s'
          × (moved.id ≡ t.id)
          × (moved.status ≡ status)
          × (is_terminal_status status ≡ true → moved.result ≡ result))
        P
        (transition now t status lease_id result error)
        s
unfolding transition
transition-Ends P now t status lease_id result error s p =
    elim (Bool-cases (can_transition t.status status)) [
      | inl e ↦ rw e (
          returned (
            p,
            stamp-id status now lease_id result t,
            refl,
            stamp-result status now lease_id result t,
          ))
      | inr e ↦ rw e (raised p)
    ]

written :
    (t : Task) (status : TaskStatus)
    → t.status ≡ status
    → is_underway status ≡ true
    → is_underway t.status ≡ true
written t status same u = rw same u

module _ {E : Type 0} (P : World E → Type 0) (stable : IsStable P) where
  pub require-Ends :
      (id : String) (w : World E)
      → P w
      → Ends
          (λ t w'. P w' × ((t.id ≡ id) × Stored w' id t))
          P
          (on_store (require id) w).0
          (on_store (require id) w).1
  unfolding require
  require-Ends id w p = elim (Option-cases (get w.system.store.tasks id)) [
    | inl e ↦ rw e (raised p)
    | inr (t, e) ↦ rw e (returned (p, ((stable.valid w p).keyed id t e, e)))
  ]

  pub update-Ends :
      (t : Task) (w : World E)
      → is_underway t.status ≡ true
      → P w
      → Ends
          (λ t' w'. P w' × Stored w' t.id t)
          P
          (on_store (update t) w).0
          (on_store (update t) w).1
  unfolding update
  update-Ends t w u p = elim (Option-cases (get w.system.store.tasks t.id)) [
    | inl e ↦ rw e (raised (rw e at (stable.updating t w u p)))
    | inr (x, e) ↦
        rw e
          (returned (rw e at (stable.updating t w u p), get-put_self w.system.store.tasks t.id t))
  ]

  pub advance-Ends :
      (parts : Parts E) (t : Task) (status : TaskStatus) (lease : ExecutionLease) (w : World E)
      → is_underway status ≡ true
      → P w
      → Ends
          (λ moved w'. P w' × ((moved.id ≡ t.id) × (moved.status ≡ status)))
          P
          (advance parts t status lease w).0
          (advance parts t status lease w).1
  unfolding advance
  advance-Ends parts t status lease w u p =
      followed (transition-Ends P (parts.now w) t status (some lease.id) none none w p)
        λ moved w' (q, same, moved_status, _).
          followed (update-Ends moved w' (written moved status moved_status u) q)
            λ _ w'' (q', _). returned (q', (same, moved_status))

  -- The variables of a run: no move changes the sandbox, nor the id of the task.
  abbrev pub Holds : Option (TaskSandboxRuntime E) → String → Session E → Type 0
  Holds sandbox id s = P s.world × (s.task_sandbox ≡ sandbox) × (s.task.id ≡ id)

  pub on_world-Ends :
      {A : Type 0} {Q : A → World E → Type 0} (sandbox : Option (TaskSandboxRuntime E))
      (id : String) (r : Result A) (w : World E) (s : Session E)
      → s.task_sandbox ≡ sandbox
      → s.task.id ≡ id
      → Ends (λ a w'. P w' × Q a w') P r w
      → Ends
          (λ a s'. Holds sandbox id s' × Q a s'.world)
          (Holds sandbox id)
          r
          (record s { world = w })
  on_world-Ends sandbox id (ok a) w s same same_id (returned (p, q)) =
      returned ((p, same, same_id), q)
  on_world-Ends sandbox id (err x) w s same same_id (raised p) = raised (p, same, same_id)

  pub on_world-Holds :
      {A : Type 0} (sandbox : Option (TaskSandboxRuntime E)) (id : String) (r : Result A)
      (w : World E) (s : Session E)
      → s.task_sandbox ≡ sandbox
      → s.task.id ≡ id
      → Ends (λ a w'. P w') P r w
      → Ends (λ a s'. Holds sandbox id s') (Holds sandbox id) r (record s { world = w })
  on_world-Holds sandbox id (ok a) w s same same_id (returned p) = returned (p, same, same_id)
  on_world-Holds sandbox id (err x) w s same same_id (raised p) = raised (p, same, same_id)

  pub put_task-Ends :
      (sandbox : Option (TaskSandboxRuntime E)) (id : String) (t : Task) (s : Session E)
      → is_underway t.status ≡ true
      → P s.world
      → s.task_sandbox ≡ sandbox
      → t.id ≡ id
      → Ends (λ u s'. Holds sandbox id s') (Holds sandbox id) (put_task t s).0 (put_task t s).1
  unfolding put_task
  put_task-Ends sandbox id t s u p same same_id =
      followed
        (on_world-Ends sandbox id _ _ (record s { task = t }) same same_id
          (update-Ends t s.world u p))
        λ _ s' (h, _). returned h

  pub move-Ends :
      (parts : Parts E) (sandbox : Option (TaskSandboxRuntime E)) (id : String)
      (status : TaskStatus) (lease : ExecutionLease) (s : Session E)
      → is_underway status ≡ true
      → Holds sandbox id s
      → Ends
          (λ u s'. Holds sandbox id s')
          (Holds sandbox id)
          (move parts status lease s).0
          (move parts status lease s).1
  unfolding move
  move-Ends parts sandbox id status lease s u (p, same, same_id) =
      followed (on_world-Ends sandbox id _ _ s same same_id (require-Ends s.task.id s.world p))
        λ current s1 (h1, (current_id, _)).
          followed
            (transition-Ends (Holds sandbox id) (parts.now s1.world) current status (some lease.id)
              none none s1 h1)
            λ moved s2 (h2, moved_id, moved_status, _).
              put_task-Ends sandbox id moved s2 (written moved status moved_status u) h2.0 h2.1
                (moved_id ∙ current_id ∙ same_id)

  -- What a run has saved when it returns: the task has the status and the result that it reports.
  abbrev pub HasSaved : String → TaskStatus → TaskResult → OrchestratorResult → World E → Type 0
  HasSaved id status result r w =
      (r.task_id ≡ id)
      × (r.status ≡ status)
      × (r.summary ≡ result.summary)
      × (r.error ≡ result.error)
      × ((t : Task) × Stored w id t × (t.status ≡ status) × (t.result ≡ some result))

  pub save-Ends :
      (parts : Parts E) (sandbox : Option (TaskSandboxRuntime E)) (id : String)
      (status : TaskStatus) (result : TaskResult) (error : Option String) (s : Session E)
      → is_terminal_status status ≡ true
      → Holds sandbox id s
      → Ends
          (λ r s'. P s'.world × HasSaved id status result r s'.world)
          (Holds sandbox id)
          (save parts status result error s).0
          (save parts status result error s).1
  unfolding save
  save-Ends parts sandbox id status result error s terminal (p, same, same_id) =
      followed (on_world-Ends sandbox id _ _ s same same_id (require-Ends s.task.id s.world p))
        λ current s1 (h1, (current_id, _)).
          followed
            (transition-Ends (Holds sandbox id) (parts.now s1.world) current status none
              (some result) error s1 h1)
            λ moved s2 (h2, moved_id, moved_status, moved_result).
              followed
                (on_world-Ends sandbox id _ _ s2 h2.1 h2.2 (
                  update-Ends moved s2.world
                    (written moved status moved_status (is_underway_of_terminal status terminal))
                    h2.0))
                λ _ s3 (h3, stored). returned (
                  h3.0,
                  (
                    same_id,
                    moved_status,
                    refl,
                    refl,
                    (
                      moved,
                      subst (λ k. Stored s3.world k moved) (moved_id ∙ current_id ∙ same_id) stored,
                      moved_status,
                      moved_result terminal,
                    ),
                  ),
                )
