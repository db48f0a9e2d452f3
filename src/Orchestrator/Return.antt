-- ===== src/Orchestrator/Return.antt =====
-- That a run of app/orchestration/task_orchestrator.py returns, and so ends its task, unless the task
-- is taken out of its hands.
use cloud_agent_platform_dem.Prelude.{
  String, Bool, true, false, Option, none, some, ◌≡◌, refl, ◌∙◌, sym, subst, inl, inr, arith,
  Bool-cases, Option-cases, str_eq,
}
use cloud_agent_platform_dem.Prelude.Dict.{get, put, get-put, get-put_self}
use cloud_agent_platform_dem.Prelude.Exec.{Result, Error, ok, err}
use cloud_agent_platform_dem.Prelude.Hoare.{Ends, returned, followed}
use cloud_agent_platform_dem.Domain.{
  DateTime, Task, TaskResult, TaskStatus, created, failed, is_terminal, is_terminal_status,
}
use cloud_agent_platform_dem.StateMachine.{transition, can_transition, valid_transitions}
use cloud_agent_platform_dem.TaskStore.{require, update}
use cloud_agent_platform_dem.Orchestrator.World.{World, Parts, TaskSandboxRuntime, on_store}
use cloud_agent_platform_dem.Lease.{ExecutionLease}
use cloud_agent_platform_dem.SandboxService.{SandboxService}
use cloud_agent_platform_dem.Orchestrator.Steps.{advance, fail_unless_ended}
use cloud_agent_platform_dem.Orchestrator.TaskSandbox.{
  is_sandbox_error, deletion_report, cleanup_task_sandbox,
}
use cloud_agent_platform_dem.Orchestrator.Discipline.{Discipline}
use cloud_agent_platform_dem.Orchestrator.Lifecycle.{IsListed, Rules, Owned, rules-Discipline}
use cloud_agent_platform_dem.Orchestrator.Terminal.{
  KeepsAll, IsValid-IsStable, Anything, kept-Rules,
}
use cloud_agent_platform_dem.Orchestrator.Writes.{IsStable, IsValid, Stored, is_underway, stamp-id}

-- The task is stored, and a run has it in hand: it is neither created nor queued.
abbrev pub IsUnderway : {E : Type 0} → String → World E → Type 0
IsUnderway id w = IsValid w × ((t : Task) × Stored w id t × (is_underway t.status ≡ true))

can_fail :
    (status : TaskStatus)
    → is_underway status ≡ true
    → is_terminal_status status ≡ false
    → can_transition status failed ≡ true
unfolding can_transition valid_transitions
can_fail created u e = absurd (cc)
can_fail _ u e = ground arith

written_or_kept :
    {E : Type 0} (id : String) (t x : Task) (w : World E)
    → is_underway t.status ≡ true
    → Stored w id x
    → is_underway x.status ≡ true
    → (y : Task) × (get (put w.system.store.tasks t.id t) id ≡ some y)
      × (is_underway y.status ≡ true)
written_or_kept id t x w u there underway = elim (Bool-cases (str_eq t.id id)) [
  | inl e ↦ (t, get-put w.system.store.tasks t.id id t ∙ rw e refl, u)
  | inr e ↦ (x, get-put w.system.store.tasks t.id id t ∙ rw e there, underway)
]

pub IsUnderway-IsStable : {E : Type 0} (id : String) → IsStable {E = E} (IsUnderway id)
unfolding update
IsUnderway-IsStable id = record {
  valid = λ w p. p.0;
  updating = λ t w u (valid, (x, there, underway)).
      elim (Option-cases (get w.system.store.tasks t.id)) [
        | inl e ↦ rw e (valid, (x, there, underway))
        | inr (y, e) ↦ (
          IsValid-IsStable.updating t w u valid,
          rw e (written_or_kept id t x w u there underway),
        )
      ];
}

-- Facts about an action that never raises.
abbrev pub Returns : {S A : Type 0} → (A → S → Type 0) → Result A → S → Type 0
Returns Q r s = Ends Q (λ t. ⊥) r s

module _ {E : Type 0} where
  pub require-Returns :
      (id : String) (t : Task) (w : World E)
      → Stored w id t
      → Returns
          (λ found w'. (found ≡ t) × (w' ≡ w))
          (on_store (require id) w).0
          (on_store (require id) w).1
  unfolding require
  require-Returns id t w there = rw there (returned (refl, refl))

  update-Returns :
      (P : World E → Type 0) (t x : Task) (w : World E)
      → Stored w t.id x
      → P (on_store (update t) w).1
      → Returns
          (λ u w'. P w' × Stored w' t.id t)
          (on_store (update t) w).0
          (on_store (update t) w).1
  unfolding update
  update-Returns P t x w there p =
      rw there (returned (rw there at p, get-put_self w.system.store.tasks t.id t))

  module _ (P : World E → Type 0) (stable : IsStable P) where
    moved-Returns :
        (now : DateTime) (t : Task) (status : TaskStatus) (lease_id : Option String)
        (result : Option TaskResult) (error : Option String) (w : World E)
        → can_transition t.status status ≡ true
        → P w
        → Returns
            (λ moved w'. P w' × (w' ≡ w) × (moved.id ≡ t.id) × (moved.status ≡ status))
            (transition now t status lease_id result error)
            w
    unfolding transition
    moved-Returns now t status lease_id result error w can p =
        rw can (returned (p, refl, stamp-id status now lease_id result t, refl))

    pub advance-Returns :
        (parts : Parts E) (t : Task) (status : TaskStatus) (lease : ExecutionLease) (w : World E)
        → can_transition t.status status ≡ true
        → is_underway status ≡ true
        → Stored w t.id t
        → P w
        → Returns
            (λ moved w'. P w' × Stored w' t.id moved × (moved.id ≡ t.id) × (moved.status ≡ status))
            (advance parts t status lease w).0
            (advance parts t status lease w).1
    unfolding advance
    advance-Returns parts t status lease w can u there p =
        followed (moved-Returns (parts.now w) t status (some lease.id) none none w can p)
          λ moved w1 (p1, same_world, same, moved_status).
            followed
              (update-Returns P moved t w1
                (subst (λ k. Stored w1 k t) (sym same)
                  (subst (λ v. Stored v t.id t) (sym same_world) there))
                (stable.updating moved w1 (rw moved_status u) p1))
              λ _ w2 (p2, stored).
                returned (p2, subst (λ k. Stored w2 k moved) same stored, same, moved_status)

-- A deletion of a sandbox raises nothing but a `SandboxError`.
abbrev pub DeletesQuietly : {E : Type 0} → Parts E → Type 0
DeletesQuietly {E} parts =
    (service : SandboxService (World E)) (sandbox_id : String) (w : World E) (x : Error)
    → IsListed parts service
    → (service.delete_sandbox sandbox_id w).0 ≡ err x
    → is_sandbox_error x ≡ true

module _ {E : Type 0} (parts : Parts E) (id : String) (K : KeepsAll parts (IsUnderway id)) where
  abbrev pub underway_rules :
      Rules parts (IsUnderway id) (λ held. IsUnderway id) (IsUnderway id) Anything
  underway_rules = kept-Rules parts (IsUnderway id) K

  abbrev pub Inv : Option (TaskSandboxRuntime E) → World E → Type 0
  Inv = Owned parts (IsUnderway id) (λ held. IsUnderway id) (IsUnderway id) Anything underway_rules

  abbrev pub discipline : Discipline parts (IsUnderway id) Inv
  discipline =
      rules-Discipline parts (IsUnderway id) (λ held. IsUnderway id) (IsUnderway id) Anything
        underway_rules (IsUnderway-IsStable id) (λ held. IsUnderway-IsStable id)
        (IsUnderway-IsStable id) K.calls (λ held. K.calls) K.calls

  reported :
      (r : Result Bool) (w : World E)
      → ((x : Error) → r ≡ err x → is_sandbox_error x ≡ true)
      → IsUnderway id w
      → Returns
          (λ report w'. IsUnderway id w')
          (deletion_report parts r w).0
          (deletion_report parts r w).1
  reported (ok b) w quiet p = returned p
  reported (err x) w quiet p = rw (quiet x refl) (returned p)

  pub cleanup-Returns :
      (sandbox : Option (TaskSandboxRuntime E)) (w : World E)
      → DeletesQuietly parts
      → Inv sandbox w
      → Returns
          (λ report w'. IsUnderway id w')
          (cleanup_task_sandbox parts sandbox w).0
          (cleanup_task_sandbox parts sandbox w).1
  unfolding cleanup_task_sandbox
  cleanup-Returns none w quiet p = returned p
  cleanup-Returns (some runtime) w quiet (p, listed) =
      reported _ _ (λ x e. quiet runtime.service runtime.info.id w x listed e)
        (K.deleting runtime.service runtime.info.id w listed p)

  pub fail_unless_ended-Returns :
      (result : TaskResult) (t : Task) (w : World E)
      → Stored w t.id t
      → is_underway t.status ≡ true
      → IsUnderway id w
      → Returns
          (λ u w'. IsUnderway id w')
          (fail_unless_ended parts result t w).0
          (fail_unless_ended parts result t w).1
  unfolding is_terminal
  fail_unless_ended-Returns result t w there u p = elim (Bool-cases (is_terminal t)) [
    | inl e ↦ rw e (returned p)
    | inr e ↦ rw e (
        followed
          (moved-Returns (IsUnderway id) (IsUnderway-IsStable id) (parts.now w) t failed none
            (some result) result.error w (can_fail t.status u e) p)
          λ moved w1 (p1, same_world, same, moved_status).
            followed
              (update-Returns (IsUnderway id) moved t w1
                (subst (λ k. Stored w1 k t) (sym same)
                  (subst (λ v. Stored v t.id t) (sym same_world) there))
                ((IsUnderway-IsStable id).updating moved w1 (rw moved_status refl) p1))
              λ _ w2 (p2, _). returned p2)
  ]
