-- ===== src/Orchestrator/Outside.antt =====
-- The steps of a run that write only the store leave alone all that is outside it.
use cloud_agent_platform_dem.Prelude.{String, true, Option, ◌≡◌, refl}
use cloud_agent_platform_dem.Prelude.Exec.{Result}
use cloud_agent_platform_dem.Prelude.Hoare.{Ends, returned, raised, weakened}
use cloud_agent_platform_dem.Domain.{TaskStatus, TaskResult, is_terminal_status}
use cloud_agent_platform_dem.TaskStore.Laws.{update-IsWellFormed}
use cloud_agent_platform_dem.Lease.{ExecutionLease}
use cloud_agent_platform_dem.Orchestrator.World.{World, Parts, Session}
use cloud_agent_platform_dem.Orchestrator.Steps.{move, save}
use cloud_agent_platform_dem.Orchestrator.Writes.{
  IsValid, IsStable, is_underway, move-Ends, save-Ends,
}

-- What holds after a return and after a raise.
pub ends_either :
    {S A : Type 0} {F : S → Type 0} {r : Result A} {s : S} → Ends (λ a t. F t) F r s → F s
ends_either (returned p) = p
ends_either (raised p) = p

-- A fact about the state at the end, beside what an action promises.
pub along :
    {S A : Type 0} {Q : A → S → Type 0} {X : S → Type 0} {r : Result A} {s : S} (F : S → Type 0)
    → F s
    → Ends Q X r s
    → Ends (λ a t. Q a t × F t) X r s
along F f (returned q) = returned (q, f)
along F f (raised x) = raised x

module _ {E : Type 0} (parts : Parts E) where
  abbrev HasOutside : E → World E → Type 0
  HasOutside o w = IsValid w × (w.outside ≡ o)

  HasOutside-IsStable : (o : E) → IsStable (HasOutside o)
  HasOutside-IsStable o = record {
    valid = λ w (valid, e). valid;
    updating = λ t w u (valid, e). (update-IsWellFormed t w.system.store valid, e);
  }

  pub move-outside :
      (status : TaskStatus) (lease : ExecutionLease) (s : Session E)
      → is_underway status ≡ true
      → IsValid s.world
      → (move parts status lease s).1.world.outside ≡ s.world.outside
  move-outside status lease s u valid =
      let o = s.world.outside in
      (ends_either (
        move-Ends (HasOutside o) (HasOutside-IsStable o) parts s.task_sandbox s.task.id status lease
          s u ((valid, refl), refl, refl))).0.1

  pub save-outside :
      (status : TaskStatus) (result : TaskResult) (error : Option String) (s : Session E)
      → is_terminal_status status ≡ true
      → IsValid s.world
      → (save parts status result error s).1.world.outside ≡ s.world.outside
  save-outside status result error s terminal valid =
      let o = s.world.outside in
      (ends_either {F = λ t. HasOutside o t.world} (
        weakened
          (save-Ends (HasOutside o) (HasOutside-IsStable o) parts s.task_sandbox s.task.id status
            result error s terminal ((valid, refl), refl, refl))
          (λ r t q. q.0) (λ t h. h.0))).1
