-- ===== src/Orchestrator/Terminal.antt =====
-- How a run of app/orchestration/task_orchestrator.py ends the task, when the objects that it calls
-- keep the store well formed.
use cloud_agent_platform_dem.Prelude.{String, ℕ, Option, none, some}
use cloud_agent_platform_dem.Prelude.Hoare.{Ends, always, weakened}
use cloud_agent_platform_dem.Sandbox.{SandboxSpec, CommandSpec}
use cloud_agent_platform_dem.SandboxService.{SandboxService, SandboxInfo}
use cloud_agent_platform_dem.SandboxService.Serving.{IsGood}
use cloud_agent_platform_dem.Lease.{ExecutionLease}
use cloud_agent_platform_dem.TaskStore.Laws.{update-IsWellFormed}
use cloud_agent_platform_dem.Orchestrator.World.{World, Parts}
use cloud_agent_platform_dem.Orchestrator.Run.{run}
use cloud_agent_platform_dem.Orchestrator.Writes.{IsStable, IsValid}
use cloud_agent_platform_dem.Orchestrator.Discipline.{Keeps}
use cloud_agent_platform_dem.Orchestrator.Lifecycle.{IsListed, Rules, Owned, rules-Discipline}
use cloud_agent_platform_dem.Orchestrator.Outcome.{HasEnded}
use cloud_agent_platform_dem.Orchestrator.Ending.{run-Ends}

-- Nothing that a run calls undoes `P`, the sandbox services included.
pub record KeepsAll {E : Type 0} (parts : Parts E) (P : World E → Type 0) : Type 0 where
  pub calls : Keeps parts P
  pub starting :
      (service : SandboxService (World E)) (spec : SandboxSpec) (w : World E)
      → IsListed parts service
      → P w
      → P (service.start_sandbox spec none w).1
  pub looking :
      (service : SandboxService (World E)) (id : String) (w : World E)
      → IsListed parts service
      → P w
      → P (service.get_sandbox id w).1
  pub executing :
      (service : SandboxService (World E)) (id : String) (c : CommandSpec) (w : World E)
      → IsListed parts service
      → P w
      → P (service.execute id c w).1
  pub deleting :
      (service : SandboxService (World E)) (id : String) (w : World E)
      → IsListed parts service
      → P w
      → P (service.delete_sandbox id w).1
  pub sleeping : (n : ℕ) (w : World E) → P w → P (parts.clock.sleep n w)

abbrev pub Anything : String → SandboxInfo → Type 0
Anything id info = Unit {0}

IsGood-Anything : (id : String) (found : Option SandboxInfo) → IsGood (Anything id) found
IsGood-Anything id none = tt
IsGood-Anything id (some info) = tt

pub kept-Rules :
    {E : Type 0} (parts : Parts E) (P : World E → Type 0)
    → KeepsAll parts P
    → Rules parts P (λ id. P) P Anything
kept-Rules parts P K = record {
  starting = λ service spec w listed p. always _ (K.starting service spec w listed p);
  serving = λ service id listed. record {
    looking = λ w p.
        weakened (always _ (K.looking service id w listed p))
          (λ found t q. (q, IsGood-Anything id found)) (λ t q. q);
    executing = λ i c w p. K.executing service i c w listed p;
    sleeping = K.sleeping;
  };
  named = λ id info w g p. p;
  deleting = λ service id w listed p.
      weakened (always _ (K.deleting service id w listed p)) (λ b t q. q) (λ t q. (q, q));
  unstarted = λ w p. p;
}

pub IsValid-IsStable : {E : Type 0} → IsStable {E = E} IsValid
IsValid-IsStable = record {
  valid = λ w p. p;
  updating = λ t w u p. update-IsWellFormed t w.system.store p;
}

pub run_lem :
    {E : Type 0} (parts : Parts E)
    → KeepsAll parts IsValid
    → (task_id : String) (lease : ExecutionLease) (w : World E) → IsValid w
    → Ends
        (λ r w'. IsValid w' × HasEnded parts task_id r w')
        IsValid
        (run parts task_id lease w).0
        (run parts task_id lease w).1
run_lem parts K task_id lease w valid =
    let R = kept-Rules parts IsValid K in
    let D =
      rules-Discipline parts IsValid (λ id. IsValid) IsValid Anything R IsValid-IsStable
        (λ id. IsValid-IsStable) IsValid-IsStable K.calls (λ id. K.calls) K.calls in
    run-Ends parts IsValid (Owned parts IsValid (λ id. IsValid) IsValid Anything R) D task_id lease
      w valid
