-- ===== src/Orchestrator/Leaks.antt =====
-- That a run of app/orchestration/task_orchestrator.py deletes the sandbox whose start returned to it.
use cloud_agent_platform_dem.Prelude.{
  String, ℕ, Bool, Option, none, some, List, ◌∷◌, ◌≡◌, refl, ◌∙◌, sym, ◌⊎◌, inl, inr, ap,
}
use cloud_agent_platform_dem.Prelude.Exec.{Result, Error, ok, err}
use cloud_agent_platform_dem.Prelude.Hoare.{Ends, returned, raised, remembered, weakened}
use cloud_agent_platform_dem.Sandbox.{SandboxSpec, CommandSpec}
use cloud_agent_platform_dem.SandboxService.{SandboxService, SandboxInfo}
use cloud_agent_platform_dem.SandboxService.Serving.{IsGood}
use cloud_agent_platform_dem.Domain.{Task}
use cloud_agent_platform_dem.TaskStore.{update}
use cloud_agent_platform_dem.Lease.{ExecutionLease}
use cloud_agent_platform_dem.Runners.{route}
use cloud_agent_platform_dem.Worker.{OrchestratorResult}
use cloud_agent_platform_dem.Orchestrator.World.{World, Parts, on_store}
use cloud_agent_platform_dem.Orchestrator.Run.{run}
use cloud_agent_platform_dem.Orchestrator.Writes.{IsStable, IsValid}
use cloud_agent_platform_dem.Orchestrator.Discipline.{Keeps}
use cloud_agent_platform_dem.Orchestrator.Lifecycle.{IsListed, Rules, Owned, rules-Discipline}
use cloud_agent_platform_dem.Orchestrator.Ending.{run-Ends}
use cloud_agent_platform_dem.Orchestrator.Terminal.{KeepsAll, IsValid-IsStable}

-- `outstanding` is an account of the calls that a run makes of the services: the sandboxes that a start
-- has returned and of which no deletion has returned since. It says nothing of what a service does on
-- its host: a start that raises may leave a container there, and a deletion may return False. The
-- account changes at those two calls only, and a look at a sandbox finds the record of that sandbox.
pub record Tracks {E : Type 0} (parts : Parts E) (outstanding : E → List String) : Type 0 where
  pub calls : (sandboxes : List String) → Keeps parts (λ w. outstanding w.outside ≡ sandboxes)
  pub starting :
      (service : SandboxService (World E)) (spec : SandboxSpec) (w : World E)
      → IsListed parts service
      → Ends
          (λ info w'. outstanding w'.outside ≡ info.id ∷ outstanding w.outside)
          (λ w'. outstanding w'.outside ≡ outstanding w.outside)
          (service.start_sandbox spec none w).0
          (service.start_sandbox spec none w).1
  pub looking :
      (service : SandboxService (World E)) (id : String) (w : World E)
      → IsListed parts service
      → outstanding (service.get_sandbox id w).1.outside ≡ outstanding w.outside
  pub named :
      (service : SandboxService (World E)) (id : String) (info : SandboxInfo) (w : World E)
      → IsListed parts service
      → (service.get_sandbox id w).0 ≡ ok (some info)
      → info.id ≡ id
  pub executing :
      (service : SandboxService (World E)) (id : String) (c : CommandSpec) (w : World E)
      → IsListed parts service
      → outstanding (service.execute id c w).1.outside ≡ outstanding w.outside
  pub sleeping :
      (n : ℕ) (w : World E) → outstanding (parts.clock.sleep n w).outside ≡ outstanding w.outside
  pub deleting :
      (service : SandboxService (World E)) (id : String) (rest : List String) (w : World E)
      → IsListed parts service
      → outstanding w.outside ≡ id ∷ rest
      → Ends
          (λ b w'. outstanding w'.outside ≡ rest)
          (λ w'. outstanding w'.outside ≡ id ∷ rest)
          (service.delete_sandbox id w).0
          (service.delete_sandbox id w).1

-- Outstanding are the sandboxes of before, or those and one of which a deletion raised.
abbrev pub IsLeftAlone : {E : Type 0} → Parts E → (E → List String) → List String → World E → Type 0
IsLeftAlone {E} parts outstanding before w =
    (outstanding w.outside ≡ before)
    ⊎ ((id : String) × (service : SandboxService (World E)) × (at : World E) × (x : Error)
        × (outstanding w.outside ≡ id ∷ before)
        × IsListed parts service
        × ((service.delete_sandbox id at).0 ≡ err x))

abbrev And : {W : Type 0} → (W → Type 0) → (W → Type 0) → W → Type 0
And P Q w = P w × Q w

module _ {E : Type 0} (parts : Parts E) where
  both-Keeps : (P Q : World E → Type 0) → Keeps parts P → Keeps parts Q → Keeps parts (And P Q)
  both-Keeps P Q k l = record {
    runner = λ i w (p, q). (k.runner i w p, l.runner i w q);
    routed = λ router profile i w e (p, q).
        (k.routed router profile i w e p, l.routed router profile i w e q);
    verify = λ c w (p, q). (k.verify c w p, l.verify c w q);
    prepare_repository =
        λ r d w (p, q). (k.prepare_repository r d w p, l.prepare_repository r d w q);
    mkdir = λ d w (p, q). (k.mkdir d w p, l.mkdir d w q);
  }

  And-IsValid :
      {A : Type 0} {Q : A → World E → Type 0} {X : World E → Type 0} {r : Result A} {w : World E}
      → IsValid w
      → Ends Q X r w
      → Ends (λ a w'. IsValid w' × Q a w') (And IsValid X) r w
  And-IsValid valid (returned q) = returned (valid, q)
  And-IsValid valid (raised x) = raised (valid, x)

module _ {E : Type 0} (parts : Parts E) (outstanding : E → List String)
    (T : Tracks parts outstanding) (before : List String) where
  abbrev AreOutstanding : List String → World E → Type 0
  AreOutstanding sandboxes w = outstanding w.outside ≡ sandboxes

  leave :
      (w w' : World E)
      → ((sandboxes : List String) → AreOutstanding sandboxes w → AreOutstanding sandboxes w')
      → IsLeftAlone parts outstanding before w
      → IsLeftAlone parts outstanding before w'
  leave w w' same (inl e) = inl (same before e)
  leave w w' same (inr (id, service, at, x, e, listed, failed)) =
      inr (id, service, at, x, same (id ∷ before) e, listed, failed)

  left-Keeps : Keeps parts (IsLeftAlone parts outstanding before)
  left-Keeps = record {
    runner = λ i w p. leave w (parts.runner i w).1 (λ l. (T.calls l).runner i w) p;
    routed = λ router profile i w e p.
        leave w (route router profile i w).1 (λ l. (T.calls l).routed router profile i w e) p;
    verify = λ c w p. leave w (parts.verify c w).1 (λ l. (T.calls l).verify c w) p;
    prepare_repository = λ r d w p.
        leave w (parts.prepare_repository r d w).1 (λ l. (T.calls l).prepare_repository r d w) p;
    mkdir = λ d w p. leave w (parts.mkdir d w).1 (λ l. (T.calls l).mkdir d w) p;
  }

  And-IsStable :
      (P : World E → Type 0)
      → ((t : Task) (w : World E) → P w → P (on_store (update t) w).1)
      → IsStable (And IsValid P)
  And-IsStable P keep = record {
    valid = λ w (valid, p). valid;
    updating = λ t w u (valid, p). (IsValid-IsStable.updating t w u valid, keep t w p);
  }

  deleted :
      (service : SandboxService (World E)) (id : String) (at : World E) (r : Result Bool)
      (w : World E)
      → IsListed parts service
      → (service.delete_sandbox id at).0 ≡ r
      → Ends (λ b w'. AreOutstanding before w') (AreOutstanding (id ∷ before)) r w
      → Ends
          (λ b w'. IsLeftAlone parts outstanding before w')
          (λ w'. AreOutstanding (id ∷ before) w' × IsLeftAlone parts outstanding before w')
          r
          w
  deleted service id at (ok b) w listed e (returned p) = returned (inl p)
  deleted service id at (err x) w listed e (raised p) =
      raised (p, inr (id, service, at, x, p, listed, e))

  found-named :
      (service : SandboxService (World E)) (id : String) (found : Option SandboxInfo) (w : World E)
      → IsListed parts service
      → (service.get_sandbox id w).0 ≡ ok found
      → IsGood (λ info. info.id ≡ id) found
  found-named service id none w listed e = tt
  found-named service id (some info) w listed e = T.named service id info w listed e

  abbrev Named : String → SandboxInfo → Type 0
  Named id info = info.id ≡ id

  outstanding-Rules :
      KeepsAll parts IsValid
      → Rules parts
          (And IsValid (AreOutstanding before))
          (λ id. And IsValid (AreOutstanding (id ∷ before)))
          (And IsValid (IsLeftAlone parts outstanding before))
          Named
  outstanding-Rules K = record {
    starting = λ service spec w listed (valid, e).
        And-IsValid parts (K.starting service spec w listed valid) (
          weakened (T.starting service spec w listed) (λ info t q. q ∙ ap (λ l. info.id ∷ l) e)
            (λ t q. inl (q ∙ e)));
    serving = λ service id listed. record {
      looking = λ w (valid, e).
          weakened
            (remembered {P = And IsValid (AreOutstanding (id ∷ before))}
              (service.get_sandbox id w).0
              (K.looking service id w listed valid, T.looking service id w listed ∙ e))
            (λ found t (q, told). (q, found-named service id found w listed told)) (λ t q. q);
      executing = λ i c w (valid, e).
          (K.executing service i c w listed valid, T.executing service i c w listed ∙ e);
      sleeping = λ n w (valid, e). (K.sleeping n w valid, T.sleeping n w ∙ e);
    };
    named = λ id info w g (valid, e). (valid, e ∙ ap (λ k. k ∷ before) (sym g));
    deleting = λ service id w listed (valid, e).
        weakened
          (And-IsValid parts (K.deleting service id w listed valid)
            (deleted service id w _ _ listed refl (T.deleting service id before w listed e)))
          (λ b t q. q) (λ t (v, (q, q')). ((v, q), (v, q')));
    unstarted = λ w (valid, e). (valid, inl e);
  }

  left_after :
      {Q : OrchestratorResult → World E → Type 0} {r : Result OrchestratorResult} {w : World E}
      → Ends
          (λ a w'. And IsValid (IsLeftAlone parts outstanding before) w' × Q a w')
          (And IsValid (IsLeftAlone parts outstanding before))
          r
          w
      → IsLeftAlone parts outstanding before w
  left_after (returned (p, q)) = p.1
  left_after (raised p) = p.1

-- A run that is not cancelled has, when it returns or raises, a deletion that returned for the sandbox
-- whose start returned to it: what is outstanding is what was before, or that and the one sandbox, and
-- then a deletion of it, by a service of the orchestrator, raised. The hypotheses are that nothing the
-- run calls leaves the store ill formed, and that `outstanding` is such an account.
pub run-IsLeftAlone :
    {E : Type 0} (parts : Parts E) (outstanding : E → List String)
    → KeepsAll parts IsValid
    → Tracks parts outstanding
    → (task_id : String) (lease : ExecutionLease) (w : World E) → IsValid w
    → IsLeftAlone parts outstanding (outstanding w.outside) (run parts task_id lease w).1
run-IsLeftAlone parts outstanding K T task_id lease w valid =
    let before : List String = outstanding w.outside in
    let R = outstanding-Rules parts outstanding T before K in
    let D =
      rules-Discipline parts _ _ _ _ R
        (And-IsStable parts outstanding T before (λ t. outstanding t.outside ≡ before) (λ t w p. p))
        (λ id.
          And-IsStable parts outstanding T before (λ t. outstanding t.outside ≡ id ∷ before)
            (λ t w p. p))
        (And-IsStable parts outstanding T before (IsLeftAlone parts outstanding before)
          (λ t w p. p))
        (both-Keeps parts _ _ K.calls (T.calls before))
        (λ id. both-Keeps parts _ _ K.calls (T.calls (id ∷ before)))
        (both-Keeps parts _ _ K.calls (left-Keeps parts outstanding T before)) in
    left_after parts outstanding T before
      (run-Ends parts _ (Owned parts _ _ _ _ R) D task_id lease w (valid, refl))
