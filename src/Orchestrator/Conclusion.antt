-- ===== src/Orchestrator/Conclusion.antt =====
-- The end of the body of a run, and the body as a whole, under a discipline of the objects that it
-- calls: the verification, the deletion of the sandbox and the result.
use cloud_agent_platform_dem.Prelude.{
  Bool, false, ◌⊎◌, String, true, ◌&&◌, Option, none, List, ◌≡◌, refl, inl, inr, sym, subst, ap,
  ◌∙◌, Bool-cases, arith,
}
use cloud_agent_platform_dem.Prelude.Exec.{Result, ok, err}
use cloud_agent_platform_dem.Prelude.Hoare.{Ends, returned, raised, followed, weakened, remembered}
use cloud_agent_platform_dem.Value.{Fields}
use cloud_agent_platform_dem.Domain.{verifying, succeeded, failed}
use cloud_agent_platform_dem.AgentLoop.{AgentLoopResult, completed}
use cloud_agent_platform_dem.Verifier.{VerificationResult, VerificationContext}
use cloud_agent_platform_dem.Lease.{ExecutionLease}
use cloud_agent_platform_dem.Workspace.{WorkspaceLayout}
use cloud_agent_platform_dem.Orchestrator.World.{
  World, Parts, Session, TaskSandboxRuntime, PreparedRepository,
}
use cloud_agent_platform_dem.Orchestrator.Run.{conclude, verify_result, try_body}
use cloud_agent_platform_dem.Orchestrator.Writes.{
  Holds, is_underway, on_world-Ends, move-Ends, save-Ends,
}
use cloud_agent_platform_dem.Orchestrator.Discipline.{Discipline}
use cloud_agent_platform_dem.Orchestrator.Outcome.{HasEnded, HasRun}
use cloud_agent_platform_dem.Orchestrator.Outside.{along, move-outside, save-outside}
use cloud_agent_platform_dem.Orchestrator.TaskSandbox.{cleanup_task_sandbox}
use cloud_agent_platform_dem.Orchestrator.Phases.{
  Going, Unstarted, Unstarted-Going, Holds-Going, prepare-Ends, start_sandbox-Ends, run_agent-Ends,
}

module _ {E : Type 0} (parts : Parts E) (Before : World E → Type 0)
    (Inv : Option (TaskSandboxRuntime E) → World E → Type 0) (D : Discipline parts Before Inv) where
  verified :
      (held : Option (TaskSandboxRuntime E)) (id : String) (c : VerificationContext) (s : Session E)
      → Holds (Inv held) (D.stable held) held id s
      → Ends
          (λ v s'.
            Holds (Inv held) (D.stable held) held id s' × ((parts.verify c s.world).0 ≡ ok v))
          (Holds (Inv held) (D.stable held) held id)
          (parts.verify c s.world).0
          (record s { world = (parts.verify c s.world).1 })
  verified held id c s (p, same, same_id) =
      on_world-Ends (Inv held) (D.stable held) held id _ _ s same same_id
        (remembered (parts.verify c s.world).0 ((D.kept held).verify c s.world p))

  cleaned :
      (held : Option (TaskSandboxRuntime E)) (id : String) (r : Result (Option Fields))
      (w : World E) (s : Session E)
      → s.task_sandbox ≡ held
      → s.task.id ≡ id
      → Ends (λ report w'. Inv none w') (λ w'. Inv held w' × Inv none w') r w
      → Ends
          (λ report s'. Inv none s'.world × (s'.task.id ≡ id))
          (Going parts Before Inv D id)
          r
          (record s { world = w })
  cleaned held id (ok report) w s same same_id (returned p) = returned (p, same_id)
  cleaned held id (err x) w s same same_id (raised (p, q)) =
      raised (subst (λ sandbox. Inv sandbox w) (sym same) p, same_id)

  failing : (a b : Bool) → (a && b) ≡ false → (a ≡ false) ⊎ (b ≡ false)
  failing true b e = inr e
  failing false b e = inl refl

  conclude-Ends :
      (loop : AgentLoopResult) (v : VerificationResult) (c : VerificationContext) (w : World E)
      (artifact_paths : List String) (metadata : Fields) (id : String) (s : Session E)
      → (parts.verify c w).0 ≡ ok v
      → c.loop_result ≡ loop
      → HasRun parts id loop w.outside
      → (sandbox : Option (TaskSandboxRuntime E))
      → s.world.outside ≡ (cleanup_task_sandbox parts sandbox (parts.verify c w).1).1.outside
      → Holds (Inv none) (D.stable none) none id s
      → Ends
          (λ r s'. Inv none s'.world × HasEnded parts id r s'.world)
          (Going parts Before Inv D id)
          (conclude parts loop v artifact_paths metadata s).0
          (conclude parts loop v artifact_paths metadata s).1
  unfolding conclude
  conclude-Ends loop v c w artifact_paths metadata id s told same_loop ran sandbox left h =
      elim (Bool-cases (completed loop && v.passed)) [
        | inl e ↦ rw e (
            weakened
              (along
                (λ t.
                  t.world.outside
                  ≡ (cleanup_task_sandbox parts sandbox (parts.verify c w).1).1.outside)
                (save-outside parts succeeded _ none s refl ((D.stable none).valid s.world h.0)
                  ∙ left)
                (save-Ends (Inv none) (D.stable none) parts none id succeeded _ none s refl h))
              (λ r s'
                  (
                    (p, (same_id, r_status, r_summary, r_error, (t, stored, t_status, t_result))),
                    out,
                  ).
                (
                  p,
                  (
                    same_id,
                    inl (
                      r_status,
                      (t, _, stored, t_status, t_result, sym r_summary),
                      (
                        loop,
                        v,
                        c,
                        w,
                        sandbox,
                        ran,
                        told,
                        same_loop,
                        ground arith,
                        ground arith,
                        r_summary,
                        out,
                      ),
                    ),
                  ),
                ))
              (Holds-Going parts Before Inv D none id))
        | inr e ↦ rw e (
            weakened (save-Ends (Inv none) (D.stable none) parts none id failed _ _ s refl h)
              (λ r s' (p, (same_id, r_status, r_summary, r_error, (t, stored, t_status, t_result))).
                (
                  p,
                  (
                    same_id,
                    inr (
                      r_status,
                      (t, stored, rw t_status refl),
                      inr (
                        loop,
                        v,
                        c,
                        w,
                        ran,
                        told,
                        same_loop,
                        failing (completed loop) v.passed e,
                        r_summary,
                      ),
                    ),
                  ),
                ))
              (Holds-Going parts Before Inv D none id))
      ]

  verify_result-Ends :
      (layout : WorkspaceLayout) (workspace_root : String) (lease : ExecutionLease)
      (prepared : Option PreparedRepository) (loop : AgentLoopResult) (id : String) (s : Session E)
      → Going parts Before Inv D id s
      → HasRun parts id loop s.world.outside
      → Ends
          (λ r s'. Inv none s'.world × HasEnded parts id r s'.world)
          (Going parts Before Inv D id)
          (verify_result parts layout workspace_root lease prepared loop s).0
          (verify_result parts layout workspace_root lease prepared loop s).1
  unfolding verify_result
  verify_result-Ends layout workspace_root lease prepared loop id s (p, same_id) ran =
      let held : Option (TaskSandboxRuntime E) = s.task_sandbox in
      followed
        (along (λ t. t.world.outside ≡ s.world.outside)
          (move-outside parts verifying lease s refl ((D.stable held).valid s.world p))
          (weakened
            (move-Ends (Inv held) (D.stable held) parts held id verifying lease s refl
              (p, refl, same_id))
            (λ u. Holds-Going parts Before Inv D held id) (Holds-Going parts Before Inv D held id)))
        λ u s1 ((p1, same_id1), out1).
          let now : Option (TaskSandboxRuntime E) = s1.task_sandbox in
          followed
            (along (λ t. t.world ≡ (parts.verify _ s1.world).1) refl
              (weakened (verified now id _ s1 (p1, refl, same_id1)) (λ v t h. h)
                (Holds-Going parts Before Inv D now id)))
            λ v s2 (((q, same2, same_id2), told), left2).
              followed
                (along
                  (λ t.
                    t.world.outside
                    ≡ (cleanup_task_sandbox parts s1.task_sandbox s2.world).1.outside)
                  refl (cleaned now id _ _ s2 same2 same_id2 (D.cleaning now s2.world q)))
                λ cleanup s3 ((q3, same_id3), left3).
                  conclude-Ends loop v _ s1.world _ _ id (record s3 { task_sandbox = none }) told
                    refl (subst (HasRun parts id loop) (sym out1) ran) s1.task_sandbox
                    (left3
                      ∙ ap (λ w. (cleanup_task_sandbox parts s1.task_sandbox w).1.outside) left2)
                    (q3, refl, same_id3)

  -- The body of the `try` keeps what the objects keep. When it returns, the run holds no sandbox and
  -- has ended the task as its result says.
  pub try_body-Ends :
      (layout : WorkspaceLayout) (lease : ExecutionLease) (id : String) (s : Session E)
      → is_underway s.task.status ≡ true
      → Unstarted parts Before Inv D id s
      → Ends
          (λ r s'. Inv none s'.world × HasEnded parts id r s'.world)
          (Going parts Before Inv D id)
          (try_body parts layout lease s).0
          (try_body parts layout lease s).1
  unfolding try_body
  try_body-Ends layout lease id s underway h =
      followed
        (weakened (prepare-Ends parts Before Inv D layout id s underway h) (λ prepared t g. g)
          (Unstarted-Going parts Before Inv D id))
        λ prepared s1 h1.
          followed (start_sandbox-Ends parts Before Inv D layout _ lease id s1 h1) λ u s2 h2.
            followed (run_agent-Ends parts Before Inv D layout _ lease id s2 h2)
              λ loop s3 (h3, ran). verify_result-Ends layout _ lease prepared loop id s3 h3 ran
