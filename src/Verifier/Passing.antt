-- ===== src/Verifier/Passing.antt =====
-- What stands behind a result that app/verification/verifier.py passes.
use cloud_agent_platform_dem.Prelude.{
  String, Bool, true, false, ◌&&◌, ◌≡◌, refl, ◌⊎◌, inl, inr, List, [], ◌∷◌, arith, Memᴰ, All,
  any-mem, select, Bool-cases, List-cases, str_eq,
}
use cloud_agent_platform_dem.Text.{Unicode, is_one_of}
use cloud_agent_platform_dem.Tools.{ToolResult}
use cloud_agent_platform_dem.AgentLoop.{completed}
use cloud_agent_platform_dem.Policy.{Paths}
use cloud_agent_platform_dem.Verifier.{
  VerificationContext, verify, check_agent_completed, check_completion_evidence, check_artifacts,
  check_command_execution, check_expected, expected_artifacts, expects_artifact, expects_command,
  has_successful_tool, is_successful_command, artifact_exists, is_missing, is_some_result,
}

-- A tool result of the run that succeeded, of a tool that passes the test.
abbrev pub Succeeded : (ToolResult → Bool) → VerificationContext → Type 0
Succeeded test c =
    (r : ToolResult) × Memᴰ r c.loop_result.tool_results × (test r ≡ true) × (r.success ≡ true)

-- The evidence of a finished task: the tool `finish_task` succeeded, or nothing was asked for that a
-- tool would give and none was used.
abbrev pub HasEvidence : Unicode → VerificationContext → Type 0
HasEvidence u c =
    Succeeded (λ r. str_eq r.tool_name "finish_task") c
    ⊎ ((expects_artifact u c ≡ false)
        × (expects_command u c ≡ false)
        × (c.loop_result.tool_results ≡ []))

all_four :
    (a b c d : Bool)
    → (a && (b && (c && (d && true)))) ≡ true
    → (a ≡ true) × (b ≡ true) × (c ≡ true) × (d ≡ true)
all_four true true true true h = (refl, refl, refl, refl)
all_four true true true false h = absurd (cc)
all_four true true false d h = absurd (cc)
all_four true false c d h = absurd (cc)
all_four false b c d h = absurd (cc)

completion :
    (c : VerificationContext)
    → (check_agent_completed c).passed ≡ true
    → completed c.loop_result ≡ true
unfolding check_agent_completed
completion c h = elim (Bool-cases (completed c.loop_result)) [
  | inl e ↦ e
  | inr e ↦ absurd (let f = rw e at h in cc)
]

module _ (u : Unicode) (paths : Paths) (is_file : String → Bool) where
  -- An artifact that was reported and is a file inside the artifact root.
  abbrev pub IsThere : VerificationContext → String → Type 0
  IsThere c path =
      (is_one_of c.artifact_paths path ≡ true)
      × (artifact_exists u paths is_file c.artifact_root path ≡ true)

  -- Every artifact that is named is there; and if none is named and the task wants one, some artifact
  -- that was reported is a file inside the artifact root.
  abbrev pub HasAsked : VerificationContext → List String → Type 0
  HasAsked c ps =
      All (IsThere c) ps
      × (ps ≡ []
          → expects_artifact u c ≡ true
          → (path : String) × Memᴰ path c.artifact_paths
            × (artifact_exists u paths is_file c.artifact_root path ≡ true))

  -- The same of the artifacts that the task names.
  abbrev pub HasArtifacts : VerificationContext → Type 0
  HasArtifacts c = HasAsked c (expected_artifacts c)

  none_missing :
      (c : VerificationContext) (ps : List String)
      → select (is_missing u paths is_file c) ps ≡ []
      → All (IsThere c) ps
  unfolding select
  none_missing c [] h = tt
  none_missing c (p ∷ ps) h = elim (Bool-cases (is_missing u paths is_file c p)) [
    | inl e ↦ absurd (cc)
    | inr e ↦ ((ground arith, ground arith), none_missing c ps (rw e at h))
  ]

  check_expected-HasArtifacts :
      (c : VerificationContext) (ps : List String)
      → (check_expected u paths is_file c ps).passed ≡ true
      → HasAsked c ps
  check_expected-HasArtifacts c [] h =
      (tt, λ none_named wanted. any-mem _ c.artifact_paths (ground arith))
  check_expected-HasArtifacts c (p ∷ ps) h =
      elim (List-cases (select (is_missing u paths is_file c) (p ∷ ps))) [
        | inl e ↦ (none_missing c (p ∷ ps) e, λ none_named. absurd (cc))
        | inr (m, ms, e) ↦ absurd (let f = rw e at h in cc)
      ]

  no_results : (rs : List ToolResult) → is_some_result rs ≡ false → rs ≡ []
  no_results [] e = refl
  no_results (r ∷ rs) e = absurd (cc)

  evidence :
      (c : VerificationContext) → (check_completion_evidence u c).passed ≡ true → HasEvidence u c
  unfolding check_completion_evidence has_successful_tool
  evidence c h = elim (Bool-cases (has_successful_tool "finish_task" c)) [
    | inl e ↦
        let (r, m, f) = any-mem _ c.loop_result.tool_results e in
        inl (r, m, ground arith, ground arith)
    | inr e ↦ inr (ground arith, ground arith, no_results _ (ground arith))
  ]

  commands :
      (c : VerificationContext)
      → (check_command_execution u c).passed ≡ true
      → (expects_command u c ≡ false) ⊎ Succeeded is_successful_command c
  unfolding check_command_execution is_successful_command
  commands c h = elim (Bool-cases (expects_command u c)) [
    | inr e ↦ inl e
    | inl e ↦
        let (r, m, f) = any-mem is_successful_command c.loop_result.tool_results (ground arith) in
        inr (r, m, f, ground arith)
  ]

  artifacts :
      (c : VerificationContext) → (check_artifacts u paths is_file c).passed ≡ true → HasArtifacts c
  unfolding check_artifacts
  artifacts c h = check_expected-HasArtifacts c (expected_artifacts c) h

  -- A result that passes comes from a run that completed; the tool `finish_task` succeeded in it, or
  -- the task asked for nothing that a tool gives and no tool was used; every artifact that the task
  -- names was reported and is a file inside the artifact root, and if it names none but wants one, some
  -- reported artifact is such a file; and a controlled command succeeded if the task wants one.
  pub verify_passed :
      (c : VerificationContext)
      → (verify u paths is_file c).passed ≡ true
      → (completed c.loop_result ≡ true)
        × HasEvidence u c
        × HasArtifacts c
        × ((expects_command u c ≡ false) ⊎ Succeeded is_successful_command c)
  unfolding verify
  verify_passed c h =
      let (done, proven, there, ran) =
        all_four (check_agent_completed c).passed (check_completion_evidence u c).passed
          (check_artifacts u paths is_file c).passed (check_command_execution u c).passed h in
      (completion c done, evidence c proven, artifacts c there, commands c ran)
