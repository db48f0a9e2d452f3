-- ===== src/Policy/Decision.antt =====
-- The policy of app/tools/policy.py, where `Path.resolve` returns and where it raises.
use cloud_agent_platform_dem.Prelude.{
  String, not, ◌&&◌, ◌≡◌, sym, inl, inr, List, [], ◌∷◌, Bool-cases, Option-cases, if◌then◌else◌,
}
use cloud_agent_platform_dem.Prelude.Exec.{Result, ok, err, ok_injective}
use cloud_agent_platform_dem.Text.{Unicode, is_one_of}
use cloud_agent_platform_dem.Tools.{ToolDefinition, ToolRequest, ToolContext, PolicyDecision}
use cloud_agent_platform_dem.Policy.{
  Paths, evaluate, try_evaluate, check_paths, check_path, try_check_paths, path_error, then_check,
  is_nonempty,
}

module _ (u : Unicode) (paths : Paths) (c : ToolContext) where
  -- A decision that the loop gives is that of `check_paths`.
  agreed :
      (d : PolicyDecision) (rest : Result PolicyDecision) (rest' x : PolicyDecision)
      → ((y : PolicyDecision) → rest ≡ ok y → y ≡ rest')
      → then_check (ok d) rest ≡ ok x
      → x ≡ (if d.allowed then rest' else d)
  agreed d rest rest' x same h = elim (Bool-cases d.allowed) [
    | inl e ↦ rw e (same x (rw e at h))
    | inr e ↦ rw e (sym (ok_injective (rw e at h)))
  ]

  try_check_paths-check_paths :
      (ps : List String) (x : PolicyDecision)
      → try_check_paths u paths ps c ≡ ok x
      → x ≡ check_paths u paths ps c
  unfolding try_check_paths check_paths
  try_check_paths-check_paths [] x h = sym (ok_injective h)
  try_check_paths-check_paths (p ∷ ps) x h = elim (Option-cases (path_error u paths p c)) [
    | inl e ↦
        agreed (check_path u paths p c) (try_check_paths u paths ps c) (check_paths u paths ps c) x
          (try_check_paths-check_paths ps) (rw e at h)
    | inr (y, e) ↦ absurd (let raised : err y ≡ ok x = rw e at h in cc)
  ]

  -- Where the policy gives a decision, it is `evaluate`.
  pub try_evaluate-evaluate :
      (request : ToolRequest) (definition : ToolDefinition) (x : PolicyDecision)
      → try_evaluate u paths request definition c ≡ ok x
      → x ≡ evaluate u paths request definition c
  unfolding try_evaluate evaluate
  try_evaluate-evaluate request definition x h =
      elim (Bool-cases (definition.requires_write && not c.allow_write)) [
        | inl e ↦ rw e (sym (ok_injective (rw e at h)))
        | inr e ↦
            elim (Bool-cases (
              is_nonempty definition.allowed_roles
              && not (is_one_of definition.allowed_roles c.role))) [
                | inl f ↦ rw (e, f) (sym (ok_injective (rw (e, f) at h)))
                | inr f ↦ rw (e, f) (try_check_paths-check_paths _ x (rw (e, f) at h))
              ]
      ]
