-- ===== src/Sandbox/Commands.antt =====
-- What the policy of app/sandbox/policy.py guarantees of the commands that it returns.
use cloud_agent_platform_dem.Prelude.{
  String, true, false, not, ◌&&◌, ◌≡◌, refl, sym, ap, subst, inl, inr, some, List, [], ◌∷◌, arith,
  Memᴰ, any, any-mem, Bool-cases,
}
use cloud_agent_platform_dem.Prelude.Int.{ℤ}
use cloud_agent_platform_dem.Prelude.Exec.{ok, after-split, Result-cases, ok_injective}
use cloud_agent_platform_dem.Sandbox.{
  Host, SandboxPolicy, SandboxSpec, CommandSpec, is_given, is_outside, number_or, check_environment,
  check_run, check_present, check_words, check_workdir, check_command, validate_command,
}
use cloud_agent_platform_dem.Sandbox.Limits.{
  IsRunnable, not_outside, check_words-given, check_environment-AllKeys,
}

module _ (h : Host) (p : SandboxPolicy) where
  check_workdir-inside :
      (workdir : String)
      → check_workdir h p workdir ≡ ok tt
      → (h.is_absolute_posix workdir ≡ true)
        × (h.has_parent_part workdir ≡ false)
        × ((root : String) × Memᴰ root p.allowed_workdirs × (h.is_inside workdir root ≡ true))
  unfolding check_workdir
  check_workdir-inside workdir e =
      elim (Bool-cases (
        (h.is_absolute_posix workdir && not (h.has_parent_part workdir))
        && any (h.is_inside workdir) p.allowed_workdirs)) [
          | inr f ↦ absurd (let g = rw f at e in cc)
          | inl f ↦ (ground arith, ground arith, any-mem _ p.allowed_workdirs (ground arith))
        ]

  check_run_bounded :
      (c : CommandSpec) (timeout max_output : ℤ)
      → check_run h p c timeout max_output ≡ ok tt
      → (is_outside timeout p.max_timeout_seconds ≡ false)
        × (is_outside max_output p.max_output_bytes ≡ false)
        × (check_workdir h p c.working_directory ≡ ok tt)
  check_run_bounded c timeout max_output e =
      elim (Bool-cases (is_outside timeout p.max_timeout_seconds)) [
        | inl f ↦ absurd (let g = rw f at e in cc)
        | inr f ↦ elim (Bool-cases (is_outside max_output p.max_output_bytes)) [
          | inl g ↦ absurd (let k = rw (f, g) at e in cc)
          | inr g ↦ (f, g, rw (f, g) at e)
        ]
      ]

  check_command_parts :
      (c : CommandSpec) (timeout max_output : ℤ)
      → check_command h p c timeout max_output ≡ ok tt
      → (check_present h p c.argv ≡ ok tt)
        × (check_words c.argv ≡ ok tt)
        × (check_environment h p c.environment ≡ ok tt)
        × (check_run h p c timeout max_output ≡ ok tt)
  unfolding check_command
  check_command_parts c timeout max_output e =
      let (first, run) = after-split (check_run h p c timeout max_output) _ e in
      let (second, named) = after-split (check_environment h p c.environment) _ first in
      let (present, worded) = after-split (check_words c.argv) (check_present h p c.argv) second in
      (present, worded, named, run)

  present-given : (ws : List String) → check_present h p ws ≡ ok tt → is_given ws ≡ true
  present-given [] e = absurd (cc)
  present-given (w ∷ ws) e = refl

  check_command-IsRunnable :
      (c : CommandSpec) (timeout max_output : ℤ)
      → check_command h p c timeout max_output ≡ ok tt
      → IsRunnable h p
          (record c { timeout_seconds = some timeout; max_output_bytes = some max_output })
  check_command-IsRunnable c timeout max_output e =
      let (present, worded, named, ran) = check_command_parts c timeout max_output e in
      let (timely, small, placed) = check_run_bounded c timeout max_output ran in
      let (absolute, no_parents, (root, allowed, inside)) =
        check_workdir-inside c.working_directory placed in
      record {
        has_words = present-given c.argv present;
        words = check_words-given c.argv worded;
        variables = check_environment-AllKeys h p c.environment named;
        timeout = timeout;
        timeout_set = refl;
        timeout_positive = (not_outside timeout p.max_timeout_seconds timely).0;
        timeout_bounded = (not_outside timeout p.max_timeout_seconds timely).1;
        output = max_output;
        output_set = refl;
        output_positive = (not_outside max_output p.max_output_bytes small).0;
        output_bounded = (not_outside max_output p.max_output_bytes small).1;
        absolute = absolute;
        no_parents = no_parents;
        root = root;
        root_allowed = allowed;
        inside = inside;
      }

  -- A command that the policy returns has the words, the directory and the variables of the one that
  -- it was given, and may run: it has at least one word and no empty one, every variable is allowed,
  -- its timeout and its output limit are set, above zero and at most those of the policy, and its
  -- directory is absolute, without "..", and inside an allowed one.
  pub validate_command-IsRunnable :
      (c c' : CommandSpec) (s : SandboxSpec)
      → validate_command h p c s ≡ ok c'
      → (c'.argv ≡ c.argv)
        × (c'.working_directory ≡ c.working_directory)
        × (c'.environment ≡ c.environment)
        × IsRunnable h p c'
  unfolding validate_command
  validate_command-IsRunnable c c' s e =
      let timeout = number_or c.timeout_seconds s.command_timeout_seconds in
      let max_output = number_or c.max_output_bytes s.max_output_bytes in
      elim (Result-cases (check_command h p c timeout max_output)) [
        | inr (x, f) ↦ absurd (let g = rw f at e in cc)
        | inl (x, f) ↦
            let same : record c {
              timeout_seconds = some timeout;
              max_output_bytes = some max_output;
            }
                ≡ c' =
              ok_injective (rw f at e) in
            (
              ap (λ d. d.argv) (sym same),
              ap (λ d. d.working_directory) (sym same),
              ap (λ d. d.environment) (sym same),
              subst (IsRunnable h p) same (check_command-IsRunnable c timeout max_output f),
            )
      ]
