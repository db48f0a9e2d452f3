-- ===== src/CommandTools/Acceptance.antt =====
-- That the commands of app/tools/native/command_tools.py are such as app/sandbox/policy.py accepts.
use cloud_agent_platform_dem.Prelude.{
  ℕ, zero, suc, String, true, false, none, some, List, [], ◌∷◌, ◌≡◌, refl, arith,
}
use cloud_agent_platform_dem.Prelude.Int.{ℤ, pos, negsuc, ltb_ℤ}
use cloud_agent_platform_dem.Prelude.Exec.{ok}
use cloud_agent_platform_dem.Value.{
  Value, Fields, null, bool, int, float, str, array, object, get_field,
}
use cloud_agent_platform_dem.Sandbox.{
  CommandSpec, SandboxSpec, SandboxPolicy, Host, check_environment, check_workdir, check_command,
  validate_command,
}
use cloud_agent_platform_dem.CommandTools.Definitions.{CommandTool}
use cloud_agent_platform_dem.CommandTools.Arguments.{
  PosixPaths, value_or, positive, positive_arg, command_spec,
}
use cloud_agent_platform_dem.CommandTools.Control.{
  IfOk, IsControlled, IsFilled, then_try-IfOk, build_argv-IfOk,
}

abbrev IsPositive : ℤ → Type 0
IsPositive z = (n : ℕ) × (z ≡ pos (suc n))

positive-IfOk : (name : String) (v : Value) → IfOk IsPositive (positive name v)
positive-IfOk name (int (pos (suc n))) = (n, refl)
positive-IfOk name (int (pos zero)) = tt
positive-IfOk name (int (negsuc n)) = tt
positive-IfOk name null = tt
positive-IfOk name (bool b) = tt
positive-IfOk name (float t) = tt
positive-IfOk name (str s) = tt
positive-IfOk name (array xs) = tt
positive-IfOk name (object fs) = tt

positive_arg-IfOk :
    (name : String) (default : ℤ) (arguments : Fields)
    → IfOk IsPositive (positive_arg name default arguments)
unfolding positive_arg
positive_arg-IfOk name default arguments =
    positive-IfOk name (value_or (int default) (get_field arguments name))

-- The policy lets the command through as it is, in any sandbox, if it allows the repository as a
-- working directory, and the timeout and the limit on the output of the command are within its own.
abbrev pub IsAccepted : CommandSpec → ℤ → ℤ → Type 0
IsAccepted c timeout max_output =
    (h : Host) (p : SandboxPolicy) (s : SandboxSpec)
    → check_workdir h p "/workspace/repository" ≡ ok tt
    → ltb_ℤ p.max_timeout_seconds timeout ≡ false
    → ltb_ℤ p.max_output_bytes max_output ≡ false
    → validate_command h p c s ≡ ok c

above_zero : (n : ℕ) → ltb_ℤ (pos 0) (pos (suc n)) ≡ true
above_zero n = ground arith

accepted :
    (argv : List String) (n m : ℕ)
    → IsControlled argv
    → IsAccepted
        (record {
          argv = argv;
          working_directory = "/workspace/repository";
          environment = [];
          stdin = none;
          timeout_seconds = some (pos (suc n));
          max_output_bytes = some (pos (suc m));
        })
        (pos (suc n))
        (pos (suc m))
unfolding validate_command check_command check_environment
accepted [] n m (starts, filled) h p s workdir t o = absurd (cc)
accepted (w ∷ ws) n m (starts, filled) h p s workdir t o =
    rw (filled, t, o, workdir) (rw (above_zero n, above_zero m) refl)

abbrev pub Accepts : CommandSpec → Type 0
Accepts c =
    IsControlled c.argv
    × ((n : ℕ) × (m : ℕ) × (c.timeout_seconds ≡ some (pos (suc n)))
        × (c.max_output_bytes ≡ some (pos (suc m)))
        × IsAccepted c (pos (suc n)) (pos (suc m)))

-- Whatever the arguments of one of the tools are, the command that it makes of them, if any, is one of
-- six programs and no shell, with no empty word, a positive timeout and a positive limit on its
-- output, and the policy of the sandbox accepts it unchanged if it allows the repository as a working
-- directory and the two numbers are within its limits. The text of a path that is not empty is taken
-- not to be empty.
pub command_spec-IfOk :
    (posix : PosixPaths)
    → ((s : String) → IsFilled s → IsFilled (posix.as_posix s))
    → (default_timeout default_max_output : ℤ) (tool : CommandTool) (arguments : Fields)
    → IfOk Accepts (command_spec posix default_timeout default_max_output tool arguments)
unfolding command_spec
command_spec-IfOk posix shown default_timeout default_max_output tool arguments =
    then_try-IfOk IsControlled Accepts _ _ (build_argv-IfOk posix shown tool arguments)
      λ argv controlled.
        then_try-IfOk IsPositive Accepts _ _
          (positive_arg-IfOk "timeout_seconds" default_timeout arguments)
          λ timeout (n, is_n).
            then_try-IfOk IsPositive Accepts _ _
              (positive_arg-IfOk "max_output_bytes" default_max_output arguments)
              λ max_output (m, is_m).
                rw (is_n, is_m) (controlled, (n, m, refl, refl, accepted argv n m controlled))
