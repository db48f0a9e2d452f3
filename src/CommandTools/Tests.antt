-- ===== src/CommandTools/Tests.antt =====
-- A test command for a directory that the caller names.
use cloud_agent_platform_dem.Prelude.{false}
use cloud_agent_platform_dem.Prelude.Int.{pos}
use cloud_agent_platform_dem.Value.{Fields, end, field, str}
use cloud_agent_platform_dem.CommandTools.Definitions.{run_test}
use cloud_agent_platform_dem.CommandTools.Arguments.{PosixPaths, command_spec}
use cloud_agent_platform_dem.CommandTools.Control.{IfOk}
use cloud_agent_platform_dem.CommandTools.Acceptance.{Accepts, command_spec-IfOk}

abbrev posix : PosixPaths
posix = record { is_absolute = λ s. false; has_parent_part = λ s. false; as_posix = λ s. s }

abbrev arguments : Fields
arguments = field "tool" (str "pytest") (field "path" (str "tests") end)

command_spec-IfOk_example :
    IfOk Accepts (command_spec posix (pos 30) (pos 20000) run_test arguments)
command_spec-IfOk_example =
    command_spec-IfOk posix (λ s h. h) (pos 30) (pos 20000) run_test arguments
