-- ===== src/SandboxService/Tests.antt =====
-- Waiting for a sandbox that is running after a second, by a clock that counts microseconds.
use cloud_agent_platform_dem.Prelude.{
  ℕ, ◌+◌, String, none, some, ◌≡◌, refl, ltb, if◌then◌else◌, arith,
}
use cloud_agent_platform_dem.Prelude.Int.{ℤ, pos}
use cloud_agent_platform_dem.Prelude.Exec.{ok, raise, value_error}
use cloud_agent_platform_dem.SandboxService.{
  SandboxService, SandboxInfo, SandboxStatus, starting, running, Clock, wait_until_ready,
}
use cloud_agent_platform_dem.SandboxService.Waiting.{
  IsForward, wait_until_ready-enough, wait_until_ready-ready,
}

abbrev clock : Clock ℕ
clock = record { monotonic = λ w. w; sleep = λ n w. w + n }

abbrev info : SandboxStatus → SandboxInfo
info status = record {
  id = "box";
  status = status;
  image = "cloud-agent-sandbox:latest";
  container_id = none;
  created_at = 0;
  repository_path = none;
  artifacts_path = none;
}

abbrev service : SandboxService ℕ
service = record {
  get_sandbox = λ id w. (ok (some (info (if ltb w 1000000 then starting else running))), w);
  start_sandbox = λ spec id. raise (value_error "unused");
  execute = λ id c. raise (value_error "unused");
  pause_sandbox = λ id. raise (value_error "unused");
  resume_sandbox = λ id. raise (value_error "unused");
  delete_sandbox = λ id. raise (value_error "unused");
}

abbrev shown : ℤ → String
shown n = "30"

forward : IsForward clock service
forward = record { looking = λ id s. omega arith; sleeping = λ n s. omega arith }

wait_until_ready-enough_example :
    wait_until_ready shown clock service 61 "box" (pos 30) 500000 0
    ≡ wait_until_ready shown clock service 100 "box" (pos 30) 500000 0
wait_until_ready-enough_example =
    wait_until_ready-enough shown clock service forward "box" (pos 30) 500000 61 100 0 (omega arith)
      (omega arith)

wait_until_ready-ready_example :
    (wait_until_ready shown clock service 61 "box" (pos 30) 500000 0).0 ≡ ok (info running)
wait_until_ready-ready_example =
    wait_until_ready-ready shown clock service "box" (pos 30) 500000 2 61 0 (info running)
      ((refl, (_, refl, (cc, cc)), (refl, (_, refl, (cc, cc)), tt))) (refl, refl) refl (omega arith)
