-- ===== src/SandboxService/Serving.antt =====
-- What the waiting and the health check of app/sandbox keep, of a sandbox service whose looks and
-- commands keep it.
use cloud_agent_platform_dem.Prelude.{
  ℕ, zero, suc, ◌-◌, String, Bool, Option, none, some, List, [], ◌∷◌, inl, inr, Bool-cases,
}
use cloud_agent_platform_dem.Prelude.Int.{ℤ}
use cloud_agent_platform_dem.Prelude.Dict.{Dict, put}
use cloud_agent_platform_dem.Prelude.Exec.{Exec}
use cloud_agent_platform_dem.Prelude.Hoare.{Ends, returned, raised, followed, always}
use cloud_agent_platform_dem.Sandbox.{CommandSpec}
use cloud_agent_platform_dem.SandboxService.{
  SandboxService, SandboxInfo, SandboxStatus, created, starting, running, paused, stopped, error,
  deleted, Clock, within, look_at, look_at_status, poll, wait_until_ready, check_spec,
  check_command, run_checks, run_healthcheck, all_checks, required_or_default,
}

abbrev pub IsGood : (SandboxInfo → Type 0) → Option SandboxInfo → Type 0
IsGood G none = Unit {0}
IsGood G (some info) = G info

-- Looks at the sandbox, commands and sleeps keep `P`, and what a look finds has `G`.
pub record Serves {W : Type 0} (clock : Clock W) (service : SandboxService W) (id : String)
    (P : W → Type 0) (G : SandboxInfo → Type 0) : Type 0 where
  pub looking :
      (w : W)
      → P w
      → Ends
          (λ found w'. P w' × IsGood G found)
          P
          (service.get_sandbox id w).0
          (service.get_sandbox id w).1
  pub executing : (i : String) (c : CommandSpec) (w : W) → P w → P (service.execute i c w).1
  pub sleeping : (n : ℕ) (w : W) → P w → P (clock.sleep n w)

module _ {W : Type 0} (shown : ℤ → String) (clock : Clock W) (service : SandboxService W)
    (id : String) (P : W → Type 0) (G : SandboxInfo → Type 0)
    (serves : Serves clock service id P G) where
  look_at_status-Ends :
      (rest : Exec W SandboxInfo) (interval : ℕ) (info : SandboxInfo) (status : SandboxStatus)
      (w : W)
      → ((t : W) → P t → Ends (λ found t'. P t' × G found) P (rest t).0 (rest t).1)
      → P w
      → G info
      → Ends
          (λ found w'. P w' × G found)
          P
          (look_at_status shown clock service id interval rest info status w).0
          (look_at_status shown clock service id interval rest info status w).1
  look_at_status-Ends rest interval info running w h p g = returned (p, g)
  look_at_status-Ends rest interval info error w h p g = raised p
  look_at_status-Ends rest interval info created w h p g = h _ (serves.sleeping interval w p)
  look_at_status-Ends rest interval info starting w h p g = h _ (serves.sleeping interval w p)
  look_at_status-Ends rest interval info paused w h p g = h _ (serves.sleeping interval w p)
  look_at_status-Ends rest interval info stopped w h p g = h _ (serves.sleeping interval w p)
  look_at_status-Ends rest interval info deleted w h p g = h _ (serves.sleeping interval w p)

  look_at-Ends :
      (rest : Exec W SandboxInfo) (interval : ℕ) (found : Option SandboxInfo) (w : W)
      → ((t : W) → P t → Ends (λ found t'. P t' × G found) P (rest t).0 (rest t).1)
      → P w
      → IsGood G found
      → Ends
          (λ found w'. P w' × G found)
          P
          (look_at shown clock service id interval rest found w).0
          (look_at shown clock service id interval rest found w).1
  look_at-Ends rest interval none w h p g = raised p
  look_at-Ends rest interval (some info) w h p g =
      look_at_status-Ends rest interval info info.status w h p g

  poll-Ends :
      (rounds started_at : ℕ) (timeout : ℤ) (interval : ℕ) (w : W)
      → P w
      → Ends
          (λ info w'. P w' × G info)
          P
          (poll shown clock service rounds started_at id timeout interval w).0
          (poll shown clock service rounds started_at id timeout interval w).1
  unfolding poll
  poll-Ends zero started_at timeout interval w p = raised p
  poll-Ends (suc rounds) started_at timeout interval w p =
      elim (Bool-cases (within (clock.monotonic w - started_at) timeout)) [
        | inr e ↦ rw e (raised p)
        | inl e ↦ rw e (
            followed (serves.looking w p) λ found w1 (p1, g).
              look_at-Ends (poll shown clock service rounds started_at id timeout interval) interval
                found w1 (poll-Ends rounds started_at timeout interval) p1 g)
      ]

  pub wait_until_ready-Ends :
      (rounds : ℕ) (timeout : ℤ) (interval : ℕ) (w : W)
      → P w
      → Ends
          (λ info w'. P w' × G info)
          P
          (wait_until_ready shown clock service rounds id timeout interval w).0
          (wait_until_ready shown clock service rounds id timeout interval w).1
  unfolding wait_until_ready
  wait_until_ready-Ends rounds timeout interval w p =
      poll-Ends rounds (clock.monotonic w) timeout interval w p

module _ {W : Type 0} (service : SandboxService W) (P : W → Type 0)
    (executing : (i : String) (c : CommandSpec) (w : W) → P w → P (service.execute i c w).1)
    (id : String) where
  check_command-Ends :
      (argv : List String) (details : Dict String) (w : W)
      → P w
      → Ends
          (λ r w'. P w')
          P
          (check_command service id argv details w).0
          (check_command service id argv details w).1
  unfolding check_command
  check_command-Ends argv details w p =
      followed
        (always (service.execute id (check_spec argv) w).0 (executing id (check_spec argv) w p))
        λ r w1 p1. returned p1

  run_checks-Ends :
      (todo : List (String × List String)) (checks : Dict Bool) (details : Dict String) (w : W)
      → P w
      → Ends
          (λ r w'. P w')
          P
          (run_checks service id todo checks details w).0
          (run_checks service id todo checks details w).1
  unfolding run_checks
  run_checks-Ends [] checks details w p = returned p
  run_checks-Ends ((name, argv) ∷ rest) checks details w p =
      followed (check_command-Ends argv details w p)
        λ r w2 p2. run_checks-Ends rest (put checks name r.0) r.1 w2 p2

  pub run_healthcheck-Ends :
      (required_tools : List String) (w : W)
      → P w
      → Ends
          (λ health w'. P w')
          P
          (run_healthcheck service id required_tools w).0
          (run_healthcheck service id required_tools w).1
  unfolding run_healthcheck
  run_healthcheck-Ends required_tools w p =
      followed
        (run_checks-Ends (all_checks service id (required_or_default service id required_tools)) []
          [] w p)
        λ r w1 p1. returned p1
