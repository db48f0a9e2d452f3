-- ===== src/SandboxService/Waiting.antt =====
-- `wait_until_ready` of app/sandbox/service.py: how many rounds are enough, and what it returns.
use cloud_agent_platform_dem.Prelude.{
  ℕ, zero, suc, ◌+◌, ◌-◌, ◌*◌, ◌≤◌, ◌<◌, String, true, false, Option, none, some, ◌≡◌, ◌≢◌, refl,
  inl, inr, arith, Bool-cases,
}
use cloud_agent_platform_dem.Prelude.Int.{ℤ, pos, negsuc}
use cloud_agent_platform_dem.Prelude.Exec.{Exec, Result, ok, Result-cases}
use cloud_agent_platform_dem.Domain.{seconds}
use cloud_agent_platform_dem.SandboxService.{
  SandboxService, SandboxInfo, SandboxStatus, created, starting, running, paused, stopped, error,
  deleted, Clock, within, look_at, look_at_status, poll, wait_until_ready,
}

-- The clock never goes back, a look at a sandbox takes no time back, and a sleep lasts its length.
pub record IsForward {W : Type 0} (clock : Clock W) (service : SandboxService W) : Type 0 where
  pub looking :
      (sandbox_id : String) (s : W)
      → clock.monotonic s ≤ clock.monotonic (service.get_sandbox sandbox_id s).1
  pub sleeping : (n : ℕ) (s : W) → clock.monotonic s + n ≤ clock.monotonic (clock.sleep n s)

abbrev limit : ℤ → ℕ
limit (pos n) = seconds n
limit (negsuc n) = 0

within-limit :
    (elapsed : ℕ) (timeout : ℤ) → limit timeout < elapsed → within elapsed timeout ≡ false
within-limit elapsed (pos n) h = ground arith
within-limit elapsed (negsuc n) h = refl

module _ {W : Type 0} (shown : ℤ → String) (clock : Clock W) (service : SandboxService W)
    (sandbox_id : String) (timeout : ℤ) (interval : ℕ) where
  status-agree :
      (r q : Exec W SandboxInfo) (sandbox : SandboxInfo) (status : SandboxStatus) (s : W)
      → r (clock.sleep interval s) ≡ q (clock.sleep interval s)
      → look_at_status shown clock service sandbox_id interval r sandbox status s
        ≡ look_at_status shown clock service sandbox_id interval q sandbox status s
  status-agree r q sandbox created s h = h
  status-agree r q sandbox starting s h = h
  status-agree r q sandbox running s h = refl
  status-agree r q sandbox paused s h = h
  status-agree r q sandbox stopped s h = h
  status-agree r q sandbox error s h = refl
  status-agree r q sandbox deleted s h = h

  look_at-agree :
      (r q : Exec W SandboxInfo) (found : Option SandboxInfo) (s : W)
      → r (clock.sleep interval s) ≡ q (clock.sleep interval s)
      → look_at shown clock service sandbox_id interval r found s
        ≡ look_at shown clock service sandbox_id interval q found s
  look_at-agree r q none s h = refl
  look_at-agree r q (some sandbox) s h = status-agree r q sandbox sandbox.status s h

  -- With rounds enough to outlast the timeout, more rounds change nothing.
  poll_agree :
      IsForward clock service
      → (rounds others started_at : ℕ) (s : W) → started_at ≤ clock.monotonic s
      → limit timeout < clock.monotonic s - started_at + rounds * interval
      → limit timeout < clock.monotonic s - started_at + others * interval
      → poll shown clock service rounds started_at sandbox_id timeout interval s
        ≡ poll shown clock service others started_at sandbox_id timeout interval s
  unfolding poll
  poll_agree F zero zero started_at s h e e' = refl
  poll_agree F zero (suc others) started_at s h e e' =
      rw (within-limit (clock.monotonic s - started_at) timeout (omega arith)) refl
  poll_agree F (suc rounds) zero started_at s h e e' =
      rw (within-limit (clock.monotonic s - started_at) timeout (omega arith)) refl
  poll_agree F (suc rounds) (suc others) started_at s h e e' =
      elim (Bool-cases (within (clock.monotonic s - started_at) timeout)) [
        | inr f ↦ rw f refl
        | inl f ↦ rw f (elim (Result-cases (service.get_sandbox sandbox_id s).0) [
          | inr (x, g) ↦ rw g refl
          | inl (found, g) ↦ rw g (
              look_at-agree (poll shown clock service rounds started_at sandbox_id timeout interval)
                (poll shown clock service others started_at sandbox_id timeout interval) found
                (service.get_sandbox sandbox_id s).1
                (let p = F.looking sandbox_id s in
                  let q = F.sleeping interval (service.get_sandbox sandbox_id s).1 in
                  poll_agree F rounds others started_at
                    (clock.sleep interval (service.get_sandbox sandbox_id s).1) (omega arith)
                    (omega arith) (omega arith)))
        ])
      ]

-- Waiting for a sandbox ends by itself: the loop makes at most as many rounds as fit in the timeout,
-- and one more. When the clock goes forward and a sleep lasts its length, any two numbers of rounds
-- that are enough for the timeout give the same result and leave the same world.
pub wait_until_ready-enough :
    {W : Type 0} (shown : ℤ → String) (clock : Clock W) (service : SandboxService W)
    → IsForward clock service
    → (sandbox_id : String) (timeout : ℤ) (interval rounds others : ℕ) (s : W)
    → limit timeout < rounds * interval
    → limit timeout < others * interval
    → wait_until_ready shown clock service rounds sandbox_id timeout interval s
      ≡ wait_until_ready shown clock service others sandbox_id timeout interval s
unfolding wait_until_ready
wait_until_ready-enough shown clock service F sandbox_id timeout interval rounds others s e e' =
    poll_agree shown clock service sandbox_id timeout interval F rounds others (clock.monotonic s) s
      (omega arith) (omega arith) (omega arith)

-- The world when the sandbox is looked at for the (n + 1)-th time, if it is not ready before.
abbrev pub after_looks : {W : Type 0} → Clock W → SandboxService W → String → ℕ → ℕ → W → W
after_looks clock service sandbox_id interval zero s = s
after_looks clock service sandbox_id interval (suc n) s =
    after_looks clock service sandbox_id interval n
      (clock.sleep interval (service.get_sandbox sandbox_id s).1)

abbrev pub IsPending : SandboxStatus → Type 0
IsPending status = (status ≢ running) × (status ≢ error)

-- The sandbox is there but not yet ready.
abbrev pub IsStarting : Result (Option SandboxInfo) → Type 0
IsStarting r = (info : SandboxInfo) × (r ≡ ok (some info)) × IsPending info.status

-- Each of the first looks comes in time and finds the sandbox starting.
abbrev pub StartsFor :
    {W : Type 0} → Clock W → SandboxService W → String → ℤ → ℕ → ℕ → ℕ → W → Type 0
StartsFor clock service sandbox_id timeout interval started_at zero s = Unit {0}
StartsFor clock service sandbox_id timeout interval started_at (suc n) s =
    (within (clock.monotonic s - started_at) timeout ≡ true)
    × IsStarting (service.get_sandbox sandbox_id s).0
    × StartsFor clock service sandbox_id timeout interval started_at n
        (clock.sleep interval (service.get_sandbox sandbox_id s).1)

module _ {W : Type 0} (shown : ℤ → String) (clock : Clock W) (service : SandboxService W)
    (sandbox_id : String) (timeout : ℤ) (interval : ℕ) where
  pending-sleeps :
      (rest : Exec W SandboxInfo) (sandbox : SandboxInfo) (status : SandboxStatus) (s : W)
      → IsPending status
      → look_at_status shown clock service sandbox_id interval rest sandbox status s
        ≡ rest (clock.sleep interval s)
  pending-sleeps rest sandbox created s h = refl
  pending-sleeps rest sandbox starting s h = refl
  pending-sleeps rest sandbox running s h = absurd (h.0 refl)
  pending-sleeps rest sandbox paused s h = refl
  pending-sleeps rest sandbox stopped s h = refl
  pending-sleeps rest sandbox error s h = absurd (h.1 refl)
  pending-sleeps rest sandbox deleted s h = refl

  poll_ready :
      (n rounds started_at : ℕ) (s : W) (info : SandboxInfo)
      → StartsFor clock service sandbox_id timeout interval started_at n s
      → (let t = after_looks clock service sandbox_id interval n s in
          (within (clock.monotonic t - started_at) timeout ≡ true)
          × ((service.get_sandbox sandbox_id t).0 ≡ ok (some info)))
      → info.status ≡ running
      → n < rounds
      → (poll shown clock service rounds started_at sandbox_id timeout interval s).0 ≡ ok info
  unfolding poll
  poll_ready n zero started_at s info starts ready is_running h = absurd (omega arith)
  poll_ready zero (suc rounds) started_at s info starts ready is_running h =
      rw (ready.0, ready.1, is_running) refl
  poll_ready (suc n) (suc rounds) started_at s info starts ready is_running h =
      let (in_time, (other, found, pending), later) = starts in
      rw
        (
          in_time,
          found,
          pending-sleeps (poll shown clock service rounds started_at sandbox_id timeout interval)
              other other.status (service.get_sandbox sandbox_id s).1 pending,
        )
        (poll_ready n rounds started_at (clock.sleep interval (service.get_sandbox sandbox_id s).1)
          info later ready is_running (omega arith))

  -- A sandbox that becomes ready in time is waited for: when it is found starting at each of the
  -- first n looks, and running at the next one, which still comes before the timeout, then
  -- `wait_until_ready` returns what that look found, if it may make more than n rounds.
  pub wait_until_ready-ready :
      (n rounds : ℕ) (s : W) (info : SandboxInfo)
      → StartsFor clock service sandbox_id timeout interval (clock.monotonic s) n s
      → (let t = after_looks clock service sandbox_id interval n s in
          (within (clock.monotonic t - clock.monotonic s) timeout ≡ true)
          × ((service.get_sandbox sandbox_id t).0 ≡ ok (some info)))
      → info.status ≡ running
      → n < rounds
      → (wait_until_ready shown clock service rounds sandbox_id timeout interval s).0 ≡ ok info
  unfolding wait_until_ready
  wait_until_ready-ready n rounds s info starts ready is_running h =
      poll_ready n rounds (clock.monotonic s) s info starts ready is_running h
