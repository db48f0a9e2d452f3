-- ===== src/Runners/Trace.antt =====
-- What a run of app/orchestration/runners/sequential.py does, phase by phase.
use cloud_agent_platform_dem.Prelude.{
  ℕ, ◌+◌, String, true, false, ◌≡◌, refl, ap, ◌⊎◌, inl, inr, List, [], ◌∷◌, ◌++◌, All, arith,
  length, Bool-cases,
}
use cloud_agent_platform_dem.Prelude.Exec.{ok}
use cloud_agent_platform_dem.AgentLoop.{AgentLoopResult, completed}
use cloud_agent_platform_dem.Runners.{
  RunnerInput, AgentRunner, PhaseRunner, Sums, nothing_yet, phase_input, phase_summary, add_phase,
  sequence_result, run_phases, run_sequential,
}

-- The phases that run, one step each: a phase is given the summaries of those before it, and the
-- first that does not complete is the last that runs.
pub data Ran {E : Type 0} (i : RunnerInput)
    : List String → List (PhaseRunner E) → E → List AgentLoopResult → E → Type 0 where
  no_more : {summaries : List String} {e : E} → Ran i summaries [] e [] e
  stopped :
      {summaries : List String} {p : PhaseRunner E} {ps : List (PhaseRunner E)}
      {r : AgentLoopResult} {e e' : E}
      → p.runner (phase_input i p.phase summaries) e ≡ (ok r, e')
      → completed r ≡ false
      → Ran i summaries (p ∷ ps) e (r ∷ []) e'
  then_next :
      {summaries : List String} {p : PhaseRunner E} {ps : List (PhaseRunner E)}
      {r : AgentLoopResult} {rs : List AgentLoopResult} {e e' e'' : E}
      → p.runner (phase_input i p.phase summaries) e ≡ (ok r, e')
      → completed r ≡ true
      → Ran i (summaries ++ phase_summary p.phase r ∷ []) ps e' rs e''
      → Ran i summaries (p ∷ ps) e (r ∷ rs) e''

abbrev pub sum_of {ℓ} : {A : Type ℓ} → (A → ℕ) → List A → ℕ
sum_of f [] = 0
sum_of f (x ∷ xs) = f x + sum_of f xs

-- The runner returns, whatever it is given in whatever state.
abbrev pub Returning : {E : Type 0} → AgentRunner E → Type 0
Returning {E} runner =
    (i : RunnerInput) (e : E) → (r : AgentLoopResult) × (e' : E) × (runner i e ≡ (ok r, e'))

-- Every phase ran and completed, or the last that ran did not, and gives the status and the response.
abbrev pub Ends :
    {E : Type 0} → List (PhaseRunner E) → List AgentLoopResult → AgentLoopResult → Type 0
Ends ps rs result =
    ((result.status ≡ "completed") × (length rs ≡ length ps) × All (λ r. completed r ≡ true) rs)
    ⊎ ((before : List AgentLoopResult) × (r : AgentLoopResult) × (rs ≡ before ++ r ∷ [])
        × (completed r ≡ false)
        × (result.status ≡ r.status)
        × (result.final_response ≡ r.final_response))

-- A run from `a` on: the results of the phases that ran, what they add up to, and how they end.
pub record Traces {E : Type 0} (i : RunnerInput) (a : Sums) (ps : List (PhaseRunner E)) (e : E)
    (result : AgentLoopResult) (e' : E) : Type 0 where
  pub results : List AgentLoopResult
  pub ran : Ran i a.summaries ps e results e'
  pub turns_counted : result.turns ≡ a.total_turns + sum_of (λ r. r.turns) results
  pub calls_counted : result.tool_calls ≡ a.total_tool_calls + sum_of (λ r. r.tool_calls) results
  pub ended : Ends ps results result

cons-Ends :
    {E : Type 0} (p : PhaseRunner E) (ps : List (PhaseRunner E)) (rs : List AgentLoopResult)
    (r result : AgentLoopResult)
    → completed r ≡ true
    → Ends ps rs result
    → Ends (p ∷ ps) (r ∷ rs) result
cons-Ends p ps rs r result done (inl (status, all, each)) =
    inl (status, omega (arith, all), (done, each))
cons-Ends p ps rs r result done (inr (before, s, split, failed, status, response)) =
    inr (r ∷ before, s, ap (λ xs. r ∷ xs) split, failed, status, response)

run_phases-Traces :
    {E : Type 0} (i : RunnerInput) (ps : List (PhaseRunner E)) (a : Sums) (e : E)
    → All (λ p. Returning p.runner) ps
    → (result : AgentLoopResult) × (e' : E) × (run_phases i ps a e ≡ (ok result, e'))
      × Traces i a ps e result e'
unfolding run_phases sequence_result add_phase
run_phases-Traces i [] a e returning = (
  _,
  e,
  refl,
  record {
    results = [];
    ran = no_more;
    turns_counted = omega arith;
    calls_counted = omega arith;
    ended = inl (refl, refl, tt);
  },
)
run_phases-Traces i (p ∷ ps) a e (returns, others) =
    let (r, e', same) = returns (phase_input i p.phase a.summaries) e in
    rw same (elim (Bool-cases (completed r)) [
      | inr failed ↦ rw failed (
        _,
        e',
        refl,
        record {
          results = r ∷ [];
          ran = stopped same failed;
          turns_counted = omega arith;
          calls_counted = omega arith;
          ended = inr ([], r, refl, failed, refl, refl);
        },
      )
      | inl done ↦
          let (result, e'', runs, t) = run_phases-Traces i ps (add_phase p.phase r a) e' others in
          rw done (
            result,
            e'',
            runs,
            record {
              results = r ∷ t.results;
              ran = then_next same done t.ran;
              turns_counted = omega (arith, t.turns_counted);
              calls_counted = omega (arith, t.calls_counted);
              ended = cons-Ends p ps t.results r result done t.ended;
            },
          )
    ])

-- A sequential run with runners that do not raise returns, and this is what it does: its phases run
-- one after another up to the first that does not complete, each given the summaries of those before
-- it; the result counts the turns and the tool calls of all that ran; and it is "completed" when
-- every phase is, and has the status and the response of the last one otherwise.
pub run_sequential-Traces :
    {E : Type 0} (i : RunnerInput) (ps : List (PhaseRunner E)) (e : E)
    → All (λ p. Returning p.runner) ps
    → (result : AgentLoopResult) × (e' : E) × (run_sequential ps i e ≡ (ok result, e'))
      × Traces i nothing_yet ps e result e'
unfolding run_sequential
run_sequential-Traces i ps e returning = run_phases-Traces i ps nothing_yet e returning
