-- ===== src/AgentLoop/Ending.antt =====
-- How a run of the agent loop ends, for a provider and an executor that do not raise.
use cloud_agent_platform_dem.Prelude.{
  last?, last?-append, ℕ, zero, suc, ◌+◌, ◌≤◌, ◌≡◌, refl, ◌⊎◌, inl, inr, String, true, Option, some,
  List, [], ◌∷◌, arith, leb, leb→le, Bool-cases,
}
use cloud_agent_platform_dem.Prelude.Exec.{continue, Exec, Result, ok, err}
use cloud_agent_platform_dem.Llm.{ChatMessage, ModelToolCall, ModelRequest, ModelResponse}
use cloud_agent_platform_dem.Tools.{ToolContext, ToolRequest, ToolResult}
use cloud_agent_platform_dem.AgentLoop.{
  AgentLoopConfig, AgentLoopResult, Parts, Progress, Outcome, returned, going, result_of,
  says_finished, has_finished, add_response, add_result, request_for, request_of, run_calls,
  respond, after_calls, run_turns, run,
}

-- The provider and the executor return, whatever they are asked in whatever state.
pub record NeverRaise {E : Type 0} (parts : Parts E) : Type 0 where
  pub generates :
      (request : ModelRequest) (e : E)
      → (r : ModelResponse) × (e' : E) × (parts.generate request e ≡ (ok r, e'))
  pub executes :
      (request : ToolRequest) (context : ToolContext) (e : E)
      → (r : ToolResult) × (e' : E) × (parts.execute request context e ≡ (ok r, e'))

-- The four ends of a run: the model answered without a tool call, and its text is the response; the
-- tool `finish_task` succeeded and said so, and its text is the response; the calls have used up
-- their limit; or the turns have.
abbrev pub HasEnded : AgentLoopConfig → AgentLoopResult → Type 0
HasEnded config r =
    ((response : ModelResponse) × (r.status ≡ "completed")
      × (last? r.model_responses ≡ some response)
      × (response.tool_calls ≡ [])
      × (r.final_response ≡ response.content))
    ⊎ ((result : ToolResult) × (r.status ≡ "finished")
        × (last? r.tool_results ≡ some result)
        × (result.success ≡ true)
        × (says_finished result.data_value ≡ true)
        × (r.final_response ≡ result.content))
    ⊎ ((r.status ≡ "tool_limit_reached") × (config.max_tool_calls ≤ r.tool_calls))
    ⊎ ((r.status ≡ "turn_limit_reached") × (r.turns ≡ config.max_turns))

abbrev OutcomeEnds : AgentLoopConfig → Outcome → Type 0
OutcomeEnds config (returned r) = HasEnded config r
OutcomeEnds config (going p) = Unit

-- The action returns, and its value has the property.
abbrev pub Returns : {A : Type 0} → (A → Type 0) → Result A → Type 0
Returns P (ok a) = P a
Returns P (err e) = ⊥

module _ {E : Type 0} (parts : Parts E) (config : AgentLoopConfig) (context : ToolContext)
    (model_name : Option String) (quiet : NeverRaise parts) where
  run_calls_ends :
      (turn : ℕ) (calls : List ModelToolCall) (p : Progress) (e : E)
      → Returns (OutcomeEnds config) (run_calls parts config context model_name turn calls p e).0
  unfolding run_calls
  run_calls_ends turn [] p e = tt
  run_calls_ends turn (call ∷ calls) p e =
      elim (Bool-cases (leb config.max_tool_calls p.total_tool_calls)) [
        | inl full ↦ rw full (inr (inr (inl (unfold result_of in (refl, leb→le _ _ full)))))
        | inr room ↦
            let (result, e', executed) = quiet.executes (request_for call) context e in
            let q : Progress = add_result call result p in
            rw room (
              rw executed (elim (Bool-cases (has_finished call result)) [
                | inl done ↦ rw done (
                    inr (
                      inl (
                        result,
                        unfold result_of in refl,
                        unfold result_of add_result in last?-append p.tool_results result,
                        unfold has_finished in ground arith,
                        unfold has_finished in ground arith,
                        unfold result_of in refl,
                      )))
                | inr more ↦ rw more (run_calls_ends turn calls q e')
              ]))
      ]

  respond_ends :
      (turn : ℕ) (response : ModelResponse) (calls : List ModelToolCall) (q : Progress)
      (next_turn : Progress → Exec E AgentLoopResult) (e : E)
      → response.tool_calls ≡ calls
      → last? q.model_responses ≡ some response
      → ((q' : Progress) (e' : E) → Returns (HasEnded config) (next_turn q' e').0)
      → Returns
          (HasEnded config)
          (respond parts config context model_name turn response calls q next_turn e).0
  unfolding respond result_of
  respond_ends turn response [] q next_turn e none_left latest rest =
      inl (response, refl, latest, none_left, refl)
  respond_ends turn response (call ∷ calls) q next_turn e some_left latest rest =
      go (run_calls parts config context model_name turn (call ∷ calls) q e)
        (run_calls_ends turn (call ∷ calls) q e)
    where
      go :
          (r : Result Outcome × E)
          → Returns (OutcomeEnds config) r.0
          → Returns
              (HasEnded config)
              (continue r.0 (after_calls parts config context model_name next_turn) r.1).0
      go (ok (returned r), e') ends = ends
      go (ok (going q'), e') ends = rest q' e'
      go (err x, e') ends = ends

  run_turns_ends :
      (left turn : ℕ) (p : Progress) (e : E)
      → Returns (HasEnded config) (run_turns parts config context model_name left turn p e).0
  unfolding run_turns
  run_turns_ends zero turn p e = inr (inr (inr (unfold result_of in (refl, refl))))
  run_turns_ends (suc left) turn p e =
      let (response, e', generated) =
        quiet.generates (request_of parts config context model_name p) e in
      rw generated (
        respond_ends turn response response.tool_calls (add_response response p)
          (run_turns parts config context model_name left (turn + 1)) e' refl
          (unfold add_response in last?-append p.model_responses response)
          (run_turns_ends left (turn + 1)))

-- With a provider and an executor that do not raise, every run of the loop returns, and it ends in
-- one of four ways: "completed", when the last response has no tool call, with its text;
-- "finished", when the last tool result is a success that says `finished`, with its text;
-- "tool_limit_reached", when the calls have reached their limit; or "turn_limit_reached", when the
-- turns have.
pub run-HasEnded :
    {E : Type 0} (parts : Parts E) (config : AgentLoopConfig) (context : ToolContext)
    (model_name : Option String) (task : String) (initial : List ChatMessage)
    (system_prompt : Option String) (e : E)
    → NeverRaise parts
    → Returns (HasEnded config) (run parts config context model_name task initial system_prompt e).0
unfolding run
run-HasEnded parts config context model_name task initial system_prompt e quiet =
    run_turns_ends parts config context model_name quiet config.max_turns 1 _ e
