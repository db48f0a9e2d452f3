-- ===== src/AgentLoop/Limits.antt =====
-- The limits of the agent loop, and the accounts that its result keeps.
use cloud_agent_platform_dem.Prelude.{
  ℕ, zero, suc, ◌+◌, ◌≤◌, ◌≡◌, refl, String, Bool, true, false, Option, List, [], ◌∷◌, ◌++◌, arith,
  leb, length, length-append, Bool-cases, if◌then◌else◌, inl, inr,
}
use cloud_agent_platform_dem.Prelude.Exec.{continue, Exec, Result, ok, err, Result-cases}
use cloud_agent_platform_dem.Llm.{
  ChatRole, ChatMessage, ModelToolCall, ModelResponse, tool, system_message, user_message,
  assistant_message, tool_message,
}
use cloud_agent_platform_dem.Tools.{ToolContext, ToolResult, to_model_content}
use cloud_agent_platform_dem.AgentLoop.{
  AgentLoopConfig, AgentLoopResult, Parts, Progress, Outcome, returned, going, result_of,
  has_finished, add_response, add_result, request_for, request_of, run_calls, respond, after_calls,
  run_turns, run,
}

abbrev is_tool : ChatRole → Bool
is_tool tool = true
is_tool _ = false

-- How many messages are answers of tools.
abbrev pub answers : List ChatMessage → ℕ
answers [] = 0
answers (m ∷ ms) = if is_tool m.role then suc (answers ms) else answers ms

answers-append : (ms ns : List ChatMessage) → answers (ms ++ ns) ≡ answers ms + answers ns
answers-append [] ns = omega arith
answers-append (m ∷ ms) ns = ground (arith, answers-append ms ns)

-- What a result says of its run: both limits are kept, there is one tool result and one answer in
-- the conversation for each call, and one response of the model for each turn.
pub record IsAccounted (config : AgentLoopConfig) (before : ℕ) (r : AgentLoopResult) : Type 0 where
  pub turns_within : r.turns ≤ config.max_turns
  pub calls_within : r.tool_calls ≤ config.max_tool_calls
  pub calls_counted : r.tool_calls ≡ length r.tool_results
  pub turns_counted : r.turns ≡ length r.model_responses
  pub all_answered : answers r.messages ≡ before + r.tool_calls

record IsCounted (config : AgentLoopConfig) (before : ℕ) (turn : ℕ) (p : Progress) : Type 0 where
  within : p.total_tool_calls ≤ config.max_tool_calls
  counted : p.total_tool_calls ≡ length p.tool_results
  responses : turn ≡ length p.model_responses
  answered : answers p.messages ≡ before + p.total_tool_calls

abbrev OutcomeFits : AgentLoopConfig → ℕ → ℕ → Outcome → Type 0
OutcomeFits config before turn (returned r) = IsAccounted config before r
OutcomeFits config before turn (going p) = IsCounted config before turn p

-- A statement about the value of an action that returns.
abbrev pub OnReturn : {A : Type 0} → (A → Type 0) → Result A → Type 0
OnReturn P (ok a) = P a
OnReturn P (err e) = Unit

result-IsAccounted :
    (config : AgentLoopConfig) (before turn : ℕ) (p : Progress) (status response : String)
    → turn ≤ config.max_turns
    → IsCounted config before turn p
    → IsAccounted config before (result_of status response turn p)
unfolding result_of
result-IsAccounted config before turn p status response le c = omega arith

add_result-IsCounted :
    (config : AgentLoopConfig) (before turn : ℕ) (call : ModelToolCall) (result : ToolResult)
    (p : Progress)
    → leb config.max_tool_calls p.total_tool_calls ≡ false
    → IsCounted config before turn p
    → IsCounted config before turn (add_result call result p)
unfolding add_result tool_message
add_result-IsCounted config before turn call result p room c = record {
  within = ground arith;
  counted = ground (arith, length-append p.tool_results (result ∷ []));
  responses = c.responses;
  answered = ground (
    arith,
    answers-append p.messages (tool_message (to_model_content result) call.id call.name ∷ []),
  );
}

add_response-IsCounted :
    (config : AgentLoopConfig) (before turn : ℕ) (response : ModelResponse) (p : Progress)
    → IsCounted config before turn p
    → IsCounted config before (suc turn) (add_response response p)
unfolding add_response assistant_message
add_response-IsCounted config before turn response p c = record {
  within = c.within;
  counted = c.counted;
  responses = ground (arith, length-append p.model_responses (response ∷ []));
  answered = ground (
    arith,
    answers-append p.messages (assistant_message response.content response.tool_calls ∷ []),
  );
}

module _ {E : Type 0} (parts : Parts E) (config : AgentLoopConfig) (context : ToolContext)
    (model_name : Option String) where
  run_calls_fits :
      (before turn : ℕ) (calls : List ModelToolCall) (p : Progress) (e : E)
      → turn ≤ config.max_turns
      → IsCounted config before turn p
      → OnReturn
          (OutcomeFits config before turn)
          (run_calls parts config context model_name turn calls p e).0
  unfolding run_calls
  run_calls_fits before turn [] p e le c = c
  run_calls_fits before turn (call ∷ calls) p e le c =
      elim (Bool-cases (leb config.max_tool_calls p.total_tool_calls)) [
        | inl full ↦ rw full (result-IsAccounted config before turn p _ _ le c)
        | inr room ↦ rw room (elim (Result-cases (parts.execute (request_for call) context e).0) [
          | inr (x, raised) ↦ rw raised tt
          | inl (result, executed) ↦
              let q : Progress = add_result call result p in
              let cq : IsCounted config before turn q =
                add_result-IsCounted config before turn call result p room c in
              rw executed (elim (Bool-cases (has_finished call result)) [
                | inl done ↦ rw done (result-IsAccounted config before turn q _ _ le cq)
                | inr more ↦ rw more (
                    run_calls_fits before turn calls q
                      (parts.execute (request_for call) context e).1 le cq)
              ])
        ])
      ]

  respond-IsAccounted :
      (before turn : ℕ) (response : ModelResponse) (calls : List ModelToolCall) (q : Progress)
      (next_turn : Progress → Exec E AgentLoopResult) (e : E)
      → turn ≤ config.max_turns
      → ((q' : Progress) (e' : E)
          → IsCounted config before turn q'
          → OnReturn (IsAccounted config before) (next_turn q' e').0)
      → IsCounted config before turn q
      → OnReturn
          (IsAccounted config before)
          (respond parts config context model_name turn response calls q next_turn e).0
  unfolding respond
  respond-IsAccounted before turn response [] q next_turn e le rest c =
      result-IsAccounted config before turn q _ _ le c
  respond-IsAccounted before turn response (call ∷ calls) q next_turn e le rest c =
      go (run_calls parts config context model_name turn (call ∷ calls) q e)
        (run_calls_fits before turn (call ∷ calls) q e le c)
    where
      go :
          (r : Result Outcome × E)
          → OnReturn (OutcomeFits config before turn) r.0
          → OnReturn
              (IsAccounted config before)
              (continue r.0 (after_calls parts config context model_name next_turn) r.1).0
      go (ok (returned r), e') fits = fits
      go (ok (going q'), e') fits = rest q' e' fits
      go (err x, e') fits = tt

  -- `k` responses are there before the turn of the index `turn`.
  run_turns-IsAccounted :
      (before left k turn : ℕ) (p : Progress) (e : E)
      → k + left ≡ config.max_turns
      → turn ≡ k + 1
      → IsCounted config before k p
      → OnReturn
          (IsAccounted config before)
          (run_turns parts config context model_name left turn p e).0
  unfolding run_turns
  run_turns-IsAccounted before zero k turn p e total index c =
      result-IsAccounted config before config.max_turns p _ _ (omega arith) (omega arith)
  run_turns-IsAccounted before (suc left) k turn p e total index c =
      elim (Result-cases (parts.generate (request_of parts config context model_name p) e).0) [
        | inr (x, raised) ↦ rw raised tt
        | inl (response, generated) ↦
            let q : Progress = add_response response p in
            let cq' = add_response-IsCounted config before k response p c in
            rw generated (
              respond-IsAccounted before turn response response.tool_calls q
                (run_turns parts config context model_name left (turn + 1))
                (parts.generate (request_of parts config context model_name p) e).1 (omega arith)
                (λ q' e' c'.
                  run_turns-IsAccounted before left turn (turn + 1) q' e' (omega arith) refl c')
                (omega arith))
      ]

-- Every run of the loop that returns keeps both limits: at most `max_turns` turns and
-- `max_tool_calls` tool calls. The result counts one response of the model for each turn and one
-- tool result for each call, and the conversation has one answer of a tool for each call besides
-- those that it began with.
pub run-IsAccounted :
    {E : Type 0} (parts : Parts E) (config : AgentLoopConfig) (context : ToolContext)
    (model_name : Option String) (task : String) (initial : List ChatMessage)
    (system_prompt : Option String) (e : E)
    → OnReturn
        (IsAccounted config (answers initial))
        (run parts config context model_name task initial system_prompt e).0
unfolding run system_message user_message
run-IsAccounted parts config context model_name task [] system_prompt e =
    run_turns-IsAccounted parts config context model_name 0 config.max_turns 0 1 _ e (omega arith)
      refl (ground arith)
run-IsAccounted parts config context model_name task (m ∷ ms) system_prompt e =
    run_turns-IsAccounted parts config context model_name (answers (m ∷ ms)) config.max_turns 0 1 _
      e (omega arith) refl (ground arith)
