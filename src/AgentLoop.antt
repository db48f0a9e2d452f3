-- ===== src/AgentLoop.antt =====
-- app/orchestration/agent_loop.py. The model provider and the tool executor stand for what is
-- outside the loop: each reads and changes a state `E` and may raise. The limits are counts.
pub mod Limits
pub mod Ending
mod Tests
use cloud_agent_platform_dem.Prelude.{
  ℕ, zero, suc, ◌+◌, String, Bool, true, false, ◌&&◌, ◌||◌, Option, none, some, List, [], ◌∷◌, ◌++◌,
  leb, str_eq, if◌then◌else◌,
}
use cloud_agent_platform_dem.Prelude.Exec.{Exec, pure, ◌>>=◌}
use cloud_agent_platform_dem.Text.{is_empty, text_or}
use cloud_agent_platform_dem.Value.{Value, Fields, end, object, bool, get_field}
use cloud_agent_platform_dem.Llm.{
  ChatMessage, ModelToolCall, ModelRequest, ModelResponse, system_message, user_message,
  assistant_message, tool_message,
}
use cloud_agent_platform_dem.Tools.{ToolContext, ToolRequest, ToolResult, to_model_content}

pub record AgentLoopConfig : Type 0 where
  pub max_turns : ℕ
  pub max_tool_calls : ℕ
  pub system_prompt : String

pub record AgentLoopResult : Type 0 where
  pub status : String
  pub final_response : String
  pub messages : List ChatMessage
  pub model_responses : List ModelResponse
  pub tool_results : List ToolResult
  pub turns : ℕ
  pub tool_calls : ℕ

-- `status in {"completed", "finished"}`
unfoldable pub completed : AgentLoopResult → Bool
completed r = str_eq r.status "completed" || str_eq r.status "finished"

-- The objects that the loop calls: `generate` of the provider, `execute` of the tool executor and
-- `list_model_schemas` of the registry.
pub record Parts (E : Type 0) : Type 0 where
  pub generate : ModelRequest → Exec E ModelResponse
  pub execute : ToolRequest → ToolContext → Exec E ToolResult
  pub schemas : List Value

-- The local variables of `run`.
pub record Progress : Type 0 where
  pub messages : List ChatMessage
  pub model_responses : List ModelResponse
  pub tool_results : List ToolResult
  pub total_tool_calls : ℕ

-- How the loop over the calls of one response ends: by a `return`, or by its last call.
pub data Outcome : Type 0 where
  returned : AgentLoopResult → Outcome
  going : Progress → Outcome

unfoldable pub result_of : String → String → ℕ → Progress → AgentLoopResult
result_of status final_response turns p = record {
  status = status;
  final_response = final_response;
  messages = p.messages;
  model_responses = p.model_responses;
  tool_results = p.tool_results;
  turns = turns;
  tool_calls = p.total_tool_calls;
}

abbrev is_true : Option Value → Bool
is_true (some (bool b)) = b
is_true _ = false

abbrev says_finished : Option Value → Bool
says_finished (some (object fs)) = is_true (get_field fs "finished")
says_finished _ = false

-- The test that ends the loop after a call.
unfoldable pub has_finished : ModelToolCall → ToolResult → Bool
unfolding get_field
has_finished call result =
    str_eq call.name "finish_task" && (result.success && says_finished result.data_value)

-- `messages.append(ChatMessage.assistant(...))`, if there is anything to say.
abbrev is_silent : ModelResponse → Bool
is_silent response =
    is_empty response.content && (elim response.tool_calls [ [] ↦ true | c ∷ cs ↦ false ])

unfoldable pub add_response : ModelResponse → Progress → Progress
add_response response p = record p {
  model_responses = p.model_responses ++ response ∷ [];
  messages =
      if is_silent response
      then p.messages
      else p.messages ++ assistant_message response.content response.tool_calls ∷ [];
}

unfoldable pub add_result : ModelToolCall → ToolResult → Progress → Progress
add_result call result p = record p {
  tool_results = p.tool_results ++ result ∷ [];
  total_tool_calls = p.total_tool_calls + 1;
  messages = p.messages ++ tool_message (to_model_content result) call.id call.name ∷ [];
}

unfoldable pub request_for : ModelToolCall → ToolRequest
request_for call = record { id = call.id; tool_name = call.name; arguments = call.arguments }

module _ {E : Type 0} (parts : Parts E) (config : AgentLoopConfig) (context : ToolContext)
    (model_name : Option String) where
  -- The loop over the tool calls of the response of one turn.
  unfoldable pub run_calls : ℕ → List ModelToolCall → Progress → Exec E Outcome
  run_calls turn [] p = pure (going p)
  run_calls turn (call ∷ calls) p =
      if leb config.max_tool_calls p.total_tool_calls
      then pure (returned (result_of "tool_limit_reached" "Tool call limit reached." turn p))
      else (do
        result ← parts.execute (request_for call) context
        let q = add_result call result p
        let rest = run_calls turn calls q
        let final = result_of "finished" result.content turn q
        if has_finished call result then pure (returned final) else rest)

  unfoldable pub request_of : Progress → ModelRequest
  request_of p = record {
    messages = p.messages;
    tools = parts.schemas;
    model = model_name;
    temperature = none;
    max_output_tokens = none;
    metadata = end;
  }

  -- What follows the loop over the calls: a `return`, or the next turn.
  abbrev after_calls : (Progress → Exec E AgentLoopResult) → Outcome → Exec E AgentLoopResult
  after_calls next_turn (returned r) = pure r
  after_calls next_turn (going q) = next_turn q

  -- The part of a turn that follows the response, by its tool calls.
  unfoldable pub respond :
      ℕ
      → ModelResponse
      → List ModelToolCall
      → Progress
      → (Progress → Exec E AgentLoopResult)
      → Exec E AgentLoopResult
  respond turn response [] q next_turn = pure (result_of "completed" response.content turn q)
  respond turn response (call ∷ calls) q next_turn =
      run_calls turn (call ∷ calls) q >>= after_calls next_turn

  -- The loop over the turns, by the number of turns left.
  unfoldable pub run_turns : ℕ → ℕ → Progress → Exec E AgentLoopResult
  run_turns zero turn p =
      pure (result_of "turn_limit_reached" "Turn limit reached." config.max_turns p)
  run_turns (suc left) turn p = do
    response ← parts.generate (request_of p)
    respond turn response response.tool_calls (add_response response p) (run_turns left (turn + 1))

  abbrev first_messages : String → Option String → List ChatMessage → List ChatMessage
  first_messages task system_prompt [] =
      system_message (text_or system_prompt config.system_prompt) ∷ user_message task ∷ []
  first_messages task system_prompt (m ∷ ms) = m ∷ ms

  -- `run`
  unfoldable pub run : String → List ChatMessage → Option String → Exec E AgentLoopResult
  run task initial_messages system_prompt = run_turns config.max_turns 1 (record {
    messages = first_messages task system_prompt initial_messages;
    model_responses = [];
    tool_results = [];
    total_tool_calls = 0;
  })
