-- ===== src/Llm.antt =====
-- app/llm/models.py: what a model is sent and what it answers.
use cloud_agent_platform_dem.Prelude.{ℕ, ◌+◌, String, Option, none, some, List, []}
use cloud_agent_platform_dem.Prelude.Int.{ℤ}
use cloud_agent_platform_dem.Value.{Value, Fields, end}

pub data ChatRole : Type 0 where
  system user assistant tool : ChatRole

pub data FinishReason : Type 0 where
  stop tool_calls length error : FinishReason

-- `id` is given by the provider, or is fresh.
pub record ModelToolCall : Type 0 where
  pub name : String
  pub arguments : Fields
  pub id : String

pub record ChatMessage : Type 0 where
  pub role : ChatRole
  pub content : String
  pub name : Option String
  pub tool_call_id : Option String
  pub tool_calls : List ModelToolCall

unfoldable pub system_message : String → ChatMessage
system_message content = record {
  role = system;
  content = content;
  name = none;
  tool_call_id = none;
  tool_calls = [];
}

unfoldable pub user_message : String → ChatMessage
user_message content = record {
  role = user;
  content = content;
  name = none;
  tool_call_id = none;
  tool_calls = [];
}

unfoldable pub assistant_message : String → List ModelToolCall → ChatMessage
assistant_message content calls = record {
  role = assistant;
  content = content;
  name = none;
  tool_call_id = none;
  tool_calls = calls;
}

unfoldable pub tool_message : String → String → String → ChatMessage
tool_message content tool_call_id name = record {
  role = tool;
  content = content;
  name = some name;
  tool_call_id = some tool_call_id;
  tool_calls = [];
}

pub record TokenUsage : Type 0 where
  pub input_tokens : ℕ
  pub output_tokens : ℕ
  pub cached_tokens : ℕ

unfoldable pub total_tokens : TokenUsage → ℕ
total_tokens u = u.input_tokens + u.output_tokens

-- A temperature is a float, kept by its text.
pub record ModelRequest : Type 0 where
  pub messages : List ChatMessage
  pub tools : List Value
  pub model : Option String
  pub temperature : Option String
  pub max_output_tokens : Option ℤ
  pub metadata : Fields

pub record ModelResponse : Type 0 where
  pub content : String
  pub tool_calls : List ModelToolCall
  pub finish_reason : FinishReason
  pub usage : TokenUsage
  pub metadata : Fields
  pub raw : Option Value

abbrev no_usage : TokenUsage
no_usage = record { input_tokens = 0; output_tokens = 0; cached_tokens = 0 }

unfoldable pub text_response : String → ModelResponse
text_response content = record {
  content = content;
  tool_calls = [];
  finish_reason = stop;
  usage = no_usage;
  metadata = end;
  raw = none;
}

unfoldable pub tools_response : List ModelToolCall → String → ModelResponse
tools_response calls content = record {
  content = content;
  tool_calls = calls;
  finish_reason = FinishReason.tool_calls;
  usage = no_usage;
  metadata = end;
  raw = none;
}
