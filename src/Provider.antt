-- ===== src/Provider.antt =====
-- internal/provider/provider.go: the conversation messages that the agent, the session tree and the
-- providers exchange. A Go string is a `String`; a pointer that may be nil is an `Option`.
pub mod ToolCalls
pub mod Relay
pub mod Json
use eika.Common.{ℕ, String, List, [], Option, none, Bool, true, false}

-- A role is a string in the source; `other` is any string but the three constants.
pub data Role : Type 0 where
  user assistant tool : Role
  other : String → Role

abbrev pub is_user : Role → Bool
is_user Role.user = true
is_user _ = false

abbrev pub is_assistant : Role → Bool
is_assistant Role.assistant = true
is_assistant _ = false

abbrev pub is_tool : Role → Bool
is_tool Role.tool = true
is_tool _ = false

pub record Image : Type 0 where
  pub media_type : String
  pub bytes : List ℕ
  pub width : ℕ
  pub height : ℕ

pub record Usage : Type 0 where
  pub input_tokens : ℕ
  pub output_tokens : ℕ
  pub total_tokens : ℕ

pub record ToolCall : Type 0 where
  pub id : String
  pub name : String
  pub arguments : String

-- The timings of a call are left out of the metrics.
pub record MessageMetrics : Type 0 where
  pub run_id : String
  pub usage : Usage
  pub context : Usage
  pub generation_ms : ℕ
  pub context_window : ℕ

pub record Message : Type 0 where
  pub role : Role
  pub content : String
  pub images : List Image
  pub reasoning : String
  pub tool_calls : List ToolCall
  pub tool_call_id : String
  pub is_error : Bool
  pub metrics : Option MessageMetrics
  pub summary : Bool

-- `Message{}`, from which the constructors below set their fields.
abbrev pub zero_message : Message
zero_message = record {
  role = Role.other "";
  content = "";
  images = [];
  reasoning = "";
  tool_calls = [];
  tool_call_id = "";
  is_error = false;
  metrics = none;
  summary = false;
}

abbrev pub user_message : String → Message
user_message text = record zero_message { role = Role.user; content = text }

abbrev pub assistant_message : String → List ToolCall → Message
assistant_message text calls = record zero_message {
  role = Role.assistant;
  content = text;
  tool_calls = calls;
}

abbrev pub tool_result_message : String → String → Bool → Message
tool_result_message call_id content is_error = record zero_message {
  role = Role.tool;
  tool_call_id = call_id;
  content = content;
  is_error = is_error;
}
