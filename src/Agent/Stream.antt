-- ===== src/Agent/Stream.antt =====
-- internal/agent/response.go: one response of the model, put together from the events of its stream.
-- The times that a response took, and the events that a client sees meanwhile, are left out.
pub mod Assembled
use eika.Common.{
  ℕ, ◌+◌, Bool, true, false, ◌||◌, ◌&&◌, not, String, str_eq, str_append, List, [], ◌∷◌, ◌++◌, ◌==◌,
  Result, ok, err, if◌then◌else◌,
}
use eika.Provider.{Message, ToolCall, Usage, zero_message, Role}

pub data StreamEvent : Type 0 where
  text_delta reasoning_delta tool_call_delta : String → StreamEvent
  tool_call : ToolCall → StreamEvent
  usage : Usage → StreamEvent
  done error : String → StreamEvent

pub data StreamError : Type 0 where
  after_completion no_completion no_stop_reason : StreamError
  provider_error : String → StreamError

-- The variables of `stream`.
pub record Received : Type 0 where
  pub said : String
  pub thought : String
  pub calls : List ToolCall
  pub used : Usage
  pub stop : String
  pub is_done : Bool

pub record Response : Type 0 where
  pub message : Message
  pub stop : String
  pub usage : Usage

abbrev pub zero_usage : Usage
zero_usage = record { input_tokens = 0; output_tokens = 0; total_tokens = 0 }

abbrev pub is_zero : Usage → Bool
is_zero u = (u.input_tokens == 0) && ((u.output_tokens == 0) && (u.total_tokens == 0))

abbrev pub nothing_received : Received
nothing_received = record {
  said = "";
  thought = "";
  calls = [];
  used = zero_usage;
  stop = "";
  is_done = false;
}

unfoldable pub cut_off : String → Bool
cut_off stop = str_eq stop "length" || str_eq stop "content_filter"

abbrev pub assistant_message_with_reasoning : String → String → List ToolCall → Message
assistant_message_with_reasoning said thought calls = record zero_message {
  role = Role.assistant;
  content = said;
  reasoning = thought;
  tool_calls = calls;
}

-- What an event changes, before the response is complete.
abbrev pub received : Received → StreamEvent → Result StreamError Received
received p (text_delta t) = ok (record p { said = str_append p.said t })
received p (reasoning_delta t) = ok (record p { thought = str_append p.thought t })
received p (tool_call_delta t) = ok p
received p (tool_call c) = ok (record p { calls = p.calls ++ c ∷ [] })
received p (usage u) = ok (record p { used = if is_zero u then p.used else u })
received p (done stop) = ok (record p { stop = stop; is_done = true })
received p (error e) = err (provider_error e)

-- What `stream` makes of what it received.
unfoldable pub response_of : Received → Result StreamError Response
unfolding cut_off
response_of p =
    if not p.is_done
    then err no_completion
    else if str_eq p.stop ""
    then err no_stop_reason
    else ok (record {
      message =
          assistant_message_with_reasoning p.said p.thought
            (if cut_off p.stop then [] else p.calls);
      stop = p.stop;
      usage = p.used;
    })

-- The loop over the events.
unfoldable pub receive_all : Received → List StreamEvent → Result StreamError Response
unfolding response_of
receive_all p [] = response_of p
receive_all p (e ∷ es) = elim (received p e) [
  | err x ↦ if p.is_done then err after_completion else err x
  | ok p' ↦ (let rest = receive_all p' es in if p.is_done then err after_completion else rest)
]

unfoldable pub stream : List StreamEvent → Result StreamError Response
unfolding receive_all
stream es = receive_all nothing_received es

-- `generation`, without its times
pub record Generation : Type 0 where
  pub total : Usage
  pub elapsed : ℕ
  pub context : Usage

unfoldable pub add_generation : Generation → Usage → ℕ → Generation
add_generation g u elapsed = record {
  total = record {
    input_tokens = g.total.input_tokens + u.input_tokens;
    output_tokens = g.total.output_tokens + u.output_tokens;
    total_tokens = g.total.total_tokens + u.total_tokens;
  };
  elapsed = g.elapsed + elapsed;
  context = if is_zero u then g.context else u;
}
