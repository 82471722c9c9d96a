-- ===== src/Tests/Call.antt =====
-- Model calls of internal/agent/response.go.
use eika.Common.{
  String, ℕ, zero, suc, ◌≡◌, ◌≢◌, refl, true, false, List, [], ◌∷◌, ◌++◌, ok, str_eq_iff, arith,
}
use eika.Provider.{ToolCall, Usage}
use eika.Agent.Stream.{
  StreamEvent, text_delta, reasoning_delta, tool_call, usage, done, stream, Response,
}
use eika.Agent.Stream.Assembled.{response_with, stream-response_with, IsComplete, stream-IsComplete}
use eika.Agent.Retry.{
  Attempt, succeeded, failed, Failure, retrying, IsRetrying, retrying-IsRetrying,
}

abbrev call_one : ToolCall
call_one = record { id = "c1"; name = "bash"; arguments = "{}" }

abbrev used : Usage
used = record { input_tokens = 10; output_tokens = 3; total_tokens = 13 }

abbrev content : List StreamEvent
content =
    reasoning_delta "hm"
    ∷ text_delta "Loo"
    ∷ text_delta "king"
    ∷ usage used
    ∷ tool_call call_one
    ∷ []

given_stop : ◌≢◌ {A = String} "stop" ""
given_stop e = ground (arith, str_eq_iff "stop" "")

stream-response_with_example :
    stream (content ++ done "stop" ∷ []) ≡ ok (response_with content "stop")
stream-response_with_example =
    stream-response_with content "stop" (tt, (tt, (tt, (tt, (tt, tt))))) given_stop

-- The call of a response that ran out of room is not run.
cut_off_call :
    stream (content ++ done "length" ∷ [])
    ≡ ok (record {
      message = record (response_with content "stop").message { tool_calls = [] };
      stop = "length";
      usage = used;
    })
unfolding stream
cut_off_call = refl

abbrev looking : Response
looking = response_with content "stop"

stream-IsComplete_example : IsComplete (content ++ done "stop" ∷ []) looking
stream-IsComplete_example =
    stream-IsComplete (content ++ done "stop" ∷ []) looking stream-response_with_example

abbrev busy : Failure
busy = record { retryable = true; overflow = false; retry_after = 0; cancelled_waiting = false }

-- The endpoint is busy once.
abbrev busy_once : ℕ → Attempt
busy_once zero = failed busy
busy_once (suc n) = succeeded looking

retried_once : retrying busy_once 3 0 500 ≡ (ok looking, 500 ∷ [])
unfolding retrying
retried_once = refl

retrying-IsRetrying_example : IsRetrying busy_once 3 0 (retrying busy_once 3 0 500)
retrying-IsRetrying_example = retrying-IsRetrying busy_once 3 0 500
