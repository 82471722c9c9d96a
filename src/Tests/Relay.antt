-- ===== src/Tests/Relay.antt =====
-- Runs of internal/provider/openai/openai.go and of the agent's reader behind it.
use eika.Common.{ℕ, ◌≡◌, refl, List, [], ◌∷◌, none, String}
use eika.Common.Int.{ℤ}
use eika.Provider.{Usage}
use eika.Provider.ToolCalls.{assembled_calls}
use eika.Agent.Stream.{stream, zero_usage, text_delta, usage, done}
use eika.Provider.Relay.{
  Choice, Chunk, relay, relay_from, relay_chunk, choice_events, finish_relay, send_usage,
}
use eika.Provider.Relay.Responded.{answer_in, stream-relay}

abbrev as_text : List ℕ → String
as_text [] = "{}"
as_text (c ∷ codes) = "{ }"

abbrev used : Usage
used = record { input_tokens = 7; output_tokens = 2; total_tokens = 9 }

abbrev says : String → String → Choice
says content reason = record {
  finish_reason = reason;
  content = content;
  reasoning = "";
  fragments = [];
}

abbrev calls : Choice
calls = record {
  finish_reason = "";
  content = "";
  reasoning = "hm";
  fragments = record { index = ℤ.pos 0; id = "c1"; name = "read"; arguments = 123 ∷ 125 ∷ [] } ∷ [];
}

-- The usage comes with each chunk, and the reason before the last one.
abbrev chunks : List Chunk
chunks =
    record { used = used; choices = says "Loo" "" ∷ calls ∷ [] }
    ∷ record { used = used; choices = says "king" "tool_calls" ∷ [] }
    ∷ record { used = zero_usage; choices = [] }
    ∷ []

stream-relay_example : stream (relay as_text chunks none) ≡ answer_in as_text chunks none
stream-relay_example = stream-relay as_text chunks none

-- One usage event for two equal reports.
reported_once :
    relay as_text
      (record { used = used; choices = says "a" "" ∷ [] }
        ∷ record { used = used; choices = says "" "stop" ∷ [] }
        ∷ [])
      none
    ≡ text_delta "a" ∷ usage used ∷ done "stop" ∷ []
unfolding relay relay_from relay_chunk choice_events finish_relay send_usage assembled_calls
reported_once = refl
