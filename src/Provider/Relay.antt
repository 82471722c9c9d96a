-- ===== src/Provider/Relay.antt =====
-- internal/provider/openai/openai.go: `relay`, which turns the chunks of an endpoint's stream into the
-- events that the agent reads. The endpoint reports no timings and the call is not cancelled; `text` is
-- the text of a list of code points.
pub mod Carried
pub mod Chunks
pub mod Responded
use eika.Common.{
  ℕ, Bool, true, false, ◌&&◌, List, [], ◌∷◌, ◌++◌, map, foldl, Option, none, some, String, str_eq,
  ◌==◌, if◌then◌else◌, concat_all,
}
use eika.Provider.{Usage, ToolCall}
use eika.Provider.ToolCalls.{Fragment, Calls, Call, add, assembled_calls}
use eika.Agent.Stream.{
  StreamEvent, text_delta, reasoning_delta, tool_call_delta, tool_call, usage, done, error, is_zero,
  zero_usage,
}

pub record Choice : Type 0 where
  pub finish_reason : String
  pub content : String
  pub reasoning : String
  pub fragments : List Fragment

-- A chunk without usage has a zero one.
pub record Chunk : Type 0 where
  pub used : Usage
  pub choices : List Choice

-- The variables of `relay`.
pub record Relaying : Type 0 where
  pub acc : Calls
  pub used : Usage
  pub reported : Usage
  pub stop : String

abbrev pub nothing_relayed : Relaying
nothing_relayed = record { acc = []; used = zero_usage; reported = zero_usage; stop = "" }

abbrev pub no_reason : String
no_reason = "stream chat completion: stream ended without finish_reason"

abbrev pub same_usage : Usage → Usage → Bool
same_usage u v =
    (u.input_tokens == v.input_tokens)
    && (u.output_tokens == v.output_tokens)
    && (u.total_tokens == v.total_tokens)

-- `sendUsage`, which keeps what it reported and sends at most one event.
unfoldable pub send_usage : Relaying → Relaying × List StreamEvent
send_usage r =
    if is_zero r.used
    then (r, [])
    else if same_usage r.used r.reported
    then (r, [])
    else (record r { reported = r.used }, usage r.used ∷ [])

abbrev pub unless_empty : String → StreamEvent → List StreamEvent
unless_empty text e = if str_eq text "" then [] else e ∷ []

abbrev pub take_choice : Relaying → Choice → Relaying
take_choice r c = record r {
  acc = foldl add r.acc c.fragments;
  stop = if str_eq c.finish_reason "" then r.stop else c.finish_reason;
}

-- The usage of a chunk, unless it is zero.
abbrev pub take_usage : Relaying → Usage → Relaying
take_usage r u = record r { used = if is_zero u then r.used else u }

module _ (text : List ℕ → String) where
  unfoldable pub choice_events : Choice → List StreamEvent
  choice_events c =
      unless_empty c.content (text_delta c.content)
      ++ unless_empty c.reasoning (reasoning_delta c.reasoning)
      ++ map (λ f. tool_call_delta (text f.arguments)) c.fragments

  unfoldable pub relay_chunk : Relaying → Chunk → Relaying × List StreamEvent
  relay_chunk r chunk =
      let sent = send_usage (foldl take_choice (take_usage r chunk.used) chunk.choices) in
      (sent.0, concat_all (map choice_events chunk.choices) ++ sent.1)

  abbrev pub as_tool_call : Call → ToolCall
  as_tool_call c = record { id = c.id; name = c.name; arguments = text c.arguments }

  -- What is sent when the stream has ended, with its error.
  unfoldable pub finish_relay : Relaying → Option String → List StreamEvent
  finish_relay r (some e) = error e ∷ []
  finish_relay r none =
      if str_eq r.stop ""
      then error no_reason ∷ []
      else if str_eq r.stop "length"
      then (send_usage r).1 ++ done r.stop ∷ []
      else map (λ c. tool_call (as_tool_call c)) (assembled_calls r.acc)
        ++ (send_usage r).1
        ++ done r.stop ∷ []

  unfoldable pub relay_from : Relaying → List Chunk → Option String → List StreamEvent
  relay_from r [] failed = finish_relay r failed
  relay_from r (chunk ∷ chunks) failed =
      (relay_chunk r chunk).1 ++ relay_from (relay_chunk r chunk).0 chunks failed

  unfoldable pub relay : List Chunk → Option String → List StreamEvent
  relay chunks failed = relay_from nothing_relayed chunks failed
