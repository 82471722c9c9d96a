-- ===== src/Tests/Plan.antt =====
-- Cuts and requests of internal/agent.
use eika.Common.{
  ℕ, ◌+◌, ◌≡◌, refl, true, false, none, some, List, [], ◌∷◌, String, Option, arith, ok,
}
use eika.Common.Int.{pos}
use eika.Provider.{Message, ToolCall, user_message, assistant_message, tool_result_message}
use eika.Agent.Compacted.{Compaction, compacted}
use eika.Agent.Plan.{CompactionPlan, plan_compaction, compact_next, has_summary}
use eika.Agent.Plan.Turn.{IsSound, plan_compaction-IsSound}
use eika.Agent.Plan.Kept.{IsTight, plan_compaction-IsTight}
use eika.Agent.Plan.Paired.{is_paired, compact_next-paired}
use eika.Agent.Context.{Context, with_messages}
use eika.Agent.Budget.{
  CompactionSettings, fit, IsFitted, fit-IsFitted, estimate_context, sections_tokens, tools_tokens,
  estimate_context-compacted,
}

abbrev call_one : ToolCall
call_one = record { id = "c1"; name = "bash"; arguments = "{}" }

abbrev talk : List Message
talk =
    user_message "list the files"
    ∷ assistant_message "" (call_one ∷ [])
    ∷ tool_result_message "c1" "a b c" false
    ∷ user_message "thanks"
    ∷ assistant_message "welcome" []
    ∷ []

abbrev sizes : List ℕ
sizes = 5 ∷ 5 ∷ 5 ∷ 5 ∷ 5 ∷ []

-- The cut is at the second user message.
abbrev whole_turns : CompactionPlan
whole_turns = record { start = 0; first = 3; turn_start = none; stored = 5 }

plan-talk : plan_compaction talk sizes 5 8 ≡ (whole_turns, true)
unfolding plan_compaction
plan-talk = refl

-- The cut is at the assistant message, and splits the first turn.
plan-split :
    plan_compaction talk sizes 5 20
    ≡ (record { start = 0; first = 1; turn_start = some 0; stored = 5 }, true)
unfolding plan_compaction
plan-split = refl

-- What is kept may be smaller than `keep`: the message that reaches it is a tool result, and the cut
-- is behind it.
plan-small :
    plan_compaction talk (5 ∷ 5 ∷ 50 ∷ 5 ∷ 5 ∷ []) 5 20
    ≡ (record { start = 0; first = 3; turn_start = none; stored = 5 }, true)
unfolding plan_compaction
plan-small = refl

plan_compaction-IsSound_example : IsSound talk 5 whole_turns
plan_compaction-IsSound_example = plan_compaction-IsSound talk sizes 5 8 whole_turns plan-talk

plan_compaction-IsTight_example : IsTight talk sizes (has_summary talk) 5 8 whole_turns.first
plan_compaction-IsTight_example =
    plan_compaction-IsTight talk sizes 5 8 whole_turns (omega arith) plan-talk

abbrev summary_of_talk : Compaction
summary_of_talk = record {
  summary = "files were listed";
  kept = pos 0;
  tokens_before = 25;
  tokens_after = 12;
  reason = "manual";
  usage = record { input_tokens = 0; output_tokens = 0; total_tokens = 0 };
}

compact_next-paired_example : is_paired (compact_next talk whole_turns summary_of_talk) ≡ true
compact_next-paired_example =
    compact_next-paired talk sizes 5 8 whole_turns summary_of_talk (omega arith) refl plan-talk

abbrev request_one : Context
request_one = record {
  sections = [];
  tools = [];
  messages = [];
  message_tokens = 0;
  message_sizes = [];
  parameters = record {
    model = "m";
    max_output = some 60;
    preserve_thinking = false;
    image_input = false;
  };
}

abbrev lowered : Context
lowered = record request_one { parameters = record request_one.parameters { max_output = some 40 } }

fit-lowered : fit request_one 60 (pos 100) ≡ ok lowered
unfolding fit
fit-lowered = refl

fit-IsFitted_example : IsFitted request_one lowered 60 100
fit-IsFitted_example = fit-IsFitted request_one lowered 60 (pos 100) (omega arith) fit-lowered

abbrev settings : CompactionSettings
settings = record { auto = true; reserve = pos 0; keep_recent = pos 900 }

-- A stand-in for the encoder: the document is the content.
abbrev marshal : Message → Option String
marshal m = some m.content

estimate_context-compacted_example :
    estimate_context
      (with_messages marshal request_one (compacted talk summary_of_talk))
      (compacted talk summary_of_talk)
    ≡ sections_tokens request_one.sections
      + tools_tokens request_one.tools
      + (with_messages marshal request_one (compacted talk summary_of_talk)).message_tokens
estimate_context-compacted_example =
    estimate_context-compacted marshal request_one talk summary_of_talk
