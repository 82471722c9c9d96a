-- ===== src/Agent/Compacted.antt =====
-- internal/agent/compaction.go: what a compaction leaves of a conversation.
use eika.Common.{
  str_append, ℕ, ◌+◌, ◌-◌, min, String, true, List, ◌∷◌, map, none, length, drop, ◌≡◌, arith,
  length-drop, length-map,
}
use eika.Common.Int.{ℤ, pos_part}
use eika.Provider.{Message, Usage, user_message}

-- `Kept` is a Go int, which a stored document can set below 0.
pub record Compaction : Type 0 where
  pub summary : String
  pub kept : ℤ
  pub tokens_before : ℕ
  pub tokens_after : ℕ
  pub reason : String
  pub usage : Usage

abbrev pub summary_prefix : String
summary_prefix =
    "The conversation history before this point was compacted into the following summary:\n\n<summary>\n"

abbrev pub summary_suffix : String
summary_suffix = "\n</summary>"

abbrev pub summary_message : String → Message
summary_message summary =
    record (user_message (str_append (str_append summary_prefix summary) summary_suffix)) {
      summary = true;
    }

abbrev pub without_metrics : Message → Message
without_metrics m = record m { metrics = none }

-- `min(max(c.Kept, 0), len(before))`, in the integers
abbrev pub kept_of : List Message → Compaction → ℕ
kept_of before c = min (pos_part c.kept) (length before)

unfoldable pub compacted : List Message → Compaction → List Message
compacted before c =
    summary_message c.summary ∷ map without_metrics (drop (length before - kept_of before c) before)

-- A compaction leaves its summary and as many messages as it kept, however many it asks for.
pub length-compacted :
    (before : List Message) (c : Compaction) → length (compacted before c) ≡ kept_of before c + 1
unfolding compacted
length-compacted before c =
    let n = length before - kept_of before c in
    omega (arith, length-map (drop n before) without_metrics, length-drop n before)
