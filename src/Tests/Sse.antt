-- ===== src/Tests/Sse.antt =====
-- Runs of internal/mcp/sse.go.
use eika.Common.{ℕ, suc, ◌≡◌, refl, List, [], ◌∷◌, ◌++◌, length, take, drop, arith, err, ok}
use eika.Mcp.Sse.{
  end_of_stream, event_too_large, scan_all, scan, scan_sse_lines, line_length, ends_line, next,
  next_from, take_field, dispatched, max_message_bytes, message_name, data_field, colon,
}
use eika.Mcp.Sse.Events.{Sent, IsSendable, with_line_feeds, all_lines, as_event, next_each}
use eika.Mcp.Sse.Sent.{scan_all-received}

abbrev greeting : Sent
greeting = record { name = 97 ∷ []; data_lines = (98 ∷ 99 ∷ []) ∷ [] ∷ [] }

abbrev text : List ℕ
text = with_line_feeds (all_lines (greeting ∷ greeting ∷ []))

-- The text in three reads.
abbrev pieces : List (List ℕ)
pieces = take 5 text ∷ take 9 (drop 5 text) ∷ drop 9 (drop 5 text) ∷ []

greeting-IsSendable : IsSendable greeting
unfolding line_length ends_line
greeting-IsSendable = record {
  named = λ e. cc e;
  plain_name = refl;
  some_data = λ e. cc e;
  plain_data = (refl, (refl, tt));
  small_name = omega arith;
  small_data = omega arith;
  small_lines = (omega arith, (omega arith, tt));
}

scan_all-received_example :
    let (lines, stop) =
      scan_all (suc (length (all_lines (greeting ∷ greeting ∷ [])))) max_message_bytes [] pieces in
    (next_each stop 2 lines ≡ ok (as_event greeting ∷ as_event greeting ∷ [], []))
    × (next stop [] ≡ err end_of_stream)
scan_all-received_example =
    scan_all-received (greeting ∷ greeting ∷ []) pieces
      (greeting-IsSendable, (greeting-IsSendable, tt)) refl

-- A carriage return at the end of a read, with its line feed in the next one.
split_end :
    scan_all 9 8 [] ((97 ∷ 13 ∷ []) ∷ (10 ∷ 98 ∷ 13 ∷ 99 ∷ []) ∷ [])
    ≡ ((97 ∷ []) ∷ (98 ∷ []) ∷ (99 ∷ []) ∷ [], end_of_stream)
unfolding scan_all scan scan_sse_lines line_length ends_line
split_end = refl

-- A line that fills the buffer.
too_long : scan_all 9 3 [] ((97 ∷ 98 ∷ []) ∷ (99 ∷ 100 ∷ 10 ∷ []) ∷ []) ≡ ([], event_too_large)
unfolding scan_all scan scan_sse_lines line_length ends_line
too_long = refl

-- An event with no name is a message.
unnamed :
    next end_of_stream ((data_field ++ colon ∷ 97 ∷ []) ∷ [] ∷ [])
    ≡ ok (record { name = message_name; payload = 97 ∷ [] }, [])
unfolding next next_from take_field dispatched
unnamed = refl
