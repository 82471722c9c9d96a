-- ===== src/Mcp/Sse/Sent.antt =====
-- internal/mcp/sse.go: the events that a server sends are the events that are read.
use eika.Common.{
  ℕ, suc, ◌≡◌, refl, sym, ap, ◌∙◌, subst, List, [], ◌∷◌, ◌++◌, map, length, concat_all, All,
  All-append, All-mono, arith, err, ok,
}
use eika.Mcp.Sse.{
  end_of_stream, ends_line, line_length, max_message_bytes, event_field, colon, space, next_from,
  next, scan_all,
}
use eika.Mcp.Sse.Lines.{line-feed, drop-line}
use eika.Mcp.Sse.Chunks.{HasLines, no_more, one_more, IsShort, scan_all-lines}
use eika.Mcp.Sse.Events.{
  Sent, IsSendable, data_line, sent_lines, with_line_feeds, all_lines, as_event, next_each,
  next_each-sent,
}

-- Lines with line feeds behind them read as these lines.
with_line_feeds-HasLines :
    (lines : List (List ℕ))
    → All (λ l. line_length l ≡ length l) lines
    → HasLines (with_line_feeds lines) lines
with_line_feeds-HasLines [] plain = no_more
with_line_feeds-HasLines (l ∷ lines) (fits, plain) =
    one_more (suc (length l)) (line-feed l (with_line_feeds lines) fits) (
      subst (λ text. HasLines text lines) (sym (drop-line l (with_line_feeds lines)))
        (with_line_feeds-HasLines lines plain))

-- What holds of the lines of an event.
module _ (IsGood : List ℕ → Type 0) (blank : IsGood []) where
  data-All :
      (lines : List (List ℕ))
      → All (λ l. IsGood (data_line l)) lines
      → All IsGood (map data_line lines)
  data-All [] good = tt
  data-All (l ∷ lines) (fits, good) = (fits, data-All lines good)

  sent-All :
      (s : Sent)
      → IsGood (event_field ++ colon ∷ space ∷ s.name)
      → All (λ l. IsGood (data_line l)) s.data_lines
      → All IsGood (sent_lines s)
  sent-All s first good = (
    first,
    All-append IsGood (map data_line s.data_lines) ([] ∷ []) (data-All s.data_lines good)
        (blank, tt),
  )

  all-All :
      (sent : List Sent) → All (λ s. All IsGood (sent_lines s)) sent → All IsGood (all_lines sent)
  all-All [] good = tt
  all-All (s ∷ sent) (fits, good) =
      All-append IsGood (sent_lines s) (all_lines sent) fits (all-All sent good)

data_plain :
    (lines : List (List ℕ))
    → All (λ l. line_length l ≡ length l) lines
    → All (λ l. line_length (data_line l) ≡ length (data_line l)) lines
unfolding line_length ends_line
data_plain [] good = tt
data_plain (l ∷ lines) (fits, good) =
    (ap (λ k. suc (suc (suc (suc (suc (suc k)))))) fits, data_plain lines good)

name_plain :
    (name : List ℕ)
    → line_length name ≡ length name
    → line_length (event_field ++ colon ∷ space ∷ name)
      ≡ length (event_field ++ colon ∷ space ∷ name)
unfolding line_length ends_line
name_plain name fits = ap (λ k. suc (suc (suc (suc (suc (suc (suc k))))))) fits

all_plain :
    (sent : List Sent) → All IsSendable sent → All (λ l. line_length l ≡ length l) (all_lines sent)
unfolding line_length
all_plain sent good =
    all-All (λ l. line_length l ≡ length l) refl sent
      (All-mono IsSendable (λ s. All (λ l. line_length l ≡ length l) (sent_lines s))
        (λ s fits.
          sent-All (λ l. line_length l ≡ length l) refl s (name_plain s.name fits.plain_name)
            (data_plain s.data_lines fits.plain_data))
        sent good)

all_lines-IsShort :
    (sent : List Sent) → All IsSendable sent → All (IsShort max_message_bytes) (all_lines sent)
all_lines-IsShort sent good = all-All (IsShort max_message_bytes) (omega arith) sent (
    All-mono IsSendable (λ s. All (IsShort max_message_bytes) (sent_lines s))
      (λ s fits.
        sent-All (IsShort max_message_bytes) (omega arith) s fits.small_name fits.small_lines)
      sent good)

-- When a server sends events, each with a name, data and lines that fit into a message and hold no
-- end of a line, and the reads cut the text in any way: the scans give its lines and end with the
-- stream, and the reader returns exactly these events, in order, each with its name and with its lines
-- of data joined by line feeds, and then the end of the stream.
pub scan_all-received :
    (sent : List Sent) (reads : List (List ℕ))
    → All IsSendable sent
    → concat_all reads ≡ with_line_feeds (all_lines sent)
    → let (lines, stop) = scan_all (suc (length (all_lines sent))) max_message_bytes [] reads in
      (next_each stop (length sent) lines ≡ ok (map as_event sent, []))
      × (next stop [] ≡ err end_of_stream)
unfolding next next_from
scan_all-received sent reads good same =
    let read : scan_all (suc (length (all_lines sent))) max_message_bytes [] reads
        ≡ (all_lines sent, end_of_stream) =
      scan_all-lines (suc (length (all_lines sent))) max_message_bytes [] reads
        (with_line_feeds-HasLines (all_lines sent) (all_plain sent good)) same
        (all_lines-IsShort sent good) (omega arith) (omega arith) in
    (
      ap (λ r. next_each r.1 (length sent) r.0) read ∙ next_each-sent end_of_stream sent good,
      ap (λ r. next r.1 []) read,
    )
