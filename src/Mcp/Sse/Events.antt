-- ===== src/Mcp/Sse/Events.antt =====
-- internal/mcp/sse.go: the lines of an event give the event.
use eika.Common.{
  ℕ, zero, suc, ◌+◌, ◌≤◌, ◌≡◌, ◌≢◌, refl, sym, ap, ◌∙◌, true, false, List, [], ◌∷◌, ◌++◌,
  append_assoc, append-nil, map, length, length-append, All, arith, ltb, Result, ok, ◌>>=◌,
}
use eika.Mcp.Sse.{
  Failure, line_feed, line_length, max_message_bytes, SseEvent, event_field, data_field, colon,
  space, Partial, take_field, dispatched, next_from, next, trim_line_feed,
}

-- An event as a server sends it: its name and the lines of its data.
pub record Sent : Type 0 where
  pub name : List ℕ
  pub data_lines : List (List ℕ)

abbrev pub data_line : List ℕ → List ℕ
data_line l = data_field ++ colon ∷ space ∷ l

-- The lines of an event, the blank one at its end included.
abbrev pub sent_lines : Sent → List (List ℕ)
sent_lines s = (event_field ++ colon ∷ space ∷ s.name) ∷ (map data_line s.data_lines ++ [] ∷ [])

-- Lines, each with a line feed behind it.
abbrev pub with_line_feeds : List (List ℕ) → List ℕ
with_line_feeds [] = []
with_line_feeds (l ∷ lines) = l ++ line_feed ∷ with_line_feeds lines

abbrev pub all_lines : List Sent → List (List ℕ)
all_lines [] = []
all_lines (s ∷ sent) = sent_lines s ++ all_lines sent

-- The data of an event: its lines with line feeds between them.
abbrev pub joined : List (List ℕ) → List ℕ
joined [] = []
joined (l ∷ []) = l
joined (l ∷ m ∷ lines) = l ++ line_feed ∷ joined (m ∷ lines)

abbrev pub as_event : Sent → SseEvent
as_event s = record { name = s.name; payload = joined s.data_lines }

-- What a server may send: a name, data, and no end of a line inside a line, within the size of a message.
pub record IsSendable (s : Sent) : Type 0 where
  pub named : s.name ≢ []
  pub plain_name : line_length s.name ≡ length s.name
  pub some_data : s.data_lines ≢ []
  pub plain_data : All (λ l. line_length l ≡ length l) s.data_lines
  pub small_name : suc (suc (length (event_field ++ colon ∷ space ∷ s.name))) ≤ max_message_bytes
  pub small_data : length (with_line_feeds s.data_lines) ≤ max_message_bytes
  pub small_lines : All (λ l. suc (suc (length (data_line l))) ≤ max_message_bytes) s.data_lines

le→not_ltb : (a b : ℕ) → a ≤ b → ltb b a ≡ false
le→not_ltb a b h = ground arith

take_field-event :
    (ev : Partial) (name : List ℕ)
    → take_field ev (event_field ++ colon ∷ space ∷ name) ≡ ok (record ev { name = name })
unfolding take_field
take_field-event ev name = refl

take_field-data :
    (ev : Partial) (l : List ℕ)
    → length ev.payload + length l ≤ max_message_bytes
    → take_field ev (data_line l)
      ≡ ok (record ev { payload = ev.payload ++ l ++ line_feed ∷ []; has_data = true })
unfolding take_field
take_field-data ev l h =
    let fits = le→not_ltb (length ev.payload + length l) max_message_bytes h in rw fits refl

-- The lines of an event's data fill its payload.
next_from-data :
    (stop : Failure) (ev : Partial) (l : List ℕ) (ls rest : List (List ℕ))
    → length ev.payload + length (with_line_feeds (l ∷ ls)) ≤ max_message_bytes
    → next_from stop ev (map data_line (l ∷ ls) ++ rest)
      ≡ next_from stop
          (record ev { payload = ev.payload ++ with_line_feeds (l ∷ ls); has_data = true })
          rest
unfolding next_from
next_from-data stop ev l [] rest h =
    let fits = take_field-data ev l (omega (arith, length-append l (line_feed ∷ []))) in
    ap (λ r. r >>= λ ev'. next_from stop ev' rest) fits
    ∙ ap (λ p. next_from stop (record ev { payload = p; has_data = true }) rest)
        (append_assoc ev.payload l (line_feed ∷ []))
next_from-data stop ev l (m ∷ ls) rest h =
    let size = length-append l (line_feed ∷ with_line_feeds (m ∷ ls)) in
    let size' = length-append l (line_feed ∷ []) in
    let fits = take_field-data ev l (omega (arith, size)) in
    let ev' : Partial = record ev {
      payload = ev.payload ++ l ++ line_feed ∷ [];
      has_data = true;
    } in
    let all : ev'.payload ++ with_line_feeds (m ∷ ls) ≡ ev.payload ++ with_line_feeds (l ∷ m ∷ ls) =
      append_assoc (ev.payload ++ l) (line_feed ∷ []) (with_line_feeds (m ∷ ls))
      ∙ append_assoc ev.payload l (line_feed ∷ with_line_feeds (m ∷ ls)) in
    ap (λ r. r >>= λ ev'. next_from stop ev' (map data_line (m ∷ ls) ++ rest)) fits
    ∙ next_from-data stop ev' m ls rest (
        omega (
          arith,
          size,
          size',
          length-append (ev.payload ++ l) (line_feed ∷ []),
          length-append ev.payload l,
        ))
    ∙ ap (λ p. next_from stop (record ev { payload = p; has_data = true }) rest) all

trim-append :
    (front back : List ℕ)
    → back ≢ []
    → trim_line_feed (front ++ back) ≡ front ++ trim_line_feed back
unfolding trim_line_feed
trim-append [] back h = refl
trim-append (b ∷ []) [] h = absurd (h refl)
trim-append (b ∷ []) (c ∷ back) h = refl
trim-append (b ∷ c ∷ front) back h = ap (λ l. b ∷ l) (trim-append (c ∷ front) back h)

some_line : (l : List ℕ) (rest : List ℕ) → l ++ line_feed ∷ rest ≢ []
some_line [] rest = λ e. cc e
some_line (b ∷ l) rest = λ e. cc e

trim-joined :
    (l : List ℕ) (ls : List (List ℕ)) → trim_line_feed (with_line_feeds (l ∷ ls)) ≡ joined (l ∷ ls)
unfolding trim_line_feed
trim-joined l [] = trim-append l (line_feed ∷ []) (λ e. cc e) ∙ append-nil l
trim-joined l (m ∷ ls) =
    sym (ap trim_line_feed (append_assoc l (line_feed ∷ []) (with_line_feeds (m ∷ ls))))
    ∙ trim-append (l ++ line_feed ∷ []) (with_line_feeds (m ∷ ls))
        (some_line m (with_line_feeds ls))
    ∙ append_assoc l (line_feed ∷ []) (trim_line_feed (with_line_feeds (m ∷ ls)))
    ∙ ap (λ k. l ++ line_feed ∷ k) (trim-joined m ls)

-- The lines of one event give it.
next-lines :
    (stop : Failure) (b : ℕ) (name l : List ℕ) (ls rest : List (List ℕ))
    → length (with_line_feeds (l ∷ ls)) ≤ max_message_bytes
    → next stop (sent_lines (record { name = b ∷ name; data_lines = l ∷ ls }) ++ rest)
      ≡ ok (record { name = b ∷ name; payload = joined (l ∷ ls) }, rest)
unfolding next next_from dispatched
next-lines stop b name l ls rest small =
    let start : Partial = record { name = []; payload = []; has_data = false } in
    let named : Partial = record { name = b ∷ name; payload = []; has_data = false } in
    let lines = map data_line (l ∷ ls) in
    ap (λ r. r >>= λ ev. next_from stop ev (lines ++ [] ∷ [] ++ rest))
      (take_field-event start (b ∷ name))
    ∙ ap (next_from stop named) (append_assoc lines ([] ∷ []) rest)
    ∙ next_from-data stop named l ls ([] ∷ rest) (omega arith)
    ∙ ap (λ p. ok (record { name = b ∷ name; payload = p }, rest)) (trim-joined l ls)

next-sent :
    (stop : Failure) (s : Sent) (rest : List (List ℕ))
    → IsSendable s
    → next stop (sent_lines s ++ rest) ≡ ok (as_event s, rest)
next-sent stop s rest good = of s.name s.data_lines good.named good.some_data good.small_data
  where
    of :
        (name : List ℕ) (lines : List (List ℕ))
        → name ≢ []
        → lines ≢ []
        → length (with_line_feeds lines) ≤ max_message_bytes
        → next stop (sent_lines (record { name = name; data_lines = lines }) ++ rest)
          ≡ ok (as_event (record { name = name; data_lines = lines }), rest)
    of [] lines named some_data small = absurd (named refl)
    of (b ∷ name) [] named some_data small = absurd (some_data refl)
    of (b ∷ name) (l ∷ ls) named some_data small = next-lines stop b name l ls rest small

-- So many events, one after the other.
abbrev pub next_each : Failure → ℕ → List (List ℕ) → Result Failure (List SseEvent × List (List ℕ))
next_each stop zero lines = ok ([], lines)
next_each stop (suc count) lines =
    next stop lines >>= λ r. next_each stop count r.1 >>= λ more. ok (r.0 ∷ more.0, more.1)

pub next_each-sent :
    (stop : Failure) (sent : List Sent)
    → All IsSendable sent
    → next_each stop (length sent) (all_lines sent) ≡ ok (map as_event sent, [])
next_each-sent stop [] good = refl
next_each-sent stop (s ∷ sent) (fits, good) =
    ap (λ r. r >>= λ r. next_each stop (length sent) r.1 >>= λ more. ok (r.0 ∷ more.0, more.1))
      (next-sent stop s (all_lines sent) fits)
    ∙ ap (λ r. r >>= λ more. ok (as_event s ∷ more.0, more.1)) (next_each-sent stop sent good)
