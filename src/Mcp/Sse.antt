-- ===== src/Mcp/Sse.antt =====
-- internal/mcp/sse.go: the reader of server-sent events. The body is the list of what its successive
-- reads return, and a byte is a natural number. `scan` is `bufio.Scanner.Scan` with `scanSSELines`: it
-- asks for a line of what is buffered, reads on while there is none, and gives up when a line fills
-- the buffer.
pub mod Lines
pub mod Chunks
pub mod Events
pub mod Sent
use eika.Common.{
  ℕ, zero, suc, ◌+◌, ◌-◌, Bool, true, false, ◌&&◌, ◌||◌, not, List, [], ◌∷◌, ◌++◌, Option, none,
  some, length, get_or, take, drop, ltb, leb, ◌==◌, if◌then◌else◌, Result, err, ok, ◌>>=◌,
}

abbrev pub line_feed : ℕ
line_feed = 10

abbrev pub carriage_return : ℕ
carriage_return = 13

-- `maxMessageBytes`
abbrev pub max_message_bytes : ℕ
max_message_bytes = 16777216

pub data Failure : Type 0 where
  end_of_stream event_too_large : Failure

unfoldable pub ends_line : ℕ → Bool
ends_line b = (b == line_feed) || (b == carriage_return)

-- `bytes.IndexAny(data, "\r\n")`, the number of bytes where there is none.
unfoldable pub line_length : List ℕ → ℕ
unfolding ends_line
line_length [] = 0
line_length (b ∷ bytes) = let rest = line_length bytes in if ends_line b then 0 else suc rest

-- How far to advance and the line; none for want of bytes.
unfoldable pub scan_sse_lines : List ℕ → Bool → Option (ℕ × List ℕ)
unfolding line_length
scan_sse_lines bytes at_eof =
    let i = line_length bytes in
    if ltb i (length bytes)
    then (if get_or bytes i 0 == line_feed
        then some (suc i, take i bytes)
        else if ltb (suc i) (length bytes)
        then (if get_or bytes (suc i) 0 == line_feed
            then some (suc (suc i), take i bytes)
            else some (suc i, take i bytes))
        else if at_eof
        then some (suc i, take i bytes)
        else none)
    else if at_eof && ltb 0 (length bytes)
    then some (length bytes, bytes)
    else none

-- A line and what is buffered and unread behind it.
abbrev pub Scanned : Type 0
Scanned = List ℕ × (List ℕ × List (List ℕ))

-- `Scan`: a line, or none at the end. A read fills at most the room that is left in the buffer.
unfoldable pub scan : ℕ → List ℕ → List (List ℕ) → Result Failure (Option Scanned)
scan max buffer [] = elim (scan_sse_lines buffer false) [
  | some (n, line) ↦ ok (some (line, (drop n buffer, [])))
  | none ↦
      if leb max (length buffer) then err event_too_large else elim (scan_sse_lines buffer true) [
        | some (n, line) ↦ ok (some (line, (drop n buffer, [])))
        | none ↦ ok none
      ]
]
scan max buffer (chunk ∷ reads) =
    let more = scan max (buffer ++ chunk) reads in
    let room = max - length buffer in
    let full = buffer ++ take room chunk in
    elim (scan_sse_lines buffer false) [
      | some (n, line) ↦ ok (some (line, (drop n buffer, chunk ∷ reads)))
      | none ↦
          if leb max (length buffer)
          then err event_too_large
          else if leb (length chunk) room
          then more
          else elim (scan_sse_lines full false) [
            | some (n, line) ↦ ok (some (line, (drop n full, drop room chunk ∷ reads)))
            | none ↦ err event_too_large
          ]
    ]

-- The lines that successive scans give, and how they end.
unfoldable pub scan_all : ℕ → ℕ → List ℕ → List (List ℕ) → List (List ℕ) × Failure
scan_all zero max buffer reads = ([], end_of_stream)
scan_all (suc fuel) max buffer reads = elim (scan max buffer reads) [
  | err e ↦ ([], e)
  | ok none ↦ ([], end_of_stream)
  | ok (some (line, (buffer', reads'))) ↦
      let rest = scan_all fuel max buffer' reads' in (line ∷ rest.0, rest.1)
]

pub record SseEvent : Type 0 where
  pub name : List ℕ
  pub payload : List ℕ

-- "event", "data" and "message"
abbrev pub event_field : List ℕ
event_field = 101 ∷ 118 ∷ 101 ∷ 110 ∷ 116 ∷ []

abbrev pub data_field : List ℕ
data_field = 100 ∷ 97 ∷ 116 ∷ 97 ∷ []

abbrev pub message_name : List ℕ
message_name = 109 ∷ 101 ∷ 115 ∷ 115 ∷ 97 ∷ 103 ∷ 101 ∷ []

abbrev pub colon : ℕ
colon = 58

abbrev pub space : ℕ
space = 32

unfoldable pub same_bytes : List ℕ → List ℕ → Bool
same_bytes [] [] = true
same_bytes [] (d ∷ ds) = false
same_bytes (c ∷ cs) [] = false
same_bytes (c ∷ cs) (d ∷ ds) = (c == d) && same_bytes cs ds

-- `strings.Cut(line, ":")`
unfoldable pub cut : List ℕ → List ℕ × List ℕ
cut [] = ([], [])
cut (b ∷ bytes) = let rest = cut bytes in if b == colon then ([], bytes) else (b ∷ rest.0, rest.1)

-- `strings.TrimPrefix(value, " ")`
unfoldable pub trim_space : List ℕ → List ℕ
trim_space [] = []
trim_space (b ∷ bytes) = if b == space then bytes else b ∷ bytes

-- `strings.TrimSuffix(data, "\n")`
unfoldable pub trim_line_feed : List ℕ → List ℕ
trim_line_feed [] = []
trim_line_feed (b ∷ []) = if b == line_feed then [] else b ∷ []
trim_line_feed (b ∷ c ∷ bytes) = b ∷ trim_line_feed (c ∷ bytes)

-- What is read of an event: its name, its data and whether it has any.
pub record Partial : Type 0 where
  pub name : List ℕ
  pub payload : List ℕ
  pub has_data : Bool

-- A line that is no blank one.
unfoldable pub take_field : Partial → List ℕ → Result Failure Partial
unfolding cut trim_space same_bytes
take_field ev line =
    let value = trim_space (cut line).1 in
    if same_bytes (cut line).0 event_field
    then ok (record ev { name = value })
    else if same_bytes (cut line).0 data_field
    then (if ltb max_message_bytes (length ev.payload + length value)
        then err event_too_large
        else ok (record ev { payload = ev.payload ++ value ++ line_feed ∷ []; has_data = true }))
    else ok ev

unfoldable pub dispatched : Partial → SseEvent
unfolding trim_line_feed
dispatched ev = record {
  name = elim ev.name [ [] ↦ message_name | b ∷ bytes ↦ b ∷ bytes ];
  payload = trim_line_feed ev.payload;
}

-- The loop of `next` over the lines that the scanner still gives, which end with `stop`.
unfoldable pub next_from :
    Failure → Partial → List (List ℕ) → Result Failure (SseEvent × List (List ℕ))
next_from stop ev [] = err stop
next_from stop ev ([] ∷ lines) =
    let more = next_from stop (record ev { name = [] }) lines in
    if ev.has_data then ok (dispatched ev, lines) else more
next_from stop ev ((b ∷ bytes) ∷ lines) =
    if b == colon
    then next_from stop ev lines
    else take_field ev (b ∷ bytes) >>= λ ev'. next_from stop ev' lines

unfoldable pub next : Failure → List (List ℕ) → Result Failure (SseEvent × List (List ℕ))
next stop lines = next_from stop (record { name = []; payload = []; has_data = false }) lines
