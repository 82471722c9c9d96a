-- ===== src/Tool/Output.antt =====
-- internal/tool/builtin/limits.go: the output of a command, bounded. Bytes are natural numbers. What the
-- stream callback receives is recorded in `sent`.
pub mod Captured
pub mod Ends
pub mod Streamed
use eika.Common.{
  ℕ, ◌+◌, ◌-◌, ◌*◌, min, Bool, true, false, ◌||◌, not, List, [], ◌∷◌, ◌++◌, length, take, drop, ltb,
  leb, ◌==◌, if◌then◌else◌,
}

abbrev pub max_output_bytes : ℕ
max_output_bytes = 32 * 1024

abbrev pub output_head_bytes : ℕ
output_head_bytes = 20 * 1024

abbrev pub output_tail_bytes : ℕ
output_tail_bytes = max_output_bytes - output_head_bytes

-- A chunk of the output, or the notice that the rest is not streamed.
pub data Sent : Type 0 where
  chunk : List ℕ → Sent
  notice : Sent

pub record Output : Type 0 where
  pub head : List ℕ
  pub tail : List ℕ
  pub total : ℕ
  pub streamed : ℕ
  pub has_stream : Bool
  pub sent : List Sent

abbrev pub new_output : Bool → Output
new_output has_stream = record {
  head = [];
  tail = [];
  total = 0;
  streamed = 0;
  has_stream = has_stream;
  sent = [];
}

unfoldable pub forward : Output → List ℕ → Output
forward o p =
    let room = max_output_bytes - o.streamed in
    if not o.has_stream || ltb max_output_bytes o.streamed
    then o
    else if leb (length p) room
    then record o { streamed = o.streamed + length p; sent = o.sent ++ chunk p ∷ [] }
    else record o {
      streamed = max_output_bytes + 1;
      sent = o.sent ++ (if ltb 0 room then chunk (take room p) ∷ notice ∷ [] else notice ∷ []);
    }

-- The last `n` of some bytes: the slice from `len - n`, where there are more.
abbrev pub last_bytes : ℕ → List ℕ → List ℕ
last_bytes n xs = if ltb n (length xs) then drop (length xs - n) xs else xs

abbrev pub add_tail : List ℕ → List ℕ → List ℕ
add_tail tail p = if ltb 0 (length p) then last_bytes output_tail_bytes (tail ++ p) else tail

-- How many bytes of a chunk go to the head.
abbrev pub head_take : List ℕ → List ℕ → ℕ
head_take head p =
    let room = output_head_bytes - length head in if ltb 0 room then min room (length p) else 0

unfoldable pub write : Output → List ℕ → Output
unfolding forward
write o p =
    let o' = forward (record o { total = o.total + length p }) p in
    let n = head_take o.head p in
    record o' { head = o.head ++ take n p; tail = add_tail o.tail (drop n p) }

-- What `String` returns: everything, or the two ends and the numbers in the note between them.
pub data Shown : Type 0 where
  whole : List ℕ → Shown
  truncated : List ℕ → ℕ → List ℕ → Shown

abbrev pub show_output : List ℕ → List ℕ → ℕ → Shown
show_output head tail total =
    let dropped = total - (length head + length tail) in
    if (length tail == 0) || (dropped == 0)
    then whole (head ++ tail)
    else truncated head dropped tail

unfoldable pub string : Output → Shown
string o = show_output o.head o.tail o.total

abbrev pub write_all : Output → List (List ℕ) → Output
write_all o [] = o
write_all o (p ∷ ps) = write_all (write o p) ps
