-- ===== src/Mcp/Sse/Lines.antt =====
-- internal/mcp/sse.go: the lines of a text, however much of it is buffered.
use eika.Common.{
  ℕ, zero, suc, ◌+◌, ◌≤◌, ◌<◌, ◌≡◌, ◌⊎◌, refl, ap, ◌∙◌, Bool, true, false, List, [], ◌∷◌, ◌++◌,
  none, some, length, length-append, length-take, get_or, take, take_all, drop, arith,
  if◌then◌else◌, inl, inr,
}
use eika.Mcp.Sse.{line_feed, ends_line, line_length, scan_sse_lines}

pub line_length-le : (bytes : List ℕ) → line_length bytes ≤ length bytes
unfolding line_length
line_length-le [] = omega arith
line_length-le (b ∷ bytes) = ground (arith, line_length-le bytes)

line_length-append :
    (bytes more : List ℕ)
    → line_length bytes < length bytes
    → line_length (bytes ++ more) ≡ line_length bytes
unfolding line_length
line_length-append [] more h = elim h [ ]
line_length-append (b ∷ bytes) more h = at (ends_line b) h (line_length-append bytes more)
  where
    at :
        (stop : Bool)
        → (if stop then 0 else suc (line_length bytes)) < suc (length bytes)
        → (line_length bytes < length bytes → line_length (bytes ++ more) ≡ line_length bytes)
        → (if stop then 0 else suc (line_length (bytes ++ more)))
          ≡ (if stop then 0 else suc (line_length bytes))
    at true h later = refl
    at false h later = ap suc (later (omega arith))

line_length-append_none :
    (bytes more : List ℕ)
    → line_length bytes ≡ length bytes
    → line_length (bytes ++ more) ≡ length bytes + line_length more
unfolding line_length
line_length-append_none [] more h = omega arith
line_length-append_none (b ∷ bytes) more h = at (ends_line b) h (line_length-append_none bytes more)
  where
    at :
        (stop : Bool)
        → (if stop then 0 else suc (line_length bytes)) ≡ suc (length bytes)
        → (line_length bytes ≡ length bytes
            → line_length (bytes ++ more) ≡ length bytes + line_length more)
        → (if stop then 0 else suc (line_length (bytes ++ more)))
          ≡ suc (length bytes) + line_length more
    at true h later = omega arith
    at false h later = omega (arith, later (omega arith))

get_or-append_left :
    (bytes more : List ℕ) (i : ℕ) → i < length bytes → get_or (bytes ++ more) i 0 ≡ get_or bytes i 0
get_or-append_left [] more i h = elim h [ ]
get_or-append_left (b ∷ bytes) more zero h = refl
get_or-append_left (b ∷ bytes) more (suc i) h = get_or-append_left bytes more i (omega arith)

take-append_left :
    (bytes more : List ℕ) (i : ℕ) → i ≤ length bytes → take i (bytes ++ more) ≡ take i bytes
take-append_left bytes more zero h = refl
take-append_left [] more (suc i) h = ground arith
take-append_left (b ∷ bytes) more (suc i) h =
    ap (λ l. b ∷ l) (take-append_left bytes more i (omega arith))

pub drop-append_left :
    (bytes more : List ℕ) (i : ℕ) → i ≤ length bytes → drop i (bytes ++ more) ≡ drop i bytes ++ more
drop-append_left bytes more zero h = refl
drop-append_left [] more (suc i) h = ground arith
drop-append_left (b ∷ bytes) more (suc i) h = drop-append_left bytes more i (omega arith)

-- A line that is found in what is buffered is the first line of the whole text.
pub buffered_line :
    (bytes more : List ℕ) {n : ℕ} {line : List ℕ}
    → scan_sse_lines bytes false ≡ some (n, line)
    → (scan_sse_lines (bytes ++ more) true ≡ some (n, line)) × (n ≤ length bytes)
unfolding scan_sse_lines
buffered_line bytes more {n = n} {line = line} found =
    let i = line_length bytes in
    ground (
      arith,
      line_length-append bytes more,
      get_or-append_left bytes more i,
      get_or-append_left bytes more (suc i),
      take-append_left bytes more i (line_length-le bytes),
      length-append bytes more,
    )

-- The first line of a text is as long as the bytes before the first end of a line.
length-line :
    (text : List ℕ) {n : ℕ} {line : List ℕ}
    → scan_sse_lines text true ≡ some (n, line)
    → length line ≡ line_length text
unfolding scan_sse_lines
length-line text {n = n} {line = line} found =
    ground (arith, line_length-le text, length-take (line_length text) text)

waits-long :
    (bytes : List ℕ)
    → scan_sse_lines bytes false ≡ none
    → (line_length bytes ≡ length bytes) ⊎ (suc (line_length bytes) ≡ length bytes)
unfolding scan_sse_lines
waits-long bytes waits = ground (arith, line_length-le bytes)

-- While none is found, what is buffered is little longer than the first line of the whole text.
pub no_line :
    (bytes more : List ℕ) {n : ℕ} {line : List ℕ}
    → scan_sse_lines bytes false ≡ none
    → scan_sse_lines (bytes ++ more) true ≡ some (n, line)
    → length bytes ≤ suc (length line)
no_line bytes more waits found = elim (waits-long bytes waits) [
  | inl all ↦
      omega (arith, length-line (bytes ++ more) found, line_length-append_none bytes more all)
  | inr one ↦
      omega (arith, length-line (bytes ++ more) found, line_length-append bytes more (omega arith))
]

get_or-here : (line rest : List ℕ) (b : ℕ) → get_or (line ++ b ∷ rest) (length line) 0 ≡ b
get_or-here [] rest b = refl
get_or-here (c ∷ line) rest b = get_or-here line rest b

-- A line before a line feed.
pub line-feed :
    (line rest : List ℕ)
    → line_length line ≡ length line
    → scan_sse_lines (line ++ line_feed ∷ rest) true ≡ some (suc (length line), line)
unfolding scan_sse_lines
line-feed line rest plain =
    let zero_more : length line + 0 ≡ length line = omega arith in
    let there : line_length (line ++ line_feed ∷ rest) ≡ length line =
      line_length-append_none line (line_feed ∷ rest) plain ∙ zero_more in
    let all : take (length line) (line ++ line_feed ∷ rest) ≡ line =
      take-append_left line (line_feed ∷ rest) (length line) (omega arith)
      ∙ take_all (length line) line (omega arith) in
    ground
      (arith, there, all, get_or-here line rest line_feed, length-append line (line_feed ∷ rest))

pub drop-line : (line rest : List ℕ) → drop (suc (length line)) (line ++ line_feed ∷ rest) ≡ rest
drop-line [] rest = refl
drop-line (b ∷ line) rest = drop-line line rest
