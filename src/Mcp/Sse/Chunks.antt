-- ===== src/Mcp/Sse/Chunks.antt =====
-- internal/mcp/sse.go: the lines of a body do not depend on how the reads cut it.
use eika.Common.{
  ℕ, zero, suc, ◌-◌, ◌≤◌, ◌<◌, ◌≡◌, refl, sym, ap, ◌∙◌, subst, Bool, true, false, List, [], ◌∷◌,
  ◌++◌, append_assoc, append-nil, Option, none, some, length, length-append, length-take,
  not_leb→lt, take, drop, take-append-drop, concat_all, All, arith, leb, if◌then◌else◌, Result, err,
  ok,
}
use eika.Mcp.Sse.{
  Failure, end_of_stream, event_too_large, Scanned, line_length, scan_sse_lines, scan, scan_all,
}
use eika.Mcp.Sse.Lines.{buffered_line, no_line, drop-append_left}

-- A scan that gives the first line of the whole text, and leaves the rest of it.
record IsScanned (text : List ℕ) (n : ℕ) (line : List ℕ) (out : Result Failure (Option Scanned))
    : Type 0 where
  pub buffer : List ℕ
  pub reads : List (List ℕ)
  pub given : out ≡ ok (some (line, (buffer, reads)))
  pub rest : buffer ++ concat_all reads ≡ drop n text

-- A line of what is buffered.
from_buffer :
    (buffer : List ℕ) (reads : List (List ℕ)) {n k : ℕ} {line found : List ℕ}
    → scan_sse_lines (buffer ++ concat_all reads) true ≡ some (n, line)
    → scan_sse_lines buffer false ≡ some (k, found)
    → IsScanned (buffer ++ concat_all reads) n line (ok (some (found, (drop k buffer, reads))))
from_buffer buffer reads {n = n} {k = k} {line = line} {found = found} whole here =
    let (same, within) = buffered_line buffer (concat_all reads) here in
    let eq : ◌≡◌ {A = ℕ × List ℕ} (k, found) (n, line) = cc (same, whole) in
    record {
      buffer = drop k buffer;
      reads = reads;
      given = ap (λ x. ok (some (x, (drop k buffer, reads)))) (ap (λ x. x.1) eq);
      rest =
          sym (drop-append_left buffer (concat_all reads) k within)
          ∙ ap (λ j. drop j (buffer ++ concat_all reads)) (ap (λ x. x.0) eq);
    }

-- A scan that has to wait: the buffer has room for what is still missing of the line.
waiting :
    (max : ℕ) (buffer more : List ℕ) {n : ℕ} {line : List ℕ}
    → scan_sse_lines (buffer ++ more) true ≡ some (n, line)
    → suc (suc (length line)) ≤ max
    → scan_sse_lines buffer false ≡ none
    → leb max (length buffer) ≡ false
waiting max buffer more whole short waits = ground (arith, no_line buffer more waits whole, short)

scan-IsScanned :
    (max : ℕ) (buffer : List ℕ) (reads : List (List ℕ)) (n : ℕ) (line : List ℕ)
    → scan_sse_lines (buffer ++ concat_all reads) true ≡ some (n, line)
    → suc (suc (length line)) ≤ max
    → IsScanned (buffer ++ concat_all reads) n line (scan max buffer reads)
unfolding scan
scan-IsScanned max buffer [] n line whole short = at (scan_sse_lines buffer false) refl
  where
    last : Option (ℕ × List ℕ) → Result Failure (Option Scanned)
    last o = elim o [ some (k, found) ↦ ok (some (found, (drop k buffer, []))) | none ↦ ok none ]

    ended : scan_sse_lines buffer true ≡ some (n, line)
    ended = ap (λ l. scan_sse_lines l true) (sym (append-nil buffer)) ∙ whole

    at :
        (o : Option (ℕ × List ℕ))
        → scan_sse_lines buffer false ≡ o
        → IsScanned (buffer ++ []) n line (elim o as (λ _. Result Failure (Option Scanned)) [
          | some (k, found) ↦ ok (some (found, (drop k buffer, [])))
          | none ↦
              if leb max (length buffer)
              then err event_too_large
              else last (scan_sse_lines buffer true)
        ])
    at (some (k, found)) here = from_buffer buffer [] whole here
    at none waits = record {
      buffer = drop n buffer;
      reads = [];
      given = rw (waiting max buffer [] whole short waits, ended) refl;
      rest = append-nil (drop n buffer) ∙ ap (drop n) (sym (append-nil buffer));
    }
scan-IsScanned max buffer (chunk ∷ reads) n line whole short =
    at
      (scan-IsScanned max (buffer ++ chunk) reads n line
        (ap (λ l. scan_sse_lines l true) (append_assoc buffer chunk (concat_all reads)) ∙ whole)
        short)
      (scan_sse_lines buffer false) refl
  where
    text : List ℕ
    text = buffer ++ (chunk ++ concat_all reads)

    room : ℕ
    room = max - length buffer

    full : List ℕ
    full = buffer ++ take room chunk

    later : List (List ℕ)
    later = drop room chunk ∷ reads

    split : full ++ concat_all later ≡ text
    split =
        append_assoc buffer (take room chunk) (drop room chunk ++ concat_all reads)
        ∙ ap (λ l. buffer ++ l)
            (sym (append_assoc (take room chunk) (drop room chunk) (concat_all reads))
              ∙ ap (λ l. l ++ concat_all reads) (take-append-drop room chunk))

    whole_full : scan_sse_lines (full ++ concat_all later) true ≡ some (n, line)
    whole_full = ap (λ l. scan_sse_lines l true) split ∙ whole

    at_full :
        (o : Option (ℕ × List ℕ))
        → scan_sse_lines full false ≡ o
        → max ≤ length full
        → IsScanned text n line (elim o as (λ _. Result Failure (Option Scanned)) [
          | some (k, found) ↦ ok (some (found, (drop k full, later)))
          | none ↦ err event_too_large
        ])
    at_full (some (k, found)) here size =
        subst (λ l. IsScanned l n line (ok (some (found, (drop k full, later))))) split
          (from_buffer full later whole_full here)
    at_full none waits size =
        absurd (omega (arith, no_line full (concat_all later) waits whole_full, short))

    fits :
        IsScanned ((buffer ++ chunk) ++ concat_all reads) n line (scan max (buffer ++ chunk) reads)
        → (small : Bool) → leb (length chunk) room ≡ small
        → leb max (length buffer) ≡ false
        → IsScanned text n line (
            if small
            then scan max (buffer ++ chunk) reads
            else elim (scan_sse_lines full false) as (λ _. Result Failure (Option Scanned)) [
              | some (k, found) ↦ ok (some (found, (drop k full, later)))
              | none ↦ err event_too_large
            ])
    fits more true eq open_now =
        subst (λ l. IsScanned l n line (scan max (buffer ++ chunk) reads))
          (append_assoc buffer chunk (concat_all reads)) more
    fits more false eq open_now = at_full (scan_sse_lines full false) refl (
        omega (
          arith,
          length-append buffer (take room chunk),
          length-take room chunk,
          not_leb→lt (length chunk) room eq,
          not_leb→lt max (length buffer) open_now,
        ))

    at :
        IsScanned ((buffer ++ chunk) ++ concat_all reads) n line (scan max (buffer ++ chunk) reads)
        → (o : Option (ℕ × List ℕ)) → scan_sse_lines buffer false ≡ o
        → IsScanned text n line (elim o as (λ _. Result Failure (Option Scanned)) [
          | some (k, found) ↦ ok (some (found, (drop k buffer, chunk ∷ reads)))
          | none ↦
              if leb max (length buffer)
              then err event_too_large
              else if leb (length chunk) room
              then scan max (buffer ++ chunk) reads
              else elim (scan_sse_lines full false) as (λ _. Result Failure (Option Scanned)) [
                | some (k, found) ↦ ok (some (found, (drop k full, later)))
                | none ↦ err event_too_large
              ]
        ])
    at more (some (k, found)) here = from_buffer buffer (chunk ∷ reads) whole here
    at more none waits =
        let open_now = waiting max buffer (chunk ++ concat_all reads) whole short waits in
        rw open_now (fits more (leb (length chunk) room) refl open_now)

-- The lines of a text, by the first of them and the lines of the rest.
pub data HasLines : List ℕ → List (List ℕ) → Type 0 where
  no_more : HasLines [] []
  one_more :
      {text : List ℕ} {line : List ℕ} {lines : List (List ℕ)} (n : ℕ)
      → scan_sse_lines text true ≡ some (n, line)
      → HasLines (drop n text) lines
      → HasLines text (line ∷ lines)

-- A buffer of this size holds the line and the end of it.
abbrev pub IsShort : ℕ → List ℕ → Type 0
IsShort max line = suc (suc (length line)) ≤ max

scan-ended :
    (max : ℕ) (reads : List (List ℕ))
    → 0 < max
    → concat_all reads ≡ []
    → scan max [] reads ≡ ok none
unfolding scan scan_sse_lines line_length
scan-ended max [] room done = ground (arith, room)
scan-ended max ([] ∷ reads) room done = ground (arith, room, scan-ended max reads room done)
scan-ended max ((b ∷ chunk) ∷ reads) room done = cc done

empty_parts : (front back : List ℕ) → front ++ back ≡ [] → (front ≡ []) × (back ≡ [])
empty_parts [] back e = (refl, e)
empty_parts (b ∷ front) back e = cc e

-- One step of the scans.
scan_all-step :
    (fuel max : ℕ) (buffer : List ℕ) (reads : List (List ℕ)) {out : Result Failure (Option Scanned)}
    → scan max buffer reads ≡ out
    → scan_all (suc fuel) max buffer reads ≡ (elim out as (λ _. List (List ℕ) × Failure) [
      | err e ↦ ([], e)
      | ok none ↦ ([], end_of_stream)
      | ok (some (line, (buffer', reads'))) ↦
          let rest = scan_all fuel max buffer' reads' in (line ∷ rest.0, rest.1)
    ])
unfolding scan_all
scan_all-step fuel max buffer reads eq =
    ap
      (λ r. elim r as (λ _. List (List ℕ) × Failure) [
        | err e ↦ ([], e)
        | ok none ↦ ([], end_of_stream)
        | ok (some (line, (buffer', reads'))) ↦
            let rest = scan_all fuel max buffer' reads' in (line ∷ rest.0, rest.1)
      ])
      eq

-- Whatever a reader's buffer holds and however its reads cut the rest, successive scans give the
-- lines of the text and then the end, when each line and its end fit into the buffer.
pub scan_all-lines :
    (fuel max : ℕ) (buffer : List ℕ) (reads : List (List ℕ)) {text : List ℕ} {lines : List (List ℕ)}
    → HasLines text lines
    → buffer ++ concat_all reads ≡ text
    → All (IsShort max) lines
    → 0 < max
    → length lines < fuel
    → scan_all fuel max buffer reads ≡ (lines, end_of_stream)
scan_all-lines zero max buffer reads has same short room h = elim h [ ]
scan_all-lines (suc fuel) max buffer reads no_more same short room h =
    let (no_buffer, no_reads) = empty_parts buffer (concat_all reads) same in
    scan_all-step fuel max buffer reads
      (ap (λ l. scan max l reads) no_buffer ∙ scan-ended max reads room no_reads)
scan_all-lines (suc fuel) max buffer reads {lines = line ∷ lines} (one_more n first has) same
      (fits, short) room h =
    let whole = ap (λ l. scan_sse_lines l true) same ∙ first in
    let scanned = scan-IsScanned max buffer reads n _ whole fits in
    let rest =
      scan_all-lines fuel max scanned.buffer scanned.reads has (scanned.rest ∙ ap (drop n) same)
        short room (omega arith) in
    scan_all-step fuel max buffer reads scanned.given ∙ ap (λ r. (line ∷ r.0, r.1)) rest
