-- ===== src/Imaging/Jpeg/Rewritten.antt =====
-- internal/imaging/jpeg.go: how the segments of a header read where they are written again.
use eika.Common.{
  ℕ, zero, suc, ◌+◌, ◌-◌, ◌≤◌, ◌<◌, ◌≡◌, inl, inr, refl, sym, ap, ◌∙◌, true, false, ◌||◌, List, [],
  ◌∷◌, ◌++◌, append_assoc, append-nil, length, length-append, take, drop, arith, ltb, if◌then◌else◌,
  err, ok, All, concat_all, map,
}
use eika.Imaging.Jpeg.{
  malformed_jpeg, Segment, byte, slice, is_fill, is_sos, next_marker, big_endian, segment_end,
  header_end, header_from,
}
use eika.Imaging.Jpeg.Offsets.{byte-append, drop-append, next_marker-here}
use eika.Imaging.Jpeg.Parsed.{IsSegment, IsScan, sos_alone}

-- The bytes of segments, one after the other.
abbrev pub written : List Segment → List ℕ
written segments = concat_all (map (λ s. s.data_bytes) segments)

take_front_part : (front back : List ℕ) → take (length front) (front ++ back) ≡ front
take_front_part [] back = refl
take_front_part (b ∷ front) back = ap (λ l. b ∷ l) (take_front_part front back)

slice-append :
    (front middle back : List ℕ) (end : ℕ)
    → end ≡ length front + length middle
    → slice (front ++ (middle ++ back)) (length front) end ≡ middle
slice-append front middle back end h =
    let e : end - length front ≡ length middle = omega arith in
    ap (λ k. take k (drop (length front) (front ++ (middle ++ back)))) e
    ∙ ap (take (length middle)) (drop-append front (middle ++ back))
    ∙ take_front_part middle back

byte-front :
    (front back : List ℕ) (k : ℕ) → k < length front → byte (front ++ back) k ≡ byte front k
byte-front [] back k h = elim h [ ]
byte-front (b ∷ front) back zero h = refl
byte-front (b ∷ front) back (suc k) h = byte-front front back k (omega arith)

-- A byte of a part that stands behind another.
byte_within :
    (front middle back : List ℕ) (k i : ℕ)
    → i ≡ length front + k
    → k < length middle
    → byte (front ++ (middle ++ back)) i ≡ byte middle k
byte_within front middle back k i at h =
    ap (byte (front ++ (middle ++ back))) at
    ∙ byte-append front (middle ++ back) k
    ∙ byte-front middle back k h

-- A marker at the start of a part.
next_marker_within :
    (front middle back : List ℕ)
    → 2 ≤ length middle
    → is_fill (byte middle 0) ≡ true
    → is_fill (byte middle 1) ≡ false
    → next_marker (front ++ (middle ++ back)) (length front)
      ≡ ok (length front, (byte middle 1, suc (suc (length front))))
next_marker_within front middle back size prefix stops =
    let first = byte_within front middle back 0 (length front) (omega arith) (omega arith) in
    let second = byte_within front middle back 1 (suc (length front)) (omega arith) (omega arith) in
    next_marker-here (front ++ (middle ++ back)) (length front)
      (omega (arith, length-append front (middle ++ back), length-append middle back))
      (ap is_fill first ∙ prefix) (ap is_fill second ∙ stops)
    ∙ ap (λ b. ok (length front, (b, suc (suc (length front))))) second

segment_end_within :
    (front middle back : List ℕ)
    → 2 ≤ big_endian middle 2
    → 2 + big_endian middle 2 ≤ length middle
    → segment_end (front ++ (middle ++ back)) (suc (suc (length front)))
      ≡ ok (length front + (2 + big_endian middle 2))
unfolding segment_end
segment_end_within front middle back two size =
    let at : suc (suc (length front)) ≡ length front + 2 = omega arith in
    let at' : suc (suc (suc (length front))) ≡ length front + 3 = omega arith in
    let same : big_endian (front ++ (middle ++ back)) (suc (suc (length front)))
        ≡ big_endian middle 2 =
      cc (
        byte_within front middle back 2 _ at (omega arith),
        byte_within front middle back 3 _ at' (omega arith),
      ) in
    ends (big_endian middle 2) (length (front ++ (middle ++ back))) same two
      (omega (arith, length-append front (middle ++ back), length-append middle back))
  where
    ends :
        (n size : ℕ)
        → big_endian (front ++ (middle ++ back)) (suc (suc (length front))) ≡ n
        → 2 ≤ n
        → length front + (2 + n) ≤ size
        → (let k = big_endian (front ++ (middle ++ back)) (suc (suc (length front))) in
            if ltb size (suc (suc (length front)) + 2)
            then err malformed_jpeg
            else if ltb k 2 || ltb size (suc (suc (length front)) + k)
            then err malformed_jpeg
            else ok (suc (suc (length front)) + k))
          ≡ ok (length front + (2 + n))
    ends n size same two h = rw same (ground arith)

header_end_within :
    (front back : List ℕ) (s : Segment)
    → IsSegment s
    → header_end (front ++ (s.data_bytes ++ back)) s.marker (suc (suc (length front)))
      ≡ ok (length front + length s.data_bytes)
unfolding header_end
header_end_within front back s good = elim good.shape [
  | inl (alone, size) ↦
      let e : suc (suc (length front)) ≡ length front + length s.data_bytes = omega (arith, size) in
      rw alone (ap ok e)
  | inr ((long, plain), (two, size)) ↦
      let e : length front + (2 + big_endian s.data_bytes 2) ≡ length front + length s.data_bytes =
        omega (arith, size) in
      rw (long, plain)
        (segment_end_within front s.data_bytes back two (omega (arith, size)) ∙ ap ok e)
]

-- One round of the loop.
header_from-round :
    (fuel : ℕ) (bytes : List ℕ) (i start marker next end : ℕ) (out : List Segment)
    → next_marker bytes i ≡ ok (start, (marker, next))
    → header_end bytes marker next ≡ ok end
    → is_sos marker ≡ false
    → header_from (suc fuel) bytes i out
      ≡ header_from fuel bytes end
          (out ++ record { marker = marker; data_bytes = slice bytes start end } ∷ [])
unfolding header_from
header_from-round fuel bytes i start marker next end out eq eq_end no_scan =
    rw (eq, eq_end, no_scan) refl

header_from-last :
    (fuel : ℕ) (bytes : List ℕ) (i start marker next end : ℕ) (out : List Segment)
    → next_marker bytes i ≡ ok (start, (marker, next))
    → header_end bytes marker next ≡ ok end
    → is_sos marker ≡ true
    → header_from (suc fuel) bytes i out ≡ ok (out, start)
unfolding header_from
header_from-last fuel bytes i start marker next end out eq eq_end sos = rw (eq, eq_end, sos) refl

header_end_sos :
    (front back : List ℕ)
    → IsScan back 0
    → header_end (front ++ (back ++ [])) (byte back 1) (suc (suc (length front)))
      ≡ ok (length front + (2 + big_endian back 2))
unfolding header_end
header_end_sos front back scan =
    let (long, plain) = sos_alone (byte back 1) scan.begins in
    rw (long, plain) (segment_end_within front back [] scan.long scan.within)

pub header_from-written :
    (segments : List Segment) (front back : List ℕ) (fuel : ℕ) (out : List Segment)
    → All IsSegment segments
    → IsScan back 0
    → length segments < fuel
    → header_from fuel (front ++ (written segments ++ back)) (length front) out
      ≡ ok (out ++ segments, length front + length (written segments))
header_from-written segments front back zero out good scan h = elim h [ ]
header_from-written [] front back (suc fuel) out good scan h =
    let n : length front ≡ length front + 0 = omega arith in
    let same : out ≡ out ++ [] = sym (append-nil out) in
    ap (λ l. header_from (suc fuel) (front ++ l) (length front) out) (sym (append-nil back))
    ∙ header_from-last fuel (front ++ (back ++ [])) (length front) _ _ _ _ out
        (next_marker_within front back [] (omega (arith, scan.within)) scan.prefix scan.stops)
        (header_end_sos front back scan) scan.begins
    ∙ (λ i. ok (same i, n i))
header_from-written (s ∷ segments) front back (suc fuel) out (fits, good) scan h =
    let rest = written segments ++ back in
    let front' = front ++ s.data_bytes in
    let end : length front + length s.data_bytes ≡ length front' =
      sym (length-append front s.data_bytes) in
    let total : length front' + length (written segments)
        ≡ length front + length (written (s ∷ segments)) =
      omega
        (arith, length-append front s.data_bytes, length-append s.data_bytes (written segments)) in
    let size : 2 ≤ length s.data_bytes = elim fits.shape [
      | inl (_, two) ↦ omega (arith, two)
      | inr (_, (_, more)) ↦ omega (arith, more)
    ] in
    let moved : front ++ (s.data_bytes ++ rest) ≡ front' ++ rest =
      sym (append_assoc front s.data_bytes rest) in
    let stops = ap is_fill fits.marker ∙ fits.stops in
    let part : slice (front ++ (s.data_bytes ++ rest)) (length front)
          (length front + length s.data_bytes)
        ≡ s.data_bytes =
      slice-append front s.data_bytes rest (length front + length s.data_bytes) refl in
    ap (λ l. header_from (suc fuel) (front ++ l) (length front) out)
      (append_assoc s.data_bytes (written segments) back)
    ∙ header_from-round fuel (front ++ (s.data_bytes ++ rest)) (length front) _ s.marker _ _ out
        (next_marker_within front s.data_bytes rest size fits.prefix stops
          ∙ ap (λ b. ok (length front, (b, suc (suc (length front))))) fits.marker)
        (header_end_within front rest s fits) fits.no_scan
    ∙ (λ i.
        header_from fuel (moved i) (end i)
          (out ++ record { marker = s.marker; data_bytes = part i } ∷ []))
    ∙ header_from-written segments front' back fuel (out ++ s ∷ []) good scan (omega arith)
    ∙ (λ i. ok (append_assoc out (s ∷ []) segments i, total i))
