-- ===== src/Imaging/Jpeg/Parsed.antt =====
-- internal/imaging/jpeg.go: the segments that `jpegHeader` finds.
use eika.Common.{
  ℕ, zero, suc, ◌+◌, ◌≤◌, ◌≡◌, ◌⊎◌, inl, inr, refl, sym, ap, ◌∙◌, subst, Bool, true, false, ◌||◌,
  not, List, [], ◌∷◌, ◌++◌, append_assoc, append-nil, length, arith, ltb, if◌then◌else◌, Result,
  err, ok, >>=-ok, All,
}
use eika.Imaging.Jpeg.{
  Failure, malformed_jpeg, Segment, byte, slice, is_fill, is_rst, is_soi, is_eoi, is_sos,
  standalone, next_marker, big_endian, segment_end, header_end, header_from, jpeg_header,
}
use eika.Imaging.Jpeg.Offsets.{
  length-slice, byte-slice, IsMarker, next_marker-IsMarker, segment_end-ok,
}

-- What a segment of a header is, by its bytes alone.
pub record IsSegment (s : Segment) : Type 0 where
  pub prefix : is_fill (byte s.data_bytes 0) ≡ true
  pub marker : byte s.data_bytes 1 ≡ s.marker
  pub stops : is_fill s.marker ≡ false
  pub no_scan : is_sos s.marker ≡ false
  pub shape :
      ((standalone s.marker ≡ true) × (length s.data_bytes ≡ 2))
      ⊎ (((standalone s.marker ≡ false) × ((is_soi s.marker || is_eoi s.marker) ≡ false))
          × ((2 ≤ big_endian s.data_bytes 2)
              × (length s.data_bytes ≡ 2 + big_endian s.data_bytes 2)))

-- What begins a scan.
pub record IsScan (bytes : List ℕ) (scan : ℕ) : Type 0 where
  pub prefix : is_fill (byte bytes scan) ≡ true
  pub stops : is_fill (byte bytes (suc scan)) ≡ false
  pub begins : is_sos (byte bytes (suc scan)) ≡ true
  pub long : 2 ≤ big_endian bytes (suc (suc scan))
  pub within : suc (suc scan) + big_endian bytes (suc (suc scan)) ≤ length bytes

pub sos_alone :
    (m : ℕ) → is_sos m ≡ true → (standalone m ≡ false) × ((is_soi m || is_eoi m) ≡ false)
unfolding is_sos standalone is_rst is_soi is_eoi
sos_alone m h = let e : m ≡ 0xda = ground arith in rw e (refl, refl)

big_endian-slice :
    (bytes : List ℕ) (from to : ℕ)
    → from + 4 ≤ to
    → big_endian (slice bytes from to) 2 ≡ big_endian bytes (suc (suc from))
big_endian-slice bytes from to h =
    let e : from + 2 ≡ suc (suc from) = omega arith in
    let e' : from + 3 ≡ suc (suc (suc from)) = omega arith in
    cc (byte-slice bytes from to 2 (omega arith), byte-slice bytes from to 3 (omega arith), e, e')

-- How `header_end` finds an end.
pub header_end-ok :
    (bytes : List ℕ) (m next : ℕ) {end : ℕ}
    → header_end bytes m next ≡ ok end
    → ((standalone m ≡ true) × (end ≡ next))
      ⊎ (((standalone m ≡ false) × ((is_soi m || is_eoi m) ≡ false))
          × (segment_end bytes next ≡ ok end))
unfolding header_end
header_end-ok bytes m next done = ground arith

-- The segment that a round of the loop adds.
pub added-IsSegment :
    (bytes : List ℕ) (i end : ℕ) (m : ℕ × (ℕ × ℕ))
    → IsMarker bytes i m
    → header_end bytes m.1.0 m.1.1 ≡ ok end
    → is_sos m.1.0 ≡ false
    → IsSegment (record { marker = m.1.0; data_bytes = slice bytes m.0 end })
      × ((m.1.1 ≤ end) × (end ≤ length bytes))
added-IsSegment bytes i end m found done no_scan = elim (header_end-ok bytes m.1.0 m.1.1 done) [
  | inl (alone, same) ↦
      let size : end ≡ suc (suc m.0) = same ∙ found.next in
      (
        segment (omega arith)
            (inl (alone, length-slice bytes m.0 end (omega (arith, found.within)) ∙ omega arith)),
        (omega arith, omega (arith, found.within)),
      )
  | inr (kind, read) ↦
      let (two, (same, inside)) = segment_end-ok bytes m.1.1 read in
      let at_next : big_endian bytes m.1.1 ≡ big_endian bytes (suc (suc m.0)) =
        ap (big_endian bytes) found.next in
      let same_length : big_endian (slice bytes m.0 end) 2 ≡ big_endian bytes (suc (suc m.0)) =
        big_endian-slice bytes m.0 end (omega (arith, found.next)) in
      (
        segment (omega (arith, found.next)) (
            inr
              (kind, (omega arith, omega (arith, found.next, length-slice bytes m.0 end inside)))),
        (omega arith, inside),
      )
]
  where
    segment :
        suc (suc m.0) ≤ end
        → let s : Segment = record { marker = m.1.0; data_bytes = slice bytes m.0 end } in
          ((standalone s.marker ≡ true) × (length s.data_bytes ≡ 2))
            ⊎ (((standalone s.marker ≡ false) × ((is_soi s.marker || is_eoi s.marker) ≡ false))
                × ((2 ≤ big_endian s.data_bytes 2)
                    × (length s.data_bytes ≡ 2 + big_endian s.data_bytes 2)))
          → IsSegment s
    segment h shape =
        let e : m.0 + 0 ≡ m.0 = omega arith in
        let e' : m.0 + 1 ≡ suc m.0 = omega arith in
        record {
          prefix =
              ap is_fill (byte-slice bytes m.0 end 0 (omega arith) ∙ ap (byte bytes) e)
              ∙ found.prefix;
          marker = byte-slice bytes m.0 end 1 (omega arith) ∙ ap (byte bytes) e' ∙ found.marker;
          stops = found.stops;
          no_scan = no_scan;
          shape = shape;
        }

found-IsScan :
    (bytes : List ℕ) (i end : ℕ) (m : ℕ × (ℕ × ℕ))
    → IsMarker bytes i m
    → header_end bytes m.1.0 m.1.1 ≡ ok end
    → is_sos m.1.0 ≡ true
    → IsScan bytes m.0
found-IsScan bytes i end m found done sos = elim (header_end-ok bytes m.1.0 m.1.1 done) [
  | inl (alone, same) ↦ absurd (cc (alone, (sos_alone m.1.0 sos).0))
  | inr (kind, read) ↦
      let (two, (same, inside)) = segment_end-ok bytes m.1.1 read in
      let at_next : big_endian bytes m.1.1 ≡ big_endian bytes (suc (suc m.0)) =
        ap (big_endian bytes) found.next in
      record {
        prefix = found.prefix;
        stops = ap is_fill found.marker ∙ found.stops;
        begins = ap is_sos found.marker ∙ sos;
        long = omega arith;
        within = omega (arith, found.next);
      }
]

-- The header that was read: segments, and the scan after them.
pub record IsHeader (bytes : List ℕ) (out : List Segment) (h : List Segment × ℕ) : Type 0 where
  pub added : List Segment
  pub all : h.0 ≡ out ++ added
  pub segments : All IsSegment added
  pub scan : IsScan bytes h.1

pub header_from-IsHeader :
    (fuel : ℕ) (bytes : List ℕ) (i : ℕ) (out : List Segment) {h : List Segment × ℕ}
    → header_from fuel bytes i out ≡ ok h
    → IsHeader bytes out h
unfolding header_from
header_from-IsHeader zero bytes i out done = cc done
header_from-IsHeader (suc fuel) bytes i out {h = h} done =
    let (m, eq_m, step) = >>=-ok (next_marker bytes i) _ done in
    let (end, eq_end, last) = >>=-ok (header_end bytes m.1.0 m.1.1) _ step in
    let found = next_marker-IsMarker bytes i eq_m in
    one_round m end found eq_end (header_from-IsHeader fuel bytes end _) (is_sos m.1.0) refl last
  where
    here : ℕ × (ℕ × ℕ) → ℕ → Segment
    here m end = record { marker = m.1.0; data_bytes = slice bytes m.0 end }

    one_round :
        (m : ℕ × (ℕ × ℕ)) (end : ℕ)
        → IsMarker bytes i m
        → header_end bytes m.1.0 m.1.1 ≡ ok end
        → (header_from fuel bytes end (out ++ here m end ∷ []) ≡ ok h
            → IsHeader bytes (out ++ here m end ∷ []) h)
        → (sos : Bool) → is_sos m.1.0 ≡ sos
        → ◌≡◌ {A = Result Failure (List Segment × ℕ)}
            (elim sos as (λ _. Result Failure (List Segment × ℕ)) [
              | true ↦ ok (out, m.0)
              | false ↦ header_from fuel bytes end (out ++ here m end ∷ [])
            ])
            (ok h)
        → IsHeader bytes out h
    one_round m end found eq_end later true sos same =
        let e : (out, m.0) ≡ h = cc same in
        subst (IsHeader bytes out) e (record {
          added = [];
          all = sym (append-nil out);
          segments = tt;
          scan = found-IsScan bytes i end m found eq_end sos;
        })
    one_round m end found eq_end later false no_scan same =
        let rest = later same in
        record {
          added = here m end ∷ rest.added;
          all = rest.all ∙ append_assoc out (here m end ∷ []) rest.added;
          segments = ((added-IsSegment bytes i end m found eq_end no_scan).0, rest.segments);
          scan = rest.scan;
        }

pub jpeg_header-IsHeader :
    (bytes : List ℕ) {h : List Segment × ℕ} → jpeg_header bytes ≡ ok h → IsHeader bytes [] h
unfolding jpeg_header
jpeg_header-IsHeader bytes {h = h} done =
    at (ltb (length bytes) 4 || not (is_fill (byte bytes 0)) || not (is_soi (byte bytes 1))) done
  where
    at :
        (short : Bool)
        → (if short then err malformed_jpeg else header_from (suc (length bytes)) bytes 2 []) ≡ ok h
        → IsHeader bytes [] h
    at true same = cc same
    at false same = header_from-IsHeader (suc (length bytes)) bytes 2 [] same
