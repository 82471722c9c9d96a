-- ===== src/Imaging/Jpeg/End.antt =====
-- internal/imaging/jpeg.go: where an image ends.
use eika.Common.{
  ℕ, zero, suc, ◌+◌, ◌≤◌, ◌≡◌, refl, sym, ap, ◌∙◌, Bool, true, false, ◌||◌, List, [], ◌∷◌, length,
  drop, length-drop, arith, ◌==◌, if◌then◌else◌, Result, ok, ◌>>=◌, >>=-ok,
}
use eika.Imaging.Jpeg.{
  Failure, byte, slice, is_fill, is_rst, is_soi, is_eoi, is_sos, standalone, next_marker,
  big_endian, segment_end, skip_entropy, end_step, end_from, jpeg_end,
}
use eika.Imaging.Jpeg.Offsets.{
  byte-slice, length-slice, IsMarker, next_marker-IsMarker, next_marker-here, segment_end-ok,
}
use eika.Imaging.Jpeg.Parsed.{IsScan, sos_alone}

-- The entropy-coded data end behind where they begin, and within the bytes.
skip_entropy-bounds :
    (bytes : List ℕ) (i : ℕ)
    → (i ≤ skip_entropy bytes i) × (skip_entropy bytes i ≤ i + length bytes)
unfolding skip_entropy
skip_entropy-bounds [] i = (omega arith, omega arith)
skip_entropy-bounds (b ∷ []) i = (omega arith, omega arith)
skip_entropy-bounds (b ∷ m ∷ bytes) i =
    branch (is_fill b) ((m == 0) || is_rst m) (is_fill m) _ _
      (skip_entropy-bounds (m ∷ bytes) (suc i)) (skip_entropy-bounds bytes (suc (suc i)))
  where
    branch :
        (fill stuffed more : Bool) (one two : ℕ)
        → (suc i ≤ one) × (one ≤ suc i + suc (length bytes))
        → (suc (suc i) ≤ two) × (two ≤ suc (suc i) + length bytes)
        → let out = elim fill as (λ _. ℕ) [
          | false ↦ one
          | true ↦ if stuffed then two else if more then one else i
        ] in
          (i ≤ out) × (out ≤ i + suc (suc (length bytes)))
    branch false stuffed more one two h k = (omega arith, omega arith)
    branch true true more one two h k = (omega arith, omega arith)
    branch true false true one two h k = (omega arith, omega arith)
    branch true false false one two h k = (omega arith, omega arith)

pub end_step-bounds :
    (bytes : List ℕ) (marker next : ℕ) {j : ℕ}
    → next ≤ length bytes
    → end_step bytes marker next ≡ ok j
    → (next ≤ j) × (j ≤ length bytes)
unfolding end_step
end_step-bounds bytes marker next {j = j} inside done = at (standalone marker) done
  where
    at :
        (alone : Bool)
        → ◌≡◌ {A = Result Failure ℕ}
            (if alone
              then ok next
              else segment_end bytes next >>= λ k.
                  ok (if is_sos marker then skip_entropy (drop k bytes) k else k))
            (ok j)
        → (next ≤ j) × (j ≤ length bytes)
    at true same = ground (arith, same)
    at false same =
        let (k, eq, last) = >>=-ok (segment_end bytes next) _ same in
        let (two, (end, within)) = segment_end-ok bytes next eq in
        let (low, high) = skip_entropy-bounds (drop k bytes) k in
        let size = length-drop k bytes in
        ends k (is_sos marker) (skip_entropy (drop k bytes) k) (omega arith) within low
          (omega arith) last
      where
        ends :
            (k : ℕ) (sos : Bool) (far : ℕ)
            → next ≤ k
            → k ≤ length bytes
            → k ≤ far
            → far ≤ length bytes
            → ◌≡◌ {A = Result Failure ℕ} (ok (if sos then far else k)) (ok j)
            → (next ≤ j) × (j ≤ length bytes)
        ends k true far a b c d same = let e : far ≡ j = cc same in (omega arith, omega arith)
        ends k false far a b c d same = let e : k ≡ j = cc same in (omega arith, omega arith)

-- `jpegEnd` goes forward and stays within the bytes.
end_from-bounds :
    (fuel : ℕ) (bytes : List ℕ) (i : ℕ) {end : ℕ}
    → end_from fuel bytes i ≡ ok end
    → (suc (suc i) ≤ end) × (end ≤ length bytes)
unfolding end_from
end_from-bounds zero bytes i done = cc done
end_from-bounds (suc fuel) bytes i {end = end} done =
    let (m, eq, last) = >>=-ok (next_marker bytes i) _ done in
    at m (next_marker-IsMarker bytes i eq) (λ j. end_from-bounds fuel bytes j) (is_eoi m.1.0) last
  where
    at :
        (m : ℕ × (ℕ × ℕ))
        → IsMarker bytes i m
        → ((j : ℕ) → end_from fuel bytes j ≡ ok end → (suc (suc j) ≤ end) × (end ≤ length bytes))
        → (over : Bool)
        → ◌≡◌ {A = Result Failure ℕ}
            (elim over as (λ _. Result Failure ℕ) [
              | true ↦ ok m.1.1
              | false ↦ end_step bytes m.1.0 m.1.1 >>= λ j. end_from fuel bytes j
            ])
            (ok end)
        → (suc (suc i) ≤ end) × (end ≤ length bytes)
    at m found later true same =
        let e : m.1.1 ≡ end = cc same in
        (omega (arith, found.order, found.next), omega (arith, found.within))
    at m found later false same =
        let (j, eq, last) = >>=-ok (end_step bytes m.1.0 m.1.1) _ same in
        let (low, high) = end_step-bounds bytes m.1.0 m.1.1 found.within eq in
        let (far, inside) = later j last in (omega (arith, found.order, found.next), inside)

sos_no_eoi : (m : ℕ) → is_sos m ≡ true → is_eoi m ≡ false
sos_no_eoi m sos = ends (is_soi m) (is_eoi m) (sos_alone m sos).1
  where
    ends : (a b : Bool) → (a || b) ≡ false → b ≡ false
    ends false b h = h
    ends true b h = cc h

end_step-scan :
    (bytes : List ℕ) (marker next : ℕ) {j : ℕ}
    → is_sos marker ≡ true
    → end_step bytes marker next ≡ ok j
    → next + big_endian bytes next ≤ j
unfolding end_step
end_step-scan bytes marker next {j = j} sos done =
    at (standalone marker) (is_sos marker) refl sos done
  where
    at :
        (alone scans : Bool)
        → standalone marker ≡ alone
        → scans ≡ true
        → ◌≡◌ {A = Result Failure ℕ}
            (if alone
              then ok next
              else segment_end bytes next >>= λ k.
                  ok (if scans then skip_entropy (drop k bytes) k else k))
            (ok j)
        → next + big_endian bytes next ≤ j
    at true scans alone eq same = absurd (cc (alone, (sos_alone marker sos).0))
    at false false alone eq same = cc eq
    at false true alone eq same =
        let (k, read, last) = >>=-ok (segment_end bytes next) _ same in
        let (two, (end, within)) = segment_end-ok bytes next read in
        let far : skip_entropy (drop k bytes) k ≡ j = cc last in
        omega (arith, end, far, (skip_entropy-bounds (drop k bytes) k).0)

-- The image that begins with a scan holds the scan's own segment.
pub jpeg_end-scan :
    (bytes : List ℕ) (scan : ℕ) {end : ℕ}
    → IsScan bytes scan
    → jpeg_end bytes scan ≡ ok end
    → (suc (suc scan) + big_endian bytes (suc (suc scan)) ≤ end) × (end ≤ length bytes)
unfolding jpeg_end end_from
jpeg_end-scan bytes scan {end = end} good done =
    let read = next_marker-here bytes scan (omega (arith, good.within)) good.prefix good.stops in
    let (m, eq, last) = >>=-ok (next_marker bytes scan) _ done in
    at m (cc (read, eq)) (is_eoi m.1.0) refl last
  where
    at :
        (m : ℕ × (ℕ × ℕ))
        → (scan, (byte bytes (suc scan), suc (suc scan))) ≡ m
        → (over : Bool) → is_eoi m.1.0 ≡ over
        → ◌≡◌ {A = Result Failure ℕ}
            (elim over as (λ _. Result Failure ℕ) [
              | true ↦ ok m.1.1
              | false ↦ end_step bytes m.1.0 m.1.1 >>= λ j. end_from (length bytes) bytes j
            ])
            (ok end)
        → (suc (suc scan) + big_endian bytes (suc (suc scan)) ≤ end) × (end ≤ length bytes)
    at m here true over same =
        let at_marker : byte bytes (suc scan) ≡ m.1.0 = ap (λ x. x.1.0) here in
        absurd (cc (over, sos_no_eoi m.1.0 (ap is_sos (sym at_marker) ∙ good.begins)))
    at m here false over same =
        let (j, eq, last) = >>=-ok (end_step bytes m.1.0 m.1.1) _ same in
        let at_marker : byte bytes (suc scan) ≡ m.1.0 = ap (λ x. x.1.0) here in
        let at_next : suc (suc scan) ≡ m.1.1 = ap (λ x. x.1.1) here in
        let length_there : big_endian bytes (suc (suc scan)) ≡ big_endian bytes m.1.1 =
          ap (big_endian bytes) at_next in
        let reach = end_step-scan bytes m.1.0 m.1.1 (ap is_sos (sym at_marker) ∙ good.begins) eq in
        let (far, inside) = end_from-bounds (length bytes) bytes j last in (omega arith, inside)

-- The scan where it is written again.
pub slice-IsScan :
    (bytes : List ℕ) (scan end : ℕ)
    → IsScan bytes scan
    → suc (suc scan) + big_endian bytes (suc (suc scan)) ≤ end
    → end ≤ length bytes
    → IsScan (slice bytes scan end) 0
slice-IsScan bytes scan end good h inside =
    let e0 : scan + 0 ≡ scan = omega arith in
    let e1 : scan + 1 ≡ suc scan = omega arith in
    let e2 : scan + 2 ≡ suc (suc scan) = omega arith in
    let e3 : scan + 3 ≡ suc (suc (suc scan)) = omega arith in
    let long = good.long in
    let b0 = byte-slice bytes scan end 0 (omega arith) ∙ ap (byte bytes) e0 in
    let b1 = byte-slice bytes scan end 1 (omega arith) ∙ ap (byte bytes) e1 in
    let same : big_endian (slice bytes scan end) 2 ≡ big_endian bytes (suc (suc scan)) = cc (
      byte-slice bytes scan end 2 (omega arith),
      byte-slice bytes scan end 3 (omega arith),
      e2,
      e3,
    ) in
    record {
      prefix = ap is_fill b0 ∙ good.prefix;
      stops = ap is_fill b1 ∙ good.stops;
      begins = ap is_sos b1 ∙ good.begins;
      long = omega arith;
      within = omega (arith, length-slice bytes scan end inside);
    }
