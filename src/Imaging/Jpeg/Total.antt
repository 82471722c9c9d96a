-- ===== src/Imaging/Jpeg/Total.antt =====
-- internal/imaging/jpeg.go: the loops come to an end.
use eika.Common.{
  ℕ, zero, suc, ◌+◌, ◌≤◌, ◌<◌, ◌≡◌, ◌≢◌, refl, Bool, true, false, ◌||◌, not, List, [], ◌∷◌, ◌++◌,
  length, drop, arith, ltb, if◌then◌else◌, Result, err, ok, ◌>>=◌, inl, inr,
}
use eika.Imaging.Jpeg.{
  Failure, malformed_jpeg, out_of_fuel, Segment, byte, slice, is_fill, is_soi, is_eoi, is_sos,
  standalone, next_marker, segment_end, header_end, header_from, jpeg_header, end_step, end_from,
  jpeg_end, strip_jpeg, skip_entropy,
}
use eika.Imaging.Jpeg.Offsets.{IsMarker, next_marker-IsMarker, segment_end-ok}
use eika.Imaging.Jpeg.Parsed.{header_end-ok, jpeg_header-IsHeader}
use eika.Imaging.Jpeg.End.{end_step-bounds}

-- A result that is no failure of the model.
abbrev Ends : {A : Type 0} → Result Failure A → Type 0
Ends r = r ≢ err out_of_fuel

bind-Ends :
    {A B : Type 0} (r : Result Failure A) (rest : A → Result Failure B)
    → Ends r
    → ((a : A) → r ≡ ok a → Ends (rest a))
    → Ends (r >>= rest)
bind-Ends (ok a) rest first later = later a refl
bind-Ends (err malformed_jpeg) rest first later = λ e. cc e
bind-Ends (err out_of_fuel) rest first later = absurd (first refl)

next_marker-Ends : (bytes : List ℕ) (i : ℕ) → Ends (next_marker bytes i)
unfolding next_marker
next_marker-Ends bytes i = λ e. ground (arith, e)

segment_end-Ends : (bytes : List ℕ) (i : ℕ) → Ends (segment_end bytes i)
unfolding segment_end
segment_end-Ends bytes i = λ e. ground (arith, e)

header_end-Ends : (bytes : List ℕ) (marker next : ℕ) → Ends (header_end bytes marker next)
unfolding header_end
header_end-Ends bytes marker next = at (standalone marker) (is_soi marker || is_eoi marker)
  where
    at :
        (alone odd : Bool)
        → Ends
            (if alone then ok next else if odd then err malformed_jpeg else segment_end bytes next)
    at true odd = λ e. cc e
    at false true = λ e. cc e
    at false false = segment_end-Ends bytes next

end_step-Ends : (bytes : List ℕ) (marker next : ℕ) → Ends (end_step bytes marker next)
unfolding end_step
end_step-Ends bytes marker next = at (standalone marker)
  where
    at :
        (alone : Bool)
        → Ends (
            if alone
            then ok next
            else segment_end bytes next >>= λ j.
                ok (if is_sos marker then skip_entropy (drop j bytes) j else j))
    at true = λ e. cc e
    at false = bind-Ends (segment_end bytes next) _ (segment_end-Ends bytes next) (λ j eq e. cc e)

header_end-bounds :
    (bytes : List ℕ) (marker next : ℕ) {end : ℕ}
    → next ≤ length bytes
    → header_end bytes marker next ≡ ok end
    → (next ≤ end) × (end ≤ length bytes)
header_end-bounds bytes marker next {end = end} inside done =
    elim (header_end-ok bytes marker next done) [
      | inl (alone, same) ↦ (omega (arith, same), omega (arith, same))
      | inr (kind, read) ↦
          let (two, (same, within)) = segment_end-ok bytes next read in
          (omega (arith, same), within)
    ]

header_from-Ends :
    (fuel : ℕ) (bytes : List ℕ) (i : ℕ) (out : List Segment)
    → i ≤ length bytes
    → length bytes < i + fuel
    → Ends (header_from fuel bytes i out)
unfolding header_from
header_from-Ends zero bytes i out inside h = omega arith
header_from-Ends (suc fuel) bytes i out inside h =
    bind-Ends (next_marker bytes i) _ (next_marker-Ends bytes i) (λ m eq.
      bind-Ends (header_end bytes m.1.0 m.1.1) _ (header_end-Ends bytes m.1.0 m.1.1) (λ end eq_end.
        let found = next_marker-IsMarker bytes i eq in
        let (low, high) = header_end-bounds bytes m.1.0 m.1.1 found.within eq_end in
        at m end (is_sos m.1.0)
          (header_from-Ends fuel bytes end _ high (omega (arith, found.order, found.next)))))
  where
    at :
        (m : ℕ × (ℕ × ℕ)) (end : ℕ) (sos : Bool)
        → let more =
            header_from fuel bytes end
              (out ++ record { marker = m.1.0; data_bytes = slice bytes m.0 end } ∷ []) in
          Ends more
          → Ends (elim sos as (λ _. Result Failure (List Segment × ℕ)) [
            | true ↦ ok (out, m.0)
            | false ↦ more
          ])
    at m end true later = λ e. cc e
    at m end false later = later

end_from-Ends :
    (fuel : ℕ) (bytes : List ℕ) (i : ℕ)
    → i ≤ length bytes
    → length bytes < i + fuel
    → Ends (end_from fuel bytes i)
unfolding end_from
end_from-Ends zero bytes i inside h = omega arith
end_from-Ends (suc fuel) bytes i inside h =
    bind-Ends (next_marker bytes i) _ (next_marker-Ends bytes i) (λ m eq.
      at m (next_marker-IsMarker bytes i eq) (λ j high h'. end_from-Ends fuel bytes j high h')
        (is_eoi m.1.0))
  where
    at :
        (m : ℕ × (ℕ × ℕ))
        → IsMarker bytes i m
        → ((j : ℕ) → j ≤ length bytes → length bytes < j + fuel → Ends (end_from fuel bytes j))
        → (over : Bool)
        → Ends (elim over as (λ _. Result Failure ℕ) [
          | true ↦ ok m.1.1
          | false ↦ end_step bytes m.1.0 m.1.1 >>= λ j. end_from fuel bytes j
        ])
    at m found later true = λ e. cc e
    at m found later false =
        bind-Ends (end_step bytes m.1.0 m.1.1) _ (end_step-Ends bytes m.1.0 m.1.1) (λ j eq.
          let (low, high) = end_step-bounds bytes m.1.0 m.1.1 found.within eq in
          later j high (omega (arith, found.order, found.next)))

jpeg_header-Ends : (bytes : List ℕ) → Ends (jpeg_header bytes)
unfolding jpeg_header
jpeg_header-Ends bytes =
    at (ltb (length bytes) 4) (not (is_fill (byte bytes 0))) (not (is_soi (byte bytes 1))) refl
  where
    at :
        (short plain other : Bool)
        → ltb (length bytes) 4 ≡ short
        → Ends (
            if short || plain || other
            then err malformed_jpeg
            else header_from (suc (length bytes)) bytes 2 [])
    at false false false eq =
        header_from-Ends (suc (length bytes)) bytes 2 [] (ground (arith, eq)) (omega arith)
    at false false true eq = λ e. cc e
    at false true other eq = λ e. cc e
    at true plain other eq = λ e. cc e

-- Whatever the bytes are, the header's loop, the image's loop and `stripJPEG` end: with bytes or with
-- the error of a malformed JPEG, never for want of fuel, as each round moves the offset on and none
-- passes the end of the bytes.
pub strip_jpeg-Ends :
    (bytes : List ℕ) → (jpeg_header bytes ≢ err out_of_fuel) × (strip_jpeg bytes ≢ err out_of_fuel)
unfolding strip_jpeg jpeg_end
strip_jpeg-Ends bytes = (
  jpeg_header-Ends bytes,
  bind-Ends (jpeg_header bytes) _ (jpeg_header-Ends bytes) (λ h eq.
      let scan = (jpeg_header-IsHeader bytes eq).scan in
      bind-Ends (jpeg_end bytes h.1) _
        (end_from-Ends (suc (length bytes)) bytes h.1 (omega (arith, scan.within)) (omega arith))
        (λ end eq_end e. cc e)),
)
