-- ===== src/Imaging/Jpeg/Stripped.antt =====
-- internal/imaging/jpeg.go: what `stripJPEG` returns.
use eika.Common.{
  ℕ, suc, ◌+◌, ◌≤◌, ◌≡◌, refl, sym, ap, ◌∙◌, subst, inl, inr, Bool, true, false, List, [], ◌∷◌,
  ◌++◌, length, length-append, arith, ltb, if◌then◌else◌, ok, >>=-ok, All,
}
use eika.Imaging.Jpeg.{
  Segment, slice, is_fill, is_soi, jpeg_header, jpeg_end, keep_segment, kept_bytes, strip_jpeg,
}
use eika.Imaging.Jpeg.Parsed.{IsSegment, IsScan, jpeg_header-IsHeader}
use eika.Imaging.Jpeg.Rewritten.{written, header_from-written}
use eika.Imaging.Jpeg.Exif.{jpeg_orientation, orientation_of-kept, jpeg_orientation-header}
use eika.Imaging.Jpeg.End.{jpeg_end-scan, slice-IsScan}

-- The segments that are kept.
abbrev pub kept : List Segment → List Segment
kept [] = []
kept (s ∷ segments) = let rest = kept segments in if keep_segment s then s ∷ rest else rest

kept_bytes-written : (segments : List Segment) → kept_bytes segments ≡ written (kept segments)
unfolding kept_bytes
kept_bytes-written [] = refl
kept_bytes-written (s ∷ segments) = choose (keep_segment s) (kept_bytes-written segments)
  where
    choose :
        (keep : Bool)
        → kept_bytes segments ≡ written (kept segments)
        → (if keep then s.data_bytes ++ kept_bytes segments else kept_bytes segments)
          ≡ written (if keep then s ∷ kept segments else kept segments)
    choose true e = ap (λ l. s.data_bytes ++ l) e
    choose false e = e

kept-All :
    (segments : List Segment)
    → All IsSegment segments
    → All IsSegment (kept segments) × All (λ s. keep_segment s ≡ true) (kept segments)
kept-All [] good = (tt, tt)
kept-All (s ∷ segments) (fits, good) = choose (keep_segment s) refl (kept-All segments good)
  where
    choose :
        (keep : Bool)
        → keep_segment s ≡ keep
        → All IsSegment (kept segments) × All (λ x. keep_segment x ≡ true) (kept segments)
        → All IsSegment (if keep then s ∷ kept segments else kept segments)
          × All (λ x. keep_segment x ≡ true) (if keep then s ∷ kept segments else kept segments)
    choose true eq (rest, clean) = ((fits, rest), (eq, clean))
    choose false eq later = later

-- Each segment has two bytes at least, so there are fewer of them than bytes.
length-written :
    (segments : List Segment) → All IsSegment segments → length segments ≤ length (written segments)
length-written [] good = omega arith
length-written (s ∷ segments) (fits, good) =
    let size : 2 ≤ length s.data_bytes = elim fits.shape [
      | inl (_, two) ↦ omega (arith, two)
      | inr (_, (_, more)) ↦ omega (arith, more)
    ] in
    omega (arith, length-written segments good, length-append s.data_bytes (written segments))

-- The bytes of an image with these segments and this rest.
abbrev image : List Segment → List ℕ → List ℕ
image segments back = 0xff ∷ 0xd8 ∷ (written segments ++ back)

jpeg_header-image :
    (segments : List Segment) (back : List ℕ)
    → All IsSegment segments
    → IsScan back 0
    → jpeg_header (image segments back) ≡ ok (segments, 2 + length (written segments))
unfolding jpeg_header is_fill is_soi
jpeg_header-image segments back good scan =
    let total = length-append (written segments) back in
    let long : ltb (length (image segments back)) 4 ≡ false = ground (arith, total, scan.within) in
    rw long (
      header_from-written segments (0xff ∷ 0xd8 ∷ []) back (suc (length (image segments back))) []
        good scan (omega (arith, total, length-written segments good)))

-- What a stripped image is: a JPEG whose header has exactly the segments of the given image that are
-- kept, byte for byte and in order, followed by the image from its first scan to its end.
pub record IsStripped (bytes out : List ℕ) : Type 0 where
  pub header : List Segment × ℕ
  pub end : ℕ
  pub read : jpeg_header bytes ≡ ok header
  pub read_end : jpeg_end bytes header.1 ≡ ok end
  pub same_header : jpeg_header out ≡ ok (kept header.0, 2 + length (written (kept header.0)))
  pub same_image : out ≡ image (kept header.0) (slice bytes header.1 end)
  pub clean : All (λ s. keep_segment s ≡ true) (kept header.0)
  pub upright : jpeg_orientation out ≡ 1

-- Whenever `stripJPEG` returns bytes, they are a JPEG again: its header, read back, has exactly those
-- segments of the given image that `keepSegment` keeps, unchanged and in order, and what follows is
-- the given image from its first scan to the end of the image. No EXIF orientation is left to read.
pub strip_jpeg-IsStripped :
    (bytes : List ℕ) {out : List ℕ} → strip_jpeg bytes ≡ ok out → IsStripped bytes out
unfolding strip_jpeg
strip_jpeg-IsStripped bytes {out = out} done =
    let (h, read, rest) = >>=-ok (jpeg_header bytes) _ done in
    let (end, read_end, last) = >>=-ok (jpeg_end bytes h.1) _ rest in
    let header = jpeg_header-IsHeader bytes read in
    let segments : All IsSegment h.0 = subst (All IsSegment) (sym header.all) header.segments in
    let (good, clean) = kept-All h.0 segments in
    let (reach, inside) = jpeg_end-scan bytes h.1 header.scan read_end in
    let scan = slice-IsScan bytes h.1 end header.scan reach inside in
    let same : image (kept h.0) (slice bytes h.1 end) ≡ out =
      ap (λ l. 0xff ∷ 0xd8 ∷ (l ++ slice bytes h.1 end)) (sym (kept_bytes-written h.0)) ∙ cc last in
    let same_header =
      ap jpeg_header (sym same) ∙ jpeg_header-image (kept h.0) (slice bytes h.1 end) good scan in
    record {
      header = h;
      end = end;
      read = read;
      read_end = read_end;
      same_header = same_header;
      same_image = sym same;
      clean = clean;
      upright =
          jpeg_orientation-header out (kept h.0) _ same_header
          ∙ orientation_of-kept (kept h.0) clean;
    }
