-- ===== src/Imaging/Jpeg/Exif.antt =====
-- internal/imaging/jpeg.go: how a camera was held, from the EXIF segment.
use eika.Common.{
  ℕ, zero, suc, ◌+◌, ◌*◌, ◌≡◌, refl, ap, true, false, ◌&&◌, ◌||◌, not, List, [], ◌∷◌, Option, none,
  some, length, drop, ltb, leb, ◌==◌, ==_iff, if◌then◌else◌, err, ok, All, Bool-cases, inl, inr,
}
use eika.Imaging.Jpeg.{Segment, byte, payload, has_prefix, jpeg_header, keep_segment}

-- `binary.ByteOrder`
pub data ByteOrder : Type 0 where
  little_endian big_endian_order : ByteOrder

-- "II" and "MM"
abbrev pub byte_order : ℕ → ℕ → Option ByteOrder
byte_order a b =
    if (a == 0x49) && (b == 0x49)
    then some little_endian
    else if (a == 0x4d) && (b == 0x4d)
    then some big_endian_order
    else none

abbrev pub uint16 : ByteOrder → List ℕ → ℕ → ℕ
uint16 little_endian bytes i = byte bytes i + byte bytes (suc i) * 256
uint16 big_endian_order bytes i = byte bytes i * 256 + byte bytes (suc i)

abbrev pub uint32 : ByteOrder → List ℕ → ℕ → ℕ
uint32 little_endian bytes i =
    uint16 little_endian bytes i + uint16 little_endian bytes (i + 2) * 65536
uint32 big_endian_order bytes i =
    uint16 big_endian_order bytes i * 65536 + uint16 big_endian_order bytes (i + 2)

-- The loop over the `count` entries that are left, the next one at `entry`.
unfoldable pub orientation_in : ℕ → ByteOrder → List ℕ → ℕ → ℕ
orientation_in zero order tiff entry = 1
orientation_in (suc count) order tiff entry =
    let next = orientation_in count order tiff (entry + 12) in
    let v = uint16 order tiff (entry + 8) in
    if ltb (length tiff) (entry + 12)
    then 1
    else if not (uint16 order tiff entry == 0x0112)
    then next
    else if not (uint16 order tiff (entry + 2) == 3)
    then 1
    else if leb 1 v && leb v 8
    then v
    else 1

unfoldable pub exif_orientation : List ℕ → ℕ
unfolding orientation_in
exif_orientation tiff =
    if ltb (length tiff) 8 then 1 else elim (byte_order (byte tiff 0) (byte tiff 1)) [
      | none ↦ 1
      | some order ↦
          let ifd = uint32 order tiff 4 in
          if not (uint16 order tiff 2 == 42)
          then 1
          else if ltb ifd 8 || ltb (length tiff) (ifd + 2)
          then 1
          else orientation_in (uint16 order tiff ifd) order tiff (ifd + 2)
    ]

-- "Exif\x00\x00"
abbrev pub exif_header : List ℕ
exif_header = 0x45 ∷ 0x78 ∷ 0x69 ∷ 0x66 ∷ 0x00 ∷ 0x00 ∷ []

unfoldable pub orientation_of : List Segment → ℕ
unfolding exif_orientation
orientation_of [] = 1
orientation_of (s ∷ segments) =
    let rest = orientation_of segments in
    if (s.marker == 0xe1) && has_prefix (payload s) exif_header
    then exif_orientation (drop 6 (payload s))
    else rest

unfoldable pub jpeg_orientation : List ℕ → ℕ
unfolding orientation_of
jpeg_orientation bytes = elim (jpeg_header bytes) [ err e ↦ 1 | ok h ↦ orientation_of h.0 ]

-- A segment that is kept is no EXIF segment.
kept_no_exif : (s : Segment) → keep_segment s ≡ true → (s.marker == 0xe1) ≡ false
unfolding keep_segment
kept_no_exif s keep = elim (Bool-cases (s.marker == 0xe1)) [
  | inr other ↦ other
  | inl same ↦ absurd (dropped s.marker s.data_bytes ((==_iff s.marker 0xe1).0 same) keep)
]
  where
    dropped :
        (marker : ℕ) (bytes : List ℕ)
        → marker ≡ 0xe1
        → keep_segment (record { marker = marker; data_bytes = bytes }) ≡ true
        → ⊥
    dropped marker bytes same keep =
        let e : keep_segment (record { marker = 0xe1; data_bytes = bytes }) ≡ false = refl in
        cc (ap (λ m. keep_segment (record { marker = m; data_bytes = bytes })) same, e, keep)

pub orientation_of-kept :
    (segments : List Segment)
    → All (λ s. keep_segment s ≡ true) segments
    → orientation_of segments ≡ 1
unfolding orientation_of
orientation_of-kept [] clean = refl
orientation_of-kept (s ∷ segments) (keep, clean) =
    rw (kept_no_exif s keep) (orientation_of-kept segments clean)

pub jpeg_orientation-header :
    (bytes : List ℕ) (segments : List Segment) (scan : ℕ)
    → jpeg_header bytes ≡ ok (segments, scan)
    → jpeg_orientation bytes ≡ orientation_of segments
unfolding jpeg_orientation
jpeg_orientation-header bytes segments scan read =
    ap (λ r. elim r as (λ _. ℕ) [ err e ↦ 1 | ok h ↦ orientation_of h.0 ]) read
