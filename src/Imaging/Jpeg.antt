-- ===== src/Imaging/Jpeg.antt =====
-- internal/imaging/jpeg.go: the marker segments of a JPEG and the bytes that are kept of it. A byte is
-- a natural number and an offset an index into the list of bytes. A loop that moves an offset byte by
-- byte is a recursion over the bytes from there on; a loop from segment to segment runs on fuel, one
-- more than the number of bytes.
pub mod Exif
pub mod Offsets
pub mod Parsed
pub mod Rewritten
pub mod End
pub mod Stripped
pub mod Total
use eika.Common.{
  ℕ, zero, suc, ◌+◌, ◌-◌, ◌*◌, Bool, true, false, ◌&&◌, ◌||◌, not, List, [], ◌∷◌, ◌++◌, length,
  get_or, take, drop, ltb, leb, ◌==◌, if◌then◌else◌, Result, err, ok, ◌>>=◌,
}

-- `out_of_fuel` is of the model.
pub data Failure : Type 0 where
  malformed_jpeg out_of_fuel : Failure

pub record Segment : Type 0 where
  pub marker : ℕ
  pub data_bytes : List ℕ

-- `data[i]`, which is only read in range.
abbrev pub byte : List ℕ → ℕ → ℕ
byte bytes i = get_or bytes i 0

-- `data[from:to]`
abbrev pub slice : List ℕ → ℕ → ℕ → List ℕ
slice bytes from to = take (to - from) (drop from bytes)

unfoldable pub is_fill : ℕ → Bool
is_fill b = b == 0xff

unfoldable pub is_rst : ℕ → Bool
is_rst m = leb 0xd0 m && leb m 0xd7

unfoldable pub is_soi : ℕ → Bool
is_soi m = m == 0xd8

unfoldable pub is_eoi : ℕ → Bool
is_eoi m = m == 0xd9

unfoldable pub is_sos : ℕ → Bool
is_sos m = m == 0xda

unfoldable pub standalone : ℕ → Bool
unfolding is_rst
standalone m = (m == 0x01) || is_rst m

unfoldable pub payload : Segment → List ℕ
payload s = if ltb (length s.data_bytes) 4 then [] else drop 4 s.data_bytes

-- The loop of `nextMarker`, over the bytes from `i` on.
unfoldable pub skip_fill : List ℕ → ℕ → ℕ
skip_fill [] i = i
skip_fill (b ∷ bytes) i = let next = skip_fill bytes (suc i) in if is_fill b then next else i

unfoldable pub next_marker : List ℕ → ℕ → Result Failure (ℕ × (ℕ × ℕ))
unfolding skip_fill
next_marker bytes i =
    if not (ltb i (length bytes)) || not (is_fill (byte bytes i))
    then err malformed_jpeg
    else (let j = skip_fill (drop i bytes) i in
        if ltb j (length bytes) then ok (j - 1, (byte bytes j, suc j)) else err malformed_jpeg)

-- `binary.BigEndian.Uint16(data[i:])`
abbrev pub big_endian : List ℕ → ℕ → ℕ
big_endian bytes i = byte bytes i * 256 + byte bytes (suc i)

unfoldable pub segment_end : List ℕ → ℕ → Result Failure ℕ
segment_end bytes i =
    let n = big_endian bytes i in
    if ltb (length bytes) (i + 2)
    then err malformed_jpeg
    else if ltb n 2 || ltb (length bytes) (i + n)
    then err malformed_jpeg
    else ok (i + n)

-- Where a header's segment ends: after its marker, or after its length and payload.
unfoldable pub header_end : List ℕ → ℕ → ℕ → Result Failure ℕ
unfolding segment_end
header_end bytes marker next =
    if standalone marker
    then ok next
    else if is_soi marker || is_eoi marker
    then err malformed_jpeg
    else segment_end bytes next

-- The loop of `jpegHeader`.
unfoldable pub header_from : ℕ → List ℕ → ℕ → List Segment → Result Failure (List Segment × ℕ)
unfolding next_marker header_end
header_from zero bytes i out = err out_of_fuel
header_from (suc fuel) bytes i out = next_marker bytes i >>= λ m.
    header_end bytes m.1.0 m.1.1 >>= λ end. elim (is_sos m.1.0) [
      | true ↦ ok (out, m.0)
      | false ↦
          header_from fuel bytes end
            (out ++ record { marker = m.1.0; data_bytes = slice bytes m.0 end } ∷ [])
    ]

unfoldable pub jpeg_header : List ℕ → Result Failure (List Segment × ℕ)
unfolding header_from
jpeg_header bytes =
    if ltb (length bytes) 4 || not (is_fill (byte bytes 0)) || not (is_soi (byte bytes 1))
    then err malformed_jpeg
    else header_from (suc (length bytes)) bytes 2 []

-- Over the bytes from `i` on.
unfoldable pub skip_entropy : List ℕ → ℕ → ℕ
unfolding is_rst
skip_entropy [] i = i
skip_entropy (b ∷ []) i = suc i
skip_entropy (b ∷ m ∷ bytes) i =
    let one = skip_entropy (m ∷ bytes) (suc i) in
    let two = skip_entropy bytes (suc (suc i)) in
    elim (is_fill b) [
      | false ↦ one
      | true ↦ if (m == 0) || is_rst m then two else if is_fill m then one else i
    ]

-- Where the loop of `jpegEnd` goes on.
unfoldable pub end_step : List ℕ → ℕ → ℕ → Result Failure ℕ
unfolding segment_end skip_entropy
end_step bytes marker next =
    if standalone marker
    then ok next
    else segment_end bytes next >>= λ j.
        ok (if is_sos marker then skip_entropy (drop j bytes) j else j)

unfoldable pub end_from : ℕ → List ℕ → ℕ → Result Failure ℕ
unfolding next_marker end_step
end_from zero bytes i = err out_of_fuel
end_from (suc fuel) bytes i = next_marker bytes i >>= λ m. elim (is_eoi m.1.0) [
  | true ↦ ok m.1.1
  | false ↦ end_step bytes m.1.0 m.1.1 >>= λ j. end_from fuel bytes j
]

unfoldable pub jpeg_end : List ℕ → ℕ → Result Failure ℕ
unfolding end_from
jpeg_end bytes scan = end_from (suc (length bytes)) bytes scan

-- `bytes.HasPrefix`
unfoldable pub has_prefix : List ℕ → List ℕ → Bool
has_prefix bytes [] = true
has_prefix [] (p ∷ prefix) = false
has_prefix (b ∷ bytes) (p ∷ prefix) = (b == p) && has_prefix bytes prefix

-- "ICC_PROFILE\x00"
abbrev pub icc_profile : List ℕ
icc_profile = 0x49 ∷ 0x43 ∷ 0x43 ∷ 0x5f ∷ 0x50 ∷ 0x52 ∷ 0x4f ∷ 0x46 ∷ 0x49 ∷ 0x4c ∷ 0x45 ∷ 0x00 ∷ []

unfoldable pub keep_segment : Segment → Bool
unfolding payload has_prefix
keep_segment s =
    if s.marker == 0xfe
    then false
    else if (s.marker == 0xe0) || (s.marker == 0xee)
    then true
    else if s.marker == 0xe2
    then has_prefix (payload s) icc_profile
    else if leb 0xe0 s.marker && leb s.marker 0xef
    then false
    else true

-- The bytes of the segments that are kept.
unfoldable pub kept_bytes : List Segment → List ℕ
unfolding keep_segment
kept_bytes [] = []
kept_bytes (s ∷ segments) =
    let rest = kept_bytes segments in if keep_segment s then s.data_bytes ++ rest else rest

unfoldable pub strip_jpeg : List ℕ → Result Failure (List ℕ)
unfolding jpeg_header jpeg_end kept_bytes
strip_jpeg bytes = jpeg_header bytes >>= λ h.
    jpeg_end bytes h.1 >>= λ end. ok (0xff ∷ 0xd8 ∷ (kept_bytes h.0 ++ slice bytes h.1 end))
