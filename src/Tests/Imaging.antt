-- ===== src/Tests/Imaging.antt =====
-- Runs of internal/imaging/jpeg.go.
use eika.Common.{ℕ, ◌≡◌, ◌≢◌, refl, List, [], ◌∷◌, err, ok}
use eika.Imaging.Jpeg.{
  out_of_fuel, strip_jpeg, jpeg_header, is_fill, is_rst, is_soi, is_eoi, is_sos, standalone,
}
use eika.Imaging.Jpeg.Stripped.{IsStripped, strip_jpeg-IsStripped}
use eika.Imaging.Jpeg.Total.{strip_jpeg-Ends}

-- An EXIF segment, a JFIF segment after fill bytes, a comment, a scan and bytes behind the image.
abbrev photo : List ℕ
photo =
    0xff ∷ 0xd8 ∷ 0xff ∷ 0xe1 ∷ 0x00 ∷ 0x04 ∷ 0x45 ∷ 0x78 ∷ 0xff ∷ 0xff ∷ 0xff ∷ 0xe0 ∷ 0x00 ∷ 0x03
    ∷ 0x01 ∷ 0xff ∷ 0xfe ∷ 0x00 ∷ 0x02 ∷ 0xff ∷ 0xda ∷ 0x00 ∷ 0x02 ∷ 0x55 ∷ 0xff ∷ 0x00 ∷ 0x66
    ∷ 0xff ∷ 0xd9 ∷ 0x77 ∷ []

abbrev plain_photo : List ℕ
plain_photo =
    0xff ∷ 0xd8 ∷ 0xff ∷ 0xe0 ∷ 0x00 ∷ 0x03 ∷ 0x01 ∷ 0xff ∷ 0xda ∷ 0x00 ∷ 0x02 ∷ 0x55 ∷ 0xff ∷ 0x00
    ∷ 0x66 ∷ 0xff ∷ 0xd9 ∷ []

stripped : strip_jpeg photo ≡ ok plain_photo
unfolding strip_jpeg is_fill is_soi is_eoi is_sos standalone is_rst
stripped = refl

strip_jpeg-IsStripped_example : IsStripped photo plain_photo
strip_jpeg-IsStripped_example = strip_jpeg-IsStripped photo stripped

strip_jpeg-Ends_example :
    (jpeg_header photo ≢ err out_of_fuel) × (strip_jpeg photo ≢ err out_of_fuel)
strip_jpeg-Ends_example = strip_jpeg-Ends photo
