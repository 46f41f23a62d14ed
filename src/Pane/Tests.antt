-- ===== src/Pane/Tests.antt =====
-- Images and presentations of src/pane.rs, and instances of the theorems.
use vivid_sdk.Prelude.{ℕ, ◌≡◌, refl, not, none, List, [], ◌∷◌, ◌==◌, length, ok, err}
use vivid_sdk.Pane.{
  truncated_segment, starts_with, read_u16, read_segment, jpeg_round, jpeg_info, encoded_image_info,
  validate_dimensions, validate_options, fixed_cells,
}
use vivid_sdk.Pane.Headers.{IsSafe, encoded_image_info-IsSafe, png_header, png_extent-roundtrip}
use vivid_sdk.Pane.Show.{
  Oracle, PaneSession, ImageClaims, checked_u64, rgba_claims, call, call_all, call_each, clear,
  present_on, cells_of, present,
}
use vivid_sdk.Pane.Presents.{Presents}

-- A JPEG with an application segment before its frame header.
abbrev jpeg : List ℕ
jpeg =
    0xff ∷ 0xd8 ∷ 0xff ∷ 0xe0 ∷ 0 ∷ 4 ∷ 7 ∷ 7 ∷ 0xff ∷ 0xc0 ∷ 0 ∷ 11 ∷ 8 ∷ 1 ∷ 224 ∷ 2 ∷ 128 ∷ 3 ∷ 0
    ∷ 0 ∷ 0 ∷ []

jpeg_extent : encoded_image_info jpeg ≡ ok (2, 640, 480)
unfolding encoded_image_info starts_with jpeg_info jpeg_round read_segment read_u16
jpeg_extent = refl

jpeg_cut_short : encoded_image_info (0xff ∷ 0xd8 ∷ 0xff ∷ 0xe0 ∷ 0 ∷ 9 ∷ []) ≡ err truncated_segment
unfolding encoded_image_info starts_with jpeg_info jpeg_round read_segment read_u16
jpeg_cut_short = refl

encoded_image_info-IsSafe_example : IsSafe (encoded_image_info jpeg)
encoded_image_info-IsSafe_example = encoded_image_info-IsSafe jpeg

png_extent-roundtrip_example :
    encoded_image_info (png_header 13 1229472850 640 480 (8 ∷ [])) ≡ ok (1, 640, 480)
png_extent-roundtrip_example = png_extent-roundtrip 13 1229472850 640 480 (8 ∷ [])

abbrev small : ImageClaims
small = record { width = 2; height = 3; record_body = 96; bits = 768; pixels = 6 }

rgba_valid : rgba_claims 2 3 24 ≡ ok small
unfolding rgba_claims validate_dimensions checked_u64
rgba_valid = refl

abbrev idle : PaneSession
idle = record { current = none; next_frame_id = 1; next_id = 1; calls = [] }

-- A session that refuses the call after the first five.
abbrev sixth_fails : Oracle
sixth_fails calls x = not (length calls == 5)

failed_presentation : (present sixth_fails 80 24 none none 0 small idle).0.current ≡ none
unfolding present clear call present_on cells_of fixed_cells call_all call_each validate_options
failed_presentation = refl
