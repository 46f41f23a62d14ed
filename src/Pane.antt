-- ===== src/Pane.antt =====
-- src/pane.rs: the checks of a pane's options and the header of an encoded image. Bytes are numbers
-- below 256; an index out of bounds, where the code would panic, is an error of its own.
pub mod Headers
pub mod Show
pub mod Presents
mod Tests
use vivid_sdk.Prelude.{
  ◌+◌, ◌-◌, ◌*◌, ◌/◌, ◌%◌, ◌^◌, ◌≤◌, ◌<◌, min, max, ℕ, zero, suc, ◌≡◌, refl, sym, ap, ◌∙◌, ◌≢◌, ◌↔◌,
  ◌⊎◌, inl, inr, Bool, true, false, not, ◌&&◌, ◌||◌, Option, none, some, List, [], ◌∷◌, ◌++◌, map,
  arith, ltb, leb, ◌==◌, if◌then◌else◌, ltb→lt, lt→ltb, leb→le, ==_iff, Bool-cases, Option-cases,
  length, get_elem?, All, length-append, get_elem?-some, Result, ok, err, Result-cases, refused,
  ◌>>=◌, ◌>>◌, refuse_if, or_fail, u32_max, u64_max, saturating_add, saturating_mul, checked_add,
  duration_max, add_duration, as_micros, same_text, same_text-eq,
}

pub data Error : Type 0 where
  zero_dimension bad_text_layer exceeds_geometry : Error
  invalid_marker truncated_segment invalid_frame_header unsupported_image : Error
  exceeds_record exceeds_u64 wrong_rgba_length frames_used_up session_failed : Error
  index_out_of_bounds fuel_used_up : Error

abbrev pub i64_max : ℕ
i64_max = 2 ^ 63 - 1

-- 1 in 32.32 fixed point.
abbrev pub fixed_one : ℕ
fixed_one = 2 ^ 32

unfoldable pub fixed_cells : ℕ → Result Error ℕ
fixed_cells cells = do
  refuse_if (cells == 0) zero_dimension
  if leb (cells * fixed_one) i64_max then ok (cells * fixed_one) else err exceeds_geometry

unfoldable pub validate_dimensions : ℕ → ℕ → Result Error (Unit {0})
validate_dimensions width height = refuse_if (width == 0 || height == 0) zero_dimension

-- `options.columns == Some(0)`.
abbrev pub is_zero : Option ℕ → Bool
is_zero none = false
is_zero (some n) = n == 0

unfoldable pub validate_options : Option ℕ → Option ℕ → ℕ → Result Error (Unit {0})
validate_options columns rows text_layer = do
  refuse_if (is_zero columns || is_zero rows) zero_dimension
  refuse_if (ltb 2 text_layer) bad_text_layer

-- `data[i]`.
abbrev pub byte : List ℕ → ℕ → Result Error ℕ
byte bytes i = or_fail (get_elem? bytes i) index_out_of_bounds

unfoldable pub starts_with : List ℕ → List ℕ → Bool
starts_with bytes [] = true
starts_with [] (q ∷ qs) = false
starts_with (x ∷ xs) (q ∷ qs) = x == q && starts_with xs qs

-- `u16::from_be_bytes` and `u32::from_be_bytes` of the bytes from an index on.
unfoldable pub read_u16 : List ℕ → ℕ → Result Error ℕ
read_u16 bytes i = do a ← byte bytes i; b ← byte bytes (i + 1); ok (a * 256 + b)

unfoldable pub read_u32 : List ℕ → ℕ → Result Error ℕ
read_u32 bytes i = do high ← read_u16 bytes i; low ← read_u16 bytes (i + 2); ok (high * 65536 + low)

abbrev pub png_signature : List ℕ
png_signature = 0x89 ∷ 0x50 ∷ 0x4e ∷ 0x47 ∷ 0x0d ∷ 0x0a ∷ 0x1a ∷ 0x0a ∷ []

abbrev pub jpeg_signature : List ℕ
jpeg_signature = 0xff ∷ 0xd8 ∷ []

-- The number of the format, the width and the height.
abbrev pub ImageInfo : Type 0
ImageInfo = ℕ × ℕ × ℕ

unfoldable pub png_info : List ℕ → Result Error ImageInfo
png_info bytes = do width ← read_u32 bytes 16; height ← read_u32 bytes 20; ok (1, width, height)

-- What one round of the loop over the segments does.
pub data Round : Type 0 where
  goes_on : ℕ → Round
  finds : ImageInfo → Round

-- A segment behind its marker: its length, and the frame header when it is one.
unfoldable pub read_segment : List ℕ → ℕ → ℕ → Result Error Round
read_segment bytes marker offset = do
  size ← read_u16 bytes offset
  refuse_if (ltb size 2 || ltb (length bytes) (offset + size)) truncated_segment
  if leb 0xc0 marker && leb marker 0xc3
      then (do
        refuse_if (ltb size 7) invalid_frame_header
        height ← read_u16 bytes (offset + 3)
        width ← read_u16 bytes (offset + 5)
        ok (finds (2, width, height)))
      else ok (goes_on (offset + size))

unfoldable pub jpeg_round : List ℕ → ℕ → Result Error Round
jpeg_round bytes offset = do
  prefix ← byte bytes offset
  refuse_if (not (prefix == 0xff)) invalid_marker
  marker ← byte bytes (offset + 1)
  if marker == 0xd8 || marker == 0xd9
      then ok (goes_on (offset + 2))
      else read_segment bytes marker (offset + 2)

-- The loop, on fuel.
unfoldable pub jpeg_info : ℕ → List ℕ → ℕ → Result Error ImageInfo
jpeg_info zero bytes offset = err fuel_used_up
jpeg_info (suc fuel) bytes offset =
    if ltb (length bytes) (offset + 4)
    then err unsupported_image
    else elim (jpeg_round bytes offset) [
      | err e ↦ err e
      | ok r ↦ elim r [ finds info ↦ ok info | goes_on next ↦ jpeg_info fuel bytes next ]
    ]

unfoldable pub encoded_image_info : List ℕ → Result Error ImageInfo
encoded_image_info bytes =
    if starts_with bytes png_signature && leb 24 (length bytes)
    then png_info bytes
    else if starts_with bytes jpeg_signature
    then jpeg_info (length bytes) bytes 2
    else err unsupported_image
