-- ===== src/Pane/Headers.antt =====
-- The header scan of src/pane.rs stays within the data and ends.
use vivid_sdk.Prelude.{
  ◌+◌, ◌*◌, ◌/◌, ◌%◌, ◌≤◌, ◌<◌, ℕ, zero, suc, ◌≡◌, refl, ◌≢◌, inl, inr, true, ◌&&◌, ◌||◌, List, [],
  ◌∷◌, ◌++◌, arith, ltb, leb, ◌==◌, Bool-cases, length, get_elem?-some, Result, ok, err,
}
use vivid_sdk.Pane.{
  truncated_segment, invalid_frame_header, invalid_marker, Error, index_out_of_bounds, fuel_used_up,
  byte, starts_with, read_u16, read_u32, png_signature, jpeg_signature, ImageInfo, png_info, Round,
  goes_on, finds, read_segment, jpeg_round, jpeg_info, encoded_image_info,
}

-- A result that is neither an index out of bounds nor a loop cut short.
abbrev pub IsSafe : {A : Type 0} → Result Error A → Type 0
IsSafe r = (r ≢ err index_out_of_bounds) × (r ≢ err fuel_used_up)

byte_at : (bytes : List ℕ) (i : ℕ) → i < length bytes → (x : ℕ) × (byte bytes i ≡ ok x)
byte_at bytes i h = let (x, e) = get_elem?-some bytes i h in (x, ground arith)

read_u16_at : (bytes : List ℕ) (i : ℕ) → i + 2 ≤ length bytes → (x : ℕ) × (read_u16 bytes i ≡ ok x)
unfolding read_u16
read_u16_at bytes i h =
    let (a, e) = byte_at bytes i (omega arith) in
    let (b, g) = byte_at bytes (i + 1) (omega arith) in (a * 256 + b, rw (e, g) refl)

read_u32_at : (bytes : List ℕ) (i : ℕ) → i + 4 ≤ length bytes → (x : ℕ) × (read_u32 bytes i ≡ ok x)
unfolding read_u32
read_u32_at bytes i h =
    let (a, e) = read_u16_at bytes i (omega arith) in
    let (b, g) = read_u16_at bytes (i + 2) (omega arith) in (a * 65536 + b, rw (e, g) refl)

-- What a round may do: go on at least two bytes further, find an image, or fail.
data Advances (bytes : List ℕ) (offset : ℕ) : Result Error Round → Type 0 where
  advances : (next : ℕ) → offset + 2 ≤ next → Advances bytes offset (ok (goes_on next))
  stops : (info : ImageInfo) → Advances bytes offset (ok (finds info))
  fails : (e : Error) → e ≢ index_out_of_bounds → e ≢ fuel_used_up → Advances bytes offset (err e)

read_segment-Advances :
    (bytes : List ℕ) (marker offset : ℕ)
    → offset + 4 ≤ length bytes
    → Advances bytes offset (read_segment bytes marker (offset + 2))
unfolding read_segment
read_segment-Advances bytes marker offset h =
    let (size, e) = read_u16_at bytes (offset + 2) (omega arith) in
    elim (Bool-cases (ltb size 2 || ltb (length bytes) (offset + 2 + size))) [
      | inl short ↦ rw (e, short) (fails truncated_segment (λ d. ground arith) (λ d. ground arith))
      | inr whole ↦ elim (Bool-cases (leb 0xc0 marker && leb marker 0xc3)) [
        | inr other ↦ rw (e, whole, other) (advances (offset + 2 + size) (omega arith))
        | inl frame ↦ elim (Bool-cases (ltb size 7)) [
          | inl small ↦
              rw (e, whole, frame, small)
                (fails invalid_frame_header (λ d. ground arith) (λ d. ground arith))
          | inr fits ↦
              let (height, g) = read_u16_at bytes (offset + 2 + 3) (ground arith) in
              let (width, k) = read_u16_at bytes (offset + 2 + 5) (ground arith) in
              rw (e, whole, frame, fits, g, k) (stops (2, width, height))
        ]
      ]
    ]

jpeg_round-Advances :
    (bytes : List ℕ) (offset : ℕ)
    → offset + 4 ≤ length bytes
    → Advances bytes offset (jpeg_round bytes offset)
unfolding jpeg_round
jpeg_round-Advances bytes offset h =
    let (first, e) = byte_at bytes offset (omega arith) in
    let (marker, g) = byte_at bytes (offset + 1) (omega arith) in
    elim (Bool-cases (first == 0xff)) [
      | inr other ↦ rw (e, other) (fails invalid_marker (λ d. ground arith) (λ d. ground arith))
      | inl same ↦ elim (Bool-cases (marker == 0xd8 || marker == 0xd9)) [
        | inl bare ↦ rw (e, same, g, bare) (advances (offset + 2) (omega arith))
        | inr segment ↦ rw (e, same, g, segment) (read_segment-Advances bytes marker offset h)
      ]
    ]

-- What the loop makes of a round, with `k` for the rounds after it.
after_round-IsSafe :
    (bytes : List ℕ) (offset : ℕ) (k : ℕ → Result Error ImageInfo)
    → ((next : ℕ) → offset + 2 ≤ next → IsSafe (k next))
    → (r : Result Error Round) → Advances bytes offset r
    → IsSafe
        (elim r [ err e ↦ err e | ok x ↦ elim x [ finds info ↦ ok info | goes_on next ↦ k next ] ])
after_round-IsSafe bytes offset k safe _ (advances next h) = safe next h
after_round-IsSafe bytes offset k safe _ (stops info) = (λ d. ground arith, λ d. ground arith)
after_round-IsSafe bytes offset k safe _ (fails e a b) =
    (λ d. a (ground arith), λ d. b (ground arith))

-- Fuel for the bytes that are left is enough.
jpeg_info-IsSafe :
    (fuel : ℕ) (bytes : List ℕ) (offset : ℕ)
    → 0 < fuel
    → length bytes < fuel + offset
    → IsSafe (jpeg_info fuel bytes offset)
unfolding jpeg_info
jpeg_info-IsSafe zero bytes offset some_ h = absurd (omega arith)
jpeg_info-IsSafe (suc fuel) bytes offset some_ h =
    elim (Bool-cases (ltb (length bytes) (offset + 4))) [
      | inl over ↦ rw over (λ d. ground arith, λ d. ground arith)
      | inr more ↦
          let room : offset + 4 ≤ length bytes = ground arith in
          rw more (
            after_round-IsSafe bytes offset (jpeg_info fuel bytes)
              (λ next k. jpeg_info-IsSafe fuel bytes next (omega arith) (omega arith))
              (jpeg_round bytes offset) (jpeg_round-Advances bytes offset room))
    ]

png_info-IsSafe : (bytes : List ℕ) → 24 ≤ length bytes → IsSafe (png_info bytes)
unfolding png_info
png_info-IsSafe bytes h =
    let (width, e) = read_u32_at bytes 16 (omega arith) in
    let (height, g) = read_u32_at bytes 20 (omega arith) in
    rw (e, g) (λ d. ground arith, λ d. ground arith)

jpeg_is_long : (bytes : List ℕ) → starts_with bytes jpeg_signature ≡ true → 0 < length bytes
unfolding starts_with
jpeg_is_long [] h = absurd (ground arith)
jpeg_is_long (x ∷ xs) h = omega arith

-- Of any data at all, the scan of an image header reads no byte that is not there, and its loop ends
-- within one round per byte.
pub encoded_image_info-IsSafe : (bytes : List ℕ) → IsSafe (encoded_image_info bytes)
unfolding encoded_image_info
encoded_image_info-IsSafe bytes =
    elim (Bool-cases (starts_with bytes png_signature && leb 24 (length bytes))) [
      | inl png ↦ rw (png, encoded_image_info) (png_info-IsSafe bytes (ground arith))
      | inr other ↦ elim (Bool-cases (starts_with bytes jpeg_signature)) [
        | inl jpeg ↦
            let some_ = jpeg_is_long bytes jpeg in
            rw (other, encoded_image_info, jpeg)
              (jpeg_info-IsSafe (length bytes) bytes 2 some_ (omega arith))
        | inr none_ ↦ rw (other, encoded_image_info, none_) (λ d. ground arith, λ d. ground arith)
      ]
    ]

-- The four bytes of a number, the greatest first.
abbrev pub to_be_bytes : ℕ → List ℕ
to_be_bytes n = n / 16777216 ∷ n / 65536 % 256 ∷ n / 256 % 256 ∷ n % 256 ∷ []

-- A PNG with its length and type of chunk before the extent.
abbrev pub png_header : ℕ → ℕ → ℕ → ℕ → List ℕ → List ℕ
png_header chunk_length chunk_type width height rest =
    png_signature
    ++ to_be_bytes chunk_length
    ++ to_be_bytes chunk_type
    ++ to_be_bytes width
    ++ to_be_bytes height
    ++ rest

be_bytes_value :
    (n : ℕ) → (n / 16777216 * 256 + n / 65536 % 256) * 65536 + (n / 256 % 256 * 256 + n % 256) ≡ n
be_bytes_value n = omega arith

png_header_long :
    (chunk_length chunk_type width height : ℕ) (rest : List ℕ)
    → leb 24 (length (png_header chunk_length chunk_type width height rest)) ≡ true
png_header_long chunk_length chunk_type width height rest = ground arith

-- The extent that stands in the header of a PNG, as four bytes each, is read back.
pub png_extent-roundtrip :
    (chunk_length chunk_type width height : ℕ) (rest : List ℕ)
    → encoded_image_info (png_header chunk_length chunk_type width height rest)
      ≡ ok (1, width, height)
unfolding encoded_image_info starts_with png_info read_u32 read_u16
png_extent-roundtrip chunk_length chunk_type width height rest =
    rw
      (
        png_header_long chunk_length chunk_type width height rest,
        be_bytes_value width,
        be_bytes_value height,
      )
      refl
