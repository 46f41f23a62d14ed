-- ===== src/Pane/Show.antt =====
-- Presenting and clearing an image of a pane in src/pane.rs. A call of the session succeeds or fails
-- as the session decides, which may depend on every call before it.
use vivid_sdk.Prelude.{
  ◌+◌, ◌*◌, min, ℕ, Bool, true, false, not, ◌&&◌, Option, none, some, List, [], ◌∷◌, ◌++◌, ltb, leb,
  ◌==◌, if◌then◌else◌, length, Result, ok, err, ◌>>=◌, ◌>>◌, refuse_if, u32_max, u64_max,
}
use vivid_sdk.Pane.{
  Error, fixed_cells, validate_dimensions, validate_options, encoded_image_info, exceeds_record,
  exceeds_u64, wrong_rgba_length, frames_used_up, session_failed,
}

-- The calls that a pane makes of its session and of a channel, with the IDs of node and surface.
pub data Call : Type 0 where
  creates_surface places_node creates_track opens_channel sends_image activates : ℕ → Call
  deletes_node destroys_surface closes_channel : ℕ → Call

-- What the session answers to a call, after the calls before it.
abbrev pub Oracle : Type 0
Oracle = List Call → Call → Bool

-- `PanePresentation` by its IDs.
pub record Presentation : Type 0 where
  pub surface_id : ℕ
  pub node_id : ℕ

pub record PaneSession : Type 0 where
  pub current : Option Presentation
  pub next_frame_id : ℕ
  pub next_id : ℕ
  pub calls : List Call

-- The claims of a track for an image: extent, record body, bits and pixels.
pub record ImageClaims : Type 0 where
  pub width : ℕ
  pub height : ℕ
  pub record_body : ℕ
  pub bits : ℕ
  pub pixels : ℕ

unfoldable pub checked_u64 : ℕ → Result Error ℕ
checked_u64 n = if leb n u64_max then ok n else err exceeds_u64

-- `show_encoded_image_with_options` up to its call of `present`.
unfoldable pub encoded_claims : List ℕ → Result Error ImageClaims
encoded_claims encoded = do
  (encoding, width, height) ← encoded_image_info encoded
  validate_dimensions width height
  refuse_if (ltb u32_max (length encoded)) exceeds_record
  bits ← checked_u64 (length encoded * 8)
  pixels ← checked_u64 (width * height)
  ok record {
    width = width;
    height = height;
    record_body = length encoded;
    bits = bits;
    pixels = pixels;
  }

-- `show_rgba_with_options` up to its frame ID, on the number of bytes.
unfoldable pub rgba_claims : ℕ → ℕ → ℕ → Result Error ImageClaims
rgba_claims width height rgba_length = do
  validate_dimensions width height
  pixels ← checked_u64 (width * height)
  expected ← checked_u64 (pixels * 4)
  refuse_if (not (rgba_length == expected)) wrong_rgba_length
  body ← checked_u64 (expected + 72)
  refuse_if (ltb u32_max body) exceeds_record
  bits ← checked_u64 (body * 8)
  ok record { width = width; height = height; record_body = body; bits = bits; pixels = pixels }

-- How many IDs a call takes: a track's ID is allocated for its creation. IDs are not used up here.
abbrev pub takes_ids : Call → ℕ
takes_ids (creates_track surface_id) = 1
takes_ids x = 0

module _ (oracle : Oracle) where
  -- One call; the pane goes on with what it answers.
  unfoldable pub call : Call → PaneSession → PaneSession × Bool
  call x s =
      (record s { calls = s.calls ++ x ∷ []; next_id = s.next_id + takes_ids x }, oracle s.calls x)

  -- The calls in this order up to the first that fails (`?`).
  unfoldable pub call_all : List Call → PaneSession → PaneSession × Bool
  call_all [] s = (s, true)
  call_all (x ∷ xs) s =
      let (after, good) = call x s in if good then call_all xs after else (after, false)

  -- All calls, whatever they answer; true when none failed.
  unfoldable pub call_each : List Call → PaneSession → PaneSession × Bool
  call_each [] s = (s, true)
  call_each (x ∷ xs) s =
      let (after, good) = call x s in let (done, rest) = call_each xs after in (done, good && rest)

  unfoldable pub clear : PaneSession → PaneSession × Result Error (Unit {0})
  clear s = elim s.current [
    | none ↦ (s, ok tt)
    | some x ↦
        let (done, good) =
          call_each
            (closes_channel x.surface_id
              ∷ deletes_node x.node_id
              ∷ destroys_surface x.surface_id
              ∷ [])
            (record s { current = none }) in
        (done, if good then ok tt else err session_failed)
  ]

  -- `allocate_id`, where IDs are left.
  abbrev pub take_id : PaneSession → PaneSession
  take_id s = record s { next_id = s.next_id + 1 }

  -- What follows the creation of the surface: the closure, and the clean-up when it fails.
  unfoldable pub present_on :
      Result Error (ℕ × ℕ) → ℕ → ℕ → PaneSession → PaneSession × Result Error (Unit {0})
  present_on (err e) surface_id node_id s =
      ((call_each (deletes_node node_id ∷ destroys_surface surface_id ∷ []) s).0, err e)
  present_on (ok cells) surface_id node_id s =
      let (after, good) =
        call_all
          (places_node node_id
            ∷ creates_track surface_id
            ∷ opens_channel surface_id
            ∷ sends_image surface_id
            ∷ activates surface_id
            ∷ [])
          s in
      if good
      then (
        record after { current = some (record { surface_id = surface_id; node_id = node_id }) },
        ok tt,
      )
      else (
        (call_each (deletes_node node_id ∷ destroys_surface surface_id ∷ []) after).0,
        err session_failed,
      )

  -- The extent of the placement in cells: what was asked for, or at most the default.
  unfoldable pub cells_of : ℕ → Option ℕ → ℕ → Result Error ℕ
  cells_of limit asked size = elim asked [
    | none ↦ fixed_cells (min size limit)
    | some n ↦ fixed_cells n
  ]

  -- `present`; the limits are `DEFAULT_MAX_COLUMNS` and `DEFAULT_MAX_ROWS`.
  unfoldable pub present :
      ℕ
      → ℕ
      → Option ℕ
      → Option ℕ
      → ℕ
      → ImageClaims
      → PaneSession
      → PaneSession × Result Error (Unit {0})
  present max_columns max_rows columns rows text_layer x s =
      elim (validate_options columns rows text_layer) [
        | err e ↦ (s, err e)
        | ok u ↦
            let (cleared, result) = clear s in
            elim result [
              | err e ↦ (cleared, err e)
              | ok w ↦
                  let surface_id = cleared.next_id in
                  let node_id = cleared.next_id + 1 in
                  let (created, good) =
                    call (creates_surface surface_id) (take_id (take_id cleared)) in
                  if good
                  then present_on
                      (do
                        c ← cells_of max_columns columns x.width
                        r ← cells_of max_rows rows x.height
                        ok (c, r))
                      surface_id node_id created
                  else (created, err session_failed)
            ]
      ]

  unfoldable pub show_encoded_image :
      ℕ → ℕ → Option ℕ → Option ℕ → ℕ → List ℕ → PaneSession → PaneSession × Result Error (Unit {0})
  show_encoded_image max_columns max_rows columns rows text_layer encoded s =
      elim (encoded_claims encoded) [
        | err e ↦ (s, err e)
        | ok x ↦ present max_columns max_rows columns rows text_layer x s
      ]

  -- The frame ID is taken before anything is presented.
  unfoldable pub show_rgba :
      ℕ
      → ℕ
      → Option ℕ
      → Option ℕ
      → ℕ
      → ℕ
      → ℕ
      → ℕ
      → PaneSession
      → PaneSession × Result Error (Unit {0})
  show_rgba max_columns max_rows columns rows text_layer width height rgba_length s =
      elim (rgba_claims width height rgba_length) [
        | err e ↦ (s, err e)
        | ok x ↦
            if leb (s.next_frame_id + 1) u64_max
            then present max_columns max_rows columns rows text_layer x
                (record s { next_frame_id = s.next_frame_id + 1 })
            else (s, err frames_used_up)
      ]
