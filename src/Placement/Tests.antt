-- ===== src/Placement/Tests.antt =====
-- Placements of src/scene.rs on the grids of its unit tests, and instances of their theorems.
use vivid_sdk.Prelude.{◌*◌, ◌/◌, ℕ, ◌≡◌, refl, true, ok, err}
use vivid_sdk.Placement.{
  TerminalDisplay, TerminalPlacement, no_streaming_area, fixed_one, calculate, calculate_full,
  calculate_mode, mul_i128, div_i128, fixed, render_size, height_limited, place,
}
use vivid_sdk.Placement.Fit.{Contains, Places, area_width, area_height, calculate_mode-Contains}

abbrev display : TerminalDisplay
display = record { grid_columns = 80; grid_rows = 25; cell_width = 10; cell_height = 20 }

-- 1920 by 1080 into 800 by 480 pixels: 800 by 450, 15 pixels down.
abbrev wide : TerminalPlacement
wide = record {
  x = 0;
  y = 15 * fixed_one / 20;
  width = 80 * fixed_one;
  height = 450 * fixed_one / 20;
  source_width = 1920;
  source_height = 1080;
  status_row = 24;
}

wide_video : calculate display 1920 1080 ≡ ok wide
unfolding calculate calculate_mode mul_i128 div_i128 fixed render_size height_limited place
wide_video = refl

wide_video_mode : calculate_mode display 1920 1080 true ≡ ok wide
unfolding calculate_mode mul_i128 div_i128 fixed render_size height_limited place
wide_video_mode = refl

one_row_refused : calculate (record display { grid_rows = 1 }) 640 480 ≡ err no_streaming_area
unfolding calculate calculate_mode
one_row_refused = refl

one_row_full :
    (p : TerminalPlacement) × (calculate_full (record display { grid_rows = 1 }) 640 480 ≡ ok p)
unfolding calculate_full calculate_mode mul_i128 div_i128 fixed render_size height_limited place
one_row_full = (
  record {
    x = 387 * fixed_one / 10;
    y = 0;
    width = 26 * fixed_one / 10;
    height = fixed_one;
    source_width = 640;
    source_height = 480;
    status_row = 1;
  },
  refl,
)

calculate_mode-Contains_example :
    (size : ℕ × ℕ) × Contains (area_width display) (area_height display true) 1920 1080 size
    × Places display 1 (area_width display) (area_height display true) size wide
calculate_mode-Contains_example = calculate_mode-Contains display 1920 1080 true wide_video_mode

abbrev hairline : TerminalPlacement
hairline = record {
  x = 0;
  y = 240 * fixed_one / 20;
  width = 80 * fixed_one;
  height = 0;
  source_width = 1000;
  source_height = 1;
  status_row = 24;
}

hairline_placed : calculate_mode display 1000 1 true ≡ ok hairline
unfolding calculate_mode mul_i128 div_i128 fixed render_size height_limited place
hairline_placed = refl
