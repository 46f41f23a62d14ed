-- ===== src/Placement.antt =====
-- src/scene.rs, `TerminalDisplay` and `TerminalPlacement`: a contain-fit rectangle in 32.32
-- fixed-point terminal cells.
pub mod Arithmetic
pub mod Fit
pub mod Total
mod Tests
use vivid_sdk.Prelude.{
  ◌+◌, ◌-◌, ◌*◌, ◌/◌, ◌%◌, ◌^◌, ◌≤◌, ◌<◌, min, max, ℕ, zero, suc, ◌≡◌, refl, sym, ap, ◌∙◌, ◌≢◌, ◌↔◌,
  ◌⊎◌, inl, inr, Bool, true, false, not, ◌&&◌, ◌||◌, Option, none, some, List, [], ◌∷◌, ◌++◌, map,
  arith, ltb, leb, ◌==◌, if◌then◌else◌, ltb→lt, lt→ltb, leb→le, ==_iff, Bool-cases, Option-cases,
  length, get_elem?, All, length-append, get_elem?-some, Result, ok, err, ◌>>=◌, ◌>>◌, refuse_if,
  or_fail, u32_max, u64_max, saturating_add, saturating_mul, checked_add, duration_max,
  add_duration, as_micros,
}

pub record TerminalDisplay : Type 0 where
  pub grid_columns : ℕ
  pub grid_rows : ℕ
  pub cell_width : ℕ
  pub cell_height : ℕ

pub record TerminalPlacement : Type 0 where
  pub x : ℕ
  pub y : ℕ
  pub width : ℕ
  pub height : ℕ
  pub source_width : ℕ
  pub source_height : ℕ
  pub status_row : ℕ

pub data Error : Type 0 where
  no_streaming_area geometry_overflow : Error

abbrev pub fixed_one : ℕ
fixed_one = 2 ^ 32

abbrev pub i128_max : ℕ
i128_max = 2 ^ 127 - 1

abbrev pub i64_max : ℕ
i64_max = 2 ^ 63 - 1

-- `checked_mul` of i128, at factors that are not negative.
pub mul_i128 : ℕ → ℕ → Result Error ℕ
mul_i128 a b = if leb (a * b) i128_max then ok (a * b) else err geometry_overflow

-- `checked_div`: a divisor of zero is an overflow.
pub div_i128 : ℕ → ℕ → Result Error ℕ
div_i128 a b = if b == 0 then err geometry_overflow else ok (a / b)

to_i64 : ℕ → Result Error ℕ
to_i64 a = if leb a i64_max then ok a else err geometry_overflow

-- The closure `fixed`.
pub fixed : ℕ → ℕ → Result Error ℕ
unfolding mul_i128 div_i128 to_i64
fixed pixels cell = do
  scaled ← mul_i128 pixels fixed_one
  cells ← div_i128 scaled cell
  to_i64 cells

abbrev pub is_degenerate : TerminalDisplay → ℕ → ℕ → ℕ → Bool
is_degenerate d source_width source_height reserved_rows =
    source_width == 0
    || source_height == 0
    || d.grid_columns == 0
    || ltb d.grid_rows (1 + reserved_rows)
    || d.cell_width == 0
    || d.cell_height == 0

-- The height limits the width.
height_limited : ℕ → ℕ → ℕ → Result Error (ℕ × ℕ)
height_limited area_height source_width source_height = do
  scaled ← mul_i128 area_height source_width
  width ← div_i128 scaled source_height
  ok (width, area_height)

-- The rendered rectangle, in pixels, inside an area of the given size.
pub render_size : ℕ → ℕ → ℕ → ℕ → Result Error (ℕ × ℕ)
unfolding height_limited
render_size area_width area_height source_width source_height = do
  scaled ← mul_i128 area_width source_height
  height ← div_i128 scaled source_width
  (if leb height area_height
      then ok (area_width, height)
      else height_limited area_height source_width source_height)

-- The two margins are differences that are not negative: see `Placement.Fit`.
pub place : TerminalDisplay → ℕ → ℕ → ℕ → ℕ × ℕ → ℕ → ℕ → Result Error TerminalPlacement
place d area_width area_height reserved_rows (render_width, render_height) source_width
      source_height =
    do
      x ← fixed ((area_width - render_width) / 2) d.cell_width
      y ← fixed ((area_height - render_height) / 2) d.cell_height
      width ← fixed render_width d.cell_width
      height ← fixed render_height d.cell_height
      ok (record {
        x = x;
        y = y;
        width = width;
        height = height;
        source_width = source_width;
        source_height = source_height;
        status_row = d.grid_rows - reserved_rows;
      })

abbrev pub reserved_rows : Bool → ℕ
reserved_rows reserve_status_row = if reserve_status_row then 1 else 0

pub calculate_mode : TerminalDisplay → ℕ → ℕ → Bool → Result Error TerminalPlacement
calculate_mode d source_width source_height reserve_status_row =
    let reserved = reserved_rows reserve_status_row in
    do
      refuse_if (is_degenerate d source_width source_height reserved) no_streaming_area
      area_width ← mul_i128 d.grid_columns d.cell_width
      area_height ← mul_i128 (d.grid_rows - reserved) d.cell_height
      size ← render_size area_width area_height source_width source_height
      place d area_width area_height reserved size source_width source_height

pub calculate : TerminalDisplay → ℕ → ℕ → Result Error TerminalPlacement
calculate d source_width source_height = calculate_mode d source_width source_height true

pub calculate_full : TerminalDisplay → ℕ → ℕ → Result Error TerminalPlacement
calculate_full d source_width source_height = calculate_mode d source_width source_height false
