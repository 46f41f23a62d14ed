-- ===== src/Placement/Total.antt =====
-- The overflow checks of the placement of src/scene.rs on sizes of 32 bits.
use vivid_sdk.Prelude.{◌-◌, ◌*◌, ◌/◌, ◌^◌, ◌≤◌, ◌<◌, ℕ, ◌≡◌, inl, inr, Bool, arith, ok, u32_max}
use vivid_sdk.Placement.{
  TerminalDisplay, TerminalPlacement, fixed_one, mul_i128, fixed, place, reserved_rows,
  calculate_mode,
}
use vivid_sdk.Placement.Arithmetic.{div-mul-le, le_of_mul-le, mul-le-mul}
use vivid_sdk.Placement.Fit.{IsProper, fixed-cases, render_size-cases, area_width, area_height}

-- The sizes are u32 values of the source.
pub record IsWord (d : TerminalDisplay) : Type 0 where
  pub columns : d.grid_columns ≤ u32_max
  pub rows : d.grid_rows ≤ u32_max
  pub across : d.cell_width ≤ u32_max
  pub down : d.cell_height ≤ u32_max

module _ (d : TerminalDisplay) (reserve : Bool) (word : IsWord d) where
  area_width-le : area_width d ≤ u32_max * u32_max
  area_width-le = mul-le-mul d.grid_columns d.cell_width u32_max u32_max word.columns word.across

  area_height-le : area_height d reserve ≤ u32_max * u32_max
  area_height-le =
      mul-le-mul (d.grid_rows - reserved_rows reserve) d.cell_height u32_max u32_max
        (omega (arith, word.rows)) word.down

-- A length of at most `cells` cells converts without overflow.
fixed-ok :
    (pixels cell cells : ℕ)
    → 0 < cell
    → pixels ≤ cells * cell
    → cells < 2 ^ 31
    → cell ≤ u32_max
    → fixed pixels cell ≡ ok (pixels * fixed_one / cell)
fixed-ok pixels cell cells h le small word =
    let top : pixels * fixed_one / cell ≤ cells * fixed_one =
      le_of_mul-le (pixels * fixed_one / cell) (cells * fixed_one) cell h
        (omega (arith, le, div-mul-le (pixels * fixed_one) cell)) in
    let room : cells * cell ≤ 2 ^ 31 * u32_max =
      mul-le-mul cells cell (2 ^ 31) u32_max (omega arith) word in
    ground (arith, fixed-cases pixels cell)

place-ok :
    (d : TerminalDisplay) (sw sh : ℕ) (reserve : Bool) (size : ℕ × ℕ)
    → IsWord d
    → IsProper d sw sh reserve
    → d.grid_columns < 2 ^ 31
    → d.grid_rows < 2 ^ 31
    → size.0 ≤ area_width d
    → size.1 ≤ area_height d reserve
    → (p : TerminalPlacement) × (place d
          (area_width d)
          (area_height d reserve)
          (reserved_rows reserve)
          size
          sw
          sh
        ≡ ok p)
unfolding place
place-ok d sw sh reserve (w, h) word proper columns rows within_width within_height = (
  record {
    x = (area_width d - w) / 2 * fixed_one / d.cell_width;
    y = (area_height d reserve - h) / 2 * fixed_one / d.cell_height;
    width = w * fixed_one / d.cell_width;
    height = h * fixed_one / d.cell_height;
    source_width = sw;
    source_height = sh;
    status_row = d.grid_rows - reserved_rows reserve;
  },
  rw (
    fixed-ok ((area_width d - w) / 2) d.cell_width d.grid_columns proper.across (omega arith)
        columns word.across,
    fixed-ok ((area_height d reserve - h) / 2) d.cell_height (d.grid_rows - reserved_rows reserve)
        proper.down (omega arith) (omega arith) word.down,
    fixed-ok w d.cell_width d.grid_columns proper.across within_width columns word.across,
    fixed-ok h d.cell_height (d.grid_rows - reserved_rows reserve) proper.down within_height
        (omega arith) word.down,
  ),
)

-- On sizes of 32 bits that are not degenerate, and with fewer than 2 ^ 31 columns and rows, there is
-- a placement: neither the 128-bit products nor the conversion to 64 bits overflow.
pub calculate_mode_total :
    (d : TerminalDisplay) (sw sh : ℕ) (reserve : Bool)
    → IsWord d
    → sw ≤ u32_max
    → sh ≤ u32_max
    → IsProper d sw sh reserve
    → d.grid_columns < 2 ^ 31
    → d.grid_rows < 2 ^ 31
    → (p : TerminalPlacement) × (calculate_mode d sw sh reserve ≡ ok p)
unfolding calculate_mode mul_i128
calculate_mode_total d sw sh reserve word wsw wsh proper columns rows =
    let aw = area_width-le d reserve word in
    let ah = area_height-le d reserve word in
    let fw : area_width d * sh ≤ u32_max * u32_max * u32_max =
      mul-le-mul (area_width d) sh (u32_max * u32_max) u32_max aw wsh in
    let fh : area_height d reserve * sw ≤ u32_max * u32_max * u32_max =
      mul-le-mul (area_height d reserve) sw (u32_max * u32_max) u32_max ah wsw in
    elim (render_size-cases (area_width d) (area_height d reserve) sw sh proper.source_width
      proper.source_height) [
        | inr (_, big) ↦ absurd (omega arith)
        | inl (size, r, c) ↦
            let (p, e) =
              place-ok d sw sh reserve size word proper columns rows c.within_width
                c.within_height in
            (p, ground arith)
      ]
