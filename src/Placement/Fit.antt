-- ===== src/Placement/Fit.antt =====
-- The rectangle of a placement of src/scene.rs: its proportions and its place in the grid.
use vivid_sdk.Prelude.{
  ◌+◌, ◌-◌, ◌*◌, ◌/◌, ◌≤◌, ◌<◌, ℕ, ◌≡◌, refl, ◌⊎◌, inl, inr, Bool, false, arith, leb, Bool-cases,
  ok, err,
}
use vivid_sdk.Placement.{
  TerminalDisplay, TerminalPlacement, geometry_overflow, fixed_one, i128_max, i64_max, mul_i128,
  div_i128, fixed, height_limited, render_size, place, reserved_rows, is_degenerate, calculate_mode,
}
use vivid_sdk.Placement.Arithmetic.{div-mul-le, le_of_mul-le, div-add-le, mul-le-mul}

-- A conversion to fixed-point cells rounds down, or overflows.
pub fixed-cases :
    (pixels cell : ℕ)
    → 0 < cell
    → pixels * fixed_one ≤ i128_max
    → ((pixels * fixed_one / cell ≤ i64_max) × (fixed pixels cell ≡ ok (pixels * fixed_one / cell)))
      ⊎ ((i64_max < pixels * fixed_one / cell) × (fixed pixels cell ≡ err geometry_overflow))
unfolding fixed
fixed-cases pixels cell h fits = ground arith

-- The rectangle inside the area, in pixels: it has the full width or the full height, and the other
-- side is the source's proportion of it, rounded down.
pub record Contains (area_width area_height source_width source_height : ℕ) (size : ℕ × ℕ)
    : Type 0 where
  pub within_width : size.0 ≤ area_width
  pub within_height : size.1 ≤ area_height
  pub filled :
      ((size.0 ≡ area_width) × (size.1 ≡ area_width * source_height / source_width))
      ⊎ ((area_height < area_width * source_height / source_width)
          × (size.1 ≡ area_height)
          × (size.0 ≡ area_height * source_width / source_height))

-- If the proportional height is too large, the proportional width is not.
width_limited : (w h sw sh : ℕ) → 0 < sw → 0 < sh → h < w * sh / sw → h * sw / sh ≤ w
width_limited w h sw sh psw psh lt = le_of_mul-le (h * sw / sh) w sh psh (
    grind (
      arith,
      div-mul-le (h * sw) sh,
      div-mul-le (w * sh) sw,
      mul-le-mul (h + 1) sw (w * sh / sw) sw,
    ))

pub render_size-cases :
    (w h sw sh : ℕ)
    → 0 < sw
    → 0 < sh
    → ((size : ℕ × ℕ) × (render_size w h sw sh ≡ ok size) × Contains w h sw sh size)
      ⊎ ((render_size w h sw sh ≡ err geometry_overflow)
          × ((i128_max < w * sh) ⊎ (i128_max < h * sw)))
unfolding render_size height_limited mul_i128 div_i128
render_size-cases w h sw sh psw psh = elim (Bool-cases (leb (w * sh) i128_max)) [
  | inr big ↦ inr (ground arith, inl (ground arith))
  | inl fw ↦ elim (Bool-cases (leb (w * sh / sw) h)) [
    | inl short ↦ inl (
      (w, w * sh / sw),
      ground arith,
      record {
        within_width = omega arith;
        within_height = ground arith;
        filled = inl (refl, refl);
      },
    )
    | inr tall ↦ elim (Bool-cases (leb (h * sw) i128_max)) [
      | inr big ↦ inr (ground arith, inr (ground arith))
      | inl fh ↦ inl (
        (h * sw / sh, h),
        ground arith,
        record {
          within_width = width_limited w h sw sh psw psh (ground arith);
          within_height = omega arith;
          filled = inr (ground arith, refl, refl);
        },
      )
    ]
  ]
]

-- A rectangle in pixels, as the placement states it in fixed-point cells, centred in the area.
pub record Places (d : TerminalDisplay) (reserved area_width area_height : ℕ) (size : ℕ × ℕ)
    (p : TerminalPlacement) : Type 0 where
  pub width : p.width ≡ size.0 * fixed_one / d.cell_width
  pub height : p.height ≡ size.1 * fixed_one / d.cell_height
  pub x : p.x ≡ (area_width - size.0) / 2 * fixed_one / d.cell_width
  pub y : p.y ≡ (area_height - size.1) / 2 * fixed_one / d.cell_height
  pub status_row : p.status_row ≡ d.grid_rows - reserved

fixed-rounds :
    (pixels cell : ℕ)
    → (fixed pixels cell ≡ ok (pixels * fixed_one / cell))
      ⊎ (fixed pixels cell ≡ err geometry_overflow)
unfolding fixed mul_i128 div_i128
fixed-rounds pixels cell = ground arith

place-eq-ok :
    (d : TerminalDisplay) (w h reserved : ℕ) (size : ℕ × ℕ) (sw sh : ℕ) {p : TerminalPlacement}
    → place d w h reserved size sw sh ≡ ok p
    → Places d reserved w h size p
unfolding place
place-eq-ok d w h reserved (rw', rh) sw sh e = ground (
  arith,
  fixed-rounds ((w - rw') / 2) d.cell_width,
  fixed-rounds ((h - rh) / 2) d.cell_height,
  fixed-rounds rw' d.cell_width,
  fixed-rounds rh d.cell_height,
)

-- The geometry of a placement that succeeds is not degenerate.
pub record IsProper (d : TerminalDisplay) (sw sh : ℕ) (reserve : Bool) : Type 0 where
  pub source_width : 0 < sw
  pub source_height : 0 < sh
  pub columns : 0 < d.grid_columns
  pub rows : reserved_rows reserve < d.grid_rows
  pub across : 0 < d.cell_width
  pub down : 0 < d.cell_height

is_degenerate-IsProper :
    (d : TerminalDisplay) (sw sh : ℕ) (reserve : Bool)
    → is_degenerate d sw sh (reserved_rows reserve) ≡ false
    → IsProper d sw sh reserve
is_degenerate-IsProper d sw sh reserve h = ground arith

calculate_mode-IsProper :
    (d : TerminalDisplay) (sw sh : ℕ) (reserve : Bool) {p : TerminalPlacement}
    → calculate_mode d sw sh reserve ≡ ok p
    → is_degenerate d sw sh (reserved_rows reserve) ≡ false
unfolding calculate_mode
calculate_mode-IsProper d sw sh reserve e = ground arith

abbrev pub area_width : TerminalDisplay → ℕ
area_width d = d.grid_columns * d.cell_width

abbrev pub area_height : TerminalDisplay → Bool → ℕ
area_height d reserve = (d.grid_rows - reserved_rows reserve) * d.cell_height

-- A placement that succeeds is the rectangle that `Contains` describes, centred and in cells.
pub calculate_mode-Contains :
    (d : TerminalDisplay) (sw sh : ℕ) (reserve : Bool) {p : TerminalPlacement}
    → calculate_mode d sw sh reserve ≡ ok p
    → (size : ℕ × ℕ) × Contains (area_width d) (area_height d reserve) sw sh size
      × Places d (reserved_rows reserve) (area_width d) (area_height d reserve) size p
unfolding calculate_mode mul_i128
calculate_mode-Contains d sw sh reserve e =
    let proper =
      is_degenerate-IsProper d sw sh reserve (calculate_mode-IsProper d sw sh reserve e) in
    elim (render_size-cases (area_width d) (area_height d reserve) sw sh proper.source_width
      proper.source_height) [
        | inl (size, r, c) ↦ (
          size,
          c,
          place-eq-ok d (area_width d) (area_height d reserve) (reserved_rows reserve) size sw sh
              (ground arith),
        )
        | inr (r, big) ↦ absurd (ground arith)
      ]

-- The rectangle of a placement lies in the grid, above the status row: its right edge is at most the
-- last column and its lower edge at most the last row that is not reserved.
pub calculate_mode_within :
    (d : TerminalDisplay) (sw sh : ℕ) (reserve : Bool) {p : TerminalPlacement}
    → calculate_mode d sw sh reserve ≡ ok p
    → (p.x + p.width ≤ d.grid_columns * fixed_one)
      × (p.y + p.height ≤ p.status_row * fixed_one)
      × (p.status_row + reserved_rows reserve ≡ d.grid_rows)
calculate_mode_within d sw sh reserve e =
    let proper =
      is_degenerate-IsProper d sw sh reserve (calculate_mode-IsProper d sw sh reserve e) in
    let (size, c, pl) = calculate_mode-Contains d sw sh reserve e in
    (
      omega (
        arith,
        pl.x,
        pl.width,
        div-add-le ((area_width d - size.0) / 2 * fixed_one) (size.0 * fixed_one) d.cell_width
            (d.grid_columns * fixed_one) proper.across (omega (arith, c.within_width)),
      ),
      omega (
        arith,
        pl.y,
        pl.height,
        pl.status_row,
        div-add-le ((area_height d reserve - size.1) / 2 * fixed_one) (size.1 * fixed_one)
            d.cell_height ((d.grid_rows - reserved_rows reserve) * fixed_one) proper.down
            (omega (arith, c.within_height)),
      ),
      omega (arith, pl.status_row, proper.rows),
    )

-- A source whose proportions leave less than one pixel of height gets a placement of height zero.
pub calculate_mode_flat :
    (d : TerminalDisplay) (sw sh : ℕ) (reserve : Bool) {p : TerminalPlacement}
    → calculate_mode d sw sh reserve ≡ ok p
    → d.grid_columns * d.cell_width * sh < sw
    → p.height ≡ 0
calculate_mode_flat d sw sh reserve e flat =
    let (size, c, pl) = calculate_mode-Contains d sw sh reserve e in
    let none_left : d.grid_columns * d.cell_width * sh / sw ≡ 0 = grind arith in
    ground (arith, c.filled, pl.height, none_left)
