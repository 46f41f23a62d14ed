-- ===== src/Rate/Climb.antt =====
-- Windows of an idle link under the control law of src/pipeline.rs: nothing blocks and no audio
-- waits, so the target may grow again.
use vivid_sdk.Prelude.{
  ◌+◌, ◌*◌, ◌/◌, ◌≤◌, ◌<◌, min, ℕ, ◌≡◌, refl, ◌⊎◌, inl, inr, List, [], ◌∷◌, arith, length, All,
  u64_max,
}
use vivid_sdk.Rate.{
  quantize_target, is_congested, is_uncongested, next_target, minimum_target_bits_per_second,
  congested_audio_backlog_us, uncongested_transport_percent,
}
use vivid_sdk.Rate.Bounds.{InRange, IsStep, quantize_target-InRange, quantize_target-IsStep}

-- What one window measured.
pub record Window : Type 0 where
  pub achieved : ℕ
  pub transport_percent : ℕ
  pub audio_backlog_us : ℕ

-- The transport write took at most 2% of the window, and the audio that waits is short.
pub record IsIdle (w : Window) : Type 0 where
  pub unblocked : w.transport_percent ≤ uncongested_transport_percent
  pub quiet : w.audio_backlog_us < congested_audio_backlog_us

after_window : ℕ → Window → ℕ → ℕ
after_window configured w current =
    next_target current configured w.achieved w.transport_percent w.audio_backlog_us

-- The targets of successive windows.
pub after_windows : ℕ → List Window → ℕ → ℕ
after_windows configured [] current = current
after_windows configured (w ∷ ws) current =
    after_windows configured ws (after_window configured w current)

-- An idle window is neither congested nor in the band between the thresholds.
after_window_idle :
    (configured : ℕ) (w : Window) (current : ℕ)
    → IsIdle w
    → after_window configured w current
      ≡ quantize_target (min (current + configured / 8) u64_max) configured
unfolding after_window next_target is_congested is_uncongested
after_window_idle configured w current idle = ground arith

module _ (configured : ℕ) (big : 2000000 ≤ configured) (word : configured ≤ u64_max) where
  quantized_climbs :
      (current : ℕ)
      → InRange configured current
      → IsStep configured current
      → let next = quantize_target (min (current + configured / 8) u64_max) configured in
        (next ≡ configured) ⊎ (current / 250000 < next / 250000)
  unfolding quantize_target
  quantized_climbs current range step = ground arith

  quantized_ceiling :
      quantize_target (min (configured + configured / 8) u64_max) configured ≡ configured
  unfolding quantize_target
  quantized_ceiling = ground arith

  -- The ceiling is a fixed point.
  after_windows_ceiling :
      (ws : List Window) → All IsIdle ws → after_windows configured ws configured ≡ configured
  unfolding after_windows
  after_windows_ceiling [] idle = refl
  after_windows_ceiling (w ∷ ws) idle =
      rw (after_window_idle configured w configured idle.0)
        (rw quantized_ceiling (after_windows_ceiling ws idle.1))

  after_windows_measure :
      (ws : List Window) (current : ℕ)
      → All IsIdle ws
      → InRange configured current
      → IsStep configured current
      → let last = after_windows configured ws current in
        (last ≡ configured) ⊎ ((last ≤ configured) × (current / 250000 + length ws ≤ last / 250000))
  unfolding after_windows
  after_windows_measure [] current idle range step = inr (range.below_configured, omega arith)
  after_windows_measure (w ∷ ws) current idle range step =
      rw (after_window_idle configured w current idle.0)
        (elim (quantized_climbs current range step) [
          | inl top ↦ inl (rw top (after_windows_ceiling ws idle.1))
          | inr gain ↦ ground (
            arith,
            gain,
            after_windows_measure ws
                (quantize_target (min (current + configured / 8) u64_max) configured) idle.1
                (quantize_target-InRange (min (current + configured / 8) u64_max) configured
                  (omega arith) word)
                (quantize_target-IsStep (min (current + configured / 8) u64_max) configured word),
          )
        ])

quantized_stuck :
    (configured steps : ℕ)
    → configured < 2000000
    → minimum_target_bits_per_second ≤ steps * 250000
    → steps * 250000 + configured / 8 < configured
    → quantize_target (min (steps * 250000 + configured / 8) u64_max) configured ≡ steps * 250000
unfolding quantize_target
quantized_stuck configured steps small floor below = ground arith

-- From a ceiling of 2 Mbit/s on, idle windows bring any target that the law may have set back to the
-- ceiling, and leave it there: one window more than there are steps between the two is enough.
pub idle_link_climbs :
    (configured : ℕ) (ws : List Window) (current : ℕ)
    → 2000000 ≤ configured
    → configured ≤ u64_max
    → InRange configured current
    → IsStep configured current
    → All IsIdle ws
    → configured / 250000 < current / 250000 + length ws
    → after_windows configured ws current ≡ configured
idle_link_climbs configured ws current big word range step idle enough =
    ground (arith, after_windows_measure configured big word ws current idle range step)

-- Below 2 Mbit/s the gain of an idle window, an eighth of the ceiling, is less than a step, and
-- quantizing takes it away. A target that is a whole number of steps and more than an eighth below
-- the ceiling stays where it is, however long the link is idle.
pub idle_link_stuck :
    (configured : ℕ) (ws : List Window) (steps : ℕ)
    → configured < 2000000
    → minimum_target_bits_per_second ≤ steps * 250000
    → steps * 250000 + configured / 8 < configured
    → All IsIdle ws
    → after_windows configured ws (steps * 250000) ≡ steps * 250000
unfolding after_windows
idle_link_stuck configured [] steps small floor below idle = refl
idle_link_stuck configured (w ∷ ws) steps small floor below idle =
    rw (after_window_idle configured w (steps * 250000) idle.0) (
      rw (quantized_stuck configured steps small floor below)
        (idle_link_stuck configured ws steps small floor below idle.1))
