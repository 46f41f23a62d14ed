-- ===== src/Rate/Bounds.antt =====
-- The range and the direction of the control law `next_target` of src/pipeline.rs.
use vivid_sdk.Prelude.{ℕ, ◌+◌, ◌*◌, ◌/◌, ◌≤◌, ◌<◌, min, ◌≡◌, ◌⊎◌, true, false, arith, u64_max}
use vivid_sdk.Rate.{
  quantize_target, is_delivering, is_congested, is_uncongested, back_off, next_target,
  minimum_target_bits_per_second, congested_audio_backlog_us,
}

-- A value that `quantize_target` returns.
abbrev pub IsStep : ℕ → ℕ → Type 0
IsStep configured target =
    (target ≡ configured)
    ⊎ ((target ≡ minimum_target_bits_per_second) ⊎ (target ≡ target / 250000 * 250000))

pub record InRange (configured target : ℕ) : Type 0 where
  pub above_floor : minimum_target_bits_per_second ≤ target
  pub below_configured : target ≤ configured

pub quantize_target-InRange :
    (candidate configured : ℕ)
    → minimum_target_bits_per_second ≤ configured
    → configured ≤ u64_max
    → InRange configured (quantize_target candidate configured)
unfolding quantize_target
quantize_target-InRange candidate configured floor word = ground arith

pub quantize_target-IsStep :
    (candidate configured : ℕ)
    → configured ≤ u64_max
    → IsStep configured (quantize_target candidate configured)
unfolding quantize_target
quantize_target-IsStep candidate configured word = ground arith

-- A greater candidate is quantized to no smaller target.
pub quantize_target_mono :
    (low high configured : ℕ)
    → minimum_target_bits_per_second ≤ configured
    → configured ≤ u64_max
    → low ≤ high
    → quantize_target low configured ≤ quantize_target high configured
unfolding quantize_target
quantize_target_mono low high configured floor word le = ground arith

pub quantize_target-fixed :
    (target configured : ℕ)
    → configured ≤ u64_max
    → InRange configured target
    → IsStep configured target
    → quantize_target target configured ≡ target
unfolding quantize_target
quantize_target-fixed target configured word range step = ground arith

pub quantize_target-le :
    (candidate configured bound : ℕ)
    → candidate ≤ bound
    → minimum_target_bits_per_second ≤ bound
    → bound ≤ configured
    → configured ≤ u64_max
    → quantize_target candidate configured ≤ bound
unfolding quantize_target
quantize_target-le candidate configured bound h floor le word = ground arith

-- With a ceiling that is no lower than the floor, every decision lies between the floor and the configured ceiling, and is the ceiling, the floor or
-- a whole number of steps.
pub next_target-InRange :
    (current configured achieved transport_percent audio_backlog_us : ℕ)
    → minimum_target_bits_per_second ≤ configured
    → configured ≤ u64_max
    → let next = next_target current configured achieved transport_percent audio_backlog_us in
      InRange configured next × IsStep configured next
unfolding next_target
next_target-InRange current configured achieved percent backlog floor word =
    (quantize_target-InRange _ configured floor word, quantize_target-IsStep _ configured word)

back_off-le :
    (current achieved : ℕ)
    → current ≤ u64_max
    → (8 * back_off current achieved ≤ 7 * current)
      × (0 < achieved → 8 * back_off current achieved ≤ 7 * achieved)
unfolding back_off
back_off-le current achieved word = ground arith

-- From a target in range, a congested window lowers it, by an eighth at least of what it was and of what the link
-- carried, unless the floor stops it or, for the latter, nothing
-- was carried.
pub next_target-congested :
    (current configured achieved transport_percent audio_backlog_us : ℕ)
    → configured ≤ u64_max
    → InRange configured current
    → is_congested current achieved transport_percent audio_backlog_us ≡ true
    → let next = next_target current configured achieved transport_percent audio_backlog_us in
      (next ≤ current)
      × ((next ≡ minimum_target_bits_per_second)
          ⊎ ((8 * next ≤ 7 * current) × ((achieved ≡ 0) ⊎ (8 * next ≤ 7 * achieved))))
unfolding next_target quantize_target
next_target-congested current configured achieved percent backlog word range h =
    rw h (ground (arith, back_off-le current achieved))

-- A target in range that is the ceiling, the floor or a whole number of steps, and of which at least
-- 90% reach the presenter, is not lowered while less than 250 ms of audio wait.
pub next_target-delivering :
    (current configured achieved transport_percent audio_backlog_us : ℕ)
    → configured ≤ u64_max
    → InRange configured current
    → IsStep configured current
    → is_delivering current achieved ≡ true
    → audio_backlog_us < congested_audio_backlog_us
    → current ≤ next_target current configured achieved transport_percent audio_backlog_us
unfolding next_target is_congested is_uncongested
next_target-delivering current configured achieved percent backlog word range step delivers quiet =
    rw delivers (
      ground (
        arith,
        quantize_target-fixed current configured,
        quantize_target_mono current (min (current + configured / 8) u64_max) configured,
      ))

-- Between the two thresholds the target stands still.
pub next_target-steady :
    (current configured achieved transport_percent audio_backlog_us : ℕ)
    → configured ≤ u64_max
    → InRange configured current
    → IsStep configured current
    → is_congested current achieved transport_percent audio_backlog_us ≡ false
    → is_uncongested transport_percent audio_backlog_us ≡ false
    → next_target current configured achieved transport_percent audio_backlog_us ≡ current
unfolding next_target
next_target-steady current configured achieved percent backlog word range step calm busy =
    rw (calm, busy) (quantize_target-fixed current configured word range step)
