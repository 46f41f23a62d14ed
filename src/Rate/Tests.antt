-- ===== src/Rate/Tests.antt =====
-- The control law of src/pipeline.rs on the inputs of its unit tests, and instances of its theorems.
use vivid_sdk.Prelude.{◌*◌, ◌≡◌, refl, [], ◌∷◌, arith}
use vivid_sdk.Pressure.{no_pressure}
use vivid_sdk.Rate.{
  VideoRateControl, is_delivering, is_congested, is_uncongested, back_off, quantize_target,
  next_target, achieved_bits_per_second, blocked_percent, decide,
}
use vivid_sdk.Rate.Bounds.{InRange, IsStep, next_target-InRange}
use vivid_sdk.Rate.Climb.{Window, after_windows, idle_link_stuck}

congested_backs_off : next_target 8000000 8000000 4000000 50 0 ≡ 3500000
unfolding next_target is_congested is_uncongested back_off quantize_target
congested_backs_off = refl

idle_link_gains : next_target 4000000 8000000 0 0 0 ≡ 5000000
unfolding next_target is_congested is_uncongested back_off quantize_target
idle_link_gains = refl

next_target-InRange_example :
    InRange 8000000 (next_target 8000000 8000000 4000000 50 0)
    × IsStep 8000000 (next_target 8000000 8000000 4000000 50 0)
next_target-InRange_example =
    next_target-InRange 8000000 8000000 4000000 50 0 (omega arith) (omega arith)

abbrev idle : Window
idle = record { achieved = 300000; transport_percent = 0; audio_backlog_us = 0 }

idle_link_stuck_example : after_windows 1900000 (idle ∷ idle ∷ []) (2 * 250000) ≡ 2 * 250000
idle_link_stuck_example =
    idle_link_stuck 1900000 (idle ∷ idle ∷ []) 2 (omega arith) (omega arith) (omega arith)
      (omega arith)

abbrev starved : VideoRateControl
starved = record {
  configured = 8000000;
  target = 8000000;
  started = 0;
  bytes = 100000;
  pressure = no_pressure;
  audio_backlog_us = 400000;
  adjustments = 0;
}

starved_decision : decide starved 1000000000 ≡ 500000
unfolding decide next_target is_congested is_delivering is_uncongested back_off quantize_target
    achieved_bits_per_second blocked_percent
starved_decision = refl
