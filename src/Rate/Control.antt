-- ===== src/Rate/Control.antt =====
-- `VideoRateControl` of src/pipeline.rs as an object: its invariant under every operation, and what
-- `poll` reports.
use vivid_sdk.Prelude.{
  ℕ, ◌+◌, ◌-◌, ◌≤◌, ◌<◌, min, ◌≡◌, ◌≢◌, refl, ◌⊎◌, inl, none, some, List, [], ◌∷◌, arith, u64_max,
}
use vivid_sdk.Pressure.{SendPressure, no_pressure}
use vivid_sdk.Rate.{
  VideoRateControl, minimum_target_bits_per_second, rate_window, init, observe_send,
  observe_audio_backlog, decide, poll,
}
use vivid_sdk.Rate.Bounds.{InRange, IsStep, next_target-InRange}

-- What holds of the control between two calls.
pub record Inv (c : VideoRateControl) : Type 0 where
  pub floor : minimum_target_bits_per_second ≤ c.configured
  pub word : c.configured ≤ u64_max
  pub range : InRange c.configured c.target
  pub step : IsStep c.configured c.target

init-Inv : (configured now : ℕ) → configured ≤ u64_max → Inv (init configured now)
unfolding init
init-Inv configured now word = record {
  floor = omega arith;
  word = omega arith;
  range = omega arith;
  step = inl refl;
}

decide-InRange :
    (c : VideoRateControl) (elapsed : ℕ)
    → Inv c
    → InRange c.configured (decide c elapsed) × IsStep c.configured (decide c elapsed)
unfolding decide
decide-InRange c elapsed v = next_target-InRange c.target c.configured _ _ _ v.floor v.word

poll-Inv : (c : VideoRateControl) (now later : ℕ) → Inv c → Inv (poll c now later).0
unfolding poll
poll-Inv c now later v = ground (arith, decide-InRange c (now - c.started) v)

-- The operations of a control, each with the instants that it reads.
pub data Call : Type 0 where
  sends : ℕ → SendPressure → Call
  backlogs : ℕ → Call
  polls : ℕ → ℕ → Call

pub step : VideoRateControl → Call → VideoRateControl
step c (sends bytes pressure) = observe_send c bytes pressure
step c (backlogs queued) = observe_audio_backlog c queued
step c (polls now later) = (poll c now later).0

pub run : VideoRateControl → List Call → VideoRateControl
run c [] = c
run c (x ∷ xs) = run (step c x) xs

step-Inv : (c : VideoRateControl) (x : Call) → Inv c → Inv (step c x)
unfolding step observe_send observe_audio_backlog
step-Inv c (sends bytes pressure) v = ground arith
step-Inv c (backlogs queued) v = ground arith
step-Inv c (polls now later) v = poll-Inv c now later v

run-Inv : (c : VideoRateControl) (xs : List Call) → Inv c → Inv (run c xs)
unfolding run
run-Inv c [] v = v
run-Inv c (x ∷ xs) v = run-Inv (step c x) xs (step-Inv c x v)

-- After any calls the target lies between the floor and the configured ceiling, and is one of them
-- or a whole number of steps.
pub run-init-Inv :
    (configured now : ℕ) (xs : List Call)
    → configured ≤ u64_max
    → Inv (run (init configured now) xs)
run-init-Inv configured now xs word = run-Inv _ xs (init-Inv configured now word)

-- What `poll` reports of the change that it made: before the window is due nothing at all changes;
-- then the window starts anew at `later`, with all its counters at zero, and a target is returned
-- exactly when the decision differs from the target, which it then becomes.
pub poll_reports :
    (c : VideoRateControl) (now later : ℕ)
    → let (d, answer) = poll c now later in
      let decision = decide c (now - c.started) in
      ((now - c.started < rate_window) × (d ≡ c) × (answer ≡ none))
      ⊎ ((rate_window ≤ now - c.started)
          × (d.target ≡ decision)
          × (d.configured ≡ c.configured)
          × (d.started ≡ later)
          × (d.bytes ≡ 0)
          × (d.pressure ≡ no_pressure)
          × (d.audio_backlog_us ≡ 0)
          × (((decision ≡ c.target) × (answer ≡ none) × (d.adjustments ≡ c.adjustments))
              ⊎ ((decision ≢ c.target)
                  × (answer ≡ some decision)
                  × (d.adjustments ≡ min (c.adjustments + 1) u64_max))))
unfolding poll
poll_reports c now later = ground arith
