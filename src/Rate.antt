-- ===== src/Rate.antt =====
-- src/pipeline.rs, `VideoRateControl` and its control law. Times are in nanoseconds.
pub mod Bounds
pub mod Control
pub mod Climb
mod Tests
use vivid_sdk.Prelude.{
  ℕ, ◌+◌, ◌-◌, ◌*◌, ◌/◌, min, max, Bool, true, false, not, ◌&&◌, ◌||◌, Option, none, some, ltb, leb,
  ◌==◌, if◌then◌else◌, u64_max, saturating_add, saturating_mul, as_micros,
}
use vivid_sdk.Pressure.{SendPressure, no_pressure, accumulate}

abbrev pub rate_step_bits_per_second : ℕ
rate_step_bits_per_second = 250000

abbrev pub minimum_target_bits_per_second : ℕ
minimum_target_bits_per_second = 400000

abbrev pub rate_window : ℕ
rate_window = 1000000000

abbrev pub congested_transport_percent : ℕ
congested_transport_percent = 10

abbrev pub uncongested_transport_percent : ℕ
uncongested_transport_percent = 2

abbrev pub congested_audio_backlog_us : ℕ
congested_audio_backlog_us = 250000

abbrev pub delivered_target_percent : ℕ
delivered_target_percent = 90

-- `Ord::clamp`, with `lo ≤ hi` as its caller guarantees.
abbrev pub clamp : ℕ → ℕ → ℕ → ℕ
clamp x lo hi = if ltb x lo then lo else if ltb hi x then hi else x

pub quantize_target : ℕ → ℕ → ℕ
quantize_target candidate configured =
    let clamped = clamp candidate minimum_target_bits_per_second configured in
    if leb configured clamped
    then configured
    else max (saturating_mul (clamped / rate_step_bits_per_second) rate_step_bits_per_second)
        minimum_target_bits_per_second

-- `delivering` of the source.
pub is_delivering : ℕ → ℕ → Bool
is_delivering current achieved =
    leb (saturating_mul current delivered_target_percent) (saturating_mul achieved 100)

-- `link_full || over_subscribed`.
pub is_congested : ℕ → ℕ → ℕ → ℕ → Bool
unfolding is_delivering
is_congested current achieved transport_percent audio_backlog_us =
    (leb congested_transport_percent transport_percent && not (is_delivering current achieved))
    || leb congested_audio_backlog_us audio_backlog_us

pub is_uncongested : ℕ → ℕ → Bool
is_uncongested transport_percent audio_backlog_us =
    leb transport_percent uncongested_transport_percent
    && ltb audio_backlog_us congested_audio_backlog_us

pub back_off : ℕ → ℕ → ℕ
back_off current achieved =
    saturating_mul (if ltb 0 achieved then min current achieved else current) 7 / 8

pub next_target : ℕ → ℕ → ℕ → ℕ → ℕ → ℕ
next_target current configured achieved transport_percent audio_backlog_us =
    quantize_target
      (if is_congested current achieved transport_percent audio_backlog_us
        then back_off current achieved
        else if is_uncongested transport_percent audio_backlog_us
        then saturating_add current (configured / 8)
        else current)
      configured

pub achieved_bits_per_second : ℕ → ℕ → ℕ
achieved_bits_per_second bytes elapsed = min (bytes * 8000000 / max (as_micros elapsed) 1) u64_max

pub blocked_percent : ℕ → ℕ → ℕ
blocked_percent blocked elapsed = min (as_micros blocked * 100 / max (as_micros elapsed) 1) 100

pub record VideoRateControl : Type 0 where
  pub configured : ℕ
  pub target : ℕ
  pub started : ℕ
  pub bytes : ℕ
  pub pressure : SendPressure
  pub audio_backlog_us : ℕ
  pub adjustments : ℕ

-- `now` stands for `Instant::now()`, in nanoseconds.
pub init : ℕ → ℕ → VideoRateControl
init configured_bits_per_second now =
    let configured = max configured_bits_per_second minimum_target_bits_per_second in
    record {
      configured = configured;
      target = configured;
      started = now;
      bytes = 0;
      pressure = no_pressure;
      audio_backlog_us = 0;
      adjustments = 0;
    }

pub observe_send : VideoRateControl → ℕ → SendPressure → VideoRateControl
observe_send c bytes pressure = record c {
  bytes = saturating_add c.bytes bytes;
  pressure = accumulate c.pressure pressure;
}

pub observe_audio_backlog : VideoRateControl → ℕ → VideoRateControl
observe_audio_backlog c queued = record c { audio_backlog_us = max c.audio_backlog_us queued }

-- A window that is due starts anew; the target that the law decided follows in `settle_target`.
pub close_window : VideoRateControl → ℕ → VideoRateControl
close_window c later = record c {
  started = later;
  bytes = 0;
  pressure = no_pressure;
  audio_backlog_us = 0;
}

pub decide : VideoRateControl → ℕ → ℕ
decide c elapsed =
    next_target c.target c.configured (achieved_bits_per_second c.bytes elapsed)
      (blocked_percent c.pressure.transport elapsed) c.audio_backlog_us

-- `now` is the instant that `elapsed` reads, `later` that of the new window.
pub poll : VideoRateControl → ℕ → ℕ → VideoRateControl × Option ℕ
unfolding close_window
poll c now later =
    let elapsed = now - c.started in
    if ltb elapsed rate_window
    then (c, none)
    else let next = decide c elapsed in
      if next == c.target then (close_window c later, none) else (
        record (close_window c later) {
          adjustments = saturating_add c.adjustments 1;
          target = next;
        },
        some next,
      )

pub record VideoRateSnapshot : Type 0 where
  pub configured : ℕ
  pub target : ℕ
  pub adjustments : ℕ
  pub rate_limited : ℕ
  pub flow_limited : ℕ
  pub transport : ℕ

pub snapshot : VideoRateControl → VideoRateSnapshot
snapshot c = record {
  configured = c.configured;
  target = c.target;
  adjustments = c.adjustments;
  rate_limited = c.pressure.rate_limited;
  flow_limited = c.pressure.flow_limited;
  transport = c.pressure.transport;
}
