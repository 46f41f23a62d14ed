-- ===== src/Pressure.antt =====
-- src/channel.rs, `SendPressure`: where a media send spent its time, in nanoseconds.
use vivid_sdk.Prelude.{ℕ, saturating_add, add_duration}

pub record SendPressure : Type 0 where
  pub rate_limited : ℕ
  pub flow_limited : ℕ
  pub transport : ℕ
  pub records : ℕ

abbrev pub no_pressure : SendPressure
no_pressure = record { rate_limited = 0; flow_limited = 0; transport = 0; records = 0 }

-- `SendPressure::accumulate`.
pub accumulate : SendPressure → SendPressure → SendPressure
accumulate total other = record {
  rate_limited = add_duration total.rate_limited other.rate_limited;
  flow_limited = add_duration total.flow_limited other.flow_limited;
  transport = add_duration total.transport other.transport;
  records = saturating_add total.records other.records;
}
