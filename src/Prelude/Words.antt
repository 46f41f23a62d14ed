-- ===== src/Prelude/Words.antt =====
-- Unsigned integers of 32 and 64 bits as native numbers: the checked and the saturating operations
-- of Rust.
use Prim.Native.Nat.{ℕ, ◌+◌, ◌-◌, ◌*◌, ◌^◌, min, ◌/◌}
use mathlib.Core.Option.{Option, none, some}
use vivid_sdk.Prelude.Tests.{leb, if◌then◌else◌}

abbrev pub u32_max : ℕ
u32_max = 2 ^ 32 - 1

abbrev pub u64_max : ℕ
u64_max = 2 ^ 64 - 1

abbrev pub saturating_add : ℕ → ℕ → ℕ
saturating_add a b = min (a + b) u64_max

abbrev pub saturating_mul : ℕ → ℕ → ℕ
saturating_mul a b = min (a * b) u64_max

abbrev pub checked_add : ℕ → ℕ → Option ℕ
checked_add a b = if leb (a + b) u64_max then some (a + b) else none

-- A `Duration` in nanoseconds: 64 bits of seconds and a part below one second.
abbrev pub duration_max : ℕ
duration_max = 2 ^ 64 * 1000000000 - 1

abbrev pub add_duration : ℕ → ℕ → ℕ
add_duration a b = min (a + b) duration_max

abbrev pub as_micros : ℕ → ℕ
as_micros d = d / 1000
