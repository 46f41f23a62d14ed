-- ===== src/Samples.antt =====
-- Concrete values for what the model takes as parameters: numbers for the CBOR values, four counters
-- for the flow window of a channel, and a peer. The tests run on them.
use vivid_sdk.Prelude.{
  ◌+◌, ◌≤◌, ◌<◌, max, ℕ, ◌≡◌, refl, ◌≢◌, true, false, ◌&&◌, Option, none, some, [], arith, leb,
  ◌==◌, if◌then◌else◌, checked_add,
}
use vivid_sdk.Wire.{Cbor}
use vivid_sdk.Session.{Remote}
use vivid_sdk.Surface.{Canvas}
use vivid_sdk.Scene.Commits.{Stage}
use vivid_sdk.Target.{Values}
use vivid_sdk.Guard.{Monotonic}
use vivid_sdk.Track.{TrackKind, video_kind, audio_kind, live_mode, timed_mode, Media}
use vivid_sdk.Channel.State.{Admission, admits, no_capacity, FlowControl, Peer}

abbrev pub numbers : Cbor
numbers = record {
  Value = ℕ;
  as_u64 = some;
  as_bool = λ n. none;
  as_text = λ n. none;
  as_array = λ n. none;
  as_map = λ n. none;
}

pub record Window : Type 0 where
  pub sent_bytes : ℕ
  pub sent_records : ℕ
  pub maximum_bytes : ℕ
  pub maximum_records : ℕ

abbrev pub admit : Window → ℕ → Admission Window
admit w n =
    if leb (w.sent_bytes + n) w.maximum_bytes && leb (w.sent_records + 1) w.maximum_records
    then admits (record w { sent_bytes = w.sent_bytes + n; sent_records = w.sent_records + 1 })
    else no_capacity

abbrev pub raise_maxima : Window → ℕ → ℕ → Window
raise_maxima w b r = record w {
  maximum_bytes = max w.maximum_bytes b;
  maximum_records = max w.maximum_records r;
}

pub admit_bytes : (f g : Window) (n : ℕ) → admit f n ≡ admits g → g.sent_bytes ≡ f.sent_bytes + n
admit_bytes f g n e = ground arith

pub admit_records :
    (f g : Window) (n : ℕ) → admit f n ≡ admits g → g.sent_records ≡ f.sent_records + 1
admit_records f g n e = ground arith

pub admit_within :
    (f g : Window) (n : ℕ)
    → admit f n ≡ admits g
    → (g.maximum_bytes ≡ f.maximum_bytes)
      × (g.maximum_records ≡ f.maximum_records)
      × (g.sent_bytes ≤ g.maximum_bytes)
      × (g.sent_records ≤ g.maximum_records)
admit_within f g n e = ground arith

pub raise_grows :
    (f : Window) (b r : ℕ)
    → (f.maximum_bytes ≤ max f.maximum_bytes b) × (f.maximum_records ≤ max f.maximum_records r)
raise_grows f b r = omega arith

pub raise_reaches :
    (f : Window) (b r : ℕ) → (b ≤ max f.maximum_bytes b) × (r ≤ max f.maximum_records r)
raise_reaches f b r = omega arith

abbrev pub window_flow : FlowControl
window_flow = record {
  Flow = Window;
  sent_body_bytes = λ w. w.sent_bytes;
  sent_media_records = λ w. w.sent_records;
  maximum_body_bytes = λ w. w.maximum_bytes;
  maximum_media_records = λ w. w.maximum_records;
  admit = admit;
  raise_maxima = raise_maxima;
  admit_bytes = admit_bytes;
  admit_records = admit_records;
  admit_within = admit_within;
  raise_sent = λ f b r. (refl, refl);
  raise_grows = raise_grows;
  raise_reaches = raise_reaches;
}

pub four_types : ◌≢◌ {A = ℕ} 3 1 × ◌≢◌ {A = ℕ} 3 2 × ◌≢◌ {A = ℕ} 4 1 × ◌≢◌ {A = ℕ} 4 2
four_types = (λ e. omega arith, λ e. omega arith, λ e. omega arith, λ e. omega arith)

abbrev pub presenter : Peer
presenter = record {
  cbor = numbers;
  ErrorReply = ℕ;
  error_type = 1;
  max_channel_data = 2;
  need_keyframe = 3;
  need_full_frame = 4;
  keyframe_is_no_error = four_types.0;
  keyframe_is_no_maximum = four_types.1;
  full_frame_is_no_error = four_types.2;
  full_frame_is_no_maximum = four_types.3;
}

abbrev pub remote : Remote
remote = record {
  cbor = numbers;
  unsigned = λ n. n;
  Signed = ℕ;
  zero_signed = 0;
  signed = λ n. n;
  as_i64 = some;
  error_type = 1;
  ok_type = 2;
}

abbrev pub empty_window : Window
empty_window = record { sent_bytes = 0; sent_records = 0; maximum_bytes = 0; maximum_records = 0 }

abbrev kind_number : ℕ → Option TrackKind
kind_number n = if n == 1 then some video_kind else if n == 2 then some audio_kind else none

abbrev pub media : Media
media = record {
  remote = remote;
  flow = window_flow;
  default_flow = empty_window;
  default_within = (omega arith, omega arith);
  validate = λ c probe. true;
  payload = λ c probe. some [];
  kind_of = kind_number;
  mode_of = λ n. if n == 1 then some live_mode else some timed_mode;
  audio_gain = some;
  unity_gain = 65536;
  known_mask = 1023;
  channel_detached = 512;
  channel_accepted = 1;
  probe_track_config = 10;
  track_support = 11;
  create_track = 12;
  track_ready = 13;
  query_track = 14;
  track_status = 15;
  wait_track = 16;
  wait_satisfied = 17;
  destroy_track = 18;
  play = 19;
  pause = 20;
  set_audio_gain = 21;
  flush = 22;
  drain = 23;
}

abbrev pub canvas : Canvas
canvas = record {
  media = media;
  Descriptor = ℕ;
  descriptor_value = some;
  descriptor_of = some;
  coordinate_model_of = some;
  map_value = λ m. 0;
  same_map = λ a b. true;
  create_surface = 30;
  surface_ready = 31;
  update_surface = 32;
  destroy_surface = 33;
  query_surface = 34;
  surface_status = 35;
  array_value = λ a. 0;
  activate_track = 36;
  track_activated = 37;
}

abbrev pub stage : Stage
stage = record {
  remote = remote;
  begin_txn = 40;
  commit_txn = 41;
  abort_txn = 42;
  scene_presented = 43;
  create_node = 44;
  update_node = 45;
  delete_node = 46;
  query_anchor = 47;
  anchor_status = 48;
}

-- Values that are numbers, where 0 and 1 are also the Boolean values.
abbrev pub target_values : Values
target_values = record {
  cbor = record numbers { as_bool = λ n. some (n == 1) };
  same_value = λ a b. a == b;
  decodes_desktop = λ d. true;
}

pub at_least_trans : (a b c : ℕ) → leb b a ≡ true → leb c b ≡ true → leb c a ≡ true
at_least_trans a b c h k = ground arith

pub checked_add_later : (t d us : ℕ) → 0 < us → checked_add t us ≡ some d → leb d t ≡ false
checked_add_later t d us pos e = ground arith

-- Microseconds in 64 bits.
abbrev pub clock : Monotonic
clock = record {
  Time = ℕ;
  at_least = λ now d. leb d now;
  checked_add_micros = checked_add;
  at_least_trans = at_least_trans;
  checked_add_later = checked_add_later;
}
