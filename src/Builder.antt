-- ===== src/Builder.antt =====
-- src/orch.rs: the builder of a track's configuration and the bindings of a surface's slots.
pub mod Bounds
mod Tests
use vivid_sdk.Prelude.{
  ◌+◌, ◌-◌, ◌*◌, ◌/◌, ◌%◌, ◌^◌, ◌≤◌, ◌<◌, min, max, ℕ, zero, suc, ◌≡◌, refl, sym, ap, ◌∙◌, ◌≢◌, ◌↔◌,
  ◌⊎◌, inl, inr, Bool, true, false, not, ◌&&◌, ◌||◌, Option, none, some, List, [], ◌∷◌, ◌++◌, map,
  arith, ltb, leb, ◌==◌, if◌then◌else◌, ltb→lt, lt→ltb, leb→le, ==_iff, Bool-cases, Option-cases,
  length, get_elem?, All, length-append, get_elem?-some, Result, ok, err, Result-cases, refused,
  ◌>>=◌, ◌>>◌, refuse_if, or_fail, u32_max, u64_max, saturating_add, saturating_mul, checked_add,
  duration_max, add_duration, as_micros, same_text, same_text-eq,
}
use vivid_sdk.Track.{Configuration, KindConfiguration, video, audio, TrackMode}
use vivid_sdk.Track
use vivid_sdk.Scene.Activation.{SlotBinding, is_empty}

-- The resources that the builder looks up in a contract, which belongs to another crate.
pub record ResourceContract : Type 0 where
  pub media_record_body : ℕ
  pub inflight_media_bytes : ℕ
  pub encoded_bits_per_second : ℕ
  pub media_records_per_second : ℕ
  pub decoded_pixels_per_second : ℕ

pub data Error : Type 0 where
  no_kind denied_media no_video_packet no_inflight_record exceeds_contract : Error
  wrong_generation unassigned_bits no_binding : Error

-- What a builder knows of the kind: a video or an audio track with its maximum of access unit bytes,
-- or none yet.
pub data BuilderKind : Type 0 where
  unset_kind : BuilderKind
  video_kind audio_kind : ℕ → BuilderKind

pub record TrackBuilder : Type 0 where
  pub kind : BuilderKind
  pub max_rate_millihertz : ℕ
  pub max_encoded_bits_per_second : ℕ
  pub max_records_per_second : ℕ
  pub maximum_record_body : ℕ
  pub maximum_inflight_body_bytes : ℕ
  pub decoded_pixels_per_second : ℕ
  pub target_latency_us : ℕ
  pub maximum_latency_us : ℕ
  pub retained_pixel_charge : ℕ

-- `TrackBuilder::new`; surface, slot, mode and lane are passed through.
unfoldable pub new_builder : TrackBuilder
new_builder = record {
  kind = unset_kind;
  max_rate_millihertz = 60000;
  max_encoded_bits_per_second = 0;
  max_records_per_second = 60;
  maximum_record_body = 0;
  maximum_inflight_body_bytes = 0;
  decoded_pixels_per_second = 0;
  target_latency_us = 33000;
  maximum_latency_us = 100000;
  retained_pixel_charge = 0;
}

-- Multiplication of u64 in a release build, which wraps around.
abbrev pub wrapping : ℕ → ℕ
wrapping n = n % 2 ^ 64

unfoldable pub build_video : TrackBuilder → ℕ → ℕ → TrackBuilder
build_video b width height = record b {
  kind = video_kind 8388608;
  maximum_record_body = max b.maximum_record_body 10485760;
  maximum_inflight_body_bytes = max b.maximum_inflight_body_bytes 20971520;
  max_encoded_bits_per_second = max b.max_encoded_bits_per_second 50000000;
  decoded_pixels_per_second = max b.decoded_pixels_per_second (wrapping (width * height * 2));
  retained_pixel_charge = max b.retained_pixel_charge (width * height);
}

unfoldable pub build_audio : TrackBuilder → ℕ → ℕ → TrackBuilder
build_audio b sample_rate channels = record b {
  kind = audio_kind 1024;
  max_encoded_bits_per_second = max b.max_encoded_bits_per_second (sample_rate * channels * 10);
  max_records_per_second = max b.max_records_per_second 100;
  maximum_record_body = max b.maximum_record_body 16384;
  maximum_inflight_body_bytes = max b.maximum_inflight_body_bytes 65536;
}

abbrev pub video_packet_overhead : ℕ
video_packet_overhead = 48

-- The access unit bytes of a video track are cut down to what a record carries.
unfoldable pub clamp_kind : BuilderKind → ℕ → Result Error BuilderKind
clamp_kind unset_kind body = err no_kind
clamp_kind (audio_kind n) body = ok (audio_kind n)
clamp_kind (video_kind n) body =
    let bytes = min n (body - video_packet_overhead) in
    if bytes == 0 then err no_video_packet else ok (video_kind bytes)

unfoldable pub check : ℕ → ℕ → Result Error (Unit {0})
check claim ceiling = refuse_if (not (claim == 0) && ltb ceiling claim) exceeds_contract

unfoldable pub checks : TrackBuilder → ResourceContract → Result Error (Unit {0})
checks b c = do
  check b.max_encoded_bits_per_second c.encoded_bits_per_second
  check b.max_records_per_second c.media_records_per_second
  check b.maximum_record_body c.media_record_body
  check b.decoded_pixels_per_second c.decoded_pixels_per_second
  check b.maximum_inflight_body_bytes c.inflight_media_bytes

-- The claims of the configuration that `build` returns.
pub record Claims : Type 0 where
  pub kind : BuilderKind
  pub maximum_record_body : ℕ
  pub maximum_rate_millihertz : ℕ
  pub maximum_encoded_bits_per_second : ℕ
  pub maximum_records_per_second : ℕ
  pub maximum_inflight_body_bytes : ℕ
  pub target_latency_us : ℕ
  pub maximum_latency_us : ℕ
  pub retained_pixel_charge : ℕ

abbrev pub is_unset : BuilderKind → Bool
is_unset unset_kind = true
is_unset k = false

unfoldable pub build : TrackBuilder → ResourceContract → Result Error Claims
build b c = do
  refuse_if (is_unset b.kind) no_kind
  let record_ceiling = min c.media_record_body u32_max
  refuse_if (record_ceiling == 0) denied_media
  let body = min (max b.maximum_record_body 1) record_ceiling
  kind ← clamp_kind b.kind body
  refuse_if (ltb c.inflight_media_bytes body) no_inflight_record
  let inflight = min (max b.maximum_inflight_body_bytes body) c.inflight_media_bytes
  checks (record b { maximum_record_body = body; maximum_inflight_body_bytes = inflight }) c
  ok record {
    kind = kind;
    maximum_record_body = max body 1;
    maximum_rate_millihertz = max b.max_rate_millihertz 1;
    maximum_encoded_bits_per_second = b.max_encoded_bits_per_second;
    maximum_records_per_second = max b.max_records_per_second 1;
    maximum_inflight_body_bytes = inflight;
    target_latency_us = b.target_latency_us;
    maximum_latency_us = b.maximum_latency_us;
    retained_pixel_charge = b.retained_pixel_charge;
  }

-- `SurfaceSlots::require`, on the ID and the generation of the track.
unfoldable pub require : ℕ → List SlotBinding → ℕ → ℕ → ℕ → ℕ → ℕ → Result Error (List SlotBinding)
require known_mask bindings slot track_id track_generation generation milestone = do
  refuse_if (not (generation == track_generation)) wrong_generation
  refuse_if (ltb known_mask milestone) unassigned_bits
  ok (
      bindings
      ++ record {
        slot = slot;
        track_id = track_id;
        expected_channel_generation = generation;
        required_milestone = milestone;
      }
        ∷ [])
