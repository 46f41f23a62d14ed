-- ===== src/Builder/Tests.antt =====
-- The builders of src/orch.rs under a contract, and instances of the theorems.
use vivid_sdk.Prelude.{◌≡◌, refl, ok, err}
use vivid_sdk.Builder.{
  ResourceContract, exceeds_contract, video_kind, TrackBuilder, new_builder, build_video,
  clamp_kind, check, checks, Claims, build,
}
use vivid_sdk.Builder.Bounds.{AreCovered, build-AreCovered}

abbrev contract : ResourceContract
contract = record {
  media_record_body = 1048576;
  inflight_media_bytes = 4194304;
  encoded_bits_per_second = 100000000;
  media_records_per_second = 240;
  decoded_pixels_per_second = 10000000;
}

abbrev movie : TrackBuilder
movie = record {
  kind = video_kind 8388608;
  max_rate_millihertz = 60000;
  max_encoded_bits_per_second = 50000000;
  max_records_per_second = 60;
  maximum_record_body = 10485760;
  maximum_inflight_body_bytes = 20971520;
  decoded_pixels_per_second = 4147200;
  target_latency_us = 33000;
  maximum_latency_us = 100000;
  retained_pixel_charge = 2073600;
}

full_hd : build_video new_builder 1920 1080 ≡ movie
unfolding build_video new_builder
full_hd = refl

abbrev clamped : Claims
clamped = record {
  kind = video_kind 1048528;
  maximum_record_body = 1048576;
  maximum_rate_millihertz = 60000;
  maximum_encoded_bits_per_second = 50000000;
  maximum_records_per_second = 60;
  maximum_inflight_body_bytes = 4194304;
  target_latency_us = 33000;
  maximum_latency_us = 100000;
  retained_pixel_charge = 2073600;
}

build_valid : build movie contract ≡ ok clamped
unfolding build clamp_kind checks check
build_valid = refl

four_k_refused : build (build_video new_builder 3840 2160) contract ≡ err exceeds_contract
unfolding build clamp_kind checks check build_video new_builder
four_k_refused = refl

build-AreCovered_example : AreCovered movie contract clamped
build-AreCovered_example = build-AreCovered movie contract clamped build_valid
