-- ===== src/Builder/Bounds.antt =====
-- What the configurations built by src/orch.rs claim of the resource contract.
use vivid_sdk.Prelude.{◌+◌, ◌*◌, ◌≤◌, ◌<◌, min, max, ℕ, ◌≡◌, ap, ◌∙◌, arith, ok, u32_max}
use vivid_sdk.Builder.{
  ResourceContract, BuilderKind, unset_kind, video_kind, audio_kind, TrackBuilder, build_video,
  video_packet_overhead, clamp_kind, check, checks, Claims, build,
}

-- Claims that the contract covers and that fit each other.
pub record AreCovered (b : TrackBuilder) (c : ResourceContract) (x : Claims) : Type 0 where
  pub carries : 0 < x.maximum_record_body
  pub body_within : x.maximum_record_body ≤ c.media_record_body
  pub body_u32 : x.maximum_record_body ≤ u32_max
  pub one_in_flight : x.maximum_record_body ≤ x.maximum_inflight_body_bytes
  pub inflight_within : x.maximum_inflight_body_bytes ≤ c.inflight_media_bytes
  pub bits_within : x.maximum_encoded_bits_per_second ≤ c.encoded_bits_per_second
  pub records_asked : x.maximum_records_per_second ≡ max b.max_records_per_second 1
  pub records_within : x.maximum_records_per_second ≤ max c.media_records_per_second 1
  pub bits_asked : x.maximum_encoded_bits_per_second ≡ b.max_encoded_bits_per_second
  pub rate_asked : x.maximum_rate_millihertz ≡ max b.max_rate_millihertz 1
  pub demand_within : b.decoded_pixels_per_second ≤ c.decoded_pixels_per_second
  pub unit_fits :
      (n : ℕ)
      → x.kind ≡ video_kind n
      → (0 < n) × (n + video_packet_overhead ≤ x.maximum_record_body)

-- The part of the claims that the checks decide.
record Checked (b : TrackBuilder) (c : ResourceContract) (x : Claims) (body : ℕ) : Type 0 where
  is_body : x.maximum_record_body ≡ body
  positive : 0 < body
  ceiling : body ≤ c.media_record_body
  small : body ≤ u32_max
  clamped : clamp_kind b.kind body ≡ ok x.kind

clamp_kind_lem :
    (k : BuilderKind) (body n : ℕ)
    → clamp_kind k body ≡ ok (video_kind n)
    → (0 < n) × (n + video_packet_overhead ≤ body)
unfolding clamp_kind
clamp_kind_lem unset_kind body n e = absurd (ground arith)
clamp_kind_lem (audio_kind k) body n e = absurd (ground arith)
clamp_kind_lem (video_kind k) body n e = (ground arith, ground arith)

build-Checked :
    (b : TrackBuilder) (c : ResourceContract) (x : Claims)
    → build b c ≡ ok x
    → Checked b c x (min (max b.maximum_record_body 1) (min c.media_record_body u32_max))
unfolding build checks check
build-Checked b c x e = record {
  is_body = ground arith;
  positive = ground arith;
  ceiling = omega arith;
  small = omega arith;
  clamped = ground arith;
}

records_asked_lem :
    (b : TrackBuilder) (c : ResourceContract) (x : Claims)
    → build b c ≡ ok x
    → (x.maximum_records_per_second ≡ max b.max_records_per_second 1)
      × (b.max_records_per_second ≤ c.media_records_per_second)
unfolding build checks check
records_asked_lem b c x e = (ground arith, ground arith)

records_within_lem :
    (b : TrackBuilder) (c : ResourceContract) (x : Claims)
    → build b c ≡ ok x
    → x.maximum_records_per_second ≤ max c.media_records_per_second 1
records_within_lem b c x e =
    let (asked, within) = records_asked_lem b c x e in rw asked (omega (arith, within))

-- A configuration that is built claims no more than the contract allows, of record body, bytes in
-- flight, encoded bits and records per second, where it claims the bits and records that were asked for
-- and always one record, even of a contract that allows none; its builder asked for no more decoded
-- pixels than the contract allows; one record of the largest size fits in flight; and the largest
-- access unit of a video track, which is not empty, fits with its header in a record.
pub build-AreCovered :
    (b : TrackBuilder) (c : ResourceContract) (x : Claims) → build b c ≡ ok x → AreCovered b c x
unfolding build checks check
build-AreCovered b c x e =
    let q = build-Checked b c x e in
    let body = q.is_body in
    let positive = q.positive in
    let ceiling = q.ceiling in
    let small = q.small in
    record {
      carries = ground arith;
      body_within = ground arith;
      body_u32 = ground arith;
      one_in_flight = ground arith;
      inflight_within = ground arith;
      bits_within = ground arith;
      records_asked = ground arith;
      records_within = records_within_lem b c x e;
      bits_asked = ground arith;
      rate_asked = ground arith;
      demand_within = ground arith;
      unit_fits = λ n k.
          let (some_, fits) = clamp_kind_lem b.kind _ n (q.clamped ∙ ap ok k) in
          (some_, rw body fits);
    }

-- A video of the largest width and height claims fewer decoded pixels than one picture has, since the
-- product is computed in 64 bits.
pub huge_video_wraps :
    (b : TrackBuilder)
    → b.decoded_pixels_per_second ≡ 0
    → (build_video b u32_max u32_max).decoded_pixels_per_second < u32_max * u32_max
unfolding build_video
huge_video_wraps b e = omega arith
