-- ===== src/Track/Query.antt =====
-- `Session::query_track` of src/track.rs: the status of a track, online and offline, and what the
-- track takes over of it.
pub mod Reconciles
use vivid_sdk.Prelude.{
  ◌+◌, ◌-◌, ◌*◌, ◌/◌, ◌%◌, ◌^◌, ◌≤◌, ◌<◌, min, max, ℕ, zero, suc, ◌≡◌, refl, sym, ap, ◌∙◌, ◌≢◌, ◌↔◌,
  ◌⊎◌, inl, inr, Bool, true, false, not, ◌&&◌, ◌||◌, Option, none, some, List, [], ◌∷◌, ◌++◌, map,
  arith, ltb, leb, ◌==◌, if◌then◌else◌, ltb→lt, lt→ltb, leb→le, ==_iff, Bool-cases, Option-cases,
  length, get_elem?, All, length-append, get_elem?-some, Result, ok, err, Result-cases, refused,
  ◌>>=◌, ◌>>◌, refuse_if, or_fail, u32_max, u64_max, saturating_add, saturating_mul, checked_add,
  duration_max, add_duration, as_micros,
}
use vivid_sdk.Wire
use vivid_sdk.Wire.{
  PayloadMap, validate_payload_keys, required_u64, required_u32, optional_u64, optional_map,
  expect_record,
}
use vivid_sdk.Session.{
  Error, Reply, Answer, lift, decoded_payload, undecodable, invalid_input, invalid_data,
  required_i64, require_nonzero,
}
use vivid_sdk.Channel.State.{MediaSequence}
use vivid_sdk.Track.{
  Media, TrackKind, TrackMode, Configuration, KindConfiguration, kind, TrackLocal, FlowView, Reason,
  bits_outside, is_some, raster_kind, video_kind, audio_kind, image_kind, live_mode, timed_mode,
  close_track_flow, identity, request_for, validate_identity, different_generation, reported_lost,
  reported_tombstone,
}

abbrev pub same_kind : TrackKind → TrackKind → Bool
same_kind raster_kind raster_kind = true
same_kind video_kind video_kind = true
same_kind audio_kind audio_kind = true
same_kind image_kind image_kind = true
same_kind a b = false

abbrev pub same_mode : TrackMode → TrackMode → Bool
same_mode live_mode live_mode = true
same_mode timed_mode timed_mode = true
same_mode a b = false

module _ (m : Media) where
  pub record TrackStatus : Type 0 where
    pub context_id : ℕ
    pub surface_id : ℕ
    pub track_id : ℕ
    pub revision : ℕ
    pub kind_ : TrackKind
    pub mode : TrackMode
    pub lifecycle : ℕ
    pub channel_generation : ℕ
    pub attachment_state : ℕ
    pub milestones : ℕ
    pub media_epoch : ℕ
    pub last_media_id : ℕ
    pub last_media_record_sequence : ℕ
    pub last_decoded_pts_us : m.remote.Signed
    pub last_presented_pts_us : m.remote.Signed
    pub last_presentation_id : ℕ
    pub cumulative_body_bytes : ℕ
    pub cumulative_media_records : ℕ
    pub maximum_body_bytes : ℕ
    pub maximum_media_records : ℕ
    pub ingress_depth_bucket : ℕ
    pub playback_state : Option (PayloadMap m.remote.cbor)
    pub terminal_loss_code : Option ℕ
    pub audio_gain : Option ℕ

  unfoldable pub read_gain : Option ℕ → Result Error (Option ℕ)
  read_gain none = ok none
  read_gain (some raw) = do gain ← or_fail (m.audio_gain raw) invalid_data; ok (some gain)

  -- The checks of TRACK_STATUS that need only a few of its keys.
  unfoldable pub read_state :
      Bool → PayloadMap m.remote.cbor → Result Error (TrackKind × TrackMode × Option ℕ)
  unfolding read_gain
  read_state supports_gain payload = do
    k ← lift (required_u64 m.remote.cbor payload 4)
    kind_ ← or_fail (m.kind_of k) invalid_data
    o ← lift (required_u64 m.remote.cbor payload 5)
    mode ← or_fail (m.mode_of o) invalid_data
    lifecycle ← lift (required_u64 m.remote.cbor payload 6)
    attachment_state ← lift (required_u64 m.remote.cbor payload 8)
    milestones ← lift (required_u64 m.remote.cbor payload 9)
    refuse_if
        (ltb 7 lifecycle
          || ltb 2 attachment_state
          || not (bits_outside m.known_mask milestones == 0))
        invalid_data
    raw ← lift (optional_u64 m.remote.cbor payload 23)
    gain ← read_gain raw
    refuse_if (is_some gain && (not supports_gain || not (same_kind kind_ audio_kind))) invalid_data
    ok (kind_, mode, gain)

  unfoldable pub read_status : Bool → PayloadMap m.remote.cbor → Result Error TrackStatus
  unfolding read_state
  read_status supports_gain payload = do
    (kind_, mode, gain) ← read_state supports_gain payload
    context_id ← lift (required_u64 m.remote.cbor payload 0)
    surface_id ← lift (required_u64 m.remote.cbor payload 1)
    track_id ← lift (required_u64 m.remote.cbor payload 2)
    revision ← lift (required_u64 m.remote.cbor payload 3)
    lifecycle ← lift (required_u64 m.remote.cbor payload 6)
    channel_generation ← lift (required_u64 m.remote.cbor payload 7)
    attachment_state ← lift (required_u64 m.remote.cbor payload 8)
    milestones ← lift (required_u64 m.remote.cbor payload 9)
    media_epoch ← lift (required_u32 m.remote.cbor payload 10)
    last_media_id ← lift (required_u64 m.remote.cbor payload 11)
    last_media_record_sequence ← lift (required_u64 m.remote.cbor payload 12)
    decoded ← lift (required_i64 m.remote payload 13)
    presented ← lift (required_i64 m.remote payload 14)
    last_presentation_id ← lift (required_u64 m.remote.cbor payload 15)
    bytes ← lift (required_u64 m.remote.cbor payload 16)
    records ← lift (required_u64 m.remote.cbor payload 17)
    maximum_bytes ← lift (required_u64 m.remote.cbor payload 18)
    maximum_records ← lift (required_u64 m.remote.cbor payload 19)
    bucket ← lift (required_u64 m.remote.cbor payload 20)
    playback ← lift (optional_map m.remote.cbor payload 21)
    loss ← lift (optional_u64 m.remote.cbor payload 22)
    ok record {
      context_id = context_id;
      surface_id = surface_id;
      track_id = track_id;
      revision = revision;
      kind_ = kind_;
      mode = mode;
      lifecycle = lifecycle;
      channel_generation = channel_generation;
      attachment_state = attachment_state;
      milestones = milestones;
      media_epoch = media_epoch;
      last_media_id = last_media_id;
      last_media_record_sequence = last_media_record_sequence;
      last_decoded_pts_us = decoded;
      last_presented_pts_us = presented;
      last_presentation_id = last_presentation_id;
      cumulative_body_bytes = bytes;
      cumulative_media_records = records;
      maximum_body_bytes = maximum_bytes;
      maximum_media_records = maximum_records;
      ingress_depth_bucket = bucket;
      playback_state = playback;
      terminal_loss_code = loss;
      audio_gain = gain;
    }

  unfoldable pub online_status : Bool → TrackLocal m → Reply m.remote → Result Error TrackStatus
  unfolding read_status
  online_status supports_gain t reply = do
    lift (expect_record reply.record_type reply.object_id m.track_status t.configuration.track_id)
    payload ← decoded_payload m.remote reply
    lift (validate_payload_keys m.remote.cbor payload 0 20 (21 ∷ 22 ∷ 23 ∷ []))
    validate_identity m payload t.configuration
    read_status supports_gain payload

  -- Lifecycle, attachment and milestones of a track in an offline session.
  unfoldable pub offline_lifecycle : TrackLocal m → ℕ × ℕ × ℕ
  offline_lifecycle t = elim t.active_flow [
    | some f ↦ if f.closed then (4, 2, m.channel_detached) else (1, 1, m.channel_accepted)
    | none ↦ if t.destroyed then (7, 2, 0) else (0, 0, 0)
  ]

  unfoldable pub offline_window : TrackLocal m → m.flow.Flow
  offline_window t = elim t.active_flow [ some f ↦ f.window | none ↦ m.default_flow ]

  unfoldable pub offline_status : Bool → TrackLocal m → TrackStatus
  unfolding offline_lifecycle offline_window
  offline_status supports_gain t =
      let (lifecycle, attachment_state, milestones) = offline_lifecycle t in
      let window = offline_window t in
      record {
        context_id = t.configuration.context_id;
        surface_id = t.configuration.surface_id;
        track_id = t.configuration.track_id;
        revision = t.revision;
        kind_ = kind t.configuration.kind_configuration;
        mode = t.configuration.mode;
        lifecycle = lifecycle;
        channel_generation = t.channel_generation;
        attachment_state = attachment_state;
        milestones = milestones;
        media_epoch = t.media_sequence.last_epoch;
        last_media_id = t.media_sequence.last_id;
        last_media_record_sequence = t.media_sequence.last_record_sequence;
        last_decoded_pts_us = m.remote.zero_signed;
        last_presented_pts_us = m.remote.zero_signed;
        last_presentation_id = 0;
        cumulative_body_bytes = m.flow.sent_body_bytes window;
        cumulative_media_records = m.flow.sent_media_records window;
        maximum_body_bytes = m.flow.maximum_body_bytes window;
        maximum_media_records = m.flow.maximum_media_records window;
        ingress_depth_bucket = 0;
        playback_state = none;
        terminal_loss_code = none;
        audio_gain =
            if supports_gain && same_kind (kind t.configuration.kind_configuration) audio_kind
            then some m.unity_gain
            else none;
      }

  unfoldable pub check_status : TrackLocal m → TrackStatus → Result Error TrackStatus
  check_status t s = do
    require_nonzero s.revision
    require_nonzero s.channel_generation
    refuse_if
        (not (same_kind s.kind_ (kind t.configuration.kind_configuration))
          || not (same_mode s.mode t.configuration.mode)
          || ltb s.maximum_body_bytes s.cumulative_body_bytes
          || ltb s.maximum_media_records s.cumulative_media_records)
        invalid_data
    ok s

  -- `query_track` up to its second lock of the track, on the snapshot `t` of the first.
  unfoldable pub query_status : Bool → TrackLocal m → Answer m.remote → Result Error TrackStatus
  unfolding online_status offline_status check_status
  query_status supports_gain t answer = do
    reply ← answer (request_for m m.query_track t.configuration (identity m t.configuration))
    status ← elim reply [
      | some r ↦ online_status supports_gain t r
      | none ↦ ok (offline_status supports_gain t)
    ]
    check_status t status

  abbrev pub ends_track : ℕ → Bool
  ends_track lifecycle = lifecycle == 6 || lifecycle == 7

  -- `TrackMediaSequence::reconcile_status`.
  unfoldable pub reconcile_sequence : MediaSequence → TrackStatus → Bool → MediaSequence
  reconcile_sequence q s generation_changed = record {
    last_id = max q.last_id s.last_media_id;
    last_epoch = max q.last_epoch s.media_epoch;
    last_record_sequence =
        if generation_changed
        then s.last_media_record_sequence
        else max q.last_record_sequence s.last_media_record_sequence;
  }

  -- The flow that a status detaches, after it was closed.
  unfoldable pub detached : TrackLocal m → TrackStatus → Option (FlowView m)
  detached t s =
      if not (s.channel_generation == t.channel_generation)
      then close_track_flow m t.active_flow different_generation
      else if s.lifecycle == 6
      then close_track_flow m t.active_flow reported_lost
      else if s.lifecycle == 7
      then close_track_flow m t.active_flow reported_tombstone
      else none

  -- The rest of `query_track`: what the track takes over of a status.
  unfoldable pub reconcile : TrackLocal m → TrackStatus → TrackLocal m
  unfolding reconcile_sequence
  reconcile t s =
      let generation_changed = not (s.channel_generation == t.channel_generation) in
      let detaches = generation_changed || ends_track s.lifecycle in
      record t {
        active_flow = if detaches then none else t.active_flow;
        has_media = if detaches then false else t.has_media;
        revision = s.revision;
        channel_generation = s.channel_generation;
        destroyed = ends_track s.lifecycle;
        media_sequence = reconcile_sequence t.media_sequence s generation_changed;
      }

  -- `during` is what other threads make of the track while the request waits for its reply.
  unfoldable pub query_track :
      Bool
      → TrackLocal m
      → Answer m.remote
      → (TrackLocal m → TrackLocal m)
      → TrackLocal m × Result Error TrackStatus
  unfolding query_status reconcile
  query_track supports_gain t answer during = elim (query_status supports_gain t answer) [
    | err e ↦ (during t, err e)
    | ok s ↦ (reconcile (during t) s, ok s)
  ]
