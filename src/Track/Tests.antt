-- ===== src/Track/Tests.antt =====
-- The operations of src/track.rs on a video track, and instances of their theorems.
use vivid_sdk.Prelude.{◌≤◌, ◌≡◌, refl, true, false, none, some, [], ◌∷◌, arith, ok, err}
use vivid_sdk.Samples.{remote, media, empty_window}
use vivid_sdk.Session.{decoded_payload, Reply, Answer, invalid_input}
use vivid_sdk.Track.{
  video_kind, Configuration, video, timed_mode, FlowView, TrackLocal, is_live, bits_outside,
}
use vivid_sdk.Track.Conditions.{
  channel_closed, milestone_set, try_from, takes_value, validate_value,
}
use vivid_sdk.Track.Query.{
  TrackStatus, query_status, query_track, online_status, detached, read_status, read_state,
  read_gain, check_status,
}
use vivid_sdk.Track.Query.Reconciles.{
  Describes, TakesOver, query_status-Describes, query_track-TakesOver, late_status_revives,
}
use vivid_sdk.Track.Wait.{TrackWaitSatisfied, wait_track, Satisfies, wait_track-Satisfies}
use vivid_sdk.Track.Create.{Registry, create_track, Creates, create_track-Creates, has_track}
use vivid_sdk.Track.Commands.{Acknowledge, destroy_track, RefusesAll, destroyed-RefusesAll}
use vivid_sdk.Wire.{
  find_map, validate_track_tuple, required_u64, required_u32, range_inclusive,
  validate_payload_keys, expect_record, optional_u64, optional_map, required_value,
  ensure_live_track,
}

abbrev movie : Configuration
movie = record {
  context_id = 1;
  surface_id = 7;
  track_id = 9;
  kind_configuration = video;
  slot = 1;
  mode = timed_mode;
  maximum_record_body = 4096;
}

abbrev view : FlowView media
view = record { window = empty_window; closed = false; diagnostic = none }

abbrev playing : TrackLocal media
playing = record {
  configuration = movie;
  revision = 3;
  channel_generation = 1;
  open_deadline_us = 1000;
  maximum_record_body = 4096;
  effective_claims = [];
  connection_required = true;
  delta_operation_limit = 0;
  media_sequence = record { last_id = 5; last_epoch = 2; last_record_sequence = 4 };
  active_flow = some view;
  has_media = true;
  destroyed = false;
  lost = false;
}

-- The status of a presenter that has seen less than was sent.
abbrev status_reply : Reply remote
status_reply = record {
  record_type = 15;
  object_id = 9;
  decoded = some record {
    request_id = 5;
    payload =
        (0, 1)
        ∷ (1, 7)
        ∷ (2, 9)
        ∷ (3, 4)
        ∷ (4, 1)
        ∷ (5, 2)
        ∷ (6, 1)
        ∷ (7, 1)
        ∷ (8, 1)
        ∷ (9, 1)
        ∷ (10, 2)
        ∷ (11, 4)
        ∷ (12, 3)
        ∷ (13, 0)
        ∷ (14, 0)
        ∷ (15, 0)
        ∷ (16, 10)
        ∷ (17, 2)
        ∷ (18, 100)
        ∷ (19, 8)
        ∷ (20, 0)
        ∷ [];
  };
  error_code = none;
}

abbrev reports : Answer remote
reports q = ok (some status_reply)

abbrev reported : TrackStatus media
reported = record {
  context_id = 1;
  surface_id = 7;
  track_id = 9;
  revision = 4;
  kind_ = video_kind;
  mode = timed_mode;
  lifecycle = 1;
  channel_generation = 1;
  attachment_state = 1;
  milestones = 1;
  media_epoch = 2;
  last_media_id = 4;
  last_media_record_sequence = 3;
  last_decoded_pts_us = 0;
  last_presented_pts_us = 0;
  last_presentation_id = 0;
  cumulative_body_bytes = 10;
  cumulative_media_records = 2;
  maximum_body_bytes = 100;
  maximum_media_records = 8;
  ingress_depth_bucket = 0;
  playback_state = none;
  terminal_loss_code = none;
  audio_gain = none;
}

query_valid : query_status media false playing reports ≡ ok reported
unfolding query_status online_status check_status read_status read_state read_gain find_map
    validate_track_tuple required_u64 required_u32 required_value range_inclusive
    validate_payload_keys expect_record optional_u64 optional_map decoded_payload bits_outside
query_valid = refl

query_status-Describes_example : Describes media false playing reported
query_status-Describes_example =
    query_status-Describes media false playing reports reported query_valid

-- A loss that the reader of the control plane handles while the query waits.
abbrev loses : TrackLocal media → TrackLocal media
loses t = record t {
  destroyed = true;
  lost = true;
  active_flow = none;
  has_media = false;
  revision = 8;
}

query_answered : (query_track media false playing reports loses).1 ≡ ok reported
unfolding query_track
query_answered = rw (query_valid, query_track) refl

query_track-TakesOver_example :
    TakesOver media
      (loses playing)
      reported
      (query_track media false playing reports loses).0
      (detached media (loses playing) reported)
query_track-TakesOver_example =
    query_track-TakesOver media false playing reports loses reported query_answered

late_status_revives_example :
    (is_live media (query_track media false playing reports loses).0 ≡ ok tt)
    × ((query_track media false playing reports loses).0.lost ≡ true)
late_status_revives_example =
    late_status_revives media false playing reports loses reported query_answered (omega arith) refl

view_within :
    (f : FlowView media)
    → playing.active_flow ≡ some f
    → (f.window.sent_bytes ≤ f.window.maximum_bytes)
      × (f.window.sent_records ≤ f.window.maximum_records)
view_within f e = (ground arith, ground arith)

unknown_condition : try_from 10 ≡ err invalid_input
unfolding try_from
unknown_condition = refl

known_milestone : validate_value 1023 milestone_set (some 512) ≡ ok tt
unfolding validate_value bits_outside takes_value
known_milestone = refl

unknown_milestone : validate_value 1023 milestone_set (some 1024) ≡ err invalid_input
unfolding validate_value bits_outside takes_value
unknown_milestone = refl

abbrev satisfied : TrackWaitSatisfied media
satisfied = record {
  context_id = 1;
  surface_id = 7;
  track_id = 9;
  revision = 3;
  channel_generation = 1;
  condition = channel_closed;
  observed_value = none;
}

wait_valid : wait_track media playing channel_closed none 1000 (λ q. ok none) ≡ ok satisfied
unfolding wait_track validate_value ensure_live_track takes_value
wait_valid = refl

wait_track-Satisfies_example : Satisfies media playing channel_closed none 1000 satisfied
wait_track-Satisfies_example =
    wait_track-Satisfies media playing channel_closed none 1000 (λ q. ok none) satisfied wait_valid

abbrev session_tracks : Registry media
session_tracks = record { surfaces = (1, 7) ∷ []; tracks = [] }

create_track-Creates_example :
    Creates media session_tracks movie (create_track media session_tracks movie (λ q. ok none))
create_track-Creates_example = create_track-Creates media session_tracks movie (λ q. ok none)

abbrev acknowledges : Acknowledge media
acknowledges q = ok tt

destroy_valid : (destroy_track media playing (playing ∷ []) acknowledges (λ t. t)).3 ≡ ok tt
unfolding destroy_track ensure_live_track
destroy_valid = refl

destroyed-RefusesAll_example :
    RefusesAll media (destroy_track media playing (playing ∷ []) acknowledges (λ t. t)).0
    × (has_track media (destroy_track media playing (playing ∷ []) acknowledges (λ t. t)).2 movie
        ≡ false)
    × (playing.active_flow ≡ some view
        → (c : FlowView media) × ((destroy_track media playing
              (playing ∷ [])
              acknowledges
              (λ t. t)).1
            ≡ some c)
          × (c.closed ≡ true))
destroyed-RefusesAll_example =
    destroyed-RefusesAll media playing (playing ∷ []) acknowledges (λ t. t) view destroy_valid
