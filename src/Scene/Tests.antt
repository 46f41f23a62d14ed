-- ===== src/Scene/Tests.antt =====
-- A scene transaction and an activation of src/scene.rs, and instances of the theorems.
use vivid_sdk.Prelude.{ℕ, ◌≡◌, refl, true, false, none, some, List, [], ◌∷◌, length, ok}
use vivid_sdk.Samples.{remote, media, canvas, stage}
use vivid_sdk.Session.{Reply, check_ok, decoded_payload}
use vivid_sdk.Wire.{
  expect_record, validate_exact_payload_keys, range_inclusive, ensure_live_surface,
  ensure_live_track,
}
use vivid_sdk.Control.State.{allocate}
use vivid_sdk.Track.{TrackLocal, video, live_mode, bits_outside}
use vivid_sdk.Surface.{SurfaceLocal, advance}
use vivid_sdk.Scene.Commits.{read_presented, is_presented}
use vivid_sdk.Scene.{
  Sent, commits, record_type, object_of, SceneState, Presenter, next_request, allocate_id, send,
  dispatch_ok, or_abort_result, presented, store_revision, begin_transaction, mutate, commit,
  scene_transaction,
}
use vivid_sdk.Scene.Activation.{
  SlotBinding, count_ones, find_track, check_bound, check_cleared, check_binding, check_bindings,
  offline_activated, activation, activate_tracks, Activates, activate_tracks-Activates, is_empty,
}

abbrev fresh : SceneState stage
fresh = record {
  next_id = 1;
  next_request_id = 2;
  scene_revision = 0;
  target_generation = 1;
  sent = [];
}

abbrev offline : Presenter stage
offline = record { encodes = λ x. true; answer = λ xs x. ok none }

offline_commit :
    (scene_transaction stage offline 1 46 4 [] fresh).1
    ≡ ok record { scene_revision = 1; target_generation = 1 }
unfolding scene_transaction commit mutate begin_transaction store_revision presented or_abort_result
    dispatch_ok send allocate_id next_request allocate check_ok
offline_commit = refl

abbrev reply_to : Sent stage → ℕ → Reply remote
reply_to x record_type = record {
  record_type = record_type;
  object_id = object_of stage x;
  decoded = some record { request_id = x.request_id; payload = [] };
  error_code = none;
}

-- A presenter that answers the commit with a SCENE_PRESENTED without keys: no ABORT_TXN follows.
abbrev careless : Presenter stage
careless = record {
  encodes = λ x. true;
  answer = λ xs x. elim x.message [
    | commits generation revision ↦ ok (some (reply_to x 43))
    | _ ↦ ok (some (reply_to x 2))
  ];
}

malformed_leaves_open : length (scene_transaction stage careless 1 46 4 [] fresh).0.sent ≡ 3
unfolding scene_transaction commit mutate begin_transaction store_revision presented or_abort_result
    dispatch_ok send allocate_id next_request allocate check_ok expect_record is_presented
    read_presented decoded_payload validate_exact_payload_keys range_inclusive
malformed_leaves_open = refl

abbrev shown : SurfaceLocal canvas
shown = record {
  definition = record {
    context_id = 1;
    surface_id = 7;
    semantic_profile = "video";
    coordinate_model = 1;
    logical_width = 640;
    logical_height = 480;
    scale_numerator = 1;
    scale_denominator = 1;
    rotation = 0;
    descriptor = 0;
    policy = 0;
    profile_parameters = [];
  };
  revision = 1;
  generation = 1;
  destroyed = false;
}

abbrev movie : TrackLocal media
movie = record {
  configuration = record {
    context_id = 1;
    surface_id = 7;
    track_id = 9;
    kind_configuration = video;
    slot = 1;
    mode = live_mode;
    maximum_record_body = 4096;
  };
  revision = 1;
  channel_generation = 1;
  open_deadline_us = 1000;
  maximum_record_body = 4096;
  effective_claims = [];
  connection_required = true;
  delta_operation_limit = 0;
  media_sequence = record { last_id = 0; last_epoch = 0; last_record_sequence = 0 };
  active_flow = none;
  has_media = false;
  destroyed = false;
  lost = false;
}

abbrev bindings : List SlotBinding
bindings =
    record { slot = 1; track_id = 9; expected_channel_generation = 1; required_milestone = 16 }
    ∷ record { slot = 2; track_id = 0; expected_channel_generation = 0; required_milestone = 0 }
    ∷ []

activation_valid :
    (activate_tracks canvas shown (movie ∷ []) bindings (λ q. ok none) (λ s. s)).1 ≡ ok 1
unfolding activate_tracks activation check_bindings check_binding check_bound find_track count_ones
    offline_activated advance is_empty bits_outside ensure_live_surface ensure_live_track
    check_cleared
activation_valid = refl

activate_tracks-Activates_example :
    Activates canvas shown shown
      (movie ∷ [])
      bindings
      (activate_tracks canvas shown (movie ∷ []) bindings (λ q. ok none) (λ s. s)).0
      1
activate_tracks-Activates_example =
    activate_tracks-Activates canvas shown (movie ∷ []) bindings (λ q. ok none) (λ s. s) 1
      activation_valid
