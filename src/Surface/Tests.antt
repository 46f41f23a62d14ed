-- ===== src/Surface/Tests.antt =====
-- A surface of src/surface.rs through its operations, and instances of the theorems.
use vivid_sdk.Prelude.{◌≡◌, refl, true, false, none, some, [], ◌∷◌, ok, same_text}
use vivid_sdk.Samples.{media, canvas}
use vivid_sdk.Wire.{ensure_live_surface}
use vivid_sdk.Track.{TrackLocal, video, live_mode}
use vivid_sdk.Surface.{
  SurfaceDefinition, Definitions, SurfaceLocal, Owned, Acknowledge, update_surface, destroy_surface,
}
use vivid_sdk.Surface.Lifecycle.{Updates, update_surface-Updates, IsGone, destroy_surface-IsGone}
use vivid_sdk.Surface.Query.{query_surface, surface_status, offline_surface, check_surface}

abbrev window : SurfaceDefinition canvas
window = record {
  context_id = 1;
  surface_id = 7;
  semantic_profile = "video";
  coordinate_model = 1;
  logical_width = 640;
  logical_height = 480;
  scale_numerator = 1;
  scale_denominator = 1;
  rotation = 90;
  descriptor = 0;
  policy = 0;
  profile_parameters = [];
}

abbrev shown : SurfaceLocal canvas
shown = record { definition = window; revision = 1; generation = 1; destroyed = false }

abbrev accepts_all : Definitions canvas
accepts_all = record { validate = λ d. true; create_payload = λ d. some [] }

abbrev acknowledges : Acknowledge canvas
acknowledges q = ok tt

abbrev turned : SurfaceDefinition canvas
turned = record window { rotation = 180 }

update_surface-Updates_example :
    Updates canvas accepts_all shown shown turned
      (update_surface canvas accepts_all shown turned acknowledges (λ s. s))
update_surface-Updates_example =
    update_surface-Updates canvas accepts_all shown turned acknowledges (λ s. s)

abbrev on_it : TrackLocal media
on_it = record {
  configuration = record {
    context_id = 1;
    surface_id = 7;
    track_id = 9;
    kind_configuration = video;
    slot = 1;
    mode = live_mode;
    maximum_record_body = 4096;
  };
  revision = 1;
  channel_generation = 1;
  open_deadline_us = 1000;
  maximum_record_body = 4096;
  effective_claims = [];
  connection_required = true;
  delta_operation_limit = 0;
  media_sequence = record { last_id = 0; last_epoch = 0; last_record_sequence = 0 };
  active_flow = none;
  has_media = false;
  destroyed = false;
  lost = false;
}

abbrev owned : Owned canvas
owned = record { surfaces = shown ∷ []; tracks = on_it ∷ [] }

destroy_valid : (destroy_surface canvas shown owned acknowledges).1 ≡ ok tt
unfolding destroy_surface ensure_live_surface
destroy_valid = refl

destroy_surface-IsGone_example :
    IsGone canvas shown owned (destroy_surface canvas shown owned acknowledges).0
destroy_surface-IsGone_example =
    destroy_surface-IsGone canvas shown owned acknowledges destroy_valid

query_valid :
    (query_surface canvas shown (λ q. ok none) (λ s. s)).1 ≡ ok (offline_surface canvas shown)
unfolding query_surface surface_status check_surface offline_surface same_text
query_valid = refl
