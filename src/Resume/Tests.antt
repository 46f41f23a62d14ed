-- ===== src/Resume/Tests.antt =====
-- The adoption of a surface (src/resume.rs), and an instance of its theorem.
use vivid_sdk.Prelude.{◌≡◌, refl, ◌≢◌, false, none, [], ok, same_text}
use vivid_sdk.Samples.{canvas}
use vivid_sdk.Control.State.{advance_allocator_past}
use vivid_sdk.Surface.{SurfaceLocal}
use vivid_sdk.Surface.Query.{query_surface, surface_status, offline_surface, check_surface}
use vivid_sdk.Resume.{
  Adopter, IsAdopted, find_entry, pass_id, insert_surface, adopt_surface, adopt_surface-IsAdopted,
}

abbrev kept : SurfaceLocal canvas
kept = record {
  definition = record {
    context_id = 1;
    surface_id = 7;
    semantic_profile = "video";
    coordinate_model = 1;
    logical_width = 640;
    logical_height = 480;
    scale_numerator = 1;
    scale_denominator = 1;
    rotation = 90;
    descriptor = 0;
    policy = 0;
    profile_parameters = [];
  };
  revision = 1;
  generation = 1;
  destroyed = false;
}

abbrev resumed : Adopter
resumed = record { surfaces = []; tracks = []; next_id = 1 }

adoption_valid :
    (adopt_surface canvas resumed kept 3 (λ q. ok none) (λ s. s)).2
    ≡ ok (offline_surface canvas kept)
unfolding adopt_surface insert_surface pass_id find_entry advance_allocator_past query_surface
    surface_status check_surface offline_surface same_text
adoption_valid = refl

adopt_surface-IsAdopted_example :
    ((offline_surface canvas kept).lifecycle ≢ 3)
    × IsAdopted resumed
        (adopt_surface canvas resumed kept 3 (λ q. ok none) (λ s. s)).0
        ((offline_surface canvas kept).context_id, (offline_surface canvas kept).surface_id)
        3
adopt_surface-IsAdopted_example =
    adopt_surface-IsAdopted canvas resumed kept 3 (λ q. ok none) (λ s. s)
      (offline_surface canvas kept) adoption_valid
