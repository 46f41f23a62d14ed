-- ===== src/Surface.antt =====
-- src/surface.rs: the state of a surface, and creating, updating and destroying one. Query is
-- `query_surface`; Lifecycle and Query hold the theorems.
pub mod Query
pub mod Lifecycle
mod Tests
use vivid_sdk.Prelude.{
  ◌+◌, ◌-◌, ◌*◌, ◌/◌, ◌%◌, ◌^◌, ◌≤◌, ◌<◌, min, max, ℕ, zero, suc, ◌≡◌, refl, sym, ap, ◌∙◌, ◌≢◌, ◌↔◌,
  ◌⊎◌, inl, inr, Bool, true, false, not, ◌&&◌, ◌||◌, Option, none, some, List, [], ◌∷◌, ◌++◌, map,
  arith, ltb, leb, ◌==◌, if◌then◌else◌, ltb→lt, lt→ltb, leb→le, ==_iff, Bool-cases, Option-cases,
  length, get_elem?, All, length-append, get_elem?-some, Result, ok, err, Result-cases, refused,
  ◌>>=◌, ◌>>◌, refuse_if, or_fail, u32_max, u64_max, saturating_add, saturating_mul, checked_add,
  duration_max, add_duration, as_micros, same_text, same_text-eq,
}
use Prim.Native.Nat.{bit_or}
use Prim.Native.String.{String}
use vivid_sdk.Wire.{
  PayloadMap, expect_record, validate_exact_payload_keys, validate_owner_pair, required_u64,
  required_map, ensure_live_surface,
}
use vivid_sdk.Session.{
  Remote, Error, Reply, Answer, Request, lift, decoded_payload, invalid_input, invalid_data,
  require_nonzero,
}
use vivid_sdk.Track.{Media, TrackLocal, FlowView, close_track_flow, owning_surface_destroyed}

-- What surfaces use of other crates: tracks with their requests, descriptors, coordinate models by
-- their numbers, equality of texts and payload maps, and the validation of a definition.
pub record Canvas : Type 1 where
  pub media : Media
  pub Descriptor : Type 0
  pub descriptor_value : Descriptor → Option media.remote.cbor.Value
  pub descriptor_of : media.remote.cbor.Value → Option Descriptor
  pub coordinate_model_of : ℕ → Option ℕ
  pub map_value : PayloadMap media.remote.cbor → media.remote.cbor.Value
  pub same_map : PayloadMap media.remote.cbor → PayloadMap media.remote.cbor → Bool
  pub create_surface : ℕ
  pub surface_ready : ℕ
  pub update_surface : ℕ
  pub destroy_surface : ℕ
  pub query_surface : ℕ
  pub surface_status : ℕ
  pub array_value : List media.remote.cbor.Value → media.remote.cbor.Value
  pub activate_track : ℕ
  pub track_activated : ℕ

module _ (c : Canvas) where
  pub record SurfaceDefinition : Type 0 where
    pub context_id : ℕ
    pub surface_id : ℕ
    pub semantic_profile : String
    pub coordinate_model : ℕ
    pub logical_width : ℕ
    pub logical_height : ℕ
    pub scale_numerator : ℕ
    pub scale_denominator : ℕ
    pub rotation : ℕ
    pub descriptor : c.Descriptor
    pub policy : ℕ
    pub profile_parameters : PayloadMap c.media.remote.cbor

  -- `definition.validate()` and `definition.create_payload()`.
  pub record Definitions : Type 0 where
    pub validate : SurfaceDefinition → Bool
    pub create_payload : SurfaceDefinition → Option (PayloadMap c.media.remote.cbor)

  pub record SurfaceLocal : Type 0 where
    pub definition : SurfaceDefinition
    pub revision : ℕ
    pub generation : ℕ
    pub destroyed : Bool

  -- The registries of a session.
  pub record Owned : Type 0 where
    pub surfaces : List SurfaceLocal
    pub tracks : List (TrackLocal c.media)

  abbrev pub request_about : ℕ → ℕ → PayloadMap c.media.remote.cbor → Request c.media.remote
  request_about record_type surface_id payload = record {
    record_type = record_type;
    object_id = surface_id;
    payload = payload;
    transaction_id = none;
    expected_target_generation = none;
  }

  abbrev pub owner_pair : ℕ → ℕ → PayloadMap c.media.remote.cbor
  owner_pair context_id surface_id =
      (0, c.media.remote.unsigned context_id) ∷ (1, c.media.remote.unsigned surface_id) ∷ []

  abbrev pub is_at : ℕ → ℕ → SurfaceLocal → Bool
  is_at context_id surface_id s =
      s.definition.context_id == context_id && s.definition.surface_id == surface_id

  unfoldable pub holds_surface : List SurfaceLocal → ℕ → ℕ → Bool
  holds_surface [] context_id surface_id = false
  holds_surface (s ∷ ss) context_id surface_id =
      is_at context_id surface_id s || holds_surface ss context_id surface_id

  unfoldable pub remove_surface : List SurfaceLocal → ℕ → ℕ → List SurfaceLocal
  remove_surface [] context_id surface_id = []
  remove_surface (s ∷ ss) context_id surface_id =
      let rest = remove_surface ss context_id surface_id in
      if is_at context_id surface_id s then rest else s ∷ rest

  -- Revision, generation, policy and parameters of a new surface.
  abbrev pub Ready : Type 0
  Ready = ℕ × ℕ × ℕ × PayloadMap c.media.remote.cbor

  unfoldable pub read_ready : SurfaceDefinition → Reply c.media.remote → Result Error Ready
  read_ready d reply = do
    lift (expect_record reply.record_type reply.object_id c.surface_ready d.surface_id)
    payload ← decoded_payload c.media.remote reply
    lift (validate_exact_payload_keys c.media.remote.cbor payload 0 5)
    lift (validate_owner_pair c.media.remote.cbor payload d.context_id d.surface_id)
    revision ← lift (required_u64 c.media.remote.cbor payload 2)
    generation ← lift (required_u64 c.media.remote.cbor payload 3)
    policy ← lift (required_u64 c.media.remote.cbor payload 4)
    parameters ← lift (required_map c.media.remote.cbor payload 5)
    ok (revision, generation, policy, parameters)

  unfoldable pub new_surface : SurfaceDefinition → Ready → Result Error SurfaceLocal
  new_surface d (revision, generation, policy, parameters) = do
    require_nonzero revision
    require_nonzero generation
    refuse_if (not (generation == 1)) invalid_data
    ok record {
      definition = record d { policy = policy; profile_parameters = parameters };
      revision = revision;
      generation = generation;
      destroyed = false;
    }

  unfoldable pub ready_surface :
      Definitions → Owned → SurfaceDefinition → Answer c.media.remote → Result Error SurfaceLocal
  ready_surface k o d answer = do
    refuse_if (not (k.validate d)) invalid_input
    refuse_if (holds_surface o.surfaces d.context_id d.surface_id) invalid_input
    payload ← or_fail (k.create_payload d) invalid_data
    reply ← answer (request_about c.create_surface d.surface_id payload)
    ready ← elim reply [
      | some r ↦ read_ready d r
      | none ↦ ok (1, 1, d.policy, d.profile_parameters)
    ]
    new_surface d ready

  unfoldable pub create_surface :
      Definitions
      → Owned
      → SurfaceDefinition
      → Answer c.media.remote
      → Owned × Result Error SurfaceLocal
  create_surface k o d answer = elim (ready_surface k o d answer) [
    | err e ↦ (o, err e)
    | ok s ↦ (record o { surfaces = s ∷ o.surfaces }, ok s)
  ]

  -- Does the mapping of an update differ from that of the surface?
  unfoldable pub mapping_changed : SurfaceDefinition → SurfaceDefinition → Bool
  mapping_changed a b =
      not (a.logical_width == b.logical_width)
      || not (a.logical_height == b.logical_height)
      || not (a.scale_numerator == b.scale_numerator)
      || not (a.scale_denominator == b.scale_denominator)
      || not (a.rotation == b.rotation)
      || not (c.same_map a.profile_parameters b.profile_parameters)

  unfoldable pub update_payload :
      SurfaceLocal → SurfaceDefinition → c.media.remote.cbor.Value → PayloadMap c.media.remote.cbor
  update_payload s d descriptor =
      owner_pair d.context_id d.surface_id
      ++ ((2, c.media.remote.unsigned s.revision)
          ∷ (3, c.media.remote.unsigned s.generation)
          ∷ (4, c.media.remote.unsigned d.logical_width)
          ∷ (5, c.media.remote.unsigned d.logical_height)
          ∷ (6, c.media.remote.unsigned d.scale_numerator)
          ∷ (7, c.media.remote.unsigned d.scale_denominator)
          ∷ (8, c.media.remote.unsigned d.rotation)
          ∷ (9, descriptor)
          ∷ (10, c.media.remote.unsigned d.policy)
          ∷ (11, c.map_value d.profile_parameters)
          ∷ [])

  -- What a command sees of `request_ok`.
  abbrev pub Acknowledge : Type 0
  Acknowledge = Request c.media.remote → Result Error (Unit {0})

  unfoldable pub request_update :
      Definitions → SurfaceLocal → SurfaceDefinition → Acknowledge → Result Error (Unit {0})
  request_update k s d acknowledge = do
    refuse_if (not (k.validate d)) invalid_input
    lift (ensure_live_surface s.destroyed)
    refuse_if
        (not (d.context_id == s.definition.context_id)
          || not (d.surface_id == s.definition.surface_id)
          || not (same_text d.semantic_profile s.definition.semantic_profile)
          || not (d.coordinate_model == s.definition.coordinate_model))
        invalid_input
    descriptor ← or_fail (c.descriptor_value d.descriptor) invalid_data
    acknowledge (request_about c.update_surface d.surface_id (update_payload s d descriptor))

  -- `advance` of revisions and generations.
  unfoldable pub advance : ℕ → Result Error ℕ
  advance n = if leb (n + 1) u64_max then ok (n + 1) else err invalid_data

  -- The end of `update_surface`, on the surface `now` that the second lock finds: the revision is
  -- stored before the generation is advanced.
  unfoldable pub apply_update :
      Bool → SurfaceDefinition → SurfaceLocal → SurfaceLocal × Result Error (Unit {0})
  apply_update changed d now = elim (advance now.revision) [
    | err e ↦ (now, err e)
    | ok revision ↦ elim (if changed then advance now.generation else ok now.generation) [
      | err e ↦ (record now { revision = revision }, err e)
      | ok generation ↦ (
        record now {
          revision = revision;
          generation = generation;
          definition = record d { policy = bit_or d.policy now.definition.policy };
        },
        ok tt,
      )
    ]
  ]

  unfoldable pub update_surface :
      Definitions
      → SurfaceLocal
      → SurfaceDefinition
      → Acknowledge
      → (SurfaceLocal → SurfaceLocal)
      → SurfaceLocal × Result Error (Unit {0})
  update_surface k s d acknowledge during = elim (request_update k s d acknowledge) [
    | err e ↦ (during s, err e)
    | ok u ↦ apply_update (mapping_changed s.definition d) d (during s)
  ]

  -- What becomes of a track when its surface is destroyed.
  unfoldable pub orphan : TrackLocal c.media → TrackLocal c.media
  orphan t = record t { destroyed = true; active_flow = none; has_media = false }

  abbrev pub is_on : ℕ → ℕ → TrackLocal c.media → Bool
  is_on context_id surface_id t =
      t.configuration.context_id == context_id && t.configuration.surface_id == surface_id

  -- `retain`: the tracks that stay, the tracks that go, and the flows that were closed.
  unfoldable pub retain_tracks :
      ℕ
      → ℕ
      → List (TrackLocal c.media)
      → List (TrackLocal c.media) × List (TrackLocal c.media) × List (Option (FlowView c.media))
  retain_tracks context_id surface_id [] = ([], [], [])
  retain_tracks context_id surface_id (t ∷ ts) =
      let (keep, gone, closed) = retain_tracks context_id surface_id ts in
      if is_on context_id surface_id t
      then (
        keep,
        orphan t ∷ gone,
        close_track_flow c.media t.active_flow owning_surface_destroyed ∷ closed,
      )
      else (t ∷ keep, gone, closed)

  -- What a destroy leaves: the surface, the registries, the tracks that went with it.
  pub record Destroyed : Type 0 where
    pub surface : SurfaceLocal
    pub owned : Owned
    pub gone : List (TrackLocal c.media)
    pub closed : List (Option (FlowView c.media))

  unfoldable pub destroy_surface :
      SurfaceLocal → Owned → Acknowledge → Destroyed × Result Error (Unit {0})
  destroy_surface s o acknowledge =
      let context_id = s.definition.context_id in
      let surface_id = s.definition.surface_id in
      let (keep, gone, closed) = retain_tracks context_id surface_id o.tracks in
      elim (do
        lift (ensure_live_surface s.destroyed)
        acknowledge
            (request_about c.destroy_surface surface_id (owner_pair context_id surface_id))) [
              | err e ↦ (record { surface = s; owned = o; gone = []; closed = [] }, err e)
              | ok u ↦ (
                record {
                  surface = record s { destroyed = true };
                  owned = record {
                    surfaces = remove_surface o.surfaces context_id surface_id;
                    tracks = keep;
                  };
                  gone = gone;
                  closed = closed;
                },
                ok tt,
              )
            ]
