-- ===== src/Track.antt =====
-- src/track.rs: the state of a track. The children hold the operations: Conditions and Wait, Create,
-- Query, Commands.
pub mod Conditions
pub mod Create
pub mod Query
pub mod Wait
pub mod Commands
mod Tests
use vivid_sdk.Prelude.{
  ◌+◌, ◌-◌, ◌*◌, ◌/◌, ◌%◌, ◌^◌, ◌≤◌, ◌<◌, min, max, ℕ, zero, suc, ◌≡◌, refl, sym, ap, ◌∙◌, ◌≢◌, ◌↔◌,
  ◌⊎◌, inl, inr, Bool, true, false, not, ◌&&◌, ◌||◌, Option, none, some, List, [], ◌∷◌, ◌++◌, map,
  arith, ltb, leb, ◌==◌, if◌then◌else◌, ltb→lt, lt→ltb, leb→le, ==_iff, Bool-cases, Option-cases,
  length, get_elem?, All, length-append, get_elem?-some, Result, ok, err, Result-cases, refused,
  ◌>>=◌, ◌>>◌, refuse_if, or_fail, u32_max, u64_max, saturating_add, saturating_mul, checked_add,
  duration_max, add_duration, as_micros,
}
use Prim.Native.Nat.{bit_and}
use vivid_sdk.Wire.{Cbor, PayloadMap, validate_track_tuple, ensure_live_track}
use vivid_sdk.Session.{Remote, Error, Request, lift}
use vivid_sdk.Channel.State.{FlowControl, MediaSequence}

pub data TrackKind : Type 0 where
  raster_kind video_kind audio_kind image_kind : TrackKind

pub data TrackMode : Type 0 where
  live_mode timed_mode : TrackMode

-- `KindConfiguration` of another crate with what the code reads of it: of a raster track whether it
-- takes deltas and how many operations, of an image track whether the cache is looked up.
pub data KindConfiguration : Type 0 where
  raster : Bool → ℕ → KindConfiguration
  video audio : KindConfiguration
  encoded_image : Bool → KindConfiguration

abbrev pub kind : KindConfiguration → TrackKind
kind (raster delta_enabled operations) = raster_kind
kind video = video_kind
kind audio = audio_kind
kind (encoded_image cache_lookup) = image_kind

pub record Configuration : Type 0 where
  pub context_id : ℕ
  pub surface_id : ℕ
  pub track_id : ℕ
  pub kind_configuration : KindConfiguration
  pub slot : ℕ
  pub mode : TrackMode
  pub maximum_record_body : ℕ

-- What tracks use of other crates: requests, the flow window of a channel and its default, the
-- numbers of kinds, modes, record types and milestones, `configuration.validate(probe)` and
-- `configuration.payload(probe)`.
pub record Media : Type 1 where
  pub remote : Remote
  pub flow : FlowControl
  pub default_flow : flow.Flow
  pub default_within :
      (flow.sent_body_bytes default_flow ≤ flow.maximum_body_bytes default_flow)
      × (flow.sent_media_records default_flow ≤ flow.maximum_media_records default_flow)
  pub validate : Configuration → Bool → Bool
  pub payload : Configuration → Bool → Option (PayloadMap remote.cbor)
  pub kind_of : ℕ → Option TrackKind
  pub mode_of : ℕ → Option TrackMode
  pub audio_gain : ℕ → Option ℕ
  pub unity_gain : ℕ
  pub known_mask : ℕ
  pub channel_detached : ℕ
  pub channel_accepted : ℕ
  pub probe_track_config : ℕ
  pub track_support : ℕ
  pub create_track : ℕ
  pub track_ready : ℕ
  pub query_track : ℕ
  pub track_status : ℕ
  pub wait_track : ℕ
  pub wait_satisfied : ℕ
  pub destroy_track : ℕ
  pub play : ℕ
  pub pause : ℕ
  pub set_audio_gain : ℕ
  pub flush : ℕ
  pub drain : ℕ

abbrev pub maximum_wait_us : ℕ
maximum_wait_us = 30000000

abbrev pub is_some {ℓ} : {A : Type ℓ} → Option A → Bool
is_some none = false
is_some (some a) = true

-- `value & !mask` of 64 bits.
unfoldable pub bits_outside : ℕ → ℕ → ℕ
bits_outside mask value = bit_and value (u64_max - mask)

-- Why a flow was closed.
pub data Reason : Type 0 where
  different_generation reported_lost reported_tombstone track_destroyed owning_surface_destroyed
        other_reason :
      Reason

module _ (m : Media) where
  -- What a track sees of the flow of its channel: the window, and whether it is closed and why.
  pub record FlowView : Type 0 where
    pub window : m.flow.Flow
    pub closed : Bool
    pub diagnostic : Option Reason

  unfoldable pub close_track_flow : Option FlowView → Reason → Option FlowView
  close_track_flow none reason = none
  close_track_flow (some f) reason = some (record f {
    closed = true;
    diagnostic = some (elim f.diagnostic [ none ↦ reason | some first ↦ first ]);
  })

  -- `TrackLocal`. `active_flow` is the flow that the weak reference still reaches.
  pub record TrackLocal : Type 0 where
    pub configuration : Configuration
    pub revision : ℕ
    pub channel_generation : ℕ
    pub open_deadline_us : ℕ
    pub maximum_record_body : ℕ
    pub effective_claims : PayloadMap m.remote.cbor
    pub connection_required : Bool
    pub delta_operation_limit : ℕ
    pub media_sequence : MediaSequence
    pub active_flow : Option FlowView
    pub has_media : Bool
    pub destroyed : Bool
    pub lost : Bool

  abbrev pub identity : Configuration → PayloadMap m.remote.cbor
  identity c =
      (0, m.remote.unsigned c.context_id)
      ∷ (1, m.remote.unsigned c.surface_id)
      ∷ (2, m.remote.unsigned c.track_id)
      ∷ []

  abbrev pub request_for : ℕ → Configuration → PayloadMap m.remote.cbor → Request m.remote
  request_for record_type c payload = record {
    record_type = record_type;
    object_id = c.track_id;
    payload = payload;
    transaction_id = none;
    expected_target_generation = none;
  }

  abbrev pub is_live : TrackLocal → Result Error (Unit {0})
  is_live t = lift (ensure_live_track t.destroyed t.lost)

  abbrev pub validate_identity : PayloadMap m.remote.cbor → Configuration → Result Error (Unit {0})
  validate_identity payload c =
      lift (validate_track_tuple m.remote.cbor payload c.context_id c.surface_id c.track_id)
