-- ===== src/Track/Create.antt =====
-- `Session::probe_track` and `Session::create_track` of src/track.rs, with the registries of surfaces
-- and tracks.
use vivid_sdk.Prelude.{
  ◌≤◌, ◌<◌, ℕ, ◌≡◌, refl, sym, ◌≢◌, inl, inr, Bool, true, false, not, ◌&&◌, ◌||◌, Option, none,
  some, List, [], ◌∷◌, arith, ltb, ◌==◌, if◌then◌else◌, Option-cases, Result, ok, err, Result-cases,
  ◌>>=◌, ◌>>◌, refuse_if, or_fail, u32_max,
}
use vivid_sdk.Wire.{
  PayloadMap, validate_payload_keys, validate_exact_payload_keys, required_u64, required_u32,
  required_bool, required_text, required_map, optional_u64, expect_record,
}
use vivid_sdk.Session.{
  Error, Reply, Answer, lift, decoded_payload, invalid_input, invalid_data, require_nonzero,
}
use mathlib.Core.Path.{subst}
use vivid_sdk.Track.{
  Media, Configuration, KindConfiguration, raster, encoded_image, TrackLocal, request_for,
  validate_identity,
}
use Prim.Native.String.{String}

abbrev pub open_deadline_limit_us : ℕ
open_deadline_limit_us = 30000000

-- The key of a track in the registry.
abbrev pub same_track : Configuration → Configuration → Bool
same_track a b =
    a.context_id == b.context_id && (a.surface_id == b.surface_id && a.track_id == b.track_id)

-- `matches!(kind, EncodedImage(image) if image.cache_lookup)`.
abbrev pub looks_up_cache : KindConfiguration → Bool
looks_up_cache (encoded_image cache_lookup) = cache_lookup
looks_up_cache k = false

abbrev pub offline_delta_limit : KindConfiguration → ℕ
offline_delta_limit (raster delta_enabled operations) = if delta_enabled then operations else 0
offline_delta_limit k = 0

abbrev pub has_surface : List (ℕ × ℕ) → ℕ → ℕ → Bool
has_surface [] context_id surface_id = false
has_surface (x ∷ xs) context_id surface_id =
    (x.0 == context_id && x.1 == surface_id) || has_surface xs context_id surface_id

module _ (m : Media) where
  pub record TrackSupport : Type 0 where
    pub supported : Bool
    pub selected_decoder : String
    pub capability_generation : ℕ
    pub effective_claims : PayloadMap m.remote.cbor

  read_support : Reply m.remote → Result Error TrackSupport
  read_support reply = do
    lift (expect_record reply.record_type reply.object_id m.track_support 0)
    payload ← decoded_payload m.remote reply
    lift (validate_exact_payload_keys m.remote.cbor payload 0 3)
    supported ← lift (required_bool m.remote.cbor payload 0)
    selected_decoder ← lift (required_text m.remote.cbor payload 1)
    capability_generation ← lift (required_u64 m.remote.cbor payload 2)
    claims ← lift (required_map m.remote.cbor payload 3)
    ok record {
      supported = supported;
      selected_decoder = selected_decoder;
      capability_generation = capability_generation;
      effective_claims = claims;
    }

  -- The metadata and the request ID belong to the answer. A probe is for object 0.
  unfoldable pub probe_track : Configuration → Answer m.remote → Result Error TrackSupport
  unfolding read_support
  probe_track c answer = do
    refuse_if (not (m.validate c true)) invalid_input
    payload ← or_fail (m.payload c true) invalid_data
    reply ← answer (record (request_for m m.probe_track_config c payload) { object_id = 0 })
    elim reply [
      | some r ↦ read_support r
      | none ↦ ok record {
        supported = true;
        selected_decoder = "offline-validator";
        capability_generation = 1;
        effective_claims = payload;
      }
    ]

  -- `TrackReadyValues`.
  pub record TrackReady : Type 0 where
    pub revision : ℕ
    pub generation : ℕ
    pub open_deadline_us : ℕ
    pub maximum_record_body : ℕ
    pub effective_claims : PayloadMap m.remote.cbor
    pub connection_required : Bool
    pub delta_operation_limit : ℕ

  read_limit : Option ℕ → Result Error ℕ
  read_limit none = ok 0
  read_limit (some n) = if ltb u32_max n then err invalid_data else ok n

  read_ready : PayloadMap m.remote.cbor → Result Error TrackReady
  unfolding read_limit
  read_ready payload = do
    revision ← lift (required_u64 m.remote.cbor payload 3)
    generation ← lift (required_u64 m.remote.cbor payload 4)
    open_deadline_us ← lift (required_u64 m.remote.cbor payload 5)
    maximum_record_body ← lift (required_u32 m.remote.cbor payload 6)
    claims ← lift (required_map m.remote.cbor payload 7)
    connection_required ← lift (required_bool m.remote.cbor payload 8)
    raw ← lift (optional_u64 m.remote.cbor payload 9)
    limit ← read_limit raw
    ok record {
      revision = revision;
      generation = generation;
      open_deadline_us = open_deadline_us;
      maximum_record_body = maximum_record_body;
      effective_claims = claims;
      connection_required = connection_required;
      delta_operation_limit = limit;
    }

  online_ready : Configuration → Reply m.remote → Result Error TrackReady
  unfolding read_ready
  online_ready c reply = do
    lift (expect_record reply.record_type reply.object_id m.track_ready c.track_id)
    payload ← decoded_payload m.remote reply
    lift (validate_payload_keys m.remote.cbor payload 0 8 (9 ∷ []))
    validate_identity m payload c
    read_ready payload

  offline_ready : Configuration → PayloadMap m.remote.cbor → TrackReady
  offline_ready c claims = record {
    revision = 1;
    generation = 1;
    open_deadline_us = open_deadline_limit_us;
    maximum_record_body = c.maximum_record_body;
    effective_claims = claims;
    connection_required = true;
    delta_operation_limit = offline_delta_limit c.kind_configuration;
  }

  check_ready : Configuration → TrackReady → Result Error (Unit {0})
  check_ready c ready = do
    require_nonzero ready.revision
    require_nonzero ready.generation
    refuse_if
        (not (ready.generation == 1)
          || ready.open_deadline_us == 0
          || ltb open_deadline_limit_us ready.open_deadline_us
          || ready.maximum_record_body == 0
          || ltb c.maximum_record_body ready.maximum_record_body
          || (not ready.connection_required && not (looks_up_cache c.kind_configuration)))
        invalid_data

  new_track : Configuration → TrackReady → TrackLocal m
  new_track c ready = record {
    configuration = c;
    revision = ready.revision;
    channel_generation = ready.generation;
    open_deadline_us = ready.open_deadline_us;
    maximum_record_body = ready.maximum_record_body;
    effective_claims = ready.effective_claims;
    connection_required = ready.connection_required;
    delta_operation_limit = ready.delta_operation_limit;
    media_sequence = record { last_id = 0; last_epoch = 0; last_record_sequence = 0 };
    active_flow = none;
    has_media = false;
    destroyed = false;
    lost = false;
  }

  -- The surfaces of the session by their keys, and its tracks.
  pub record Registry : Type 0 where
    pub surfaces : List (ℕ × ℕ)
    pub tracks : List (TrackLocal m)

  unfoldable pub has_track : List (TrackLocal m) → Configuration → Bool
  has_track [] c = false
  has_track (t ∷ ts) c = same_track t.configuration c || has_track ts c

  -- `tracks.remove(key)`.
  unfoldable pub remove_track : List (TrackLocal m) → Configuration → List (TrackLocal m)
  remove_track [] c = []
  remove_track (t ∷ ts) c =
      let rest = remove_track ts c in if same_track t.configuration c then rest else t ∷ rest

  -- Everything of `create_track` up to its insertion into the registry.
  ready_track : Registry → Configuration → Answer m.remote → Result Error (TrackLocal m)
  unfolding online_ready offline_ready check_ready new_track
  ready_track g c answer = do
    refuse_if (not (m.validate c false)) invalid_input
    refuse_if (not (has_surface g.surfaces c.context_id c.surface_id)) invalid_input
    refuse_if (has_track g.tracks c) invalid_input
    payload ← or_fail (m.payload c false) invalid_data
    reply ← answer (request_for m m.create_track c payload)
    ready ← elim reply [ some r ↦ online_ready c r | none ↦ ok (offline_ready c payload) ]
    check_ready c ready
    ok (new_track c ready)

  unfoldable pub create_track :
      Registry → Configuration → Answer m.remote → Registry × Result Error (TrackLocal m)
  unfolding ready_track
  create_track g c answer = elim (ready_track g c answer) [
    | err e ↦ (g, err e)
    | ok t ↦ (record g { tracks = t ∷ g.tracks }, ok t)
  ]

  -- The state of a track that was created for a configuration.
  pub record IsInitial (c : Configuration) (t : TrackLocal m) : Type 0 where
    pub configured : t.configuration ≡ c
    pub has_revision : t.revision ≢ 0
    pub first_generation : t.channel_generation ≡ 1
    pub has_deadline : 0 < t.open_deadline_us
    pub short_deadline : t.open_deadline_us ≤ open_deadline_limit_us
    pub takes_records : 0 < t.maximum_record_body
    pub body_within : t.maximum_record_body ≤ c.maximum_record_body
    pub connects : t.connection_required ≡ false → looks_up_cache c.kind_configuration ≡ true
    pub idle : t.active_flow ≡ none
    pub alive : t.destroyed ≡ false

  checked-IsInitial :
      (c : Configuration) (ready : TrackReady)
      → check_ready c ready ≡ ok tt
      → IsInitial c (new_track c ready)
  unfolding check_ready new_track
  checked-IsInitial c ready e = record {
    configured = refl;
    has_revision = ground arith;
    first_generation = ground arith;
    has_deadline = ground arith;
    short_deadline = ground arith;
    takes_records = ground arith;
    body_within = ground arith;
    connects = λ h. ground arith;
    idle = refl;
    alive = refl;
  }

  ready_track-checks :
      (g : Registry) (c : Configuration) (answer : Answer m.remote) (t : TrackLocal m)
      → ready_track g c answer ≡ ok t
      → (ready : TrackReady) × (check_ready c ready ≡ ok tt) × (t ≡ new_track c ready)
  unfolding ready_track
  ready_track-checks g c answer t e = elim (Option-cases (m.payload c false)) [
    | inl h ↦ absurd (ground arith)
    | inr (payload, h) ↦ elim (Result-cases (answer (request_for m m.create_track c payload))) [
      | inr (x, i) ↦ absurd (ground arith)
      | inl (none, i) ↦ (offline_ready c payload, ground arith, ground arith)
      | inl (some r, i) ↦ elim (Result-cases (online_ready c r)) [
        | inr (x, j) ↦ absurd (ground arith)
        | inl (ready, j) ↦ (ready, ground arith, ground arith)
      ]
    ]
  ]

  -- How a creation ends: with a new track of the configuration on a surface of the session, where no
  -- track had this identity; or with an error and the registry as it was.
  pub data Creates (g : Registry) (c : Configuration)
      : Registry × Result Error (TrackLocal m) → Type 0 where
    created :
        (t : TrackLocal m)
        → IsInitial c t
        → has_surface g.surfaces c.context_id c.surface_id ≡ true
        → has_track g.tracks c ≡ false
        → Creates g c (record g { tracks = t ∷ g.tracks }, ok t)
    refused_ : (e : Error) → Creates g c (g, err e)

  ready_track-guards :
      (g : Registry) (c : Configuration) (answer : Answer m.remote) (t : TrackLocal m)
      → ready_track g c answer ≡ ok t
      → (has_surface g.surfaces c.context_id c.surface_id ≡ true) × (has_track g.tracks c ≡ false)
  unfolding ready_track
  ready_track-guards g c answer t e = (ground arith, ground arith)

  -- Every creation ends in one of these ways: with a track in its first generation, with a deadline of
  -- at most thirty seconds, a record body of at most the configured size, and a connection unless it
  -- is an image that is looked up in the cache, added on a surface of the session under an identity
  -- that no track had; or with an error that leaves the registry as it was.
  pub create_track-Creates :
      (g : Registry) (c : Configuration) (answer : Answer m.remote)
      → Creates g c (create_track g c answer)
  unfolding create_track
  create_track-Creates g c answer = elim (Result-cases (ready_track g c answer)) [
    | inr (e, h) ↦ subst (Creates g c) (ground arith) (refused_ e)
    | inl (t, h) ↦
        let (ready, checked, same) = ready_track-checks g c answer t h in
        let (surface, fresh) = ready_track-guards g c answer t h in
        subst (Creates g c) (ground arith) (
          created t (subst (IsInitial c) (sym same) (checked-IsInitial c ready checked)) surface
            fresh)
  ]
