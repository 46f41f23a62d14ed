-- ===== src/Surface/Query.antt =====
-- `Session::query_surface` of src/surface.rs.
use vivid_sdk.Prelude.{
  ℕ, ◌≡◌, refl, ◌≢◌, inl, inr, Bool, true, not, ◌||◌, none, some, [], arith, ltb, ◌==◌,
  if◌then◌else◌, Result, ok, err, Result-cases, ◌>>=◌, ◌>>◌, refuse_if, or_fail, same_text,
  same_text-eq,
}
use Prim.Native.String.{String}
use mathlib.Core.Path.{subst}
use vivid_sdk.Wire.{
  PayloadMap, expect_record, validate_exact_payload_keys, validate_owner_pair, required_u64,
  required_map, required_text, required_value,
}
use vivid_sdk.Session.{Error, Reply, Answer, lift, decoded_payload, invalid_data, require_nonzero}
use vivid_sdk.Surface.{Canvas, SurfaceLocal, request_about, owner_pair}

-- `matches!(rotation, 0 | 90 | 180 | 270)`.
abbrev pub is_rotation : ℕ → Bool
is_rotation r = r == 0 || r == 90 || r == 180 || r == 270

module _ (c : Canvas) where
  pub record SurfaceStatus : Type 0 where
    pub context_id : ℕ
    pub surface_id : ℕ
    pub revision : ℕ
    pub generation : ℕ
    pub semantic_profile : String
    pub coordinate_model : ℕ
    pub logical_width : ℕ
    pub logical_height : ℕ
    pub scale_numerator : ℕ
    pub scale_denominator : ℕ
    pub rotation : ℕ
    pub descriptor : c.Descriptor
    pub effective_policy : ℕ
    pub active_slots : PayloadMap c.media.remote.cbor
    pub lifecycle : ℕ
    pub profile_status : PayloadMap c.media.remote.cbor

  unfoldable pub read_surface : PayloadMap c.media.remote.cbor → Result Error SurfaceStatus
  read_surface payload = do
    rotation ← lift (required_u64 c.media.remote.cbor payload 10)
    refuse_if (ltb 65535 rotation) invalid_data
    lifecycle ← lift (required_u64 c.media.remote.cbor payload 14)
    refuse_if (lifecycle == 0 || ltb 3 lifecycle) invalid_data
    context_id ← lift (required_u64 c.media.remote.cbor payload 0)
    surface_id ← lift (required_u64 c.media.remote.cbor payload 1)
    revision ← lift (required_u64 c.media.remote.cbor payload 2)
    generation ← lift (required_u64 c.media.remote.cbor payload 3)
    profile ← lift (required_text c.media.remote.cbor payload 4)
    number ← lift (required_u64 c.media.remote.cbor payload 5)
    model ← or_fail (c.coordinate_model_of number) invalid_data
    width ← lift (required_u64 c.media.remote.cbor payload 6)
    height ← lift (required_u64 c.media.remote.cbor payload 7)
    numerator ← lift (required_u64 c.media.remote.cbor payload 8)
    denominator ← lift (required_u64 c.media.remote.cbor payload 9)
    value ← lift (required_value c.media.remote.cbor payload 11)
    descriptor ← or_fail (c.descriptor_of value) invalid_data
    policy ← lift (required_u64 c.media.remote.cbor payload 12)
    slots ← lift (required_map c.media.remote.cbor payload 13)
    profile_status ← lift (required_map c.media.remote.cbor payload 15)
    ok record {
      context_id = context_id;
      surface_id = surface_id;
      revision = revision;
      generation = generation;
      semantic_profile = profile;
      coordinate_model = model;
      logical_width = width;
      logical_height = height;
      scale_numerator = numerator;
      scale_denominator = denominator;
      rotation = rotation;
      descriptor = descriptor;
      effective_policy = policy;
      active_slots = slots;
      lifecycle = lifecycle;
      profile_status = profile_status;
    }

  unfoldable pub online_surface : SurfaceLocal c → Reply c.media.remote → Result Error SurfaceStatus
  online_surface s reply = do
    lift (expect_record reply.record_type reply.object_id c.surface_status s.definition.surface_id)
    payload ← decoded_payload c.media.remote reply
    lift (validate_exact_payload_keys c.media.remote.cbor payload 0 15)
    lift (
        validate_owner_pair c.media.remote.cbor payload s.definition.context_id
          s.definition.surface_id)
    read_surface payload

  unfoldable pub offline_surface : SurfaceLocal c → SurfaceStatus
  offline_surface s = record {
    context_id = s.definition.context_id;
    surface_id = s.definition.surface_id;
    revision = s.revision;
    generation = s.generation;
    semantic_profile = s.definition.semantic_profile;
    coordinate_model = s.definition.coordinate_model;
    logical_width = s.definition.logical_width;
    logical_height = s.definition.logical_height;
    scale_numerator = s.definition.scale_numerator;
    scale_denominator = s.definition.scale_denominator;
    rotation = s.definition.rotation;
    descriptor = s.definition.descriptor;
    effective_policy = s.definition.policy;
    active_slots = [];
    lifecycle = if s.destroyed then 3 else 1;
    profile_status = s.definition.profile_parameters;
  }

  unfoldable pub check_surface : SurfaceLocal c → SurfaceStatus → Result Error SurfaceStatus
  check_surface s x = do
    require_nonzero x.revision
    require_nonzero x.generation
    refuse_if
        (x.logical_width == 0
          || x.logical_height == 0
          || x.scale_numerator == 0
          || x.scale_denominator == 0
          || not (is_rotation x.rotation)
          || not (same_text x.semantic_profile s.definition.semantic_profile)
          || not (x.coordinate_model == s.definition.coordinate_model))
        invalid_data
    ok x

  unfoldable pub surface_status :
      SurfaceLocal c → Answer c.media.remote → Result Error SurfaceStatus
  surface_status s answer = do
    reply ← answer (
        request_about c c.query_surface s.definition.surface_id
          (owner_pair c s.definition.context_id s.definition.surface_id))
    status ← elim reply [ some r ↦ online_surface s r | none ↦ ok (offline_surface s) ]
    check_surface s status

  -- What the surface takes over of a status.
  unfoldable pub reconcile_surface : SurfaceLocal c → SurfaceStatus → SurfaceLocal c
  reconcile_surface now x = record now {
    revision = x.revision;
    generation = x.generation;
    definition = record now.definition {
      logical_width = x.logical_width;
      logical_height = x.logical_height;
      scale_numerator = x.scale_numerator;
      scale_denominator = x.scale_denominator;
      rotation = x.rotation;
      descriptor = x.descriptor;
      policy = x.effective_policy;
    };
    destroyed = x.lifecycle == 3;
  }

  -- `during` is what others make of the surface while the request waits for its reply.
  unfoldable pub query_surface :
      SurfaceLocal c
      → Answer c.media.remote
      → (SurfaceLocal c → SurfaceLocal c)
      → SurfaceLocal c × Result Error SurfaceStatus
  query_surface s answer during = elim (surface_status s answer) [
    | err e ↦ (during s, err e)
    | ok x ↦ (reconcile_surface (during s) x, ok x)
  ]

  -- A surface with a revision, a generation, an extent, a scale and a rotation that exist.
  pub record IsSound (s : SurfaceLocal c) : Type 0 where
    pub has_revision : s.revision ≢ 0
    pub has_generation : s.generation ≢ 0
    pub has_width : s.definition.logical_width ≢ 0
    pub has_height : s.definition.logical_height ≢ 0
    pub has_numerator : s.definition.scale_numerator ≢ 0
    pub has_denominator : s.definition.scale_denominator ≢ 0
    pub turned : is_rotation s.definition.rotation ≡ true

  checked-IsSound :
      (s now : SurfaceLocal c) (x y : SurfaceStatus)
      → check_surface s x ≡ ok y
      → IsSound (reconcile_surface now y)
        × (y.semantic_profile ≡ s.definition.semantic_profile)
        × (y.coordinate_model ≡ s.definition.coordinate_model)
  unfolding check_surface reconcile_surface
  checked-IsSound s now x y e =
      let same : ◌≡◌ {A = SurfaceStatus} x y = ground arith in
      subst
        (λ (z : SurfaceStatus).
          IsSound (reconcile_surface now z)
          × (z.semantic_profile ≡ s.definition.semantic_profile)
          × (z.coordinate_model ≡ s.definition.coordinate_model))
        same
        (
          record {
            has_revision = ground arith;
            has_generation = ground arith;
            has_width = ground arith;
            has_height = ground arith;
            has_numerator = ground arith;
            has_denominator = ground arith;
            turned = ground arith;
          },
          same_text-eq x.semantic_profile s.definition.semantic_profile (ground arith),
          ground arith,
        )

  surface_status-checked :
      (s : SurfaceLocal c) (answer : Answer c.media.remote) (y : SurfaceStatus)
      → surface_status s answer ≡ ok y
      → (x : SurfaceStatus) × (check_surface s x ≡ ok y)
  unfolding surface_status
  surface_status-checked s answer y e =
      elim (Result-cases (
        answer (
          request_about c c.query_surface s.definition.surface_id
            (owner_pair c s.definition.context_id s.definition.surface_id)))) [
              | inr (z, h) ↦ absurd (ground arith)
              | inl (none, h) ↦ (offline_surface s, ground arith)
              | inl (some r, h) ↦ elim (Result-cases (online_surface s r)) [
                | inr (z, i) ↦ absurd (ground arith)
                | inl (x, i) ↦ (x, ground arith)
              ]
            ]

  -- A query that succeeds leaves a sound surface whatever it was before: the revision, the generation,
  -- the extent and the scale are not zero and the rotation is one of the four quarter turns; and the
  -- status repeats the profile and the coordinate model of the surface.
  pub query_surface-IsSound :
      (s : SurfaceLocal c) (answer : Answer c.media.remote)
      (during : SurfaceLocal c → SurfaceLocal c) (x : SurfaceStatus)
      → (query_surface s answer during).1 ≡ ok x
      → IsSound (query_surface s answer during).0
        × (x.semantic_profile ≡ s.definition.semantic_profile)
        × (x.coordinate_model ≡ s.definition.coordinate_model)
  unfolding query_surface
  query_surface-IsSound s answer during x e = elim (Result-cases (surface_status s answer)) [
    | inr (z, h) ↦ absurd (ground arith)
    | inl (y, h) ↦
        let (z, checked) = surface_status-checked s answer y h in
        let same : ◌≡◌ {A = SurfaceStatus} y x = ground arith in
        subst
          (λ (u : SurfaceLocal c).
            IsSound u
            × (x.semantic_profile ≡ s.definition.semantic_profile)
            × (x.coordinate_model ≡ s.definition.coordinate_model))
          (rw (h, query_surface) refl)
          (subst
            (λ (w : SurfaceStatus).
              IsSound (reconcile_surface (during s) y)
              × (w.semantic_profile ≡ s.definition.semantic_profile)
              × (w.coordinate_model ≡ s.definition.coordinate_model))
            same (checked-IsSound s (during s) z y checked))
  ]
