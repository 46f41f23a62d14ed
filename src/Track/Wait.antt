-- ===== src/Track/Wait.antt =====
-- `Session::wait_track` of src/track.rs.
use vivid_sdk.Prelude.{
  ◌≤◌, ◌<◌, ℕ, ◌≡◌, inl, inr, false, not, ◌||◌, Option, none, some, [], ◌∷◌, ◌++◌, arith, ltb, ◌==◌,
  Option-cases, Result, ok, Result-cases, ◌>>=◌, ◌>>◌, refuse_if,
}
use vivid_sdk.Wire.{
  PayloadMap, validate_payload_keys, required_u64, optional_u64, expect_record, ensure_live_track,
}
use vivid_sdk.Session.{
  Error, Reply, Answer, lift, decoded_payload, invalid_input, invalid_data, require_nonzero,
}
use vivid_sdk.Wire.Schema.{validate_track_tuple-ok_iff}
use vivid_sdk.Track.{
  Media, TrackLocal, maximum_wait_us, identity, request_for, validate_identity, is_live,
}
use vivid_sdk.Track.Conditions.{
  TrackWaitCondition, condition_number, validate_value, Fits, validate_value-ok_iff,
}

module _ (m : Media) where
  pub record TrackWaitSatisfied : Type 0 where
    pub context_id : ℕ
    pub surface_id : ℕ
    pub track_id : ℕ
    pub revision : ℕ
    pub channel_generation : ℕ
    pub condition : TrackWaitCondition
    pub observed_value : Option ℕ

  wait_value : Option ℕ → PayloadMap m.remote.cbor
  wait_value none = []
  wait_value (some value) = (4, m.remote.unsigned value) ∷ []

  wait_payload : TrackLocal m → TrackWaitCondition → Option ℕ → ℕ → PayloadMap m.remote.cbor
  unfolding wait_value
  wait_payload t condition value timeout_us =
      identity m t.configuration
      ++ ((3, m.remote.unsigned (condition_number condition)) ∷ [])
      ++ wait_value value
      ++ ((5, m.remote.unsigned timeout_us) ∷ (6, m.remote.unsigned t.channel_generation) ∷ [])

  read_satisfied :
      TrackLocal m → TrackWaitCondition → PayloadMap m.remote.cbor → Result Error TrackWaitSatisfied
  read_satisfied t condition payload = do
    reported ← lift (required_u64 m.remote.cbor payload 4)
    refuse_if (not (reported == t.channel_generation)) invalid_data
    answered ← lift (required_u64 m.remote.cbor payload 5)
    refuse_if (not (answered == condition_number condition)) invalid_data
    revision ← lift (required_u64 m.remote.cbor payload 3)
    channel_generation ← lift (required_u64 m.remote.cbor payload 4)
    require_nonzero revision
    require_nonzero channel_generation
    context_id ← lift (required_u64 m.remote.cbor payload 0)
    surface_id ← lift (required_u64 m.remote.cbor payload 1)
    track_id ← lift (required_u64 m.remote.cbor payload 2)
    observed ← lift (optional_u64 m.remote.cbor payload 6)
    ok record {
      context_id = context_id;
      surface_id = surface_id;
      track_id = track_id;
      revision = revision;
      channel_generation = channel_generation;
      condition = condition;
      observed_value = observed;
    }

  online_satisfied :
      TrackLocal m → TrackWaitCondition → Reply m.remote → Result Error TrackWaitSatisfied
  unfolding read_satisfied
  online_satisfied t condition reply = do
    lift (expect_record reply.record_type reply.object_id m.wait_satisfied t.configuration.track_id)
    payload ← decoded_payload m.remote reply
    lift (validate_payload_keys m.remote.cbor payload 0 5 (6 ∷ []))
    validate_identity m payload t.configuration
    read_satisfied t condition payload

  offline_satisfied : TrackLocal m → TrackWaitCondition → Option ℕ → TrackWaitSatisfied
  offline_satisfied t condition value = record {
    context_id = t.configuration.context_id;
    surface_id = t.configuration.surface_id;
    track_id = t.configuration.track_id;
    revision = t.revision;
    channel_generation = t.channel_generation;
    condition = condition;
    observed_value = value;
  }

  unfoldable pub wait_track :
      TrackLocal m
      → TrackWaitCondition
      → Option ℕ
      → ℕ
      → Answer m.remote
      → Result Error TrackWaitSatisfied
  unfolding wait_payload online_satisfied offline_satisfied
  wait_track t condition value timeout_us answer = do
    validate_value m.known_mask condition value
    refuse_if (timeout_us == 0 || ltb maximum_wait_us timeout_us) invalid_input
    is_live m t
    reply ←
        answer
          (request_for m m.wait_track t.configuration (wait_payload t condition value timeout_us))
    elim reply [
      | some r ↦ online_satisfied t condition r
      | none ↦ ok (offline_satisfied t condition value)
    ]

  -- What a satisfied wait says, and of which waits.
  pub record Satisfies (t : TrackLocal m) (condition : TrackWaitCondition) (value : Option ℕ)
      (timeout_us : ℕ) (s : TrackWaitSatisfied) : Type 0 where
    pub value_fits : Fits m.known_mask condition value
    pub waits : 0 < timeout_us
    pub bounded : timeout_us ≤ maximum_wait_us
    pub alive : t.destroyed ≡ false
    pub own_context : s.context_id ≡ t.configuration.context_id
    pub own_surface : s.surface_id ≡ t.configuration.surface_id
    pub own_track : s.track_id ≡ t.configuration.track_id
    pub same_generation : s.channel_generation ≡ t.channel_generation
    pub same_condition : s.condition ≡ condition

  -- The part that the answer decides.
  record IsAbout (t : TrackLocal m) (condition : TrackWaitCondition) (s : TrackWaitSatisfied)
      : Type 0 where
    context : s.context_id ≡ t.configuration.context_id
    surface : s.surface_id ≡ t.configuration.surface_id
    track : s.track_id ≡ t.configuration.track_id
    generation : s.channel_generation ≡ t.channel_generation
    condition_ : s.condition ≡ condition

  read_satisfied-IsAbout :
      (t : TrackLocal m) (condition : TrackWaitCondition) (payload : PayloadMap m.remote.cbor)
      (s : TrackWaitSatisfied)
      → required_u64 m.remote.cbor payload 0 ≡ ok t.configuration.context_id
      → required_u64 m.remote.cbor payload 1 ≡ ok t.configuration.surface_id
      → required_u64 m.remote.cbor payload 2 ≡ ok t.configuration.track_id
      → read_satisfied t condition payload ≡ ok s
      → IsAbout t condition s
  unfolding read_satisfied
  read_satisfied-IsAbout t condition payload s a b c0 e = record {
    context = ground arith;
    surface = ground arith;
    track = ground arith;
    generation = ground arith;
    condition_ = ground arith;
  }

  online_satisfied-IsAbout :
      (t : TrackLocal m) (condition : TrackWaitCondition) (reply : Reply m.remote)
      (s : TrackWaitSatisfied)
      → online_satisfied t condition reply ≡ ok s
      → IsAbout t condition s
  unfolding online_satisfied decoded_payload
  online_satisfied-IsAbout t condition reply s e = elim (Option-cases reply.decoded) [
    | inl h ↦ absurd (ground arith)
    | inr (v, h) ↦
        let (a, b, c0) =
          (validate_track_tuple-ok_iff m.remote.cbor v.payload t.configuration.context_id
              t.configuration.surface_id t.configuration.track_id).0
            (ground arith) in
        read_satisfied-IsAbout t condition v.payload s a b c0 (ground arith)
  ]

  wait_track-guards :
      (t : TrackLocal m) (condition : TrackWaitCondition) (value : Option ℕ) (timeout_us : ℕ)
      (answer : Answer m.remote) (s : TrackWaitSatisfied)
      → wait_track t condition value timeout_us answer ≡ ok s
      → (validate_value m.known_mask condition value ≡ ok tt)
        × (0 < timeout_us)
        × (timeout_us ≤ maximum_wait_us)
        × (t.destroyed ≡ false)
  unfolding wait_track ensure_live_track
  wait_track-guards t condition value timeout_us answer s e =
      (ground arith, ground arith, ground arith, ground arith)

  wait_track-IsAbout :
      (t : TrackLocal m) (condition : TrackWaitCondition) (value : Option ℕ) (timeout_us : ℕ)
      (answer : Answer m.remote) (s : TrackWaitSatisfied)
      → wait_track t condition value timeout_us answer ≡ ok s
      → IsAbout t condition s
  unfolding wait_track offline_satisfied
  wait_track-IsAbout t condition value timeout_us answer s e =
      elim (Result-cases (
        answer (
          request_for m m.wait_track t.configuration
            (wait_payload t condition value timeout_us)))) [
              | inr (x, h) ↦ absurd (ground arith)
              | inl (some r, h) ↦ online_satisfied-IsAbout t condition r s (ground arith)
              | inl (none, h) ↦ record {
                context = ground arith;
                surface = ground arith;
                track = ground arith;
                generation = ground arith;
                condition_ = ground arith;
              }
            ]

  -- A wait succeeds only on a live track, with a value that fits its condition and a timeout from one
  -- microsecond to thirty seconds, and its result is for this track, the track's generation and the
  -- condition that was asked for, whether the presenter answered or the session is offline.
  pub wait_track-Satisfies :
      (t : TrackLocal m) (condition : TrackWaitCondition) (value : Option ℕ) (timeout_us : ℕ)
      (answer : Answer m.remote) (s : TrackWaitSatisfied)
      → wait_track t condition value timeout_us answer ≡ ok s
      → Satisfies t condition value timeout_us s
  wait_track-Satisfies t condition value timeout_us answer s e =
      let (fits, waits_, bounded_, alive_) =
        wait_track-guards t condition value timeout_us answer s e in
      let about = wait_track-IsAbout t condition value timeout_us answer s e in
      record {
        value_fits = (validate_value-ok_iff m.known_mask condition value).0 fits;
        waits = waits_;
        bounded = bounded_;
        alive = alive_;
        own_context = about.context;
        own_surface = about.surface;
        own_track = about.track;
        same_generation = about.generation;
        same_condition = about.condition_;
      }
