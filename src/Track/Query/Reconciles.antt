-- ===== src/Track/Query/Reconciles.antt =====
-- What a status accepted by `query_track` of src/track.rs says, and what it does to the track.
use mathlib.Core.Path.{subst}
use vivid_sdk.Prelude.{
  ◌≤◌, ℕ, ◌≡◌, refl, ◌≢◌, ◌⊎◌, inl, inr, Bool, true, false, ◌&&◌, Option, none, some, arith, ◌==◌,
  Bool-cases, Option-cases, ok, Result-cases,
}
use vivid_sdk.Wire
use vivid_sdk.Wire.{
  PayloadMap, validate_payload_keys, required_u64, required_u32, optional_u64, optional_map,
  expect_record, validate_track_tuple,
}
use vivid_sdk.Session.{Reply, Answer, decoded_payload}
use vivid_sdk.Wire.Schema.{validate_track_tuple-ok_iff}
use vivid_sdk.Track.{
  Media, TrackKind, TrackMode, kind, TrackLocal, FlowView, Reason, is_live, raster_kind, video_kind,
  audio_kind, image_kind, live_mode, timed_mode, close_track_flow, identity, request_for,
  different_generation, reported_lost, reported_tombstone,
}
use vivid_sdk.Track.Query.{
  same_kind, same_mode, TrackStatus, read_state, read_status, online_status, offline_lifecycle,
  offline_window, offline_status, check_status, query_status, reconcile_sequence, detached,
  reconcile, query_track,
}

same_kind-eq : (a b : TrackKind) → same_kind a b ≡ true → a ≡ b
same_kind-eq raster_kind raster_kind h = refl
same_kind-eq video_kind video_kind h = refl
same_kind-eq audio_kind audio_kind h = refl
same_kind-eq image_kind image_kind h = refl
same_kind-eq a b h = ground arith

same_kind_refl : (a : TrackKind) → same_kind a a ≡ true
same_kind_refl raster_kind = refl
same_kind_refl video_kind = refl
same_kind_refl audio_kind = refl
same_kind_refl image_kind = refl

same_mode-eq : (a b : TrackMode) → same_mode a b ≡ true → a ≡ b
same_mode-eq live_mode live_mode h = refl
same_mode-eq timed_mode timed_mode h = refl
same_mode-eq a b h = ground arith

same_mode_refl : (a : TrackMode) → same_mode a a ≡ true
same_mode_refl live_mode = refl
same_mode_refl timed_mode = refl

module _ (m : Media) where
  read_status_state :
      (g : Bool) (payload : PayloadMap m.remote.cbor) (s : TrackStatus m)
      → read_status m g payload ≡ ok s
      → read_state m g payload ≡ ok (s.kind_, s.mode, s.audio_gain)
  unfolding read_status
  read_status_state g payload s e = ground arith

  -- What a status tells of the track that it was asked for.
  pub record Describes (g : Bool) (t : TrackLocal m) (s : TrackStatus m) : Type 0 where
    pub own_context : s.context_id ≡ t.configuration.context_id
    pub own_surface : s.surface_id ≡ t.configuration.surface_id
    pub own_track : s.track_id ≡ t.configuration.track_id
    pub same_kind_ : s.kind_ ≡ kind t.configuration.kind_configuration
    pub same_mode_ : s.mode ≡ t.configuration.mode
    pub has_revision : s.revision ≢ 0
    pub has_generation : s.channel_generation ≢ 0
    pub bytes_within : s.cumulative_body_bytes ≤ s.maximum_body_bytes
    pub records_within : s.cumulative_media_records ≤ s.maximum_media_records
    pub known_lifecycle : s.lifecycle ≤ 7
    pub known_attachment : s.attachment_state ≤ 2
    pub gain_of_audio : s.audio_gain ≢ none → (g ≡ true) × (s.kind_ ≡ audio_kind)

  -- The part that TRACK_STATUS itself is checked for.
  record IsOwn (g : Bool) (t : TrackLocal m) (s : TrackStatus m) : Type 0 where
    context : s.context_id ≡ t.configuration.context_id
    surface : s.surface_id ≡ t.configuration.surface_id
    track : s.track_id ≡ t.configuration.track_id
    lifecycle : s.lifecycle ≤ 7
    attachment : s.attachment_state ≤ 2
    gain : s.audio_gain ≢ none → (g ≡ true) × (s.kind_ ≡ audio_kind)

  read_status_identity :
      (g : Bool) (payload : PayloadMap m.remote.cbor) (s : TrackStatus m)
      → read_status m g payload ≡ ok s
      → (required_u64 m.remote.cbor payload 0 ≡ ok s.context_id)
        × (required_u64 m.remote.cbor payload 1 ≡ ok s.surface_id)
        × (required_u64 m.remote.cbor payload 2 ≡ ok s.track_id)
        × (required_u64 m.remote.cbor payload 6 ≡ ok s.lifecycle)
        × (required_u64 m.remote.cbor payload 8 ≡ ok s.attachment_state)
  unfolding read_status
  read_status_identity g payload s e =
      (ground arith, ground arith, ground arith, ground arith, ground arith)

  read_state_gain :
      (g : Bool) (payload : PayloadMap m.remote.cbor) (k : TrackKind) (o : TrackMode) (v : ℕ)
      → read_state m g payload ≡ ok (k, o, some v)
      → (g ≡ true) × (same_kind k audio_kind ≡ true)
  unfolding read_state
  read_state_gain g payload k o v e = (ground arith, ground arith)

  gain_of :
      (g : Bool) (payload : PayloadMap m.remote.cbor) (k : TrackKind) (o : TrackMode)
      (gain : Option ℕ)
      → read_state m g payload ≡ ok (k, o, gain)
      → gain ≢ none
      → (g ≡ true) × (k ≡ audio_kind)
  gain_of g payload k o none e some_ = absurd (some_ refl)
  gain_of g payload k o (some v) e some_ =
      let (supported, audio_) = read_state_gain g payload k o v e in
      (supported, same_kind-eq k audio_kind audio_)

  read_state_known :
      (g : Bool) (payload : PayloadMap m.remote.cbor) (k : TrackKind) (o : TrackMode)
      (gain : Option ℕ) (lifecycle attachment : ℕ)
      → read_state m g payload ≡ ok (k, o, gain)
      → required_u64 m.remote.cbor payload 6 ≡ ok lifecycle
      → required_u64 m.remote.cbor payload 8 ≡ ok attachment
      → (lifecycle ≤ 7) × (attachment ≤ 2)
  unfolding read_state
  read_state_known g payload k o gain lifecycle attachment e el ea = (ground arith, ground arith)

  online_payload :
      (g : Bool) (t : TrackLocal m) (reply : Reply m.remote) (s : TrackStatus m)
      → online_status m g t reply ≡ ok s
      → (payload : PayloadMap m.remote.cbor) × (validate_track_tuple m.remote.cbor payload
            t.configuration.context_id t.configuration.surface_id t.configuration.track_id
          ≡ ok tt)
        × (read_status m g payload ≡ ok s)
  unfolding online_status decoded_payload
  online_payload g t reply s e = elim (Option-cases reply.decoded) [
    | inl h ↦ absurd (ground arith)
    | inr (v, h) ↦ (v.payload, ground arith, ground arith)
  ]

  online-IsOwn :
      (g : Bool) (t : TrackLocal m) (reply : Reply m.remote) (s : TrackStatus m)
      → online_status m g t reply ≡ ok s
      → IsOwn g t s
  online-IsOwn g t reply s e =
      let (payload, own, read) = online_payload g t reply s e in
      let (a, b, c0) =
        (validate_track_tuple-ok_iff m.remote.cbor payload t.configuration.context_id
            t.configuration.surface_id t.configuration.track_id).0
          own in
      let (x, y, z, l, n) = read_status_identity g payload s read in
      let state = read_status_state g payload s read in
      let known =
        read_state_known g payload s.kind_ s.mode s.audio_gain s.lifecycle s.attachment_state state
          l n in
      record {
        context = ground arith;
        surface = ground arith;
        track = ground arith;
        lifecycle = known.0;
        attachment = known.1;
        gain = gain_of g payload s.kind_ s.mode s.audio_gain state;
      }

  offline_gain :
      (g : Bool) (t : TrackLocal m)
      → (offline_status m g t).audio_gain ≢ none
      → (g ≡ true) × (kind t.configuration.kind_configuration ≡ audio_kind)
  unfolding offline_status
  offline_gain g t some_ =
      elim (Bool-cases (g && same_kind (kind t.configuration.kind_configuration) audio_kind)) [
        | inr h ↦ absurd (ground arith)
        | inl h ↦ (ground arith, same_kind-eq _ audio_kind (ground arith))
      ]

  offline-IsOwn : (g : Bool) (t : TrackLocal m) → IsOwn g t (offline_status m g t)
  unfolding offline_status offline_lifecycle
  offline-IsOwn g t = record {
    context = refl;
    surface = refl;
    track = refl;
    lifecycle = ground arith;
    attachment = ground arith;
    gain = offline_gain g t;
  }

  check_status-Describes :
      (g : Bool) (t : TrackLocal m) (s u : TrackStatus m)
      → IsOwn g t s
      → check_status m t s ≡ ok u
      → Describes g t u
  unfolding check_status
  check_status-Describes g t s u own e =
      let same : ◌≡◌ {A = TrackStatus m} s u = ground arith in
      subst (Describes g t) same record {
        own_context = own.context;
        own_surface = own.surface;
        own_track = own.track;
        same_kind_ = same_kind-eq s.kind_ _ (ground arith);
        same_mode_ = same_mode-eq s.mode _ (ground arith);
        has_revision = ground arith;
        has_generation = ground arith;
        bytes_within = ground arith;
        records_within = ground arith;
        known_lifecycle = own.lifecycle;
        known_attachment = own.attachment;
        gain_of_audio = own.gain;
      }

  -- A status that `query_track` accepts, from a reply or of an offline session, is about this track
  -- and repeats its kind and mode, has a revision and a generation other than zero, no more progress
  -- than the window it names allows, a known lifecycle and attachment, and a gain only where gains
  -- were negotiated and the track is audio.
  pub query_status-Describes :
      (g : Bool) (t : TrackLocal m) (answer : Answer m.remote) (s : TrackStatus m)
      → query_status m g t answer ≡ ok s
      → Describes g t s
  unfolding query_status
  query_status-Describes g t answer s e =
      elim (Result-cases
        (answer (request_for m m.query_track t.configuration (identity m t.configuration)))) [
          | inr (x, h) ↦ absurd (ground arith)
          | inl (none, h) ↦
              check_status-Describes g t (offline_status m g t) s (offline-IsOwn g t) (ground arith)
          | inl (some r, h) ↦ elim (Result-cases (online_status m g t r)) [
            | inr (x, i) ↦ absurd (ground arith)
            | inl (u, i) ↦ check_status-Describes g t u s (online-IsOwn g t r u i) (ground arith)
          ]
        ]

  -- What a query makes of the track `t`, on a status `s`: `u` is the track after, `d` the flow that
  -- was detached.
  pub record TakesOver (t : TrackLocal m) (s : TrackStatus m) (u : TrackLocal m)
      (d : Option (FlowView m)) : Type 0 where
    pub revision : u.revision ≡ s.revision
    pub generation : u.channel_generation ≡ s.channel_generation
    pub id_kept : t.media_sequence.last_id ≤ u.media_sequence.last_id
    pub id_reported : s.last_media_id ≤ u.media_sequence.last_id
    pub epoch_kept : t.media_sequence.last_epoch ≤ u.media_sequence.last_epoch
    pub epoch_reported : s.media_epoch ≤ u.media_sequence.last_epoch
    pub ended_has_no_flow : u.destroyed ≡ true → (u.active_flow ≡ none) × (u.has_media ≡ false)
    pub new_generation_has_no_flow :
        s.channel_generation ≢ t.channel_generation → (u.active_flow ≡ none) × (u.has_media ≡ false)
    pub flow_kept_or_closed :
        (f : FlowView m)
        → t.active_flow ≡ some f
        → (u.active_flow ≡ some f)
          ⊎ ((c : FlowView m) × (d ≡ some c) × (c.closed ≡ true) × (c.diagnostic ≢ none))

  -- The flow `f` is there, closed with a diagnosis.
  abbrev pub IsClosed : Option (FlowView m) → Type 0
  IsClosed d = (c : FlowView m) × (d ≡ some c) × (c.closed ≡ true) × (c.diagnostic ≢ none)

  pub close_track_flow-IsClosed :
      (o : Option (FlowView m)) (reason : Reason) (f : FlowView m)
      → o ≡ some f
      → IsClosed (close_track_flow m o reason)
  unfolding close_track_flow
  close_track_flow-IsClosed none reason f e = absurd (ground arith)
  close_track_flow-IsClosed (some x) reason f e = elim (Option-cases x.diagnostic) [
    | inl h ↦ (_, refl, refl, λ d. absurd (ground arith))
    | inr (first, h) ↦ (_, refl, refl, λ d. absurd (ground arith))
  ]

  reconcile_flow :
      (t : TrackLocal m) (s : TrackStatus m) (f : FlowView m)
      → t.active_flow ≡ some f
      → ((reconcile m t s).active_flow ≡ some f) ⊎ IsClosed (detached m t s)
  unfolding reconcile detached
  reconcile_flow t s f e =
      let closes = λ (reason : Reason). close_track_flow-IsClosed t.active_flow reason f e in
      elim (Bool-cases (s.channel_generation == t.channel_generation)) [
        | inr other ↦ inr (subst IsClosed (ground arith) (closes different_generation))
        | inl same ↦ elim (Bool-cases (s.lifecycle == 6)) [
          | inl lost_ ↦ inr (subst IsClosed (ground arith) (closes reported_lost))
          | inr alive ↦ elim (Bool-cases (s.lifecycle == 7)) [
            | inl tomb ↦ inr (subst IsClosed (ground arith) (closes reported_tombstone))
            | inr lives ↦ inl (ground arith)
          ]
        ]
      ]

  reconcile-TakesOver :
      (t : TrackLocal m) (s : TrackStatus m) → TakesOver t s (reconcile m t s) (detached m t s)
  unfolding reconcile reconcile_sequence
  reconcile-TakesOver t s = record {
    revision = refl;
    generation = refl;
    id_kept = omega arith;
    id_reported = omega arith;
    epoch_kept = omega arith;
    epoch_reported = omega arith;
    ended_has_no_flow = λ h. (ground arith, ground arith);
    new_generation_has_no_flow = λ h. (ground arith, ground arith);
    flow_kept_or_closed = reconcile_flow t s;
  }

  -- A query that succeeds takes over the revision and the generation; neither the track's media ID and
  -- epoch nor the reported ones are lost; a track that ended or moved to another generation has no
  -- flow, and the flow that it had is kept or closed with a diagnosis. Here `t` is the track after
  -- what other threads did while the query waited.
  pub query_track-TakesOver :
      (g : Bool) (t : TrackLocal m) (answer : Answer m.remote)
      (during : TrackLocal m → TrackLocal m) (s : TrackStatus m)
      → (query_track m g t answer during).1 ≡ ok s
      → TakesOver (during t) s (query_track m g t answer during).0 (detached m (during t) s)
  unfolding query_track
  query_track-TakesOver g t answer during s e = elim (Result-cases (query_status m g t answer)) [
    | inr (x, h) ↦ absurd (ground arith)
    | inl (u, h) ↦
        let same : ◌≡◌ {A = TrackStatus m} u s = ground arith in
        subst (λ p. TakesOver (during t) s p (detached m (during t) s)) (ground arith)
          (reconcile-TakesOver (during t) s)
  ]

  -- A status with an earlier lifecycle that arrives after the track was lost makes it count as live
  -- again, whatever the loss did to it.
  pub late_status_revives :
      (g : Bool) (t : TrackLocal m) (answer : Answer m.remote)
      (during : TrackLocal m → TrackLocal m) (s : TrackStatus m)
      → (query_track m g t answer during).1 ≡ ok s
      → s.lifecycle ≤ 5
      → (during t).lost ≡ true
      → (is_live m (query_track m g t answer during).0 ≡ ok tt)
        × ((query_track m g t answer during).0.lost ≡ true)
  unfolding query_track reconcile Wire.ensure_live_track
  late_status_revives g t answer during s e early lost_ =
      elim (Result-cases (query_status m g t answer)) [
        | inr (x, h) ↦ absurd (ground arith)
        | inl (u, h) ↦ (ground arith, ground arith)
      ]

  -- Of an offline session the query of a track succeeds when the track has a revision and a
  -- generation other than zero and its flow has not sent more than its window allows.
  pub offline_query_answers :
      (g : Bool) (t : TrackLocal m) (during : TrackLocal m → TrackLocal m)
      → t.revision ≢ 0
      → t.channel_generation ≢ 0
      → ((f : FlowView m)
          → t.active_flow ≡ some f
          → (m.flow.sent_body_bytes f.window ≤ m.flow.maximum_body_bytes f.window)
            × (m.flow.sent_media_records f.window ≤ m.flow.maximum_media_records f.window))
      → (query_track m g t (λ q. ok none) during).1 ≡ ok (offline_status m g t)
  unfolding query_track query_status check_status offline_status offline_window
  offline_query_answers g t during r0 g0 within =
      let k = same_kind_refl (kind t.configuration.kind_configuration) in
      let o = same_mode_refl t.configuration.mode in
      elim (Option-cases t.active_flow) [
        | inl h ↦ let w = m.default_within in ground arith
        | inr (f, h) ↦ let w = within f h in ground arith
      ]
