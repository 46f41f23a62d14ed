-- ===== src/Track/Commands.antt =====
-- The commands of src/track.rs that end with an OK: `destroy_track`, `play`, `pause`,
-- `set_audio_gain`, `flush`, `drain` and `track_control`.
use vivid_sdk.Prelude.{
  ℕ, ◌≡◌, refl, ◌≢◌, inl, inr, Bool, true, false, not, Option, none, some, List, [], ◌∷◌, ◌++◌,
  arith, if◌then◌else◌, Bool-cases, Result, ok, err, Result-cases, ◌>>◌, refuse_if,
}
use vivid_sdk.Wire
use vivid_sdk.Wire.{PayloadMap, ensure_live_track}
use vivid_sdk.Session.{Error, Answer, Request, unsupported, invalid_input, wire}
use vivid_sdk.Track.{
  Media, Configuration, FlowView, track_destroyed, kind, audio_kind, timed_mode, TrackLocal,
  close_track_flow, identity, request_for, is_live,
}
use vivid_sdk.Track.Query.Reconciles.{close_track_flow-IsClosed}
use vivid_sdk.Track.Query.{same_kind, same_mode}
use vivid_sdk.Track.Create.{remove_track, has_track, same_track}
use vivid_sdk.Track.Conditions.{TrackWaitCondition}
use vivid_sdk.Track.Wait.{wait_track, TrackWaitSatisfied, wait_track-Satisfies}

module _ (m : Media) where
  -- What a command sees of `request_ok`.
  abbrev pub Acknowledge : Type 0
  Acknowledge = Request m.remote → Result Error (Unit {0})

  unfoldable pub track_control :
      ℕ → TrackLocal m → PayloadMap m.remote.cbor → Acknowledge → Result Error (Unit {0})
  track_control record_type t suffix acknowledge = do
    is_live m t
    acknowledge (request_for m record_type t.configuration (identity m t.configuration ++ suffix))

  unfoldable pub pause : TrackLocal m → Acknowledge → Result Error (Unit {0})
  unfolding track_control
  pause t = track_control m.pause t []

  unfoldable pub drain : TrackLocal m → Acknowledge → Result Error (Unit {0})
  unfolding track_control
  drain t = track_control m.drain t []

  unfoldable pub set_audio_gain : Bool → TrackLocal m → ℕ → Acknowledge → Result Error (Unit {0})
  unfolding track_control
  set_audio_gain supports_gain t gain acknowledge = do
    refuse_if (not supports_gain) unsupported
    is_live m t
    refuse_if (not (same_kind (kind t.configuration.kind_configuration) audio_kind)) invalid_input
    track_control m.set_audio_gain t ((3, m.remote.unsigned gain) ∷ []) acknowledge

  -- The payload of PLAY behind the identity; `rate` is 1 in 32.32 fixed point.
  abbrev play_suffix :
      TrackLocal m → m.remote.Signed → ℕ → ℕ → m.remote.Signed → PayloadMap m.remote.cbor
  play_suffix t start_pts_us minimum_buffer_us maximum_latency_us rate =
      (3, m.remote.signed start_pts_us)
      ∷ (4, m.remote.unsigned minimum_buffer_us)
      ∷ (5, m.remote.unsigned maximum_latency_us)
      ∷ (6, m.remote.signed rate)
      ∷ (7, m.remote.unsigned 1)
      ∷ (8, m.remote.unsigned 0)
      ∷ (9, m.remote.unsigned 1)
      ∷ (10, m.remote.unsigned t.channel_generation)
      ∷ []

  unfoldable pub play :
      Bool
      → TrackLocal m
      → m.remote.Signed
      → ℕ
      → ℕ
      → m.remote.Signed
      → Acknowledge
      → Result Error (Unit {0})
  play supports_timed t start_pts_us minimum_buffer_us maximum_latency_us rate acknowledge = do
    refuse_if (not supports_timed) unsupported
    is_live m t
    refuse_if (not (same_mode t.configuration.mode timed_mode)) invalid_input
    acknowledge (
        request_for m m.play t.configuration (
          identity m t.configuration
          ++ play_suffix t start_pts_us minimum_buffer_us maximum_latency_us rate))

  -- What `destroy_track` makes of the track once its request was acknowledged.
  unfoldable pub bury : TrackLocal m → TrackLocal m
  bury t = record t { destroyed = true; active_flow = none; has_media = false }

  -- `during` is what other threads make of the track while the request waits. The result has the
  -- track, the flow that was taken from it and closed, and the registry.
  unfoldable pub destroy_track :
      TrackLocal m
      → List (TrackLocal m)
      → Acknowledge
      → (TrackLocal m → TrackLocal m)
      → TrackLocal m × Option (FlowView m) × List (TrackLocal m) × Result Error (Unit {0})
  unfolding bury
  destroy_track t tracks acknowledge during =
      elim (do
        is_live m t
        acknowledge (request_for m m.destroy_track t.configuration (identity m t.configuration))) [
          | err e ↦ (during t, none, tracks, err e)
          | ok u ↦ (
            bury (during t),
            close_track_flow m (during t).active_flow track_destroyed,
            remove_track m tracks t.configuration,
            ok tt,
          )
        ]

  -- These operations do not get past the check of this track.
  pub record RefusesAll (t : TrackLocal m) : Type 0 where
    pub refuses_play :
        (g : Bool) (s : m.remote.Signed) (a b : ℕ) (rate : m.remote.Signed) (k : Acknowledge)
        → play g t s a b rate k ≢ ok tt
    pub refuses_pause : (k : Acknowledge) → pause t k ≢ ok tt
    pub refuses_drain : (k : Acknowledge) → drain t k ≢ ok tt
    pub refuses_gain : (g : Bool) (n : ℕ) (k : Acknowledge) → set_audio_gain g t n k ≢ ok tt
    pub refuses_control :
        (n : ℕ) (x : PayloadMap m.remote.cbor) (k : Acknowledge)
        → track_control n t x k
          ≡ err (wire (if t.lost then Wire.track_lost else Wire.track_destroyed))
    pub refuses_wait :
        (c : TrackWaitCondition) (v : Option ℕ) (n : ℕ) (k : Answer m.remote)
        (s : TrackWaitSatisfied m)
        → wait_track m t c v n k ≢ ok s

  dead-RefusesAll : (t : TrackLocal m) → t.destroyed ≡ true → RefusesAll t
  unfolding play pause drain set_audio_gain track_control ensure_live_track
  dead-RefusesAll t dead = record {
    refuses_play = λ g s a b rate k e. ground arith;
    refuses_pause = λ k e. ground arith;
    refuses_drain = λ k e. ground arith;
    refuses_gain = λ g n k e. ground arith;
    refuses_control = λ n x k. ground arith;
    refuses_wait =
        λ c v n k s e. let h = (wait_track-Satisfies m t c v n k s e).alive in ground arith;
  }

  same_track_refl : (c : Configuration) → same_track c c ≡ true
  same_track_refl c = ground arith

  remove_track-has_track :
      (ts : List (TrackLocal m)) (c : Configuration) → has_track m (remove_track m ts c) c ≡ false
  unfolding remove_track has_track
  remove_track-has_track [] c = refl
  remove_track-has_track (t ∷ ts) c =
      let rest = remove_track-has_track ts c in
      elim (Bool-cases (same_track t.configuration c)) [
        | inl same ↦ rw same rest
        | inr other ↦ rw (other, other) rest
      ]

  -- After a destroy that succeeded the registry has no track of this identity, the flow that the track
  -- had is closed, and playing, pausing, draining, setting the gain, any other control record and
  -- waiting fail on the track. Its status can still be asked for.
  pub destroyed-RefusesAll :
      (t : TrackLocal m) (tracks : List (TrackLocal m)) (acknowledge : Acknowledge)
      (during : TrackLocal m → TrackLocal m) (f : FlowView m)
      → (destroy_track t tracks acknowledge during).3 ≡ ok tt
      → RefusesAll (destroy_track t tracks acknowledge during).0
        × (has_track m (destroy_track t tracks acknowledge during).2 t.configuration ≡ false)
        × ((during t).active_flow ≡ some f
            → (c : FlowView m) × ((destroy_track t tracks acknowledge during).1 ≡ some c)
              × (c.closed ≡ true))
  unfolding destroy_track bury
  destroyed-RefusesAll t tracks acknowledge during f e = elim (Result-cases (is_live m t)) [
    | inr (x, h) ↦ absurd (ground arith)
    | inl (u, h) ↦
        elim (Result-cases (
          acknowledge
            (request_for m m.destroy_track t.configuration (identity m t.configuration)))) [
              | inr (x, i) ↦ absurd (ground arith)
              | inl (w, i) ↦ (
                dead-RefusesAll _ (ground arith),
                ground (arith, remove_track-has_track tracks t.configuration),
                λ had.
                    let (c, at, closed_, why) =
                      close_track_flow-IsClosed m (during t).active_flow track_destroyed f had in
                    (c, ground arith, closed_),
              )
            ]
  ]
