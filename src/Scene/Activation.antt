-- ===== src/Scene/Activation.antt =====
-- `Session::activate_tracks` of src/scene.rs.
use vivid_sdk.Prelude.{
  ◌+◌, ◌/◌, ◌%◌, ◌≤◌, ◌<◌, ℕ, zero, suc, ◌≡◌, refl, ◌≢◌, inl, inr, Bool, true, false, not, ◌&&◌,
  ◌||◌, Option, none, some, List, [], ◌∷◌, map, arith, ltb, leb, ◌==◌, if◌then◌else◌, Option-cases,
  All, Result, ok, err, Result-cases, ◌>>=◌, ◌>>◌, refuse_if, or_fail,
}
use vivid_sdk.Wire.{
  PayloadMap, expect_record, validate_exact_payload_keys, validate_owner_pair, required_u64,
  ensure_live_surface, ensure_live_track,
}
use vivid_sdk.Session.{
  Error, Reply, Answer, lift, decoded_payload, invalid_input, invalid_data, require_nonzero,
}
use vivid_sdk.Track.{TrackLocal, is_live, bits_outside}
use vivid_sdk.Surface.{Canvas, SurfaceLocal, advance, request_about}

pub record SlotBinding : Type 0 where
  pub slot : ℕ
  pub track_id : ℕ
  pub expected_channel_generation : ℕ
  pub required_milestone : ℕ

-- `count_ones` of a number with at most that many bits.
unfoldable pub count_ones : ℕ → ℕ → ℕ
count_ones zero n = 0
count_ones (suc bits) n = n % 2 + count_ones bits (n / 2)

abbrev pub contains : List ℕ → ℕ → Bool
contains [] slot = false
contains (x ∷ xs) slot = x == slot || contains xs slot

module _ (c : Canvas) where
  -- `tracks.get(&(context_id, surface_id, track_id))`.
  unfoldable pub find_track : List (TrackLocal c.media) → ℕ → ℕ → ℕ → Option (TrackLocal c.media)
  find_track [] context_id surface_id track_id = none
  find_track (t ∷ ts) context_id surface_id track_id =
      if t.configuration.context_id == context_id
        && (t.configuration.surface_id == surface_id && t.configuration.track_id == track_id)
      then some t
      else find_track ts context_id surface_id track_id

  unfoldable pub check_cleared : SlotBinding → Result Error (Unit {0})
  check_cleared b =
      refuse_if (not (b.expected_channel_generation == 0) || not (b.required_milestone == 0))
        invalid_input

  unfoldable pub check_bound :
      SurfaceLocal c → List (TrackLocal c.media) → SlotBinding → Result Error (Unit {0})
  check_bound s tracks b = do
    refuse_if
        (b.expected_channel_generation == 0
          || not (count_ones 64 b.required_milestone == 1)
          || not (bits_outside c.media.known_mask b.required_milestone == 0))
        invalid_input
    t ←
        or_fail (find_track tracks s.definition.context_id s.definition.surface_id b.track_id)
          invalid_input
    is_live c.media t
    refuse_if
        (not (t.configuration.slot == b.slot)
          || not (t.channel_generation == b.expected_channel_generation))
        invalid_input

  -- One round of the loop, and the loop; `seen` are the slots of the rounds before.
  unfoldable pub check_binding :
      SurfaceLocal c → List (TrackLocal c.media) → List ℕ → SlotBinding → Result Error (Unit {0})
  check_binding s tracks seen b = do
    refuse_if (b.slot == 0 || ltb 4 b.slot || contains seen b.slot) invalid_input
    if b.track_id == 0 then check_cleared b else check_bound s tracks b

  unfoldable pub check_bindings :
      SurfaceLocal c
      → List (TrackLocal c.media)
      → List ℕ
      → List SlotBinding
      → Result Error (Unit {0})
  check_bindings s tracks seen [] = ok tt
  check_bindings s tracks seen (b ∷ bs) = do
    check_binding s tracks seen b
    check_bindings s tracks (b.slot ∷ seen) bs

  -- New revision and presentation ID of TRACK_ACTIVATED.
  unfoldable pub read_activated : SurfaceLocal c → Reply c.media.remote → Result Error (ℕ × ℕ)
  read_activated s reply = do
    lift (expect_record reply.record_type reply.object_id c.track_activated s.definition.surface_id)
    payload ← decoded_payload c.media.remote reply
    lift (validate_exact_payload_keys c.media.remote.cbor payload 0 4)
    lift (
        validate_owner_pair c.media.remote.cbor payload s.definition.context_id
          s.definition.surface_id)
    revision ← lift (required_u64 c.media.remote.cbor payload 3)
    presentation_id ← lift (required_u64 c.media.remote.cbor payload 4)
    ok (revision, presentation_id)

  unfoldable pub offline_activated : SurfaceLocal c → Result Error (ℕ × ℕ)
  offline_activated s = do revision ← advance c s.revision; ok (revision, 1)

  unfoldable pub binding_value : SlotBinding → c.media.remote.cbor.Value
  binding_value b = c.map_value (
      (0, c.media.remote.unsigned b.slot)
      ∷ (1, c.media.remote.unsigned b.track_id)
      ∷ (2, c.media.remote.unsigned b.expected_channel_generation)
      ∷ (3, c.media.remote.unsigned b.required_milestone)
      ∷ [])

  unfoldable pub activation_payload :
      SurfaceLocal c → List SlotBinding → PayloadMap c.media.remote.cbor
  activation_payload s bindings =
      (0, c.media.remote.unsigned s.definition.context_id)
      ∷ (1, c.media.remote.unsigned s.definition.surface_id)
      ∷ (2, c.array_value (map binding_value bindings))
      ∷ (3, c.media.remote.unsigned s.revision)
      ∷ []

  unfoldable pub is_empty : List SlotBinding → Bool
  is_empty [] = true
  is_empty (b ∷ bs) = false

  -- `activate_tracks` up to its second lock of the surface.
  unfoldable pub activation :
      SurfaceLocal c
      → List (TrackLocal c.media)
      → List SlotBinding
      → Answer c.media.remote
      → Result Error (ℕ × ℕ)
  activation s tracks bindings answer = do
    refuse_if (is_empty bindings) invalid_input
    lift (ensure_live_surface s.destroyed)
    check_bindings s tracks [] bindings
    reply ←
        answer
          (request_about c c.activate_track s.definition.surface_id (activation_payload s bindings))
    (revision, presentation_id) ← elim reply [
      | some r ↦ read_activated s r
      | none ↦ offline_activated s
    ]
    require_nonzero revision
    refuse_if (leb revision s.revision || presentation_id == 0) invalid_data
    ok (revision, presentation_id)

  -- `during` is what others make of the surface while the request waits for its reply.
  unfoldable pub activate_tracks :
      SurfaceLocal c
      → List (TrackLocal c.media)
      → List SlotBinding
      → Answer c.media.remote
      → (SurfaceLocal c → SurfaceLocal c)
      → SurfaceLocal c × Result Error ℕ
  activate_tracks s tracks bindings answer during = elim (activation s tracks bindings answer) [
    | err e ↦ (during s, err e)
    | ok (revision, presentation_id) ↦
        (record (during s) { revision = revision }, ok presentation_id)
  ]

  -- A binding that names a live track of the surface in its slot and generation, or clears a slot.
  pub record IsBound (s : SurfaceLocal c) (tracks : List (TrackLocal c.media)) (b : SlotBinding)
      : Type 0 where
    pub known_slot : (0 < b.slot) × (b.slot ≤ 4)
    pub cleared : b.track_id ≡ 0 → (b.expected_channel_generation ≡ 0) × (b.required_milestone ≡ 0)
    pub track :
        b.track_id ≢ 0
        → (t : TrackLocal c.media) × (find_track tracks s.definition.context_id
              s.definition.surface_id b.track_id
            ≡ some t)
          × (t.destroyed ≡ false)
          × (t.configuration.slot ≡ b.slot)
          × (t.channel_generation ≡ b.expected_channel_generation)
          × (b.expected_channel_generation ≢ 0)
          × (count_ones 64 b.required_milestone ≡ 1)

  -- The slots of the bindings are different from each other and from those seen before.
  abbrev pub AreUnique : List ℕ → List SlotBinding → Type 0
  AreUnique seen [] = Unit
  AreUnique seen (b ∷ bs) = (contains seen b.slot ≡ false) × AreUnique (b.slot ∷ seen) bs

  check_bound_lem :
      (s : SurfaceLocal c) (tracks : List (TrackLocal c.media)) (b : SlotBinding)
      → check_bound s tracks b ≡ ok tt
      → (t : TrackLocal c.media) × (find_track tracks s.definition.context_id
            s.definition.surface_id b.track_id
          ≡ some t)
        × (t.destroyed ≡ false)
        × (t.configuration.slot ≡ b.slot)
        × (t.channel_generation ≡ b.expected_channel_generation)
        × (b.expected_channel_generation ≢ 0)
        × (count_ones 64 b.required_milestone ≡ 1)
  unfolding check_bound ensure_live_track
  check_bound_lem s tracks b e =
      elim (Option-cases
        (find_track tracks s.definition.context_id s.definition.surface_id b.track_id)) [
          | inl h ↦ absurd (ground arith)
          | inr (t, h) ↦
              (t, h, ground arith, ground arith, ground arith, ground arith, ground arith)
        ]

  check_binding-IsBound :
      (s : SurfaceLocal c) (tracks : List (TrackLocal c.media)) (seen : List ℕ) (b : SlotBinding)
      → check_binding s tracks seen b ≡ ok tt
      → IsBound s tracks b × (contains seen b.slot ≡ false)
  unfolding check_binding check_cleared
  check_binding-IsBound s tracks seen b e = (
    record {
      known_slot = (ground arith, ground arith);
      cleared = λ h. (ground arith, ground arith);
      track = λ h. check_bound_lem s tracks b (ground arith);
    },
    ground arith,
  )

  check_bindings_lem :
      (s : SurfaceLocal c) (tracks : List (TrackLocal c.media)) (seen : List ℕ)
      (bs : List SlotBinding)
      → check_bindings s tracks seen bs ≡ ok tt
      → All (IsBound s tracks) bs × AreUnique seen bs
  unfolding check_bindings
  check_bindings_lem s tracks seen [] e = (tt, tt)
  check_bindings_lem s tracks seen (b ∷ bs) e =
      let (bound, new) = check_binding-IsBound s tracks seen b (ground arith) in
      let (rest, unique) = check_bindings_lem s tracks (b.slot ∷ seen) bs (ground arith) in
      ((bound, rest), (new, unique))

  -- What an activation that succeeds was checked for, and what it leaves.
  pub record Activates (s now : SurfaceLocal c) (tracks : List (TrackLocal c.media))
      (bs : List SlotBinding) (u : SurfaceLocal c) (presentation_id : ℕ) : Type 0 where
    pub some_bindings : is_empty bs ≡ false
    pub live : s.destroyed ≡ false
    pub all_bound : All (IsBound s tracks) bs
    pub unique : AreUnique [] bs
    pub advances : s.revision < u.revision
    pub presented : presentation_id ≢ 0
    pub same_definition : u.definition ≡ now.definition

  activation_lem :
      (s : SurfaceLocal c) (tracks : List (TrackLocal c.media)) (bs : List SlotBinding)
      (answer : Answer c.media.remote) (revision presentation_id : ℕ)
      → activation s tracks bs answer ≡ ok (revision, presentation_id)
      → (is_empty bs ≡ false)
        × (s.destroyed ≡ false)
        × (check_bindings s tracks [] bs ≡ ok tt)
        × (s.revision < revision)
        × (presentation_id ≢ 0)
  unfolding activation ensure_live_surface
  activation_lem s tracks bs answer revision presentation_id e =
      (ground arith, ground arith, ground arith, ground arith, ground arith)

  -- An activation that succeeds had at least one binding, each for another slot from one to four, and
  -- each either clearing its slot or naming a live track of this live surface that has this slot and
  -- this channel generation, with exactly one milestone; the surface gets a later revision than the
  -- one that was sent, and a presentation ID other than zero is returned.
  pub activate_tracks-Activates :
      (s : SurfaceLocal c) (tracks : List (TrackLocal c.media)) (bs : List SlotBinding)
      (answer : Answer c.media.remote) (during : SurfaceLocal c → SurfaceLocal c)
      (presentation_id : ℕ)
      → (activate_tracks s tracks bs answer during).1 ≡ ok presentation_id
      → Activates s
          (during s)
          tracks
          bs
          (activate_tracks s tracks bs answer during).0
          presentation_id
  unfolding activate_tracks
  activate_tracks-Activates s tracks bs answer during presentation_id e =
      elim (Result-cases (activation s tracks bs answer)) [
        | inr (x, h) ↦ absurd (ground arith)
        | inl ((revision, id), h) ↦
            let (some_, live_, checked, onward, shown) =
              activation_lem s tracks bs answer revision id h in
            let (bound, unique_) = check_bindings_lem s tracks [] bs checked in
            rw (h, activate_tracks)
              record {
                some_bindings = some_;
                live = live_;
                all_bound = bound;
                unique = unique_;
                advances = onward;
                presented = ground arith;
                same_definition = refl;
              }
      ]
