-- ===== src/Channel/Reader/Effects.antt =====
-- What one record of the other side may change in a channel of src/channel.rs.
use vivid_sdk.Prelude.{
  ◌+◌, ◌≤◌, ◌<◌, ℕ, ◌≡◌, refl, ◌⊎◌, inl, inr, true, Option, none, some, [], ◌∷◌, arith,
  if◌then◌else◌, Option-cases, length, length-append, Result-cases,
}
use vivid_sdk.Wire.{PayloadMap, required_u64, required_u32}
use vivid_sdk.Channel.State.{
  FlowControl, Peer, MediaState, Channel, ChannelEvent, need_keyframe_event, need_full_frame_event,
  error_event,
}
use vivid_sdk.Channel.Reader.{
  is_some, Identity, Reverse, push_channel_event, handle, handle_error, handle_payload, dispatch,
  identify, raise_flow, keyframe, full_frame, recover, read_record, then_push,
}

-- What the recovery state may do while a send is in transport, if no flush comes: the revision and
-- the minimum epoch grow, and a new revision comes with a standing request.
pub record Grows (m n : MediaState) : Type 0 where
  pub revision : m.recovery_revision ≤ n.recovery_revision
  pub minimum : m.minimum_recovery_epoch ≤ n.minimum_recovery_epoch
  pub standing : m.needs_recovery ≡ true → n.needs_recovery ≡ true
  pub requested : m.recovery_revision < n.recovery_revision → n.needs_recovery ≡ true
  pub same_eos : n.eos ≡ m.eos
  pub same_image : n.image_sent ≡ m.image_sent

pub Grows-refl : (m : MediaState) → Grows m m
Grows-refl m = ground arith

pub Grows-trans : (a b c : MediaState) → Grows a b → Grows b c → Grows a c
Grows-trans a b c g h = ground arith

module _ (f : FlowControl) (p : Peer) where
  -- What no record changes, and how the flow may change.
  pub record Leaves (c d : Channel f p) : Type 0 where
    pub sequence : d.sequence ≡ c.sequence
    pub session : d.session_closed ≡ c.session_closed
    pub sent_bytes : f.sent_body_bytes d.flow ≡ f.sent_body_bytes c.flow
    pub sent_records : f.sent_media_records d.flow ≡ f.sent_media_records c.flow
    pub more_bytes : f.maximum_body_bytes c.flow ≤ f.maximum_body_bytes d.flow
    pub more_records : f.maximum_media_records c.flow ≤ f.maximum_media_records d.flow
    pub bounded : length c.events ≤ 256 → length d.events ≤ 256

  record Effect (c d : Channel f p) : Type 0 where
    grows : Grows c.media d.media
    leaves : Leaves c d
    closed : d.closed ≡ c.closed
    diagnostic : d.diagnostic ≡ c.diagnostic

  Effect-refl : (c : Channel f p) → Effect c c
  Effect-refl c = ground arith

  push-Effect : (c : Channel f p) (e : ChannelEvent f p) → Effect c (then_push f p c e).0
  unfolding push_channel_event
  push-Effect c e = ground (arith, length-append c.events (e ∷ []))

  recover-Effect : (c : Channel f p) (k : ℕ) (e : ChannelEvent f p) → Effect c (recover f p c k e).0
  unfolding recover
  recover-Effect c k e = ground (arith, length-append c.events (e ∷ []))

  raise-Effect : (c : Channel f p) (m : PayloadMap p.cbor) → Effect c (raise_flow f p c m).0
  unfolding raise_flow
  raise-Effect c m = elim (Result-cases (required_u64 p.cbor m 4)) [
    | inr (x, e) ↦ ground arith
    | inl (b, e) ↦ elim (Result-cases (required_u64 p.cbor m 5)) [
      | inr (x, e') ↦ ground arith
      | inl (n, e') ↦ ground (arith, f.raise_sent c.flow b n, f.raise_grows c.flow b n)
    ]
  ]

  keyframe-Effect : (c : Channel f p) (m : PayloadMap p.cbor) → Effect c (keyframe f p c m).0
  unfolding keyframe
  keyframe-Effect c m = elim (Result-cases (required_u32 p.cbor m 4)) [
    | inr (x, e) ↦ ground arith
    | inl (k, e) ↦ ground (arith, length-append c.events (need_keyframe_event m ∷ []))
  ]

  full_frame-Effect : (c : Channel f p) (m : PayloadMap p.cbor) → Effect c (full_frame f p c m).0
  unfolding full_frame
  full_frame-Effect c m = ground (arith, length-append c.events (need_full_frame_event m ∷ []))

  dispatch-Effect :
      (c : Channel f p) (r : Reverse f p) (m : PayloadMap p.cbor) → Effect c (dispatch f p c r m).0
  unfolding dispatch
  dispatch-Effect c r m =
      ground (arith, raise-Effect c m, keyframe-Effect c m, full_frame-Effect c m, Effect-refl c)

  payload-Effect :
      (i : Identity) (c : Channel f p) (r : Reverse f p) (o : Option (PayloadMap p.cbor))
      → Effect c (handle_payload f p i c r o).0
  unfolding handle_payload
  payload-Effect i c r none = Effect-refl c
  payload-Effect i c r (some m) = ground (arith, dispatch-Effect c r m, Effect-refl c)

  error-Effect : (c : Channel f p) (o : Option p.ErrorReply) → Effect c (handle_error f p c o).0
  unfolding handle_error
  error-Effect c none = Effect-refl c
  error-Effect c (some e) = push-Effect c (error_event e)

  handle-Effect : (i : Identity) (c : Channel f p) (r : Reverse f p) → Effect c (handle f p i c r).0
  unfolding handle
  handle-Effect i c r =
      ground (arith, error-Effect c r.error_reply, payload-Effect i c r r.decoded, Effect-refl c)

  pub read_record-Grows :
      (i : Identity) (c : Channel f p) (r : Reverse f p)
      → Grows c.media (read_record f p i c r).media
  unfolding read_record
  read_record-Grows i c r = elim (Option-cases (handle f p i c r).1) [
    | inl e ↦ rw e (handle-Effect i c r).grows
    | inr (x, e) ↦ rw e (handle-Effect i c r).grows
  ]

  pub read_record-Leaves :
      (i : Identity) (c : Channel f p) (r : Reverse f p) → Leaves c (read_record f p i c r)
  unfolding read_record
  read_record-Leaves i c r =
      let v = (handle-Effect i c r).leaves in
      elim (Option-cases (handle f p i c r).1) [
        | inl e ↦ rw e v
        | inr (x, e) ↦ rw e (record {
          sequence = v.sequence;
          session = v.session;
          sent_bytes = v.sent_bytes;
          sent_records = v.sent_records;
          more_bytes = v.more_bytes;
          more_records = v.more_records;
          bounded = v.bounded;
        })
      ]

  -- A record that the reader accepts leaves the channel as open as it was; a failure closes it, and
  -- is its diagnostic.
  pub read_record-closed :
      (i : Identity) (c : Channel f p) (r : Reverse f p)
      → ((read_record f p i c r).closed ≡ (if is_some (handle f p i c r).1 then true else c.closed))
        × ((read_record f p i c r).diagnostic
            ≡ (if is_some (handle f p i c r).1 then (handle f p i c r).1 else c.diagnostic))
  unfolding read_record
  read_record-closed i c r = elim (Option-cases (handle f p i c r).1) [
    | inl e ↦ rw e ((handle-Effect i c r).closed, (handle-Effect i c r).diagnostic)
    | inr (x, e) ↦ rw e (refl, refl)
  ]

  recover-requests :
      (c : Channel f p) (k : ℕ) (e : ChannelEvent f p)
      → (recover f p c k e).1 ≡ none
      → (recover f p c k e).0.media.recovery_revision ≡ c.media.recovery_revision + 1
  unfolding recover
  recover-requests c k e accepted = ground arith

  dispatch-requests :
      (c : Channel f p) (r : Reverse f p) (m : PayloadMap p.cbor)
      → (r.record_type ≡ p.need_keyframe) ⊎ (r.record_type ≡ p.need_full_frame)
      → (dispatch f p c r m).1 ≡ none
      → (dispatch f p c r m).0.media.recovery_revision ≡ c.media.recovery_revision + 1
  unfolding dispatch
  dispatch-requests c r m request accepted = ground (
    arith,
    p.keyframe_is_no_maximum,
    p.full_frame_is_no_maximum,
    recover-requests c 0 (need_full_frame_event m),
  )

  payload-requests :
      (i : Identity) (c : Channel f p) (r : Reverse f p) (o : Option (PayloadMap p.cbor))
      → (r.record_type ≡ p.need_keyframe) ⊎ (r.record_type ≡ p.need_full_frame)
      → (handle_payload f p i c r o).1 ≡ none
      → (handle_payload f p i c r o).0.media.recovery_revision ≡ c.media.recovery_revision + 1
  unfolding handle_payload
  payload-requests i c r none request accepted = absurd (ground arith)
  payload-requests i c r (some m) request accepted = elim (Result-cases (identify f p i m)) [
    | inl (u, e) ↦ ground (arith, dispatch-requests c r m request)
    | inr (x, e) ↦ absurd (ground arith)
  ]

  handled-requests :
      (i : Identity) (c : Channel f p) (r : Reverse f p)
      → (r.record_type ≡ p.need_keyframe) ⊎ (r.record_type ≡ p.need_full_frame)
      → (handle f p i c r).1 ≡ none
      → (handle f p i c r).0.media.recovery_revision ≡ c.media.recovery_revision + 1
  unfolding handle
  handled-requests i c r request accepted = ground (
    arith,
    p.keyframe_is_no_error,
    p.full_frame_is_no_error,
    payload-requests i c r r.decoded request,
  )

  -- An accepted recovery request takes the next revision.
  pub handle-requests :
      (i : Identity) (c : Channel f p) (r : Reverse f p)
      → (r.record_type ≡ p.need_keyframe) ⊎ (r.record_type ≡ p.need_full_frame)
      → (handle f p i c r).1 ≡ none
      → (read_record f p i c r).media.recovery_revision ≡ c.media.recovery_revision + 1
  unfolding read_record
  handle-requests i c r request accepted = ground (arith, handled-requests i c r request accepted)
