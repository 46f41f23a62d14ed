-- ===== src/Channel/Reader.antt =====
-- src/channel.rs, `spawn_channel_reader`: the records of the other side, and the events that another
-- thread may bring while a record is in transport.
pub mod Effects
pub mod Returns
use vivid_sdk.Prelude.{
  ◌+◌, ◌-◌, ◌*◌, ◌/◌, ◌%◌, ◌^◌, ◌≤◌, ◌<◌, min, max, ℕ, zero, suc, ◌≡◌, refl, sym, ap, ◌∙◌, ◌≢◌, ◌↔◌,
  ◌⊎◌, inl, inr, Bool, true, false, not, ◌&&◌, ◌||◌, Option, none, some, List, [], ◌∷◌, ◌++◌, map,
  arith, ltb, leb, ◌==◌, if◌then◌else◌, ltb→lt, lt→ltb, leb→le, ==_iff, Bool-cases, Option-cases,
  length, get_elem?, All, length-append, get_elem?-some, Result, ok, err, Result-cases, ◌>>=◌, ◌>>◌,
  refuse_if, or_fail, u32_max, u64_max, saturating_add, saturating_mul, checked_add, duration_max,
  add_duration, as_micros,
}
use Prim.Native.String.{String}
use vivid_sdk.Wire.{
  PayloadMap, required_u64, required_u32, validate_track_tuple, validate_exact_payload_keys,
  validate_payload_keys,
}
use vivid_sdk.Wire
use vivid_sdk.Channel.State.{
  FlowControl, Peer, Error, wrong_object, malformed, stale_generation, unexpected_record,
  revision_exhausted, events_full, payload, max_channel_events, MediaState, MediaSequence, Channel,
  ChannelEvent, need_keyframe_event, need_full_frame_event, error_event, reconcile_status,
  flush_finish, close, close_track_flow, charge, Charge, granted, must_wait, failed,
}

-- The identity that the reader was started with.
pub record Identity : Type 0 where
  pub context_id : ℕ
  pub surface_id : ℕ
  pub track_id : ℕ
  pub generation : ℕ

abbrev pub is_some {ℓ} : {A : Type ℓ} → Option A → Bool
is_some none = false
is_some (some a) = true

-- An error of `wire.rs`, as one of the channel.
abbrev pub in_payload {ℓ} : {A : Type ℓ} → Result Wire.Error A → Result Error A
in_payload (ok a) = ok a
in_payload (err e) = err (payload e)

module _ (f : FlowControl) (p : Peer) where
  -- A record, with what `parse_error_reply` and `decode_control` of the other crate make of its body.
  pub record Reverse : Type 0 where
    pub record_type : ℕ
    pub object_id : ℕ
    pub is_optional : Bool
    pub error_reply : Option p.ErrorReply
    pub decoded : Option (PayloadMap p.cbor)

  pub push_channel_event : Channel f p → ChannelEvent f p → Result Error (Channel f p)
  push_channel_event c e =
      if length c.events == max_channel_events
      then err events_full
      else ok (record c { events = c.events ++ e ∷ [] })

  -- The state changes of a handler stay where it fails later: its new state, and whether it failed.
  abbrev pub Handled : Type 0
  Handled = Channel f p × Option Error

  abbrev pub refuse : Channel f p → Error → Handled
  refuse c e = (c, some e)

  abbrev pub then_push : Channel f p → ChannelEvent f p → Handled
  then_push c e = elim (push_channel_event c e) [ ok d ↦ (d, none) | err x ↦ (c, some x) ]

  abbrev pub with {ℓ} : {A : Type ℓ} → Channel f p → Result Error A → (A → Handled) → Handled
  with c (ok a) k = k a
  with c (err e) k = (c, some e)

  handle_error : Channel f p → Option p.ErrorReply → Handled
  unfolding push_channel_event
  handle_error c none = refuse c malformed
  handle_error c (some e) = then_push c (error_event e)

  raise_flow : Channel f p → PayloadMap p.cbor → Handled
  raise_flow c m = with c (in_payload (validate_exact_payload_keys p.cbor m 0 5)) λ _.
      with c (in_payload (required_u64 p.cbor m 4)) λ maximum_bytes.
        with c (in_payload (required_u64 p.cbor m 5)) λ maximum_records.
          (record c { flow = f.raise_maxima c.flow maximum_bytes maximum_records }, none)

  -- A recovery request takes the next revision.
  pub request_recovery : MediaState → ℕ → MediaState
  request_recovery m minimum_epoch = record m {
    recovery_revision = m.recovery_revision + 1;
    needs_recovery = true;
    minimum_recovery_epoch = max m.minimum_recovery_epoch minimum_epoch;
  }

  recover : Channel f p → ℕ → ChannelEvent f p → Handled
  unfolding push_channel_event request_recovery
  recover c minimum_epoch e =
      if leb (c.media.recovery_revision + 1) u64_max
      then then_push (record c { media = request_recovery c.media minimum_epoch }) e
      else refuse c revision_exhausted

  keyframe : Channel f p → PayloadMap p.cbor → Handled
  unfolding recover
  keyframe c m = with c (in_payload (validate_payload_keys p.cbor m 0 5 (6 ∷ []))) λ _.
      with c (in_payload (required_u32 p.cbor m 4))
        λ minimum_epoch. recover c minimum_epoch (need_keyframe_event m)

  full_frame : Channel f p → PayloadMap p.cbor → Handled
  unfolding recover
  full_frame c m =
      with c (in_payload (validate_exact_payload_keys p.cbor m 0 4))
        λ _. recover c 0 (need_full_frame_event m)

  dispatch : Channel f p → Reverse → PayloadMap p.cbor → Handled
  unfolding raise_flow keyframe full_frame
  dispatch c r m =
      if r.record_type == p.max_channel_data
      then raise_flow c m
      else if r.record_type == p.need_keyframe
      then keyframe c m
      else if r.record_type == p.need_full_frame
      then full_frame c m
      else if r.is_optional
      then (c, none)
      else refuse c unexpected_record

  identify : Identity → PayloadMap p.cbor → Result Error (Unit {0})
  identify i m = do
    in_payload (validate_track_tuple p.cbor m i.context_id i.surface_id i.track_id)
    generation ← in_payload (required_u64 p.cbor m 3)
    refuse_if (not (generation == i.generation)) stale_generation

  handle_payload : Identity → Channel f p → Reverse → Option (PayloadMap p.cbor) → Handled
  unfolding dispatch identify
  handle_payload i c r none = refuse c malformed
  handle_payload i c r (some m) = with c (identify i m) λ _. dispatch c r m

  -- One round of the reader's loop.
  unfoldable pub handle : Identity → Channel f p → Reverse → Handled
  unfolding handle_error handle_payload
  handle i c r =
      if not (r.object_id == i.track_id)
      then refuse c wrong_object
      else if r.record_type == p.error_type
      then handle_error c r.error_reply
      else handle_payload i c r r.decoded

  -- A failure ends the loop, and the thread closes the flow with its diagnostic.
  abbrev pub end_loop : Handled → Channel f p
  end_loop (c, none) = c
  end_loop (c, some e) = record c { closed = true; diagnostic = some e }

  unfoldable pub read_record : Identity → Channel f p → Reverse → Channel f p
  read_record i c r = end_loop (handle i c r)

  -- What other threads do to the channel while a send of this one is under way. The list of events
  -- may hold records after one that failed, which the thread would read no more.
  pub data Event : Type 0 where
    reads : Reverse → Event
    charges : ℕ → Event
    reconciles : ℕ → ℕ → ℕ → Event
    flushes : ℕ → Event
    closes : Event
    closes_with : String → Event
    ends_session : String → Event

  abbrev pub after_charge : Channel f p → Charge f p → Channel f p
  after_charge c (granted d) = d
  after_charge c must_wait = c
  after_charge c (failed e) = c

  unfoldable pub step : Identity → Channel f p → Event → Channel f p
  step i c (reads r) = read_record i c r
  step i c (charges n) = after_charge c (charge f p c n)
  step i c (reconciles id epoch n) = record c {
    sequence = reconcile_status c.sequence id epoch n false;
  }
  step i c (flushes epoch) = flush_finish f p c epoch
  step i c closes = close f p c
  step i c (closes_with message) = close_track_flow f p c message
  step i c (ends_session message) = record (close_track_flow f p c message) {
    session_closed = true;
  }

  unfoldable pub run : Identity → Channel f p → List Event → Channel f p
  run i c [] = c
  run i c (e ∷ es) = run i (step i c e) es
