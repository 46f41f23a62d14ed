-- ===== src/Control/Dispatch.antt =====
-- src/session.rs, `spawn_control_reader` with `apply_track_lost` and `SessionLifecycle::close`, and the
-- calls that other threads make while it runs.
use vivid_sdk.Prelude.{
  ℕ, zero, suc, Bool, true, false, not, ◌&&◌, ◌||◌, Option, none, some, List, [], ◌∷◌, ◌++◌, map,
  ltb, ◌==◌, if◌then◌else◌, length, Result, ok, err, ◌>>=◌, ◌>>◌, refuse_if, or_fail,
}
use Prim.Native.String.{len}
use vivid_sdk.Wire
use vivid_sdk.Wire.{
  PayloadMap, required_u64, required_map, required_text, validate_exact_payload_keys,
}
use vivid_sdk.Control.State.{
  Presenter, ReaderState, running, leaving, closing, stopping, ended, Error, malformed,
  no_pending_request, events_full, write_failed, read_failed, invalid_loss, revision_backward,
  bad_detail, payload, max_control_events, FlowState, SessionEvent, connection_closed, Envelope,
  Record, TrackLost, TrackEntry, Answer, reply, failure, Control, holds, without, begin_request,
  withdraw, push_flow, session_event, flow_lost,
}

abbrev pub in_payload {ℓ} : {A : Type ℓ} → Result Wire.Error A → Result Error A
in_payload (ok a) = ok a
in_payload (err e) = err (payload e)

-- `state.closed = true; state.diagnostic.get_or_insert_with(…)`.
unfoldable pub close_flow : Error → FlowState → FlowState
close_flow message f = record {
  closed = true;
  diagnostic = some (elim f.diagnostic [ none ↦ message | some e ↦ e ]);
}

abbrev pub close_nth : List FlowState → ℕ → Error → List FlowState
close_nth [] i message = []
close_nth (f ∷ fs) zero message = close_flow message f ∷ fs
close_nth (f ∷ fs) (suc i) message = f ∷ close_nth fs i message

abbrev pub close_active : List FlowState → Option ℕ → Error → List FlowState
close_active fs none message = fs
close_active fs (some i) message = close_nth fs i message

module _ (p : Presenter) where
  -- The checked fields of a TRACK_LOST payload.
  pub record Loss : Type 0 where
    pub context_id : ℕ
    pub surface_id : ℕ
    pub track_id : ℕ
    pub revision : ℕ
    pub lost : TrackLost p

  unfoldable pub read_loss : ℕ → PayloadMap p.cbor → Result Error Loss
  read_loss object_id m = do
    in_payload (validate_exact_payload_keys p.cbor m 0 6)
    context_id ← in_payload (required_u64 p.cbor m 0)
    surface_id ← in_payload (required_u64 p.cbor m 1)
    track_id ← in_payload (required_u64 p.cbor m 2)
    error_code ← in_payload (required_u64 p.cbor m 3)
    revision ← in_payload (required_u64 p.cbor m 4)
    map5 ← in_payload (required_map p.cbor m 5)
    detail ← or_fail (p.error_detail map5) bad_detail
    diagnostic ← in_payload (required_text p.cbor m 6)
    refuse_if
        (not (track_id == object_id)
          || context_id == 0
          || surface_id == 0
          || track_id == 0
          || error_code == 0
          || ltb 4096 (len diagnostic))
        invalid_loss
    refuse_if (revision == 0) invalid_loss
    ok (record {
      context_id = context_id;
      surface_id = surface_id;
      track_id = track_id;
      revision = revision;
      lost = record { code = error_code; detail = detail; diagnostic = diagnostic };
    })

  abbrev pub is_key : TrackEntry p → ℕ → ℕ → ℕ → Bool
  is_key t c s k = t.context_id == c && t.surface_id == s && t.track_id == k

  unfoldable pub lose : TrackEntry p → Loss → TrackEntry p
  lose t l = record t {
    revision = l.revision;
    destroyed = true;
    lost = some l.lost;
    has_media = false;
    active_flow = none;
  }

  -- The registry and the flows after a loss; the first entry of the key is the one of the map.
  unfoldable pub lose_track :
      List (TrackEntry p)
      → List FlowState
      → Loss
      → Result Error (List (TrackEntry p) × List FlowState)
  lose_track [] fs l = ok ([], fs)
  lose_track (t ∷ ts) fs l =
      let rest = lose_track ts fs l in
      if is_key t l.context_id l.surface_id l.track_id
      then (if ltb l.revision t.revision
          then err revision_backward
          else ok (lose t l ∷ ts, close_active fs t.active_flow (flow_lost l.lost.diagnostic)))
      else (rest >>= λ r. ok (t ∷ r.0, r.1))

  unfoldable pub apply_track_lost : Control p → ℕ → PayloadMap p.cbor → Result Error (Control p)
  unfolding lose_track
  apply_track_lost c object_id m = do
    l ← read_loss object_id m
    r ← lose_track c.tracks c.flows l
    ok (record c { tracks = r.0; flows = r.1 })

  abbrev pub push_event : Control p → SessionEvent p → Control p × Option Error
  push_event c e =
      if length c.events == max_control_events
      then (c, some events_full)
      else (record c { events = c.events ++ e ∷ [] }, none)

  abbrev pub raise_event : Control p → ℕ → ℕ → PayloadMap p.cbor → Control p × Option Error
  raise_event c record_type object_id m = elim (session_event p record_type object_id m) [
    | ok e ↦ push_event c e
    | err e ↦ (c, some e)
  ]

  abbrev pub notify : Control p → ℕ → ℕ → PayloadMap p.cbor → Control p × Option Error
  notify c record_type object_id m =
      if record_type == p.track_lost
      then (elim (apply_track_lost c object_id m) [
        | ok d ↦ raise_event d record_type object_id m
        | err e ↦ (c, some e)
      ])
      else raise_event c record_type object_id m

  unfoldable pub answer_request : Control p → ℕ → Record p → Control p × Option Error
  answer_request c id r =
      if holds p c.requests id
      then (
        record c { requests = without p c.requests id; answers = c.answers ++ (id, reply r) ∷ [] },
        none,
      )
      else (c, some no_pending_request)

  abbrev pub dispatch_decoded :
      Control p → Record p → Bool → Option (Envelope p) → Control p × Option Error
  dispatch_decoded c r pong_written none = (c, some malformed)
  dispatch_decoded c r pong_written (some v) =
      if r.record_type == p.ping
      then (c, if pong_written then none else some write_failed)
      else if not (v.request_id == 0)
      then answer_request c v.request_id r
      else notify c r.record_type r.object_id v.payload

  -- One round of the reader; `pong_written` tells whether the write of a PONG succeeds.
  unfoldable pub dispatch : Control p → Record p → Bool → Control p × Option Error
  dispatch c r pong_written = dispatch_decoded c r pong_written r.decoded

  -- `SessionLifecycle::close` in its two steps: the flag with the diagnostic, and the flows under their
  -- lock. Other threads may run in between.
  unfoldable pub begin_close : Control p → Error → Control p
  begin_close c message = record c {
    session_closed = true;
    session_diagnostic = some (elim c.session_diagnostic [ none ↦ message | some e ↦ e ]);
  }

  unfoldable pub close_flows : Control p → Error → Control p
  close_flows c message = record c { flows = map (close_flow message) c.flows }

  -- The end of the loop: first the flag that refuses new requests. The session's end, and the events and
  -- the table in `drain`, are later steps of the thread.
  unfoldable pub stop : Control p → Error → Control p
  stop c message = record c { closed = true; reader = leaving message }

  abbrev pub fail_all : List ℕ → Error → List (ℕ × Answer p)
  fail_all [] message = []
  fail_all (id ∷ ids) message = (id, failure message) ∷ fail_all ids message

  unfoldable pub drain : Control p → Error → Control p
  drain c message = record c {
    events = connection_closed message ∷ [];
    answers = c.answers ++ fail_all c.requests message;
    requests = [];
    reader = ended;
  }

  abbrev pub end_round : Control p × Option Error → Control p
  end_round (c, none) = c
  end_round (c, some e) = stop c e

  -- A thread that registers a flow may have passed its first test of the flag at any earlier time, and
  -- one that closes the flows has set the flag.
  pub data Event : Type 0 where
    reads : Record p → Bool → Event
    loses_connection drains : Event
    begins : ℕ → Event
    withdraws : ℕ → Event
    takes : Event
    closes closes_flows : Error → Event
    registers_flow : Event
    creates : TrackEntry p → Event

  abbrev pub tail : List (SessionEvent p) → List (SessionEvent p)
  tail [] = []
  tail (e ∷ es) = es

  -- A thread in its loop reads, and one that left it takes its next step to the end; else nothing
  -- happens.
  abbrev pub round : Control p → Record p → Bool → ReaderState → Control p
  round c r w running = end_round (dispatch c r w)
  round c r w (leaving m) = c
  round c r w (closing m) = c
  round c r w (stopping m) = c
  round c r w ended = c

  abbrev pub lose_reader : Control p → ReaderState → Control p
  lose_reader c running = stop c read_failed
  lose_reader c (leaving m) = c
  lose_reader c (closing m) = c
  lose_reader c (stopping m) = c
  lose_reader c ended = c

  abbrev pub clean_up : Control p → ReaderState → Control p
  clean_up c running = c
  clean_up c (leaving m) = begin_close (record c { reader = closing m }) m
  clean_up c (closing m) = close_flows (record c { reader = stopping m }) m
  clean_up c (stopping m) = drain c m
  clean_up c ended = c

  unfoldable pub step : Control p → Event → Control p
  step c (reads r w) = round c r w c.reader
  step c loses_connection = lose_reader c c.reader
  step c drains = clean_up c c.reader
  step c (begins id) = (begin_request p c id).0
  step c (withdraws id) = withdraw p c id
  step c takes = record c { events = tail c.events }
  step c (closes message) = begin_close c message
  step c (closes_flows message) = close_flows c message
  step c registers_flow = push_flow p c
  step c (creates t) = record c { tracks = t ∷ c.tracks }

  unfoldable pub run : Control p → List Event → Control p
  run c [] = c
  run c (e ∷ es) = run (step c e) es
