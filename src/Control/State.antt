-- ===== src/Control/State.antt =====
-- src/session.rs, the control plane: `PendingControl` with its request table, `ControlPlane::request`,
-- `SessionLifecycle` and the allocators; src/wire.rs, `session_event`.
use vivid_sdk.Prelude.{
  ◌+◌, max, ℕ, Bool, false, ◌||◌, Option, none, some, List, [], ◌∷◌, ◌++◌, leb, ◌==◌, if◌then◌else◌,
  Result, ok, err, ◌>>=◌, or_fail, u64_max,
}
use Prim.Native.String.{String}
use vivid_sdk.Wire
use vivid_sdk.Wire.{
  Cbor, PayloadMap, optional_u64, required_u64, required_map, required_text,
  validate_exact_payload_keys,
}

-- What the control plane uses of other crates: values, the decoders of three payloads, and the numbers
-- of record types.
pub record Presenter : Type 1 where
  pub cbor : Cbor
  pub Detail : Type 0
  pub error_detail : PayloadMap cbor → Option Detail
  pub Offer : Type 0
  pub decode_offer : ℕ → PayloadMap cbor → Option Offer
  pub Cancel : Type 0
  pub decode_cancel : ℕ → PayloadMap cbor → Option Cancel
  pub ping : ℕ
  pub target_changed : ℕ
  pub anchor_ready : ℕ
  pub anchor_gone : ℕ
  pub track_lost : ℕ
  pub context_changed : ℕ
  pub file_drop_offer : ℕ
  pub file_drop_cancelled : ℕ

pub data Error : Type 0 where
  control_closed duplicate_request dispatcher_stopped : Error
  malformed no_pending_request events_full write_failed read_failed : Error
  invalid_loss revision_backward bad_detail bad_offer bad_cancel : Error
  ids_exhausted requests_exhausted adopted_exhausts : Error
  payload : Wire.Error → Error
  flow_lost : String → Error

abbrev pub max_control_events : ℕ
max_control_events = 1024

-- The state of a `FlowSync`, as far as closing it goes.
pub record FlowState : Type 0 where
  pub closed : Bool
  pub diagnostic : Option Error

-- Where the reader's thread is: in its loop; past the flag that refuses requests; past the flag of the
-- session; past the closing of the flows; or over.
pub data ReaderState : Type 0 where
  running : ReaderState
  leaving : Error → ReaderState
  closing : Error → ReaderState
  stopping : Error → ReaderState
  ended : ReaderState

abbrev pub open_flow : FlowState
open_flow = record { closed = false; diagnostic = none }

module _ (p : Presenter) where
  pub data SessionEvent : Type 0 where
    target_changed_event : PayloadMap p.cbor → SessionEvent
    anchor_ready_event anchor_gone_event : ℕ → ℕ → PayloadMap p.cbor → SessionEvent
    track_lost_event context_changed_event : ℕ → PayloadMap p.cbor → SessionEvent
    file_drop_offered : p.Offer → SessionEvent
    file_drop_cancelled_event : p.Cancel → SessionEvent
    other : ℕ → ℕ → PayloadMap p.cbor → SessionEvent
    connection_closed : Error → SessionEvent

  pub record Envelope : Type 0 where
    pub request_id : ℕ
    pub payload : PayloadMap p.cbor

  -- A record, with what `decode_control` of the other crate makes of its body.
  pub record Record : Type 0 where
    pub record_type : ℕ
    pub object_id : ℕ
    pub decoded : Option Envelope

  pub record TrackLost : Type 0 where
    pub code : ℕ
    pub detail : p.Detail
    pub diagnostic : String

  -- An entry of the track registry with its key; `active_flow` is the number of a registered flow.
  pub record TrackEntry : Type 0 where
    pub context_id : ℕ
    pub surface_id : ℕ
    pub track_id : ℕ
    pub revision : ℕ
    pub destroyed : Bool
    pub lost : Option TrackLost
    pub active_flow : Option ℕ
    pub has_media : Bool

  -- What a caller receives through the channel that it left in the table.
  pub data Answer : Type 0 where
    reply : Record → Answer
    failure : Error → Answer

  -- `requests` are the IDs in the table, `answers` what was sent to their callers so far.
  pub record Control : Type 0 where
    pub closed : Bool
    pub requests : List ℕ
    pub answers : List (ℕ × Answer)
    pub events : List SessionEvent
    pub session_closed : Bool
    pub session_diagnostic : Option Error
    pub flows : List FlowState
    pub tracks : List TrackEntry
    pub reader : ReaderState

  unfoldable pub new_control : Control
  new_control = record {
    closed = false;
    requests = [];
    answers = [];
    events = [];
    session_closed = false;
    session_diagnostic = none;
    flows = [];
    tracks = [];
    reader = running;
  }

  abbrev pub holds : List ℕ → ℕ → Bool
  holds [] id = false
  holds (x ∷ xs) id = x == id || holds xs id

  abbrev pub without : List ℕ → ℕ → List ℕ
  without [] id = []
  without (x ∷ xs) id = let rest = without xs id in if x == id then rest else x ∷ rest

  -- The end of `SessionLifecycle::register_track_flow`, under the lock of the flows, for a flow that is
  -- open: the session's flag is read once more.
  unfoldable pub push_flow : Control → Control
  push_flow c = if c.session_closed then c else record c { flows = c.flows ++ open_flow ∷ [] }

  -- `SessionLifecycle::register_track_flow`; `during` is what other threads do between the first test
  -- of the flag and the lock.
  unfoldable pub register_track_flow : Control → (Control → Control) → Control
  register_track_flow c during = if c.session_closed then during c else push_flow (during c)

  -- `ControlPlane::request` up to its write. Inserting over an entry drops the sender of the earlier
  -- caller, which then sees the dispatcher stopped.
  unfoldable pub begin_request : Control → ℕ → Control × Option Error
  begin_request c id =
      if c.closed
      then (c, some control_closed)
      else if holds c.requests id
      then (
        record c { answers = c.answers ++ (id, failure dispatcher_stopped) ∷ [] },
        some duplicate_request,
      )
      else (record c { requests = c.requests ++ id ∷ [] }, none)

  -- A write that failed takes the entry out again.
  unfoldable pub withdraw : Control → ℕ → Control
  withdraw c id = record c { requests = without c.requests id }

  abbrev pub or_default : Result Wire.Error (Option ℕ) → ℕ → ℕ
  or_default (ok (some n)) d = n
  or_default (ok none) d = d
  or_default (err e) d = d

  unfoldable pub session_event : ℕ → ℕ → PayloadMap p.cbor → Result Error SessionEvent
  session_event record_type object_id m =
      if record_type == p.target_changed
      then ok (target_changed_event m)
      else if record_type == p.anchor_ready
      then ok (
          anchor_ready_event (or_default (optional_u64 p.cbor m 0) 0)
            (or_default (optional_u64 p.cbor m 1) object_id) m)
      else if record_type == p.anchor_gone
      then ok (
          anchor_gone_event (or_default (optional_u64 p.cbor m 0) 0)
            (or_default (optional_u64 p.cbor m 1) object_id) m)
      else if record_type == p.track_lost
      then ok (track_lost_event object_id m)
      else if record_type == p.context_changed
      then ok (context_changed_event object_id m)
      else if record_type == p.file_drop_offer
      then (do offer ← or_fail (p.decode_offer object_id m) bad_offer; ok (file_drop_offered offer))
      else if record_type == p.file_drop_cancelled
      then (do
        cancel ← or_fail (p.decode_cancel object_id m) bad_cancel
        ok (file_drop_cancelled_event cancel))
      else ok (other record_type object_id m)

-- `allocate_id` and `next_request`: the counter's old value is handed out.
unfoldable pub allocate : ℕ → Error → Result Error (ℕ × ℕ)
allocate next exhausted = if leb (next + 1) u64_max then ok (next + 1, next) else err exhausted

unfoldable pub advance_allocator_past : ℕ → ℕ → Result Error ℕ
advance_allocator_past next adopted_id =
    if leb (adopted_id + 1) u64_max then ok (max next (adopted_id + 1)) else err adopted_exhausts
