-- ===== src/Input.antt =====
-- src/input.rs: the interactive lane. Its reader thread, closing, the requests that set a binding, and
-- the decoders of grants.
pub mod Decoding
pub mod Steps
pub mod Closing
pub mod Events
pub mod Opening
pub mod Binding
mod Tests
use vivid_sdk.Prelude.{
  ◌+◌, ◌-◌, ◌*◌, ◌/◌, ◌%◌, ◌^◌, ◌≤◌, ◌<◌, min, max, ℕ, zero, suc, ◌≡◌, refl, sym, ap, ◌∙◌, ◌≢◌, ◌↔◌,
  ◌⊎◌, inl, inr, Bool, true, false, not, ◌&&◌, ◌||◌, Option, none, some, List, [], ◌∷◌, ◌++◌, map,
  arith, ltb, leb, ◌==◌, if◌then◌else◌, ltb→lt, lt→ltb, leb→le, ==_iff, Bool-cases, Option-cases,
  length, get_elem?, All, length-append, get_elem?-some, Result, ok, err, Result-cases, refused,
  ◌>>=◌, ◌>>◌, refuse_if, or_fail, u32_max, u64_max, saturating_add, saturating_mul, checked_add,
  duration_max, add_duration, as_micros, same_text, same_text-eq,
}
use vivid_sdk.Wire.{PayloadMap}
use vivid_sdk.Session.{Error, invalid_data, undecodable, Envelope}
use vivid_sdk.Guard.{InputLeaseRenewal}
use vivid_sdk.Input.Decoding.{
  InputWire, InputGrantTermination, decode_input_renewal, decode_input_termination,
}

abbrev pub max_input_events : ℕ
max_input_events = 1024

module _ (w : InputWire) where
  -- A record of the lane, with what `decode_control` makes of its body and, of an error, its code.
  pub record InputRecord : Type 0 where
    pub record_type : ℕ
    pub object_id : ℕ
    pub optional : Bool
    pub decoded : Option (Envelope w.remote)
    pub error_code : Option ℕ

  pub data InputLaneEvent : Type 0 where
    input : ℕ → ℕ → PayloadMap w.remote.cbor → InputLaneEvent
    renew : InputLeaseRenewal → InputLaneEvent
    revoked reset : InputGrantTermination → InputLaneEvent
    lane_closed : Option Error → InputLaneEvent
    error_event : ℕ → InputLaneEvent

  -- What the caller of a request receives.
  pub data Answer : Type 0 where
    reply : InputRecord → Answer
    failure : Option Error → Answer

  -- `PendingInput`, with the answers that were sent, and whether the reader thread runs.
  pub record Lane : Type 0 where
    pub closed : Bool
    pub requests : List ℕ
    pub answers : List (ℕ × Answer)
    pub events : List InputLaneEvent
    pub reading : Bool

  abbrev pub new_lane : Lane
  new_lane = record { closed = false; requests = []; answers = []; events = []; reading = true }

  abbrev pub holds : List ℕ → ℕ → Bool
  holds [] id = false
  holds (x ∷ xs) id = x == id || holds xs id

  unfoldable pub without : List ℕ → ℕ → List ℕ
  without [] id = []
  without (x ∷ xs) id = let rest = without xs id in if x == id then rest else x ∷ rest

  abbrev pub fail_all : List ℕ → Option Error → List (ℕ × Answer)
  fail_all [] message = []
  fail_all (x ∷ xs) message = (x, failure message) ∷ fail_all xs message

  -- `close_input_lane`: the flag with the events, then `fail_pending_input`, which takes another lock.
  -- No message stands for "interactive lane closed".
  unfoldable pub close_events : Lane → Option Error → Lane
  close_events l message = record l { closed = true; events = lane_closed message ∷ [] }

  unfoldable pub fail_pending : Lane → Option Error → Lane
  fail_pending l message = record l {
    requests = [];
    answers = l.answers ++ fail_all l.requests message;
  }

  unfoldable pub close_input_lane : Lane → Option Error → Lane
  close_input_lane l message = fail_pending (close_events l message) message

  -- The part of `set_binding` that holds the lock of the table; the flag is read under it. An entry
  -- that is there is replaced, so its caller finds its sender gone.
  unfoldable pub register : Lane → ℕ → Lane × Bool
  register l id =
      if l.closed
      then (l, false)
      else if holds l.requests id
      then (record l { answers = l.answers ++ (id, failure none) ∷ [] }, false)
      else (record l { requests = l.requests ++ id ∷ [] }, true)

  unfoldable pub withdraw : Lane → ℕ → Lane
  withdraw l id = record l { requests = without l.requests id }

  -- The event of a record that is no reply; none for an optional record that is not known.
  unfoldable pub event_of :
      InputRecord → PayloadMap w.remote.cbor → Result Error (Option InputLaneEvent)
  event_of x payload =
      if x.record_type == w.key_input
        || x.record_type == w.pointer_motion
        || x.record_type == w.pointer_button
        || x.record_type == w.pointer_axis
      then ok (some (input x.record_type x.object_id payload))
      else if x.record_type == w.input_lease_renew
      then (do r ← decode_input_renewal w x.object_id payload; ok (some (renew r)))
      else if x.record_type == w.input_revoked
      then (do t ← decode_input_termination w x.object_id payload; ok (some (revoked t)))
      else if x.record_type == w.input_reset
      then (do t ← decode_input_termination w x.object_id payload; ok (some (reset t)))
      else if x.record_type == w.remote.error_type
      then (do code ← or_fail x.error_code undecodable; ok (some (error_event code)))
      else if x.optional
      then ok none
      else err invalid_data

  unfoldable pub push_event : Lane → Option InputLaneEvent → Result Error Lane
  push_event l none = ok l
  push_event l (some e) =
      if length l.events == max_input_events
      then err invalid_data
      else ok (record l { events = l.events ++ e ∷ [] })

  -- A reply goes to the caller that waits for it.
  unfoldable pub answer_request : Lane → ℕ → InputRecord → Result Error Lane
  answer_request l id x =
      if holds l.requests id
      then ok
          (record l { requests = without l.requests id; answers = l.answers ++ (id, reply x) ∷ [] })
      else err invalid_data

  -- One round of the reader's loop on a record that was read; the PONG is written if it can be.
  unfoldable pub handle : Lane → InputRecord → Bool → Result Error Lane
  handle l x pong_written = do
    envelope ← or_fail x.decoded undecodable
    if x.record_type == w.ping
        then (do
          refuse_if (not (x.object_id == 0)) invalid_data
          refuse_if (not pong_written) undecodable
          ok l)
        else if not (envelope.request_id == 0)
        then answer_request l envelope.request_id x
        else (do e ← event_of x envelope.payload; push_event l e)

  -- The reader thread ends with the first error.
  unfoldable pub after_round : Lane → Result Error Lane → Lane
  after_round l (ok after) = after
  after_round l (err e) = close_input_lane (record l { reading = false }) (some e)

  -- The reader thread on a record, or on a failed read.
  unfoldable pub round : Lane → Option InputRecord → Bool → Lane
  round l none pong_written = close_input_lane (record l { reading = false }) none
  round l (some x) pong_written = after_round l (handle l x pong_written)

  unfoldable pub read_record : Lane → Option InputRecord → Bool → Lane
  read_record l r pong_written = if not l.reading then l else round l r pong_written
