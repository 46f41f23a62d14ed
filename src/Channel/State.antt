-- ===== src/Channel/State.antt =====
-- src/channel.rs, the state of a channel and its sends; src/track.rs, `TrackMediaSequence`.
use vivid_sdk.Prelude.{
  ◌+◌, ◌≤◌, max, ℕ, ◌≡◌, ◌≢◌, Bool, true, false, not, ◌&&◌, ◌||◌, Option, none, some, List, ltb,
  leb, ◌==◌, if◌then◌else◌, length, Result, ok, ◌>>=◌, ◌>>◌, refuse_if, or_fail, u32_max,
}
use Prim.Native.String.{String}
use vivid_sdk.Wire
use vivid_sdk.Wire.{Cbor}

-- What `ChannelFlow::admit` answers: the window with the record in it, `ResourceError::FlowControl`
-- while the window has no room yet, or another `ResourceError`.
pub data Admission (A : Type 0) : Type 0 where
  admits : A → Admission A
  no_capacity resource_error : Admission A

-- `ChannelFlow` of another crate: the cumulative window of a channel.
pub record FlowControl : Type 1 where
  pub Flow : Type 0
  pub sent_body_bytes : Flow → ℕ
  pub sent_media_records : Flow → ℕ
  pub maximum_body_bytes : Flow → ℕ
  pub maximum_media_records : Flow → ℕ
  pub admit : Flow → ℕ → Admission Flow
  pub raise_maxima : Flow → ℕ → ℕ → Flow
  pub admit_bytes :
      (f g : Flow) (n : ℕ) → admit f n ≡ admits g → sent_body_bytes g ≡ sent_body_bytes f + n
  pub admit_records :
      (f g : Flow) (n : ℕ) → admit f n ≡ admits g → sent_media_records g ≡ sent_media_records f + 1
  pub admit_within :
      (f g : Flow) (n : ℕ)
      → admit f n ≡ admits g
      → (maximum_body_bytes g ≡ maximum_body_bytes f)
        × (maximum_media_records g ≡ maximum_media_records f)
        × (sent_body_bytes g ≤ maximum_body_bytes g)
        × (sent_media_records g ≤ maximum_media_records g)
  pub raise_sent :
      (f : Flow) (b r : ℕ)
      → (sent_body_bytes (raise_maxima f b r) ≡ sent_body_bytes f)
        × (sent_media_records (raise_maxima f b r) ≡ sent_media_records f)
  pub raise_grows :
      (f : Flow) (b r : ℕ)
      → (maximum_body_bytes f ≤ maximum_body_bytes (raise_maxima f b r))
        × (maximum_media_records f ≤ maximum_media_records (raise_maxima f b r))
  pub raise_reaches :
      (f : Flow) (b r : ℕ)
      → (b ≤ maximum_body_bytes (raise_maxima f b r))
        × (r ≤ maximum_media_records (raise_maxima f b r))

-- What the other side sends, from other crates: values, error replies, numbers of record types.
pub record Peer : Type 1 where
  pub cbor : Cbor
  pub ErrorReply : Type 0
  pub error_type : ℕ
  pub max_channel_data : ℕ
  pub need_keyframe : ℕ
  pub need_full_frame : ℕ
  pub keyframe_is_no_error : need_keyframe ≢ error_type
  pub keyframe_is_no_maximum : need_keyframe ≢ max_channel_data
  pub full_frame_is_no_error : need_full_frame ≢ error_type
  pub full_frame_is_no_maximum : need_full_frame ≢ max_channel_data

pub data Error : Type 0 where
  session_closed channel_closed : Error
  body_exceeds_u32 media_after_eos needs_recovery_unit epoch_below_minimum : Error
  media_id_not_increasing epoch_backward : Error
  not_an_image_track wrong_image_length image_already_sent eos_already_sent : Error
  wrong_object malformed stale_generation unexpected_record revision_exhausted events_full : Error
  payload : Wire.Error → Error
  closed_with : String → Error
  flush_epoch_not_greater flow_error : Error

abbrev pub max_channel_events : ℕ
max_channel_events = 256

-- `TrackMediaSequence`.
pub record MediaSequence : Type 0 where
  pub last_id : ℕ
  pub last_epoch : ℕ
  pub last_record_sequence : ℕ

unfoldable pub accept : MediaSequence → ℕ → ℕ → Result Error MediaSequence
accept s id epoch = do
  refuse_if (id == 0 || leb id s.last_id) media_id_not_increasing
  refuse_if (ltb epoch s.last_epoch) epoch_backward
  ok (record s { last_id = id; last_epoch = epoch })

-- What `TRACK_STATUS` reports of the sequence.
unfoldable pub reconcile_status : MediaSequence → ℕ → ℕ → ℕ → Bool → MediaSequence
reconcile_status s last_media_id media_epoch last_media_record_sequence generation_changed =
    record {
      last_id = max s.last_id last_media_id;
      last_epoch = max s.last_epoch media_epoch;
      last_record_sequence =
          if generation_changed
          then last_media_record_sequence
          else max s.last_record_sequence last_media_record_sequence;
    }

-- `ChannelMediaState`.
pub record MediaState : Type 0 where
  pub last_sequence : ℕ
  pub needs_recovery : Bool
  pub minimum_recovery_epoch : ℕ
  pub recovery_revision : ℕ
  pub image_sent : Bool
  pub eos : Bool

-- The arguments of `send_media` that decide it.
pub record Send : Type 0 where
  pub media_id : ℕ
  pub epoch : ℕ
  pub recovery_unit : Bool
  pub body_length : ℕ

-- What a send remembers while its record is in transport.
pub record InFlight : Type 0 where
  pub send : Send
  pub recovery_revision : ℕ
  pub next : MediaSequence

module _ (f : FlowControl) (p : Peer) where
  pub data ChannelEvent : Type 0 where
    need_keyframe_event : Wire.PayloadMap p.cbor → ChannelEvent
    need_full_frame_event : Wire.PayloadMap p.cbor → ChannelEvent
    error_event : p.ErrorReply → ChannelEvent

  pub record Channel : Type 0 where
    pub session_closed : Bool
    pub flow : f.Flow
    pub closed : Bool
    pub diagnostic : Option Error
    pub media : MediaState
    pub sequence : MediaSequence
    pub events : List ChannelEvent

  -- `SessionLifecycle::ensure_active`, which the channel asks.
  unfoldable pub ensure_active : Channel → Result Error (Unit {0})
  ensure_active c = refuse_if c.session_closed session_closed

  abbrev pub diagnosis : Option Error → Error
  diagnosis none = channel_closed
  diagnosis (some e) = e

  -- The part of `send_media` before the transport.
  unfoldable pub check_media : MediaState → Send → Result Error ℕ
  check_media m s = do
    refuse_if m.eos media_after_eos
    refuse_if (m.needs_recovery && not s.recovery_unit) needs_recovery_unit
    refuse_if (s.recovery_unit && ltb s.epoch m.minimum_recovery_epoch) epoch_below_minimum
    ok m.recovery_revision

  unfoldable pub validate_send : Channel → Send → Result Error InFlight
  unfolding ensure_active check_media accept
  validate_send c s = do
    ensure_active c
    refuse_if (ltb u32_max s.body_length) body_exceeds_u32
    revision ← check_media c.media s
    next ← accept c.sequence s.media_id s.epoch
    ok (record { send = s; recovery_revision = revision; next = next })

  -- One round of the loop of `write_charged_record`.
  pub data Charge : Type 0 where
    granted : Channel → Charge
    must_wait : Charge
    failed : Error → Charge

  admitted : Channel → Admission f.Flow → Charge
  admitted c (admits flow) = granted (record c { flow = flow })
  admitted c no_capacity = must_wait
  admitted c resource_error = failed flow_error

  unfoldable pub charge : Channel → ℕ → Charge
  unfolding admitted
  charge c body_length =
      if c.session_closed
      then failed session_closed
      else if c.closed
      then failed (diagnosis c.diagnostic)
      else admitted c (f.admit c.flow body_length)

  -- The part of `send_media` after a write that returned `record_sequence`.
  unfoldable pub finish_media : MediaState → InFlight → ℕ → MediaState
  finish_media m x record_sequence =
      if x.send.recovery_unit && m.recovery_revision == x.recovery_revision
      then record m {
        last_sequence = record_sequence;
        needs_recovery = false;
        minimum_recovery_epoch = x.send.epoch;
      }
      else record m { last_sequence = record_sequence }

  unfoldable pub merge : MediaSequence → MediaSequence → ℕ → MediaSequence
  merge s next record_sequence = record {
    last_id = max s.last_id next.last_id;
    last_epoch = max s.last_epoch next.last_epoch;
    last_record_sequence = max s.last_record_sequence record_sequence;
  }

  unfoldable pub finish_send : Channel → InFlight → ℕ → Channel
  unfolding finish_media merge
  finish_send c x record_sequence = record c {
    media = finish_media c.media x record_sequence;
    sequence = merge c.sequence x.next record_sequence;
  }

  -- `send_image` before and after its write; `configured` is the length of an encoded-image track.
  unfoldable pub validate_image : Channel → Option ℕ → ℕ → Result Error ℕ
  unfolding ensure_active
  validate_image c configured length = do
    ensure_active c
    expected ← or_fail configured not_an_image_track
    refuse_if (not (length == expected)) wrong_image_length
    refuse_if c.media.eos media_after_eos
    refuse_if c.media.image_sent image_already_sent
    refuse_if (ltb u32_max length) body_exceeds_u32
    ok c.media.recovery_revision

  unfoldable pub finish_image : Channel → ℕ → ℕ → Channel
  finish_image c revision record_sequence = record c {
    media = record c.media {
      last_sequence = record_sequence;
      needs_recovery =
          if c.media.recovery_revision == revision then false else c.media.needs_recovery;
      image_sent = true;
    };
  }

  -- `eos`: the last sequence that its record names, and the state after its write.
  unfoldable pub validate_eos : Channel → Result Error ℕ
  unfolding ensure_active
  validate_eos c = do
    ensure_active c
    refuse_if c.media.eos eos_already_sent
    ok c.media.last_sequence

  unfoldable pub finish_eos : Channel → Channel
  finish_eos c = record c { media = record c.media { eos = true } }

  -- `TrackChannel::close`, and `close_track_flow` with the message of its caller.
  unfoldable pub close : Channel → Channel
  close c = record c { closed = true }

  unfoldable pub close_track_flow : Channel → String → Channel
  close_track_flow c message = record c {
    closed = true;
    diagnostic = some (elim c.diagnostic [ none ↦ closed_with message | some e ↦ e ]);
  }

  -- `Session::flush` of src/track.rs, before and after its request.
  unfoldable pub flush_check : Channel → ℕ → Result Error (Unit {0})
  flush_check c new_epoch = refuse_if (leb new_epoch c.sequence.last_epoch) flush_epoch_not_greater

  unfoldable pub flush_finish : Channel → ℕ → Channel
  flush_finish c new_epoch = record c {
    sequence = record c.sequence { last_epoch = new_epoch };
    media = record c.media { needs_recovery = true; minimum_recovery_epoch = new_epoch };
  }
