-- ===== src/Sender.antt =====
-- src/pipeline.rs, `TrackSender` and `recover_channel`, on the channel of Channel/State.
pub mod Continues
mod Tests
use vivid_sdk.Prelude.{
  ◌+◌, ◌-◌, ◌*◌, ◌/◌, ◌%◌, ◌^◌, ◌≤◌, ◌<◌, min, max, ℕ, zero, suc, ◌≡◌, refl, sym, ap, ◌∙◌, ◌≢◌, ◌↔◌,
  ◌⊎◌, inl, inr, Bool, true, false, not, ◌&&◌, ◌||◌, Option, none, some, List, [], ◌∷◌, ◌++◌, map,
  arith, ltb, leb, ◌==◌, if◌then◌else◌, ltb→lt, lt→ltb, leb→le, ==_iff, Bool-cases, Option-cases,
  length, get_elem?, All, length-append, get_elem?-some, Result, ok, err, Result-cases, refused,
  ◌>>=◌, ◌>>◌, refuse_if, or_fail, u32_max, u64_max, saturating_add, saturating_mul, checked_add,
  duration_max, add_duration, as_micros, same_text, same_text-eq,
}
use vivid_sdk.Track.{TrackKind, raster_kind, video_kind, audio_kind, image_kind}
use vivid_sdk.Track.Query.{same_kind}
use vivid_sdk.Channel.State
use vivid_sdk.Channel.State.{
  FlowControl, Peer, MediaSequence, Send, InFlight, Channel, validate_send, finish_send,
}

pub data Error : Type 0 where
  channel : State.Error → Error
  detached wrong_kind bad_packet ids_exhausted not_written : Error

-- The counters that the clones of a sender share.
pub record TrackSender : Type 0 where
  pub is_detached : Bool
  pub last_packet_id : ℕ
  pub epoch : ℕ

unfoldable pub new_sender : TrackSender
new_sender = record { is_detached = false; last_packet_id = 0; epoch = 1 }

unfoldable pub seeded : ℕ → ℕ → TrackSender
seeded next_packet_id epoch = record {
  is_detached = false;
  last_packet_id = next_packet_id - 1;
  epoch = epoch;
}

unfoldable pub detach : TrackSender → TrackSender
detach s = record s { is_detached = true }

-- `fetch_add` wraps around; the number handed out is the one that is stored.
unfoldable pub next_packet_id : TrackSender → TrackSender × ℕ
next_packet_id s =
    let id = (s.last_packet_id + 1) % 2 ^ 64 in (record s { last_packet_id = id }, id)

unfoldable pub bump_epoch : TrackSender → TrackSender × ℕ
bump_epoch s = let epoch = (s.epoch + 1) % 2 ^ 32 in (record s { epoch = epoch }, epoch)

-- `EncodedPacket` with the length of its record's body, where the packet can be encoded.
pub record Packet : Type 0 where
  pub kind : TrackKind
  pub epoch : ℕ
  pub packet_id : ℕ
  pub key : Bool
  pub body_length : Option ℕ

abbrev lift : {A : Type 0} → Result State.Error A → Result Error A
lift (ok a) = ok a
lift (err e) = err (channel e)

module _ (f : FlowControl) (p : Peer) where
  -- `send_video` and `send_audio` up to the transport, on a channel of a track of this kind. Every
  -- audio packet is a recovery unit.
  unfoldable pub send_packet : TrackKind → Channel f p → Packet → Result Error InFlight
  send_packet kind c x = do
    refuse_if (not (same_kind kind x.kind)) wrong_kind
    body_length ← or_fail x.body_length bad_packet
    lift (
        validate_send f p c record {
          media_id = x.packet_id;
          epoch = x.epoch;
          recovery_unit = x.key || same_kind x.kind audio_kind;
          body_length = body_length;
        })

  unfoldable pub send : TrackKind → TrackSender → Channel f p → Packet → Result Error InFlight
  send kind s c x = do refuse_if s.is_detached detached; send_packet kind c x

  -- The media ID and the epoch of the recovery unit.
  unfoldable pub recovery_position : MediaSequence → Result Error (ℕ × ℕ)
  recovery_position q =
      if leb (q.last_id + 1) u64_max
      then ok (q.last_id + 1, max q.last_epoch 1)
      else err ids_exhausted

  abbrev pub recovery_unit : ℕ → ℕ → Option ℕ → Packet
  recovery_unit id epoch body_length = record {
    kind = video_kind;
    epoch = epoch;
    packet_id = id;
    key = true;
    body_length = body_length;
  }

  -- The end of a recovery: the record is written as number `n` of the channel.
  unfoldable pub finish_recovery :
      Channel f p → InFlight → ℕ → ℕ → ℕ → Channel f p × Result Error TrackSender
  finish_recovery c x n id epoch = (
    finish_send f p c x n,
    if leb (id + 1) u64_max then ok (seeded (id + 1) epoch) else err ids_exhausted,
  )

  -- What happens around the recovery unit: what other threads do to the channel between the reading of
  -- the track's sequence and the checks of `send_video`, what they and the charging of the window do
  -- until the write is over, and the number of the record, none where the write fails.
  pub record Surroundings : Type 0 where
    pub between : Channel f p → Channel f p
    pub during : Channel f p → Channel f p
    pub written : Option ℕ

  -- `recover_channel` from the channel `c` of the new generation on, which keeps the track's sequence.
  unfoldable pub recover_channel :
      TrackKind → Channel f p → Option ℕ → Surroundings → Channel f p × Result Error TrackSender
  recover_channel kind c body_length o = elim (recovery_position c.sequence) [
    | err e ↦ (c, err e)
    | ok (id, epoch) ↦ elim (send_packet kind (o.between c) (recovery_unit id epoch body_length)) [
      | err e ↦ (o.between c, err e)
      | ok x ↦ elim o.written [
        | none ↦ (o.during (o.between c), err not_written)
        | some n ↦ finish_recovery (o.during (o.between c)) x n id epoch
      ]
    ]
  ]
