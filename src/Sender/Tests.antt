-- ===== src/Sender/Tests.antt =====
-- The recovery of src/pipeline.rs on a video track, and an instance of its theorem.
use vivid_sdk.Prelude.{◌≡◌, refl, true, false, none, some, [], ok, err}
use vivid_sdk.Samples.{window_flow, presenter}
use vivid_sdk.Track.{video_kind, audio_kind}
use vivid_sdk.Track.Query.{same_kind}
use vivid_sdk.Channel.State.{Channel, validate_send}
use vivid_sdk.Sender.{
  wrong_kind, seeded, send_packet, recovery_position, finish_recovery, Surroundings,
  recover_channel, next_packet_id,
}
use vivid_sdk.Sender.Continues.{Continues, recover_channel-Continues}

-- A channel of a new generation, of a track that has sent ten packets.
abbrev reopened : Channel window_flow presenter
reopened = record {
  session_closed = false;
  flow = record { sent_bytes = 0; sent_records = 0; maximum_bytes = 1000; maximum_records = 4 };
  closed = false;
  diagnostic = none;
  media = record {
    last_sequence = 0;
    needs_recovery = true;
    minimum_recovery_epoch = 1;
    recovery_revision = 0;
    image_sent = false;
    eos = false;
  };
  sequence = record { last_id = 10; last_epoch = 2; last_record_sequence = 0 };
  events = [];
}

abbrev quiet : Surroundings window_flow presenter
quiet = record { between = λ x. x; during = λ x. x; written = some 1 }

recovery_valid :
    (recover_channel window_flow presenter video_kind reopened (some 600) quiet).1
    ≡ ok (seeded 12 2)
unfolding recover_channel recovery_position send_packet finish_recovery validate_send seeded
recovery_valid = refl

audio_not_recovered :
    (recover_channel window_flow presenter audio_kind reopened (some 600) quiet).1 ≡ err wrong_kind
unfolding recover_channel recovery_position send_packet
audio_not_recovered = refl

next_id : (next_packet_id (seeded 12 2)).1 ≡ 12
unfolding next_packet_id seeded
next_id = refl

recover_channel-Continues_example :
    (same_kind video_kind video_kind ≡ true)
    × Continues window_flow presenter reopened reopened
        (recover_channel window_flow presenter video_kind reopened (some 600) quiet).0
        (seeded 12 2)
recover_channel-Continues_example =
    recover_channel-Continues window_flow presenter video_kind reopened (some 600) quiet
      (seeded 12 2) recovery_valid
