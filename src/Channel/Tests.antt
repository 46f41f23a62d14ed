-- ===== src/Channel/Tests.antt =====
-- src/channel.rs on a channel with a small window, and instances of its theorems.
use vivid_sdk.Prelude.{
  ◌≤◌, ◌<◌, ◌≡◌, refl, inl, true, false, none, some, [], ◌∷◌, ◌++◌, arith, ok, err,
}
use vivid_sdk.Samples.{Window, window_flow, presenter}
use vivid_sdk.Wire.{
  find_map, validate_track_tuple, required_u64, required_u32, range_inclusive,
  validate_payload_keys, validate_exact_payload_keys,
}
use vivid_sdk.Channel.State.{
  Error, epoch_below_minimum, Send, InFlight, Channel, validate_send, finish_send, reconcile_status,
  flush_finish, flush_check, charge, must_wait, failed, finish_eos, validate_image, validate_eos,
}
use vivid_sdk.Channel.Reader.{
  Identity, Reverse, reads, charges, reconciles, flushes, run, step, handle, read_record,
}
use vivid_sdk.Channel.Recovery.{request_in_transport, flush_in_transport}
use vivid_sdk.Channel.Sequence.{in_flight, sends_increase, flush_lowers_epoch}
use vivid_sdk.Channel.Flow.{Accounts, all_bytes, all_records, returned_capacity-Accounts}
use vivid_sdk.Channel.Closing.{closed_channel_fails, eos_is_last}

abbrev video : Identity
video = record { context_id = 1; surface_id = 7; track_id = 9; generation = 1 }

abbrev window : Window
window = record { sent_bytes = 0; sent_records = 0; maximum_bytes = 1000; maximum_records = 4 }

abbrev opened : Channel window_flow presenter
opened = record {
  session_closed = false;
  flow = window;
  closed = false;
  diagnostic = none;
  media = record {
    last_sequence = 0;
    needs_recovery = true;
    minimum_recovery_epoch = 1;
    recovery_revision = 0;
    image_sent = false;
    eos = false;
  };
  sequence = record { last_id = 0; last_epoch = 0; last_record_sequence = 0 };
  events = [];
}

abbrev key_unit : Send
key_unit = record { media_id = 1; epoch = 1; recovery_unit = true; body_length = 600 }

abbrev delta_unit : Send
delta_unit = record { media_id = 2; epoch = 2; recovery_unit = false; body_length = 10 }

abbrev key_transit : InFlight
key_transit = in_flight window_flow presenter opened key_unit

key_valid : validate_send window_flow presenter opened key_unit ≡ ok key_transit
unfolding validate_send
key_valid = refl

-- The other side wants a keyframe of epoch 0 or later.
abbrev keyframe_request : Reverse window_flow presenter
keyframe_request = record {
  record_type = 3;
  object_id = 9;
  is_optional = false;
  error_reply = none;
  decoded = some ((0, 1) ∷ (1, 7) ∷ (2, 9) ∷ (3, 1) ∷ (4, 0) ∷ (5, 0) ∷ []);
}

request_accepted :
    (handle window_flow presenter video
      (run window_flow presenter video opened (charges 600 ∷ []))
      keyframe_request).1
    ≡ none
unfolding run step charge handle find_map validate_track_tuple required_u64 required_u32
    range_inclusive validate_payload_keys
request_accepted = refl

request_in_transport_example :
    (finish_send window_flow presenter
      (run window_flow presenter video opened
        ((charges 600 ∷ []) ++ reads keyframe_request ∷ reconciles 1 1 1 ∷ []))
      key_transit
      2).media.needs_recovery
    ≡ true
request_in_transport_example =
    request_in_transport window_flow presenter video opened key_unit key_transit 2
      (charges 600 ∷ []) (reconciles 1 1 1 ∷ []) keyframe_request key_valid tt tt (inl refl)
      request_accepted

calm_revision :
    (run window_flow presenter video opened
      (charges 600 ∷ reconciles 1 1 1 ∷ [])).media.recovery_revision
    ≡ opened.media.recovery_revision
unfolding run step charge
calm_revision = refl

flush_allowed : flush_check window_flow presenter opened 2 ≡ ok tt
unfolding flush_check
flush_allowed = refl

flush_in_transport_example :
    (y : InFlight) × (validate_send window_flow presenter
        (finish_send window_flow presenter
          (run window_flow presenter video opened (flushes 2 ∷ []))
          key_transit
          1)
        delta_unit
      ≡ ok y)
flush_in_transport_example =
    flush_in_transport window_flow presenter video opened key_unit delta_unit key_transit 1 2
      key_valid refl (omega arith) flush_allowed refl refl (omega arith) (omega arith)

abbrev new_key_unit : Send
new_key_unit = record { media_id = 2; epoch = 2; recovery_unit = true; body_length = 10 }

abbrev flushed : Channel window_flow presenter
flushed = flush_finish window_flow presenter opened 2

new_key_valid :
    validate_send window_flow presenter flushed new_key_unit
    ≡ ok (in_flight window_flow presenter flushed new_key_unit)
unfolding validate_send flush_finish
new_key_valid = refl

old_key_refused :
    validate_send window_flow presenter flushed (record new_key_unit { epoch = 1 })
    ≡ err epoch_below_minimum
unfolding validate_send flush_finish
old_key_refused = refl

abbrev after_key : Channel window_flow presenter
after_key =
    run window_flow presenter video
      (finish_send window_flow presenter (run window_flow presenter video opened (charges 600 ∷ []))
        key_transit 1)
      (reconciles 1 1 1 ∷ [])

delta_valid :
    validate_send window_flow presenter after_key delta_unit
    ≡ ok (in_flight window_flow presenter after_key delta_unit)
unfolding validate_send finish_send run step charge reconcile_status
delta_valid = refl

sends_increase_example : key_unit.media_id < delta_unit.media_id
sends_increase_example =
    sends_increase window_flow presenter video opened key_unit delta_unit key_transit
      (in_flight window_flow presenter after_key delta_unit) 1 (charges 600 ∷ [])
      (reconciles 1 1 1 ∷ []) key_valid delta_valid

too_long_waits : charge window_flow presenter opened 1001 ≡ must_wait
unfolding charge
too_long_waits = refl

closed_channel_fails_example :
    (e : Error) × (charge window_flow presenter
        (run window_flow presenter video
          (record opened { closed = true })
          (reads keyframe_request ∷ []))
        10
      ≡ failed e)
closed_channel_fails_example =
    closed_channel_fails window_flow presenter video (record opened { closed = true })
      (reads keyframe_request ∷ []) 10 (inl refl)

eos_is_last_example :
    let d =
      run window_flow presenter video (finish_eos window_flow presenter opened) (flushes 2 ∷ []) in
    ((e : Error) × (validate_send window_flow presenter d new_key_unit ≡ err e))
    × ((e : Error) × (validate_image window_flow presenter d (some 600) 600 ≡ err e))
    × ((e : Error) × (validate_eos window_flow presenter d ≡ err e))
eos_is_last_example =
    eos_is_last window_flow presenter video opened (flushes 2 ∷ []) new_key_unit (some 600) 600

abbrev late_key_unit : Send
late_key_unit = record { media_id = 1; epoch = 3; recovery_unit = true; body_length = 600 }

late_key_valid :
    validate_send window_flow presenter opened late_key_unit
    ≡ ok (in_flight window_flow presenter opened late_key_unit)
unfolding validate_send
late_key_valid = refl

flush_lowers_epoch_example :
    (y : InFlight) × (validate_send window_flow presenter
        (flush_finish window_flow presenter
          (finish_send window_flow presenter opened
            (in_flight window_flow presenter opened late_key_unit)
            1)
          2)
        new_key_unit
      ≡ ok y)
    × (y.next.last_epoch < 3)
flush_lowers_epoch_example =
    flush_lowers_epoch window_flow presenter opened late_key_unit new_key_unit
      (in_flight window_flow presenter opened late_key_unit) 1 2 flush_allowed late_key_valid
      (omega arith) refl refl refl (omega arith)

-- The other side returns capacity.
abbrev more_capacity : Reverse window_flow presenter
more_capacity = record {
  record_type = 2;
  object_id = 9;
  is_optional = false;
  error_reply = none;
  decoded = some ((0, 1) ∷ (1, 7) ∷ (2, 9) ∷ (3, 1) ∷ (4, 2000) ∷ (5, 8) ∷ []);
}

capacity_accepted : (handle window_flow presenter video opened more_capacity).1 ≡ none
unfolding handle find_map validate_track_tuple required_u64 range_inclusive
    validate_exact_payload_keys
capacity_accepted = refl

returned_bytes :
    required_u64 presenter.cbor ((0, 1) ∷ (1, 7) ∷ (2, 9) ∷ (3, 1) ∷ (4, 2000) ∷ (5, 8) ∷ []) 4
    ≡ ok 2000
unfolding required_u64 find_map
returned_bytes = refl

returned_records :
    required_u64 presenter.cbor ((0, 1) ∷ (1, 7) ∷ (2, 9) ∷ (3, 1) ∷ (4, 2000) ∷ (5, 8) ∷ []) 5
    ≡ ok 8
unfolding required_u64 find_map
returned_records = refl

returned_capacity-Accounts_example :
    Accounts window_flow presenter opened
      (run window_flow presenter video
        (read_record window_flow presenter video opened more_capacity)
        (charges 600 ∷ flushes 2 ∷ []))
      (all_bytes window_flow presenter video
        (read_record window_flow presenter video opened more_capacity)
        (charges 600 ∷ flushes 2 ∷ []))
      (all_records window_flow presenter video
        (read_record window_flow presenter video opened more_capacity)
        (charges 600 ∷ flushes 2 ∷ []))
    × (2000
        ≤ (run window_flow presenter video
            (read_record window_flow presenter video opened more_capacity)
            (charges 600 ∷ flushes 2 ∷ [])).flow.maximum_bytes)
    × (8
        ≤ (run window_flow presenter video
            (read_record window_flow presenter video opened more_capacity)
            (charges 600 ∷ flushes 2 ∷ [])).flow.maximum_records)
returned_capacity-Accounts_example =
    returned_capacity-Accounts window_flow presenter video opened more_capacity
      ((0, 1) ∷ (1, 7) ∷ (2, 9) ∷ (3, 1) ∷ (4, 2000) ∷ (5, 8) ∷ []) 2000 8
      (charges 600 ∷ flushes 2 ∷ []) (λ e. omega arith) refl refl returned_bytes returned_records
      capacity_accepted
