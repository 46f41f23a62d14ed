-- ===== src/Input/Tests.antt =====
-- A lane of src/input.rs with one request, its binding, and instances of the theorems.
use vivid_sdk.Prelude.{◌≡◌, refl, true, false, none, some, [], ◌∷◌, ◌==◌, ok}
use vivid_sdk.Wire.{
  required_u32, required_u64, validate_exact_payload_keys, expect_record, find_map, range_inclusive,
}
use vivid_sdk.Samples.{remote, clock}
use vivid_sdk.Guard.{
  Guard, fresh, no_preconditions, InputLeaseRenewal, InputBinding, InputBindingStatus, handle_bound,
}
use vivid_sdk.Input.Decoding.{InputWire, decode_input_tuple, decode_input_renewal}
use vivid_sdk.Input.{InputRecord, reply, new_lane, register, close_input_lane}
use vivid_sdk.Input.Steps.{reads, registers, withdraws, run}
use vivid_sdk.Input.Closing.{has_answer, close_input_lane_answers}
use vivid_sdk.Input.Opening.{
  Registry, LaneOpener, check_accepted, maximum_body, push_lane, register_input_lane,
  open_input_lane, pushes, on_lane, deactivate, close_lanes, act_all, IsOver, closed_session_lanes,
}
use vivid_sdk.Input.Binding.{bound_status, is_invalid_grant, bound_status-handle_bound}

abbrev desktop : InputWire
desktop = record {
  remote = remote;
  ping = 3;
  key_input = 40;
  pointer_motion = 41;
  pointer_button = 42;
  pointer_axis = 43;
  input_lease_renew = 44;
  input_revoked = 45;
  input_reset = 46;
  input_bound = 47;
  limits = record { class_known_mask = 15; min_watchdog_us = 100; max_watchdog_us = 900 };
  validate = λ b id. true;
  disabled = λ b. b.requested_classes == 0;
}

abbrev wanted : InputBinding
wanted = record {
  producer_epoch = 6;
  context_id = 1;
  surface_id = 9;
  surface_generation = 2;
  requested_classes = 3;
  reason = 0;
  requested_watchdog_us = 500;
}

abbrev bound : InputRecord desktop
bound = record {
  record_type = 47;
  object_id = 9;
  optional = false;
  decoded = some record {
    request_id = 2;
    payload = (0, 6) ∷ (1, 5) ∷ (2, 1) ∷ (3, 9) ∷ (4, 2) ∷ (5, 1) ∷ (6, 1) ∷ (7, 0) ∷ (8, 500) ∷ [];
  };
  error_code = none;
}

abbrev granted : InputBindingStatus
granted = record {
  producer_epoch = 6;
  grant_generation = 5;
  context_id = 1;
  surface_id = 9;
  surface_generation = 2;
  effective_classes = 1;
  state = 1;
  reason = 0;
  watchdog_timeout_us = 500;
}

status_given : bound_status desktop wanted (reply bound) ≡ ok granted
unfolding bound_status expect_record validate_exact_payload_keys required_u64 is_invalid_grant
    range_inclusive find_map
status_given = refl

close_input_lane_answers_example :
    let ended =
      run desktop
        (close_input_lane desktop
          (run desktop (register desktop (new_lane desktop) 2).0 (registers 4 ∷ []))
          none)
        (withdraws 4 ∷ reads (some bound) true ∷ []) in
    (has_answer desktop ended.answers 2 ≡ true) × (ended.requests ≡ [])
unfolding register
close_input_lane_answers_example =
    close_input_lane_answers desktop (new_lane desktop) 2 (registers 4 ∷ [])
      (withdraws 4 ∷ reads (some bound) true ∷ []) none refl refl refl

abbrev waiting_guard : Guard clock
waiting_guard = record {
  epoch = 6;
  state = fresh;
  context_id = 1;
  surface_id = 9;
  surface_generation = 2;
  watchdog_deadline = none;
  last_renewal_sequence = 0;
  preconditions = no_preconditions;
}

bound_status-handle_bound_example :
    (h : Guard clock) × (handle_bound clock desktop.limits waiting_guard granted ≡ ok h)
bound_status-handle_bound_example =
    bound_status-handle_bound desktop clock waiting_guard wanted (reply bound) granted status_given
      refl

abbrev renewal : InputLeaseRenewal
renewal = record {
  binding = record {
    producer_epoch = 6;
    grant_generation = 5;
    context_id = 1;
    surface_id = 9;
    surface_generation = 2;
  };
  renewal_sequence = 3;
  watchdog_timeout_us = 500;
}

renewal_decoded :
    decode_input_renewal desktop 9
      ((0, 6) ∷ (1, 5) ∷ (2, 1) ∷ (3, 9) ∷ (4, 2) ∷ (5, 3) ∷ (6, 500) ∷ [])
    ≡ ok renewal
unfolding decode_input_renewal decode_input_tuple validate_exact_payload_keys required_u64
    range_inclusive find_map
renewal_decoded = refl

abbrev empty_registry : Registry desktop
empty_registry = record { active = true; lanes = [] }

abbrev lane_opener : LaneOpener desktop
lane_opener = record {
  session_id = 8;
  supports_desktop_input = true;
  offline = false;
  random = true;
  connected = true;
  written = true;
  reply = some record {
    record_type = 50;
    object_id = 0;
    decoded = some record { request_id = 1; payload = (0, 8) ∷ (1, 1) ∷ (2, 3) ∷ (3, 4096) ∷ [] };
    error_code = none;
  };
}

lane_opened :
    open_input_lane desktop 50 1 empty_registry (λ r. r) (λ r. r) lane_opener 3
    ≡ ok (record empty_registry { lanes = new_lane desktop ∷ [] }, 4096)
unfolding open_input_lane maximum_body check_accepted register_input_lane push_lane expect_record
    validate_exact_payload_keys required_u32 required_u64 range_inclusive find_map
lane_opened = refl

closed_session_lanes_example : IsOver desktop true (
    act_all desktop
      (close_lanes desktop
        (act_all desktop
          (deactivate desktop (record empty_registry { lanes = new_lane desktop ∷ [] }))
          (pushes (new_lane desktop) ∷ on_lane 0 (registers 2) ∷ []))
        none)
      (on_lane 0 (registers 3) ∷ pushes (new_lane desktop) ∷ []))
closed_session_lanes_example =
    closed_session_lanes desktop (record empty_registry { lanes = new_lane desktop ∷ [] })
      (pushes (new_lane desktop) ∷ on_lane 0 (registers 2) ∷ [])
      (on_lane 0 (registers 3) ∷ pushes (new_lane desktop) ∷ []) none
