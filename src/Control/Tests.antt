-- ===== src/Control/Tests.antt =====
-- The control plane of src/session.rs on a peer whose values are numbers, and instances of its
-- theorems.
use vivid_sdk.Prelude.{ℕ, ◌≡◌, refl, true, false, none, some, [], ◌∷◌, ok, err, u64_max}
use vivid_sdk.Samples.{numbers}
use vivid_sdk.Control.Ending.{IsOver, closed_session_flows}
use vivid_sdk.Control.State.{
  read_failed, Presenter, ended, Record, Control, TrackEntry, open_flow, holds, begin_request,
  new_control, requests_exhausted, allocate, revision_backward,
}
use vivid_sdk.Control.Dispatch.{
  Loss, lose_track, dispatch, answer_request, stop, begin_close, close_flows, drain, reads,
  loses_connection, drains, begins, registers_flow, step, run,
}
use vivid_sdk.Control.Requests.{has_answer, every_request_ends}
use vivid_sdk.Control.State.{advance_allocator_past}
use vivid_sdk.Control.Closing.{Ends, run-new_control-Ends}

abbrev desk : Presenter
desk = record {
  cbor = numbers;
  Detail = Unit;
  error_detail = λ m. some tt;
  Offer = ℕ;
  decode_offer = λ o m. some o;
  Cancel = ℕ;
  decode_cancel = λ o m. none;
  ping = 1;
  target_changed = 2;
  anchor_ready = 3;
  anchor_gone = 4;
  track_lost = 5;
  context_changed = 6;
  file_drop_offer = 7;
  file_drop_cancelled = 8;
}

abbrev answer_to : ℕ → Record desk
answer_to id = record {
  record_type = 9;
  object_id = 0;
  decoded = some (record { request_id = id; payload = [] });
}

abbrev asked : Control desk
asked = run desk (new_control desk) (begins 5 ∷ begins 6 ∷ [])

-- A reply that nobody asked for ends the session.
foreign_reply_ends : (run desk asked (reads (answer_to 7) true ∷ [])).closed ≡ true
unfolding run step dispatch answer_request begin_request new_control stop
foreign_reply_ends = refl

second_held : holds desk asked.requests 6 ≡ true
unfolding run step begin_request new_control
second_held = refl

over :
    (run desk asked (
      reads (answer_to 5) true
      ∷ loses_connection
      ∷ begins 8
      ∷ drains
      ∷ drains
      ∷ drains
      ∷ [])).reader
    ≡ ended
unfolding run step dispatch answer_request begin_request new_control stop begin_close close_flows
    drain
over = refl

every_request_ends_example :
    has_answer desk
      (run desk asked (
        reads (answer_to 5) true
        ∷ loses_connection
        ∷ begins 8
        ∷ drains
        ∷ drains
        ∷ drains
        ∷ [])).answers
      6
    ≡ true
every_request_ends_example =
    every_request_ends desk (begins 5 ∷ begins 6 ∷ [])
      (reads (answer_to 5) true ∷ loses_connection ∷ begins 8 ∷ drains ∷ drains ∷ drains ∷ []) 6
      second_held tt over

run-new_control-Ends_example : Ends desk (
    run desk
      (new_control desk)
      (registers_flow ∷ loses_connection ∷ drains ∷ registers_flow ∷ drains ∷ []))
run-new_control-Ends_example =
    run-new_control-Ends desk
      (registers_flow ∷ loses_connection ∷ drains ∷ registers_flow ∷ drains ∷ [])

abbrev camera : TrackEntry desk
camera = record {
  context_id = 1;
  surface_id = 7;
  track_id = 9;
  revision = 3;
  destroyed = false;
  lost = none;
  active_flow = some 0;
  has_media = true;
}

abbrev unplugged : Loss desk
unplugged = record {
  context_id = 1;
  surface_id = 7;
  track_id = 9;
  revision = 4;
  lost = record { code = 2; detail = tt; diagnostic = "unplugged" };
}

old_loss_refused :
    lose_track desk (camera ∷ []) (open_flow ∷ []) (record unplugged { revision = 2 })
    ≡ err revision_backward
unfolding lose_track
old_loss_refused = refl

last_id_exhausted : allocate u64_max requests_exhausted ≡ err requests_exhausted
unfolding allocate
last_id_exhausted = refl

adopted_ok : advance_allocator_past 3 9 ≡ ok 10
unfolding advance_allocator_past
adopted_ok = refl

closed_session_flows_example : IsOver desk true (
    run desk
      (close_flows desk
        (run desk
          (begin_close desk (run desk (new_control desk) (registers_flow ∷ [])) read_failed)
          (registers_flow ∷ begins 5 ∷ []))
        read_failed)
      (registers_flow ∷ loses_connection ∷ []))
closed_session_flows_example =
    closed_session_flows desk (run desk (new_control desk) (registers_flow ∷ []))
      (registers_flow ∷ begins 5 ∷ []) (registers_flow ∷ loses_connection ∷ []) read_failed
