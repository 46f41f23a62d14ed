-- ===== src/Input/Events.antt =====
-- `InputLaneEvent::decode_input` of src/input.rs.
use vivid_sdk.Prelude.{
  ℕ, ◌≡◌, ◌≢◌, Option, some, arith, ◌==◌, if◌then◌else◌, Result, ok, err, or_fail,
}
use vivid_sdk.Wire.{PayloadMap}
use vivid_sdk.Session.{Error, invalid_input, invalid_data, undecodable}
use vivid_sdk.Input.Decoding.{InputWire}
use vivid_sdk.Input.{
  InputRecord, InputLaneEvent, input, renew, revoked, reset, lane_closed, error_event, event_of,
}

module _ (w : InputWire) where
  -- The decoders of the protocol crate, for a surface of some width and height.
  pub record EventDecoders : Type 1 where
    pub InputEvent : Type 0
    pub decode_key : ℕ → PayloadMap w.remote.cbor → Option InputEvent
    pub decode_motion : ℕ → PayloadMap w.remote.cbor → ℕ → ℕ → Option InputEvent
    pub decode_button : ℕ → PayloadMap w.remote.cbor → ℕ → ℕ → Option InputEvent
    pub decode_axis : ℕ → PayloadMap w.remote.cbor → ℕ → ℕ → Option InputEvent

  module _ (d : EventDecoders) where
    unfoldable pub decode_ordinary :
        ℕ → ℕ → PayloadMap w.remote.cbor → ℕ → ℕ → Result Error d.InputEvent
    decode_ordinary record_type surface_id payload width height =
        if record_type == w.key_input
        then or_fail (d.decode_key surface_id payload) undecodable
        else if record_type == w.pointer_motion
        then or_fail (d.decode_motion surface_id payload width height) undecodable
        else if record_type == w.pointer_button
        then or_fail (d.decode_button surface_id payload width height) undecodable
        else if record_type == w.pointer_axis
        then or_fail (d.decode_axis surface_id payload width height) undecodable
        else err invalid_data

    unfoldable pub decode_input : InputLaneEvent w → ℕ → ℕ → Result Error d.InputEvent
    decode_input (input record_type surface_id payload) width height =
        decode_ordinary record_type surface_id payload width height
    decode_input (renew r) width height = err invalid_input
    decode_input (revoked t) width height = err invalid_input
    decode_input (reset t) width height = err invalid_input
    decode_input (lane_closed message) width height = err invalid_input
    decode_input (error_event code) width height = err invalid_input

    -- The type of an ordinary event that the reader queues is one that the decoder knows.
    decode_input_known :
        (x : InputRecord w) (payload : PayloadMap w.remote.cbor) (record_type surface_id : ℕ)
        (p : PayloadMap w.remote.cbor) (width height : ℕ)
        → event_of w x payload ≡ ok (some (input record_type surface_id p))
        → decode_input (input record_type surface_id p) width height ≢ err invalid_data
    unfolding decode_input decode_ordinary event_of
    decode_input_known x payload record_type surface_id p width height e f = ground arith
