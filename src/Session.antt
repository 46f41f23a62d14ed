-- ===== src/Session.antt =====
-- src/session.rs, the requests of a `Session`: `next_request`, `request`, `request_ok`, `dispatch_ok`,
-- `supports`; `presenter_error` and `decoded_payload` of src/wire.rs.
pub mod Replies
mod Tests
use vivid_sdk.Prelude.{
  ◌+◌, ◌-◌, ◌*◌, ◌/◌, ◌%◌, ◌^◌, ◌≤◌, ◌<◌, min, max, ℕ, zero, suc, ◌≡◌, refl, sym, ap, ◌∙◌, ◌≢◌, ◌↔◌,
  ◌⊎◌, inl, inr, Bool, true, false, not, ◌&&◌, ◌||◌, Option, none, some, List, [], ◌∷◌, ◌++◌, map,
  arith, ltb, leb, ◌==◌, if◌then◌else◌, ltb→lt, lt→ltb, leb→le, ==_iff, Bool-cases, Option-cases,
  length, get_elem?, All, length-append, get_elem?-some, Result, ok, err, Result-cases, refused,
  ◌>>=◌, ◌>>◌, refuse_if, or_fail, u32_max, u64_max, saturating_add, saturating_mul, checked_add,
  duration_max, add_duration, as_micros,
}
use Prim.Native.String.{String}
use vivid_sdk.Wire
use vivid_sdk.Wire.{Cbor, PayloadMap, required_value}
use vivid_sdk.Control.State
use vivid_sdk.Control.State.{allocate}

-- What requests use of other crates: values and the numbers of the record types that end a request.
-- `Signed` stands for i64.
pub record Remote : Type 1 where
  pub cbor : Cbor
  pub unsigned : ℕ → cbor.Value
  pub Signed : Type 0
  pub zero_signed : Signed
  pub signed : Signed → cbor.Value
  pub as_i64 : cbor.Value → Option Signed
  pub error_type : ℕ
  pub ok_type : ℕ

-- The errors of requests and of what is built on them: tracks, scenes, surfaces.
pub data Error : Type 0 where
  control : State.Error → Error
  wire : Wire.Error → Error
  presenter : ℕ → Error
  undecodable malformed_ok wrong_request_id unsupported : Error
  invalid_input invalid_data zero_revision : Error

abbrev pub lift : {A : Type 0} → Result Wire.Error A → Result Error A
lift (ok a) = ok a
lift (err e) = err (wire e)

-- `require_nonzero` of revisions and generations.
abbrev pub require_nonzero : ℕ → Result Error (Unit {0})
require_nonzero n = refuse_if (n == 0) zero_revision

module _ (r : Remote) where
  pub record Envelope : Type 0 where
    pub request_id : ℕ
    pub payload : PayloadMap r.cbor

  -- A reply with what `decode_control` makes of its body and, of an error reply, its code.
  pub record Reply : Type 0 where
    pub record_type : ℕ
    pub object_id : ℕ
    pub decoded : Option Envelope
    pub error_code : Option ℕ

  -- A request as it is written: `metadata` and the encoding belong to the transport.
  pub record Request : Type 0 where
    pub record_type : ℕ
    pub object_id : ℕ
    pub payload : PayloadMap r.cbor
    pub transaction_id : Option ℕ
    pub expected_target_generation : Option ℕ

  -- `ControlPlane::request`: none is the answer of an offline session.
  abbrev pub Transport : Type 0
  Transport = ℕ → Request → Result Error (Option Reply)

  -- What an operation sees of the requests that it makes.
  abbrev pub Answer : Type 0
  Answer = Request → Result Error (Option Reply)

  unfoldable pub presenter_error : Reply → Error
  presenter_error reply = elim reply.error_code [ none ↦ undecodable | some code ↦ presenter code ]

  unfoldable pub decoded_payload : Reply → Result Error (PayloadMap r.cbor)
  decoded_payload reply = do envelope ← or_fail reply.decoded undecodable; ok envelope.payload

  abbrev pub required_i64 : PayloadMap r.cbor → ℕ → Result Wire.Error r.Signed
  required_i64 payload key = do
    value ← required_value r.cbor payload key
    or_fail (r.as_i64 value) (Wire.not_unsigned key)

  unfoldable pub next_request : ℕ → Result Error (ℕ × ℕ)
  next_request next = elim (allocate next State.requests_exhausted) [
    | ok x ↦ ok x
    | err e ↦ err (control e)
  ]

  unfoldable pub check_reply : ℕ → Option Reply → Result Error (Option Reply)
  check_reply request_id none = ok none
  check_reply request_id (some reply) =
      if reply.record_type == r.error_type then err (presenter_error reply) else (do
        response ← or_fail reply.decoded undecodable
        refuse_if (not (response.request_id == request_id)) wrong_request_id
        ok (some reply))

  unfoldable pub check_ok : ℕ → ℕ → Option Reply → Result Error (Unit {0})
  check_ok request_id object_id none = ok tt
  check_ok request_id object_id (some reply) =
      if reply.record_type == r.error_type then err (presenter_error reply) else (do
        lift (Wire.expect_record reply.record_type reply.object_id r.ok_type object_id)
        response ← or_fail reply.decoded undecodable
        refuse_if (not (response.request_id == request_id) || not (length response.payload == 0))
            malformed_ok)

  -- `request` and `request_ok` with the counter of request IDs before and after.
  unfoldable pub request : Transport → ℕ → Request → ℕ × Result Error (Option Reply)
  request transport next q = elim (next_request next) [
    | err e ↦ (next, err e)
    | ok (advanced, id) ↦ (advanced, (do reply ← transport id q; check_reply id reply))
  ]

  unfoldable pub dispatch_ok : Transport → ℕ → Request → Result Error (Unit {0})
  dispatch_ok transport request_id q = do
    reply ← transport request_id q
    check_ok request_id q.object_id reply

  unfoldable pub request_ok : Transport → ℕ → Request → ℕ × Result Error (Unit {0})
  request_ok transport next q = elim (next_request next) [
    | err e ↦ (next, err e)
    | ok (advanced, id) ↦ (advanced, dispatch_ok transport id q)
  ]
