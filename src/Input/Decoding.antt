-- ===== src/Input/Decoding.antt =====
-- The decoders of src/input.rs: `decode_input_tuple`, `decode_input_renewal`,
-- `decode_input_termination`.
use vivid_sdk.Prelude.{
  ◌≤◌, ℕ, ◌≡◌, ◌≢◌, inl, inr, Bool, not, ◌||◌, arith, ltb, ◌==◌, Result, ok, Result-cases, ◌>>=◌,
  ◌>>◌, refuse_if,
}
use mathlib.Core.Path.{subst}
use vivid_sdk.Wire.{PayloadMap, required_u64, validate_exact_payload_keys}
use vivid_sdk.Session.{Remote, Error, lift, invalid_data}
use vivid_sdk.Guard.{InputLimits, InputTuple, InputLeaseRenewal, InputBinding, in_watchdog_range}

-- What the lane uses of other crates: requests, the numbers of its record types, the limits of the
-- input protocol, and the tests of a binding.
pub record InputWire : Type 1 where
  pub remote : Remote
  pub ping : ℕ
  pub key_input : ℕ
  pub pointer_motion : ℕ
  pub pointer_button : ℕ
  pub pointer_axis : ℕ
  pub input_lease_renew : ℕ
  pub input_revoked : ℕ
  pub input_reset : ℕ
  pub input_bound : ℕ
  pub limits : InputLimits
  pub validate : InputBinding → ℕ → Bool
  pub disabled : InputBinding → Bool

pub record InputGrantTermination : Type 0 where
  pub binding : InputTuple
  pub reason : ℕ

module _ (w : InputWire) where
  unfoldable pub decode_input_tuple : ℕ → PayloadMap w.remote.cbor → Result Error InputTuple
  decode_input_tuple object_id payload = do
    producer_epoch ← lift (required_u64 w.remote.cbor payload 0)
    grant_generation ← lift (required_u64 w.remote.cbor payload 1)
    context_id ← lift (required_u64 w.remote.cbor payload 2)
    surface_id ← lift (required_u64 w.remote.cbor payload 3)
    surface_generation ← lift (required_u64 w.remote.cbor payload 4)
    refuse_if
        (producer_epoch == 0
          || grant_generation == 0
          || context_id == 0
          || surface_id == 0
          || surface_generation == 0
          || not (surface_id == object_id))
        invalid_data
    ok record {
      producer_epoch = producer_epoch;
      grant_generation = grant_generation;
      context_id = context_id;
      surface_id = surface_id;
      surface_generation = surface_generation;
    }

  unfoldable pub decode_input_renewal :
      ℕ → PayloadMap w.remote.cbor → Result Error InputLeaseRenewal
  decode_input_renewal object_id payload = do
    lift (validate_exact_payload_keys w.remote.cbor payload 0 6)
    renewal_sequence ← lift (required_u64 w.remote.cbor payload 5)
    watchdog_timeout_us ← lift (required_u64 w.remote.cbor payload 6)
    refuse_if (renewal_sequence == 0 || not (in_watchdog_range w.limits watchdog_timeout_us))
        invalid_data
    binding ← decode_input_tuple object_id payload
    ok record {
      binding = binding;
      renewal_sequence = renewal_sequence;
      watchdog_timeout_us = watchdog_timeout_us;
    }

  unfoldable pub decode_input_termination :
      ℕ → PayloadMap w.remote.cbor → Result Error InputGrantTermination
  decode_input_termination object_id payload = do
    lift (validate_exact_payload_keys w.remote.cbor payload 0 5)
    reason ← lift (required_u64 w.remote.cbor payload 5)
    refuse_if (reason == 0 || ltb 10 reason) invalid_data
    binding ← decode_input_tuple object_id payload
    ok record { binding = binding; reason = reason }

  -- A binding whose numbers are all there and that is for the surface of its record.
  pub record Identifies (object_id : ℕ) (t : InputTuple) : Type 0 where
    pub has_epoch : t.producer_epoch ≢ 0
    pub has_grant : t.grant_generation ≢ 0
    pub has_context : t.context_id ≢ 0
    pub has_surface : t.surface_id ≢ 0
    pub has_generation : t.surface_generation ≢ 0
    pub own_surface : t.surface_id ≡ object_id

  decode_input_tuple-Identifies :
      (object_id : ℕ) (payload : PayloadMap w.remote.cbor) (t : InputTuple)
      → decode_input_tuple object_id payload ≡ ok t
      → Identifies object_id t
  unfolding decode_input_tuple
  decode_input_tuple-Identifies object_id payload t e = record {
    has_epoch = ground arith;
    has_grant = ground arith;
    has_context = ground arith;
    has_surface = ground arith;
    has_generation = ground arith;
    own_surface = ground arith;
  }

  -- A renewal that is decoded names a binding of the surface of its record with no number missing, a
  -- sequence other than zero, and a watchdog within the protocol's bounds.
  pub decode_input_renewal-Identifies :
      (object_id : ℕ) (payload : PayloadMap w.remote.cbor) (r : InputLeaseRenewal)
      → decode_input_renewal object_id payload ≡ ok r
      → Identifies object_id r.binding
        × (r.renewal_sequence ≢ 0)
        × (w.limits.min_watchdog_us ≤ r.watchdog_timeout_us)
        × (r.watchdog_timeout_us ≤ w.limits.max_watchdog_us)
  unfolding decode_input_renewal
  decode_input_renewal-Identifies object_id payload r e =
      elim (Result-cases (decode_input_tuple object_id payload)) [
        | inr (x, h) ↦ absurd (ground arith)
        | inl (t, h) ↦
            let same : t ≡ r.binding = ground arith in
            (
              subst (Identifies object_id) same
                  (decode_input_tuple-Identifies object_id payload t h),
              ground arith,
              ground arith,
              ground arith,
            )
      ]
