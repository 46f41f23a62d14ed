-- ===== src/Input/Binding.antt =====
-- The requests of src/input.rs that set a binding: `set_binding` up to its wait, what it makes of the
-- reply, and how the guard of src/guard.rs takes the outcome.
use vivid_sdk.Prelude.{
  ℕ, ◌≡◌, sym, ◌∙◌, inl, inr, Bool, true, false, not, ◌&&◌, ◌||◌, none, some, arith, ltb, ◌==◌,
  if◌then◌else◌, Bool-cases, Result, ok, err, Result-cases, ◌>>=◌, ◌>>◌, refuse_if, or_fail,
}
use vivid_sdk.Wire.{required_u64, validate_exact_payload_keys, expect_record}
use vivid_sdk.Session.{Error, lift, invalid_input, invalid_data, presenter, undecodable, control}
use vivid_sdk.Control.State.{
  allocate, requests_exhausted, control_closed, duplicate_request, write_failed,
}
use vivid_sdk.Guard.{
  Monotonic, Guard, InputBinding, InputBindingStatus, in_watchdog_range, has_unknown, bind_state,
  handle_bound,
}
use vivid_sdk.Input.Decoding.{InputWire}
use vivid_sdk.Input.{Answer, reply, failure, Lane, register, withdraw}

module _ (w : InputWire) where
  -- The answer of a session without a presenter.
  abbrev pub offline_status : InputBinding → InputBindingStatus
  offline_status b = record {
    producer_epoch = b.producer_epoch;
    grant_generation = b.producer_epoch;
    context_id = b.context_id;
    surface_id = b.surface_id;
    surface_generation = b.surface_generation;
    effective_classes = b.requested_classes;
    state = if w.disabled b then 0 else 1;
    reason = b.reason;
    watchdog_timeout_us = b.requested_watchdog_us;
  }

  -- What `set_binding` has when it waits, or without a presenter.
  pub data Begun : Type 0 where
    waits_for : ℕ → Begun
    bound : InputBindingStatus → Begun

  -- What the session, the encoder and the writer answer, and what other threads do to the lane before
  -- the table is locked.
  pub record Surroundings : Type 0 where
    pub session_active : Bool
    pub encoded : Bool
    pub written : Bool
    pub offline : Bool
    pub during : Lane w → Lane w

  -- `set_binding` on the lane from the lock of the table on.
  unfoldable pub register_binding : Lane w → ℕ → Bool → Lane w × Result Error Begun
  register_binding l id written =
      if not (register w l id).1
      then (
        (register w l id).0,
        err (control (if l.closed then control_closed else duplicate_request)),
      )
      else if not written
      then (withdraw w (register w l id).0 id, err (control write_failed))
      else ((register w l id).0, ok (waits_for id))

  unfoldable pub numbered_binding :
      Lane w → ℕ → InputBinding → Surroundings → Lane w × Result Error Begun
  numbered_binding l id b o =
      if not o.encoded
      then (l, err undecodable)
      else if o.offline
      then (l, if o.written then ok (bound (offline_status b)) else err (control write_failed))
      else register_binding (o.during l) id o.written

  -- `set_binding` until it waits, with the next request ID.
  unfoldable pub begin_binding :
      Lane w → ℕ → InputBinding → Surroundings → Lane w × ℕ × Result Error Begun
  begin_binding l next b o =
      if not o.session_active
      then (l, next, err (control control_closed))
      else if not (w.validate b b.surface_id)
      then (l, next, err invalid_input)
      else if l.closed
      then (l, next, err (control control_closed))
      else elim (allocate next requests_exhausted) [
        | err e ↦ (l, next, err (control e))
        | ok (after, id) ↦ let r = numbered_binding l id b o in (r.0, after, r.1)
      ]

  -- The test of a decoded status against the binding that was asked for.
  unfoldable pub is_invalid_grant : InputBinding → InputBindingStatus → Bool
  is_invalid_grant b s =
      s.grant_generation == 0
      || ltb 2 s.state
      || has_unknown s.effective_classes b.requested_classes
      || s.state == 1
        && (not (s.context_id == b.context_id)
            || not (s.surface_id == b.surface_id)
            || not (s.surface_generation == b.surface_generation)
            || s.effective_classes == 0
            || not (in_watchdog_range w.limits s.watchdog_timeout_us))

  unfoldable pub bound_status : InputBinding → Answer w → Result Error InputBindingStatus
  bound_status b (failure message) = err (control control_closed)
  bound_status b (reply x) = do
    refuse_if (x.record_type == w.remote.error_type)
        (elim x.error_code [ none ↦ undecodable | some code ↦ presenter code ])
    lift (expect_record x.record_type x.object_id w.input_bound b.surface_id)
    envelope ← or_fail x.decoded undecodable
    let payload = envelope.payload
    lift (validate_exact_payload_keys w.remote.cbor payload 0 8)
    epoch ← lift (required_u64 w.remote.cbor payload 0)
    refuse_if (not (epoch == b.producer_epoch)) invalid_data
    grant_generation ← lift (required_u64 w.remote.cbor payload 1)
    context_id ← lift (required_u64 w.remote.cbor payload 2)
    surface_id ← lift (required_u64 w.remote.cbor payload 3)
    surface_generation ← lift (required_u64 w.remote.cbor payload 4)
    effective_classes ← lift (required_u64 w.remote.cbor payload 5)
    state ← lift (required_u64 w.remote.cbor payload 6)
    reason ← lift (required_u64 w.remote.cbor payload 7)
    watchdog_timeout_us ← lift (required_u64 w.remote.cbor payload 8)
    let status : InputBindingStatus = record {
      producer_epoch = epoch;
      grant_generation = grant_generation;
      context_id = context_id;
      surface_id = surface_id;
      surface_generation = surface_generation;
      effective_classes = effective_classes;
      state = state;
      reason = reason;
      watchdog_timeout_us = watchdog_timeout_us;
    }
    refuse_if (is_invalid_grant b status) invalid_data
    ok status

  -- A status that is given out is for the epoch that was asked for, and its grant is valid.
  abbrev IsFor : InputBinding → InputBindingStatus → Type 0
  IsFor b s = (s.producer_epoch ≡ b.producer_epoch) × (is_invalid_grant b s ≡ false)

  bound_status-IsFor :
      (b : InputBinding) (a : Answer w) (s : InputBindingStatus)
      → bound_status b a ≡ ok s
      → IsFor b s
  unfolding bound_status
  bound_status-IsFor b (failure message) s e = absurd (ground arith)
  bound_status-IsFor b (reply x) s e = (ground arith, ground arith)

  valid_parts :
      (a b c d p q r z t : Bool)
      → a || b || c || d && (p || q || r || z || not t) ≡ false
      → (a ≡ false) × (b ≡ false) × (d ≡ true → (z ≡ false) × (t ≡ true))
  valid_parts a b c d p q r z t h =
      (ground arith, ground arith, λ yes_d. (ground arith, ground arith))

  takes_valid :
      (m : Monotonic) (g : Guard m) (s : InputBindingStatus)
      → s.producer_epoch ≡ g.epoch
      → ltb 2 s.state ≡ false
      → s.grant_generation == 0 ≡ false
      → (s.state == 1 ≡ true
          → (s.effective_classes == 0 ≡ false)
            × (in_watchdog_range w.limits s.watchdog_timeout_us ≡ true))
      → (h : Guard m) × (handle_bound m w.limits g s ≡ ok h)
  unfolding handle_bound bind_state
  takes_valid m g s same range grant enabled = elim (Result-cases (handle_bound m w.limits g s)) [
    | inl (h, k) ↦ (h, k)
    | inr (x, k) ↦ absurd (elim (Bool-cases (s.state == 1)) [
      | inl on ↦ let parts = enabled on in ground arith
      | inr off ↦ ground arith
    ])
  ]

  -- The guard that made the binding takes any status that the lane gives out for it.
  pub bound_status-handle_bound :
      (m : Monotonic) (g : Guard m) (b : InputBinding) (a : Answer w) (s : InputBindingStatus)
      → bound_status b a ≡ ok s
      → g.epoch ≡ b.producer_epoch
      → (h : Guard m) × (handle_bound m w.limits g s ≡ ok h)
  unfolding is_invalid_grant
  bound_status-handle_bound m g b a s e same =
      let fits = bound_status-IsFor b a s e in
      let parts =
        valid_parts (s.grant_generation == 0) (ltb 2 s.state)
          (has_unknown s.effective_classes b.requested_classes) (s.state == 1)
          (not (s.context_id == b.context_id)) (not (s.surface_id == b.surface_id))
          (not (s.surface_generation == b.surface_generation)) (s.effective_classes == 0)
          (in_watchdog_range w.limits s.watchdog_timeout_us) fits.1 in
      takes_valid m g s (fits.0 ∙ sym same) parts.1 parts.0 parts.2
