-- ===== src/FileDrop/Requests.antt =====
-- The file-drop requests of a session in src/file_drop.rs: binding, accepting, cancelling, advancing and
-- querying.
use vivid_sdk.Prelude.{
  ℕ, ◌≡◌, refl, ◌≢◌, inl, inr, Bool, true, false, not, Option, none, some, arith, ◌==◌,
  if◌then◌else◌, Bool-cases, length, Result, ok, ◌>>=◌, ◌>>◌, refuse_if, or_fail,
}
use vivid_sdk.Wire.{PayloadMap, expect_record}
use vivid_sdk.Session.{
  Remote, Error, lift, undecodable, unsupported, malformed_ok, control, Reply, Request, Answer,
  decoded_payload,
}
use vivid_sdk.Control.State.{control_closed}
use vivid_sdk.FileDrop.{
  Limits, enabled, disabled_state, Rules, Binding, Grant, Guard, check_bound, exceeds, handle_bound,
}

-- What the requests use of the protocol crate: the numbers of the records, and how its messages are
-- encoded and decoded for an object.
pub record DropWire (rules : Rules) : Type 1 where
  pub remote : Remote
  pub set_binding_type : ℕ
  pub bound_type : ℕ
  pub accept_type : ℕ
  pub accepted_type : ℕ
  pub cancel_type : ℕ
  pub cancelled_type : ℕ
  pub advance_type : ℕ
  pub advanced_type : ℕ
  pub query_type : ℕ
  pub status_type : ℕ
  pub default_idle_us : ℕ
  pub AcceptFileDrop : Type 0
  pub CancelFileDrop : Type 0
  pub AdvanceFileTransfer : Type 0
  pub QueryFileDrop : Type 0
  pub FileDropStatus : Type 0
  pub accept_drop_id : AcceptFileDrop → ℕ
  pub accept_transfer_id : AcceptFileDrop → ℕ
  pub accept_generation : AcceptFileDrop → ℕ
  pub cancel_drop_id : CancelFileDrop → ℕ
  pub advance_transfer_id : AdvanceFileTransfer → ℕ
  pub advance_new_generation : AdvanceFileTransfer → ℕ
  pub advance_committed_offset : AdvanceFileTransfer → ℕ
  pub query_drop_id : QueryFileDrop → ℕ
  pub binding_payload : Binding rules → Option (PayloadMap remote.cbor)
  pub accept_payload : AcceptFileDrop → Option (PayloadMap remote.cbor)
  pub cancel_payload : CancelFileDrop → Option (PayloadMap remote.cbor)
  pub advance_payload : AdvanceFileTransfer → Option (PayloadMap remote.cbor)
  pub query_payload : QueryFileDrop → Option (PayloadMap remote.cbor)
  pub decode_grant : ℕ → PayloadMap remote.cbor → Option (Grant rules)
  pub decode_accepted : ℕ → PayloadMap remote.cbor → Option (ℕ × ℕ × ℕ × ℕ)
  pub decode_cancelled : ℕ → PayloadMap remote.cbor → Option CancelFileDrop
  pub decode_advanced : ℕ → PayloadMap remote.cbor → Option (ℕ × ℕ × ℕ × ℕ)
  pub decode_status : ℕ → PayloadMap remote.cbor → Option FileDropStatus

-- A session as far as the requests ask it.
pub record DropSession : Type 0 where
  pub active : Bool
  pub supports_file_drop : Bool

unfoldable pub require_file_drop_profile : DropSession → Result Error (Unit {0})
require_file_drop_profile s = do
  refuse_if (not s.active) (control control_closed)
  refuse_if (not s.supports_file_drop) unsupported

module _ (rules : Rules) (w : DropWire rules) where
  -- A request of the profile with its payload.
  unfoldable pub ask :
      DropSession
      → ℕ
      → ℕ
      → Option (PayloadMap w.remote.cbor)
      → Answer w.remote
      → Result Error (Option (Reply w.remote))
  ask s record_type object_id payload answer = do
    require_file_drop_profile s
    body ← or_fail payload undecodable
    answer (record {
      record_type = record_type;
      object_id = object_id;
      payload = body;
      transaction_id = none;
      expected_target_generation = none;
    })

  -- A reply of the expected type for the object, decoded.
  unfoldable pub read_reply {ℓ} :
      {A : Type ℓ}
      → ℕ
      → ℕ
      → (ℕ → PayloadMap w.remote.cbor → Option A)
      → Reply w.remote
      → Result Error A
  read_reply expected object_id decode reply = do
    lift (expect_record reply.record_type reply.object_id expected object_id)
    payload ← decoded_payload w.remote reply
    or_fail (decode object_id payload) undecodable

  abbrev pub offline_grant : Binding rules → Grant rules
  offline_grant b = record {
    producer_epoch = b.producer_epoch;
    grant_generation = if rules.is_disabled b then 0 else 1;
    context_id = b.context_id;
    surface_id = b.surface_id;
    surface_generation = b.surface_generation;
    state = if rules.is_disabled b then disabled_state else enabled;
    destination = b.destination;
    limits = b.limits;
  }

  unfoldable pub set_file_drop_binding :
      DropSession → Binding rules → Answer w.remote → Result Error (Grant rules)
  set_file_drop_binding s b answer = do
    reply ← ask s w.set_binding_type b.surface_id (w.binding_payload b) answer
    elim reply [
      | none ↦ ok (offline_grant b)
      | some r ↦ read_reply w.bound_type b.surface_id w.decode_grant r
    ]

  -- The parts of `FileDropAccepted`: the drop, the transfer, its generation, and the time to open it.
  unfoldable pub accept_file_drop :
      DropSession → w.AcceptFileDrop → Answer w.remote → Result Error (ℕ × ℕ × ℕ × ℕ)
  accept_file_drop s a answer = do
    reply ← ask s w.accept_type (w.accept_drop_id a) (w.accept_payload a) answer
    elim reply [
      | none ↦
          ok (w.accept_drop_id a, w.accept_transfer_id a, w.accept_generation a, w.default_idle_us)
      | some r ↦ read_reply w.accepted_type (w.accept_drop_id a) w.decode_accepted r
    ]

  unfoldable pub expect_empty_ok : Reply w.remote → Result Error (Unit {0})
  expect_empty_ok reply = do
    payload ← decoded_payload w.remote reply
    refuse_if (not (length payload == 0)) malformed_ok

  unfoldable pub cancelled : w.CancelFileDrop → Reply w.remote → Result Error (Unit {0})
  cancelled c r = if r.record_type == w.remote.ok_type then expect_empty_ok r else (do
    echoed ← read_reply w.cancelled_type (w.cancel_drop_id c) w.decode_cancelled r
    ok tt)

  unfoldable pub cancel_file_drop :
      DropSession → w.CancelFileDrop → Answer w.remote → Result Error (Unit {0})
  cancel_file_drop s c answer = do
    reply ← ask s w.cancel_type (w.cancel_drop_id c) (w.cancel_payload c) answer
    elim reply [ none ↦ ok tt | some r ↦ cancelled c r ]

  -- The parts of `FileTransferAdvanced`: the transfer, its generation, the offset, and the time.
  unfoldable pub advance_file_transfer :
      DropSession → w.AdvanceFileTransfer → Answer w.remote → Result Error (ℕ × ℕ × ℕ × ℕ)
  advance_file_transfer s a answer = do
    reply ← ask s w.advance_type (w.advance_transfer_id a) (w.advance_payload a) answer
    elim reply [
      | none ↦ ok (
        w.advance_transfer_id a,
        w.advance_new_generation a,
        w.advance_committed_offset a,
        w.default_idle_us,
      )
      | some r ↦ read_reply w.advanced_type (w.advance_transfer_id a) w.decode_advanced r
    ]

  unfoldable pub query_file_drop :
      DropSession → w.QueryFileDrop → Answer w.remote → Result Error w.FileDropStatus
  query_file_drop s q answer = do
    reply ← ask s w.query_type (w.query_drop_id q) (w.query_payload q) answer
    r ← or_fail reply unsupported
    read_reply w.status_type (w.query_drop_id q) w.decode_status r

  exceeds_itself : (l : Limits) → exceeds l l ≡ false
  unfolding exceeds
  exceeds_itself l = ground arith

  -- The guard that made a binding takes the grant of a session without a presenter, and is enabled by
  -- it unless the binding disables.
  handle_bound-offline_grant :
      (h : Guard rules) (b : Binding rules)
      → h.requested ≡ some b
      → rules.same_destination b.destination b.destination ≡ true
      → handle_bound rules h (offline_grant b)
        ≡ ok (record h { grant = if rules.is_disabled b then none else some (offline_grant b) })
  unfolding handle_bound check_bound
  handle_bound-offline_grant h b asked same =
      let narrow = exceeds_itself b.limits in
      elim (Bool-cases (rules.is_disabled b)) [
        | inl off ↦ rw (asked, handle_bound) (ground arith)
        | inr on ↦ rw (asked, handle_bound) (ground arith)
      ]

  -- A grant of what a binding asks: the same identity, destination and limits; enabled under a
  -- generation, unless the binding disables.
  pub record GrantsWhole (b : Binding rules) (g : Grant rules) : Type 0 where
    pub epoch : g.producer_epoch ≡ b.producer_epoch
    pub context : g.context_id ≡ b.context_id
    pub surface : g.surface_id ≡ b.surface_id
    pub generation : g.surface_generation ≡ b.surface_generation
    pub same_place : g.destination ≡ b.destination
    pub same_limits : g.limits ≡ b.limits
    pub on : rules.is_disabled b ≡ false → (g.state ≡ enabled) × (g.grant_generation ≢ 0)
    pub off : rules.is_disabled b ≡ true → (g.state ≡ disabled_state) × (g.grant_generation ≡ 0)

  offline_grant-GrantsWhole : (b : Binding rules) → GrantsWhole b (offline_grant b)
  offline_grant-GrantsWhole b = record {
    epoch = refl;
    context = refl;
    surface = refl;
    generation = refl;
    same_place = refl;
    same_limits = refl;
    on = λ h. rw h (refl, omega arith);
    off = λ h. rw h (refl, refl);
  }

  -- Without a presenter, `set_file_drop_binding` grants what the binding asks, its identity, destination
  -- and limits, and the guard that made
  -- the binding takes the grant: it is enabled by it unless the binding disables. The profile was
  -- negotiated, the binding can be encoded, and a destination is the same as itself.
  pub set_file_drop_binding-offline :
      (s : DropSession) (h : Guard rules) (b : Binding rules) (body : PayloadMap w.remote.cbor)
      (answer : Answer w.remote)
      → s.active ≡ true
      → s.supports_file_drop ≡ true
      → w.binding_payload b ≡ some body
      → ((q : Request w.remote) → answer q ≡ ok none)
      → h.requested ≡ some b
      → rules.same_destination b.destination b.destination ≡ true
      → (g : Grant rules) × (set_file_drop_binding s b answer ≡ ok g)
        × GrantsWhole b g
        × (handle_bound rules h g
            ≡ ok (record h { grant = if rules.is_disabled b then none else some g }))
  unfolding set_file_drop_binding ask require_file_drop_profile
  set_file_drop_binding-offline s h b body answer alive supported encoded offline asked same = (
    offline_grant b,
    simp (alive, supported, encoded, offline),
    offline_grant-GrantsWhole b,
    handle_bound-offline_grant h b asked same,
  )
