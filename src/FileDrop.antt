-- ===== src/FileDrop.antt =====
-- `FileDropBindingGuard` of src/file_drop.rs: the producer's side of one file-drop binding.
pub mod Grants
pub mod Epochs
pub mod Requests
mod Tests
use vivid_sdk.Prelude.{
  ◌+◌, ◌-◌, ◌*◌, ◌/◌, ◌%◌, ◌^◌, ◌≤◌, ◌<◌, min, max, ℕ, zero, suc, ◌≡◌, refl, sym, ap, ◌∙◌, ◌≢◌, ◌↔◌,
  ◌⊎◌, inl, inr, Bool, true, false, not, ◌&&◌, ◌||◌, Option, none, some, List, [], ◌∷◌, ◌++◌, map,
  arith, ltb, leb, ◌==◌, if◌then◌else◌, ltb→lt, lt→ltb, leb→le, ==_iff, Bool-cases, Option-cases,
  length, get_elem?, All, length-append, get_elem?-some, Result, ok, err, Result-cases, refused,
  ◌>>=◌, ◌>>◌, refuse_if, or_fail, u32_max, u64_max, saturating_add, saturating_mul, checked_add,
  duration_max, add_duration, as_micros,
}

-- The limits that a binding asks for and a grant narrows.
pub record Limits : Type 0 where
  pub maximum_file_bytes : ℕ
  pub maximum_pending_offers : ℕ
  pub maximum_active_transfers : ℕ
  pub maximum_record_body : ℕ
  pub acceptance_timeout_us : ℕ
  pub idle_timeout_us : ℕ

abbrev pub no_limits : Limits
no_limits = record {
  maximum_file_bytes = 0;
  maximum_pending_offers = 0;
  maximum_active_transfers = 0;
  maximum_record_body = 0;
  acceptance_timeout_us = 0;
  idle_timeout_us = 0;
}

pub record FileDropBinding (Destination : Type 0) : Type 0 where
  pub producer_epoch : ℕ
  pub context_id : ℕ
  pub surface_id : ℕ
  pub surface_generation : ℕ
  pub destination : Option Destination
  pub limits : Limits

pub data FileDropBindingState : Type 0 where
  enabled : FileDropBindingState
  disabled_state : FileDropBindingState
  other_state : ℕ → FileDropBindingState

pub record FileDropGrant (Destination : Type 0) : Type 0 where
  pub producer_epoch : ℕ
  pub grant_generation : ℕ
  pub context_id : ℕ
  pub surface_id : ℕ
  pub surface_generation : ℕ
  pub state : FileDropBindingState
  pub destination : Option Destination
  pub limits : Limits

-- What the guard uses of the protocol crate: the check and the kind of a binding, the comparison of
-- destinations, and the step of an epoch.
pub record Rules : Type 1 where
  pub Destination : Type 0
  pub same_destination : Option Destination → Option Destination → Bool
  pub same_destination_eq : (a b : Option Destination) → same_destination a b ≡ true → a ≡ b
  pub validate : FileDropBinding Destination → ℕ → Bool
  pub is_disabled : FileDropBinding Destination → Bool
  pub advance : ℕ → Option ℕ
  pub advance_next : (n k : ℕ) → advance n ≡ some k → k ≡ n + 1

pub data Error : Type 0 where
  epoch_exhausted invalid_binding not_enabled no_request : Error
  different_identity live_grant not_narrowed : Error

abbrev pub is_enabled : FileDropBindingState → Bool
is_enabled enabled = true
is_enabled disabled_state = false
is_enabled (other_state n) = false

abbrev pub is_disabled_state : FileDropBindingState → Bool
is_disabled_state enabled = false
is_disabled_state disabled_state = true
is_disabled_state (other_state n) = false

-- Some limit of the grant is above the requested one.
pub exceeds : Limits → Limits → Bool
exceeds g b =
    ltb b.maximum_file_bytes g.maximum_file_bytes
    || ltb b.maximum_pending_offers g.maximum_pending_offers
    || ltb b.maximum_active_transfers g.maximum_active_transfers
    || ltb b.maximum_record_body g.maximum_record_body
    || ltb b.acceptance_timeout_us g.acceptance_timeout_us
    || ltb b.idle_timeout_us g.idle_timeout_us

module _ (rules : Rules) where
  abbrev pub Binding : Type 0
  Binding = FileDropBinding rules.Destination

  abbrev pub Grant : Type 0
  Grant = FileDropGrant rules.Destination

  pub record Guard : Type 0 where
    pub epoch : ℕ
    pub requested : Option Binding
    pub grant : Option Grant

  pub new : Guard
  new = record { epoch = 0; requested = none; grant = none }

  -- The epoch stays advanced where the check of the binding fails.
  pub enable : Guard → ℕ → ℕ → ℕ → rules.Destination → Limits → Guard × Result Error Binding
  enable g context_id surface_id surface_generation destination limits =
      elim (rules.advance g.epoch) [
        | none ↦ (g, err epoch_exhausted)
        | some epoch ↦
            let binding : Binding = record {
              producer_epoch = epoch;
              context_id = context_id;
              surface_id = surface_id;
              surface_generation = surface_generation;
              destination = some destination;
              limits = limits;
            } in
            if rules.validate binding surface_id
            then (record { epoch = epoch; requested = some binding; grant = none }, ok binding)
            else (record g { epoch = epoch }, err invalid_binding)
      ]

  abbrev pub disable_current : Guard → Option Binding → Guard × Result Error Binding
  disable_current g none = (g, err not_enabled)
  disable_current g (some current) =
      if rules.is_disabled current then (g, err not_enabled) else (elim (rules.advance g.epoch) [
        | none ↦ (g, err epoch_exhausted)
        | some epoch ↦
            let binding : Binding = record {
              producer_epoch = epoch;
              context_id = current.context_id;
              surface_id = current.surface_id;
              surface_generation = current.surface_generation;
              destination = none;
              limits = no_limits;
            } in
            (record { epoch = epoch; requested = some binding; grant = none }, ok binding)
      ])

  pub disable : Guard → Guard × Result Error Binding
  disable g = disable_current g g.requested

  pub check_bound : Binding → Grant → Result Error (Unit {0})
  unfolding exceeds
  check_bound b s = do
    refuse_if
        (not (s.producer_epoch == b.producer_epoch)
          || not (s.context_id == b.context_id)
          || not (s.surface_id == b.surface_id)
          || not (s.surface_generation == b.surface_generation))
        different_identity
    if rules.is_disabled b
        then refuse_if (not (is_disabled_state s.state) || not (s.grant_generation == 0)) live_grant
        else refuse_if
            (is_enabled s.state
              && (s.grant_generation == 0
                  || not (rules.same_destination s.destination b.destination)
                  || exceeds s.limits b.limits))
            not_narrowed

  pub handle_bound : Guard → Grant → Result Error Guard
  unfolding check_bound
  handle_bound g s = do
    b ← or_fail g.requested no_request
    check_bound b s
    ok (record g { grant = if is_enabled s.state then some s else none })

  pub release : Guard → Guard
  release g = record g { requested = none; grant = none }

  pub data Call : Type 0 where
    enables : ℕ → ℕ → ℕ → rules.Destination → Limits → Call
    disables releases : Call
    bounds : Grant → Call

  abbrev after : Guard → Result Error Guard → Guard
  after g (ok h) = h
  after g (err e) = g

  pub step : Guard → Call → Guard
  step g (enables c s sg d l) = (enable g c s sg d l).0
  step g disables = (disable g).0
  step g (bounds s) = after g (handle_bound g s)
  step g releases = release g

  pub run : Guard → List Call → Guard
  run g [] = g
  run g (c ∷ cs) = run (step g c) cs
