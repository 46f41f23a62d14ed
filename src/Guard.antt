-- ===== src/Guard.antt =====
-- src/guard.rs, `InputBindingGuard`, with the wire values of src/input.rs that it reads. The clock
-- and the limits of the input protocol are those of another crate, and are parameters.
pub mod Watchdog
pub mod Renewals
pub mod Enabling
mod Tests
use vivid_sdk.Prelude.{
  ◌+◌, ◌-◌, ◌*◌, ◌/◌, ◌%◌, ◌^◌, ◌≤◌, ◌<◌, min, max, ℕ, zero, suc, ◌≡◌, refl, sym, ap, ◌∙◌, ◌≢◌, ◌↔◌,
  ◌⊎◌, inl, inr, Bool, true, false, not, ◌&&◌, ◌||◌, Option, none, some, List, [], ◌∷◌, ◌++◌, map,
  arith, ltb, leb, ◌==◌, if◌then◌else◌, ltb→lt, lt→ltb, leb→le, ==_iff, Bool-cases, Option-cases,
  length, get_elem?, All, length-append, get_elem?-some, Result, ok, err, Result-cases, ◌>>=◌, ◌>>◌,
  refuse_if, or_fail, u32_max, u64_max, saturating_add, saturating_mul, checked_add, duration_max,
  add_duration, as_micros,
}
use Prim.Native.Nat.{bit_and, bit_xor}

-- The monotonic clock: `at_least now d` is `now >= d`.
pub record Monotonic : Type 1 where
  pub Time : Type 0
  pub at_least : Time → Time → Bool
  pub checked_add_micros : Time → ℕ → Option Time
  -- The order is transitive, and a positive time later is later.
  pub at_least_trans :
      (a b c : Time) → at_least a b ≡ true → at_least b c ≡ true → at_least a c ≡ true
  pub checked_add_later :
      (t d : Time) (us : ℕ) → 0 < us → checked_add_micros t us ≡ some d → at_least t d ≡ false

pub record InputLimits : Type 0 where
  pub class_known_mask : ℕ
  pub min_watchdog_us : ℕ
  pub max_watchdog_us : ℕ

pub record DesktopPreconditions : Type 0 where
  pub surface_present : Bool
  pub surface_generation : ℕ
  pub capability_mask : ℕ
  pub presented : Bool
  pub lane_live : Bool

abbrev pub no_preconditions : DesktopPreconditions
no_preconditions = record {
  surface_present = false;
  surface_generation = 0;
  capability_mask = 0;
  presented = false;
  lane_live = false;
}

pub record ActiveGrant : Type 0 where
  pub grant_generation : ℕ
  pub effective_classes : ℕ
  pub watchdog_timeout_us : ℕ

pub data GuardState : Type 0 where
  fresh : GuardState
  active : ActiveGrant → GuardState
  inactive : GuardState

pub record InputTuple : Type 0 where
  pub producer_epoch : ℕ
  pub grant_generation : ℕ
  pub context_id : ℕ
  pub surface_id : ℕ
  pub surface_generation : ℕ

pub record InputBinding : Type 0 where
  pub producer_epoch : ℕ
  pub context_id : ℕ
  pub surface_id : ℕ
  pub surface_generation : ℕ
  pub requested_classes : ℕ
  pub reason : ℕ
  pub requested_watchdog_us : ℕ

pub record InputBindingStatus : Type 0 where
  pub producer_epoch : ℕ
  pub grant_generation : ℕ
  pub context_id : ℕ
  pub surface_id : ℕ
  pub surface_generation : ℕ
  pub effective_classes : ℕ
  pub state : ℕ
  pub reason : ℕ
  pub watchdog_timeout_us : ℕ

pub record InputLeaseRenewal : Type 0 where
  pub binding : InputTuple
  pub renewal_sequence : ℕ
  pub watchdog_timeout_us : ℕ

-- One for each message; `epoch_wrapped` is the panic of `advance_epoch`, and `unreachable` that of
-- `handle_bound`.
pub data Error : Type 0 where
  zero_context unassigned_classes watchdog_range unknown_reason : Error
  no_surface generation_mismatch not_presented lane_down outside_capability : Error
  different_epoch unknown_state no_effective_classes invalid_grant : Error
  no_active_grant zero_sequence old_sequence changed_watchdog late_renewal time_overflow : Error
  epoch_wrapped unreachable : Error

-- `classes & !INPUT_CLASS_KNOWN_MASK != 0` on 64 bits.
abbrev pub has_unknown : ℕ → ℕ → Bool
has_unknown classes mask = not (bit_and classes (bit_xor mask u64_max) == 0)

abbrev pub in_watchdog_range : InputLimits → ℕ → Bool
in_watchdog_range l us = leb l.min_watchdog_us us && leb us l.max_watchdog_us

module _ (m : Monotonic) where
  open m use {Time, at_least, checked_add_micros}

  pub record Guard : Type 0 where
    pub epoch : ℕ
    pub state : GuardState
    pub context_id : ℕ
    pub surface_id : ℕ
    pub surface_generation : ℕ
    pub watchdog_deadline : Option Time
    pub last_renewal_sequence : ℕ
    pub preconditions : DesktopPreconditions

  pub new : Guard
  new = record {
    epoch = 0;
    state = fresh;
    context_id = 0;
    surface_id = 0;
    surface_generation = 0;
    watchdog_deadline = none;
    last_renewal_sequence = 0;
    preconditions = no_preconditions;
  }

  pub set_preconditions : Guard → DesktopPreconditions → Guard
  set_preconditions g p = record g { preconditions = p }

  abbrev grant_of : GuardState → Option ActiveGrant
  grant_of fresh = none
  grant_of (active a) = some a
  grant_of inactive = none

  pub grant : Guard → Option ActiveGrant
  grant g = grant_of g.state

  abbrev past : Option Time → Time → Bool
  past none now = false
  past (some d) now = at_least now d

  pub is_expired : Guard → Time → Bool
  is_expired g now = past g.watchdog_deadline now

  abbrev is_active : GuardState → Bool
  is_active fresh = false
  is_active (active a) = true
  is_active inactive = false

  pub is_armed : Guard → Time → Bool
  unfolding is_expired
  is_armed g now = is_active g.state && not (is_expired g now)

  tag_of : Guard → GuardState → Option InputTuple
  tag_of g fresh = none
  tag_of g (active a) = some (record {
    producer_epoch = g.epoch;
    grant_generation = a.grant_generation;
    context_id = g.context_id;
    surface_id = g.surface_id;
    surface_generation = g.surface_generation;
  })
  tag_of g inactive = none

  pub current_tag : Guard → Option InputTuple
  unfolding tag_of
  current_tag g = tag_of g g.state

  pub advance_epoch : Guard → Result Error Guard
  advance_epoch g =
      if leb (g.epoch + 1) u64_max then ok (record g { epoch = g.epoch + 1 }) else err epoch_wrapped

  pub release : Guard → Guard
  release g = record g { state = inactive; watchdog_deadline = none }

  pub handle_revocation : Guard → Guard
  unfolding release
  handle_revocation g = release g

  pub disable : Guard → ℕ → Result Error (Guard × InputBinding)
  unfolding advance_epoch
  disable g reason = do
    h ← advance_epoch g
    ok (
      record h { state = inactive; watchdog_deadline = none },
      record {
        producer_epoch = h.epoch;
        context_id = 0;
        surface_id = 0;
        surface_generation = 0;
        requested_classes = 0;
        reason = reason;
        requested_watchdog_us = 0;
      },
    )

  -- The checks of `enable_for_context`, in their order.
  pub check_enable :
      InputLimits → DesktopPreconditions → ℕ → ℕ → ℕ → ℕ → ℕ → Result Error (Unit {0})
  check_enable l p context_id surface_generation classes watchdog_us reason = do
    refuse_if (context_id == 0) zero_context
    refuse_if (classes == 0 || has_unknown classes l.class_known_mask) unassigned_classes
    refuse_if (not (in_watchdog_range l watchdog_us)) watchdog_range
    refuse_if (ltb 7 reason) unknown_reason
    refuse_if (not p.surface_present) no_surface
    refuse_if (not (surface_generation == p.surface_generation)) generation_mismatch
    refuse_if (not p.presented) not_presented
    refuse_if (not p.lane_live) lane_down
    refuse_if (bit_and classes p.capability_mask == 0) outside_capability

  pub enable_for_context :
      InputLimits → Guard → ℕ → ℕ → ℕ → ℕ → ℕ → ℕ → Result Error (Guard × InputBinding)
  unfolding advance_epoch
  enable_for_context l g context_id surface_id surface_generation classes watchdog_us reason = do
    check_enable l g.preconditions context_id surface_generation classes watchdog_us reason
    h ← advance_epoch g
    ok (
      record h {
        context_id = context_id;
        surface_id = surface_id;
        surface_generation = surface_generation;
      },
      record {
        producer_epoch = h.epoch;
        context_id = context_id;
        surface_id = surface_id;
        surface_generation = surface_generation;
        requested_classes = classes;
        reason = reason;
        requested_watchdog_us = watchdog_us;
      },
    )

  pub enable : InputLimits → Guard → ℕ → ℕ → ℕ → ℕ → ℕ → Result Error (Guard × InputBinding)
  enable l g = enable_for_context l g 1

  -- The match on `status.state`.
  unfoldable pub bind_state : InputLimits → Guard → InputBindingStatus → Result Error Guard
  unfolding release
  bind_state l g s =
      if s.state == 0
      then ok (release g)
      else if s.state == 1
      then if s.effective_classes == 0
          || s.grant_generation == 0
          || not (in_watchdog_range l s.watchdog_timeout_us)
        then err invalid_grant
        else ok (record g {
          state = active (record {
            grant_generation = s.grant_generation;
            effective_classes = s.effective_classes;
            watchdog_timeout_us = s.watchdog_timeout_us;
          });
        })
      else if s.state == 2
      then ok (release g)
      else err unreachable

  unfoldable pub handle_bound : InputLimits → Guard → InputBindingStatus → Result Error Guard
  unfolding bind_state
  handle_bound l g s = do
    refuse_if (not (s.producer_epoch == g.epoch)) different_epoch
    refuse_if (ltb 2 s.state) unknown_state
    refuse_if (s.effective_classes == 0 && s.state == 1) no_effective_classes
    bind_state l g s

  pub handle_renewal : Guard → InputLeaseRenewal → Time → Result Error Guard
  unfolding is_expired grant
  handle_renewal g r now = do
    a ← or_fail (grant g) no_active_grant
    refuse_if (r.renewal_sequence == 0) zero_sequence
    refuse_if (leb r.renewal_sequence g.last_renewal_sequence) old_sequence
    refuse_if (not (r.watchdog_timeout_us == a.watchdog_timeout_us)) changed_watchdog
    refuse_if (is_expired g now) late_renewal
    deadline ← or_fail (checked_add_micros now r.watchdog_timeout_us) time_overflow
    ok (record g { last_renewal_sequence = r.renewal_sequence; watchdog_deadline = some deadline })

  -- One call on a guard, with what it is given.
  pub data Call : Type 0 where
    prepares : DesktopPreconditions → Call
    enables : ℕ → ℕ → ℕ → ℕ → ℕ → ℕ → Call
    disables : ℕ → Call
    bounds : InputBindingStatus → Call
    renews : InputLeaseRenewal → Time → Call
    revokes : Call
    releases : Call

  -- A call that fails leaves the guard as it was.
  abbrev after : Guard → Result Error Guard → Guard
  after g (ok h) = h
  after g (err e) = g

  abbrev after_request : Guard → Result Error (Guard × InputBinding) → Guard
  after_request g (ok (h, b)) = h
  after_request g (err e) = g

  pub step : InputLimits → Guard → Call → Guard
  step l g (prepares p) = set_preconditions g p
  step l g (enables c s sg k w r) = after_request g (enable_for_context l g c s sg k w r)
  step l g (disables r) = after_request g (disable g r)
  step l g (bounds s) = after g (handle_bound l g s)
  step l g (renews r now) = after g (handle_renewal g r now)
  step l g revokes = handle_revocation g
  step l g releases = release g

  pub run : InputLimits → Guard → List Call → Guard
  run l g [] = g
  run l g (c ∷ cs) = run l (step l g c) cs
