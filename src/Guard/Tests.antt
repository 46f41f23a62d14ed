-- ===== src/Guard/Tests.antt =====
-- The guard of src/guard.rs on a clock of microseconds, along its unit tests, and instances of its
-- theorems.
use vivid_sdk.Prelude.{ℕ, ◌≡◌, refl, true, false, none, some, [], ◌∷◌, arith, ok, err}
use vivid_sdk.Samples.{clock}
use vivid_sdk.Guard.{
  InputLimits, DesktopPreconditions, ActiveGrant, fresh, active, Error, old_sequence, InputBinding,
  InputBindingStatus, InputLeaseRenewal, Guard, prepares, enables, bounds, renews, releases, run,
  new, enable_for_context, check_enable, handle_bound, handle_renewal, is_expired, is_armed,
}
use vivid_sdk.Guard.Watchdog.{Inv, run-new-Inv}
use vivid_sdk.Guard.Renewals.{enabled, bound, replay_refused, expired_stays_expired}
use vivid_sdk.Guard.Enabling.{enabled_guard, enabled_binding}

abbrev limits : InputLimits
limits = record { class_known_mask = 15; min_watchdog_us = 100000; max_watchdog_us = 10000000 }

abbrev ready : DesktopPreconditions
ready = record {
  surface_present = true;
  surface_generation = 1;
  capability_mask = 3;
  presented = true;
  lane_live = true;
}

abbrev prepared_guard : Guard clock
prepared_guard = record {
  epoch = 0;
  state = fresh;
  context_id = 0;
  surface_id = 0;
  surface_generation = 0;
  watchdog_deadline = none;
  last_renewal_sequence = 0;
  preconditions = ready;
}

abbrev first_binding : InputBinding
first_binding = enabled_binding clock limits prepared_guard 1 7 1 1 1000000 0

abbrev requested : Guard clock
requested = enabled_guard clock limits prepared_guard 1 7 1

first_enable :
    enable_for_context clock limits prepared_guard 1 7 1 1 1000000 0 ≡ ok (requested, first_binding)
unfolding enable_for_context check_enable
first_enable = refl

abbrev answer : InputBindingStatus
answer = record {
  producer_epoch = 1;
  grant_generation = 5;
  context_id = 1;
  surface_id = 7;
  surface_generation = 1;
  effective_classes = 1;
  state = 1;
  reason = 0;
  watchdog_timeout_us = 1000000;
}

abbrev first_grant : ActiveGrant
first_grant = record { grant_generation = 5; effective_classes = 1; watchdog_timeout_us = 1000000 }

abbrev granted : Guard clock
granted = record requested { state = active first_grant }

first_bound : handle_bound clock limits requested answer ≡ ok granted
unfolding handle_bound
first_bound = refl

abbrev renewal : ℕ → InputLeaseRenewal
renewal n = record {
  binding = record {
    producer_epoch = 1;
    grant_generation = 5;
    context_id = 1;
    surface_id = 7;
    surface_generation = 1;
  };
  renewal_sequence = n;
  watchdog_timeout_us = 1000000;
}

abbrev armed : Guard clock
armed = record granted { last_renewal_sequence = 1; watchdog_deadline = some 1000000 }

first_renewal : handle_renewal clock granted (renewal 1) 0 ≡ ok armed
unfolding handle_renewal
first_renewal = refl

reordered_refused : handle_renewal clock armed (renewal 1) 100 ≡ err old_sequence
unfolding handle_renewal
reordered_refused = refl

run-new-Inv_example : Inv clock limits (
    run clock limits
      (new clock)
      (prepares ready ∷ enables 1 7 1 1 1000000 0 ∷ bounds answer ∷ renews (renewal 1) 0 ∷ []))
run-new-Inv_example =
    run-new-Inv clock limits
      (prepares ready ∷ enables 1 7 1 1 1000000 0 ∷ bounds answer ∷ renews (renewal 1) 0 ∷ [])

replay_refused_example :
    (e : Error) × (handle_renewal clock
        (run clock limits armed (
          releases
          ∷ enables 1 7 1 1 1000000 0
          ∷ bounds (record answer { producer_epoch = 2 })
          ∷ []))
        (renewal 1)
        20
      ≡ err e)
replay_refused_example =
    replay_refused clock limits granted armed (renewal 1) 0
      (releases ∷ enables 1 7 1 1 1000000 0 ∷ bounds (record answer { producer_epoch = 2 }) ∷ [])
      (renewal 1) 20 first_renewal (omega arith)

armed_expires : is_expired clock armed 1000000 ≡ true
unfolding is_expired
armed_expires = refl

expired_stays_expired_example :
    let g = run clock limits armed (
      enables 1 7 1 1 1000000 0
      ∷ bounds (record answer { producer_epoch = 2; grant_generation = 6 })
      ∷ []) in
    (is_armed clock g 1000001 ≡ false)
    × ((e : Error) × (handle_renewal clock g (renewal 2) 1000001 ≡ err e))
expired_stays_expired_example =
    expired_stays_expired clock limits armed 1000000
      (enables 1 7 1 1 1000000 0
        ∷ bounds (record answer { producer_epoch = 2; grant_generation = 6 })
        ∷ [])
      1000001 (renewal 2) armed_expires
      (
        enabled 1 7 1 1 1000000 0,
        (bound (record answer { producer_epoch = 2; grant_generation = 6 }) refl, tt),
      )
      refl

second_enable :
    enable_for_context clock limits armed 1 8 1 1 1000000 0
    ≡ ok (
      enabled_guard clock limits armed 1 8 1,
      enabled_binding clock limits armed 1 8 1 1 1000000 0,
    )
unfolding enable_for_context check_enable
second_enable = refl
