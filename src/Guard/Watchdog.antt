-- ===== src/Guard/Watchdog.antt =====
-- The invariant of the guard of src/guard.rs under every call, and the calls that end a grant.
use vivid_sdk.Prelude.{
  ◌≤◌, ◌<◌, ℕ, ◌≡◌, refl, ◌⊎◌, false, Option, none, some, List, [], ◌∷◌, arith, u64_max,
}
use vivid_sdk.Guard.{
  Monotonic, InputLimits, GuardState, fresh, active, inactive, InputBindingStatus,
  InputLeaseRenewal, Guard, Call, prepares, enables, disables, bounds, renews, revokes, releases,
  new, step, run, set_preconditions, enable_for_context, disable, handle_bound, handle_renewal,
  handle_revocation, release, grant, is_armed, current_tag,
}

abbrev IsValidState : InputLimits → GuardState → Type 0
IsValidState l fresh = Unit
IsValidState l (active a) =
    (0 < a.grant_generation)
    × (0 < a.effective_classes)
    × (l.min_watchdog_us ≤ a.watchdog_timeout_us)
    × (a.watchdog_timeout_us ≤ l.max_watchdog_us)
IsValidState l inactive = Unit

module _ (m : Monotonic) (l : InputLimits) where
  abbrev HasGrant : Option m.Time → GuardState → Type 0
  HasGrant none s = Unit
  HasGrant (some d) fresh = ⊥
  HasGrant (some d) (active a) = Unit
  HasGrant (some d) inactive = ⊥

  pub record Inv (g : Guard m) : Type 0 where
    pub valid : IsValidState l g.state
    pub deadline : HasGrant g.watchdog_deadline g.state
    pub epoch : g.epoch ≤ u64_max

  bound-Inv : (g : Guard m) (s : InputBindingStatus) → Inv g → Inv (step m l g (bounds s))
  unfolding step handle_bound
  bound-Inv g s v = ground arith

  renewal-Inv :
      (g : Guard m) (r : InputLeaseRenewal) (now : m.Time) → Inv g → Inv (step m l g (renews r now))
  unfolding step handle_renewal
  renewal-Inv g r now v = ground arith

  step-Inv : (g : Guard m) (c : Call m) → Inv g → Inv (step m l g c)
  unfolding step set_preconditions enable_for_context disable handle_revocation release
  step-Inv g (prepares p) v = record { valid = v.valid; deadline = v.deadline; epoch = v.epoch }
  step-Inv g (enables c s sg k w r) v = ground arith
  step-Inv g (disables r) v = ground arith
  step-Inv g (bounds s) v = bound-Inv g s v
  step-Inv g (renews r now) v = renewal-Inv g r now v
  step-Inv g revokes v = record { valid = tt; deadline = tt; epoch = v.epoch }
  step-Inv g releases v = record { valid = tt; deadline = tt; epoch = v.epoch }

  run-Inv : (g : Guard m) (cs : List (Call m)) → Inv g → Inv (run m l g cs)
  unfolding run
  run-Inv g [] v = v
  run-Inv g (c ∷ cs) v = run-Inv (step m l g c) cs (step-Inv g c v)

  new-Inv : Inv (new m)
  unfolding new
  new-Inv = record { valid = tt; deadline = tt; epoch = omega arith }

  -- After any calls on a new guard: an active grant has a nonzero generation, some classes and a
  -- watchdog in the registered range; a deadline stands only while a grant is active; and the epoch
  -- is a 64-bit number.
  pub run-new-Inv : (cs : List (Call m)) → Inv (run m l (new m) cs)
  run-new-Inv cs = run-Inv (new m) cs new-Inv

  -- The calls that end a grant: a disabling, a revocation, a release, an answer of state 0 or 2.
  pub data Ends : Guard m → Call m → Type 0 where
    disabled : {g : Guard m} (reason : ℕ) → g.epoch < u64_max → Ends g (disables reason)
    revoked : {g : Guard m} → Ends g revokes
    released : {g : Guard m} → Ends g releases
    unbound :
        {g : Guard m} (s : InputBindingStatus)
        → s.producer_epoch ≡ g.epoch
        → (s.state ≡ 0) ⊎ (s.state ≡ 2)
        → Ends g (bounds s)

  -- Each call that ends a grant leaves a guard that is armed at no time and that tags no input.
  pub Ends-fail_closed :
      {g : Guard m} {c : Call m} (now : m.Time)
      → Ends g c
      → (is_armed m (step m l g c) now ≡ false)
        × (current_tag m (step m l g c) ≡ none)
        × (grant m (step m l g c) ≡ none)
  unfolding step disable handle_revocation release handle_bound is_armed current_tag grant
  Ends-fail_closed now (disabled {g} reason room) = ground arith
  Ends-fail_closed now revoked = (refl, refl, refl)
  Ends-fail_closed now released = (refl, refl, refl)
  Ends-fail_closed now (unbound {g} s same over) = ground arith
