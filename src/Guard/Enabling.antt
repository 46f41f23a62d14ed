-- ===== src/Guard/Enabling.antt =====
-- Binding requests of src/guard.rs: when `enable_for_context` succeeds, what it changes, and which
-- answers of the presenter are accepted after it.
use vivid_sdk.Prelude.{
  ◌+◌, ◌≤◌, ◌<◌, ℕ, ◌≡◌, ◌↔◌, true, false, some, List, [], ◌∷◌, arith, ok, err, u64_max,
}
use Prim.Native.Nat.{bit_and}
use vivid_sdk.Guard.{
  Monotonic, InputLimits, DesktopPreconditions, ActiveGrant, active, different_epoch, InputBinding,
  InputBindingStatus, Guard, Call, prepares, enables, disables, bounds, renews, revokes, releases,
  step, run, set_preconditions, enable_for_context, check_enable, disable, handle_bound,
  handle_renewal, handle_revocation, release, current_tag, has_unknown,
}

-- What a request needs.
pub record IsPermitted (l : InputLimits) (p : DesktopPreconditions)
    (context_id surface_generation classes watchdog_us reason : ℕ) : Type 0 where
  pub context : 0 < context_id
  pub some_class : 0 < classes
  pub known : has_unknown classes l.class_known_mask ≡ false
  pub above : l.min_watchdog_us ≤ watchdog_us
  pub below : watchdog_us ≤ l.max_watchdog_us
  pub registered : reason ≤ 7
  pub present : p.surface_present ≡ true
  pub current : surface_generation ≡ p.surface_generation
  pub presented : p.presented ≡ true
  pub live : p.lane_live ≡ true
  pub capable : 0 < bit_and classes p.capability_mask

module _ (m : Monotonic) (l : InputLimits) where
  check_enable-IsPermitted :
      (p : DesktopPreconditions) (c sg k w r : ℕ)
      → (check_enable m l p c sg k w r ≡ ok tt) ↔ IsPermitted l p c sg k w r
  unfolding check_enable
  check_enable-IsPermitted p c sg k w r = (λ h. ground arith, λ h. ground arith)

  -- The guard and the request after a successful enabling.
  abbrev pub enabled_guard : Guard m → ℕ → ℕ → ℕ → Guard m
  enabled_guard g c s sg = record g {
    epoch = g.epoch + 1;
    context_id = c;
    surface_id = s;
    surface_generation = sg;
  }

  abbrev pub enabled_binding : Guard m → ℕ → ℕ → ℕ → ℕ → ℕ → ℕ → InputBinding
  enabled_binding g c s sg k w r = record {
    producer_epoch = g.epoch + 1;
    context_id = c;
    surface_id = s;
    surface_generation = sg;
    requested_classes = k;
    reason = r;
    requested_watchdog_us = w;
  }

  -- A request succeeds exactly when every precondition holds and an epoch is left. It then takes the
  -- next epoch and the identity that it names, and leaves the grant, the deadline and the renewal
  -- sequence as they were.
  pub enable-ok_iff :
      (g : Guard m) (c s sg k w r : ℕ)
      → (enable_for_context m l g c s sg k w r
          ≡ ok (enabled_guard g c s sg, enabled_binding g c s sg k w r))
        ↔ (IsPermitted l g.preconditions c sg k w r × (g.epoch < u64_max))
  unfolding enable_for_context check_enable
  enable-ok_iff g c s sg k w r = (λ h. ground arith, λ h. ground arith)

  -- Nothing else comes out of a request that succeeds.
  enable-eq-ok :
      (g h : Guard m) (b : InputBinding) (c s sg k w r : ℕ)
      → enable_for_context m l g c s sg k w r ≡ ok (h, b)
      → (h ≡ enabled_guard g c s sg) × (b ≡ enabled_binding g c s sg k w r)
  unfolding enable_for_context check_enable
  enable-eq-ok g h b c s sg k w r e = ground arith

  step_epoch : (g : Guard m) (c : Call m) → g.epoch ≤ (step m l g c).epoch
  unfolding step set_preconditions enable_for_context disable handle_revocation release handle_bound
      handle_renewal
  step_epoch g (prepares p) = omega arith
  step_epoch g (enables c s sg k w r) = ground arith
  step_epoch g (disables r) = ground arith
  step_epoch g (bounds s) = ground arith
  step_epoch g (renews r now) = ground arith
  step_epoch g revokes = omega arith
  step_epoch g releases = omega arith

  run_epoch : (g : Guard m) (cs : List (Call m)) → g.epoch ≤ (run m l g cs).epoch
  unfolding run
  run_epoch g [] = omega arith
  run_epoch g (c ∷ cs) = omega (arith, step_epoch g c, run_epoch (step m l g c) cs)

  -- After a request succeeded, an answer to any earlier request is refused, whatever calls follow.
  pub stale_bound_refused :
      (g h : Guard m) (b : InputBinding) (c s sg k w r : ℕ) (cs : List (Call m))
      (answer : InputBindingStatus)
      → enable_for_context m l g c s sg k w r ≡ ok (h, b)
      → answer.producer_epoch < b.producer_epoch
      → handle_bound m l (run m l h cs) answer ≡ err different_epoch
  unfolding handle_bound
  stale_bound_refused g h b c s sg k w r cs answer e old =
      ground (arith, enable-eq-ok g h b c s sg k w r e, run_epoch h cs)

  -- After a request, and right after it an answer that enables it with valid fields, the guard then tags input with exactly the
  -- identity of the request and the generation of the grant.
  pub tag-bound-enable :
      (g h : Guard m) (b : InputBinding) (c s sg k w r : ℕ) (answer : InputBindingStatus)
      → enable_for_context m l g c s sg k w r ≡ ok (h, b)
      → answer.producer_epoch ≡ b.producer_epoch
      → answer.state ≡ 1
      → 0 < answer.effective_classes
      → 0 < answer.grant_generation
      → l.min_watchdog_us ≤ answer.watchdog_timeout_us
      → answer.watchdog_timeout_us ≤ l.max_watchdog_us
      → (k' : Guard m) × (handle_bound m l h answer ≡ ok k')
        × (current_tag m k'
            ≡ some (record {
              producer_epoch = b.producer_epoch;
              grant_generation = answer.grant_generation;
              context_id = c;
              surface_id = s;
              surface_generation = sg;
            }))
  unfolding handle_bound current_tag
  tag-bound-enable g h b c s sg k w r answer e same one classes generation above below = (
    record h {
      state = active (record {
        grant_generation = answer.grant_generation;
        effective_classes = answer.effective_classes;
        watchdog_timeout_us = answer.watchdog_timeout_us;
      });
    },
    ground (arith, enable-eq-ok g h b c s sg k w r e),
    ground (arith, enable-eq-ok g h b c s sg k w r e),
  )

  -- Enabling again while a grant is active: until the presenter answers, the guard tags input with
  -- the new epoch and identity, under the generation of the old grant.
  pub tag-enable_active :
      (g h : Guard m) (b : InputBinding) (a : ActiveGrant) (c s sg k w r : ℕ)
      → g.state ≡ active a
      → enable_for_context m l g c s sg k w r ≡ ok (h, b)
      → current_tag m h
        ≡ some (record {
          producer_epoch = g.epoch + 1;
          grant_generation = a.grant_generation;
          context_id = c;
          surface_id = s;
          surface_generation = sg;
        })
  unfolding current_tag
  tag-enable_active g h b a c s sg k w r e o = ground (arith, enable-eq-ok g h b c s sg k w r o)
