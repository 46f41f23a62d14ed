-- ===== src/Guard/Renewals.antt =====
-- Renewals of the watchdog of src/guard.rs, after an accepted renewal and after the deadline.
use vivid_sdk.Prelude.{
  ◌≤◌, ◌<◌, ℕ, ◌≡◌, ◌≢◌, inl, inr, true, false, List, [], ◌∷◌, arith, Option-cases, ok, err,
  Result-cases, refused,
}
use vivid_sdk.Guard.{
  Monotonic, InputLimits, DesktopPreconditions, Error, InputBindingStatus, InputLeaseRenewal, Guard,
  Call, prepares, enables, disables, bounds, renews, revokes, releases, step, run,
  set_preconditions, enable_for_context, disable, handle_bound, handle_renewal, handle_revocation,
  release, is_expired, is_armed,
}

module _ (m : Monotonic) (l : InputLimits) where
  step_sequence :
      (g : Guard m) (c : Call m) → g.last_renewal_sequence ≤ (step m l g c).last_renewal_sequence
  unfolding step set_preconditions enable_for_context disable handle_revocation release handle_bound
      handle_renewal
  step_sequence g (prepares p) = omega arith
  step_sequence g (enables c s sg k w r) = ground arith
  step_sequence g (disables r) = ground arith
  step_sequence g (bounds s) = ground arith
  step_sequence g (renews r now) = ground arith
  step_sequence g revokes = omega arith
  step_sequence g releases = omega arith

  run_sequence :
      (g : Guard m) (cs : List (Call m))
      → g.last_renewal_sequence ≤ (run m l g cs).last_renewal_sequence
  unfolding run
  run_sequence g [] = omega arith
  run_sequence g (c ∷ cs) = omega (arith, step_sequence g c, run_sequence (step m l g c) cs)

  renewal_sequence_lem :
      (g h : Guard m) (r : InputLeaseRenewal) (now : m.Time)
      → handle_renewal m g r now ≡ ok h
      → h.last_renewal_sequence ≡ r.renewal_sequence
  unfolding handle_renewal
  renewal_sequence_lem g h r now e = ground arith

  old_sequence_refused :
      (g : Guard m) (r : InputLeaseRenewal) (now : m.Time)
      → r.renewal_sequence ≤ g.last_renewal_sequence
      → (h : Guard m) → handle_renewal m g r now ≢ ok h
  unfolding handle_renewal
  old_sequence_refused g r now le h e = ground arith

  -- Once a renewal was accepted, neither it nor an older one is accepted again, whatever calls come
  -- between: also under a new epoch and a new grant.
  pub replay_refused :
      (g h : Guard m) (r : InputLeaseRenewal) (now : m.Time) (cs : List (Call m))
      (old : InputLeaseRenewal) (later : m.Time)
      → handle_renewal m g r now ≡ ok h
      → old.renewal_sequence ≤ r.renewal_sequence
      → (e : Error) × (handle_renewal m (run m l h cs) old later ≡ err e)
  replay_refused g h r now cs old later e le = refused (handle_renewal m (run m l h cs) old later) (
      old_sequence_refused (run m l h cs) old later
        (omega (arith, renewal_sequence_lem g h r now e, run_sequence h cs)))

  -- A renewal with a timeout that is accepted arms the guard, with the deadline its timeout from now;
  -- it came before the old deadline, moved the sequence forward, and leaves grant and epoch alone.
  pub renewal_arms :
      (g h : Guard m) (r : InputLeaseRenewal) (now : m.Time)
      → 0 < r.watchdog_timeout_us
      → handle_renewal m g r now ≡ ok h
      → (is_armed m h now ≡ true)
        × (is_expired m g now ≡ false)
        × (g.last_renewal_sequence < r.renewal_sequence)
        × (h.state ≡ g.state)
        × (h.epoch ≡ g.epoch)
        × (h.watchdog_deadline ≡ m.checked_add_micros now r.watchdog_timeout_us)
  unfolding handle_renewal is_armed
  renewal_arms g h r now pos e =
      elim (Option-cases (m.checked_add_micros now r.watchdog_timeout_us)) [
        | inl overflow ↦ absurd (ground arith)
        | inr (d, sum) ↦ ground (arith, m.checked_add_later now d r.watchdog_timeout_us pos sum)
      ]

  -- The calls that do not end a grant, with every renewal at `t` or later.
  pub data Keeps (t : m.Time) : Call m → Type 0 where
    prepared : (p : DesktopPreconditions) → Keeps t (prepares p)
    enabled : (c s sg k w r : ℕ) → Keeps t (enables c s sg k w r)
    bound : (s : InputBindingStatus) → s.state ≡ 1 → Keeps t (bounds s)
    renewed :
        (r : InputLeaseRenewal) (now : m.Time) → m.at_least now t ≡ true → Keeps t (renews r now)

  expired_later :
      (g : Guard m) (t now : m.Time)
      → is_expired m g t ≡ true
      → m.at_least now t ≡ true
      → is_expired m g now ≡ true
  unfolding is_expired
  expired_later g t now ex later = elim (Option-cases g.watchdog_deadline) [
    | inl none_set ↦ ground arith
    | inr (d, e) ↦ ground (arith, m.at_least_trans now t d)
  ]

  late_refused :
      (g : Guard m) (r : InputLeaseRenewal) (now : m.Time)
      → is_expired m g now ≡ true
      → (e : Error) × (handle_renewal m g r now ≡ err e)
  unfolding handle_renewal
  late_refused g r now ex = elim (Result-cases (handle_renewal m g r now)) [
    | inl (h, e) ↦ absurd (ground arith)
    | inr x ↦ x
  ]

  step_expired :
      (g : Guard m) (t : m.Time) (c : Call m)
      → Keeps t c
      → is_expired m g t ≡ true
      → is_expired m (step m l g c) t ≡ true
  unfolding step set_preconditions enable_for_context handle_bound is_expired
  step_expired g t _ (prepared p) ex = ex
  step_expired g t _ (enabled c s sg k w r) ex = ground arith
  step_expired g t _ (bound s one) ex = ground arith
  step_expired g t _ (renewed r now later) ex =
      let (e, refused) = late_refused g r now (expired_later g t now ex later) in rw refused ex

  abbrev pub AllKeep : m.Time → List (Call m) → Type 0
  AllKeep t [] = Unit
  AllKeep t (c ∷ cs) = Keeps t c × AllKeep t cs

  run_expired :
      (g : Guard m) (t : m.Time) (cs : List (Call m))
      → AllKeep t cs
      → is_expired m g t ≡ true
      → is_expired m (run m l g cs) t ≡ true
  unfolding run
  run_expired g t [] keeps ex = ex
  run_expired g t (c ∷ cs) keeps ex =
      run_expired (step m l g c) t cs keeps.1 (step_expired g t c keeps.0 ex)

  -- Once the watchdog ran out at `t`, the guard is armed at no later time and accepts no later
  -- renewal, until a call ends the grant: no renewal at `t` or later arms it again. Nor does a new
  -- enabling, even where the presenter then binds it a new grant: the old deadline stays.
  pub expired_stays_expired :
      (g : Guard m) (t : m.Time) (cs : List (Call m)) (now : m.Time) (r : InputLeaseRenewal)
      → is_expired m g t ≡ true
      → AllKeep t cs
      → m.at_least now t ≡ true
      → (is_armed m (run m l g cs) now ≡ false)
        × ((e : Error) × (handle_renewal m (run m l g cs) r now ≡ err e))
  unfolding is_armed
  expired_stays_expired g t cs now r ex keeps later =
      let over = expired_later (run m l g cs) t now (run_expired g t cs keeps ex) later in
      (ground arith, late_refused (run m l g cs) r now over)
