-- ===== src/FileDrop/Epochs.antt =====
-- Late grants of src/file_drop.rs and the epoch of a binding.
use vivid_sdk.Prelude.{
  ◌+◌, ◌≤◌, ◌<◌, ℕ, ◌≡◌, refl, inl, inr, Option, none, some, List, [], ◌∷◌, arith, Result, ok, err,
}
use vivid_sdk.FileDrop.Grants.{
  Requests, requested, refused_request, enable-Requests, disable-Requests, handle_bound-cases,
}
use vivid_sdk.FileDrop.{
  Rules, Error, Guard, Binding, Grant, disable, check_bound, handle_bound, release, Call, enables,
  disables, bounds, releases, step, run, different_identity, no_request,
}

module _ (rules : Rules) where
  -- The request that the guard waits for is of epoch `n` or later.
  abbrev pub IsSince : ℕ → Option (Binding rules) → Type 0
  IsSince n none = Unit
  IsSince n (some b) = n ≤ b.producer_epoch

  record Since (n : ℕ) (g : Guard rules) : Type 0 where
    epoch : n ≤ g.epoch
    requested : IsSince n g.requested

  Requests-Since :
      (n : ℕ) (g : Guard rules) (r : Guard rules × Result Error (Binding rules))
      → Requests rules g r
      → Since n g
      → Since n r.0
  Requests-Since n g r (requested b e at next) v =
      rw at (record { epoch = omega (arith, v.epoch); requested = omega (arith, v.epoch) })
  Requests-Since n g r (refused_request x e epoch at le) v =
      rw at (record { epoch = omega (arith, v.epoch); requested = v.requested })

  step-Since : (n : ℕ) (g : Guard rules) (c : Call rules) → Since n g → Since n (step rules g c)
  unfolding step release
  step-Since n g (enables c s sg d l) v =
      Requests-Since n g _ (enable-Requests rules g c s sg d l) v
  step-Since n g disables v = Requests-Since n g _ (disable-Requests rules g) v
  step-Since n g releases v = record { epoch = v.epoch; requested = tt }
  step-Since n g (bounds s) v = elim (handle_bound-cases rules g s) [
    | inl (x, e) ↦ rw e v
    | inr (b, e, good, at) ↦ rw at (record { epoch = v.epoch; requested = v.requested })
  ]

  run-Since :
      (n : ℕ) (g : Guard rules) (cs : List (Call rules)) → Since n g → Since n (run rules g cs)
  unfolding run
  run-Since n g [] v = v
  run-Since n g (c ∷ cs) v = run-Since n (step rules g c) cs (step-Since n g c v)

  old_refused :
      (g : Guard rules) (b : Option (Binding rules)) (s : Grant rules) (n : ℕ)
      → g.requested ≡ b
      → IsSince n b
      → s.producer_epoch < n
      → (e : Error) × (handle_bound rules g s ≡ err e)
  unfolding handle_bound check_bound
  old_refused g none s n e v old = (no_request, ground arith)
  old_refused g (some b) s n e v old = (different_identity, ground arith)

  disabled-Since :
      (g : Guard rules) (b : Binding rules)
      → (disable rules g).1 ≡ ok b
      → Since (g.epoch + 1) (disable rules g).0
  disabled-Since g b done = elim (disable-Requests rules g) [
    | requested r e at next ↦ rw at (record { epoch = omega arith; requested = omega arith })
    | refused_request x e epoch at le ↦ absurd (ground arith)
  ]

  -- After a disabling succeeded no answer to an earlier binding is accepted, whatever calls follow: a
  -- grant that was on its way does not come back.
  pub disabled_stays_disabled :
      (g : Guard rules) (b : Binding rules) (cs : List (Call rules)) (s : Grant rules)
      → (disable rules g).1 ≡ ok b
      → s.producer_epoch ≤ g.epoch
      → (e : Error) × (handle_bound rules (run rules (disable rules g).0 cs) s ≡ err e)
  disabled_stays_disabled g b cs s done old =
      let d = (disable rules g).0 in
      let last = run-Since (g.epoch + 1) d cs (disabled-Since g b done) in
      old_refused (run rules d cs) (run rules d cs).requested s (g.epoch + 1) refl last.requested
        (omega arith)
