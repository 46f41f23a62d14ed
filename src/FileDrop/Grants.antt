-- ===== src/FileDrop/Grants.antt =====
-- Grants of src/file_drop.rs: which one the guard of a binding may hold.
use vivid_sdk.Prelude.{
  ◌+◌, ◌≤◌, ◌<◌, ℕ, ◌≡◌, refl, ◌⊎◌, inl, inr, Bool, true, false, Option, none, some, List, [], ◌∷◌,
  arith, if◌then◌else◌, Bool-cases, Option-cases, Result, ok, err, Result-cases,
}
use vivid_sdk.FileDrop.{
  Limits, FileDropBindingState, enabled, disabled_state, other_state, Rules, Error, is_enabled,
  is_disabled_state, exceeds, Guard, Binding, Grant, new, enable, disable, disable_current,
  check_bound, handle_bound, release, Call, enables, disables, bounds, releases, step, run,
  no_request,
}

pub record IsNarrower (g b : Limits) : Type 0 where
  pub file_bytes : g.maximum_file_bytes ≤ b.maximum_file_bytes
  pub pending_offers : g.maximum_pending_offers ≤ b.maximum_pending_offers
  pub active_transfers : g.maximum_active_transfers ≤ b.maximum_active_transfers
  pub record_body : g.maximum_record_body ≤ b.maximum_record_body
  pub acceptance_timeout : g.acceptance_timeout_us ≤ b.acceptance_timeout_us
  pub idle_timeout : g.idle_timeout_us ≤ b.idle_timeout_us

exceeds-IsNarrower : (g b : Limits) → exceeds g b ≡ false → IsNarrower g b
unfolding exceeds
exceeds-IsNarrower g b e = ground arith

enabled_not_disabled :
    (s : FileDropBindingState) → is_enabled s ≡ true → is_disabled_state s ≡ false
enabled_not_disabled enabled e = refl
enabled_not_disabled disabled_state e = absurd (ground arith)
enabled_not_disabled (other_state n) e = absurd (ground arith)

module _ (rules : Rules) where
  -- The grant answers the request, and gives it no more than it asked for.
  pub record Answers (s : Grant rules) (b : Binding rules) : Type 0 where
    pub live : is_enabled s.state ≡ true
    pub wanted : rules.is_disabled b ≡ false
    pub epoch : s.producer_epoch ≡ b.producer_epoch
    pub context : s.context_id ≡ b.context_id
    pub surface : s.surface_id ≡ b.surface_id
    pub surface_generation : s.surface_generation ≡ b.surface_generation
    pub generation : 0 < s.grant_generation
    pub destination : s.destination ≡ b.destination
    pub narrower : IsNarrower s.limits b.limits

  check_bound-Answers :
      (b : Binding rules) (s : Grant rules)
      → check_bound rules b s ≡ ok tt
      → is_enabled s.state ≡ true
      → Answers s b
  unfolding check_bound
  check_bound-Answers b s e live = record {
    live = live;
    wanted = ground (arith, enabled_not_disabled s.state live);
    epoch = ground arith;
    context = ground arith;
    surface = ground arith;
    surface_generation = ground arith;
    generation = ground arith;
    destination = rules.same_destination_eq s.destination b.destination (ground arith);
    narrower = exceeds-IsNarrower s.limits b.limits (ground arith);
  }

  abbrev pub Holds : Option (Grant rules) → Option (Binding rules) → Type 0
  Holds none b = Unit
  Holds (some s) none = ⊥
  Holds (some s) (some b) = Answers s b

  abbrev pub IsRecent : Option (Binding rules) → ℕ → Type 0
  IsRecent none epoch = Unit
  IsRecent (some b) epoch = b.producer_epoch ≤ epoch

  pub record Inv (g : Guard rules) : Type 0 where
    pub grant : Holds g.grant g.requested
    pub requested : IsRecent g.requested g.epoch

  -- An enabling or a disabling, on every branch: what it returns is what it now waits for, under the
  -- next epoch and without a grant; or it fails, and at most the epoch moves.
  pub data Requests (g : Guard rules) (r : Guard rules × Result Error (Binding rules))
      : Type 0 where
    requested :
        (b : Binding rules)
        → r.1 ≡ ok b
        → r.0 ≡ record { epoch = b.producer_epoch; requested = some b; grant = none }
        → b.producer_epoch ≡ g.epoch + 1
        → Requests g r
    refused_request :
        (e : Error)
        → r.1 ≡ err e
        → (epoch : ℕ) → r.0 ≡ record g { epoch = epoch }
        → g.epoch ≤ epoch
        → Requests g r

  pub enable-Requests :
      (g : Guard rules) (c s sg : ℕ) (d : rules.Destination) (l : Limits)
      → Requests g (enable rules g c s sg d l)
  unfolding enable
  enable-Requests g c s sg d l = elim (Option-cases (rules.advance g.epoch)) [
    | inl over ↦ rw (over, enable) (refused_request _ refl g.epoch refl (omega arith))
    | inr (epoch, next) ↦
        let binding : Binding rules = record {
          producer_epoch = epoch;
          context_id = c;
          surface_id = s;
          surface_generation = sg;
          destination = some d;
          limits = l;
        } in
        rw (next, enable)
          (elim (Bool-cases (rules.validate binding s)) [
            | inl valid ↦
                rw valid (requested binding refl refl (rules.advance_next g.epoch epoch next))
            | inr invalid ↦ rw invalid (
                refused_request _ refl epoch refl
                  (omega (arith, rules.advance_next g.epoch epoch next)))
          ])
  ]

  disable_current-Requests :
      (g : Guard rules) (current : Option (Binding rules))
      → Requests g (disable_current rules g current)
  disable_current-Requests g none = refused_request _ refl g.epoch refl (omega arith)
  disable_current-Requests g (some b) = elim (Bool-cases (rules.is_disabled b)) [
    | inl off ↦ rw off (refused_request _ refl g.epoch refl (omega arith))
    | inr on ↦ rw on (elim (Option-cases (rules.advance g.epoch)) [
      | inl over ↦ rw over (refused_request _ refl g.epoch refl (omega arith))
      | inr (epoch, next) ↦ rw next (requested _ refl refl (rules.advance_next g.epoch epoch next))
    ])
  ]

  pub disable-Requests : (g : Guard rules) → Requests g (disable rules g)
  unfolding disable
  disable-Requests g = disable_current-Requests g g.requested

  IsRecent-le : (b : Option (Binding rules)) (m n : ℕ) → IsRecent b m → m ≤ n → IsRecent b n
  IsRecent-le none m n v le = tt
  IsRecent-le (some b) m n v le = omega arith

  Requests-Inv :
      (g : Guard rules) (r : Guard rules × Result Error (Binding rules))
      → Requests g r
      → Inv g
      → Inv r.0
  Requests-Inv g r (requested b e at next) v =
      rw at (record { grant = tt; requested = omega arith })
  Requests-Inv g r (refused_request x e epoch at le) v =
      rw at (record {
        grant = v.grant;
        requested = IsRecent-le g.requested g.epoch epoch v.requested le;
      })

  granted :
      (b : Binding rules) (s : Grant rules) (live : Bool)
      → is_enabled s.state ≡ live
      → check_bound rules b s ≡ ok tt
      → Holds (if live then some s else none) (some b)
  granted b s true on e = check_bound-Answers b s e on
  granted b s false off e = tt

  held :
      (q : Option (Binding rules)) (b : Binding rules) (s : Grant rules)
      → q ≡ some b
      → Holds (if is_enabled s.state then some s else none) (some b)
      → Holds (if is_enabled s.state then some s else none) q
  held q b s e v = rw e v

  pub handle_bound-cases :
      (g : Guard rules) (s : Grant rules)
      → ((e : Error) × (handle_bound rules g s ≡ err e))
        ⊎ ((b : Binding rules) × (g.requested ≡ some b)
            × (check_bound rules b s ≡ ok tt)
            × (handle_bound rules g s
                ≡ ok (record g { grant = if is_enabled s.state then some s else none })))
  unfolding handle_bound
  handle_bound-cases g s = elim (Option-cases g.requested) [
    | inl nothing ↦ inl (no_request, ground arith)
    | inr (b, e) ↦ elim (Result-cases (check_bound rules b s)) [
      | inr (x, bad) ↦ inl (x, ground arith)
      | inl (u, good) ↦ inr (b, e, good, ground arith)
    ]
  ]

  bound-Inv : (g : Guard rules) (s : Grant rules) → Inv g → Inv (step rules g (bounds s))
  unfolding step
  bound-Inv g s v = elim (handle_bound-cases g s) [
    | inl (x, e) ↦ rw e v
    | inr (b, e, good, at) ↦ rw at (record {
      grant = held g.requested b s e (granted b s (is_enabled s.state) refl good);
      requested = v.requested;
    })
  ]

  step-Inv : (g : Guard rules) (c : Call rules) → Inv g → Inv (step rules g c)
  unfolding step release
  step-Inv g (enables c s sg d l) v = Requests-Inv g _ (enable-Requests g c s sg d l) v
  step-Inv g disables v = Requests-Inv g _ (disable-Requests g) v
  step-Inv g releases v = record { grant = tt; requested = tt }
  step-Inv g (bounds s) v = bound-Inv g s v

  run-Inv : (g : Guard rules) (cs : List (Call rules)) → Inv g → Inv (run rules g cs)
  unfolding run
  run-Inv g [] v = v
  run-Inv g (c ∷ cs) v = run-Inv (step rules g c) cs (step-Inv g c v)

  -- Whatever calls are made on a new guard: a grant that it holds is an enabled answer to the very
  -- binding that was requested last, with a generation, its destination, and no limit above the
  -- requested one; and that binding's epoch is no later than the guard's.
  pub run-new_guard-Inv : (cs : List (Call rules)) → Inv (run rules (new rules) cs)
  unfolding new
  run-new_guard-Inv cs = run-Inv (new rules) cs (record { grant = tt; requested = tt })
