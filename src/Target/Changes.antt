-- ===== src/Target/Changes.antt =====
-- What TARGET_CHANGED may do to the target of a session (src/resume.rs, src/target.rs).
use vivid_sdk.Prelude.{
  ◌≤◌, ◌<◌, ℕ, ◌≡◌, refl, sym, ◌∙◌, inl, inr, true, false, List, [], ◌∷◌, arith, ◌==◌, Bool-cases,
  Result, ok, err, Result-cases,
}
use vivid_sdk.Wire.{PayloadMap}
use vivid_sdk.Target.{
  Values, Error, settled_key, Target, validate_descriptor, descriptor_settled, except, same_entries,
  read_change, check_settle, accept_change, apply_target_changed,
}

module _ (v : Values) where
  -- A descriptor that its profile accepts.
  abbrev pub IsValid : Target v → Type 0
  IsValid t = validate_descriptor v t.profile t.descriptor ≡ ok tt

  -- The step from a settled flag that is not set to one that is, with the rest as it was.
  pub record Settles (t u : Target v) : Type 0 where
    pub open_before : descriptor_settled v t.profile t.descriptor ≡ ok false
    pub settled_after : descriptor_settled v t.profile u.descriptor ≡ ok true
    pub same_geometry :
        same_entries v
          (except v (settled_key t.profile) t.descriptor)
          (except v (settled_key t.profile) u.descriptor)
        ≡ true

  -- How a change ends: with the target as it was, or with a valid descriptor of a later generation,
  -- or with the final settle of this generation.
  pub data Changes (t : Target v) : Target v × Result Error ℕ → Type 0 where
    refused_ : (e : Error) → Changes t (t, err e)
    moves_on :
        (u : Target v)
        → u.profile ≡ t.profile
        → IsValid u
        → t.generation < u.generation
        → Changes t (u, ok u.generation)
    settles :
        (u : Target v)
        → u.profile ≡ t.profile
        → IsValid u
        → u.generation ≡ t.generation
        → Settles t u
        → Changes t (u, ok u.generation)

  read_change_lem :
      (t : Target v) (m : PayloadMap v.cbor) (n : ℕ) (d : PayloadMap v.cbor)
      → read_change v t m ≡ ok (n, d)
      → (validate_descriptor v t.profile d ≡ ok tt) × (t.generation ≤ n)
  unfolding read_change
  read_change_lem t m n d e = (ground arith, ground arith)

  check_settle_lem :
      (t : Target v) (n : ℕ) (d : PayloadMap v.cbor)
      → check_settle v t d ≡ ok tt
      → Settles t (record t { generation = n; descriptor = d })
  unfolding check_settle
  check_settle_lem t n d e = record {
    open_before = ground arith;
    settled_after = ground arith;
    same_geometry = ground arith;
  }

  -- Every TARGET_CHANGED ends in one of these ways: refused, with the target as it was; with a valid
  -- descriptor of a later generation; or with a valid descriptor of the same generation, which is
  -- then the settle of a target that was not settled, with the same geometry.
  pub apply_target_changed-Changes :
      (t : Target v) (m : PayloadMap v.cbor) → Changes t (apply_target_changed v t m)
  unfolding accept_change apply_target_changed
  apply_target_changed-Changes t m = elim (Result-cases (read_change v t m)) [
    | inr (e, h) ↦ rw (h, apply_target_changed, accept_change) (refused_ e)
    | inl ((n, d), h) ↦
        let (valid, onward) = read_change_lem t m n d h in
        let u : Target v = record t { generation = n; descriptor = d } in
        elim (Bool-cases (n == t.generation)) [
          | inr other ↦
              rw (h, apply_target_changed, accept_change, other)
                (moves_on u refl valid (ground arith))
          | inl same ↦ elim (Result-cases (check_settle v t d)) [
            | inr (e, i) ↦ rw (h, apply_target_changed, accept_change, same, i) (refused_ e)
            | inl (w, i) ↦
                rw (h, apply_target_changed, accept_change, same, i)
                  (settles u refl valid (ground arith) (check_settle_lem t n d i))
          ]
        ]
  ]

  -- The target after any payloads in this order.
  pub run : Target v → List (PayloadMap v.cbor) → Target v
  run t [] = t
  run t (m ∷ ms) = run (apply_target_changed v t m).0 ms

  -- What a change does to generation and descriptor.
  record Keeps (t u : Target v) : Type 0 where
    profile : u.profile ≡ t.profile
    onward : t.generation ≤ u.generation
    final :
        descriptor_settled v t.profile t.descriptor ≡ ok true
        → u.generation ≡ t.generation
        → u.descriptor ≡ t.descriptor

  Changes-Keeps : (t : Target v) (r : Target v × Result Error ℕ) → Changes t r → Keeps t r.0
  Changes-Keeps t _ (refused_ e) = record {
    profile = refl;
    onward = omega arith;
    final = λ s g. refl;
  }
  Changes-Keeps t _ (moves_on u p valid later) = record {
    profile = p;
    onward = omega arith;
    final = λ s g. absurd (omega arith);
  }
  Changes-Keeps t _ (settles u p valid same q) = record {
    profile = p;
    onward = omega arith;
    final = λ s g. let b = q.open_before in absurd (ground arith);
  }

  Keeps-trans : (t u w : Target v) → Keeps t u → Keeps u w → Keeps t w
  Keeps-trans t u w p q = record {
    profile = q.profile ∙ p.profile;
    onward = omega (arith, p.onward, q.onward);
    final = λ s g.
        let stays : u.generation ≡ t.generation = omega (arith, p.onward, q.onward) in
        let before = p.final s stays in
        let settled : descriptor_settled v u.profile u.descriptor ≡ ok true =
          rw (p.profile, before) s in
        q.final settled (g ∙ sym stays) ∙ before;
  }

  run-Keeps : (t : Target v) (ms : List (PayloadMap v.cbor)) → Keeps t (run t ms)
  unfolding run
  run-Keeps t [] = record { profile = refl; onward = omega arith; final = λ s g. refl }
  run-Keeps t (m ∷ ms) =
      let u : Target v = (apply_target_changed v t m).0 in
      let first = Changes-Keeps t (apply_target_changed v t m) (apply_target_changed-Changes t m) in
      Keeps-trans t u (run u ms) first (run-Keeps u ms)

  -- Whatever changes arrive, the generation of the target does not go back, and a target that is
  -- settled keeps its descriptor as long as it keeps its generation.
  pub settled_is_final :
      (t : Target v) (ms : List (PayloadMap v.cbor))
      → (t.generation ≤ (run t ms).generation)
        × (descriptor_settled v t.profile t.descriptor ≡ ok true
            → (run t ms).generation ≡ t.generation
            → (run t ms).descriptor ≡ t.descriptor)
  settled_is_final t ms = let k = run-Keeps t ms in (k.onward, k.final)
