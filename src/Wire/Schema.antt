-- ===== src/Wire/Schema.antt =====
-- The schema checks of src/wire.rs and what they accept.
use vivid_sdk.Prelude.{
  ◌≤◌, ◌<◌, ℕ, ◌≡◌, refl, ◌↔◌, ◌⊎◌, inl, inr, true, false, none, List, [], ◌∷◌, arith, Option-cases,
  length, ok, err,
}
use vivid_sdk.Wire.{
  Cbor, omits_key, PayloadMap, range_inclusive, find_map, same_keys, out_of_order, lacks_some,
  contains, has_foreign, required_value, required_u64, optional_u64, optional_map,
  validate_exact_payload_keys, validate_payload_keys, validate_track_tuple,
}
use vivid_sdk.Wire.Lookup.{
  IsPresent, IsSorted, has_key-IsPresent, IsPresent-has_key, out_of_order_iff, lacks_some-false,
  lacks_some-true, has_foreign-false, has_foreign-true, contains-range_inclusive,
}

module _ (c : Cbor) where
  -- Keys increase strictly, every required key is there, and every key is required or optional.
  pub record IsCanonical (p : PayloadMap c) (first last : ℕ) (optional : List ℕ) : Type 0 where
    pub sorted : IsSorted c p
    pub complete : (k : ℕ) → first ≤ k → k ≤ last → IsPresent c p k
    pub closed :
        (k : ℕ) → IsPresent c p k → ((first ≤ k) × (k ≤ last)) ⊎ (contains c optional k ≡ true)

  checks-IsCanonical :
      (p : PayloadMap c) (first last : ℕ) (optional : List ℕ)
      → out_of_order c p ≡ false
      → lacks_some c p (range_inclusive first last) ≡ false
      → has_foreign c p (range_inclusive first last) optional ≡ false
      → IsCanonical p first last optional
  checks-IsCanonical p first last optional order all only = record {
    sorted = (out_of_order_iff c p).0 order;
    complete = λ k lo hi. has_key-IsPresent c p k (
        lacks_some-false c p (range_inclusive first last) all k
          ((contains-range_inclusive c first last k).1 (lo, hi)));
    closed = λ k h.
        elim (has_foreign-false c p (range_inclusive first last) optional only k
          (IsPresent-has_key c p k h.0 h.1)) [
            | inl i ↦ inl ((contains-range_inclusive c first last k).0 i)
            | inr i ↦ inr i
          ];
  }

  IsCanonical-foreign :
      (p : PayloadMap c) (first last : ℕ) (optional : List ℕ)
      → IsCanonical p first last optional
      → has_foreign c p (range_inclusive first last) optional ≡ false
  IsCanonical-foreign p first last optional v =
      has_foreign-true c p (range_inclusive first last) optional (λ k h.
        elim (v.closed k (has_key-IsPresent c p k h)) [
          | inl i ↦ inl ((contains-range_inclusive c first last k).1 i)
          | inr i ↦ inr i
        ])

  IsCanonical-all :
      (p : PayloadMap c) (first last : ℕ) (optional : List ℕ)
      → IsCanonical p first last optional
      → lacks_some c p (range_inclusive first last) ≡ false
  IsCanonical-all p first last optional v = lacks_some-true c p (range_inclusive first last) (λ k m.
      let r = (contains-range_inclusive c first last k).0 m in
      let q = v.complete k r.0 r.1 in IsPresent-has_key c p k q.0 q.1)

  -- The check with optional keys accepts a payload exactly when its keys increase strictly, hold
  -- every key from `first` to `last`, and are all of those or optional.
  pub validate_payload_keys-ok_iff :
      (p : PayloadMap c) (first last : ℕ) (optional : List ℕ)
      → (validate_payload_keys c p first last optional ≡ ok tt) ↔ IsCanonical p first last optional
  unfolding validate_payload_keys
  validate_payload_keys-ok_iff p first last optional = (
    λ h. checks-IsCanonical p first last optional (ground arith) (ground arith) (ground arith),
    λ v. ground (
      arith,
      (out_of_order_iff c p).1 v.sorted,
      IsCanonical-all p first last optional v,
      IsCanonical-foreign p first last optional v,
    ),
  )

  -- On an accepted payload `required_value` finds every required key.
  pub required_value_present :
      (p : PayloadMap c) (first last : ℕ) (optional : List ℕ) (k : ℕ)
      → validate_payload_keys c p first last optional ≡ ok tt
      → first ≤ k
      → k ≤ last
      → (v : c.Value) × (required_value c p k ≡ ok v)
  unfolding required_value
  required_value_present p first last optional k h lo hi =
      let v = (validate_payload_keys-ok_iff p first last optional).0 h in
      let (w, e) = v.complete k lo hi in (w, rw e)

  -- On an accepted payload a key that is neither required nor optional is found by no reader: the
  -- mandatory one fails and the optional ones answer nothing.
  pub foreign_key_absent :
      (p : PayloadMap c) (first last : ℕ) (optional : List ℕ) (k : ℕ)
      → validate_payload_keys c p first last optional ≡ ok tt
      → (k < first) ⊎ (last < k)
      → contains c optional k ≡ false
      → (required_value c p k ≡ err (omits_key k))
        × (optional_u64 c p k ≡ ok none)
        × (optional_map c p k ≡ ok none)
  unfolding required_value optional_u64 optional_map
  foreign_key_absent p first last optional k h out foreign =
      let v = (validate_payload_keys-ok_iff p first last optional).0 h in
      elim (Option-cases (find_map c p k)) [
        | inl e ↦ (rw e, rw (e, optional_u64), rw (e, optional_map))
        | inr (w, e) ↦ absurd (ground (arith, v.closed k (w, e)))
      ]

  abbrev pub keys : PayloadMap c → List ℕ
  keys [] = []
  keys ((k, v) ∷ rest) = k ∷ keys rest

  same_keys_iff :
      (p : PayloadMap c) (ks : List ℕ)
      → ((length p ≡ length ks) × (same_keys c p ks ≡ true)) ↔ (keys p ≡ ks)
  unfolding same_keys
  same_keys_iff [] [] = (λ h. refl, λ h. (refl, refl))
  same_keys_iff [] (k ∷ ks) = (λ h. absurd (ground arith), λ h. absurd (ground arith))
  same_keys_iff (x ∷ p) [] = (λ h. absurd (ground arith), λ h. absurd (ground arith))
  same_keys_iff ((k, v) ∷ p) (j ∷ ks) =
      let (to, from) = same_keys_iff p ks in
      (
        λ h. ground (arith, to (ground arith, ground arith)),
        λ h. let r = from (ground arith) in ground arith,
      )

  -- The exact check accepts a payload exactly when its keys are `first`, `first + 1`, …, `last`, in
  -- this order.
  pub validate_exact_payload_keys-ok_iff :
      (p : PayloadMap c) (first last : ℕ)
      → (validate_exact_payload_keys c p first last ≡ ok tt) ↔ (keys p ≡ range_inclusive first last)
  unfolding validate_exact_payload_keys
  validate_exact_payload_keys-ok_iff p first last =
      let (to, from) = same_keys_iff p (range_inclusive first last) in
      (λ h. to (ground arith, ground arith), λ h. let r = from h in ground arith)

  -- The complete track identity is accepted exactly when keys 0, 1 and 2 are its three numbers.
  pub validate_track_tuple-ok_iff :
      (p : PayloadMap c) (context_id surface_id track_id : ℕ)
      → (validate_track_tuple c p context_id surface_id track_id ≡ ok tt) ↔ (
          (required_u64 c p 0 ≡ ok context_id)
          × (required_u64 c p 1 ≡ ok surface_id)
          × (required_u64 c p 2 ≡ ok track_id))
  unfolding validate_track_tuple
  validate_track_tuple-ok_iff p context_id surface_id track_id =
      (λ h. ground arith, λ h. ground arith)
