-- ===== src/Wire/Lookup.antt =====
-- Which keys a payload of src/wire.rs has, and which a range of keys has.
use vivid_sdk.Prelude.{
  ◌+◌, ◌-◌, ◌≤◌, ◌<◌, ℕ, zero, suc, ◌≡◌, refl, ◌↔◌, ◌⊎◌, inl, inr, true, false, some, List, [], ◌∷◌,
  arith, ◌==◌, Bool-cases,
}
use vivid_sdk.Wire.{
  Cbor, PayloadMap, range_from, range_inclusive, find_map, out_of_order, has_key, lacks_some,
  contains, has_foreign,
}

module _ (c : Cbor) where
  abbrev pub IsPresent : PayloadMap c → ℕ → Type 0
  IsPresent p k = (v : c.Value) × (find_map c p k ≡ some v)

  pub has_key-IsPresent : (p : PayloadMap c) (k : ℕ) → has_key c p k ≡ true → IsPresent p k
  unfolding has_key find_map
  has_key-IsPresent [] k h = absurd (ground arith)
  has_key-IsPresent ((j, v) ∷ rest) k h = elim (Bool-cases (j == k)) [
    | inl same ↦ (v, ground arith)
    | inr other ↦ let (w, e) = has_key-IsPresent rest k (ground arith) in (w, ground arith)
  ]

  pub IsPresent-has_key :
      (p : PayloadMap c) (k : ℕ) (v : c.Value) → find_map c p k ≡ some v → has_key c p k ≡ true
  unfolding has_key find_map
  IsPresent-has_key [] k v e = ground arith
  IsPresent-has_key ((j, w) ∷ rest) k v e = ground (arith, IsPresent-has_key rest k v)

  -- Strictly increasing keys.
  abbrev pub IsSorted : PayloadMap c → Type 0
  IsSorted [] = Unit
  IsSorted (x ∷ []) = Unit
  IsSorted (x ∷ y ∷ rest) = (x.0 < y.0) × IsSorted (y ∷ rest)

  pub out_of_order_iff : (p : PayloadMap c) → (out_of_order c p ≡ false) ↔ IsSorted p
  unfolding out_of_order
  out_of_order_iff [] = (λ h. tt, λ h. refl)
  out_of_order_iff (x ∷ []) = (λ h. tt, λ h. refl)
  out_of_order_iff ((j, v) ∷ (k, w) ∷ rest) =
      let (to, from) = out_of_order_iff ((k, w) ∷ rest) in
      (λ h. (ground arith, to (ground arith)), λ h. ground (arith, from h.1))

  pub lacks_some-false :
      (p : PayloadMap c) (ks : List ℕ)
      → lacks_some c p ks ≡ false
      → (k : ℕ) → contains c ks k ≡ true
      → has_key c p k ≡ true
  unfolding lacks_some
  lacks_some-false p [] h k m = absurd (ground arith)
  lacks_some-false p (j ∷ ks) h k m = ground (arith, lacks_some-false p ks (ground arith) k)

  pub lacks_some-true :
      (p : PayloadMap c) (ks : List ℕ)
      → ((k : ℕ) → contains c ks k ≡ true → has_key c p k ≡ true)
      → lacks_some c p ks ≡ false
  unfolding lacks_some
  lacks_some-true p [] h = refl
  lacks_some-true p (j ∷ ks) h =
      let tail = lacks_some-true p ks (λ k m. h k (ground arith)) in
      let head = h j (ground arith) in ground arith

  pub has_foreign-false :
      (p : PayloadMap c) (required optional : List ℕ)
      → has_foreign c p required optional ≡ false
      → (k : ℕ) → has_key c p k ≡ true
      → (contains c required k ≡ true) ⊎ (contains c optional k ≡ true)
  unfolding has_foreign has_key
  has_foreign-false [] required optional h k m = absurd (ground arith)
  has_foreign-false ((j, v) ∷ rest) required optional h k m =
      ground (arith, has_foreign-false rest required optional (ground arith) k)

  pub has_foreign-true :
      (p : PayloadMap c) (required optional : List ℕ)
      → ((k : ℕ)
          → has_key c p k ≡ true
          → (contains c required k ≡ true) ⊎ (contains c optional k ≡ true))
      → has_foreign c p required optional ≡ false
  unfolding has_foreign has_key
  has_foreign-true [] required optional h = refl
  has_foreign-true ((j, v) ∷ rest) required optional h =
      let tail = has_foreign-true rest required optional (λ k m. h k (ground arith)) in
      let head = h j (ground arith) in ground arith

  contains-range_from :
      (n first k : ℕ) → (contains c (range_from n first) k ≡ true) ↔ ((first ≤ k) × (k < first + n))
  unfolding range_from
  contains-range_from zero first k = (λ h. ground arith, λ h. absurd (omega arith))
  contains-range_from (suc n) first k =
      let (to, from) = contains-range_from n (suc first) k in
      (λ h. ground (arith, to), λ h. ground (arith, from))

  pub contains-range_inclusive :
      (first last k : ℕ)
      → (contains c (range_inclusive first last) k ≡ true) ↔ ((first ≤ k) × (k ≤ last))
  unfolding range_inclusive
  contains-range_inclusive first last k =
      let (to, from) = contains-range_from (suc last - first) first k in
      (λ h. let r = to h in (r.0, omega arith), λ h. from (h.0, omega (arith, h.0, h.1)))
