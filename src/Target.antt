-- ===== src/Target.antt =====
-- src/target.rs, the descriptor of a session's target, and `apply_target_changed` of src/resume.rs.
pub mod Changes
mod Tests
use vivid_sdk.Prelude.{
  ◌+◌, ◌-◌, ◌*◌, ◌/◌, ◌%◌, ◌^◌, ◌≤◌, ◌<◌, min, max, ℕ, zero, suc, ◌≡◌, refl, sym, ap, ◌∙◌, ◌≢◌, ◌↔◌,
  ◌⊎◌, inl, inr, Bool, true, false, not, ◌&&◌, ◌||◌, Option, none, some, List, [], ◌∷◌, ◌++◌, map,
  arith, ltb, leb, ◌==◌, if◌then◌else◌, ltb→lt, lt→ltb, leb→le, ==_iff, Bool-cases, Option-cases,
  length, get_elem?, All, length-append, get_elem?-some, Result, ok, err, Result-cases, refused,
  ◌>>=◌, ◌>>◌, refuse_if, or_fail, u32_max, u64_max, saturating_add, saturating_mul, checked_add,
  duration_max, add_duration, as_micros,
}
use vivid_sdk.Wire
use vivid_sdk.Wire.{
  Cbor, PayloadMap, validate_exact_payload_keys, validate_payload_keys, required_u64, required_bool,
}

-- The profiles that src/target.rs tells apart.
pub data TargetProfile : Type 0 where
  terminal_surface desktop_surface other_profile : TargetProfile

pub data Error : Type 0 where
  payload : Wire.Error → Error
  invalid_desktop no_validator zero_dimension unsupported_anchors : Error
  zero_generation generation_backward reused_generation : Error

abbrev lift : {A : Type 0} → Result Wire.Error A → Result Error A
lift (ok a) = ok a
lift (err e) = err (payload e)

-- Values with the test of their equality, and `DesktopTarget::decode`.
pub record Values : Type 1 where
  pub cbor : Cbor
  pub same_value : cbor.Value → cbor.Value → Bool
  pub decodes_desktop : PayloadMap cbor → Bool

unfoldable pub settled_key : TargetProfile → ℕ
settled_key desktop_surface = 5
settled_key p = 6

unfoldable pub last_descriptor_key : TargetProfile → ℕ
last_descriptor_key desktop_surface = 6
last_descriptor_key p = 8

module _ (v : Values) where
  -- `for key in 0..=5 { … }` on the keys that are left.
  unfoldable pub nonzero_keys : PayloadMap v.cbor → List ℕ → Result Error (Unit {0})
  nonzero_keys d [] = ok tt
  nonzero_keys d (k ∷ ks) = do
    n ← lift (required_u64 v.cbor d k)
    refuse_if (n == 0) zero_dimension
    nonzero_keys d ks

  unfoldable pub validate_terminal : PayloadMap v.cbor → Result Error (Unit {0})
  validate_terminal d = do
    lift (validate_exact_payload_keys v.cbor d 0 8)
    nonzero_keys d (0 ∷ 1 ∷ 2 ∷ 3 ∷ 4 ∷ 5 ∷ [])
    settled ← lift (required_bool v.cbor d 6)
    kinds ← lift (required_u64 v.cbor d 7)
    refuse_if (not (kinds == 3)) unsupported_anchors
    anchors ← lift (required_u64 v.cbor d 8)
    refuse_if (anchors == 0) unsupported_anchors

  unfoldable pub validate_descriptor : TargetProfile → PayloadMap v.cbor → Result Error (Unit {0})
  validate_descriptor terminal_surface d = validate_terminal d
  validate_descriptor desktop_surface d = refuse_if (not (v.decodes_desktop d)) invalid_desktop
  validate_descriptor other_profile d = err no_validator

  unfoldable pub descriptor_settled : TargetProfile → PayloadMap v.cbor → Result Error Bool
  descriptor_settled p d = lift (required_bool v.cbor d (settled_key p))

  -- The entries up to a key, and the entries without a key.
  unfoldable pub up_to : ℕ → PayloadMap v.cbor → PayloadMap v.cbor
  up_to last [] = []
  up_to last ((k, x) ∷ d) = let rest = up_to last d in if leb k last then (k, x) ∷ rest else rest

  unfoldable pub except : ℕ → PayloadMap v.cbor → PayloadMap v.cbor
  except key [] = []
  except key ((k, x) ∷ d) = let rest = except key d in if k == key then rest else (k, x) ∷ rest

  unfoldable pub same_entries : PayloadMap v.cbor → PayloadMap v.cbor → Bool
  same_entries [] [] = true
  same_entries ((j, x) ∷ a) ((k, y) ∷ b) = (j == k && v.same_value x y) && same_entries a b
  same_entries [] (y ∷ b) = false
  same_entries (x ∷ a) [] = false

  -- `info.target_profile`, `info.target_generation` and `info.target_descriptor` of a session.
  pub record Target : Type 0 where
    pub profile : TargetProfile
    pub generation : ℕ
    pub descriptor : PayloadMap v.cbor

  -- What a payload of TARGET_CHANGED says, after its checks.
  unfoldable pub read_change : Target → PayloadMap v.cbor → Result Error (ℕ × PayloadMap v.cbor)
  read_change t m = do
    let last = last_descriptor_key t.profile
    lift (validate_payload_keys v.cbor m 0 last (9 ∷ 10 ∷ []))
    reason ← lift (required_u64 v.cbor m 10)
    generation ← lift (required_u64 v.cbor m 9)
    refuse_if (generation == 0) zero_generation
    let descriptor = up_to last m
    validate_descriptor t.profile descriptor
    refuse_if (ltb generation t.generation) generation_backward
    ok (generation, descriptor)

  -- A generation may be used again only by the final settle of the same geometry.
  unfoldable pub check_settle : Target → PayloadMap v.cbor → Result Error (Unit {0})
  check_settle t descriptor = do
    current_settled ← descriptor_settled t.profile t.descriptor
    next_settled ← descriptor_settled t.profile descriptor
    let key = settled_key t.profile
    refuse_if
        (current_settled
          || not next_settled
          || not (same_entries (except key t.descriptor) (except key descriptor)))
        reused_generation

  unfoldable pub accept_change : Target → PayloadMap v.cbor → Result Error (ℕ × PayloadMap v.cbor)
  accept_change t m = do
    (generation, descriptor) ← read_change t m
    (if generation == t.generation then check_settle t descriptor else ok tt)
    ok (generation, descriptor)

  unfoldable pub apply_target_changed : Target → PayloadMap v.cbor → Target × Result Error ℕ
  apply_target_changed t m = elim (accept_change t m) [
    | err e ↦ (t, err e)
    | ok (generation, descriptor) ↦
        (record t { generation = generation; descriptor = descriptor }, ok generation)
  ]
