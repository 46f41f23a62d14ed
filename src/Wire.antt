-- ===== src/Wire.antt =====
-- src/wire.rs: strict checks of decoded payloads. CBOR values are those of another crate: a payload
-- is a list of keys with values, and a value is read through the accessors of `Cbor`.
pub mod Schema
pub mod Lookup
mod Tests
use vivid_sdk.Prelude.{
  ◌+◌, ◌-◌, ◌*◌, ◌/◌, ◌%◌, ◌^◌, ◌≤◌, ◌<◌, min, max, ℕ, zero, suc, ◌≡◌, refl, sym, ap, ◌∙◌, ◌≢◌, ◌↔◌,
  ◌⊎◌, inl, inr, Bool, true, false, not, ◌&&◌, ◌||◌, Option, none, some, List, [], ◌∷◌, ◌++◌, map,
  arith, ltb, leb, ◌==◌, if◌then◌else◌, ltb→lt, lt→ltb, leb→le, ==_iff, Bool-cases, Option-cases,
  length, get_elem?, All, length-append, get_elem?-some, Result, ok, err, Result-cases, ◌>>=◌, ◌>>◌,
  refuse_if, or_fail, u32_max, u64_max, saturating_add, saturating_mul, checked_add, duration_max,
  add_duration, as_micros,
}
use Prim.Native.String.{String}

pub record Cbor : Type 1 where
  pub Value : Type 0
  pub as_u64 : Value → Option ℕ
  pub as_bool : Value → Option Bool
  pub as_text : Value → Option String
  pub as_array : Value → Option (List Value)
  pub as_map : Value → Option (List (ℕ × Value))

-- The errors of this file, with the key that the message names.
pub data Error : Type 0 where
  omits_key not_unsigned exceeds_u32 not_boolean not_text not_map not_array non_text_item :
      ℕ → Error
  not_exact_schema schema_mismatch : Error
  unexpected_record wrong_owner wrong_track : Error
  surface_destroyed track_destroyed track_lost unsorted_profiles : Error

-- `(first..=last).collect()`, by the number of keys left.
pub range_from : ℕ → ℕ → List ℕ
range_from zero first = []
range_from (suc n) first = first ∷ range_from n (suc first)

unfoldable pub range_inclusive : ℕ → ℕ → List ℕ
unfolding range_from
range_inclusive first last = range_from (suc last - first) first

module _ (c : Cbor) where
  open c use {Value, as_u64, as_bool, as_text, as_array, as_map}

  abbrev pub PayloadMap : Type 0
  PayloadMap = List (ℕ × Value)

  unfoldable pub find_map : PayloadMap → ℕ → Option Value
  find_map [] key = none
  find_map ((k, v) ∷ rest) key = if k == key then some v else find_map rest key

  unfoldable pub required_value : PayloadMap → ℕ → Result Error Value
  required_value payload key = or_fail (find_map payload key) (omits_key key)

  unfoldable pub required_u64 : PayloadMap → ℕ → Result Error ℕ
  unfolding required_value
  required_u64 payload key = do
    value ← required_value payload key
    or_fail (as_u64 value) (not_unsigned key)

  unfoldable pub optional_u64 : PayloadMap → ℕ → Result Error (Option ℕ)
  optional_u64 payload key = elim (find_map payload key) [
    | none ↦ ok none
    | some value ↦ elim (as_u64 value) [ none ↦ err (not_unsigned key) | some n ↦ ok (some n) ]
  ]

  unfoldable pub optional_map : PayloadMap → ℕ → Result Error (Option PayloadMap)
  optional_map payload key = elim (find_map payload key) [
    | none ↦ ok none
    | some value ↦ elim (as_map value) [ none ↦ err (not_map key) | some m ↦ ok (some m) ]
  ]

  unfoldable pub required_u32 : PayloadMap → ℕ → Result Error ℕ
  unfolding required_u64
  required_u32 payload key = do
    n ← required_u64 payload key
    refuse_if (ltb u32_max n) (exceeds_u32 key)
    ok n

  unfoldable pub required_bool : PayloadMap → ℕ → Result Error Bool
  unfolding required_value
  required_bool payload key = do
    value ← required_value payload key
    or_fail (as_bool value) (not_boolean key)

  unfoldable pub required_text : PayloadMap → ℕ → Result Error String
  unfolding required_value
  required_text payload key = do
    value ← required_value payload key
    or_fail (as_text value) (not_text key)

  unfoldable pub required_map : PayloadMap → ℕ → Result Error PayloadMap
  unfolding required_value
  required_map payload key = do
    value ← required_value payload key
    or_fail (as_map value) (not_map key)

  collect_text : ℕ → List Value → Result Error (List String)
  collect_text key [] = ok []
  collect_text key (v ∷ vs) = do
    text ← or_fail (as_text v) (non_text_item key)
    rest ← collect_text key vs
    ok (text ∷ rest)

  pub required_text_array : PayloadMap → ℕ → Result Error (List String)
  unfolding required_value collect_text
  required_text_array payload key = do
    value ← required_value payload key
    items ← or_fail (as_array value) (not_array key)
    collect_text key items

  -- The zip stops at the shorter list; the lengths are compared before.
  pub same_keys : PayloadMap → List ℕ → Bool
  same_keys [] ks = true
  same_keys (x ∷ xs) [] = true
  same_keys ((k, v) ∷ xs) (e ∷ ks) = k == e && same_keys xs ks

  unfoldable pub validate_exact_payload_keys : PayloadMap → ℕ → ℕ → Result Error (Unit {0})
  unfolding same_keys
  validate_exact_payload_keys payload first last =
      let expected = range_inclusive first last in
      refuse_if (not (length payload == length expected) || not (same_keys payload expected))
        not_exact_schema

  -- `payload.windows(2).any(|pair| pair[0].0 >= pair[1].0)`.
  pub out_of_order : PayloadMap → Bool
  out_of_order [] = false
  out_of_order (x ∷ []) = false
  out_of_order ((j, v) ∷ (k, w) ∷ rest) = leb k j || out_of_order ((k, w) ∷ rest)

  pub has_key : PayloadMap → ℕ → Bool
  has_key [] key = false
  has_key ((k, v) ∷ rest) key = k == key || has_key rest key

  pub lacks_some : PayloadMap → List ℕ → Bool
  lacks_some payload [] = false
  lacks_some payload (k ∷ ks) = not (has_key payload k) || lacks_some payload ks

  abbrev pub contains : List ℕ → ℕ → Bool
  contains [] key = false
  contains (k ∷ ks) key = k == key || contains ks key

  pub has_foreign : PayloadMap → List ℕ → List ℕ → Bool
  has_foreign [] required optional = false
  has_foreign ((k, v) ∷ rest) required optional =
      (not (contains required k) && not (contains optional k)) || has_foreign rest required optional

  unfoldable pub validate_payload_keys : PayloadMap → ℕ → ℕ → List ℕ → Result Error (Unit {0})
  unfolding out_of_order has_key lacks_some has_foreign
  validate_payload_keys payload first last optional =
      let required = range_inclusive first last in
      refuse_if
        (out_of_order payload
          || lacks_some payload required
          || has_foreign payload required optional)
        schema_mismatch

  unfoldable pub validate_owner_pair : PayloadMap → ℕ → ℕ → Result Error (Unit {0})
  validate_owner_pair payload context_id object_id = do
    c0 ← required_u64 payload 0
    refuse_if (not (c0 == context_id)) wrong_owner
    o ← required_u64 payload 1
    refuse_if (not (o == object_id)) wrong_owner

  unfoldable pub validate_track_tuple : PayloadMap → ℕ → ℕ → ℕ → Result Error (Unit {0})
  validate_track_tuple payload context_id surface_id track_id = do
    c0 ← required_u64 payload 0
    refuse_if (not (c0 == context_id)) wrong_track
    s ← required_u64 payload 1
    refuse_if (not (s == surface_id)) wrong_track
    t ← required_u64 payload 2
    refuse_if (not (t == track_id)) wrong_track

unfoldable pub expect_record : ℕ → ℕ → ℕ → ℕ → Result Error (Unit {0})
expect_record record_type object_id expected expected_object =
    refuse_if (not (record_type == expected) || not (object_id == expected_object))
      unexpected_record

unfoldable pub ensure_live_surface : Bool → Result Error (Unit {0})
ensure_live_surface destroyed = refuse_if destroyed surface_destroyed

unfoldable pub ensure_live_track : Bool → Bool → Result Error (Unit {0})
ensure_live_track destroyed lost =
    if destroyed then (if lost then err track_lost else err track_destroyed) else ok tt
