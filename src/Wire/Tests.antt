-- ===== src/Wire/Tests.antt =====
-- src/wire.rs on payloads of numbers, and instances of its theorems.
use vivid_sdk.Prelude.{◌≡◌, refl, [], ◌∷◌, ok, err}
use vivid_sdk.Samples.{numbers}
use vivid_sdk.Wire.{
  not_exact_schema, PayloadMap, range_inclusive, validate_exact_payload_keys, validate_payload_keys,
}

-- A keyframe request with its optional key 6.
abbrev request : PayloadMap numbers
request = (0, 1) ∷ (1, 7) ∷ (2, 9) ∷ (3, 1) ∷ (4, 0) ∷ (5, 0) ∷ (6, 2) ∷ []

request_valid : validate_payload_keys numbers request 0 5 (6 ∷ []) ≡ ok tt
unfolding validate_payload_keys range_inclusive
request_valid = refl

not_exact : validate_exact_payload_keys numbers request 0 5 ≡ err not_exact_schema
unfolding validate_exact_payload_keys range_inclusive
not_exact = refl
