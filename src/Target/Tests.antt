-- ===== src/Target/Tests.antt =====
-- TARGET_CHANGED of src/resume.rs on a terminal target, and instances of the theorems.
use vivid_sdk.Prelude.{◌≡◌, refl, [], ◌∷◌, ok, err}
use vivid_sdk.Samples.{target_values}
use vivid_sdk.Wire.{
  PayloadMap, find_map, required_u64, required_value, required_bool, range_inclusive,
  validate_payload_keys, validate_exact_payload_keys,
}
use vivid_sdk.Target.{
  Target, terminal_surface, reused_generation, settled_key, last_descriptor_key, nonzero_keys,
  validate_terminal, validate_descriptor, descriptor_settled, up_to, except, same_entries,
  read_change, check_settle, accept_change, apply_target_changed,
}
use vivid_sdk.Target.Changes.{Changes, apply_target_changed-Changes}

abbrev moving : PayloadMap target_values.cbor
moving =
    (0, 1920) ∷ (1, 1080) ∷ (2, 80) ∷ (3, 24) ∷ (4, 24) ∷ (5, 45) ∷ (6, 0) ∷ (7, 3) ∷ (8, 256) ∷ []

abbrev terminal : Target target_values
terminal = record { profile = terminal_surface; generation = 2; descriptor = moving }

-- The settle of the same generation, and a change of geometry in it.
abbrev settle : PayloadMap target_values.cbor
settle =
    (0, 1920)
    ∷ (1, 1080)
    ∷ (2, 80)
    ∷ (3, 24)
    ∷ (4, 24)
    ∷ (5, 45)
    ∷ (6, 1)
    ∷ (7, 3)
    ∷ (8, 256)
    ∷ (9, 2)
    ∷ (10, 0)
    ∷ []

abbrev resized : PayloadMap target_values.cbor
resized =
    (0, 1920)
    ∷ (1, 1080)
    ∷ (2, 81)
    ∷ (3, 24)
    ∷ (4, 24)
    ∷ (5, 45)
    ∷ (6, 1)
    ∷ (7, 3)
    ∷ (8, 256)
    ∷ (9, 2)
    ∷ (10, 0)
    ∷ []

settle_accepted : (apply_target_changed target_values terminal settle).1 ≡ ok 2
unfolding apply_target_changed accept_change read_change check_settle same_entries except up_to
    descriptor_settled validate_descriptor validate_terminal nonzero_keys last_descriptor_key
    settled_key find_map required_u64 required_value required_bool range_inclusive
    validate_payload_keys validate_exact_payload_keys
settle_accepted = refl

resize_refused : (apply_target_changed target_values terminal resized).1 ≡ err reused_generation
unfolding apply_target_changed accept_change read_change check_settle same_entries except up_to
    descriptor_settled validate_descriptor validate_terminal nonzero_keys last_descriptor_key
    settled_key find_map required_u64 required_value required_bool range_inclusive
    validate_payload_keys validate_exact_payload_keys
resize_refused = refl

apply_target_changed-Changes_example :
    Changes target_values terminal (apply_target_changed target_values terminal settle)
apply_target_changed-Changes_example = apply_target_changed-Changes target_values terminal settle
