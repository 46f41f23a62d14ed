-- ===== src/FileDrop/Tests.antt =====
-- The guard of a file-drop binding with numbers for destinations, and instances of its theorems.
use vivid_sdk.Prelude.{
  ◌+◌, ◌≤◌, ℕ, ◌≡◌, refl, ap, Bool, true, false, not, ◌&&◌, Option, none, some, [], ◌∷◌, arith, leb,
  ◌==◌, if◌then◌else◌, length, ok, err, u64_max,
}
use vivid_sdk.FileDrop.{
  Limits, enabled, Rules, not_narrowed, Guard, Binding, Grant, new, enable, disable, handle_bound,
  check_bound, exceeds, enables, bounds, step, run,
}
use vivid_sdk.Samples.{remote}
use vivid_sdk.Session.{Reply, Answer, unsupported, decoded_payload}
use vivid_sdk.FileDrop.Requests.{
  DropWire, DropSession, require_file_drop_profile, ask, set_file_drop_binding, cancelled,
  expect_empty_ok, cancel_file_drop, query_file_drop, GrantsWhole, set_file_drop_binding-offline,
}
use vivid_sdk.FileDrop.Grants.{Inv, run-new_guard-Inv}

abbrev same : Option ℕ → Option ℕ → Bool
same none none = true
same none (some b) = false
same (some a) none = false
same (some a) (some b) = a == b

same_eq : (a b : Option ℕ) → same a b ≡ true → a ≡ b
same_eq none none e = refl
same_eq none (some b) e = absurd (ground arith)
same_eq (some a) none e = absurd (ground arith)
same_eq (some a) (some b) e = ap some (ground arith)

abbrev is_none : Option ℕ → Bool
is_none none = true
is_none (some a) = false

abbrev next_epoch : ℕ → Option ℕ
next_epoch n = if leb (n + 1) u64_max then some (n + 1) else none

abbrev folders : Rules
folders = record {
  Destination = ℕ;
  same_destination = same;
  same_destination_eq = same_eq;
  validate = λ b surface. b.surface_id == surface && not (b.limits.maximum_file_bytes == 0);
  is_disabled = λ b. is_none b.destination;
  advance = next_epoch;
  advance_next = λ n k e. ground arith;
}

abbrev asked : Limits
asked = record {
  maximum_file_bytes = 1000;
  maximum_pending_offers = 2;
  maximum_active_transfers = 1;
  maximum_record_body = 100;
  acceptance_timeout_us = 5000;
  idle_timeout_us = 5000;
}

abbrev answer : Grant folders
answer = record {
  producer_epoch = 1;
  grant_generation = 1;
  context_id = 1;
  surface_id = 7;
  surface_generation = 1;
  state = enabled;
  destination = some 3;
  limits = asked;
}

abbrev bound : Guard folders
bound = run folders (new folders) (enables 1 7 1 3 asked ∷ bounds answer ∷ [])

greedy_grant_refused :
    handle_bound folders
      (run folders (new folders) (enables 1 7 1 3 asked ∷ []))
      (record answer { limits = record asked { maximum_file_bytes = 1001 } })
    ≡ err not_narrowed
unfolding run step enable new handle_bound check_bound exceeds
greedy_grant_refused = refl

run-new_guard-Inv_example :
    Inv folders (run folders (new folders) (enables 1 7 1 3 asked ∷ bounds answer ∷ []))
run-new_guard-Inv_example = run-new_guard-Inv folders (enables 1 7 1 3 asked ∷ bounds answer ∷ [])

abbrev disabled_binding : Binding folders
disabled_binding = record {
  producer_epoch = 2;
  context_id = 1;
  surface_id = 7;
  surface_generation = 1;
  destination = none;
  limits = record {
    maximum_file_bytes = 0;
    maximum_pending_offers = 0;
    maximum_active_transfers = 0;
    maximum_record_body = 0;
    acceptance_timeout_us = 0;
    idle_timeout_us = 0;
  };
}

first_disable : (disable folders bound).1 ≡ ok disabled_binding
unfolding run step enable disable new handle_bound check_bound exceeds
first_disable = refl

first_epoch : answer.producer_epoch ≤ bound.epoch
unfolding run step enable new handle_bound check_bound exceeds
first_epoch = omega arith

abbrev drop_wire : DropWire folders
drop_wire = record {
  remote = remote;
  set_binding_type = 60;
  bound_type = 61;
  accept_type = 62;
  accepted_type = 63;
  cancel_type = 64;
  cancelled_type = 65;
  advance_type = 66;
  advanced_type = 67;
  query_type = 68;
  status_type = 69;
  default_idle_us = 5000;
  AcceptFileDrop = ℕ;
  CancelFileDrop = ℕ;
  AdvanceFileTransfer = ℕ;
  QueryFileDrop = ℕ;
  FileDropStatus = ℕ;
  accept_drop_id = λ n. n;
  accept_transfer_id = λ n. n + 1;
  accept_generation = λ n. 1;
  cancel_drop_id = λ n. n;
  advance_transfer_id = λ n. n;
  advance_new_generation = λ n. 2;
  advance_committed_offset = λ n. 0;
  query_drop_id = λ n. n;
  binding_payload = λ b. some ((0, b.producer_epoch) ∷ []);
  accept_payload = λ n. some ((0, n) ∷ []);
  cancel_payload = λ n. some ((0, n) ∷ []);
  advance_payload = λ n. some ((0, n) ∷ []);
  query_payload = λ n. some ((0, n) ∷ []);
  decode_grant = λ object_id payload. none;
  decode_accepted = λ object_id payload. some (object_id, 1, 1, length payload);
  decode_cancelled = λ object_id payload. some object_id;
  decode_advanced = λ object_id payload. some (object_id, 1, 1, length payload);
  decode_status = λ object_id payload. some (length payload);
}

abbrev connected : DropSession
connected = record { active = true; supports_file_drop = true }

abbrev wish : Binding folders
wish = record {
  producer_epoch = 1;
  context_id = 1;
  surface_id = 7;
  surface_generation = 1;
  destination = some 3;
  limits = asked;
}

abbrev wishing : Guard folders
wishing = record { epoch = 1; requested = some wish; grant = none }

abbrev silent : Answer remote
silent q = ok none

no_status_offline : query_file_drop folders drop_wire connected 4 silent ≡ err unsupported
unfolding query_file_drop ask require_file_drop_profile
no_status_offline = refl

abbrev done_reply : Reply remote
done_reply = record {
  record_type = 2;
  object_id = 4;
  decoded = some record { request_id = 1; payload = [] };
  error_code = none;
}

cancel_done : cancel_file_drop folders drop_wire connected 4 (λ q. ok (some done_reply)) ≡ ok tt
unfolding cancel_file_drop cancelled expect_empty_ok ask require_file_drop_profile decoded_payload
cancel_done = refl

set_file_drop_binding-offline_example :
    (g : Grant folders) × (set_file_drop_binding folders drop_wire connected wish silent ≡ ok g)
    × GrantsWhole folders drop_wire wish g
    × (handle_bound folders wishing g ≡ ok (record wishing { grant = some g }))
set_file_drop_binding-offline_example =
    set_file_drop_binding-offline folders drop_wire connected wishing wish ((0, 1) ∷ []) silent refl
      refl refl (λ q. refl) refl refl
