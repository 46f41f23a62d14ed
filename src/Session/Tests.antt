-- ===== src/Session/Tests.antt =====
-- Requests of src/session.rs with a presenter that answers at once, and instances of the theorems.
use vivid_sdk.Prelude.{ℕ, ◌≡◌, refl, none, some, [], ok}
use vivid_sdk.Control.State.{allocate}
use vivid_sdk.Samples.{remote}
use vivid_sdk.Session.{Reply, Request, Transport, request, next_request, check_reply}

abbrev query : Request remote
query = record {
  record_type = 14;
  object_id = 9;
  payload = [];
  transaction_id = none;
  expected_target_generation = none;
}

abbrev acknowledgement : ℕ → Reply remote
acknowledgement id = record {
  record_type = 2;
  object_id = 9;
  decoded = some record { request_id = id; payload = [] };
  error_code = none;
}

abbrev prompt : Transport remote
prompt id q = ok (some (acknowledgement id))

request_answered : (request remote prompt 5 query).1 ≡ ok (some (acknowledgement 5))
unfolding request next_request allocate check_reply
request_answered = refl
