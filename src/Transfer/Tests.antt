-- ===== src/Transfer/Tests.antt =====
-- A transfer of four numbers, and instances of its theorems.
use vivid_sdk.Prelude.{
  ◌+◌, ◌-◌, ℕ, ◌≡◌, refl, true, false, Option, none, some, List, [], ◌∷◌, arith, ◌==◌,
  if◌then◌else◌, length, ok, err,
}
use vivid_sdk.Transfer.Opening.{
  IncomingFileTransferRequest, OpenSession, accepted, Opener, require_profile, check_body,
  check_reply, open_incoming_file_transfer, opened_transfer_completes,
}
use vivid_sdk.Transfer.{
  TransferFlow, exceeds_declared, Record, file_data, file_finish, Transfer, read_event, read_finish,
  validate_generation, grant,
}
use vivid_sdk.Transfer.Stream.{Call, reads, grants, step, run, start}

abbrev admit : ℕ → ℕ → ℕ → Option ℕ
admit next offset n = if offset == next then some (next + n) else none

admit_offset : (f g offset n : ℕ) → admit f offset n ≡ some g → (offset ≡ f) × (g ≡ f + n)
admit_offset f g offset n e = ground arith

-- An unlimited window: the offset alone.
abbrev offsets : TransferFlow
offsets = record {
  Flow = ℕ;
  next_offset = λ n. n;
  admit = admit;
  raise_maxima = λ n b r. n;
  admit_offset = admit_offset;
  raise_offset = λ n b r. refl;
}

abbrev begun : Transfer offsets ℕ
begun = record {
  has_reader = true;
  transfer_id = 5;
  transfer_generation = 1;
  declared_length = 4;
  flow = 1;
  committed_path_allowed = false;
}

abbrev chunk : Record ℕ
chunk = record { object_id = 5; body = file_data 1 (7 ∷ 8 ∷ 9 ∷ []) }

abbrev finish : Record ℕ
finish = record {
  object_id = 5;
  body = file_finish (record { transfer_id = 5; transfer_generation = 1; final_length = 4 });
}

abbrev whole : List (Call offsets ℕ)
whole = grants 10 10 true ∷ reads chunk ∷ reads finish ∷ []

whole_intact : (run offsets ℕ (start offsets ℕ begun) whole).intact ≡ true
unfolding run step read_event read_finish validate_generation grant
whole_intact = refl

whole_complete : (run offsets ℕ (start offsets ℕ begun) whole).is_complete ≡ true
unfolding run step read_event read_finish validate_generation grant
whole_complete = refl

long_chunk_refused :
    (read_event offsets ℕ begun
      (record { object_id = 5; body = file_data 1 (7 ∷ 8 ∷ 9 ∷ 10 ∷ []) })).1
    ≡ err exceeds_declared
unfolding read_event
long_chunk_refused = refl

new_offset : (generation offset b r w : ℕ) → some offset ≡ some w → w ≡ offset
new_offset generation offset b r w e = ground arith

abbrev accepting : Opener offsets
accepting = record {
  random = true;
  connected = true;
  written = true;
  reply = some record {
    object_id = 5;
    body = accepted record { transfer_id = 5; transfer_generation = 1; resume_offset = 1 };
  };
  new_flow = λ generation offset b r. some offset;
  new_offset = new_offset;
}

abbrev resuming : IncomingFileTransferRequest
resuming = record {
  context_id = 1;
  surface_id = 7;
  producer_epoch = 1;
  grant_generation = 1;
  surface_generation = 1;
  drop_id = 3;
  transfer_id = 5;
  transfer_generation = 1;
  resume_offset = 1;
  declared_length = 4;
  maximum_record_body = 100;
  maximum_body_bytes = 100;
  maximum_records = 10;
}

abbrev file_session : OpenSession
file_session = record {
  active = true;
  supports_file_drop = true;
  supports_file_drop_path = false;
  offline = false;
}

resuming_opens : open_incoming_file_transfer offsets ℕ file_session accepting resuming ≡ ok begun
unfolding open_incoming_file_transfer require_profile check_reply check_body
resuming_opens = refl

opened_transfer_completes_example :
    length (run offsets ℕ (start offsets ℕ begun) whole).bytes ≡ 4 - 1
opened_transfer_completes_example =
    opened_transfer_completes offsets ℕ file_session accepting resuming begun whole resuming_opens
      whole_intact whole_complete
