-- ===== src/Transfer/Reads.antt =====
-- How one read of a transfer of src/file_drop.rs ends.
use vivid_sdk.Prelude.{
  ◌+◌, ◌≤◌, ℕ, ◌≡◌, refl, ◌⊎◌, inl, inr, Option, none, some, List, arith, ltb, ◌==◌, Bool-cases,
  length, Result, ok, err, Result-cases, u32_max,
}
use mathlib.Core.Path.{subst}
use vivid_sdk.Transfer.{
  TransferFlow, Error, offline, wrong_transfer, not_admitted, exceeds_declared, payload_exceeds_u32,
  Finish, Abort, Record, Body, file_data, file_finish, file_transfer_abort, error_reply,
  undecodable, other_record, Event, data_event, finished, aborted, Transfer, read_data, read_finish,
  read_abort, read_body, read_event,
}

module _ (f : TransferFlow) (Byte : Type 0) where
  -- How a read may end: with data at the next offset, which moves it by the length and stays within
  -- what was declared; with the finish of exactly the declared length, which the data has reached;
  -- with an abort at the next offset; or with an error.
  pub data Reads (t : Transfer f Byte) : Transfer f Byte × Result Error (Event Byte) → Type 0 where
    reads_data :
        (u : Transfer f Byte) (bytes : List Byte)
        → f.next_offset u.flow ≡ f.next_offset t.flow + length bytes
        → u.declared_length ≡ t.declared_length
        → f.next_offset u.flow ≤ t.declared_length
        → Reads t (u, ok (data_event (f.next_offset t.flow) bytes))
    reads_finish :
        (x : Finish)
        → x.final_length ≡ t.declared_length
        → f.next_offset t.flow ≡ t.declared_length
        → Reads t (t, ok (finished x))
    reads_abort : (x : Abort) → x.final_offset ≡ f.next_offset t.flow → Reads t (t, ok (aborted x))
    reads_error :
        (u : Transfer f Byte) (e : Error)
        → u.declared_length ≡ t.declared_length
        → Reads t (u, err e)

  read_data-Reads :
      (t : Transfer f Byte) (offset : ℕ) (bytes : List Byte) (flow : Option f.Flow)
      → f.admit t.flow offset (length bytes) ≡ flow
      → Reads t (read_data f Byte t offset bytes flow)
  read_data-Reads t offset bytes none e = reads_error t not_admitted refl
  read_data-Reads t offset bytes (some flow) e =
      let (at, moved) = f.admit_offset t.flow flow offset (length bytes) e in
      let u = record t { flow = flow } in
      rw at (elim (Bool-cases (ltb t.declared_length (f.next_offset flow))) [
        | inl beyond ↦ rw beyond (reads_error u exceeds_declared refl)
        | inr within ↦ rw within (reads_data u bytes moved refl (ground arith))
      ])

  read_finish-cases :
      (t : Transfer f Byte) (x : Finish)
      → ((e : Error) × (read_finish f Byte t x ≡ err e))
        ⊎ ((read_finish f Byte t x ≡ ok (finished x))
            × (x.final_length ≡ t.declared_length)
            × (f.next_offset t.flow ≡ t.declared_length))
  unfolding read_finish
  read_finish-cases t x = elim (Result-cases (read_finish f Byte t x)) [
    | inr (e, r) ↦ inl (e, r)
    | inl (v, r) ↦ inr (ground arith, ground arith, ground arith)
  ]

  read_abort-cases :
      (t : Transfer f Byte) (x : Abort)
      → ((e : Error) × (read_abort f Byte t x ≡ err e))
        ⊎ ((read_abort f Byte t x ≡ ok (aborted x)) × (x.final_offset ≡ f.next_offset t.flow))
  unfolding read_abort
  read_abort-cases t x = elim (Result-cases (read_abort f Byte t x)) [
    | inr (e, r) ↦ inl (e, r)
    | inl (v, r) ↦ inr (ground arith, ground arith)
  ]

  read_finish-Reads : (t : Transfer f Byte) (x : Finish) → Reads t (t, read_finish f Byte t x)
  read_finish-Reads t x = elim (read_finish-cases t x) [
    | inl (e, r) ↦ rw r (reads_error t e refl)
    | inr (r, declared, reached) ↦ rw r (reads_finish x declared reached)
  ]

  read_abort-Reads : (t : Transfer f Byte) (x : Abort) → Reads t (t, read_abort f Byte t x)
  read_abort-Reads t x = elim (read_abort-cases t x) [
    | inl (e, r) ↦ rw r (reads_error t e refl)
    | inr (r, reached) ↦ rw r (reads_abort x reached)
  ]

  read_body-Reads : (t : Transfer f Byte) (b : Body Byte) → Reads t (read_body f Byte t b)
  read_body-Reads t (file_data offset bytes) = elim (Bool-cases (ltb u32_max (length bytes))) [
    | inl long ↦ rw long (reads_error t payload_exceeds_u32 refl)
    | inr fits ↦
        rw fits (read_data-Reads t offset bytes (f.admit t.flow offset (length bytes)) refl)
  ]
  read_body-Reads t (file_finish x) = read_finish-Reads t x
  read_body-Reads t (file_transfer_abort x) = read_abort-Reads t x
  read_body-Reads t error_reply = reads_error t _ refl
  read_body-Reads t undecodable = reads_error t _ refl
  read_body-Reads t other_record = reads_error t _ refl

  -- Every read ends in one of these ways: with data at the next offset, which moves it by the data's
  -- length and not past the declared length; with the finish of the declared length, which the data
  -- has reached; with an abort at the next offset; or with an error.
  pub read_event-Reads : (t : Transfer f Byte) (r : Record Byte) → Reads t (read_event f Byte t r)
  unfolding read_event
  read_event-Reads t r = elim (Bool-cases t.has_reader) [
    | inr offline_ ↦ subst (Reads t) (ground arith) (reads_error t offline refl)
    | inl live ↦ elim (Bool-cases (r.object_id == t.transfer_id)) [
      | inr foreign ↦ subst (Reads t) (ground arith) (reads_error t wrong_transfer refl)
      | inl own ↦ subst (Reads t) (ground arith) (read_body-Reads t r.body)
    ]
  ]
