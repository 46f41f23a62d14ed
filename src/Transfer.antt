-- ===== src/Transfer.antt =====
-- `IncomingFileTransfer` of src/file_drop.rs: one generation of a transfer from the presenter.
pub mod Reads
pub mod Stream
pub mod Opening
mod Tests
use vivid_sdk.Prelude.{
  ◌+◌, ◌-◌, ◌*◌, ◌/◌, ◌%◌, ◌^◌, ◌≤◌, ◌<◌, min, max, ℕ, zero, suc, ◌≡◌, refl, sym, ap, ◌∙◌, ◌≢◌, ◌↔◌,
  ◌⊎◌, inl, inr, Bool, true, false, not, ◌&&◌, ◌||◌, Option, none, some, List, [], ◌∷◌, ◌++◌, map,
  arith, ltb, leb, ◌==◌, if◌then◌else◌, ltb→lt, lt→ltb, leb→le, ==_iff, Bool-cases, Option-cases,
  length, get_elem?, All, length-append, get_elem?-some, Result, ok, err, Result-cases, refused,
  ◌>>=◌, ◌>>◌, refuse_if, or_fail, u32_max, u64_max, saturating_add, saturating_mul, checked_add,
  duration_max, add_duration, as_micros,
}

-- `FileTransferFlow` of the protocol crate: the window of a transfer and the offset it has reached.
pub record TransferFlow : Type 1 where
  pub Flow : Type 0
  pub next_offset : Flow → ℕ
  pub admit : Flow → ℕ → ℕ → Option Flow
  pub raise_maxima : Flow → ℕ → ℕ → Flow
  -- Data is admitted at the next offset only, and moves it by its length.
  pub admit_offset :
      (f g : Flow) (offset n : ℕ)
      → admit f offset n ≡ some g
      → (offset ≡ next_offset f) × (next_offset g ≡ next_offset f + n)
  pub raise_offset : (f : Flow) (b r : ℕ) → next_offset (raise_maxima f b r) ≡ next_offset f

pub data Error : Type 0 where
  offline wrong_transfer malformed payload_exceeds_u32 not_admitted exceeds_declared : Error
  stale_identity wrong_length impossible_offset presenter_error unexpected_record : Error
  path_not_negotiated write_failed : Error

pub record Finish : Type 0 where
  pub transfer_id : ℕ
  pub transfer_generation : ℕ
  pub final_length : ℕ

pub record Abort : Type 0 where
  pub transfer_id : ℕ
  pub transfer_generation : ℕ
  pub final_offset : ℕ

pub record FileResult : Type 0 where
  pub transfer_id : ℕ
  pub transfer_generation : ℕ
  pub has_committed_path : Bool

-- What the decoders of the protocol crate make of the body of a record, by the record's type.
pub data Body (Byte : Type 0) : Type 0 where
  file_data : ℕ → List Byte → Body Byte
  file_finish : Finish → Body Byte
  file_transfer_abort : Abort → Body Byte
  error_reply undecodable other_record : Body Byte

pub record Record (Byte : Type 0) : Type 0 where
  pub object_id : ℕ
  pub body : Body Byte

pub data Event (Byte : Type 0) : Type 0 where
  data_event : ℕ → List Byte → Event Byte
  finished : Finish → Event Byte
  aborted : Abort → Event Byte

module _ (f : TransferFlow) (Byte : Type 0) where
  -- The parts of the request that the transfer consults, and its window.
  pub record Transfer : Type 0 where
    pub has_reader : Bool
    pub transfer_id : ℕ
    pub transfer_generation : ℕ
    pub declared_length : ℕ
    pub flow : f.Flow
    pub committed_path_allowed : Bool

  pub validate_generation : Transfer → ℕ → ℕ → Result Error (Unit {0})
  validate_generation t id generation =
      refuse_if (not (id == t.transfer_id) || not (generation == t.transfer_generation))
        stale_identity

  -- The window keeps the data also where it goes past the declared length.
  abbrev pub read_data :
      Transfer → ℕ → List Byte → Option f.Flow → Transfer × Result Error (Event Byte)
  read_data t offset bytes none = (t, err not_admitted)
  read_data t offset bytes (some flow) =
      if ltb t.declared_length (f.next_offset flow)
      then (record t { flow = flow }, err exceeds_declared)
      else (record t { flow = flow }, ok (data_event offset bytes))

  pub read_finish : Transfer → Finish → Result Error (Event Byte)
  unfolding validate_generation
  read_finish t x = do
    validate_generation t x.transfer_id x.transfer_generation
    refuse_if
        (not (x.final_length == t.declared_length) || not (x.final_length == f.next_offset t.flow))
        wrong_length
    ok (finished x)

  pub read_abort : Transfer → Abort → Result Error (Event Byte)
  unfolding validate_generation
  read_abort t x = do
    validate_generation t x.transfer_id x.transfer_generation
    refuse_if (not (x.final_offset == f.next_offset t.flow)) impossible_offset
    ok (aborted x)

  abbrev pub read_body : Transfer → Body Byte → Transfer × Result Error (Event Byte)
  read_body t (file_data offset bytes) =
      if ltb u32_max (length bytes)
      then (t, err payload_exceeds_u32)
      else read_data t offset bytes (f.admit t.flow offset (length bytes))
  read_body t (file_finish x) = (t, read_finish t x)
  read_body t (file_transfer_abort x) = (t, read_abort t x)
  read_body t error_reply = (t, err presenter_error)
  read_body t undecodable = (t, err malformed)
  read_body t other_record = (t, err unexpected_record)

  pub read_event : Transfer → Record Byte → Transfer × Result Error (Event Byte)
  read_event t r =
      if not t.has_reader
      then (t, err offline)
      else if not (r.object_id == t.transfer_id)
      then (t, err wrong_transfer)
      else read_body t r.body

  -- `grant`, given whether its record can be written.
  pub grant : Transfer → ℕ → ℕ → Bool → Transfer × Result Error (Unit {0})
  grant t maximum_body_bytes maximum_records written =
      if written
      then (record t { flow = f.raise_maxima t.flow maximum_body_bytes maximum_records }, ok tt)
      else (t, err write_failed)

  pub send_result : Transfer → FileResult → Bool → Result Error (Unit {0})
  unfolding validate_generation
  send_result t x written = do
    validate_generation t x.transfer_id x.transfer_generation
    refuse_if (x.has_committed_path && not t.committed_path_allowed) path_not_negotiated
    refuse_if (not written) write_failed

  -- `abort`: the record that it writes.
  pub abort : Transfer → Abort
  abort t = record {
    transfer_id = t.transfer_id;
    transfer_generation = t.transfer_generation;
    final_offset = f.next_offset t.flow;
  }
