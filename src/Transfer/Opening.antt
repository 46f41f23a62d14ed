-- ===== src/Transfer/Opening.antt =====
-- `open_incoming_file_transfer` of src/file_drop.rs: the checks before a transfer and of what the
-- presenter accepts.
use vivid_sdk.Prelude.{
  ◌-◌, ◌≤◌, ℕ, ◌≡◌, sym, ap, ◌∙◌, inl, inr, Bool, true, not, ◌||◌, Option, none, some, List, arith,
  ltb, ◌==◌, if◌then◌else◌, Option-cases, length, Result, ok, err, ◌>>=◌, ◌>>◌, refuse_if, or_fail,
}
use vivid_sdk.Transfer.{TransferFlow, Transfer}
use vivid_sdk.Transfer.Stream.{Call, run, start, finished_is_whole}

pub record IncomingFileTransferRequest : Type 0 where
  pub context_id : ℕ
  pub surface_id : ℕ
  pub producer_epoch : ℕ
  pub grant_generation : ℕ
  pub surface_generation : ℕ
  pub drop_id : ℕ
  pub transfer_id : ℕ
  pub transfer_generation : ℕ
  pub resume_offset : ℕ
  pub declared_length : ℕ
  pub maximum_record_body : ℕ
  pub maximum_body_bytes : ℕ
  pub maximum_records : ℕ

pub data Error : Type 0 where
  session_closed unsupported resume_beyond_length no_random no_endpoint write_failed : Error
  no_reply presenter_error unexpected_record undecodable different_identity bad_window : Error

-- A session as far as opening asks it. A test session has no reader for the transfer.
pub record OpenSession : Type 0 where
  pub active : Bool
  pub supports_file_drop : Bool
  pub supports_file_drop_path : Bool
  pub offline : Bool

-- `FILE_TRANSFER_ACCEPTED`.
pub record Accepted : Type 0 where
  pub transfer_id : ℕ
  pub transfer_generation : ℕ
  pub resume_offset : ℕ

pub data OpenBody : Type 0 where
  accepted : Accepted → OpenBody
  error_reply undecodable_body other_record : OpenBody

pub record OpenReply : Type 0 where
  pub object_id : ℕ
  pub body : OpenBody

-- What the random source, the connection and its peer answer, and `FileTransferFlow::new`.
pub record Opener (f : TransferFlow) : Type 0 where
  pub random : Bool
  pub connected : Bool
  pub written : Bool
  pub reply : Option OpenReply
  pub new_flow : ℕ → ℕ → ℕ → ℕ → Option f.Flow
  -- A new window starts at the offset that it is given.
  pub new_offset :
      (generation offset b r : ℕ) (w : f.Flow)
      → new_flow generation offset b r ≡ some w
      → f.next_offset w ≡ offset

-- `require_file_drop_profile`.
unfoldable pub require_profile : OpenSession → Result Error (Unit {0})
require_profile s = do
  refuse_if (not s.active) session_closed
  refuse_if (not s.supports_file_drop) unsupported

unfoldable pub check_body : IncomingFileTransferRequest → ℕ → OpenBody → Result Error (Unit {0})
check_body q object_id error_reply = err presenter_error
check_body q object_id other_record = err unexpected_record
check_body q object_id undecodable_body = do
  refuse_if (not (object_id == q.transfer_id)) unexpected_record
  err undecodable
check_body q object_id (accepted a) = do
  refuse_if (not (object_id == q.transfer_id)) unexpected_record
  refuse_if
      (not (a.transfer_id == q.transfer_id)
        || not (a.transfer_generation == q.transfer_generation)
        || not (a.resume_offset == q.resume_offset))
      different_identity

module _ (f : TransferFlow) (Byte : Type 0) where
  unfoldable pub check_reply :
      OpenSession → Opener f → IncomingFileTransferRequest → Result Error (Unit {0})
  check_reply s o q =
      if s.offline
      then ok tt
      else elim o.reply [ none ↦ err no_reply | some r ↦ check_body q r.object_id r.body ]

  unfoldable pub open_incoming_file_transfer :
      OpenSession → Opener f → IncomingFileTransferRequest → Result Error (Transfer f Byte)
  open_incoming_file_transfer s o q = do
    require_profile s
    refuse_if (ltb q.declared_length q.resume_offset) resume_beyond_length
    refuse_if (not o.random) no_random
    refuse_if (not o.connected) no_endpoint
    refuse_if (not o.written) write_failed
    check_reply s o q
    flow ←
        or_fail
          (o.new_flow q.transfer_generation q.resume_offset q.maximum_body_bytes q.maximum_records)
          bad_window
    ok record {
      has_reader = not s.offline;
      transfer_id = q.transfer_id;
      transfer_generation = q.transfer_generation;
      declared_length = q.declared_length;
      flow = flow;
      committed_path_allowed = s.supports_file_drop_path;
    }

  -- An opened transfer starts where the request resumes, within the declared length.
  record StartsAt (q : IncomingFileTransferRequest) (t : Transfer f Byte) : Type 0 where
    pub offset : f.next_offset t.flow ≡ q.resume_offset
    pub declared : t.declared_length ≡ q.declared_length
    pub within : q.resume_offset ≤ q.declared_length

  open_incoming_file_transfer-StartsAt :
      (s : OpenSession) (o : Opener f) (q : IncomingFileTransferRequest) (t : Transfer f Byte)
      → open_incoming_file_transfer s o q ≡ ok t
      → StartsAt q t
  unfolding open_incoming_file_transfer
  open_incoming_file_transfer-StartsAt s o q t e =
      elim (Option-cases
        (o.new_flow q.transfer_generation q.resume_offset q.maximum_body_bytes q.maximum_records)) [
          | inl missing ↦ absurd (ground arith)
          | inr (w, made) ↦
              let begins =
                o.new_offset q.transfer_generation q.resume_offset q.maximum_body_bytes
                  q.maximum_records w made in
              let same : w ≡ t.flow = ground arith in
              record {
                offset = sym (ap f.next_offset same) ∙ begins;
                declared = ground arith;
                within = ground arith;
              }
        ]

  -- A transfer that was opened, whose reads have not failed and whose finish was read, has handed out
  -- all the bytes from the requested offset to the declared length.
  pub opened_transfer_completes :
      (s : OpenSession) (o : Opener f) (q : IncomingFileTransferRequest) (t : Transfer f Byte)
      (cs : List (Call f Byte))
      → open_incoming_file_transfer s o q ≡ ok t
      → (run f Byte (start f Byte t) cs).intact ≡ true
      → (run f Byte (start f Byte t) cs).is_complete ≡ true
      → length (run f Byte (start f Byte t) cs).bytes ≡ q.declared_length - q.resume_offset
  opened_transfer_completes s o q t cs e intact complete =
      let starts = open_incoming_file_transfer-StartsAt s o q t e in
      let whole = finished_is_whole f Byte t cs intact complete in
      ground (arith, starts.offset, starts.declared, starts.within)
