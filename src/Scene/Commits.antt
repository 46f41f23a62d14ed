-- ===== src/Scene/Commits.antt =====
-- What src/scene.rs reads of the replies to its transactions.
use vivid_sdk.Prelude.{ℕ, ◌==◌, if◌then◌else◌, Result, ok, err, ◌>>=◌, ◌>>◌}
use vivid_sdk.Wire.{expect_record, validate_exact_payload_keys, required_u64}
use vivid_sdk.Session.{Remote, Error, presenter_error, Reply, lift, decoded_payload}

-- What transactions use of other crates: requests, the numbers of their record types, and the fit of
-- a node.
pub record Stage : Type 1 where
  pub remote : Remote
  pub begin_txn : ℕ
  pub commit_txn : ℕ
  pub abort_txn : ℕ
  pub scene_presented : ℕ
  pub create_node : ℕ
  pub update_node : ℕ
  pub delete_node : ℕ
  pub query_anchor : ℕ
  pub anchor_status : ℕ

-- `SceneCommit`.
pub record SceneCommit : Type 0 where
  pub scene_revision : ℕ
  pub target_generation : ℕ

module _ (g : Stage) where
  -- The payload of SCENE_PRESENTED.
  unfoldable pub read_presented : Reply g.remote → Result Error SceneCommit
  read_presented reply = do
    payload ← decoded_payload g.remote reply
    lift (validate_exact_payload_keys g.remote.cbor payload 0 1)
    scene_revision ← lift (required_u64 g.remote.cbor payload 0)
    target_generation ← lift (required_u64 g.remote.cbor payload 1)
    ok record { scene_revision = scene_revision; target_generation = target_generation }

  -- The two checks of a reply to COMMIT_TXN that abort the transaction.
  unfoldable pub is_presented : ℕ → Reply g.remote → Result Error (Unit {0})
  is_presented transaction_id reply =
      if reply.record_type == g.remote.error_type
      then err (presenter_error g.remote reply)
      else lift (expect_record reply.record_type reply.object_id g.scene_presented transaction_id)
