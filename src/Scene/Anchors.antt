-- ===== src/Scene/Anchors.antt =====
-- `Session::query_anchor` of src/scene.rs.
use vivid_sdk.Prelude.{
  ℕ, not, ◌||◌, Option, none, some, [], ◌∷◌, ltb, ◌==◌, if◌then◌else◌, Result, ok, ◌>>=◌, ◌>>◌,
  refuse_if,
}
use vivid_sdk.Wire.{PayloadMap, expect_record, validate_payload_keys, required_u64, optional_u64}
use vivid_sdk.Session.{Error, Reply, Answer, lift, decoded_payload, invalid_input, invalid_data}
use vivid_sdk.Scene.Commits.{Stage}

module _ (g : Stage) where
  pub record AnchorStatus : Type 0 where
    pub context_id : ℕ
    pub anchor_id : ℕ
    pub state : ℕ
    pub target_generation : Option ℕ
    pub payload : PayloadMap g.remote.cbor

  unfoldable pub online_anchor : ℕ → Reply g.remote → Result Error (PayloadMap g.remote.cbor)
  online_anchor anchor_id reply = do
    lift (expect_record reply.record_type reply.object_id g.anchor_status anchor_id)
    payload ← decoded_payload g.remote reply
    lift (validate_payload_keys g.remote.cbor payload 0 2 (3 ∷ 4 ∷ 5 ∷ 6 ∷ []))
    ok payload

  unfoldable pub offline_anchor : ℕ → ℕ → ℕ → PayloadMap g.remote.cbor
  offline_anchor target_generation context_id anchor_id =
      (0, g.remote.unsigned context_id)
      ∷ (1, g.remote.unsigned anchor_id)
      ∷ (2, g.remote.unsigned 0)
      ∷ (6, g.remote.unsigned target_generation)
      ∷ []

  -- `.filter(|generation| *generation != ZERO)`.
  abbrev pub nonzero : Option ℕ → Option ℕ
  nonzero none = none
  nonzero (some n) = if n == 0 then none else some n

  unfoldable pub read_anchor : ℕ → ℕ → PayloadMap g.remote.cbor → Result Error AnchorStatus
  read_anchor context_id anchor_id payload = do
    context ← lift (required_u64 g.remote.cbor payload 0)
    refuse_if (not (context == context_id)) invalid_data
    anchor ← lift (required_u64 g.remote.cbor payload 1)
    refuse_if (not (anchor == anchor_id)) invalid_data
    state ← lift (required_u64 g.remote.cbor payload 2)
    refuse_if (ltb 2 state) invalid_data
    generation ← lift (optional_u64 g.remote.cbor payload 6)
    ok record {
      context_id = context_id;
      anchor_id = anchor_id;
      state = state;
      target_generation = nonzero generation;
      payload = payload;
    }

  unfoldable pub query_anchor : ℕ → ℕ → ℕ → Answer g.remote → Result Error AnchorStatus
  query_anchor target_generation context_id anchor_id answer = do
    refuse_if (context_id == 0 || anchor_id == 0) invalid_input
    reply ← answer record {
      record_type = g.query_anchor;
      object_id = anchor_id;
      payload = (0, g.remote.unsigned context_id) ∷ (1, g.remote.unsigned anchor_id) ∷ [];
      transaction_id = none;
      expected_target_generation = none;
    }
    payload ← elim reply [
      | some r ↦ online_anchor anchor_id r
      | none ↦ ok (offline_anchor target_generation context_id anchor_id)
    ]
    read_anchor context_id anchor_id payload
