-- ===== src/Scene.antt =====
-- src/scene.rs, scene transactions: `scene_transaction`, `abort_transaction`, `create_node`,
-- `update_node`, `delete_node`, `place_terminal_surface`. A method is an action on the session's state.
pub mod Commits
pub mod Steps
pub mod Transactions
pub mod Activation
pub mod Anchors
pub mod Nodes
mod Tests
use vivid_sdk.Prelude.{
  ℕ, Option, none, some, List, [], ◌∷◌, ◌++◌, ◌+◌, ◌==◌, ◌||◌, ◌-◌, ◌^◌, Bool, not, ltb, leb,
  length, Result, ok, err, if◌then◌else◌, u64_max,
}
use vivid_sdk.Wire.{PayloadMap}
use vivid_sdk.Scene.Commits.{Stage, SceneCommit, read_presented, is_presented}
use vivid_sdk.Control.State
use vivid_sdk.Control.State.{allocate}
use vivid_sdk.Session.{
  Remote, Error, control, invalid_input, invalid_data, undecodable, Reply, check_ok,
}

module _ (g : Stage) where
  -- What a record of a transaction says: the owning context, a mutation with its type, node and
  -- payload, or the expected target generation and scene revision of a commit.
  pub data Message : Type 0 where
    begins : ℕ → Message
    mutates : ℕ → ℕ → PayloadMap g.remote.cbor → Message
    commits : ℕ → ℕ → Message
    aborts : Message

  pub record Sent : Type 0 where
    pub request_id : ℕ
    pub transaction_id : ℕ
    pub message : Message

  -- The type of the record and the object that it is for.
  abbrev pub record_type : Message → ℕ
  record_type (begins context_id) = g.begin_txn
  record_type (mutates mutation_type node_id payload) = mutation_type
  record_type (commits generation revision) = g.commit_txn
  record_type aborts = g.abort_txn

  abbrev pub object_of : Sent → ℕ
  object_of x = elim x.message [
    | begins context_id ↦ x.transaction_id
    | mutates mutation_type node_id payload ↦ node_id
    | commits generation revision ↦ x.transaction_id
    | aborts ↦ x.transaction_id
  ]

  -- The allocators, `info.scene_revision`, `info.target_generation`, and what was written so far.
  pub record SceneState : Type 0 where
    pub next_id : ℕ
    pub next_request_id : ℕ
    pub scene_revision : ℕ
    pub target_generation : ℕ
    pub sent : List Sent

  -- The control plane and the encoding with its metadata: the answer to a record may depend on all
  -- that was written before. None is the answer of an offline session.
  pub record Presenter : Type 0 where
    pub encodes : Sent → Bool
    pub answer : List Sent → Sent → Result Error (Option (Reply g.remote))

  abbrev pub Action : Type 0 → Type 0
  Action A = SceneState → SceneState × Result Error A

  -- The `?` operator on actions.
  abbrev pub and_then :
      {A B : Type 0} → SceneState × Result Error A → (A → Action B) → SceneState × Result Error B
  and_then (s, err e) k = (s, err e)
  and_then (s, ok a) k = k a s

  infixl 5 ◌>>=◌ ◌>>◌
  abbrev pub ◌>>=◌ : {A B : Type 0} → Action A → (A → Action B) → Action B
  m >>= k = λ s. and_then (m s) k

  abbrev pub ◌>>◌ : {A B : Type 0} → Action A → Action B → Action B
  m >> k = λ s. and_then (m s) (λ a. k)

  abbrev pub pure : {A : Type 0} → Result Error A → Action A
  pure r = λ s. (s, r)

  unfoldable pub next_request : Action ℕ
  next_request s = elim (allocate s.next_request_id State.requests_exhausted) [
    | err e ↦ (s, err (control e))
    | ok (next, id) ↦ (record s { next_request_id = next }, ok id)
  ]

  unfoldable pub allocate_id : Action ℕ
  allocate_id s = elim (allocate s.next_id State.ids_exhausted) [
    | err e ↦ (s, err (control e))
    | ok (next, id) ↦ (record s { next_id = next }, ok id)
  ]

  module _ (p : Presenter) where
    -- Encoding and `control.request`. What cannot be encoded is not written.
    unfoldable pub send : Sent → Action (Option (Reply g.remote))
    send x s =
        if p.encodes x
        then (record s { sent = s.sent ++ x ∷ [] }, p.answer s.sent x)
        else (s, err undecodable)

    -- `dispatch_ok`.
    unfoldable pub dispatch_ok : Sent → Action (Unit {0})
    dispatch_ok x = do reply ← send x; pure (check_ok g.remote x.request_id (object_of x) reply)

    unfoldable pub abort_transaction : ℕ → Action (Unit {0})
    abort_transaction txn = do
      id ← next_request
      dispatch_ok record { request_id = id; transaction_id = txn; message = aborts }

    -- `let _ = self.abort_transaction(..); return Err(error);`
    unfoldable pub abort_with : {A : Type 0} → ℕ → Error → Action A
    abort_with txn e s = ((abort_transaction txn s).0, err e)

    -- `if let Err(error) = self.dispatch_ok(..) { abort; return Err(error); }` and the like. What cannot
    -- be encoded returns before, by the `?` of `encode`.
    unfoldable pub or_abort_result :
        {A : Type 0} → Sent → SceneState × Result Error A → SceneState × Result Error A
    or_abort_result x (s, ok a) = (s, ok a)
    or_abort_result x (s, err e) =
        if p.encodes x then abort_with x.transaction_id e s else (s, err e)

    abbrev pub or_abort : {A : Type 0} → Sent → Action A → Action A
    or_abort x m s = or_abort_result x (m s)

    -- The reply to COMMIT_TXN; offline the cached revision advances.
    unfoldable pub presented : ℕ → Option (Reply g.remote) → Action SceneCommit
    presented txn none s =
        if leb (s.scene_revision + 1) u64_max
        then (
          s,
          ok record {
            scene_revision = s.scene_revision + 1;
            target_generation = s.target_generation;
          },
        )
        else (s, err invalid_data)
    presented txn (some reply) s = elim (is_presented g txn reply) [
      | err e ↦ abort_with txn e s
      | ok u ↦ (s, read_presented g reply)
    ]

    unfoldable pub store_revision : SceneCommit → Action SceneCommit
    store_revision c s = (record s { scene_revision = c.scene_revision }, ok c)

    unfoldable pub begin_transaction : ℕ → ℕ → Action (Unit {0})
    begin_transaction context_id txn = do
      id ← next_request
      dispatch_ok record { request_id = id; transaction_id = txn; message = begins context_id }

    unfoldable pub mutate : ℕ → ℕ → ℕ → PayloadMap g.remote.cbor → Action (Unit {0})
    mutate txn mutation_type node_id payload = do
      id ← next_request
      x ← pure (
          ok record {
            request_id = id;
            transaction_id = txn;
            message = mutates mutation_type node_id payload;
          })
      or_abort x (dispatch_ok x)

    unfoldable pub commit : ℕ → Action SceneCommit
    commit txn = do
      id ← next_request
      x ← λ s. (
        s,
        ok record {
          request_id = id;
          transaction_id = txn;
          message = commits s.target_generation s.scene_revision;
        },
      )
      reply ← or_abort x (send x)
      c ← presented txn reply
      store_revision c

    unfoldable pub scene_transaction : ℕ → ℕ → ℕ → PayloadMap g.remote.cbor → Action SceneCommit
    scene_transaction context_id mutation_type node_id payload = do
      txn ← allocate_id
      begin_transaction context_id txn
      mutate txn mutation_type node_id payload
      commit txn
