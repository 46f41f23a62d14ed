-- ===== src/Scene/Transactions.antt =====
-- How a scene transaction of src/scene.rs ends.
use vivid_sdk.Prelude.{◌+◌, ◌≤◌, ℕ, ◌≡◌, Option, none, some, Result, ok, err, u64_max}
use vivid_sdk.Session.{Error, Reply}
use vivid_sdk.Scene.Steps.{opened, next_record, logged}
use vivid_sdk.Session.{invalid_data}
use vivid_sdk.Scene.Commits.{Stage, SceneCommit, read_presented, is_presented}
use vivid_sdk.Scene.{
  and_then, Message, begins, commits, aborts, SceneState, Presenter, Action, presented,
  store_revision,
}

module _ (g : Stage) (p : Presenter g) where
  abbrev pub commit_of : SceneState g → Message g
  commit_of s = commits s.target_generation s.scene_revision

  -- The commit that the presenter, or the offline session, makes of an answer to COMMIT_TXN.
  pub data Confirms (s : SceneState g) (txn : ℕ) : SceneCommit → Type 0 where
    offline :
        p.answer s.sent (next_record g p s txn (commit_of s)) ≡ ok none
        → Confirms s txn record {
          scene_revision = s.scene_revision + 1;
          target_generation = s.target_generation;
        }
    presented_by :
        (reply : Reply g.remote) (c : SceneCommit)
        → p.answer s.sent (next_record g p s txn (commit_of s)) ≡ ok (some reply)
        → is_presented g txn reply ≡ ok tt
        → read_presented g reply ≡ ok c
        → Confirms s txn c

  -- How a commit ends.
  pub data Commits (s : SceneState g) (txn : ℕ)
      : SceneState g × Result Error SceneCommit → Type 0 where
    committed :
        (c : SceneCommit)
        → Confirms s txn c
        → Commits s txn
            (record (logged g p s txn (commit_of s)) { scene_revision = c.scene_revision }, ok c)
    aborted :
        (e : Error) → Commits s txn (logged g p (logged g p s txn (commit_of s)) txn aborts, err e)
    malformed :
        (reply : Reply g.remote) (e : Error)
        → p.answer s.sent (next_record g p s txn (commit_of s)) ≡ ok (some reply)
        → is_presented g txn reply ≡ ok tt
        → read_presented g reply ≡ err e
        → Commits s txn (logged g p s txn (commit_of s), err e)
    exhausted :
        p.answer s.sent (next_record g p s txn (commit_of s)) ≡ ok none
        → u64_max ≤ s.scene_revision
        → Commits s txn (logged g p s txn (commit_of s), err invalid_data)

  -- The end of a commit, from the answer on.
  rest_of_commit : ℕ → Option (Reply g.remote) → Action g SceneCommit
  rest_of_commit txn reply s = and_then g (presented g p txn reply s) (λ c. store_revision g p c)

  -- The state of a transaction that is begun, and of one whose mutation is written too.
  abbrev pub begun : SceneState g → ℕ → SceneState g
  begun s context_id = logged g p (opened g p s) s.next_id (begins context_id)

  abbrev pub mutated : SceneState g → ℕ → Message g → SceneState g
  mutated s context_id x = logged g p (begun s context_id) s.next_id x

  -- How a transaction ends: BEGIN_TXN is not acknowledged; the mutation is not, and ABORT_TXN follows;
  -- or it goes on to its commit.
  pub data Ends (s : SceneState g) (context_id : ℕ) (x : Message g)
      : SceneState g × Result Error SceneCommit → Type 0 where
    begin_refused : (e : Error) → Ends s context_id x (begun s context_id, err e)
    mutation_refused :
        (e : Error)
        → Ends s context_id x (logged g p (mutated s context_id x) s.next_id aborts, err e)
    reaches_commit :
        (r : SceneState g × Result Error SceneCommit)
        → Commits (mutated s context_id x) s.next_id r
        → Ends s context_id x r
