-- ===== src/Scene/Steps.antt =====
-- What the single actions of a scene transaction of src/scene.rs write, where everything can be
-- encoded and a request ID is left.
use vivid_sdk.Prelude.{
  ◌+◌, ◌≤◌, ℕ, ◌≡◌, refl, inl, inr, true, [], ◌∷◌, ◌++◌, arith, leb, Result, ok, err, Result-cases,
  u64_max,
}
use vivid_sdk.Control.State.{allocate}
use vivid_sdk.Session.{Error, check_ok}
use vivid_sdk.Scene.Commits.{Stage}
use vivid_sdk.Scene.{
  Message, Sent, or_abort_result, begins, aborts, object_of, SceneState, Presenter, next_request,
  allocate_id, send, dispatch_ok, abort_transaction, abort_with, begin_transaction,
}

module _ (g : Stage) (p : Presenter g) where
  -- The state once a transaction has taken its ID, and once a message of it is written under the next
  -- request ID.
  abbrev pub opened : SceneState g → SceneState g
  opened s = record s { next_id = s.next_id + 1 }

  abbrev pub next_record : SceneState g → ℕ → Message g → Sent g
  next_record s txn x = record { request_id = s.next_request_id; transaction_id = txn; message = x }

  abbrev pub logged : SceneState g → ℕ → Message g → SceneState g
  logged s txn x = record s {
    next_request_id = s.next_request_id + 1;
    sent = s.sent ++ next_record s txn x ∷ [];
  }

  pub next_request_lem :
      (s : SceneState g)
      → s.next_request_id + 1 ≤ u64_max
      → next_request g s
        ≡ (record s { next_request_id = s.next_request_id + 1 }, ok s.next_request_id)
  unfolding next_request allocate
  next_request_lem s room =
      let fits : leb (s.next_request_id + 1) u64_max ≡ true = ground arith in
      rw (fits, next_request, allocate) refl

  pub allocate_id_lem :
      (s : SceneState g) → s.next_id + 1 ≤ u64_max → allocate_id g s ≡ (opened s, ok s.next_id)
  unfolding allocate_id allocate
  allocate_id_lem s room =
      let fits : leb (s.next_id + 1) u64_max ≡ true = ground arith in
      rw (fits, allocate_id, allocate) refl

  -- Everything can be encoded.
  abbrev pub Encodes : Type 0
  Encodes = (x : Sent g) → p.encodes x ≡ true

  pub send_lem :
      (x : Sent g) (s : SceneState g)
      → Encodes
      → send g p x s ≡ (record s { sent = s.sent ++ x ∷ [] }, p.answer s.sent x)
  unfolding send
  send_lem x s all = rw (all x) refl

  pub dispatch_ok_lem :
      (x : Sent g) (s : SceneState g)
      → Encodes
      → (r : Result Error (Unit {0})) × (dispatch_ok g p x s
          ≡ (record s { sent = s.sent ++ x ∷ [] }, r))
  unfolding dispatch_ok
  dispatch_ok_lem x s all = elim (Result-cases (p.answer s.sent x)) [
    | inl (reply, h) ↦
        (check_ok g.remote x.request_id (object_of g x) reply, rw (send_lem x s all, h) refl)
    | inr (e, h) ↦ (err e, rw (send_lem x s all, h) refl)
  ]

  pub begin_transaction_lem :
      (context_id txn : ℕ) (s : SceneState g)
      → Encodes
      → s.next_request_id + 1 ≤ u64_max
      → (r : Result Error (Unit {0})) × (begin_transaction g p context_id txn s
          ≡ (logged s txn (begins context_id), r))
  unfolding begin_transaction
  begin_transaction_lem context_id txn s all room =
      let (r, h) =
        dispatch_ok_lem (next_record s txn (begins context_id))
          (record s { next_request_id = s.next_request_id + 1 }) all in
      (r, rw (next_request_lem s room) h)

  pub abort_with_lem :
      {A : Type 0} (txn : ℕ) (e : Error) (s : SceneState g)
      → Encodes
      → s.next_request_id + 1 ≤ u64_max
      → ◌≡◌ {A = SceneState g × Result Error A}
          (abort_with g p txn e s)
          (logged s txn aborts, err e)
  unfolding abort_with abort_transaction
  abort_with_lem txn e s all room =
      let (r, h) =
        dispatch_ok_lem (next_record s txn aborts)
          (record s { next_request_id = s.next_request_id + 1 }) all in
      rw (next_request_lem s room, h) refl

  pub or_abort_result_lem :
      {A : Type 0} (x : Sent g) (s : SceneState g) (e : Error)
      → Encodes
      → s.next_request_id + 1 ≤ u64_max
      → ◌≡◌ {A = SceneState g × Result Error A}
          (or_abort_result g p x (s, err e))
          (logged s x.transaction_id aborts, err e)
  unfolding or_abort_result
  or_abort_result_lem x s e all room = rw (all x) (abort_with_lem x.transaction_id e s all room)
