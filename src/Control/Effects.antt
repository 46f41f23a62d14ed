-- ===== src/Control/Effects.antt =====
-- What one round of the reader of src/session.rs changes: either nothing of the table and the answers,
-- or it hands out one reply.
use vivid_sdk.Prelude.{
  ◌≤◌, ℕ, ◌≡◌, refl, ◌∙◌, ◌⊎◌, inl, inr, Bool, some, [], ◌∷◌, ◌++◌, arith, ◌==◌, Bool-cases,
  Option-cases, length, length-append, ok, Result-cases,
}
use vivid_sdk.Wire.{PayloadMap}
use vivid_sdk.Control.State.{
  Presenter, Envelope, Record, reply, Control, holds, without, max_control_events, SessionEvent,
  session_event,
}
use vivid_sdk.Control.Dispatch.{
  dispatch, answer_request, apply_track_lost, push_event, raise_event, notify,
}

module _ (p : Presenter) where
  -- What a round does where it hands out no reply.
  pub record IsQuiet (c d : Control p) : Type 0 where
    pub requests : d.requests ≡ c.requests
    pub answers : d.answers ≡ c.answers
    pub reader : d.reader ≡ c.reader
    pub closed : d.closed ≡ c.closed
    pub bounded : length c.events ≤ max_control_events → length d.events ≤ max_control_events

  IsQuiet-refl : (c : Control p) → IsQuiet c c
  IsQuiet-refl c = record {
    requests = refl;
    answers = refl;
    reader = refl;
    closed = refl;
    bounded = λ h. h;
  }

  apply_track_lost-IsQuiet :
      (c d : Control p) (object_id : ℕ) (m : PayloadMap p.cbor)
      → apply_track_lost p c object_id m ≡ ok d
      → IsQuiet c d
  unfolding apply_track_lost
  apply_track_lost-IsQuiet c d object_id m e = ground arith

  push_event-IsQuiet : (c : Control p) (e : SessionEvent p) → IsQuiet c (push_event p c e).0
  push_event-IsQuiet c e =
      let grown = length-append c.events (e ∷ []) in
      record {
        requests = ground arith;
        answers = ground arith;
        reader = ground arith;
        closed = ground arith;
        bounded = λ h. ground arith;
      }

  IsQuiet-trans : (c d e : Control p) → IsQuiet c d → IsQuiet d e → IsQuiet c e
  IsQuiet-trans c d e v w = record {
    requests = w.requests ∙ v.requests;
    answers = w.answers ∙ v.answers;
    reader = w.reader ∙ v.reader;
    closed = w.closed ∙ v.closed;
    bounded = λ h. w.bounded (v.bounded h);
  }

  raise_event-IsQuiet :
      (c : Control p) (t o : ℕ) (m : PayloadMap p.cbor) → IsQuiet c (raise_event p c t o m).0
  raise_event-IsQuiet c t o m = elim (Result-cases (session_event p t o m)) [
    | inl (e, r) ↦ rw (r, raise_event) (push_event-IsQuiet c e)
    | inr (e, r) ↦ rw (r, raise_event) (IsQuiet-refl c)
  ]

  notify-IsQuiet :
      (c : Control p) (t o : ℕ) (m : PayloadMap p.cbor) → IsQuiet c (notify p c t o m).0
  notify-IsQuiet c t o m = elim (Bool-cases (t == p.track_lost)) [
    | inl lost ↦ rw lost (elim (Result-cases (apply_track_lost p c o m)) [
      | inl (d, r) ↦
          rw r
            (IsQuiet-trans c d _ (apply_track_lost-IsQuiet c d o m r) (raise_event-IsQuiet d t o m))
      | inr (e, r) ↦ rw r (IsQuiet-refl c)
    ])
    | inr other_type ↦ rw other_type (raise_event-IsQuiet c t o m)
  ]

  -- A round that hands out a reply.
  pub record Replies (c d : Control p) (r : Record p) : Type 0 where
    pub id : ℕ
    pub envelope : Envelope p
    pub decoded : r.decoded ≡ some envelope
    pub same : envelope.request_id ≡ id
    pub requests : d.requests ≡ without p c.requests id
    pub answers : d.answers ≡ c.answers ++ (id, reply r) ∷ []
    pub reader : d.reader ≡ c.reader
    pub closed : d.closed ≡ c.closed
    pub events : d.events ≡ c.events

  pub dispatch-cases :
      (c : Control p) (r : Record p) (w : Bool)
      → IsQuiet c (dispatch p c r w).0 ⊎ Replies c (dispatch p c r w).0 r
  unfolding dispatch answer_request
  dispatch-cases c r w = elim (Option-cases r.decoded) [
    | inl none_ ↦ rw none_ (inl (IsQuiet-refl c))
    | inr (v, some_) ↦ rw some_ (elim (Bool-cases (r.record_type == p.ping)) [
      | inl ping ↦ rw ping (inl (IsQuiet-refl c))
      | inr no_ping ↦ rw no_ping (elim (Bool-cases (v.request_id == 0)) [
        | inl event ↦ rw event (inl (notify-IsQuiet c r.record_type r.object_id v.payload))
        | inr answer ↦ rw answer (elim (Bool-cases (holds p c.requests v.request_id)) [
          | inl held ↦ rw held (
              inr (record {
                id = v.request_id;
                envelope = v;
                decoded = refl;
                same = refl;
                requests = refl;
                answers = refl;
                reader = refl;
                closed = refl;
                events = refl;
              }))
          | inr foreign ↦ rw foreign (inl (IsQuiet-refl c))
        ])
      ])
    ])
  ]
