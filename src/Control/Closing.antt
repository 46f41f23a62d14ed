-- ===== src/Control/Closing.antt =====
-- The end of a session in src/session.rs and the flows that were registered with it.
use vivid_sdk.Prelude.{
  ℕ, ◌≡◌, refl, ◌∙◌, inl, inr, Bool, true, false, Option, none, some, List, [], ◌∷◌, ◌++◌, arith,
  ◌==◌, Bool-cases, Option-cases, All, ok, Result-cases,
}
use vivid_sdk.Wire.{PayloadMap}
use vivid_sdk.Control.State.{
  Presenter, ReaderState, running, leaving, closing, stopping, ended, Error, flow_lost, FlowState,
  TrackEntry, Control, session_event, SessionEvent, begin_request, withdraw, push_flow, open_flow,
  new_control, read_failed,
}
use vivid_sdk.Control.Dispatch.{
  Loss, read_loss, lose_track, apply_track_lost, dispatch, answer_request, begin_close, close_flows,
  stop, drain, end_round, round, lose_reader, clean_up, raise_event, push_event, notify, Event,
  reads, loses_connection, drains, begins, withdraws, takes, closes, closes_flows, registers_flow,
  creates, step, run,
}
use vivid_sdk.Control.Answers.{begin_request-cases}
use mathlib.Core.Path.{subst}
use vivid_sdk.Control.State.{Record, holds}
use vivid_sdk.Control.Losses.{
  IsClosed, close_flow-IsClosed, close_active-IsClosed, unknown, backward, lost, lose_track-Loses,
}

module _ (p : Presenter) where
  -- What a round of the reader leaves of the session and its flows.
  pub record IsCalm (c d : Control p) : Type 0 where
    pub session : d.session_closed ≡ c.session_closed
    pub reader : d.reader ≡ c.reader
    pub flows : All IsClosed c.flows → All IsClosed d.flows

  IsCalm-refl : (c : Control p) → IsCalm c c
  IsCalm-refl c = record { session = refl; reader = refl; flows = λ h. h }

  IsCalm-trans : (c d e : Control p) → IsCalm c d → IsCalm d e → IsCalm c e
  IsCalm-trans c d e v w = record {
    session = w.session ∙ v.session;
    reader = w.reader ∙ v.reader;
    flows = λ h. w.flows (v.flows h);
  }

  lose_track-IsClosed :
      (ts us : List (TrackEntry p)) (fs gs : List FlowState) (l : Loss p)
      → lose_track p ts fs l ≡ ok (us, gs)
      → All IsClosed fs
      → All IsClosed gs
  lose_track-IsClosed ts us fs gs l e v = elim (lose_track-Loses p ts fs l) [
    | unknown _ r ↦ subst (All IsClosed) (ground arith) v
    | backward _ _ _ r ↦ absurd (ground arith)
    | lost t _ _ _ r _ ↦
        subst (All IsClosed) (ground arith)
          (close_active-IsClosed fs t.active_flow (flow_lost l.lost.diagnostic) v)
  ]

  apply_track_lost-IsCalm :
      (c d : Control p) (object_id : ℕ) (m : PayloadMap p.cbor)
      → apply_track_lost p c object_id m ≡ ok d
      → IsCalm c d
  unfolding apply_track_lost
  apply_track_lost-IsCalm c d object_id m e = elim (Result-cases (read_loss p object_id m)) [
    | inl (l, r) ↦ elim (Result-cases (lose_track p c.tracks c.flows l)) [
      | inl ((us, gs), q) ↦ record {
        session = ground arith;
        reader = ground arith;
        flows = λ h.
            subst (All IsClosed) (ground arith) (lose_track-IsClosed c.tracks us c.flows gs l q h);
      }
      | inr (x, q) ↦ absurd (ground arith)
    ]
    | inr (x, r) ↦ absurd (ground arith)
  ]

  push_event-IsCalm : (c : Control p) (e : SessionEvent p) → IsCalm c (push_event p c e).0
  push_event-IsCalm c e = record {
    session = ground arith;
    reader = ground arith;
    flows = λ h. subst (All IsClosed) (ground arith) h;
  }

  raise_event-IsCalm :
      (c : Control p) (t o : ℕ) (m : PayloadMap p.cbor) → IsCalm c (raise_event p c t o m).0
  raise_event-IsCalm c t o m = elim (Result-cases (session_event p t o m)) [
    | inl (e, r) ↦ rw (r, raise_event) (push_event-IsCalm c e)
    | inr (e, r) ↦ rw (r, raise_event) (IsCalm-refl c)
  ]

  notify-IsCalm : (c : Control p) (t o : ℕ) (m : PayloadMap p.cbor) → IsCalm c (notify p c t o m).0
  notify-IsCalm c t o m = elim (Bool-cases (t == p.track_lost)) [
    | inl loss ↦ rw loss (elim (Result-cases (apply_track_lost p c o m)) [
      | inl (d, r) ↦
          rw r (IsCalm-trans c d _ (apply_track_lost-IsCalm c d o m r) (raise_event-IsCalm d t o m))
      | inr (e, r) ↦ rw r (IsCalm-refl c)
    ])
    | inr other_type ↦ rw other_type (raise_event-IsCalm c t o m)
  ]

  pub dispatch-IsCalm : (c : Control p) (r : Record p) (w : Bool) → IsCalm c (dispatch p c r w).0
  unfolding dispatch answer_request
  dispatch-IsCalm c r w = elim (Option-cases r.decoded) [
    | inl none_ ↦ rw none_ (IsCalm-refl c)
    | inr (v, some_) ↦ rw some_ (elim (Bool-cases (r.record_type == p.ping)) [
      | inl ping ↦ rw ping (IsCalm-refl c)
      | inr no_ping ↦ rw no_ping (elim (Bool-cases (v.request_id == 0)) [
        | inl event ↦ rw event (notify-IsCalm c r.record_type r.object_id v.payload)
        | inr answer ↦ rw answer (elim (Bool-cases (holds p c.requests v.request_id)) [
          | inl held ↦ rw held (record { session = refl; reader = refl; flows = λ h. h })
          | inr foreign ↦ rw foreign (IsCalm-refl c)
        ])
      ])
    ])
  ]

  -- Is the thread past the flag of the session, or past the closing of the flows?
  abbrev has_flagged : ReaderState → Bool
  has_flagged running = false
  has_flagged (leaving m) = false
  has_flagged (closing m) = true
  has_flagged (stopping m) = true
  has_flagged ended = true

  abbrev has_closed : ReaderState → Bool
  has_closed running = false
  has_closed (leaving m) = false
  has_closed (closing m) = false
  has_closed (stopping m) = true
  has_closed ended = true

  -- A thread past its end of the session has set the flag, and closed every flow.
  pub record Ends (c : Control p) : Type 0 where
    pub session : has_flagged c.reader ≡ true → c.session_closed ≡ true
    pub flows : has_closed c.reader ≡ true → All IsClosed c.flows

  flagged : (s : ReaderState) → has_closed s ≡ true → has_flagged s ≡ true
  flagged running h = absurd (ground arith)
  flagged (leaving m) h = absurd (ground arith)
  flagged (closing m) h = absurd (ground arith)
  flagged (stopping m) h = refl
  flagged ended h = refl

  Ends-IsCalm : (c d : Control p) → IsCalm c d → Ends c → Ends d
  Ends-IsCalm c d q v = record {
    session = rw (q.reader, q.session) v.session;
    flows = rw (q.reader) (λ h. q.flows (v.flows h));
  }

  stop-Ends : (c : Control p) (m : Error) → Ends (stop p c m)
  unfolding stop
  stop-Ends c m = record {
    session = λ h. absurd (ground arith);
    flows = λ h. absurd (ground arith);
  }

  end_round-Ends : (d : Control p × Option Error) → Ends d.0 → Ends (end_round p d)
  end_round-Ends (d, none) v = v
  end_round-Ends (d, some e) v = stop-Ends d e

  round-Ends :
      (c : Control p) (r : Record p) (w : Bool) (s : ReaderState) → Ends c → Ends (round p c r w s)
  round-Ends c r w running v =
      end_round-Ends (dispatch p c r w) (Ends-IsCalm c _ (dispatch-IsCalm c r w) v)
  round-Ends c r w (leaving m) v = v
  round-Ends c r w (closing m) v = v
  round-Ends c r w (stopping m) v = v
  round-Ends c r w ended v = v

  lose_reader-Ends : (c : Control p) (s : ReaderState) → Ends c → Ends (lose_reader p c s)
  lose_reader-Ends c running v = stop-Ends c read_failed
  lose_reader-Ends c (leaving m) v = v
  lose_reader-Ends c (closing m) v = v
  lose_reader-Ends c (stopping m) v = v
  lose_reader-Ends c ended v = v

  clean_up-Ends : (c : Control p) (s : ReaderState) → c.reader ≡ s → Ends c → Ends (clean_up p c s)
  unfolding drain begin_close close_flows
  clean_up-Ends c running at v = v
  clean_up-Ends c (leaving m) at v = record {
    session = λ h. refl;
    flows = λ h. absurd (ground arith);
  }
  clean_up-Ends c (closing m) at v = record {
    session = λ h. v.session (rw at refl);
    flows = λ h. close_flow-IsClosed m c.flows;
  }
  clean_up-Ends c (stopping m) at v = record {
    session = λ h. v.session (rw at refl);
    flows = λ h. v.flows (rw at refl);
  }
  clean_up-Ends c ended at v = v

  begin_request-Ends : (c : Control p) (id : ℕ) → Ends c → Ends (begin_request p c id).0
  begin_request-Ends c id v = elim (begin_request-cases p c id) [
    | inl e ↦ rw e v
    | inr (inl e) ↦ rw e (record { session = v.session; flows = v.flows })
    | inr (inr (open_, e)) ↦ rw e (record { session = v.session; flows = v.flows })
  ]

  pub push_flow-over : (c : Control p) → c.session_closed ≡ true → push_flow p c ≡ c
  unfolding push_flow
  push_flow-over c over = ground arith

  push_flow-live :
      (c : Control p)
      → c.session_closed ≡ false
      → push_flow p c ≡ record c { flows = c.flows ++ open_flow ∷ [] }
  unfolding push_flow
  push_flow-live c live = ground arith

  push_flow-Ends : (c : Control p) → Ends c → Ends (push_flow p c)
  push_flow-Ends c v = elim (Bool-cases c.session_closed) [
    | inl over ↦ rw (push_flow-over c over) v
    | inr live ↦ rw (push_flow-live c live) (record {
      session = v.session;
      flows = λ h. absurd (let f = v.session (flagged c.reader h) in ground arith);
    })
  ]

  step-Ends : (c : Control p) (e : Event p) → Ends c → Ends (step p c e)
  unfolding step withdraw begin_close close_flows
  step-Ends c (reads r w) v = round-Ends c r w c.reader v
  step-Ends c loses_connection v = lose_reader-Ends c c.reader v
  step-Ends c drains v = clean_up-Ends c c.reader refl v
  step-Ends c (begins id) v = begin_request-Ends c id v
  step-Ends c (withdraws id) v = record { session = v.session; flows = v.flows }
  step-Ends c takes v = record { session = v.session; flows = v.flows }
  step-Ends c (closes m) v = record { session = λ h. refl; flows = v.flows }
  step-Ends c (closes_flows m) v = record {
    session = v.session;
    flows = λ h. close_flow-IsClosed m c.flows;
  }
  step-Ends c registers_flow v = push_flow-Ends c v
  step-Ends c (creates t) v = record { session = v.session; flows = v.flows }

  run-Ends : (c : Control p) (es : List (Event p)) → Ends c → Ends (run p c es)
  unfolding run
  run-Ends c [] v = v
  run-Ends c (e ∷ es) v = run-Ends (step p c e) es (step-Ends c e v)

  -- After any interleaving from a fresh control plane, in which flows are registered between the two
  -- steps of any close: once the reader's thread has set the flag of the session, the session is
  -- closed, and once it has closed the flows, every flow that was ever registered is closed.
  pub run-new_control-Ends : (es : List (Event p)) → Ends (run p (new_control p) es)
  unfolding new_control
  run-new_control-Ends es =
      run-Ends (new_control p) es
        record { session = λ h. absurd (ground arith); flows = λ h. absurd (ground arith) }
