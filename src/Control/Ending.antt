-- ===== src/Control/Ending.antt =====
-- A session that any thread closes in src/session.rs: its flag, its flows, and what comes after.
use vivid_sdk.Prelude.{
  ◌≡◌, refl, ◌∙◌, inl, inr, Bool, true, false, Option, none, some, List, [], ◌∷◌, arith, All,
}
use vivid_sdk.Control.State.{
  Presenter, ReaderState, running, leaving, closing, stopping, ended, Error, Control, Record,
  withdraw,
}
use vivid_sdk.Control.Dispatch.{
  dispatch, begin_close, close_flows, stop, drain, end_round, round, lose_reader, clean_up, Event,
  reads, loses_connection, drains, begins, withdraws, takes, closes, closes_flows, registers_flow,
  creates, step, run,
}
use vivid_sdk.Control.Answers.{begin_request-cases}
use vivid_sdk.Control.Losses.{IsClosed, close_flow-IsClosed}
use vivid_sdk.Control.Closing.{IsCalm, dispatch-IsCalm, push_flow-over}

module _ (p : Presenter) where
  -- The flag is set and, where `shut`, every flow is closed.
  pub record IsOver (shut : Bool) (c : Control p) : Type 0 where
    pub flag : c.session_closed ≡ true
    pub flows : shut ≡ true → All IsClosed c.flows

  IsOver-IsCalm : (k : Bool) (c d : Control p) → IsCalm p c d → IsOver k c → IsOver k d
  IsOver-IsCalm k c d q v = record { flag = q.session ∙ v.flag; flows = λ h. q.flows (v.flows h) }

  end_round-IsOver :
      (k : Bool) (d : Control p × Option Error) → IsOver k d.0 → IsOver k (end_round p d)
  unfolding stop
  end_round-IsOver k (d, none) v = v
  end_round-IsOver k (d, some e) v = record { flag = v.flag; flows = v.flows }

  round-IsOver :
      (k : Bool) (c : Control p) (r : Record p) (w : Bool) (s : ReaderState)
      → IsOver k c
      → IsOver k (round p c r w s)
  round-IsOver k c r w running v =
      end_round-IsOver k (dispatch p c r w) (IsOver-IsCalm k c _ (dispatch-IsCalm p c r w) v)
  round-IsOver k c r w (leaving m) v = v
  round-IsOver k c r w (closing m) v = v
  round-IsOver k c r w (stopping m) v = v
  round-IsOver k c r w ended v = v

  lose_reader-IsOver :
      (k : Bool) (c : Control p) (s : ReaderState) → IsOver k c → IsOver k (lose_reader p c s)
  unfolding stop
  lose_reader-IsOver k c running v = record { flag = v.flag; flows = v.flows }
  lose_reader-IsOver k c (leaving m) v = v
  lose_reader-IsOver k c (closing m) v = v
  lose_reader-IsOver k c (stopping m) v = v
  lose_reader-IsOver k c ended v = v

  clean_up-IsOver :
      (k : Bool) (c : Control p) (s : ReaderState) → IsOver k c → IsOver k (clean_up p c s)
  unfolding drain begin_close close_flows
  clean_up-IsOver k c running v = v
  clean_up-IsOver k c (leaving m) v = record { flag = refl; flows = v.flows }
  clean_up-IsOver k c (closing m) v = record {
    flag = v.flag;
    flows = λ h. close_flow-IsClosed m c.flows;
  }
  clean_up-IsOver k c (stopping m) v = record { flag = v.flag; flows = v.flows }
  clean_up-IsOver k c ended v = v

  step-IsOver : (k : Bool) (c : Control p) (e : Event p) → IsOver k c → IsOver k (step p c e)
  unfolding step withdraw begin_close close_flows
  step-IsOver k c (reads r w) v = round-IsOver k c r w c.reader v
  step-IsOver k c loses_connection v = lose_reader-IsOver k c c.reader v
  step-IsOver k c drains v = clean_up-IsOver k c c.reader v
  step-IsOver k c (begins id) v = elim (begin_request-cases p c id) [
    | inl e ↦ rw e v
    | inr (inl e) ↦ rw e (record { flag = v.flag; flows = v.flows })
    | inr (inr (open_, e)) ↦ rw e (record { flag = v.flag; flows = v.flows })
  ]
  step-IsOver k c (withdraws id) v = record { flag = v.flag; flows = v.flows }
  step-IsOver k c takes v = record { flag = v.flag; flows = v.flows }
  step-IsOver k c (closes m) v = record { flag = refl; flows = v.flows }
  step-IsOver k c (closes_flows m) v = record {
    flag = v.flag;
    flows = λ h. close_flow-IsClosed m c.flows;
  }
  step-IsOver k c registers_flow v = rw (push_flow-over p c v.flag) v
  step-IsOver k c (creates t) v = record { flag = v.flag; flows = v.flows }

  run-IsOver : (k : Bool) (c : Control p) (es : List (Event p)) → IsOver k c → IsOver k (run p c es)
  unfolding run
  run-IsOver k c [] v = v
  run-IsOver k c (e ∷ es) v = run-IsOver k (step p c e) es (step-IsOver k c e v)

  begin_close-IsOver : (c : Control p) (m : Error) → IsOver false (begin_close p c m)
  unfolding begin_close
  begin_close-IsOver c m = record { flag = refl; flows = λ h. absurd (ground arith) }

  close_flows-IsOver :
      (c : Control p) (m : Error) → IsOver false c → IsOver true (close_flows p c m)
  unfolding close_flows
  close_flows-IsOver c m v = record { flag = v.flag; flows = λ h. close_flow-IsClosed m c.flows }

  -- Once a thread has taken both steps of a close, the session is closed and every flow that was ever
  -- registered is, whatever all threads do between the two steps and later: also a thread that passed
  -- its first test of the flag before the close adds no open flow.
  pub closed_session_flows :
      (c : Control p) (between later : List (Event p)) (m : Error)
      → IsOver true (run p (close_flows p (run p (begin_close p c m) between) m) later)
  closed_session_flows c between later m =
      let flagged = run-IsOver false (begin_close p c m) between (begin_close-IsOver c m) in
      run-IsOver true _ later (close_flows-IsOver (run p (begin_close p c m) between) m flagged)
