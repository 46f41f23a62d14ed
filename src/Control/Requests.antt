-- ===== src/Control/Requests.antt =====
-- The requests in the table of src/session.rs and the answers of their callers, up to the end of the
-- reader's thread.
use vivid_sdk.Prelude.{
  ℕ, ◌≡◌, refl, ◌≢◌, inl, inr, Bool, true, false, ◌||◌, Option, none, some, List, [], ◌∷◌, ◌++◌,
  arith, ◌==◌, Bool-cases,
}
use vivid_sdk.Control.State.{
  Presenter, dispatcher_stopped, ReaderState, running, leaving, closing, stopping, ended, Error,
  Record, Answer, reply, failure, Control, holds, without, begin_request, withdraw, push_flow,
  new_control,
}
use vivid_sdk.Control.Dispatch.{
  dispatch, begin_close, close_flows, stop, fail_all, drain, end_round, round, lose_reader,
  clean_up, Event, reads, loses_connection, drains, begins, withdraws, takes, closes, closes_flows,
  registers_flow, creates, step, run,
}
use vivid_sdk.Control.Answers.{NoneLeft, run-Inv, run-new_control-Inv}
use vivid_sdk.Control.Effects.{dispatch-cases}

module _ (p : Presenter) where
  abbrev pub has_answer : List (ℕ × Answer p) → ℕ → Bool
  has_answer [] id = false
  has_answer ((k, a) ∷ rest) id = k == id || has_answer rest id

  pub has_answer-append :
      (xs ys : List (ℕ × Answer p)) (id : ℕ)
      → has_answer (xs ++ ys) id ≡ (has_answer xs id || has_answer ys id)
  has_answer-append [] ys id = refl
  has_answer-append ((k, a) ∷ xs) ys id = ground (arith, has_answer-append xs ys id)

  pub has_answer-fail_all :
      (ids : List ℕ) (m : Error) (id : ℕ) → has_answer (fail_all p ids m) id ≡ holds p ids id
  has_answer-fail_all [] m id = refl
  has_answer-fail_all (x ∷ ids) m id = ground (arith, has_answer-fail_all ids m id)

  pub holds-without :
      (ids : List ℕ) (k id : ℕ) → k ≢ id → holds p (without p ids k) id ≡ holds p ids id
  holds-without [] k id ne = refl
  holds-without (x ∷ ids) k id ne = ground (arith, holds-without ids k id ne)

  pub holds-append :
      (ids : List ℕ) (k id : ℕ) → holds p ids id ≡ true → holds p (ids ++ k ∷ []) id ≡ true
  holds-append [] k id h = ground arith
  holds-append (x ∷ ids) k id h = ground (arith, holds-append ids k id)

  replied :
      (ids : List ℕ) (answers : List (ℕ × Answer p)) (k id : ℕ) (a : Answer p)
      → (holds p ids id || has_answer answers id) ≡ true
      → (holds p (without p ids k) id || has_answer (answers ++ (k, a) ∷ []) id) ≡ true
  replied ids answers k id a h = elim (Bool-cases (k == id)) [
    | inl same ↦ ground (arith, has_answer-append answers ((k, a) ∷ []) id)
    | inr ne ↦ ground (
      arith,
      has_answer-append answers ((k, a) ∷ []) id,
      holds-without ids k id (λ e. ground arith),
    )
  ]

  abbrev pub is_settled : Control p → ℕ → Bool
  is_settled c id = holds p c.requests id || has_answer c.answers id

  dispatch-is_settled :
      (c : Control p) (r : Record p) (w : Bool) (id : ℕ)
      → is_settled c id ≡ true
      → is_settled (dispatch p c r w).0 id ≡ true
  dispatch-is_settled c r w id h = elim (dispatch-cases p c r w) [
    | inl q ↦ rw (q.requests, q.answers) h
    | inr q ↦ rw (q.requests, q.answers) (replied c.requests c.answers q.id id (reply r) h)
  ]

  end_round-is_settled :
      (d : Control p × Option Error) (id : ℕ)
      → is_settled d.0 id ≡ true
      → is_settled (end_round p d) id ≡ true
  unfolding stop
  end_round-is_settled (d, none) id h = h
  end_round-is_settled (d, some e) id h = h

  round-is_settled :
      (c : Control p) (r : Record p) (w : Bool) (s : ReaderState) (id : ℕ)
      → is_settled c id ≡ true
      → is_settled (round p c r w s) id ≡ true
  round-is_settled c r w running id h =
      end_round-is_settled (dispatch p c r w) id (dispatch-is_settled c r w id h)
  round-is_settled c r w (leaving m) id h = h
  round-is_settled c r w (closing m) id h = h
  round-is_settled c r w (stopping m) id h = h
  round-is_settled c r w ended id h = h

  lose_reader-is_settled :
      (c : Control p) (s : ReaderState) (id : ℕ)
      → is_settled c id ≡ true
      → is_settled (lose_reader p c s) id ≡ true
  unfolding stop
  lose_reader-is_settled c running id h = h
  lose_reader-is_settled c (leaving m) id h = h
  lose_reader-is_settled c (closing m) id h = h
  lose_reader-is_settled c (stopping m) id h = h
  lose_reader-is_settled c ended id h = h

  clean_up-is_settled :
      (c : Control p) (s : ReaderState) (id : ℕ)
      → is_settled c id ≡ true
      → is_settled (clean_up p c s) id ≡ true
  unfolding drain begin_close close_flows
  clean_up-is_settled c running id h = h
  clean_up-is_settled c (leaving m) id h = h
  clean_up-is_settled c (closing m) id h = h
  clean_up-is_settled c (stopping m) id h = ground (
    arith,
    has_answer-append c.answers (fail_all p c.requests m) id,
    has_answer-fail_all c.requests m id,
  )
  clean_up-is_settled c ended id h = h

  -- The request's own write does not fail.
  abbrev pub NoWithdraw : ℕ → List (Event p) → Type 0
  NoWithdraw id [] = Unit
  NoWithdraw id (reads r w ∷ es) = NoWithdraw id es
  NoWithdraw id (loses_connection ∷ es) = NoWithdraw id es
  NoWithdraw id (drains ∷ es) = NoWithdraw id es
  NoWithdraw id (begins k ∷ es) = NoWithdraw id es
  NoWithdraw id (withdraws k ∷ es) = (k ≢ id) × NoWithdraw id es
  NoWithdraw id (takes ∷ es) = NoWithdraw id es
  NoWithdraw id (closes m ∷ es) = NoWithdraw id es
  NoWithdraw id (closes_flows m ∷ es) = NoWithdraw id es
  NoWithdraw id (registers_flow ∷ es) = NoWithdraw id es
  NoWithdraw id (creates t ∷ es) = NoWithdraw id es

  begin_request-is_settled :
      (c : Control p) (k id : ℕ)
      → is_settled c id ≡ true
      → is_settled (begin_request p c k).0 id ≡ true
  unfolding begin_request
  begin_request-is_settled c k id h = ground (
    arith,
    has_answer-append c.answers ((k, failure dispatcher_stopped) ∷ []) id,
    holds-append c.requests k id,
  )

  run-is_settled :
      (c : Control p) (id : ℕ) (es : List (Event p))
      → NoWithdraw id es
      → is_settled c id ≡ true
      → is_settled (run p c es) id ≡ true
  unfolding run step withdraw begin_close close_flows push_flow
  run-is_settled c id [] never h = h
  run-is_settled c id (reads r w ∷ es) never h =
      run-is_settled (step p c (reads r w)) id es never (round-is_settled c r w c.reader id h)
  run-is_settled c id (loses_connection ∷ es) never h =
      run-is_settled (step p c loses_connection) id es never
        (lose_reader-is_settled c c.reader id h)
  run-is_settled c id (drains ∷ es) never h =
      run-is_settled (step p c drains) id es never (clean_up-is_settled c c.reader id h)
  run-is_settled c id (begins k ∷ es) never h =
      run-is_settled (step p c (begins k)) id es never (begin_request-is_settled c k id h)
  run-is_settled c id (withdraws k ∷ es) (ne, never) h =
      run-is_settled (step p c (withdraws k)) id es never
        (ground (arith, holds-without c.requests k id ne))
  run-is_settled c id (takes ∷ es) never h = run-is_settled (step p c takes) id es never h
  run-is_settled c id (closes m ∷ es) never h = run-is_settled (step p c (closes m)) id es never h
  run-is_settled c id (closes_flows m ∷ es) never h =
      run-is_settled (step p c (closes_flows m)) id es never h
  run-is_settled c id (registers_flow ∷ es) never h =
      run-is_settled (step p c registers_flow) id es never (ground arith)
  run-is_settled c id (creates t ∷ es) never h = run-is_settled (step p c (creates t)) id es never h

  nothing_held :
      (s : ReaderState) (ids : List ℕ) (id : ℕ)
      → s ≡ ended
      → NoneLeft p s ids
      → holds p ids id ≡ false
  nothing_held running ids id e h = absurd (ground arith)
  nothing_held (leaving m) ids id e h = absurd (ground arith)
  nothing_held (closing m) ids id e h = absurd (ground arith)
  nothing_held (stopping m) ids id e h = absurd (ground arith)
  nothing_held ended ids id e h = rw h refl

  -- No caller waits for ever: a request that any interleaving from a fresh control plane has put in
  -- the table has an answer once the reader's thread is over, whatever happens in between, unless its
  -- own write failed, which tells its caller.
  pub every_request_ends :
      (before after : List (Event p)) (id : ℕ)
      → holds p (run p (new_control p) before).requests id ≡ true
      → NoWithdraw id after
      → (run p (run p (new_control p) before) after).reader ≡ ended
      → has_answer (run p (run p (new_control p) before) after).answers id ≡ true
  every_request_ends before after id held never over =
      let c = run p (new_control p) before in
      let d = run p c after in
      let v = run-Inv p c after (run-new_control-Inv p before) in
      let settled = run-is_settled c id after never (ground arith) in
      ground (arith, nothing_held d.reader d.requests id over v.left)
