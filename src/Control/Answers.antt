-- ===== src/Control/Answers.antt =====
-- Requests on the control connection of src/session.rs and their answers, across the interleavings of
-- the reader's thread with the threads that send requests.
use vivid_sdk.Prelude.{
  ◌≤◌, ℕ, ◌≡◌, refl, ◌∙◌, ◌⊎◌, inl, inr, Bool, true, false, Option, none, some, List, [], ◌∷◌, ◌++◌,
  arith, Bool-cases, length, All,
}
use vivid_sdk.Control.State.{
  Presenter, read_failed, dispatcher_stopped, ReaderState, running, leaving, closing, stopping,
  ended, Error, Envelope, Record, Answer, reply, failure, Control, holds, without, begin_request,
  withdraw, push_flow, FlowState, open_flow, new_control, max_control_events, SessionEvent,
}
use vivid_sdk.Control.Dispatch.{
  dispatch, begin_close, close_flows, stop, fail_all, drain, end_round, round, lose_reader,
  clean_up, Event, reads, loses_connection, drains, begins, withdraws, takes, closes, closes_flows,
  registers_flow, creates, step, run, tail,
}
use vivid_sdk.Control.Effects.{IsQuiet, dispatch-cases}

module _ (p : Presenter) where
  -- A reply is a record that carries the ID of the request.
  abbrev pub Correlates : ℕ × Answer p → Type 0
  Correlates (id, reply r) = (v : Envelope p) × (r.decoded ≡ some v) × (v.request_id ≡ id)
  Correlates (id, failure e) = Unit

  abbrev pub NoneLeft : ReaderState → List ℕ → Type 0
  NoneLeft running ids = Unit
  NoneLeft (leaving m) ids = Unit
  NoneLeft (closing m) ids = Unit
  NoneLeft (stopping m) ids = Unit
  NoneLeft ended ids = ids ≡ []

  -- What holds of the control plane between two steps.
  pub record Inv (c : Control p) : Type 0 where
    pub refuses : (c.reader ≡ running) ⊎ (c.closed ≡ true)
    pub left : NoneLeft c.reader c.requests
    pub correlated : All Correlates c.answers
    pub bounded : length c.events ≤ max_control_events

  All-append :
      (xs ys : List (ℕ × Answer p))
      → All Correlates xs
      → All Correlates ys
      → All Correlates (xs ++ ys)
  All-append [] ys v w = w
  All-append (x ∷ xs) ys v w = (v.0, All-append xs ys v.1 w)

  fail_all-Correlates : (ids : List ℕ) (m : Error) → All Correlates (fail_all p ids m)
  fail_all-Correlates [] m = tt
  fail_all-Correlates (x ∷ ids) m = (tt, fail_all-Correlates ids m)

  Inv-IsQuiet : (c d : Control p) → IsQuiet p c d → Inv c → Inv d
  Inv-IsQuiet c d q v = record {
    refuses = rw (q.reader, q.closed) v.refuses;
    left = rw (q.reader, q.requests) v.left;
    correlated = rw (q.answers) v.correlated;
    bounded = q.bounded v.bounded;
  }

  stop-Inv : (c : Control p) (m : Error) → Inv c → Inv (stop p c m)
  unfolding stop
  stop-Inv c m v = record {
    refuses = inr refl;
    left = tt;
    correlated = v.correlated;
    bounded = v.bounded;
  }

  end_round-Inv : (d : Control p × Option Error) → Inv d.0 → Inv (end_round p d)
  end_round-Inv (d, none) v = v
  end_round-Inv (d, some e) v = stop-Inv d e v

  dispatch-Inv :
      (c : Control p) (r : Record p) (w : Bool)
      → c.reader ≡ running
      → Inv c
      → Inv (dispatch p c r w).0
  dispatch-Inv c r w on v = elim (dispatch-cases p c r w) [
    | inl q ↦ Inv-IsQuiet c _ q v
    | inr q ↦ record {
      refuses = inl (q.reader ∙ on);
      left = rw (q.reader, on) tt;
      correlated =
          rw (q.answers)
            (All-append c.answers _ v.correlated ((q.envelope, q.decoded, q.same), tt));
      bounded = rw (q.events) v.bounded;
    }
  ]

  without-NoneLeft :
      (s : ReaderState) (ids : List ℕ) (k : ℕ) → NoneLeft s ids → NoneLeft s (without p ids k)
  without-NoneLeft running ids k h = tt
  without-NoneLeft (leaving m) ids k h = tt
  without-NoneLeft (closing m) ids k h = tt
  without-NoneLeft (stopping m) ids k h = tt
  without-NoneLeft ended ids k h = rw h refl

  length-tail : (es : List (SessionEvent p)) → length (tail p es) ≤ length es
  length-tail [] = omega arith
  length-tail (e ∷ es) = omega arith

  round-Inv :
      (c : Control p) (r : Record p) (w : Bool) (s : ReaderState)
      → c.reader ≡ s
      → Inv c
      → Inv (round p c r w s)
  round-Inv c r w running on v = end_round-Inv (dispatch p c r w) (dispatch-Inv c r w on v)
  round-Inv c r w (leaving m) off v = v
  round-Inv c r w (closing m) off v = v
  round-Inv c r w (stopping m) off v = v
  round-Inv c r w ended off v = v

  lose_reader-Inv : (c : Control p) (s : ReaderState) → Inv c → Inv (lose_reader p c s)
  lose_reader-Inv c running v = stop-Inv c read_failed v
  lose_reader-Inv c (leaving m) v = v
  lose_reader-Inv c (closing m) v = v
  lose_reader-Inv c (stopping m) v = v
  lose_reader-Inv c ended v = v

  shut :
      (c : Control p) (m : Error)
      → c.reader ≡ stopping m
      → (c.reader ≡ running) ⊎ (c.closed ≡ true)
      → c.closed ≡ true
  shut c m off h = ground arith

  clean_up-Inv : (c : Control p) (s : ReaderState) → c.reader ≡ s → Inv c → Inv (clean_up p c s)
  unfolding drain begin_close close_flows
  clean_up-Inv c running on v = v
  clean_up-Inv c (leaving m) off v = record {
    refuses = inr (ground (arith, v.refuses));
    left = tt;
    correlated = v.correlated;
    bounded = v.bounded;
  }
  clean_up-Inv c (closing m) off v = record {
    refuses = inr (ground (arith, v.refuses));
    left = tt;
    correlated = v.correlated;
    bounded = v.bounded;
  }
  clean_up-Inv c (stopping m) off v = record {
    refuses = inr (shut c m off v.refuses);
    left = refl;
    correlated = All-append c.answers _ v.correlated (fail_all-Correlates c.requests m);
    bounded = omega arith;
  }
  clean_up-Inv c ended off v = v

  register_flow-same :
      (c : Control p) → (flows : List FlowState) × (push_flow p c ≡ record c { flows = flows })
  unfolding push_flow
  register_flow-same c = elim (Bool-cases c.session_closed) [
    | inl over ↦ (c.flows, ground arith)
    | inr live ↦ (c.flows ++ open_flow ∷ [], ground arith)
  ]

  pub begin_request-cases :
      (c : Control p) (id : ℕ)
      → ((begin_request p c id).0 ≡ c)
        ⊎ (((begin_request p c id).0
              ≡ record c { answers = c.answers ++ (id, failure dispatcher_stopped) ∷ [] })
            ⊎ ((c.closed ≡ false)
                × ((begin_request p c id).0 ≡ record c { requests = c.requests ++ id ∷ [] })))
  unfolding begin_request
  begin_request-cases c id = elim (Bool-cases c.closed) [
    | inl off ↦ inl (ground arith)
    | inr open_ ↦ elim (Bool-cases (holds p c.requests id)) [
      | inl held ↦ inr (inl (ground arith))
      | inr free ↦ inr (inr (open_, ground arith))
    ]
  ]

  on :
      (c : Control p)
      → c.closed ≡ false
      → (c.reader ≡ running) ⊎ (c.closed ≡ true)
      → c.reader ≡ running
  on c open_ h = ground arith

  open-NoneLeft : (s : ReaderState) (ids : List ℕ) → s ≡ running → NoneLeft s ids
  open-NoneLeft running ids e = tt
  open-NoneLeft (leaving m) ids e = tt
  open-NoneLeft (closing m) ids e = tt
  open-NoneLeft (stopping m) ids e = tt
  open-NoneLeft ended ids e = absurd (ground arith)

  step-Inv : (c : Control p) (e : Event p) → Inv c → Inv (step p c e)
  unfolding step withdraw begin_close close_flows
  step-Inv c (reads r w) v = round-Inv c r w c.reader refl v
  step-Inv c loses_connection v = lose_reader-Inv c c.reader v
  step-Inv c drains v = clean_up-Inv c c.reader refl v
  step-Inv c (begins id) v = elim (begin_request-cases c id) [
    | inl e ↦ rw e v
    | inr (inl e) ↦ rw e (record {
      refuses = v.refuses;
      left = v.left;
      correlated = All-append c.answers _ v.correlated (tt, tt);
      bounded = v.bounded;
    })
    | inr (inr (open_, e)) ↦ rw e (record {
      refuses = v.refuses;
      left = open-NoneLeft c.reader (c.requests ++ id ∷ []) (on c open_ v.refuses);
      correlated = v.correlated;
      bounded = v.bounded;
    })
  ]
  step-Inv c (withdraws id) v = record {
    refuses = v.refuses;
    left = without-NoneLeft c.reader c.requests id v.left;
    correlated = v.correlated;
    bounded = v.bounded;
  }
  step-Inv c takes v = record {
    refuses = v.refuses;
    left = v.left;
    correlated = v.correlated;
    bounded = omega (arith, v.bounded, length-tail c.events);
  }
  step-Inv c registers_flow v =
      let (flows, e) = register_flow-same c in
      rw e (record {
        refuses = v.refuses;
        left = v.left;
        correlated = v.correlated;
        bounded = v.bounded;
      })
  step-Inv c (creates t) v = record {
    refuses = v.refuses;
    left = v.left;
    correlated = v.correlated;
    bounded = v.bounded;
  }
  step-Inv c (closes_flows m) v = record {
    refuses = v.refuses;
    left = v.left;
    correlated = v.correlated;
    bounded = v.bounded;
  }
  step-Inv c (closes m) v = record {
    refuses = v.refuses;
    left = v.left;
    correlated = v.correlated;
    bounded = v.bounded;
  }

  pub run-Inv : (c : Control p) (es : List (Event p)) → Inv c → Inv (run p c es)
  unfolding run
  run-Inv c [] v = v
  run-Inv c (e ∷ es) v = run-Inv (step p c e) es (step-Inv c e v)

  -- After any interleaving from a fresh control plane: once the reader has left its loop new requests
  -- are refused; once its clean-up is over the table is empty; every reply that a caller got carries
  -- the ID of its request; and at most 1024 events wait.
  pub run-new_control-Inv : (es : List (Event p)) → Inv (run p (new_control p) es)
  unfolding new_control
  run-new_control-Inv es =
      run-Inv (new_control p) es
        (record { refuses = inl refl; left = tt; correlated = tt; bounded = omega arith })
