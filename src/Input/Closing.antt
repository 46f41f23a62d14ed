-- ===== src/Input/Closing.antt =====
-- How the lane of src/input.rs closes, and what becomes of the requests that wait.
use vivid_sdk.Prelude.{
  ℕ, ◌≡◌, refl, ap, inl, inr, Bool, true, false, ◌||◌, Option, none, some, List, [], ◌∷◌, ◌++◌,
  arith, ◌==◌, Bool-cases, length, ok,
}
use mathlib.Core.Path.{subst}
use vivid_sdk.Session.{Error}
use vivid_sdk.Input.Decoding.{InputWire}
use vivid_sdk.Input.{
  InputRecord, InputLaneEvent, max_input_events, Answer, reply, failure, Lane, holds, without,
  fail_all, close_events, fail_pending, close_input_lane, register, withdraw, push_event,
  answer_request, read_record,
}
use vivid_sdk.Input.Steps.{
  Event, reads, registers, withdraws, closes_events, fails_pending, takes, withdraws_it, step, run,
  withdraws_none, handle_lem, read_record_lem, register_lem,
}

module _ (w : InputWire) where
  abbrev pub has_answer : List (ℕ × Answer w) → ℕ → Bool
  has_answer [] id = false
  has_answer (x ∷ xs) id = x.0 == id || has_answer xs id

  -- The request is in the table or answered.
  abbrev IsTracked : Lane w → ℕ → Type 0
  IsTracked l id = holds w l.requests id || has_answer l.answers id ≡ true

  -- A lane that is closed and on which no request waits.
  abbrev pub IsSettled : Lane w → Type 0
  IsSettled l = (l.closed ≡ true) × (l.requests ≡ [])

  holds-append : (xs ys : List ℕ) (id : ℕ) → holds w (xs ++ ys) id ≡ holds w xs id || holds w ys id
  holds-append [] ys id = refl
  holds-append (x ∷ xs) ys id = let h = holds-append xs ys id in ground arith

  has_answer-append :
      (xs ys : List (ℕ × Answer w)) (id : ℕ)
      → has_answer (xs ++ ys) id ≡ has_answer xs id || has_answer ys id
  has_answer-append [] ys id = refl
  has_answer-append (x ∷ xs) ys id = let h = has_answer-append xs ys id in ground arith

  has_answer-fail_all :
      (xs : List ℕ) (message : Option Error) (id : ℕ)
      → has_answer (fail_all w xs message) id ≡ holds w xs id
  has_answer-fail_all [] message id = refl
  has_answer-fail_all (x ∷ xs) message id =
      let h = has_answer-fail_all xs message id in ground arith

  holds-without :
      (xs : List ℕ) (j id : ℕ) → j == id ≡ false → holds w (without w xs j) id ≡ holds w xs id
  unfolding without
  holds-without [] j id e = refl
  holds-without (x ∷ xs) j id e =
      let h = holds-without xs j id e in
      elim (Bool-cases (x == j)) [
        | inl same ↦ rw same (ground arith)
        | inr other ↦ rw other (ground arith)
      ]

  fail_pending-IsTracked :
      (l : Lane w) (message : Option Error) (id : ℕ)
      → IsTracked l id
      → IsTracked (fail_pending w l message) id
  unfolding fail_pending
  fail_pending-IsTracked l message id h =
      rw (has_answer-append l.answers (fail_all w l.requests message) id)
        (let k = has_answer-fail_all l.requests message id in ground arith)

  close_input_lane-IsTracked :
      (l : Lane w) (message : Option Error) (id : ℕ)
      → IsTracked l id
      → IsTracked (close_input_lane w l message) id
  unfolding close_input_lane close_events
  close_input_lane-IsTracked l message id h =
      fail_pending-IsTracked (close_events w l message) message id h

  answered-IsTracked :
      (l : Lane w) (j : ℕ) (x : InputRecord w) (id : ℕ)
      → IsTracked l id
      → IsTracked
          (record l { requests = without w l.requests j; answers = l.answers ++ (j, reply x) ∷ [] })
          id
  answered-IsTracked l j x id h =
      rw (has_answer-append l.answers ((j, reply x) ∷ []) id) (elim (Bool-cases (j == id)) [
        | inl same ↦ ground arith
        | inr other ↦ let kept = holds-without l.requests j id other in ground arith
      ])

  answer_request-IsTracked :
      (l : Lane w) (j : ℕ) (x : InputRecord w) (after : Lane w) (id : ℕ)
      → answer_request w l j x ≡ ok after
      → IsTracked l id
      → IsTracked after id
  unfolding answer_request
  answer_request-IsTracked l j x after id e h = elim (Bool-cases (holds w l.requests j)) [
    | inr other ↦ absurd (ground arith)
    | inl has ↦
        let same : record l {
          requests = without w l.requests j;
          answers = l.answers ++ (j, reply x) ∷ [];
        }
            ≡ after =
          ground arith in
        subst (λ s. IsTracked s id) same (answered-IsTracked l j x id h)
  ]

  push_event-IsTracked :
      (l : Lane w) (o : Option (InputLaneEvent w)) (after : Lane w) (id : ℕ)
      → push_event w l o ≡ ok after
      → IsTracked l id
      → IsTracked after id
  unfolding push_event
  push_event-IsTracked l none after id e h =
      let same : l ≡ after = ground arith in subst (λ s. IsTracked s id) same h
  push_event-IsTracked l (some x) after id e h =
      elim (Bool-cases (length l.events == max_input_events)) [
        | inl full ↦ absurd (ground arith)
        | inr room ↦
            let same : record l { events = l.events ++ x ∷ [] } ≡ after = ground arith in
            subst (λ s. IsTracked s id) same h
      ]

  read_record-IsTracked :
      (l : Lane w) (r : Option (InputRecord w)) (b : Bool) (id : ℕ)
      → IsTracked l id
      → IsTracked (read_record w l r b) id
  read_record-IsTracked l r b id h =
      read_record_lem w (λ m. IsTracked m id) l r b h
        (λ x after e.
          handle_lem w (λ m. IsTracked m id) l x b after e h
            (λ j k. answer_request-IsTracked l j x after id k h)
            (λ o k. push_event-IsTracked l o after id k h))
        (λ m. close_input_lane-IsTracked (record l { reading = false }) m id h)

  added-IsTracked :
      (l : Lane w) (j id : ℕ)
      → holds w l.requests id || has_answer l.answers id || j == id ≡ true
      → IsTracked (record l { requests = l.requests ++ j ∷ [] }) id
  added-IsTracked l j id h = rw (holds-append l.requests (j ∷ []) id) (ground arith)

  replaced-IsTracked :
      (l : Lane w) (j id : ℕ)
      → IsTracked l id
      → IsTracked (record l { answers = l.answers ++ (j, failure none) ∷ [] }) id
  replaced-IsTracked l j id h =
      rw (has_answer-append l.answers ((j, failure none) ∷ []) id) (ground arith)

  step-IsTracked :
      (l : Lane w) (e : Event w) (id : ℕ)
      → withdraws_it w e id ≡ false
      → IsTracked l id
      → IsTracked (step w l e) id
  unfolding step close_events withdraw
  step-IsTracked l (reads r b) id n h = read_record-IsTracked l r b id h
  step-IsTracked l (registers j) id n h =
      register_lem w (λ m. IsTracked m id) l j h (replaced-IsTracked l j id h)
        (λ alive. added-IsTracked l j id (ground arith))
  step-IsTracked l (withdraws j) id n h = rw (holds-without l.requests j id n) h
  step-IsTracked l (closes_events message) id n h = h
  step-IsTracked l (fails_pending message) id n h = fail_pending-IsTracked l message id h
  step-IsTracked l takes id n h = h

  run-IsTracked :
      (l : Lane w) (es : List (Event w)) (id : ℕ)
      → withdraws_none w es id ≡ true
      → IsTracked l id
      → IsTracked (run w l es) id
  unfolding run
  run-IsTracked l [] id n h = h
  run-IsTracked l (e ∷ es) id n h =
      run-IsTracked (step w l e) es id (ground arith) (step-IsTracked l e id (ground arith) h)

  push_event-IsSettled :
      (l : Lane w) (o : Option (InputLaneEvent w)) (after : Lane w)
      → push_event w l o ≡ ok after
      → IsSettled l
      → IsSettled after
  unfolding push_event
  push_event-IsSettled l none after e h = ground arith
  push_event-IsSettled l (some x) after e h = ground arith

  answer_request-IsSettled :
      (l : Lane w) (id : ℕ) (x : InputRecord w) (after : Lane w)
      → answer_request w l id x ≡ ok after
      → IsSettled l
      → IsSettled after
  unfolding answer_request
  answer_request-IsSettled l id x after e h = ground arith

  pub close_input_lane-IsSettled :
      (l : Lane w) (message : Option Error) → IsSettled (close_input_lane w l message)
  unfolding close_input_lane close_events fail_pending
  close_input_lane-IsSettled l message = (refl, refl)

  pub step-IsSettled : (l : Lane w) (e : Event w) → IsSettled l → IsSettled (step w l e)
  unfolding step close_events withdraw fail_pending without
  step-IsSettled l (reads r b) h =
      read_record_lem w IsSettled l r b h
        (λ x after e.
          handle_lem w IsSettled l x b after e h (λ id k. answer_request-IsSettled l id x after k h)
            (λ o k. push_event-IsSettled l o after k h))
        (λ m. close_input_lane-IsSettled (record l { reading = false }) m)
  step-IsSettled l (registers j) h =
      register_lem w IsSettled l j h h (λ alive. absurd (ground arith))
  step-IsSettled l (withdraws j) h = (h.0, ap (λ xs. without w xs j) h.1)
  step-IsSettled l (closes_events message) h = (refl, h.1)
  step-IsSettled l (fails_pending message) h = (h.0, refl)
  step-IsSettled l takes h = h

  run-IsSettled : (l : Lane w) (es : List (Event w)) → IsSettled l → IsSettled (run w l es)
  unfolding run
  run-IsSettled l [] h = h
  run-IsSettled l (e ∷ es) h = run-IsSettled (step w l e) es (step-IsSettled l e h)

  register_tracks :
      (l : Lane w) (id : ℕ) → (register w l id).1 ≡ true → IsTracked (register w l id).0 id
  unfolding register
  register_tracks l id h =
      let same : record l { requests = l.requests ++ id ∷ [] } ≡ (register w l id).0 =
        elim (Bool-cases l.closed) [
          | inl ended ↦ absurd (ground arith)
          | inr alive ↦ elim (Bool-cases (holds w l.requests id)) [
            | inl has ↦ absurd (ground arith)
            | inr fresh ↦ ground arith
          ]
        ] in
      subst (λ s. IsTracked s id) same (added-IsTracked l id id (ground arith))

  settled_answers :
      (l : Lane w) (id : ℕ) → IsSettled l → IsTracked l id → has_answer l.answers id ≡ true
  settled_answers l id (c, n) h = let k = ap (λ xs. holds w xs id) n in ground arith

  -- A request that was registered and is not withdrawn is answered once the lane has closed, whatever
  -- the threads do before and after, and no request waits on the closed lane.
  pub close_input_lane_answers :
      (l : Lane w) (id : ℕ) (before later : List (Event w)) (message : Option Error)
      → (register w l id).1 ≡ true
      → withdraws_none w before id ≡ true
      → withdraws_none w later id ≡ true
      → let ended = run w (close_input_lane w (run w (register w l id).0 before) message) later in
        (has_answer ended.answers id ≡ true) × (ended.requests ≡ [])
  close_input_lane_answers l id before later message h n m =
      let busy = run w (register w l id).0 before in
      let tracked = run-IsTracked (close_input_lane w busy message) later id m (
        close_input_lane-IsTracked busy message id
          (run-IsTracked (register w l id).0 before id n (register_tracks l id h))) in
      let settled =
        run-IsSettled (close_input_lane w busy message) later
          (close_input_lane-IsSettled busy message) in
      (
        settled_answers (run w (close_input_lane w busy message) later) id settled tracked,
        settled.1,
      )
