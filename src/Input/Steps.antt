-- ===== src/Input/Steps.antt =====
-- What the threads of a lane of src/input.rs do to it, in any order.
use vivid_sdk.Prelude.{
  ℕ, ◌≡◌, refl, inl, inr, Bool, true, false, not, ◌&&◌, Option, none, some, List, [], ◌∷◌, ◌++◌,
  arith, ◌==◌, if◌then◌else◌, Bool-cases, Option-cases, Result, ok, err, Result-cases,
}
use mathlib.Core.Path.{subst}
use vivid_sdk.Session.{Error}
use vivid_sdk.Input.Decoding.{InputWire}
use vivid_sdk.Input.{
  InputRecord, InputLaneEvent, failure, Lane, holds, close_events, fail_pending, close_input_lane,
  register, withdraw, event_of, push_event, answer_request, handle, after_round, round, read_record,
}

module _ (w : InputWire) where
  -- The reader reads, callers register and withdraw requests, someone closes in the two steps, someone
  -- takes an event.
  pub data Event : Type 0 where
    reads : Option (InputRecord w) → Bool → Event
    registers withdraws : ℕ → Event
    closes_events fails_pending : Option Error → Event
    takes : Event

  abbrev pub rest : List (InputLaneEvent w) → List (InputLaneEvent w)
  rest [] = []
  rest (e ∷ es) = es

  unfoldable pub step : Lane w → Event → Lane w
  step l (reads r b) = read_record w l r b
  step l (registers id) = (register w l id).0
  step l (withdraws id) = withdraw w l id
  step l (closes_events message) = close_events w l message
  step l (fails_pending message) = fail_pending w l message
  step l takes = record l { events = rest l.events }

  unfoldable pub run : Lane w → List Event → Lane w
  run l [] = l
  run l (e ∷ es) = run (step l e) es

  abbrev pub withdraws_it : Event → ℕ → Bool
  withdraws_it (reads r b) id = false
  withdraws_it (registers j) id = false
  withdraws_it (withdraws j) id = j == id
  withdraws_it (closes_events message) id = false
  withdraws_it (fails_pending message) id = false
  withdraws_it takes id = false

  abbrev pub withdraws_none : List Event → ℕ → Bool
  withdraws_none [] id = true
  withdraws_none (e ∷ es) id = not (withdraws_it e id) && withdraws_none es id

  -- What holds of the lane that a record finds, of one that a reply is taken from, and of one that an
  -- event is added to, holds of the lane that the record leaves.
  pub handle_lem :
      (P : Lane w → Type 0) (l : Lane w) (x : InputRecord w) (b : Bool) (after : Lane w)
      → handle w l x b ≡ ok after
      → P l
      → ((id : ℕ) → answer_request w l id x ≡ ok after → P after)
      → ((o : Option (InputLaneEvent w)) → push_event w l o ≡ ok after → P after)
      → P after
  unfolding handle
  handle_lem P l x b after e h answers_ pushes = elim (Option-cases x.decoded) [
    | inl missing ↦ absurd (ground arith)
    | inr (envelope, some_) ↦ elim (Bool-cases (x.record_type == w.ping)) [
      | inl is_ping ↦ let same : l ≡ after = ground arith in subst P same h
      | inr other ↦ elim (Bool-cases (envelope.request_id == 0)) [
        | inr waits ↦ answers_ envelope.request_id (ground arith)
        | inl plain ↦ elim (Result-cases (event_of w x envelope.payload)) [
          | inr (m, bad) ↦ absurd (ground arith)
          | inl (o, good) ↦ pushes o (ground arith)
        ]
      ]
    ]
  ]

  after_round_lem :
      (P : Lane w → Type 0) (l : Lane w) (r : Result Error (Lane w))
      → ((after : Lane w) → r ≡ ok after → P after)
      → ((m : Option Error) → P (close_input_lane w (record l { reading = false }) m))
      → P (after_round w l r)
  unfolding after_round
  after_round_lem P l (ok after) keeps closes = keeps after refl
  after_round_lem P l (err e) keeps closes = closes (some e)

  round_lem :
      (P : Lane w → Type 0) (l : Lane w) (r : Option (InputRecord w)) (b : Bool)
      → ((x : InputRecord w) (after : Lane w) → handle w l x b ≡ ok after → P after)
      → ((m : Option Error) → P (close_input_lane w (record l { reading = false }) m))
      → P (round w l r b)
  unfolding round
  round_lem P l none b keeps closes = closes none
  round_lem P l (some x) b keeps closes = after_round_lem P l (handle w l x b) (keeps x) closes

  either_lem : (P : Lane w → Type 0) (c : Bool) (l m : Lane w) → P l → P m → P (if c then l else m)
  either_lem P true l m h k = h
  either_lem P false l m h k = k

  pub read_record_lem :
      (P : Lane w → Type 0) (l : Lane w) (r : Option (InputRecord w)) (b : Bool)
      → P l
      → ((x : InputRecord w) (after : Lane w) → handle w l x b ≡ ok after → P after)
      → ((m : Option Error) → P (close_input_lane w (record l { reading = false }) m))
      → P (read_record w l r b)
  unfolding read_record
  read_record_lem P l r b h keeps closes =
      either_lem P (not l.reading) l (round w l r b) h (round_lem P l r b keeps closes)

  either_first_lem :
      (P : Lane w → Type 0) (c : Bool) (p q : Lane w × Bool)
      → P p.0
      → (c ≡ false → P q.0)
      → P (if c then p else q).0
  either_first_lem P true p q h k = h
  either_first_lem P false p q h k = k refl

  pub register_lem :
      (P : Lane w → Type 0) (l : Lane w) (j : ℕ)
      → P l
      → P (record l { answers = l.answers ++ (j, failure none) ∷ [] })
      → (l.closed ≡ false → P (record l { requests = l.requests ++ j ∷ [] }))
      → P (register w l j).0
  unfolding register
  register_lem P l j h d k =
      let replaced : Lane w = record l { answers = l.answers ++ (j, failure none) ∷ [] } in
      let added : Lane w = record l { requests = l.requests ++ j ∷ [] } in
      either_first_lem P l.closed (l, false)
        (if holds w l.requests j then (replaced, false) else (added, true)) h
        (λ alive.
          either_first_lem P (holds w l.requests j) (replaced, false) (added, true) d
            (λ fresh. k alive))
