-- ===== src/Queue/Fifo.antt =====
-- The bounded queue of src/pipeline.rs under any interleaving of its callers' calls.
use vivid_sdk.Prelude.{
  ◌+◌, ◌%◌, ◌^◌, ◌≤◌, ℕ, ◌≡◌, refl, sym, ap, ◌∙◌, ◌⊎◌, inl, inr, true, not, ◌&&◌, some, List, [],
  ◌∷◌, ◌++◌, arith, if◌then◌else◌, length, length-append,
}
use vivid_sdk.Queue.{
  BoundedQueue, Answer, pushed, popped, ended, waits, is_full, new, push_blocking, push_nonblocking,
  pop_front, pop, close,
}
use mathlib.Core.List.{append-nil, append_assoc}

pub data Call {ℓ} (A : Type ℓ) : Type ℓ where
  pushes : A → Call A
  offers : A → Call A
  pops : Call A
  closes : Call A

-- What was accepted and handed out so far, oldest first, and how many offers found the queue full.
pub record Log {ℓ} (A : Type ℓ) : Type ℓ where
  pub accepted : List A
  pub taken : List A
  pub overflows : ℕ

module _ {ℓ} {A : Type ℓ} where
  abbrev accepts : A → Answer A → List A
  accepts a pushed = a ∷ []
  accepts a _ = []

  abbrev takes : Answer A → List A
  takes (popped a) = a ∷ []
  takes _ = []

  abbrev overflow : BoundedQueue A → ℕ
  overflow q = if not q.closed && is_full q then 1 else 0

  pub step : BoundedQueue A × Log A → Call A → BoundedQueue A × Log A
  step (q, l) (pushes a) =
      ((push_blocking q a).0, record l { accepted = l.accepted ++ accepts a (push_blocking q a).1 })
  step (q, l) (offers a) = (
    (push_nonblocking q a).0,
    record l {
      accepted = l.accepted ++ accepts a (push_nonblocking q a).1;
      overflows = l.overflows + overflow q;
    },
  )
  step (q, l) pops = ((pop q).0, record l { taken = l.taken ++ takes (pop q).1 })
  step (q, l) closes = (close q, l)

  pub run : BoundedQueue A × Log A → List (Call A) → BoundedQueue A × Log A
  run s [] = s
  run s (c ∷ cs) = run (step s c) cs

  pub record IsFifo (s : BoundedQueue A × Log A) : Type ℓ where
    pub fifo : s.1.accepted ≡ s.1.taken ++ s.0.items
    pub bounded : length s.0.items ≤ s.0.capacity
    pub counted : s.0.dropped ≡ s.1.overflows % 2 ^ 64

  -- A popped item leaves the front.
  pop-cases :
      (q : BoundedQueue A)
      → ((a : A) × (rest : List A) × (q.items ≡ a ∷ rest)
          × (pop q ≡ (record q { items = rest }, popped a)))
        ⊎ ((q.items ≡ []) × (pop q ≡ (q, (if q.closed then ended else waits))))
  unfolding pop
  pop-cases q = go q.items refl
    where
      go :
          (xs : List A)
          → q.items ≡ xs
          → ((a : A) × (rest : List A) × (q.items ≡ a ∷ rest)
              × (pop_front q xs ≡ (record q { items = rest }, popped a)))
            ⊎ ((q.items ≡ []) × (pop_front q xs ≡ (q, (if q.closed then ended else waits))))
      go [] e = inr (e, ground arith)
      go (a ∷ rest) e = inl (a, rest, e, refl)

  step-IsFifo :
      (q : BoundedQueue A) (l : Log A) (c : Call A) → IsFifo (q, l) → IsFifo (step (q, l) c)
  unfolding step push_blocking push_nonblocking close
  step-IsFifo q l (pushes a) v = ground (
    arith,
    append_assoc l.taken q.items (a ∷ []),
    append-nil l.accepted,
    length-append q.items (a ∷ []),
  )
  step-IsFifo q l (offers a) v = ground (
    arith,
    append_assoc l.taken q.items (a ∷ []),
    append-nil l.accepted,
    length-append q.items (a ∷ []),
  )
  step-IsFifo q l pops v = elim (pop-cases q) [
    | inl (a, rest, e, r) ↦ rw r (ground (arith, append_assoc l.taken (a ∷ []) rest))
    | inr (e, r) ↦ rw r (ground (arith, append-nil l.taken))
  ]
  step-IsFifo q l closes v = record { fifo = v.fifo; bounded = v.bounded; counted = v.counted }

  run-IsFifo : (s : BoundedQueue A × Log A) (cs : List (Call A)) → IsFifo s → IsFifo (run s cs)
  unfolding run
  run-IsFifo s [] v = v
  run-IsFifo (q, l) (c ∷ cs) v = run-IsFifo (step (q, l) c) cs (step-IsFifo q l c v)

  abbrev pub no_log : Log A
  no_log = record { accepted = []; taken = []; overflows = 0 }

  -- Whatever callers do to a new queue, in whatever order: what was accepted is what was handed out,
  -- in the same order, followed by what the queue holds; it never holds more than its capacity; and
  -- its counter of dropped items is the number of offers that found it full, modulo 2 ^ 64.
  pub run-new-IsFifo :
      (capacity : ℕ) (q : BoundedQueue A) (cs : List (Call A))
      → new capacity ≡ some q
      → IsFifo (run (q, no_log) cs)
  unfolding new
  run-new-IsFifo capacity q cs e = run-IsFifo (q, no_log) cs (ground arith)

  step_closed :
      (q : BoundedQueue A) (l : Log A) (c : Call A)
      → q.closed ≡ true
      → ((step (q, l) c).0.closed ≡ true) × ((step (q, l) c).1.accepted ≡ l.accepted)
  unfolding step push_blocking push_nonblocking close
  step_closed q l (pushes a) h = ground (arith, append-nil l.accepted)
  step_closed q l (offers a) h = ground (arith, append-nil l.accepted)
  step_closed q l pops h = elim (pop-cases q) [
    | inl (a, rest, e, r) ↦ rw r (h, refl)
    | inr (e, r) ↦ rw r (h, refl)
  ]
  step_closed q l closes h = (refl, refl)

  -- A closed queue stays closed and accepts nothing more.
  pub run_closed :
      (q : BoundedQueue A) (l : Log A) (cs : List (Call A))
      → q.closed ≡ true
      → ((run (q, l) cs).0.closed ≡ true) × ((run (q, l) cs).1.accepted ≡ l.accepted)
  unfolding run
  run_closed q l [] h = (h, refl)
  run_closed q l (c ∷ cs) h =
      let now = step_closed q l c h in
      let later = run_closed (step (q, l) c).0 (step (q, l) c).1 cs now.0 in
      (later.0, later.1 ∙ now.1)

  -- As many calls of `pop` as the list has items.
  abbrev pub pop_each : List A → List (Call A)
  pop_each [] = []
  pop_each (a ∷ rest) = pops ∷ pop_each rest

  drains :
      (xs : List A) (q : BoundedQueue A) (l : Log A)
      → q.items ≡ xs
      → ((run (q, l) (pop_each xs)).1.taken ≡ l.taken ++ xs)
        × ((run (q, l) (pop_each xs)).0 ≡ record q { items = [] })
  unfolding run step pop
  drains [] q l e = (sym (append-nil l.taken), ground arith)
  drains (a ∷ rest) q l e = rw e (
      let later =
        drains rest (record q { items = rest }) (record l { taken = l.taken ++ a ∷ [] }) refl in
      (later.0 ∙ append_assoc l.taken (a ∷ []) rest, later.1))

  -- What a queue held when it was closed can still be taken, in order; after that `pop` answers at
  -- once that the queue has ended, and waits for nothing.
  pub close_drains :
      (q : BoundedQueue A) (l : Log A)
      → let last = run (close q, l) (pop_each q.items) in
        (last.1.taken ≡ l.taken ++ q.items) × (last.0.items ≡ []) × (pop last.0 ≡ (last.0, ended))
  unfolding close pop
  close_drains q l =
      let end = drains q.items (record q { closed = true }) l refl in
      (end.0, ap (λ (r : BoundedQueue A). r.items) end.1, rw (end.1) refl)
