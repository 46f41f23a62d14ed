-- ===== src/Control/Allocator.antt =====
-- The identifiers of src/session.rs: `allocate_id` and `next_request`, and what `advance_allocator_past`
-- does to them.
use vivid_sdk.Prelude.{
  ◌+◌, ◌≤◌, max, ℕ, ◌≡◌, inl, inr, List, [], ◌∷◌, arith, leb, Bool-cases, Result, ok, err, u64_max,
}
use vivid_sdk.Control.State.{Error, ids_exhausted, allocate, advance_allocator_past}

pub data Call : Type 0 where
  allocates : Call
  adopts : ℕ → Call

-- The counter after a call, and the identifier that it handed out.
pub data Outcome : Type 0 where
  handed : ℕ → ℕ → Outcome
  moved : ℕ → Outcome

abbrev after_allocate : ℕ → Result Error (ℕ × ℕ) → Outcome
after_allocate next (ok (n, id)) = handed n id
after_allocate next (err e) = moved next

abbrev after_adopt : ℕ → Result Error ℕ → Outcome
after_adopt next (ok n) = moved n
after_adopt next (err e) = moved next

call : ℕ → Call → Outcome
call next allocates = after_allocate next (allocate next ids_exhausted)
call next (adopts id) = after_adopt next (advance_allocator_past next id)

-- The identifiers that a list of calls hands out.
pub handed_out : ℕ → List Call → List ℕ
handed_out next [] = []
handed_out next (c ∷ cs) = elim (call next c) [
  | handed n id ↦ id ∷ handed_out n cs
  | moved n ↦ handed_out n cs
]

-- Each is greater than the one before it, and the first is at least `low`.
abbrev pub Ascends : ℕ → List ℕ → Type 0
Ascends low [] = Unit
Ascends low (id ∷ ids) = (low ≤ id) × Ascends (id + 1) ids

Ascends-le : (low high : ℕ) (ids : List ℕ) → low ≤ high → Ascends high ids → Ascends low ids
Ascends-le low high [] le v = tt
Ascends-le low high (id ∷ ids) le v = (omega (arith, v.0), v.1)

data Steps (next : ℕ) : Outcome → Type 0 where
  hands : Steps next (handed (next + 1) next)
  moves : (n : ℕ) → next ≤ n → Steps next (moved n)

call-Steps : (next : ℕ) (c : Call) → Steps next (call next c)
unfolding call allocate advance_allocator_past
call-Steps next allocates = elim (Bool-cases (leb (next + 1) u64_max)) [
  | inl room ↦ rw room hands
  | inr full ↦ rw full (moves next (omega arith))
]
call-Steps next (adopts id) = elim (Bool-cases (leb (id + 1) u64_max)) [
  | inl room ↦ rw room (moves (max next (id + 1)) (omega arith))
  | inr full ↦ rw full (moves next (omega arith))
]

-- The identifiers after a call, given those of every later counter.
following-Ascends :
    (next : ℕ) (o : Outcome) (cs : List Call)
    → Steps next o
    → ((n : ℕ) → Ascends n (handed_out n cs))
    → Ascends next (elim o [ handed n id ↦ id ∷ handed_out n cs | moved n ↦ handed_out n cs ])
following-Ascends next o cs hands later = (omega arith, later (next + 1))
following-Ascends next o cs (moves n le) later = Ascends-le next n (handed_out n cs) le (later n)

handed_out-Ascends : (cs : List Call) (next : ℕ) → Ascends next (handed_out next cs)
unfolding handed_out
handed_out-Ascends [] next = tt
handed_out-Ascends (c ∷ cs) next =
    following-Ascends next (call next c) cs (call-Steps next c) (handed_out-Ascends cs)

-- After an adoption every identifier that is handed out is greater than the adopted one, than every
-- one handed out before, and than every earlier one of its kind, whatever is adopted or exhausted in
-- between.
pub adopted-Ascends :
    (next adopted_id n : ℕ) (cs : List Call)
    → advance_allocator_past next adopted_id ≡ ok n
    → Ascends (max next (adopted_id + 1)) (handed_out n cs)
unfolding advance_allocator_past
adopted-Ascends next adopted_id n cs e =
    Ascends-le (max next (adopted_id + 1)) n (handed_out n cs) (ground arith)
      (handed_out-Ascends cs n)
