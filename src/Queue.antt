-- ===== src/Queue.antt =====
-- src/pipeline.rs, `LatestFrame` and `BoundedQueue`. A call that would wait on a condition variable
-- answers `waits` and changes nothing: the thread tests again when it is woken.
pub mod Fifo
pub mod Latest
mod Tests
use vivid_sdk.Prelude.{
  ◌+◌, ◌-◌, ◌*◌, ◌/◌, ◌%◌, ◌^◌, ◌≤◌, ◌<◌, min, max, ℕ, zero, suc, ◌≡◌, refl, sym, ap, ◌∙◌, ◌≢◌, ◌↔◌,
  ◌⊎◌, inl, inr, Bool, true, false, not, ◌&&◌, ◌||◌, Option, none, some, List, [], ◌∷◌, ◌++◌, map,
  arith, ltb, leb, ◌==◌, if◌then◌else◌, ltb→lt, lt→ltb, leb→le, ==_iff, Bool-cases, Option-cases,
  length, get_elem?, All, length-append, get_elem?-some, Result, ok, err, Result-cases, ◌>>=◌, ◌>>◌,
  refuse_if, or_fail, u32_max, u64_max, saturating_add, saturating_mul, checked_add, duration_max,
  add_duration, as_micros,
}

-- A 64-bit counter wraps.
abbrev pub bump_counter : ℕ → ℕ
bump_counter n = (n + 1) % 2 ^ 64

pub record LatestFrame {ℓ} (A : Type ℓ) : Type ℓ where
  pub frame : Option A
  pub dropped : ℕ

pub record BoundedQueue {ℓ} (A : Type ℓ) : Type ℓ where
  pub items : List A
  pub dropped : ℕ
  pub closed : Bool
  pub capacity : ℕ

-- What a call on a queue answers.
pub data Answer {ℓ} (A : Type ℓ) : Type ℓ where
  pushed : Answer A
  refused : A → Answer A
  popped : A → Answer A
  ended : Answer A
  waits : Answer A

module _ {ℓ} {A : Type ℓ} where
  abbrev pub is_some : Option A → Bool
  is_some none = false
  is_some (some a) = true

  pub empty_frame : LatestFrame A
  empty_frame = record { frame = none; dropped = 0 }

  pub store : LatestFrame A → A → LatestFrame A × ℕ
  store l a =
      if is_some l.frame
      then (record { frame = some a; dropped = bump_counter l.dropped }, bump_counter l.dropped)
      else (record l { frame = some a }, 0)

  -- `try_take`; a `take` that finds a frame does the same, and waits where this answers `none`.
  pub try_take : LatestFrame A → LatestFrame A × Option A
  try_take l = (record l { frame = none }, l.frame)

  -- The constructor asserts that the capacity is positive.
  pub new : ℕ → Option (BoundedQueue A)
  new capacity =
      if ltb 0 capacity
      then some (record { items = []; dropped = 0; closed = false; capacity = capacity })
      else none

  abbrev pub is_full : BoundedQueue A → Bool
  is_full q = leb q.capacity (length q.items)

  pub push_blocking : BoundedQueue A → A → BoundedQueue A × Answer A
  push_blocking q a =
      if is_full q && not q.closed
      then (q, waits)
      else if q.closed
      then (q, refused a)
      else (record q { items = q.items ++ a ∷ [] }, pushed)

  pub push_nonblocking : BoundedQueue A → A → BoundedQueue A × Answer A
  push_nonblocking q a =
      if q.closed
      then (q, refused a)
      else if is_full q
      then (record q { dropped = bump_counter q.dropped }, refused a)
      else (record q { items = q.items ++ a ∷ [] }, pushed)

  pop_front : BoundedQueue A → List A → BoundedQueue A × Answer A
  pop_front q [] = if q.closed then (q, ended) else (q, waits)
  pop_front q (a ∷ rest) = (record q { items = rest }, popped a)

  pub pop : BoundedQueue A → BoundedQueue A × Answer A
  unfolding pop_front
  pop q = pop_front q q.items

  pub close : BoundedQueue A → BoundedQueue A
  close q = record q { closed = true }
