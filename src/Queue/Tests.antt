-- ===== src/Queue/Tests.antt =====
-- The queue and the frame of src/pipeline.rs on small inputs, and instances of their theorems.
use vivid_sdk.Prelude.{ℕ, ◌≡◌, refl, true, false, some, [], ◌∷◌}
use vivid_sdk.Queue.{
  LatestFrame, BoundedQueue, refused, new, push_nonblocking, push_blocking, waits,
}
use vivid_sdk.Queue.Fifo.{IsFifo, pushes, offers, pops, closes, run, no_log, run-new-IsFifo}

abbrev one : BoundedQueue ℕ
one = record { items = []; dropped = 0; closed = false; capacity = 1 }

abbrev two_held : BoundedQueue ℕ
two_held = record { items = 4 ∷ 5 ∷ []; dropped = 0; closed = true; capacity = 2 }

new-one : new {A = ℕ} 1 ≡ some one
unfolding new
new-one = refl

overflow_rejected :
    push_nonblocking (record one { items = 7 ∷ [] }) 8
    ≡ (record one { items = 7 ∷ []; dropped = 1 }, refused 8)
unfolding push_nonblocking
overflow_rejected = refl

full_push_waits : (push_blocking (record one { items = 7 ∷ [] }) 8).1 ≡ waits
unfolding push_blocking
full_push_waits = refl

run-new-IsFifo_example :
    IsFifo (run (one, no_log) (pushes 7 ∷ offers 8 ∷ pops ∷ closes ∷ pushes 9 ∷ []))
run-new-IsFifo_example = run-new-IsFifo 1 one _ new-one

abbrev held : LatestFrame ℕ
held = record { frame = some 3; dropped = 6 }
