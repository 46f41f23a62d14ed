-- ===== src/Queue/Latest.antt =====
-- The single-slot frame of src/pipeline.rs and what becomes of each frame.
use vivid_sdk.Prelude.{◌+◌, ◌%◌, ◌^◌, ℕ, ◌≡◌, none, some, List, [], ◌∷◌, arith, if◌then◌else◌}
use vivid_sdk.Queue.{LatestFrame, is_some, empty_frame, store, try_take}

pub data Call {ℓ} (A : Type ℓ) : Type ℓ where
  stores : A → Call A
  takes : Call A

-- The frames stored, handed out and replaced so far.
pub record Counts : Type 0 where
  pub stored : ℕ
  pub taken : ℕ
  pub replaced : ℕ

abbrev pub no_counts : Counts
no_counts = record { stored = 0; taken = 0; replaced = 0 }

module _ {ℓ} {A : Type ℓ} where
  abbrev pub occupied : LatestFrame A → ℕ
  occupied l = if is_some l.frame then 1 else 0

  pub step : LatestFrame A × Counts → Call A → LatestFrame A × Counts
  step (l, n) (stores a) =
      ((store l a).0, record n { stored = n.stored + 1; replaced = n.replaced + occupied l })
  step (l, n) takes =
      ((try_take l).0, record n { taken = n.taken + (if is_some (try_take l).1 then 1 else 0) })

  pub run : LatestFrame A × Counts → List (Call A) → LatestFrame A × Counts
  run s [] = s
  run s (c ∷ cs) = run (step s c) cs

  pub record Inv (s : LatestFrame A × Counts) : Type 0 where
    pub balanced : s.1.stored ≡ s.1.taken + s.1.replaced + occupied s.0
    pub counted : s.0.dropped ≡ s.1.replaced % 2 ^ 64

  step-Inv : (l : LatestFrame A) (n : Counts) (c : Call A) → Inv (l, n) → Inv (step (l, n) c)
  unfolding step store try_take
  step-Inv l n (stores a) v = ground arith
  step-Inv l n takes v = ground arith

  run-Inv : (s : LatestFrame A × Counts) (cs : List (Call A)) → Inv s → Inv (run s cs)
  unfolding run
  run-Inv s [] v = v
  run-Inv (l, n) (c ∷ cs) v = run-Inv (step (l, n) c) cs (step-Inv l n c v)

  -- After any stores and takes, every stored frame was handed out, was replaced by a later one, or is
  -- the one that waits; `dropped` counts the replaced ones, modulo 2 ^ 64.
  pub run-empty-Inv : (cs : List (Call A)) → Inv (run (empty_frame, no_counts) cs)
  unfolding empty_frame
  run-empty-Inv cs = run-Inv _ cs (ground arith)

  -- A take right after a store hands out that very frame and leaves none, whatever was there; the
  -- store tells the new count of dropped frames if it replaced one, and 0 if not.
  pub take-store :
      (l : LatestFrame A) (a : A)
      → (try_take (store l a).0
          ≡ (record { frame = none; dropped = (store l a).0.dropped }, some a))
        × ((store l a).1 ≡ (if is_some l.frame then (store l a).0.dropped else 0))
  unfolding try_take store
  take-store l a = ground arith
