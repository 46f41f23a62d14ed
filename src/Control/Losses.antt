-- ===== src/Control/Losses.antt =====
-- Lost tracks and the end of a session in src/session.rs: which flows they close.
use vivid_sdk.Prelude.{
  ◌≤◌, ◌<◌, ℕ, zero, suc, ◌≡◌, refl, inl, inr, true, Option, none, some, List, [], ◌∷◌, map, arith,
  ltb, if◌then◌else◌, Bool-cases, All, ok, err,
}
use vivid_sdk.Control.State.{Presenter, Error, flow_lost, revision_backward, FlowState, TrackEntry}
use vivid_sdk.Control.Dispatch.{close_flow, close_nth, close_active, Loss, is_key, lose, lose_track}

abbrev pub IsClosed : FlowState → Type 0
IsClosed f = f.closed ≡ true

pub close_flow-IsClosed : (m : Error) (fs : List FlowState) → All IsClosed (map (close_flow m) fs)
unfolding close_flow
close_flow-IsClosed m [] = tt
close_flow-IsClosed m (f ∷ fs) = (refl, close_flow-IsClosed m fs)

close_nth-IsClosed :
    (fs : List FlowState) (i : ℕ) (m : Error) → All IsClosed fs → All IsClosed (close_nth fs i m)
unfolding close_flow
close_nth-IsClosed [] i m v = v
close_nth-IsClosed (f ∷ fs) zero m v = (refl, v.1)
close_nth-IsClosed (f ∷ fs) (suc i) m v = (v.0, close_nth-IsClosed fs i m v.1)

pub close_active-IsClosed :
    (fs : List FlowState) (i : Option ℕ) (m : Error)
    → All IsClosed fs
    → All IsClosed (close_active fs i m)
close_active-IsClosed fs none m v = v
close_active-IsClosed fs (some i) m v = close_nth-IsClosed fs i m v

module _ (p : Presenter) where
  -- The entry of the registry's map under a key.
  abbrev pub find_track : List (TrackEntry p) → ℕ → ℕ → ℕ → Option (TrackEntry p)
  find_track [] context_id surface_id track_id = none
  find_track (t ∷ ts) context_id surface_id track_id =
      let rest = find_track ts context_id surface_id track_id in
      if is_key p t context_id surface_id track_id then some t else rest

  pub data Loses (ts : List (TrackEntry p)) (fs : List FlowState) (l : Loss p) : Type 0 where
    unknown :
        find_track ts l.context_id l.surface_id l.track_id ≡ none
        → lose_track p ts fs l ≡ ok (ts, fs)
        → Loses ts fs l
    backward :
        (t : TrackEntry p)
        → find_track ts l.context_id l.surface_id l.track_id ≡ some t
        → l.revision < t.revision
        → lose_track p ts fs l ≡ err revision_backward
        → Loses ts fs l
    lost :
        (t : TrackEntry p)
        → find_track ts l.context_id l.surface_id l.track_id ≡ some t
        → t.revision ≤ l.revision
        → (us : List (TrackEntry p))
        → lose_track p ts fs l
          ≡ ok (us, close_active fs t.active_flow (flow_lost l.lost.diagnostic))
        → find_track us l.context_id l.surface_id l.track_id ≡ some (lose p t l)
        → Loses ts fs l

  -- A loss on every branch: without an entry of its key nothing changes; a revision below the track's
  -- fails; else the track takes the revision, counts as destroyed with the loss as its reason, has
  -- neither media state nor flow, and the flow that it had is closed with the diagnostic.
  pub lose_track-Loses :
      (ts : List (TrackEntry p)) (fs : List FlowState) (l : Loss p) → Loses ts fs l
  unfolding lose_track lose
  lose_track-Loses [] fs l = unknown refl refl
  lose_track-Loses (t ∷ ts) fs l =
      elim (Bool-cases (is_key p t l.context_id l.surface_id l.track_id)) [
        | inl key ↦ elim (Bool-cases (ltb l.revision t.revision)) [
          | inl below ↦ backward t (ground arith) (ground arith) (ground arith)
          | inr onward ↦
              lost t (ground arith) (ground arith) (lose p t l ∷ ts) (ground arith) (ground arith)
        ]
        | inr another ↦ elim (lose_track-Loses ts fs l) [
          | unknown e r ↦ unknown (ground arith) (ground arith)
          | backward u e below r ↦ backward u (ground arith) below (ground arith)
          | lost u e onward us r at ↦
              lost u (ground arith) onward (t ∷ us) (ground arith) (ground arith)
        ]
      ]
