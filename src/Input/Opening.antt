-- ===== src/Input/Opening.antt =====
-- `open_input_lane` of src/input.rs, with the registry of lanes in `SessionLifecycle` of src/session.rs.
use vivid_sdk.Prelude.{
  ◌*◌, ℕ, zero, suc, ◌≡◌, refl, Bool, true, false, not, ◌||◌, Option, none, some, List, [], ◌∷◌,
  ◌++◌, arith, ltb, ◌==◌, if◌then◌else◌, All, Result, ok, err, ◌>>=◌, ◌>>◌, refuse_if, or_fail,
}
use vivid_sdk.Wire.{required_u32, required_u64, validate_exact_payload_keys, expect_record}
use vivid_sdk.Session.{
  Error, lift, invalid_input, invalid_data, unsupported, undecodable, control, Reply,
  presenter_error,
}
use vivid_sdk.Control.State.{control_closed, write_failed}
use vivid_sdk.Input.Decoding.{InputWire}
use vivid_sdk.Input.Steps.{Event, step}
use vivid_sdk.Input.Closing.{IsSettled, step-IsSettled, close_input_lane-IsSettled}
use vivid_sdk.Input.{Lane, new_lane, close_input_lane}

abbrev pub max_lane_body : ℕ
max_lane_body = 64 * 1024

module _ (w : InputWire) where
  -- The registry: whether the session is active, and the lanes that are alive.
  pub record Registry : Type 0 where
    pub active : Bool
    pub lanes : List (Lane w)

  -- What opening asks of the session, the random source, the connection and the presenter.
  pub record LaneOpener : Type 0 where
    pub session_id : ℕ
    pub supports_desktop_input : Bool
    pub offline : Bool
    pub random : Bool
    pub connected : Bool
    pub written : Bool
    pub reply : Option (Reply w.remote)

  -- `LANE_ACCEPTED`: the maximum body.
  unfoldable pub check_accepted : ℕ → LaneOpener → ℕ → ℕ → Reply w.remote → Result Error ℕ
  check_accepted accepted_type o interactive lane_generation r = do
    refuse_if (r.record_type == w.remote.error_type) (presenter_error w.remote r)
    lift (expect_record r.record_type r.object_id accepted_type 0)
    accepted ← or_fail r.decoded undecodable
    refuse_if (not (accepted.request_id == 1)) invalid_data
    let payload = accepted.payload
    lift (validate_exact_payload_keys w.remote.cbor payload 0 3)
    session_id ← lift (required_u64 w.remote.cbor payload 0)
    refuse_if (not (session_id == o.session_id)) invalid_data
    lane_class ← lift (required_u64 w.remote.cbor payload 1)
    refuse_if (not (lane_class == interactive)) invalid_data
    generation ← lift (required_u64 w.remote.cbor payload 2)
    refuse_if (not (generation == lane_generation)) invalid_data
    lift (required_u32 w.remote.cbor payload 3)

  unfoldable pub maximum_body : ℕ → LaneOpener → ℕ → ℕ → Result Error ℕ
  maximum_body accepted_type o interactive lane_generation =
      if o.offline then ok max_lane_body else elim o.reply [
        | none ↦ err undecodable
        | some r ↦ check_accepted accepted_type o interactive lane_generation r
      ]

  -- The end of `register_input_lane`, under the lock of the registry: the flag is read once more.
  unfoldable pub push_lane : Registry → Lane w → Result Error Registry
  push_lane g l = do
    refuse_if (not g.active) (control control_closed)
    ok (record g { lanes = g.lanes ++ l ∷ [] })

  -- `register_input_lane`; `during` is what other threads do between the first test of the flag and
  -- the lock.
  unfoldable pub register_input_lane :
      Registry → (Registry → Registry) → Lane w → Result Error Registry
  register_input_lane g during l = do
    refuse_if (not g.active) (control control_closed)
    push_lane (during g) l

  -- `open_input_lane`: the registry with the new lane, and the bound of its records. Other threads run
  -- while it waits for the presenter, `waiting`, and before it locks the registry, `during`.
  unfoldable pub open_input_lane :
      ℕ
      → ℕ
      → Registry
      → (Registry → Registry)
      → (Registry → Registry)
      → LaneOpener
      → ℕ
      → Result Error (Registry × ℕ)
  open_input_lane accepted_type interactive g waiting during o lane_generation = do
    refuse_if (not g.active) (control control_closed)
    refuse_if (not o.supports_desktop_input) unsupported
    refuse_if (lane_generation == 0) invalid_input
    refuse_if (not o.random) undecodable
    refuse_if (not o.connected) undecodable
    refuse_if (not o.written) (control write_failed)
    body ← maximum_body accepted_type o interactive lane_generation
    refuse_if (body == 0 || ltb max_lane_body body) invalid_data
    after ← register_input_lane (waiting g) during (record (new_lane w) { reading = not o.offline })
    ok (after, body)

  abbrev pub close_all : List (Lane w) → Option Error → List (Lane w)
  close_all [] message = []
  close_all (l ∷ ls) message = close_input_lane w l message ∷ close_all ls message

  -- `SessionLifecycle::close` for the lanes, in its two steps: the flag, then the registry.
  unfoldable pub deactivate : Registry → Registry
  deactivate g = record g { active = false }

  unfoldable pub close_lanes : Registry → Option Error → Registry
  close_lanes g message = record g { lanes = close_all g.lanes message }

  -- What threads do to the registry: one that passed its tests at any earlier time locks it to add its
  -- lane; something happens on the lane of some number; a session closes, in two steps.
  pub data Act : Type 0 where
    pushes : Lane w → Act
    on_lane : ℕ → Event w → Act
    deactivates : Act
    closes_lanes : Option Error → Act

  abbrev pub kept : Registry → Result Error Registry → Registry
  kept g (ok h) = h
  kept g (err e) = g

  abbrev pub step_nth : List (Lane w) → ℕ → Event w → List (Lane w)
  step_nth [] i e = []
  step_nth (l ∷ ls) zero e = step w l e ∷ ls
  step_nth (l ∷ ls) (suc i) e = l ∷ step_nth ls i e

  unfoldable pub act : Registry → Act → Registry
  act g (pushes l) = kept g (push_lane g l)
  act g (on_lane i e) = record g { lanes = step_nth g.lanes i e }
  act g deactivates = deactivate g
  act g (closes_lanes message) = close_lanes g message

  unfoldable pub act_all : Registry → List Act → Registry
  act_all g [] = g
  act_all g (a ∷ acts) = act_all (act g a) acts

  -- The flag is down and, where `shut`, every lane is closed and no request waits on it.
  pub record IsOver (shut : Bool) (g : Registry) : Type 0 where
    pub flag : g.active ≡ false
    pub settled : shut ≡ true → All (IsSettled w) g.lanes

  close_all-IsSettled :
      (ls : List (Lane w)) (message : Option Error) → All (IsSettled w) (close_all ls message)
  close_all-IsSettled [] message = tt
  close_all-IsSettled (l ∷ ls) message =
      (close_input_lane-IsSettled w l message, close_all-IsSettled ls message)

  step_nth-IsSettled :
      (ls : List (Lane w)) (i : ℕ) (e : Event w)
      → All (IsSettled w) ls
      → All (IsSettled w) (step_nth ls i e)
  step_nth-IsSettled [] i e v = tt
  step_nth-IsSettled (l ∷ ls) zero e (v, vs) = (step-IsSettled w l e v, vs)
  step_nth-IsSettled (l ∷ ls) (suc i) e (v, vs) = (v, step_nth-IsSettled ls i e vs)

  push_lane-refused :
      (g : Registry) (l : Lane w) → g.active ≡ false → push_lane g l ≡ err (control control_closed)
  unfolding push_lane
  push_lane-refused g l off = ground arith

  act-IsOver : (k : Bool) (g : Registry) (a : Act) → IsOver k g → IsOver k (act g a)
  unfolding act deactivate close_lanes
  act-IsOver k g (pushes l) v = rw (push_lane-refused g l v.flag) v
  act-IsOver k g (on_lane i e) v = record {
    flag = v.flag;
    settled = λ h. step_nth-IsSettled g.lanes i e (v.settled h);
  }
  act-IsOver k g deactivates v = record { flag = refl; settled = v.settled }
  act-IsOver k g (closes_lanes message) v = record {
    flag = v.flag;
    settled = λ h. close_all-IsSettled g.lanes message;
  }

  act_all-IsOver :
      (k : Bool) (g : Registry) (acts : List Act) → IsOver k g → IsOver k (act_all g acts)
  unfolding act_all
  act_all-IsOver k g [] v = v
  act_all-IsOver k g (a ∷ acts) v = act_all-IsOver k (act g a) acts (act-IsOver k g a v)

  deactivate-IsOver : (g : Registry) → IsOver false (deactivate g)
  unfolding deactivate
  deactivate-IsOver g = record { flag = refl; settled = λ h. absurd (ground arith) }

  close_lanes-IsOver :
      (g : Registry) (message : Option Error) → IsOver false g → IsOver true (close_lanes g message)
  unfolding close_lanes
  close_lanes-IsOver g message v = record {
    flag = v.flag;
    settled = λ h. close_all-IsSettled g.lanes message;
  }

  -- Once a session has taken both steps of its close, it is inactive, and every lane that it knows is
  -- closed with no request waiting on it, whatever all threads do between the two steps and later:
  -- also a thread that passed its tests before the close adds no open lane.
  pub closed_session_lanes :
      (g : Registry) (between later : List Act) (message : Option Error)
      → IsOver true (act_all (close_lanes (act_all (deactivate g) between) message) later)
  closed_session_lanes g between later message =
      let flagged = act_all-IsOver false (deactivate g) between (deactivate-IsOver g) in
      act_all-IsOver true _ later
        (close_lanes-IsOver (act_all (deactivate g) between) message flagged)
