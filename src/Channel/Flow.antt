-- ===== src/Channel/Flow.antt =====
-- The cumulative window of a channel of src/channel.rs.
use vivid_sdk.Prelude.{
  ◌+◌, ◌≤◌, ℕ, ◌≡◌, refl, ap, ◌≢◌, ◌⊎◌, inl, inr, Bool, true, false, none, some, List, [], ◌∷◌,
  arith, if◌then◌else◌, Bool-cases, ok,
}
use vivid_sdk.Wire.{PayloadMap, required_u64}
use vivid_sdk.Channel.State.{
  Charge, reconcile_status, Admission, admits, no_capacity, resource_error, flow_error, FlowControl,
  Peer, session_closed, Channel, flush_finish, close, close_track_flow, charge, granted, must_wait,
  failed, diagnosis,
}
use vivid_sdk.Channel.Reader.{
  Reverse, read_record, handle, Identity, Event, reads, charges, reconciles, flushes, closes,
  closes_with, ends_session, step, run,
}
use vivid_sdk.Channel.Reader.Returns.{read_record-raises}
use vivid_sdk.Channel.Reader.Effects.{read_record-Leaves}

Admission-cases :
    {A : Type 0} (a : Admission A)
    → ((a ≡ no_capacity) ⊎ (a ≡ resource_error)) ⊎ ((x : A) × (a ≡ admits x))
Admission-cases (admits x) = inr (x, refl)
Admission-cases no_capacity = inl (inl refl)
Admission-cases resource_error = inl (inr refl)

module _ (f : FlowControl) (p : Peer) where
  -- What was sent stays within the maxima that the other side returned.
  pub record IsWithin (c : Channel f p) : Type 0 where
    pub bytes : f.sent_body_bytes c.flow ≤ f.maximum_body_bytes c.flow
    pub records : f.sent_media_records c.flow ≤ f.maximum_media_records c.flow

  -- How a round of the charging loop may end.
  pub data Charges (c : Channel f p) (n : ℕ) : Type 0 where
    no_session : c.session_closed ≡ true → charge f p c n ≡ failed session_closed → Charges c n
    no_channel :
        c.session_closed ≡ false
        → c.closed ≡ true
        → charge f p c n ≡ failed (diagnosis f p c.diagnostic)
        → Charges c n
    no_room :
        c.session_closed ≡ false
        → c.closed ≡ false
        → f.admit c.flow n ≡ no_capacity
        → charge f p c n ≡ must_wait
        → Charges c n
    no_charge :
        c.session_closed ≡ false
        → c.closed ≡ false
        → f.admit c.flow n ≡ resource_error
        → charge f p c n ≡ failed flow_error
        → Charges c n
    charged :
        c.session_closed ≡ false
        → c.closed ≡ false
        → (flow : f.Flow) → charge f p c n ≡ granted (record c { flow = flow })
        → f.sent_body_bytes flow ≡ f.sent_body_bytes c.flow + n
        → f.sent_media_records flow ≡ f.sent_media_records c.flow + 1
        → f.maximum_body_bytes flow ≡ f.maximum_body_bytes c.flow
        → f.maximum_media_records flow ≡ f.maximum_media_records c.flow
        → IsWithin (record c { flow = flow })
        → Charges c n

  -- A round of the charging loop, on every branch: it fails on a closed session or channel and on a
  -- resource error, waits while the window has no room, and else takes the body and one record out of
  -- the window, once, stays within the maxima, and changes nothing else.
  pub charge-Charges : (c : Channel f p) (n : ℕ) → Charges c n
  unfolding charge
  charge-Charges c n = elim (Bool-cases c.session_closed) [
    | inl ended ↦ no_session ended (ground arith)
    | inr live ↦ elim (Bool-cases c.closed) [
      | inl shut ↦ no_channel live shut (ground arith)
      | inr open_ ↦ elim (Admission-cases (f.admit c.flow n)) [
        | inl (inl full) ↦ no_room live open_ full (ground arith)
        | inl (inr broken) ↦ no_charge live open_ broken (ground arith)
        | inr (flow, e) ↦
            let (b, r, sb, sr) = f.admit_within c.flow flow n e in
            charged live open_ flow (ground arith) (f.admit_bytes c.flow flow n e)
              (f.admit_records c.flow flow n e) b r (record { bytes = sb; records = sr })
      ]
    ]
  ]

  abbrev is_granted : Charge f p → Bool
  is_granted (granted d) = true
  is_granted must_wait = false
  is_granted (failed e) = false

  -- The bytes that an event takes out of the window, and the number of records.
  abbrev taken_bytes : Channel f p → Event f p → ℕ
  taken_bytes c (reads r) = 0
  taken_bytes c (charges n) = if is_granted (charge f p c n) then n else 0
  taken_bytes c (reconciles id epoch n) = 0
  taken_bytes c (flushes epoch) = 0
  taken_bytes c closes = 0
  taken_bytes c (closes_with message) = 0
  taken_bytes c (ends_session message) = 0

  abbrev taken_records : Channel f p → Event f p → ℕ
  taken_records c (reads r) = 0
  taken_records c (charges n) = if is_granted (charge f p c n) then 1 else 0
  taken_records c (reconciles id epoch n) = 0
  taken_records c (flushes epoch) = 0
  taken_records c closes = 0
  taken_records c (closes_with message) = 0
  taken_records c (ends_session message) = 0

  abbrev pub all_bytes : Identity → Channel f p → List (Event f p) → ℕ
  all_bytes i c [] = 0
  all_bytes i c (e ∷ es) = taken_bytes c e + all_bytes i (step f p i c e) es

  abbrev pub all_records : Identity → Channel f p → List (Event f p) → ℕ
  all_records i c [] = 0
  all_records i c (e ∷ es) = taken_records c e + all_records i (step f p i c e) es

  -- How the window changes: so many bytes and records more are sent, the maxima do not fall, and what
  -- was sent stays within them.
  pub record Accounts (c d : Channel f p) (bytes records : ℕ) : Type 0 where
    pub sent_bytes : f.sent_body_bytes d.flow ≡ f.sent_body_bytes c.flow + bytes
    pub sent_records : f.sent_media_records d.flow ≡ f.sent_media_records c.flow + records
    pub more_bytes : f.maximum_body_bytes c.flow ≤ f.maximum_body_bytes d.flow
    pub more_records : f.maximum_media_records c.flow ≤ f.maximum_media_records d.flow
    pub within : IsWithin c → IsWithin d

  same-Accounts : (c d : Channel f p) → d.flow ≡ c.flow → Accounts c d 0 0
  same-Accounts c d e =
      let b = ap f.sent_body_bytes e in
      let r = ap f.sent_media_records e in
      let mb = ap f.maximum_body_bytes e in
      let mr = ap f.maximum_media_records e in
      record {
        sent_bytes = omega (arith, b);
        sent_records = omega (arith, r);
        more_bytes = omega (arith, mb);
        more_records = omega (arith, mr);
        within = λ v. record {
          bytes = omega (arith, b, mb, v.bytes);
          records = omega (arith, r, mr, v.records);
        };
      }

  step-Accounts :
      (i : Identity) (c : Channel f p) (e : Event f p)
      → Accounts c (step f p i c e) (taken_bytes c e) (taken_records c e)
  unfolding step flush_finish close close_track_flow reconcile_status
  step-Accounts i c (reads r) =
      let l = read_record-Leaves f p i c r in
      record {
        sent_bytes = omega (arith, l.sent_bytes);
        sent_records = omega (arith, l.sent_records);
        more_bytes = l.more_bytes;
        more_records = l.more_records;
        within = λ v. record {
          bytes = omega (arith, l.sent_bytes, l.more_bytes, v.bytes);
          records = omega (arith, l.sent_records, l.more_records, v.records);
        };
      }
  step-Accounts i c (charges n) = elim (charge-Charges c n) [
    | no_session _ e ↦ rw e (same-Accounts c c refl)
    | no_channel _ _ e ↦ rw e (same-Accounts c c refl)
    | no_room _ _ _ e ↦ rw e (same-Accounts c c refl)
    | no_charge _ _ _ e ↦ rw e (same-Accounts c c refl)
    | charged _ _ flow e b r mb mr w ↦ rw e record {
      sent_bytes = b;
      sent_records = r;
      more_bytes = omega (arith, mb);
      more_records = omega (arith, mr);
      within = λ v. w;
    }
  ]
  step-Accounts i c (reconciles id epoch n) = same-Accounts c _ refl
  step-Accounts i c (flushes epoch) = same-Accounts c _ refl
  step-Accounts i c closes = same-Accounts c _ refl
  step-Accounts i c (closes_with message) = same-Accounts c _ refl
  step-Accounts i c (ends_session message) = same-Accounts c _ refl

  run-Accounts :
      (i : Identity) (c : Channel f p) (es : List (Event f p))
      → Accounts c (run f p i c es) (all_bytes i c es) (all_records i c es)
  unfolding run
  run-Accounts i c [] = same-Accounts c c refl
  run-Accounts i c (e ∷ es) =
      let first = step-Accounts i c e in
      let rest = run-Accounts i (step f p i c e) es in
      record {
        sent_bytes = omega (arith, first.sent_bytes, rest.sent_bytes);
        sent_records = omega (arith, first.sent_records, rest.sent_records);
        more_bytes = omega (arith, first.more_bytes, rest.more_bytes);
        more_records = omega (arith, first.more_records, rest.more_records);
        within = λ v. rest.within (first.within v);
      }

  -- A channel that has sent no more than the other side allows never does, whatever the threads do
  -- and in any order.
  pub run-IsWithin :
      (i : Identity) (c : Channel f p) (es : List (Event f p))
      → IsWithin c
      → IsWithin (run f p i c es)
  run-IsWithin i c es v = (run-Accounts i c es).within v

  -- The reader accepts a record of the other side that returns capacity, and then the threads do
  -- anything in any order: the window has reached the returned maxima and does not fall below them; what
  -- was sent is what had been sent and exactly the bodies and records whose charge was granted since;
  -- and it is within the maxima if it was.
  pub returned_capacity-Accounts :
      (i : Identity) (c : Channel f p) (r : Reverse f p) (m : PayloadMap p.cbor) (b n : ℕ)
      (es : List (Event f p))
      → p.max_channel_data ≢ p.error_type
      → r.record_type ≡ p.max_channel_data
      → r.decoded ≡ some m
      → required_u64 p.cbor m 4 ≡ ok b
      → required_u64 p.cbor m 5 ≡ ok n
      → (handle f p i c r).1 ≡ none
      → Accounts c
          (run f p i (read_record f p i c r) es)
          (all_bytes i (read_record f p i c r) es)
          (all_records i (read_record f p i c r) es)
        × (b ≤ f.maximum_body_bytes (run f p i (read_record f p i c r) es).flow)
        × (n ≤ f.maximum_media_records (run f p i (read_record f p i c r) es).flow)
  unfolding step
  returned_capacity-Accounts i c r m b n es other t d x y accepted =
      let raised = read_record-raises f p i c r m b n other t d x y accepted in
      let (reaches_b, reaches_n) = f.raise_reaches c.flow b n in
      let mb = ap f.maximum_body_bytes raised in
      let mn = ap f.maximum_media_records raised in
      let first = step-Accounts i c (reads r) in
      let rest = run-Accounts i (read_record f p i c r) es in
      (
        record {
          sent_bytes = omega (arith, first.sent_bytes, rest.sent_bytes);
          sent_records = omega (arith, first.sent_records, rest.sent_records);
          more_bytes = omega (arith, first.more_bytes, rest.more_bytes);
          more_records = omega (arith, first.more_records, rest.more_records);
          within = λ v. rest.within (first.within v);
        },
        omega (arith, mb, reaches_b, rest.more_bytes),
        omega (arith, mn, reaches_n, rest.more_records),
      )
