-- ===== src/Channel/Sequence.antt =====
-- Media IDs and epochs of the records that src/channel.rs sends, across whatever the control plane
-- and the reader do in between.
use vivid_sdk.Prelude.{
  ◌+◌, ◌≤◌, ◌<◌, max, ℕ, ◌≡◌, ap, ◌↔◌, true, false, List, [], ◌∷◌, arith, ok, u32_max,
}
use vivid_sdk.Channel.State.{
  FlowControl, Peer, MediaSequence, Send, InFlight, Channel, validate_send, finish_send,
  reconcile_status, flush_finish, flush_check, close, close_track_flow, charge,
}
use vivid_sdk.Channel.Reader.{
  Identity, Event, reads, charges, reconciles, flushes, closes, closes_with, ends_session, step,
  run, read_record,
}
use vivid_sdk.Channel.Reader.Effects.{read_record-Leaves}
use vivid_sdk.Channel.Recovery.{NoFlush}

-- What a send needs of the channel.
pub record IsAdmissible (f : FlowControl) (p : Peer) (c : Channel f p) (s : Send) : Type 0 where
  pub live : c.session_closed ≡ false
  pub fits : s.body_length ≤ u32_max
  pub before_eos : c.media.eos ≡ false
  pub recovers : c.media.needs_recovery ≡ true → s.recovery_unit ≡ true
  pub recent : s.recovery_unit ≡ true → c.media.minimum_recovery_epoch ≤ s.epoch
  pub fresh : c.sequence.last_id < s.media_id
  pub onward : c.sequence.last_epoch ≤ s.epoch

module _ (f : FlowControl) (p : Peer) where
  abbrev pub in_flight : Channel f p → Send → InFlight
  in_flight c s = record {
    send = s;
    recovery_revision = c.media.recovery_revision;
    next = record c.sequence { last_id = s.media_id; last_epoch = s.epoch };
  }

  -- A record passes the checks before its transport exactly when the session is live, its body fits,
  -- no end of stream was sent, it is a recovery unit where one is wanted, of a late enough epoch if it
  -- is one, and it moves the media ID forward and the epoch not backward.
  pub validate_send-ok_iff :
      (c : Channel f p) (s : Send)
      → (validate_send f p c s ≡ ok (in_flight c s)) ↔ IsAdmissible f p c s
  unfolding validate_send
  validate_send-ok_iff c s = (λ h. ground arith, λ h. ground arith)

  pub validate_send-eq-ok :
      (c : Channel f p) (s : Send) (x : InFlight)
      → validate_send f p c s ≡ ok x
      → IsAdmissible f p c s × (x ≡ in_flight c s)
  unfolding validate_send
  validate_send-eq-ok c s x e = ground arith

  step_id :
      (i : Identity) (c : Channel f p) (e : Event f p)
      → c.sequence.last_id ≤ (step f p i c e).sequence.last_id
  unfolding step reconcile_status flush_finish close close_track_flow charge
  step_id i c (reads r) = ground (arith, (read_record-Leaves f p i c r).sequence)
  step_id i c (charges n) = ground arith
  step_id i c (reconciles id epoch n) = omega arith
  step_id i c (flushes epoch) = omega arith
  step_id i c closes = omega arith
  step_id i c (closes_with message) = omega arith
  step_id i c (ends_session message) = omega arith

  run_id :
      (i : Identity) (c : Channel f p) (es : List (Event f p))
      → c.sequence.last_id ≤ (run f p i c es).sequence.last_id
  unfolding run
  run_id i c [] = omega arith
  run_id i c (e ∷ es) = omega (arith, step_id i c e, run_id i (step f p i c e) es)

  run_epoch :
      (i : Identity) (c : Channel f p) (es : List (Event f p))
      → NoFlush f p es
      → c.sequence.last_epoch ≤ (run f p i c es).sequence.last_epoch
  unfolding run step reconcile_status close close_track_flow charge
  run_epoch i c [] calm = omega arith
  run_epoch i c (reads r ∷ es) calm = omega (
    arith,
    ap (λ (q : MediaSequence). q.last_epoch) (read_record-Leaves f p i c r).sequence,
    run_epoch i (read_record f p i c r) es calm,
  )
  run_epoch i c (charges n ∷ es) calm =
      ground (arith, run_epoch i (step f p i c (charges n)) es calm)
  run_epoch i c (reconciles id epoch n ∷ es) calm =
      omega (arith, run_epoch i (step f p i c (reconciles id epoch n)) es calm)
  run_epoch i c (flushes epoch ∷ es) calm = absurd calm
  run_epoch i c (closes ∷ es) calm = run_epoch i (step f p i c closes) es calm
  run_epoch i c (closes_with message ∷ es) calm =
      run_epoch i (step f p i c (closes_with message)) es calm
  run_epoch i c (ends_session message ∷ es) calm =
      run_epoch i (step f p i c (ends_session message)) es calm

  -- Of two records that go to the transport one after the other the second has the greater media ID,
  -- whatever happens while the first is in transport (`during`) and between the two (`between`).
  pub sends_increase :
      (i : Identity) (c : Channel f p) (s t : Send) (x y : InFlight) (n : ℕ)
      (during between : List (Event f p))
      → validate_send f p c s ≡ ok x
      → validate_send f p (run f p i (finish_send f p (run f p i c during) x n) between) t ≡ ok y
      → s.media_id < t.media_id
  unfolding finish_send
  sends_increase i c s t x y n during between e e' =
      let d = finish_send f p (run f p i c during) x n in
      let (first, at) = validate_send-eq-ok c s x e in
      let (second, _) = validate_send-eq-ok (run f p i d between) t y e' in
      ground (arith, run_id i d between)

  -- If no flush comes between the two records, the second one's epoch is no smaller than the first
  -- one's, whatever else happens and also if a flush came while the first was in transport.
  pub epochs_increase :
      (i : Identity) (c : Channel f p) (s t : Send) (x y : InFlight) (n : ℕ)
      (during between : List (Event f p))
      → NoFlush f p between
      → validate_send f p c s ≡ ok x
      → validate_send f p (run f p i (finish_send f p (run f p i c during) x n) between) t ≡ ok y
      → s.epoch ≤ t.epoch
  unfolding finish_send
  epochs_increase i c s t x y n during between calm e e' =
      let d = finish_send f p (run f p i c during) x n in
      let (first, at) = validate_send-eq-ok c s x e in
      let (second, _) = validate_send-eq-ok (run f p i d between) t y e' in
      ground (arith, run_epoch i d between calm)

  -- The end of a send merges what the presenter reported in the meantime: neither that nor the
  -- record's own ID and epoch are lost.
  pub finish_send_merges :
      (i : Identity) (c : Channel f p) (s : Send) (x : InFlight) (n : ℕ) (es : List (Event f p))
      → validate_send f p c s ≡ ok x
      → let now = (run f p i c es).sequence in
        let q = (finish_send f p (run f p i c es) x n).sequence in
        (q.last_id ≡ max now.last_id s.media_id)
        × (q.last_epoch ≡ max now.last_epoch s.epoch)
        × (q.last_record_sequence ≡ max now.last_record_sequence n)
  unfolding finish_send
  finish_send_merges i c s x n es e = let (first, at) = validate_send-eq-ok c s x e in ground arith

  -- `flush` tests its epoch before its request and stores it after. A record of a later epoch that
  -- goes out in between is overwritten: the channel's epoch moves backward, and a recovery unit of
  -- the flush's epoch with the next media ID is then accepted after the record of a later epoch.
  pub flush_lowers_epoch :
      (c : Channel f p) (s t : Send) (x : InFlight) (n epoch : ℕ)
      → flush_check f p c epoch ≡ ok tt
      → validate_send f p c s ≡ ok x
      → epoch < s.epoch
      → t.media_id ≡ s.media_id + 1
      → t.epoch ≡ epoch
      → t.recovery_unit ≡ true
      → t.body_length ≤ u32_max
      → (y : InFlight) × (validate_send f p (flush_finish f p (finish_send f p c x n) epoch) t
          ≡ ok y)
        × (y.next.last_epoch < s.epoch)
  unfolding flush_check validate_send finish_send flush_finish
  flush_lowers_epoch c s t x n epoch checked e back next epoch' unit fits =
      (in_flight (flush_finish f p (finish_send f p c x n) epoch) t, ground arith, ground arith)
