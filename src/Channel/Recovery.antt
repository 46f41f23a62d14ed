-- ===== src/Channel/Recovery.antt =====
-- Recovery requests of the other side against a send that is in transport: src/channel.rs keeps a
-- revision for this.
use vivid_sdk.Prelude.{
  ◌≤◌, ◌<◌, max, ℕ, ◌≡◌, refl, ◌⊎◌, true, false, none, List, [], ◌∷◌, ◌++◌, arith, ok, u32_max,
}
use vivid_sdk.Channel.State.{
  FlowControl, Peer, Send, InFlight, Channel, validate_send, finish_send, flush_finish, close,
  close_track_flow, flush_check, charge,
}
use vivid_sdk.Channel.Reader.{
  Identity, Reverse, Event, reads, charges, reconciles, flushes, closes, closes_with, ends_session,
  step, run, read_record, handle,
}
use vivid_sdk.Channel.Reader.Effects.{
  Grows, Grows-refl, Grows-trans, read_record-Grows, handle-requests,
}

module _ (f : FlowControl) (p : Peer) where
  -- Every event but a flush.
  abbrev pub NoFlush : List (Event f p) → Type 0
  NoFlush [] = Unit
  NoFlush (reads r ∷ es) = NoFlush es
  NoFlush (charges n ∷ es) = NoFlush es
  NoFlush (reconciles id epoch n ∷ es) = NoFlush es
  NoFlush (flushes epoch ∷ es) = ⊥
  NoFlush (closes ∷ es) = NoFlush es
  NoFlush (closes_with message ∷ es) = NoFlush es
  NoFlush (ends_session message ∷ es) = NoFlush es

  charge_media :
      (i : Identity) (c : Channel f p) (n : ℕ) → (step f p i c (charges n)).media ≡ c.media
  unfolding step charge
  charge_media i c n = ground arith

  run-Grows :
      (i : Identity) (c : Channel f p) (es : List (Event f p))
      → NoFlush es
      → Grows c.media (run f p i c es).media
  unfolding run step close close_track_flow
  run-Grows i c [] calm = Grows-refl c.media
  run-Grows i c (reads r ∷ es) calm =
      Grows-trans _ _ _ (read_record-Grows f p i c r) (run-Grows i (read_record f p i c r) es calm)
  run-Grows i c (charges n ∷ es) calm =
      rw (charge_media i c n) at (run-Grows i (step f p i c (charges n)) es calm)
  run-Grows i c (reconciles id epoch n ∷ es) calm =
      run-Grows i (step f p i c (reconciles id epoch n)) es calm
  run-Grows i c (flushes epoch ∷ es) calm = absurd calm
  run-Grows i c (closes ∷ es) calm = run-Grows i (step f p i c closes) es calm
  run-Grows i c (closes_with message ∷ es) calm =
      run-Grows i (step f p i c (closes_with message)) es calm
  run-Grows i c (ends_session message ∷ es) calm =
      run-Grows i (step f p i c (ends_session message)) es calm

  validate_send-revision :
      (c : Channel f p) (s : Send) (x : InFlight)
      → validate_send f p c s ≡ ok x
      → (x.recovery_revision ≡ c.media.recovery_revision) × (x.send ≡ s)
  unfolding validate_send
  validate_send-revision c s x e = ground arith

  run-append :
      (i : Identity) (c : Channel f p) (es fs : List (Event f p))
      → run f p i c (es ++ fs) ≡ run f p i (run f p i c es) fs
  unfolding run
  run-append i c [] fs = refl
  run-append i c (e ∷ es) fs = run-append i (step f p i c e) es fs

  NoFlush-append : (es fs : List (Event f p)) → NoFlush es → NoFlush fs → NoFlush (es ++ fs)
  NoFlush-append [] fs g h = h
  NoFlush-append (reads r ∷ es) fs g h = NoFlush-append es fs g h
  NoFlush-append (charges n ∷ es) fs g h = NoFlush-append es fs g h
  NoFlush-append (reconciles id epoch n ∷ es) fs g h = NoFlush-append es fs g h
  NoFlush-append (flushes epoch ∷ es) fs g h = g
  NoFlush-append (closes ∷ es) fs g h = NoFlush-append es fs g h
  NoFlush-append (closes_with message ∷ es) fs g h = NoFlush-append es fs g h
  NoFlush-append (ends_session message ∷ es) fs g h = NoFlush-append es fs g h

  run_requested :
      (i : Identity) (c : Channel f p) (before after : List (Event f p)) (r : Reverse f p)
      → NoFlush before
      → NoFlush after
      → (r.record_type ≡ p.need_keyframe) ⊎ (r.record_type ≡ p.need_full_frame)
      → (handle f p i (run f p i c before) r).1 ≡ none
      → let m = (run f p i c (before ++ reads r ∷ after)).media in
        (c.media.recovery_revision < m.recovery_revision) × (m.needs_recovery ≡ true)
  unfolding run step
  run_requested i c before after r calm calm' request accepted =
      let d = run f p i c before in
      rw (run-append i c before (reads r ∷ after)) (
        let first = run-Grows i c before calm in
        let last = run-Grows i (read_record f p i d r) after calm' in
        let whole =
          Grows-trans _ _ _ first (Grows-trans _ _ _ (read_record-Grows f p i d r) last) in
        let moved : c.media.recovery_revision
            < (run f p i (read_record f p i d r) after).media.recovery_revision =
          omega
            (arith, first.revision, last.revision, handle-requests f p i d r request accepted) in
        (moved, whole.requested moved))

  -- A recovery request that is handled while an admitted record is in transport is not lost: when the
  -- write is over the channel still wants a recovery unit, also where the record was one. Any other events
  -- but a flush may come before and after the request.
  pub request_in_transport :
      (i : Identity) (c : Channel f p) (s : Send) (x : InFlight) (n : ℕ)
      (before after : List (Event f p)) (r : Reverse f p)
      → validate_send f p c s ≡ ok x
      → NoFlush before
      → NoFlush after
      → (r.record_type ≡ p.need_keyframe) ⊎ (r.record_type ≡ p.need_full_frame)
      → (handle f p i (run f p i c before) r).1 ≡ none
      → (finish_send f p (run f p i c (before ++ reads r ∷ after)) x n).media.needs_recovery ≡ true
  unfolding finish_send
  request_in_transport i c s x n before after r e calm calm' request accepted =
      let v = validate_send-revision c s x e in
      let q = run_requested i c before after r calm calm' request accepted in ground arith

  -- If the recovery revision is the same at the end of an admitted recovery unit as at its start, the
  -- unit ends the recovery, and its epoch is the least that a later recovery unit may have.
  pub recovery_ends :
      (i : Identity) (c : Channel f p) (s : Send) (x : InFlight) (n : ℕ) (es : List (Event f p))
      → validate_send f p c s ≡ ok x
      → s.recovery_unit ≡ true
      → (run f p i c es).media.recovery_revision ≡ c.media.recovery_revision
      → let m = (finish_send f p (run f p i c es) x n).media in
        (m.needs_recovery ≡ false) × (m.minimum_recovery_epoch ≡ s.epoch) × (m.last_sequence ≡ n)
  unfolding finish_send
  recovery_ends i c s x n es e unit same = let v = validate_send-revision c s x e in ground arith

  -- A flush takes no revision. So a recovery unit of the old epoch that was in transport when the
  -- flush came ends the recovery that the flush asked for, and any later record of the
  -- new epoch that fits is admitted though it is no recovery unit.
  pub flush_in_transport :
      (i : Identity) (c : Channel f p) (s d : Send) (x : InFlight) (n epoch : ℕ)
      → validate_send f p c s ≡ ok x
      → s.recovery_unit ≡ true
      → s.epoch < epoch
      → flush_check f p c epoch ≡ ok tt
      → d.recovery_unit ≡ false
      → d.epoch ≡ epoch
      → s.media_id < d.media_id
      → d.body_length ≤ u32_max
      → (y : InFlight) × (validate_send f p
            (finish_send f p (run f p i c (flushes epoch ∷ [])) x n)
            d
          ≡ ok y)
  unfolding run step flush_finish finish_send validate_send flush_check
  flush_in_transport i c s d x n epoch e unit older checked delta current later fits = (
    record {
      send = d;
      recovery_revision = c.media.recovery_revision;
      next = record {
        last_id = d.media_id;
        last_epoch = d.epoch;
        last_record_sequence = max c.sequence.last_record_sequence n;
      };
    },
    ground arith,
  )

  -- Right after a flush only a recovery unit of the new epoch or a later one is admitted.
  pub flush_wants_recovery :
      (c : Channel f p) (epoch : ℕ) (d : Send) (y : InFlight)
      → validate_send f p (flush_finish f p c epoch) d ≡ ok y
      → (d.recovery_unit ≡ true) × (epoch ≤ d.epoch)
  unfolding flush_finish validate_send
  flush_wants_recovery c epoch d y e = ground arith
