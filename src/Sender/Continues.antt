-- ===== src/Sender/Continues.antt =====
-- The media sequence goes on over a recovery of src/pipeline.rs.
use mathlib.Core.Path.{subst}
use vivid_sdk.Prelude.{
  ◌+◌, ◌≤◌, ◌<◌, max, ℕ, ◌≡◌, refl, ap, ◌≢◌, inl, inr, true, false, Option, none, some, arith, leb,
  Bool-cases, Option-cases, ok, Result-cases, u32_max, u64_max,
}
use vivid_sdk.Track.{TrackKind, video_kind}
use vivid_sdk.Track.Query.{same_kind}
use vivid_sdk.Channel.State.{
  FlowControl, Peer, MediaSequence, Send, InFlight, Channel, validate_send, finish_send,
}
use vivid_sdk.Channel.Sequence.{IsAdmissible, in_flight, validate_send-ok_iff, validate_send-eq-ok}
use vivid_sdk.Sender.{
  TrackSender, seeded, next_packet_id, send_packet, recovery_position, recovery_unit,
  finish_recovery, Surroundings, recover_channel,
}

module _ (f : FlowControl) (p : Peer) where
  -- The next delta packet of a sender on a channel.
  abbrev pub next_delta : TrackSender → ℕ → Send
  next_delta s k = record {
    media_id = (next_packet_id s).1;
    epoch = s.epoch;
    recovery_unit = false;
    body_length = k;
  }

  -- How a recovered sender goes on: `v` is the channel that checked the recovery unit, `e` the one that
  -- the end of its write found, `d` the one that it left.
  pub record Continues (v e d : Channel f p) (s : TrackSender) : Type 0 where
    pub ascends : v.sequence.last_id < (next_packet_id s).1
    pub onward : v.sequence.last_epoch ≤ s.epoch
    pub some_epoch : 0 < s.epoch
    pub accepted :
        (k : ℕ)
        → k ≤ u32_max
        → e.session_closed ≡ false
        → e.media.eos ≡ false
        → e.sequence ≡ v.sequence
        → e.media.recovery_revision ≡ v.media.recovery_revision
        → (y : InFlight) × (validate_send f p d (next_delta s k) ≡ ok y)
    pub still_recovering :
        (k : ℕ) (y : InFlight)
        → e.media.needs_recovery ≡ true
        → e.media.recovery_revision ≢ v.media.recovery_revision
        → validate_send f p d (next_delta s k) ≢ ok y

  abbrev finished : Channel f p → Channel f p → Send → ℕ → Channel f p
  finished v e s n = finish_send f p e (in_flight f p v s) n

  finished-IsAdmissible :
      (v e : Channel f p) (s : Send) (n k : ℕ)
      → IsAdmissible f p v s
      → s.recovery_unit ≡ true
      → s.media_id + 1 ≤ u64_max
      → k ≤ u32_max
      → e.session_closed ≡ false
      → e.media.eos ≡ false
      → e.sequence ≡ v.sequence
      → e.media.recovery_revision ≡ v.media.recovery_revision
      → IsAdmissible f p (finished v e s n) (next_delta (seeded (s.media_id + 1) s.epoch) k)
  unfolding finish_send seeded next_packet_id
  finished-IsAdmissible v e s n k ready unit room fits_ live_ no_eos same calm =
      let at = ap (λ (q : MediaSequence). q.last_id) same in
      let from = ap (λ (q : MediaSequence). q.last_epoch) same in
      let fresh_ = ready.fresh in
      let onward_ = ready.onward in
      record {
        live = live_;
        fits = fits_;
        before_eos = ground arith;
        recovers = λ h. absurd (ground arith);
        recent = λ h. absurd (ground arith);
        fresh = omega arith;
        onward = omega arith;
      }

  finished-refuses :
      (v e : Channel f p) (s : Send) (t : TrackSender) (n k : ℕ) (y : InFlight)
      → e.media.needs_recovery ≡ true
      → e.media.recovery_revision ≢ v.media.recovery_revision
      → validate_send f p (finished v e s n) (next_delta t k) ≢ ok y
  unfolding finish_send
  finished-refuses v e s t n k y wants other sent =
      let (ready, _) = validate_send-eq-ok f p (finished v e s n) (next_delta t k) y sent in
      let unit = ready.recovers in ground arith

  recovered-Continues :
      (v e : Channel f p) (s : Send) (x : InFlight) (n : ℕ)
      → validate_send f p v s ≡ ok x
      → s.recovery_unit ≡ true
      → 0 < s.epoch
      → s.media_id + 1 ≤ u64_max
      → Continues v e (finish_send f p e x n) (seeded (s.media_id + 1) s.epoch)
  unfolding seeded next_packet_id
  recovered-Continues v e s x n good unit from room =
      let (ready, same) = validate_send-eq-ok f p v s x good in
      let s' : TrackSender = seeded (s.media_id + 1) s.epoch in
      let fresh_ = ready.fresh in
      rw same record {
        ascends = omega arith;
        onward = ready.onward;
        some_epoch = from;
        accepted = λ k fits_ live_ no_eos at calm. (
          in_flight f p (finished v e s n) (next_delta s' k),
          (validate_send-ok_iff f p (finished v e s n) (next_delta s' k)).1
              (finished-IsAdmissible v e s n k ready unit room fits_ live_ no_eos at calm),
        );
        still_recovering = λ k y. finished-refuses v e s s' n k y;
      }

  send_packet_lem :
      (kind : TrackKind) (c : Channel f p) (id epoch : ℕ) (body_length : Option ℕ) (x : InFlight)
      → send_packet f p kind c (recovery_unit f p id epoch body_length) ≡ ok x
      → (same_kind kind video_kind ≡ true)
        × ((k : ℕ) × (validate_send f p c
                record { media_id = id; epoch = epoch; recovery_unit = true; body_length = k }
              ≡ ok x))
  unfolding send_packet
  send_packet_lem kind c id epoch none x e = absurd (ground arith)
  send_packet_lem kind c id epoch (some k) x e =
      let s : Send = record {
        media_id = id;
        epoch = epoch;
        recovery_unit = true;
        body_length = k;
      } in
      elim (Result-cases (validate_send f p c s)) [
        | inr (z, h) ↦ absurd (ground arith)
        | inl (y, h) ↦ (ground arith, (k, ground arith))
      ]

  recovery_position_lem :
      (c : Channel f p)
      → leb (c.sequence.last_id + 1) u64_max ≡ true
      → recovery_position f p c.sequence ≡ ok (c.sequence.last_id + 1, max c.sequence.last_epoch 1)
  unfolding recovery_position
  recovery_position_lem c room = ground arith

  -- After a recovery that succeeds, which is one of a video track, whatever other threads did before
  -- the checks of its unit and while that was in transport: the sender's next packet ID is greater than
  -- the media IDs that the checks found, its epoch is not before theirs and not zero. Where the session
  -- lives, no stream ended, no other record moved the sequence and no recovery was asked for while the
  -- unit was in transport, the sender's next packet, even a delta packet, passes the checks before its
  -- transport; where a recovery was asked for meanwhile, a delta packet is refused.
  pub recover_channel-Continues :
      (kind : TrackKind) (c : Channel f p) (body_length : Option ℕ) (o : Surroundings f p)
      (s : TrackSender)
      → (recover_channel f p kind c body_length o).1 ≡ ok s
      → (same_kind kind video_kind ≡ true)
        × Continues
            (o.between c)
            (o.during (o.between c))
            (recover_channel f p kind c body_length o).0
            s
  unfolding recover_channel recovery_position finish_recovery
  recover_channel-Continues kind c body_length o s e =
      elim (Bool-cases (leb (c.sequence.last_id + 1) u64_max)) [
        | inr full ↦ absurd (ground arith)
        | inl room ↦
            let v = o.between c in
            let id = c.sequence.last_id + 1 in
            let epoch = max c.sequence.last_epoch 1 in
            elim (Result-cases (send_packet f p kind v (recovery_unit f p id epoch body_length))) [
              | inr (z, h) ↦ absurd (ground arith)
              | inl (x, h) ↦ elim (Option-cases o.written) [
                | inl lost ↦ absurd (ground arith)
                | inr (n, wrote) ↦ elim (Bool-cases (leb (id + 1) u64_max)) [
                  | inr last ↦ absurd (ground arith)
                  | inl more ↦
                      let (video, (k, sent)) = send_packet_lem kind v id epoch body_length x h in
                      let u : Send = record {
                        media_id = id;
                        epoch = epoch;
                        recovery_unit = true;
                        body_length = k;
                      } in
                      let good =
                        recovered-Continues v (o.during v) u x n sent refl (omega arith)
                          (ground arith) in
                      let next : TrackSender = seeded (id + 1) epoch in
                      let same : ◌≡◌ {A = TrackSender} next s = ground arith in
                      (
                        video,
                        subst
                            (λ (r : TrackSender).
                              Continues v (o.during v) (recover_channel f p kind c body_length o).0
                                r)
                            same
                            (subst (λ (d : Channel f p). Continues v (o.during v) d next)
                              (rw (recovery_position_lem c room, recover_channel, h, wrote) refl)
                              good),
                      )
                ]
              ]
            ]
      ]
