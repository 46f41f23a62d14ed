-- ===== src/Channel/Closing.antt =====
-- Closing a channel of src/channel.rs, and the end of its stream.
use vivid_sdk.Prelude.{
  ◌≤◌, ℕ, ◌≡◌, refl, ◌∙◌, ◌⊎◌, inl, inr, true, Option, List, [], ◌∷◌, arith, Bool-cases, length,
  err, refused,
}
use vivid_sdk.Channel.State.{
  FlowControl, Peer, Error, session_closed, diagnosis, Send, Channel, validate_send, flush_finish,
  close, close_track_flow, charge, failed, validate_image, validate_eos, finish_eos,
}
use vivid_sdk.Channel.Reader.{
  Identity, Event, reads, charges, reconciles, flushes, closes, closes_with, ends_session, step,
  run,
}
use vivid_sdk.Channel.Reader.Effects.{read_record-Leaves, read_record-Grows, read_record-closed}

module _ (f : FlowControl) (p : Peer) where
  step_shut :
      (i : Identity) (c : Channel f p) (e : Event f p)
      → (c.closed ≡ true → (step f p i c e).closed ≡ true)
        × (c.session_closed ≡ true → (step f p i c e).session_closed ≡ true)
  unfolding step flush_finish close close_track_flow charge
  step_shut i c (reads r) = (
    λ h. ground (arith, (read_record-closed f p i c r).0),
    λ h. (read_record-Leaves f p i c r).session ∙ h,
  )
  step_shut i c (charges n) = ground arith
  step_shut i c (reconciles id epoch n) = (λ h. h, λ h. h)
  step_shut i c (flushes epoch) = (λ h. h, λ h. h)
  step_shut i c closes = (λ h. refl, λ h. h)
  step_shut i c (closes_with message) = (λ h. refl, λ h. h)
  step_shut i c (ends_session message) = (λ h. refl, λ h. refl)

  run_shut :
      (i : Identity) (c : Channel f p) (es : List (Event f p))
      → (c.closed ≡ true → (run f p i c es).closed ≡ true)
        × (c.session_closed ≡ true → (run f p i c es).session_closed ≡ true)
  unfolding run
  run_shut i c [] = (λ h. h, λ h. h)
  run_shut i c (e ∷ es) =
      let (now, ended) = step_shut i c e in
      let (later, ended') = run_shut i (step f p i c e) es in
      (λ h. later (now h), λ h. ended' (ended h))

  -- Once a channel or its session is closed no charge is granted and none waits, whatever happens later: a sender
  -- that waits for the window fails at its next round.
  pub closed_channel_fails :
      (i : Identity) (c : Channel f p) (es : List (Event f p)) (n : ℕ)
      → (c.closed ≡ true) ⊎ (c.session_closed ≡ true)
      → (e : Error) × (charge f p (run f p i c es) n ≡ failed e)
  unfolding charge
  closed_channel_fails i c es n over =
      let (shut, ended) = run_shut i c es in
      elim (Bool-cases (run f p i c es).session_closed) [
        | inl no_session ↦ (session_closed, ground arith)
        | inr live ↦ (diagnosis f p (run f p i c es).diagnostic, ground arith)
      ]

  step_eos :
      (i : Identity) (c : Channel f p) (e : Event f p) → (step f p i c e).media.eos ≡ c.media.eos
  unfolding step flush_finish close close_track_flow charge
  step_eos i c (reads r) = (read_record-Grows f p i c r).same_eos
  step_eos i c (charges n) = ground arith
  step_eos i c (reconciles id epoch n) = refl
  step_eos i c (flushes epoch) = refl
  step_eos i c closes = refl
  step_eos i c (closes_with message) = refl
  step_eos i c (ends_session message) = refl

  run_eos :
      (i : Identity) (c : Channel f p) (es : List (Event f p))
      → (run f p i c es).media.eos ≡ c.media.eos
  unfolding run
  run_eos i c [] = refl
  run_eos i c (e ∷ es) = run_eos i (step f p i c e) es ∙ step_eos i c e

  -- After the end of the stream nothing more is sent on the channel: no media, no image and no
  -- second end, whatever happens in between.
  pub eos_is_last :
      (i : Identity) (c : Channel f p) (es : List (Event f p)) (s : Send) (configured : Option ℕ)
      (length : ℕ)
      → let d = run f p i (finish_eos f p c) es in
        ((e : Error) × (validate_send f p d s ≡ err e))
        × ((e : Error) × (validate_image f p d configured length ≡ err e))
        × ((e : Error) × (validate_eos f p d ≡ err e))
  unfolding validate_send validate_image validate_eos finish_eos
  eos_is_last i c es s configured length =
      let over = run_eos i (finish_eos f p c) es in
      let d = run f p i (finish_eos f p c) es in
      (
        refused (validate_send f p d s) (λ x e. ground arith),
        refused (validate_image f p d configured length) (λ n e. ground arith),
        refused (validate_eos f p d) (λ n e. ground arith),
      )

  step_events :
      (i : Identity) (c : Channel f p) (e : Event f p)
      → length c.events ≤ 256
      → length (step f p i c e).events ≤ 256
  unfolding step flush_finish close close_track_flow charge
  step_events i c (reads r) h = (read_record-Leaves f p i c r).bounded h
  step_events i c (charges n) h = ground arith
  step_events i c (reconciles id epoch n) h = h
  step_events i c (flushes epoch) h = h
  step_events i c closes h = h
  step_events i c (closes_with message) h = h
  step_events i c (ends_session message) h = h

  -- The queue of events never grows past 256, also when the other side keeps sending.
  pub run_events :
      (i : Identity) (c : Channel f p) (es : List (Event f p))
      → length c.events ≤ 256
      → length (run f p i c es).events ≤ 256
  unfolding run
  run_events i c [] h = h
  run_events i c (e ∷ es) h = run_events i (step f p i c e) es (step_events i c e h)
