-- ===== src/Channel/Reader/Returns.antt =====
-- The capacity that the other side of a channel of src/channel.rs returns.
use vivid_sdk.Prelude.{ℕ, ◌≡◌, refl, sym, ap, ◌∙◌, ◌≢◌, none, some, arith, ok}
use vivid_sdk.Wire.{PayloadMap, required_u64}
use vivid_sdk.Channel.State.{FlowControl, Peer, Channel}
use vivid_sdk.Channel.Reader.{
  Identity, Reverse, handle, handle_payload, dispatch, raise_flow, read_record,
}

module _ (f : FlowControl) (p : Peer) where
  raise_flow_lem :
      (c : Channel f p) (m : PayloadMap p.cbor) (b n : ℕ)
      → required_u64 p.cbor m 4 ≡ ok b
      → required_u64 p.cbor m 5 ≡ ok n
      → (raise_flow f p c m).1 ≡ none
      → (raise_flow f p c m).0.flow ≡ f.raise_maxima c.flow b n
  unfolding raise_flow
  raise_flow_lem c m b n x y accepted = ground arith

  dispatch_lem :
      (c : Channel f p) (r : Reverse f p) (m : PayloadMap p.cbor)
      → r.record_type ≡ p.max_channel_data
      → dispatch f p c r m ≡ raise_flow f p c m
  unfolding dispatch
  dispatch_lem c r m t = rw t (ground arith)

  handle_payload_lem :
      (i : Identity) (c : Channel f p) (r : Reverse f p) (m : PayloadMap p.cbor)
      → (handle_payload f p i c r (some m)).1 ≡ none
      → handle_payload f p i c r (some m) ≡ dispatch f p c r m
  unfolding handle_payload
  handle_payload_lem i c r m accepted = ground arith

  handle_lem :
      (i : Identity) (c : Channel f p) (r : Reverse f p)
      → r.record_type ≢ p.error_type
      → (handle f p i c r).1 ≡ none
      → handle f p i c r ≡ handle_payload f p i c r r.decoded
  unfolding handle
  handle_lem i c r no_error accepted = ground arith

  read_record-accepted :
      (i : Identity) (c : Channel f p) (r : Reverse f p)
      → (handle f p i c r).1 ≡ none
      → read_record f p i c r ≡ (handle f p i c r).0
  unfolding read_record
  read_record-accepted i c r accepted = rw accepted refl

  -- A reader that accepts a record with new maxima leaves a window that they raised.
  pub read_record-raises :
      (i : Identity) (c : Channel f p) (r : Reverse f p) (m : PayloadMap p.cbor) (b n : ℕ)
      → p.max_channel_data ≢ p.error_type
      → r.record_type ≡ p.max_channel_data
      → r.decoded ≡ some m
      → required_u64 p.cbor m 4 ≡ ok b
      → required_u64 p.cbor m 5 ≡ ok n
      → (handle f p i c r).1 ≡ none
      → (read_record f p i c r).flow ≡ f.raise_maxima c.flow b n
  read_record-raises i c r m b n other t d x y accepted =
      let h = handle_lem i c r (λ e. other (sym t ∙ e)) accepted in
      let h' : handle f p i c r ≡ handle_payload f p i c r (some m) =
        h ∙ ap (handle_payload f p i c r) d in
      let k = handle_payload_lem i c r m (ap (λ z. z.1) (sym h') ∙ accepted) in
      let whole : handle f p i c r ≡ raise_flow f p c m = h' ∙ k ∙ dispatch_lem c r m t in
      let done = raise_flow_lem c m b n x y (ap (λ z. z.1) (sym whole) ∙ accepted) in
      ap (λ z. z.flow) (read_record-accepted i c r accepted) ∙ ap (λ z. z.0.flow) whole ∙ done
