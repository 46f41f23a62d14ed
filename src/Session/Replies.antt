-- ===== src/Session/Replies.antt =====
-- What a request of src/session.rs accepts as its reply.
use mathlib.Core.Path.{subst}
use vivid_sdk.Prelude.{
  ◌+◌, ◌≤◌, ℕ, ◌≡◌, refl, ◌≢◌, ◌↔◌, inl, inr, Option, none, some, arith, leb, Bool-cases,
  Option-cases, length, Result, ok, err, Result-cases, u64_max,
}
use vivid_sdk.Wire
use vivid_sdk.Session.{
  Remote, Error, Envelope, Reply, Request, Transport, check_reply, check_ok, request, request_ok,
  next_request, dispatch_ok,
}
use vivid_sdk.Control.State.{allocate}

module _ (r : Remote) where
  -- A reply that is no error and repeats the request's ID.
  pub record IsReplyTo (id : ℕ) (reply : Reply r) : Type 0 where
    pub no_error : reply.record_type ≢ r.error_type
    pub envelope : Envelope r
    pub decodes : reply.decoded ≡ some envelope
    pub correlated : envelope.request_id ≡ id

  -- An OK record for the object, with an empty payload.
  pub record IsOk (id object_id : ℕ) (reply : Reply r) : Type 0 where
    pub no_error : reply.record_type ≢ r.error_type
    pub is_ok : reply.record_type ≡ r.ok_type
    pub own : reply.object_id ≡ object_id
    pub envelope : Envelope r
    pub decodes : reply.decoded ≡ some envelope
    pub correlated : envelope.request_id ≡ id
    pub empty : length envelope.payload ≡ 0

  check_reply-IsReplyTo :
      (id : ℕ) (o : Option (Reply r)) (reply : Reply r)
      → check_reply r id o ≡ ok (some reply)
      → (o ≡ some reply) × IsReplyTo id reply
  unfolding check_reply
  check_reply-IsReplyTo id none reply e = absurd (ground arith)
  check_reply-IsReplyTo id (some x) reply e = elim (Option-cases x.decoded) [
    | inl h ↦ absurd (ground arith)
    | inr (v, h) ↦
        let same : ◌≡◌ {A = Reply r} x reply = ground arith in
        subst (λ y. (some x ≡ some y) × IsReplyTo id y) same
          (
            refl,
            record {
              no_error = ground arith;
              envelope = v;
              decodes = h;
              correlated = ground arith;
            },
          )
  ]

  -- A request that ends with a reply took the next request ID, and the reply is no error and repeats
  -- that ID.
  pub request-IsReplyTo :
      (t : Transport r) (next : ℕ) (q : Request r) (reply : Reply r)
      → (request r t next q).1 ≡ ok (some reply)
      → ((request r t next q).0 ≡ next + 1) × (t next q ≡ ok (some reply)) × IsReplyTo next reply
  unfolding request next_request allocate
  request-IsReplyTo t next q reply e = elim (Bool-cases (leb (next + 1) u64_max)) [
    | inr full ↦ absurd (ground arith)
    | inl room ↦ elim (Result-cases (t next q)) [
      | inr (x, h) ↦ absurd (ground arith)
      | inl (o, h) ↦
          let (at, good) = check_reply-IsReplyTo next o reply (ground arith) in
          (ground arith, ground arith, good)
    ]
  ]

  IsOk-check_ok :
      (id object_id : ℕ) (reply : Reply r)
      → IsOk id object_id reply
      → check_ok r id object_id (some reply) ≡ ok tt
  unfolding check_ok Wire.expect_record
  IsOk-check_ok id object_id reply h =
      let a = h.no_error in
      let b = h.is_ok in
      let c0 = h.own in let d = h.decodes in let e = h.correlated in let g = h.empty in ground arith

  check_ok-IsOk :
      (id object_id : ℕ) (reply : Reply r)
      → check_ok r id object_id (some reply) ≡ ok tt
      → IsOk id object_id reply
  unfolding check_ok Wire.expect_record
  check_ok-IsOk id object_id reply e = elim (Option-cases reply.decoded) [
    | inl h ↦ absurd (ground arith)
    | inr (v, h) ↦ record {
      no_error = ground arith;
      is_ok = ground arith;
      own = ground arith;
      envelope = v;
      decodes = h;
      correlated = ground arith;
      empty = ground arith;
    }
  ]

  -- How a request for an OK succeeds: offline, or with the OK that repeats its ID.
  pub data Succeeds (t : Transport r) (next : ℕ) (q : Request r) : Type 0 where
    offline : t next q ≡ ok none → Succeeds t next q
    acknowledged :
        (reply : Reply r)
        → t next q ≡ ok (some reply)
        → IsOk next q.object_id reply
        → Succeeds t next q

  request_ok-room :
      (t : Transport r) (next : ℕ) (q : Request r)
      → (request_ok r t next q).1 ≡ ok tt
      → next + 1 ≤ u64_max
  unfolding request_ok next_request allocate
  request_ok-room t next q e = ground arith

  request_ok-Succeeds :
      (t : Transport r) (next : ℕ) (q : Request r) (x : Result Error (Option (Reply r)))
      → t next q ≡ x
      → (request_ok r t next q).1 ≡ ok tt
      → Succeeds t next q
  unfolding request_ok next_request allocate dispatch_ok
  request_ok-Succeeds t next q (ok none) h e = offline h
  request_ok-Succeeds t next q (ok (some reply)) h e =
      acknowledged reply h (check_ok-IsOk next q.object_id reply (ground arith))
  request_ok-Succeeds t next q (err x) h e = absurd (ground arith)

  Succeeds-request_ok :
      (t : Transport r) (next : ℕ) (q : Request r)
      → next + 1 ≤ u64_max
      → Succeeds t next q
      → (request_ok r t next q).1 ≡ ok tt
  unfolding request_ok next_request allocate dispatch_ok check_ok
  Succeeds-request_ok t next q fits (offline h) = ground arith
  Succeeds-request_ok t next q fits (acknowledged reply h good) =
      let checked = IsOk-check_ok next q.object_id reply good in ground arith

  -- `request_ok` succeeds exactly when a request ID is left and the session is offline or the reply
  -- is an OK record for the request's object that repeats its ID and has no payload.
  pub request_ok-ok_iff :
      (t : Transport r) (next : ℕ) (q : Request r)
      → ((request_ok r t next q).1 ≡ ok tt) ↔ ((next + 1 ≤ u64_max) × Succeeds t next q)
  request_ok-ok_iff t next q = (
    λ e. (request_ok-room t next q e, request_ok-Succeeds t next q (t next q) refl e),
    λ h. Succeeds-request_ok t next q h.0 h.1,
  )
