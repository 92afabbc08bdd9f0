-- ===== src/Session/Fragment/Traffic.antt =====
-- The traffic of send_and_receive on its link: the calls of the callbacks that a success has made.
use c0_pqlink_complete.Prelude.{
  ℕ, zero, suc, ◌+◌, ◌≡◌, refl, ap, sym, ◌∙◌, subst, Bytes, Bool, true, arith, Bool-cases, inl, inr,
  take,
}
use c0_pqlink_complete.Common.{ok, Result-cases}
use c0_pqlink_complete.Session.Header.{FrameHeader, decode_header}
use c0_pqlink_complete.Session.Client.{Client}
use c0_pqlink_complete.Session.Fragment.{
  Transport, Delivery, delivered, missed, accepts, judge, attempt_once, attempt_loop,
  send_and_receive,
}

module _ (transport : Transport) where
  open transport use {Link, send_frame, receive_frame}

  -- The link after further calls of the callbacks.
  pub data Later : Link → Link → Type 0 where
    same : (link : Link) → Later link link
    sent :
        (link later : Link) (frame : Bytes)
        → Later (send_frame link frame).0 later
        → Later link later
    received :
        (link later : Link) (frame : Bytes) (capacity timeout : ℕ)
        → Later (receive_frame link frame capacity timeout).0 later
        → Later link later

  -- The last call on the way from `link` to `later` is a receive, and delivers a reply of the given
  -- type and length for the session of the client.
  pub record Answered (client : Client) (kind size : ℕ) (link : Link) (reply : Bytes) (later : Link)
      : Type 0 where
    pub waiting : Link
    pub before : Later link waiting
    pub array : Bytes
    pub arrives :
        receive_frame waiting array 96 client.config.timeout_ms ≡ (later, delivered reply size)
    pub header : FrameHeader
    pub decoded : decode_header reply size ≡ ok header
    pub frame_type : header.frame_type ≡ kind
    pub session_id : header.session_id ≡ client.session_id

  -- The frame is sent first, and the reply is received last.
  abbrev pub Exchanged : Client → Bytes → ℕ → ℕ → Link → Bytes → Link → Type 0
  Exchanged client frame kind size link reply later =
      Answered client kind size (send_frame link frame).0 reply later

  judge-Answered :
      (client : Client) (kind size : ℕ) (link : Link) (array : Bytes) (event : Link × Delivery)
      → receive_frame link array 96 client.config.timeout_ms ≡ event
      → (judge transport client kind size event).2 ≡ true
      → Answered client kind size link
          (judge transport client kind size event).1
          (judge transport client kind size event).0
  unfolding judge accepts
  judge-Answered client kind size link array (later, delivered reply n) e h =
      elim (Result-cases (decode_header reply n)) [
        | inl (header, d) ↦
            let length : n ≡ size = ground arith in
            record {
              waiting = link;
              before = same link;
              array = array;
              arrives = e ∙ ap (λ m. (later, delivered reply m)) length;
              header = header;
              decoded = ap (decode_header reply) (sym length) ∙ d;
              frame_type = ground arith;
              session_id = ground arith;
            }
        | inr (code, d) ↦ ground arith
      ]
  judge-Answered client kind size link array (later, missed reply) e h = cc

  joined_way : (a b c : Link) → Later a b → Later b c → Later a c
  joined_way a b c (same _) w = w
  joined_way a b c (sent _ _ frame v) w = sent a c frame (joined_way _ b c v w)
  joined_way a b c (received _ _ frame capacity timeout v) w =
      received a c frame capacity timeout (joined_way _ b c v w)

  earlier :
      (client : Client) (kind size : ℕ) (link next later : Link) (reply : Bytes)
      → Later link next
      → Answered client kind size next reply later
      → Answered client kind size link reply later
  earlier client kind size link next later reply way a = record {
    waiting = a.waiting;
    before = joined_way link next a.waiting way a.before;
    array = a.array;
    arrives = a.arrives;
    header = a.header;
    decoded = a.decoded;
    frame_type = a.frame_type;
    session_id = a.session_id;
  }

  judge-link :
      (client : Client) (kind size : ℕ) (event : Link × Delivery)
      → (judge transport client kind size event).0 ≡ event.0
  unfolding judge
  judge-link client kind size (later, delivered reply n) = refl
  judge-link client kind size (later, missed reply) = refl

  module _ (link : Link) (client : Client) (frame : Bytes) (length kind size : ℕ) where
    abbrev pass : Link × Bytes × Bool
    pass = attempt_once transport link client frame length kind size

    abbrev sending : Link × Bool
    sending = send_frame link (take length frame)

    pass-Exchanged :
        pass.2 ≡ true → Exchanged client (take length frame) kind size link pass.1 pass.0
    unfolding attempt_once
    pass-Exchanged h = elim (Bool-cases sending.1) [
      | inl passed ↦ rw passed (judge-Answered client kind size _ frame _ refl (rw passed at h))
      | inr failed ↦ ground arith
    ]

    pass-Later : Later sending.0 pass.0
    unfolding attempt_once
    pass-Later = elim (Bool-cases sending.1) [
      | inl passed ↦ rw passed (
          subst (Later sending.0) (sym (judge-link client kind size _))
            (received sending.0 _ frame 96 client.config.timeout_ms (same _)))
      | inr failed ↦ rw failed (same sending.0)
    ]

  loop-Exchanged :
      (attempts : ℕ) (link : Link) (client : Client) (frame : Bytes) (length kind size : ℕ)
      → (attempt_loop transport attempts link client frame length kind size).2 ≡ ok tt
      → Exchanged client
          (take length frame)
          kind
          size
          link
          (attempt_loop transport attempts link client frame length kind size).1
          (attempt_loop transport attempts link client frame length kind size).0
  unfolding attempt_loop
  loop-Exchanged zero link client frame length kind size h = cc
  loop-Exchanged (suc attempts) link client frame length kind size h =
      let next = pass link client frame length kind size in
      elim (Bool-cases next.2) [
        | inl accepted ↦ rw accepted (pass-Exchanged link client frame length kind size accepted)
        | inr refused ↦ rw refused (
            earlier client kind size _ _ _ _
              (joined_way _ next.0 _ (pass-Later link client frame length kind size)
                (sent next.0 _ (take length next.1) (same _)))
              (loop-Exchanged attempts next.0 client next.1 length kind size (rw refused at h)))
      ]

  pub send_and_receive-Exchanged :
      (link : Link) (client : Client) (frame : Bytes) (length kind size : ℕ)
      → (send_and_receive transport link client frame length kind size).2 ≡ ok tt
      → Exchanged client
          (take length frame)
          kind
          size
          link
          (send_and_receive transport link client frame length kind size).1
          (send_and_receive transport link client frame length kind size).0
  unfolding send_and_receive
  send_and_receive-Exchanged link client frame length kind size h =
      loop-Exchanged (client.config.maximum_retries + 1) link client frame length kind size h
