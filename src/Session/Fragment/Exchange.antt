-- ===== src/Session/Fragment/Exchange.antt =====
-- What send_and_receive has accepted when it succeeds.
use c0_pqlink_complete.Prelude.{
  ℕ, zero, suc, ◌+◌, ◌≡◌, Bytes, true, arith, Bool-cases, inl, inr, take,
}
use c0_pqlink_complete.Common.{ok, Result-cases}
use c0_pqlink_complete.Session.Header.{FrameHeader, decode_header}
use c0_pqlink_complete.Session.Client.{Client}
use c0_pqlink_complete.Session.Fragment.{
  Transport, Delivery, delivered, missed, accepts, judge, attempt_once, attempt_loop,
  send_and_receive,
}

accepts-checks :
    (client : Client) (kind size : ℕ) (frame : Bytes) (n : ℕ)
    → accepts client kind size frame n ≡ true
    → (header : FrameHeader) × (decode_header frame size ≡ ok header)
      × (header.frame_type ≡ kind)
      × (header.session_id ≡ client.session_id)
unfolding accepts
accepts-checks client kind size frame n h = elim (Result-cases (decode_header frame size)) [
  | inl (header, d) ↦ (header, d, ground arith, ground arith)
  | inr (code, d) ↦ ground arith
]

module _ (transport : Transport) where
  open transport use {Link}

  judge-checks :
      (client : Client) (kind size : ℕ) (event : Link × Delivery)
      → (judge transport client kind size event).2 ≡ true
      → (header : FrameHeader) × (decode_header (judge transport client kind size event).1 size
          ≡ ok header)
        × (header.frame_type ≡ kind)
        × (header.session_id ≡ client.session_id)
  unfolding judge
  judge-checks client kind size (link, delivered frame n) h =
      accepts-checks client kind size frame n h
  judge-checks client kind size (link, missed frame) h = cc

  attempt-checks :
      (link : Link) (client : Client) (frame : Bytes) (length kind size : ℕ)
      → (attempt_once transport link client frame length kind size).2 ≡ true
      → (header : FrameHeader) × (decode_header
            (attempt_once transport link client frame length kind size).1
            size
          ≡ ok header)
        × (header.frame_type ≡ kind)
        × (header.session_id ≡ client.session_id)
  unfolding attempt_once
  attempt-checks link client frame length kind size h =
      elim (Bool-cases (transport.send_frame link (take length frame)).1) [
        | inl sent ↦ rw sent (judge-checks client kind size _ (rw sent at h))
        | inr failed ↦ ground arith
      ]

  loop-checks :
      (attempts : ℕ) (link : Link) (client : Client) (frame : Bytes) (length kind size : ℕ)
      → (attempt_loop transport attempts link client frame length kind size).2 ≡ ok tt
      → (header : FrameHeader) × (decode_header
            (attempt_loop transport attempts link client frame length kind size).1
            size
          ≡ ok header)
        × (header.frame_type ≡ kind)
        × (header.session_id ≡ client.session_id)
  unfolding attempt_loop
  loop-checks zero link client frame length kind size h = cc
  loop-checks (suc attempts) link client frame length kind size h =
      elim (Bool-cases (attempt_once transport link client frame length kind size).2) [
        | inl accepted ↦ rw accepted (attempt-checks link client frame length kind size accepted)
        | inr refused ↦
            let next = attempt_once transport link client frame length kind size in
            rw refused (loop-checks attempts next.0 client next.1 length kind size (ground arith))
      ]

  -- When send_and_receive returns C0PQLINK_OK, the shared array holds a frame of the expected
  -- length whose header decodes, with the expected type and the session id of the client.
  pub send_and_receive-checks :
      (link : Link) (client : Client) (frame : Bytes) (length kind size : ℕ)
      → (send_and_receive transport link client frame length kind size).2 ≡ ok tt
      → (header : FrameHeader) × (decode_header
            (send_and_receive transport link client frame length kind size).1
            size
          ≡ ok header)
        × (header.frame_type ≡ kind)
        × (header.session_id ≡ client.session_id)
  unfolding send_and_receive
  send_and_receive-checks link client frame length kind size h =
      loop-checks (client.config.maximum_retries + 1) link client frame length kind size h
