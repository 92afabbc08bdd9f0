-- ===== src/Session/Fragment.antt =====
-- src/session/fragment.c: the start and the end of a client, and one exchange of frames with the
-- peer. All callers of send_and_receive pass one array for the frame and for the reply.
pub mod Exchange
pub mod Traffic
pub mod Lifecycle
mod Tests
use c0_pqlink_complete.Prelude.{
  ℕ, zero, suc, ◌+◌, Bytes, [], ◌∷◌, Bool, true, false, not, ◌&&◌, ◌||◌, bit_or, ◌==◌,
  if◌then◌else◌, take,
}
use c0_pqlink_complete.Common.{Result, ok, err, err_argument, err_io, secure_zero}
use c0_pqlink_complete.Session.Header.{FrameHeader, decode_header}
use c0_pqlink_complete.Session.Client.{
  Client, Config, full_pq_each_session, pq_bootstrap_ratchet, ready,
}

-- The loops over the key and the key id in `c0pq_client_init`.
pub or_bytes : Bytes → ℕ → ℕ
or_bytes [] acc = acc
or_bytes (x ∷ xs) acc = or_bytes xs (bit_or acc x)

pub client_init : Client → Config → Client × Result (Unit {0})
client_init client config =
    if or_bytes config.psk 0 == 0
      || (or_bytes config.public_key_id 0 == 0
          || (not (config.mode == full_pq_each_session)
              && not (config.mode == pq_bootstrap_ratchet)))
    then (client, err err_argument)
    else (
      record {
        config = record config {
          timeout_ms = if config.timeout_ms == 0 then 3000 else config.timeout_ms;
        };
        state = ready;
        session_id = 0;
        send_secret = secure_zero 32;
        receive_secret = secure_zero 32;
        send_nonce_base = secure_zero 16;
        receive_nonce_base = secure_zero 16;
        send_sequence = 0;
        receive_sequence = 0;
      },
      ok tt,
    )

pub client_close : Client → Client
client_close client = record client {
  state = ready;
  session_id = 0;
  send_secret = secure_zero 32;
  receive_secret = secure_zero 32;
  send_nonce_base = secure_zero 16;
  receive_nonce_base = secure_zero 16;
  send_sequence = 0;
  receive_sequence = 0;
}

-- What the receive callback reports: 0 with a length, or a failure. Either may leave anything in
-- the array it was given.
pub data Delivery : Type 0 where
  delivered : Bytes → ℕ → Delivery
  missed : Bytes → Delivery

-- The transport callbacks over the state of the link: `send_frame` reports success; `receive_frame`
-- takes the array, its capacity and the timeout.
pub record Transport : Type 1 where
  pub Link : Type 0
  pub send_frame : Link → Bytes → Link × Bool
  pub receive_frame : Link → Bytes → ℕ → ℕ → Link × Delivery

abbrev pub is_reply : Client → ℕ → Result FrameHeader → Bool
is_reply client expected_type (ok header) =
    header.frame_type == expected_type && header.session_id == client.session_id
is_reply client expected_type (err e) = false

-- The test of a reply in send_and_receive.
pub accepts : Client → ℕ → ℕ → Bytes → ℕ → Bool
accepts client expected_type expected_length incoming incoming_length =
    incoming_length == expected_length
    && is_reply client expected_type (decode_header incoming incoming_length)

module _ (transport : Transport) where
  open transport use {Link, send_frame, receive_frame}

  -- One pass of the loop: the link, the shared array, and whether its reply is accepted.
  pub judge : Client → ℕ → ℕ → Link × Delivery → Link × Bytes × Bool
  judge client expected_type expected_length (link, delivered incoming incoming_length) =
      (link, incoming, accepts client expected_type expected_length incoming incoming_length)
  judge client expected_type expected_length (link, missed incoming) = (link, incoming, false)

  pub attempt_once : Link → Client → Bytes → ℕ → ℕ → ℕ → Link × Bytes × Bool
  attempt_once link client frame outgoing_length expected_type expected_length =
      let (link', sent) = send_frame link (take outgoing_length frame) in
      if not sent
      then (link', frame, false)
      else judge client expected_type expected_length
          (receive_frame link' frame 96 client.config.timeout_ms)

  -- The loop, with `attempts` passes left.
  pub attempt_loop : ℕ → Link → Client → Bytes → ℕ → ℕ → ℕ → Link × Bytes × Result (Unit {0})
  attempt_loop zero link client frame outgoing_length expected_type expected_length =
      (link, frame, err err_io)
  attempt_loop (suc attempts) link client frame outgoing_length expected_type expected_length =
      let (link', frame', accepted) =
        attempt_once link client frame outgoing_length expected_type expected_length in
      let rest =
        attempt_loop attempts link' client frame' outgoing_length expected_type expected_length in
      if accepted then (link', frame', ok tt) else rest

  pub send_and_receive : Link → Client → Bytes → ℕ → ℕ → ℕ → Link × Bytes × Result (Unit {0})
  send_and_receive link client frame outgoing_length expected_type expected_length =
      attempt_loop (client.config.maximum_retries + 1) link client frame outgoing_length
        expected_type expected_length
