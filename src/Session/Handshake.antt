-- ===== src/Session/Handshake.antt =====
-- src/session/fragment.c: the handshake of `c0pq_client_connect`, its ciphertext transfer and its
-- Finished exchange.
mod Tests
pub mod Connect
pub mod Transfer
use c0_pqlink_complete.Prelude.{
  ℕ, zero, suc, ◌+◌, ◌-◌, Bytes, List, [], ◌∷◌, ◌++◌, Bool, true, false, not, ◌&&◌, ◌||◌, Option,
  none, some, bit_xor, u8, ltb, ◌==◌, if◌then◌else◌, take, drop, length, codes,
}
use c0_pqlink_complete.Prelude.Arrays.{byte_at, slice}
use c0_pqlink_complete.Common.{
  Result, ok, err, err_state, err_io, err_auth, err_rng, ◌>>=◌, ◌>>◌, require, is_ok, ct_equal,
  secure_zero,
}
use c0_pqlink_complete.Wire.{load32_be}
use c0_pqlink_complete.Sha256.{Sha256Ctx, sha256_update, sha256_final}
use c0_pqlink_complete.Session.Header.{
  FrameHeader, encode_header, decode_header, written, frame_challenge, frame_ciphertext_fragment,
  frame_ciphertext_ack, frame_device_finished, frame_server_finished,
}
use c0_pqlink_complete.Session.Crypto.{
  SessionKeys, auth_tag, verify_auth_tag, derive_session_auth_key, derive_session_keys,
  finished_tag, transcript_init, transcript_add_hello, transcript_add_challenge,
}
use c0_pqlink_complete.Session.Preflight.{
  Hello, Challenge, suite_id, encode_hello, decode_verify_challenge,
}
use c0_pqlink_complete.Session.Client.{
  Client, ClientState, connecting, established, failed, is_ready, pq_bootstrap_ratchet,
}
use c0_pqlink_complete.Session.Fragment.{Transport, send_and_receive}

-- `ciphertext_writer`: `pending` holds its first `pending_length` bytes.
pub record Writer : Type 0 where
  pub transcript : Sha256Ctx
  pub session_auth_key : Bytes
  pub pending : Bytes
  pub fragment_index : ℕ
  pub failure : Result (Unit {0})

-- The random source of the configuration: its next state, and `length` bytes unless it fails.
pub record Rng : Type 1 where
  pub Source : Type 0
  pub random_bytes : Source → ℕ → Source × Option Bytes

-- c0_mlkem512_encapsulate_derand as its caller sees it, for a public key and 32 random bytes: an
-- error before anything is written, or the arrays that it hands to the ciphertext writer, in order,
-- and the shared secret. A writer that fails ends it with C0PQLINK_ERR_IO.
pub record Kem : Type 0 where
  pub encapsulate : Bytes → Bytes → Result (List Bytes × Bytes)

-- The fragment with its header, index, count and length, before its tag.
pub fragment_core : Client → Writer → Bytes
fragment_core client writer =
    written
      (encode_header frame_ciphertext_fragment 0 (3 + length writer.pending + 16) client.session_id)
    ++ (writer.fragment_index ∷ 16 ∷ length writer.pending ∷ writer.pending)

-- The tests of an acknowledgement.
pub check_ack : Writer → Bytes → Result (Unit {0})
check_ack writer frame = elim (decode_header frame 28) [
  | err e ↦ err err_state
  | ok header ↦ do
    require
        (header.flags == 0
          && (header.payload_length == 18
              && (byte_at frame 10 == writer.fragment_index && byte_at frame 11 == 0)))
        err_state
    verify_auth_tag (slice 12 16 frame) writer.session_auth_key (codes "C0PQ/1 ciphertext ack")
        (take 12 frame)
]

-- The writer after an acknowledged fragment.
abbrev pub acknowledged : Writer → Writer
acknowledged writer = record writer {
  fragment_index = u8 (writer.fragment_index + 1);
  pending = [];
}

-- The rest of the data where one fragment takes `space` bytes.
abbrev pub fill_pending : Writer → Bytes → Writer
fill_pending writer bytes = record writer {
  pending = writer.pending ++ take (48 - length writer.pending) bytes;
}

-- verify_challenge_matches
pub verify_challenge_matches : Client → Challenge → Bytes → Result (Unit {0})
verify_challenge_matches client challenge device_nonce =
    require
      (challenge.suite == suite_id
        && (challenge.epoch == client.config.epoch
            && (ct_equal challenge.key_id client.config.public_key_id
                && ct_equal challenge.device_nonce device_nonce)))
      err_auth

-- The test of the server's Finished frame.
pub check_finished : Client → SessionKeys → Bytes → Bytes → Result (Unit {0})
check_finished client keys transcript_hash frame = elim (decode_header frame 26) [
  | err e ↦ err err_state
  | ok header ↦ do
    require (header.flags == 0 && header.payload_length == 16) err_state
    require
        (ct_equal
          (finished_tag keys.server_finished_key frame_server_finished client.session_id
            transcript_hash)
          (slice 10 16 frame))
        err_auth
]

-- The client of a handshake that has failed: no secret is left.
abbrev pub fail : Client → Client
fail client = record client {
  state = failed;
  send_secret = secure_zero 32;
  receive_secret = secure_zero 32;
  send_nonce_base = secure_zero 16;
  receive_nonce_base = secure_zero 16;
}

-- The client of a handshake that has succeeded.
pub establish : Client → SessionKeys → Client
establish client keys = record client {
  state = established;
  send_secret =
      if client.config.mode == pq_bootstrap_ratchet
      then keys.client_chain_key
      else keys.client_traffic_key ++ secure_zero 16;
  receive_secret =
      if client.config.mode == pq_bootstrap_ratchet
      then keys.server_chain_key
      else keys.server_traffic_key ++ secure_zero 16;
  send_nonce_base = keys.client_nonce_base;
  receive_nonce_base = keys.server_nonce_base;
  send_sequence = 0;
  receive_sequence = 0;
}

module _ (transport : Transport) where
  open transport use {Link}

  pub conclude_flush : Writer → Link × Bytes × Result (Unit {0}) → Link × Writer × Result (Unit {0})
  conclude_flush writer (link, frame, err e) = (link, writer, err e)
  conclude_flush writer (link, frame, ok done) = elim (check_ack writer frame) [
    | err e ↦ (link, writer, err e)
    | ok passed ↦ (link, acknowledged writer, ok tt)
  ]

  pub flush_ciphertext_fragment : Link → Client → Writer → Link × Writer × Result (Unit {0})
  flush_ciphertext_fragment link client writer =
      if length writer.pending == 0 || not (ltb writer.fragment_index 16)
      then (link, writer, err err_state)
      else (let core = fragment_core client writer in
          conclude_flush writer (
            send_and_receive transport link client
              (core ++ auth_tag writer.session_auth_key (codes "C0PQ/1 ciphertext fragment") core)
              (length core + 16) frame_ciphertext_ack 28))

  -- `while (offset < length)`, over the data left; the fuel is its length. A flush that fails is
  -- kept in the writer.
  pub write_loop : ℕ → Link → Client → Writer → Bytes → Link × Writer × Result (Unit {0})
  write_loop zero link client writer bytes = (link, writer, ok tt)
  write_loop (suc fuel) link client writer bytes =
      let filled = fill_pending writer bytes in
      let rest = drop (48 - length writer.pending) bytes in
      let skipped = write_loop fuel link client filled rest in
      let (link', flushed, result) = flush_ciphertext_fragment link client filled in
      let kept = record flushed { failure = result } in
      let sent = write_loop fuel link' client kept rest in
      if length bytes == 0
      then (link, writer, ok tt)
      else if not (length filled.pending == 48)
      then skipped
      else elim result [ err e ↦ (link', kept, err e) | ok done ↦ sent ]

  pub write_ciphertext : Link → Client → Writer → Bytes → Link × Writer × Result (Unit {0})
  write_ciphertext link client writer bytes = elim writer.failure [
    | err e ↦ (link, writer, err e)
    | ok fine ↦
        write_loop (length bytes) link client
          (record writer { transcript = sha256_update writer.transcript bytes }) bytes
  ]

  -- The calls of the writer by the encapsulation.
  pub write_chunks : Link → Client → Writer → List Bytes → Link × Writer × Result (Unit {0})
  write_chunks link client writer [] = (link, writer, ok tt)
  write_chunks link client writer (chunk ∷ chunks) =
      let (link', writer', result) = write_ciphertext link client writer chunk in
      let rest = write_chunks link' client writer' chunks in
      elim result [ err e ↦ (link', writer', err err_io) | ok done ↦ rest ]
