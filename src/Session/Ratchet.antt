-- ===== src/Session/Ratchet.antt =====
-- src/session/ratchet.c: application records, their nonces, and the per-record key ratchet.
pub mod Nonces
pub mod Seal
pub mod Sealing
pub mod Open
mod Tests
use c0_pqlink_complete.Prelude.{
  ℕ, suc, ◌+◌, ◌-◌, ◌^◌, Bytes, [], ◌∷◌, ◌++◌, Bool, not, ◌&&◌, ◌||◌, bit_xor, u64, ltb, ◌==◌,
  if◌then◌else◌, take, drop, length, codes,
}
use c0_pqlink_complete.Prelude.Arrays.{slice}
use c0_pqlink_complete.Common.{
  Result, ok, err, Error, err_state, err_capacity, err_expired, err_replay, secure_zero,
}
use c0_pqlink_complete.Wire.{store64_be, load64_be}
use c0_pqlink_complete.Hmac.{hmac_sha256}
use c0_pqlink_complete.Session.Header.{
  FrameHeader, encode_header, decode_header, written, frame_data,
}
use c0_pqlink_complete.Session.Client.{
  Client, ClientState, is_established, pq_bootstrap_ratchet, established,
}
use c0_pqlink_complete.Session.Aead.{Aead}

-- The message key and the next chain key.
unfoldable pub ratchet_step : Bytes → Bytes × Bytes
ratchet_step chain_key = (
  take 16 (hmac_sha256 chain_key (codes "C0PQ/1 ratchet message")),
  hmac_sha256 chain_key (codes "C0PQ/1 ratchet next"),
)

-- `nonce[8 + i] ^= encoded[i]`.
abbrev pub xor_bytes : Bytes → Bytes → Bytes
xor_bytes [] ys = []
xor_bytes (x ∷ xs) [] = []
xor_bytes (x ∷ xs) (y ∷ ys) = bit_xor x y ∷ xor_bytes xs ys

unfoldable pub make_record_nonce : Bytes → ℕ → Bytes
make_record_nonce base sequence = take 8 base ++ xor_bytes (slice 8 8 base) (store64_be sequence)

-- `select_send_key` on the send secret and `select_receive_key` on the receive secret: the message
-- key and the next chain key, which is zero in the full mode.
pub select_key : ℕ → Bytes → Bytes × Bytes
select_key mode secret =
    if mode == pq_bootstrap_ratchet then ratchet_step secret else (take 16 secret, secure_zero 32)

-- The secret after a record: the next chain key under the ratchet, the same in the full mode.
pub next_secret : ℕ → Bytes → Bytes
unfolding select_key
next_secret mode secret =
    if mode == pq_bootstrap_ratchet then (select_key mode secret).1 else secret

-- The 18 bytes that a record authenticates beside its text.
abbrev pub record_prefix : ℕ → ℕ → ℕ → ℕ → Bytes
record_prefix flags size session_id sequence =
    written (encode_header frame_data flags (8 + size + 16) session_id) ++ store64_be sequence

-- The commit of `c0pq_client_open_record`: only a record that decrypts moves the receive side.
pub commit_opened : Client → Result Bytes → Client × Result Bytes
commit_opened client (ok plaintext) = (
  record client {
    receive_secret = next_secret client.config.mode client.receive_secret;
    receive_sequence = u64 (client.receive_sequence + 1);
  },
  ok plaintext,
)
commit_opened client (err e) = (client, err e)

-- The test of the header of an incoming record.
abbrev pub is_peer_record : Client → FrameHeader → Bool
is_peer_record client header =
    header.frame_type == frame_data
    && (header.flags == 1
        && (header.session_id == client.session_id && not (ltb header.payload_length (8 + 16))))

module _ (aead : Aead) where
  -- `c0pq_client_seal_record`: the client after the call, and the frame or the error.
  unfoldable pub seal_record : Client → Bytes → ℕ → Client × Result Bytes
  seal_record client plaintext frame_capacity =
      if not (is_established client.state)
      then (client, err err_state)
      else if ltb 48 (length plaintext) || ltb frame_capacity (10 + 8 + length plaintext + 16)
      then (client, err err_capacity)
      else if client.send_sequence == 2 ^ 64 - 1
      then (client, err err_expired)
      else (let prefix =
            record_prefix 0 (length plaintext) client.session_id client.send_sequence in
          let key = (select_key client.config.mode client.send_secret).0 in
          let nonce = make_record_nonce client.send_nonce_base client.send_sequence in
          let sealed = aead.encrypt key nonce prefix plaintext in
          (
            record client {
              send_secret = next_secret client.config.mode client.send_secret;
              send_sequence = client.send_sequence + 1;
            },
            ok (prefix ++ (sealed.0 ++ sealed.1)),
          ))

  -- The part of `c0pq_client_open_record` behind the header check.
  pub open_payload : Client → Bytes → ℕ → ℕ → Client × Result Bytes
  open_payload client frame payload_length plaintext_capacity =
      let size = payload_length - 8 - 16 in
      let sequence = load64_be (drop 10 frame) in
      if ltb 48 size || ltb plaintext_capacity size
      then (client, err err_capacity)
      else if not (sequence == client.receive_sequence)
      then (client, err err_replay)
      else (let key = (select_key client.config.mode client.receive_secret).0 in
          let nonce = make_record_nonce client.receive_nonce_base sequence in
          commit_opened client (
            aead.decrypt key nonce (take 18 frame) (slice 18 size frame)
              (slice (18 + size) 16 frame)))

  pub open_decoded : Client → Bytes → Result FrameHeader → ℕ → Client × Result Bytes
  open_decoded client frame (ok header) plaintext_capacity =
      if is_peer_record client header
      then open_payload client frame header.payload_length plaintext_capacity
      else (client, err err_state)
  open_decoded client frame (err e) plaintext_capacity = (client, err err_state)

  -- `c0pq_client_open_record`: the client after the call, and the plaintext or the error.
  unfoldable pub open_record : Client → Bytes → ℕ → ℕ → Client × Result Bytes
  open_record client frame frame_length plaintext_capacity =
      if not (is_established client.state)
      then (client, err err_state)
      else open_decoded client frame (decode_header frame frame_length) plaintext_capacity
