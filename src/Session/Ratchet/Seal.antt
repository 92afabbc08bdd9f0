-- ===== src/Session/Ratchet/Seal.antt =====
-- `c0pq_client_seal_record`: its branches, and the record under reflection.
use c0_pqlink_complete.Prelude.{
  ℕ, ◌+◌, ◌^◌, ◌<◌, ◌≤◌, ◌≡◌, Bytes, ◌++◌, length, length-append, append_assoc, arith,
}
use c0_pqlink_complete.Common.{ok, err, err_state}
use c0_pqlink_complete.Wire.{store64_be}
use c0_pqlink_complete.Wire.RoundTrip.{length-store64}
use c0_pqlink_complete.Session.Header.{encode_header, decode_header, written, frame_data}
use c0_pqlink_complete.Session.Header.Laws.{length-header, decode-encode_header}
use c0_pqlink_complete.Session.Client.{Client}
use c0_pqlink_complete.Session.Aead.{Aead}
use c0_pqlink_complete.Session.Ratchet.{
  select_key, make_record_nonce, record_prefix, seal_record, open_record, open_decoded,
}

-- A data frame with the given flags: the format of docs/PROTOCOL.md for both directions.
abbrev pub record_frame : Aead → ℕ → ℕ → ℕ → Bytes → Bytes → Bytes → Bytes
record_frame aead flags session_id sequence key base plaintext =
    let prefix = record_prefix flags (length plaintext) session_id sequence in
    let sealed = aead.encrypt key (make_record_nonce base sequence) prefix plaintext in
    prefix ++ (sealed.0 ++ sealed.1)

module _ (aead : Aead) where
  -- A sealed record has at most 48 bytes of text, and is a frame of the client's direction.
  sealed_shape :
      (c : Client) (p : Bytes) (space : ℕ) {c' : Client} {frame : Bytes}
      → seal_record aead c p space ≡ (c', ok frame)
      → (length p ≤ 48)
        × (frame
            ≡ record_frame aead 0 c.session_id c.send_sequence
                (select_key c.config.mode c.send_secret).0
                c.send_nonce_base
                p)
  unfolding seal_record
  sealed_shape c p space e = ground arith

  pub length-record_frame :
      (flags session_id sequence : ℕ) (key base p : Bytes)
      → length p ≤ 48
      → length (record_frame aead flags session_id sequence key base p) ≡ 34 + length p
  length-record_frame flags session_id sequence key base p h =
      let header = written (encode_header frame_data flags (8 + length p + 16) session_id) in
      let prefix = record_prefix flags (length p) session_id sequence in
      let nonce = make_record_nonce base sequence in
      omega (
        arith,
        length-append prefix
            ((aead.encrypt key nonce prefix p).0 ++ (aead.encrypt key nonce prefix p).1),
        length-append header (store64_be sequence),
        length-append (aead.encrypt key nonce prefix p).0 (aead.encrypt key nonce prefix p).1,
        aead.length_ciphertext key nonce prefix p,
        aead.length_tag key nonce prefix p,
        length-header frame_data flags (8 + length p + 16) session_id (omega arith),
        length-store64 sequence,
      )

  -- The header of a record decodes at the length of its frame.
  pub decode-record_frame :
      (flags session_id sequence : ℕ) (key base p : Bytes)
      → length p ≤ 48
      → session_id < 2 ^ 32
      → let frame = record_frame aead flags session_id sequence key base p in
        decode_header frame (length frame)
        ≡ ok (record {
          frame_type = 7;
          flags = flags;
          payload_length = 8 + length p + 16;
          session_id = session_id;
        })
  decode-record_frame flags session_id sequence key base p h s =
      let header = written (encode_header frame_data flags (8 + length p + 16) session_id) in
      let prefix = record_prefix flags (length p) session_id sequence in
      let sealed = aead.encrypt key (make_record_nonce base sequence) prefix p in
      let size : length (prefix ++ (sealed.0 ++ sealed.1)) ≡ 8 + length p + 16 + 10 =
        omega (arith, length-record_frame flags session_id sequence key base p h) in
      rw (size, append_assoc header (store64_be sequence) (sealed.0 ++ sealed.1))
        (decode-encode_header frame_data flags (8 + length p + 16) session_id
          (store64_be sequence ++ (sealed.0 ++ sealed.1)) (omega arith) s)

  -- A record that a client has sealed is never opened by a client: its direction flag is the
  -- other one, so a reflected frame is refused in the header and changes nothing.
  pub open-seal_record-reflected :
      (c d : Client) (p : Bytes) (space room : ℕ) {c' : Client} {frame : Bytes}
      → c.session_id < 2 ^ 32
      → seal_record aead c p space ≡ (c', ok frame)
      → open_record aead d frame (length frame) room ≡ (d, err err_state)
  unfolding open_record open_decoded
  open-seal_record-reflected c d p space room s e =
      let (fits, shape) = sealed_shape c p space e in
      rw shape (
        rw
          (decode-record_frame 0 c.session_id c.send_sequence
            (select_key c.config.mode c.send_secret).0 c.send_nonce_base p fits s)
          (ground arith))
