-- ===== src/Session/Header.antt =====
-- src/session/preflight.c, the ten-byte frame header, and the frame constants of
-- include/c0pqlink/protocol.h.
pub mod Laws
use c0_pqlink_complete.Prelude.{
  ℕ, ◌+◌, Bytes, [], ◌∷◌, ◌||◌, not, u8, ltb, ◌==◌, if◌then◌else◌, drop,
}
use c0_pqlink_complete.Prelude.Arrays.{byte_at}
use c0_pqlink_complete.Common.{Result, ok, err, err_argument, err_state}
use c0_pqlink_complete.Wire.{store32_be, load32_be}

abbrev pub wire_version : ℕ
wire_version = 1

-- `c0pq_frame_type`.
abbrev pub frame_hello : ℕ
frame_hello = 1

abbrev pub frame_challenge : ℕ
frame_challenge = 2

abbrev pub frame_ciphertext_fragment : ℕ
frame_ciphertext_fragment = 3

abbrev pub frame_ciphertext_ack : ℕ
frame_ciphertext_ack = 4

abbrev pub frame_device_finished : ℕ
frame_device_finished = 5

abbrev pub frame_server_finished : ℕ
frame_server_finished = 6

abbrev pub frame_data : ℕ
frame_data = 7

pub record FrameHeader : Type 0 where
  pub frame_type : ℕ
  pub flags : ℕ
  pub payload_length : ℕ
  pub session_id : ℕ

unfoldable pub encode_header : ℕ → ℕ → ℕ → ℕ → Result Bytes
encode_header frame_type flags payload_length session_id =
    if ltb 255 payload_length
    then err err_argument
    else ok (
        0x43 ∷ 0x30 ∷ wire_version ∷ frame_type ∷ flags ∷ u8 payload_length ∷ store32_be session_id)

-- What a call whose status is cast to `void` has written: an error writes nothing.
abbrev pub written : Result Bytes → Bytes
written (ok bytes) = bytes
written (err e) = []

-- The frame's buffer may be longer than `frame_length`.
unfoldable pub decode_header : Bytes → ℕ → Result FrameHeader
decode_header frame frame_length =
    if ltb frame_length 10
    then err err_argument
    else if not (byte_at frame 0 == 0x43)
        || (not (byte_at frame 1 == 0x30) || not (byte_at frame 2 == wire_version))
    then err err_state
    else if byte_at frame 5 + 10 == frame_length
    then ok (record {
      frame_type = byte_at frame 3;
      flags = byte_at frame 4;
      payload_length = byte_at frame 5;
      session_id = load32_be (drop 6 frame);
    })
    else err err_state
