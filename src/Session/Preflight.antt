-- ===== src/Session/Preflight.antt =====
-- src/session/preflight.c: the authenticated Hello and Challenge frames.
pub mod Steps
pub mod Frames
pub mod RoundTrip
pub mod Soundness
pub mod Challenges
mod Tests
use c0_pqlink_complete.Prelude.{
  ℕ, ◌+◌, Bytes, ◌++◌, Bool, ◌&&◌, ◌==◌, if◌then◌else◌, take, drop, length, codes,
}
use c0_pqlink_complete.Prelude.Arrays.{slice}
use c0_pqlink_complete.Common.{Result, ok, err, err_argument, err_state, ◌>>=◌, ◌>>◌, require}
use c0_pqlink_complete.Wire.{store16_be, store64_be, load16_be, load64_be}
use c0_pqlink_complete.Session.Header.{
  FrameHeader, encode_header, decode_header, written, frame_hello, frame_challenge,
}
use c0_pqlink_complete.Session.Crypto.{
  auth_tag, verify_auth_tag, derive_hello_key, derive_session_auth_key,
}

-- C0PQ_SUITE_MLKEM512_HKDFSHA256_ASCON128.
abbrev pub suite_id : ℕ
suite_id = 1

pub record Hello : Type 0 where
  pub suite : ℕ
  pub device_id : Bytes
  pub epoch : ℕ
  pub device_nonce : Bytes

pub record Challenge : Type 0 where
  pub suite : ℕ
  pub epoch : ℕ
  pub key_id : Bytes
  pub device_nonce : Bytes
  pub server_nonce : Bytes

-- A header that fails to decode, or is not the expected one, is C0PQLINK_ERR_STATE.
abbrev pub expect_header : Result FrameHeader → (FrameHeader → Bool) → Result FrameHeader
expect_header (ok header) expected = if expected header then ok header else err err_state
expect_header (err e) expected = err err_state

pub hello_core : ℕ → Hello → Bytes
hello_core session_id hello =
    written (encode_header frame_hello 0 50 session_id)
    ++ (store16_be hello.suite
        ++ (hello.device_id ++ (store64_be hello.epoch ++ hello.device_nonce)))

pub encode_hello : ℕ → Hello → Bytes → Result Bytes
encode_hello session_id hello psk = do
  require (hello.suite == suite_id) err_argument
  let core = hello_core session_id hello
  ok (core ++ auth_tag (derive_hello_key psk) (codes "C0PQ/1 hello frame") core)

-- The fields of a Hello frame, read in the order of `c0pq_decode_verify_hello`.
pub parse_hello : Bytes → Hello
parse_hello frame = record {
  suite = load16_be (drop 10 frame);
  device_id = slice 12 8 frame;
  epoch = load64_be (drop 20 frame);
  device_nonce = slice 28 16 frame;
}

pub decode_verify_hello : Bytes → ℕ → Bytes → Result (Hello × ℕ)
decode_verify_hello frame frame_length psk = do
  require (frame_length == 60) err_argument
  header ←
      expect_header (decode_header frame frame_length)
        (λ h. h.frame_type == frame_hello && (h.flags == 0 && h.payload_length == 50))
  verify_auth_tag (slice 44 16 frame) (derive_hello_key psk) (codes "C0PQ/1 hello frame")
      (take 44 frame)
  let hello = parse_hello frame
  require (hello.suite == suite_id) err_state
  ok (hello, header.session_id)

pub challenge_core : ℕ → Challenge → Bytes
challenge_core session_id challenge =
    written (encode_header frame_challenge 0 74 session_id)
    ++ (store16_be challenge.suite
        ++ (store64_be challenge.epoch
            ++ (challenge.key_id ++ (challenge.device_nonce ++ challenge.server_nonce))))

-- The key that authenticates a challenge and the fragments after it.
abbrev pub challenge_key : Bytes → Challenge → Bytes
challenge_key psk challenge =
    derive_session_auth_key psk challenge.suite challenge.epoch challenge.key_id
      challenge.device_nonce challenge.server_nonce

pub encode_challenge : ℕ → Challenge → Bytes → Result Bytes
encode_challenge session_id challenge psk = do
  require (challenge.suite == suite_id) err_argument
  let core = challenge_core session_id challenge
  ok (core ++ auth_tag (challenge_key psk challenge) (codes "C0PQ/1 challenge frame") core)

pub parse_challenge : Bytes → Challenge
parse_challenge frame = record {
  suite = load16_be (drop 10 frame);
  epoch = load64_be (drop 12 frame);
  key_id = slice 20 16 frame;
  device_nonce = slice 36 16 frame;
  server_nonce = slice 52 16 frame;
}

pub decode_verify_challenge : ℕ → Bytes → ℕ → Bytes → Result Challenge
decode_verify_challenge expected_session_id frame frame_length psk = do
  require (frame_length == 84) err_argument
  header ← expect_header (decode_header frame frame_length) (λ h.
      h.frame_type == frame_challenge
      && (h.flags == 0 && (h.session_id == expected_session_id && h.payload_length == 74)))
  let challenge = parse_challenge frame
  require (challenge.suite == suite_id) err_state
  verify_auth_tag (slice 68 16 frame) (challenge_key psk challenge) (codes "C0PQ/1 challenge frame")
      (take 68 frame)
  ok challenge
