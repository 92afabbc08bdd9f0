-- ===== src/Session/Preflight/Steps.antt =====
-- The checks of the two decoders, in one statement each.
use c0_pqlink_complete.Prelude.{ℕ, ◌≡◌, Bytes, codes, take, arith, ==_iff, subst, inl, inr}
use c0_pqlink_complete.Prelude.Arrays.{slice}
use c0_pqlink_complete.Common.{ok, Result-cases}
use c0_pqlink_complete.Session.Header.{FrameHeader, decode_header}
use c0_pqlink_complete.Session.Crypto.{verify_auth_tag, derive_hello_key}
use c0_pqlink_complete.Session.Preflight.{
  Hello, Challenge, parse_hello, decode_verify_hello, challenge_key, parse_challenge,
  decode_verify_challenge,
}

-- What an accepted Hello has passed.
pub record HelloChecks (frame psk : Bytes) (header : FrameHeader) : Type 0 where
  pub decoded : decode_header frame 60 ≡ ok header
  pub frame_type : header.frame_type ≡ 1
  pub flags : header.flags ≡ 0
  pub payload_length : header.payload_length ≡ 50
  pub tagged :
      verify_auth_tag
        (slice 44 16 frame)
        (derive_hello_key psk)
        (codes "C0PQ/1 hello frame")
        (take 44 frame)
      ≡ ok tt
  pub suite : (parse_hello frame).suite ≡ 1

pub decode_hello-checked :
    (frame psk : Bytes) (header : FrameHeader)
    → HelloChecks frame psk header
    → decode_verify_hello frame 60 psk ≡ ok (parse_hello frame, header.session_id)
unfolding decode_verify_hello
decode_hello-checked frame psk header c =
    rw (c.decoded, c.frame_type, c.flags, c.payload_length, c.tagged, c.suite)

pub decode_hello-checks :
    (frame : Bytes) (n : ℕ) (psk : Bytes) (hello : Hello) (session_id : ℕ)
    → decode_verify_hello frame n psk ≡ ok (hello, session_id)
    → (header : FrameHeader) × HelloChecks frame psk header
      × (n ≡ 60)
      × (hello ≡ parse_hello frame)
      × (session_id ≡ header.session_id)
unfolding decode_verify_hello
decode_hello-checks frame n psk hello session_id e = elim (Result-cases (decode_header frame 60)) [
  | inl (header, d) ↦
      let sized : n ≡ 60 = ground arith in
      let e' = subst (λ m. decode_verify_hello frame m psk ≡ ok (hello, session_id)) sized e in
      (
        header,
        record {
          decoded = d;
          frame_type = ground arith;
          flags = ground arith;
          payload_length = ground arith;
          tagged = ground arith;
          suite = ground arith;
        },
        sized,
        ground arith,
        ground arith,
      )
  | inr (code, d) ↦ ground arith
]

-- What an accepted Challenge has passed.
pub record ChallengeChecks (expected : ℕ) (frame psk : Bytes) (header : FrameHeader) : Type 0 where
  pub decoded : decode_header frame 84 ≡ ok header
  pub frame_type : header.frame_type ≡ 2
  pub flags : header.flags ≡ 0
  pub session_id : header.session_id ≡ expected
  pub payload_length : header.payload_length ≡ 74
  pub suite : (parse_challenge frame).suite ≡ 1
  pub tagged :
      verify_auth_tag
        (slice 68 16 frame)
        (challenge_key psk (parse_challenge frame))
        (codes "C0PQ/1 challenge frame")
        (take 68 frame)
      ≡ ok tt

pub decode_challenge-checked :
    (expected : ℕ) (frame psk : Bytes) (header : FrameHeader)
    → ChallengeChecks expected frame psk header
    → decode_verify_challenge expected frame 84 psk ≡ ok (parse_challenge frame)
unfolding decode_verify_challenge
decode_challenge-checked expected frame psk header c = rw (
  c.decoded,
  c.frame_type,
  c.flags,
  (==_iff header.session_id expected).1 c.session_id,
  c.payload_length,
  (==_iff (parse_challenge frame).suite 1).1 c.suite,
  c.tagged,
)

-- A Challenge that the decoder accepts is 84 bytes and has passed every check: the header decodes,
-- with the type, flags, length and session id of a Challenge, the suite is the known one and the tag
-- verifies under the key of its fields. The result holds the fields of the frame.
pub decode_challenge-checks :
    (expected : ℕ) (frame : Bytes) (n : ℕ) (psk : Bytes) (challenge : Challenge)
    → decode_verify_challenge expected frame n psk ≡ ok challenge
    → (header : FrameHeader) × ChallengeChecks expected frame psk header
      × (n ≡ 84)
      × (challenge ≡ parse_challenge frame)
unfolding decode_verify_challenge
decode_challenge-checks expected frame n psk challenge e =
    elim (Result-cases (decode_header frame 84)) [
      | inl (header, d) ↦
          let sized : n ≡ 84 = ground arith in
          let e' =
            subst (λ m. decode_verify_challenge expected frame m psk ≡ ok challenge) sized e in
          (
            header,
            record {
              decoded = d;
              frame_type = ground arith;
              flags = ground arith;
              session_id = ground arith;
              payload_length = ground arith;
              suite = ground arith;
              tagged = ground arith;
            },
            sized,
            ground arith,
          )
      | inr (code, d) ↦ ground arith
    ]
