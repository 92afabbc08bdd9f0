-- ===== src/Session/Preflight/Challenges.antt =====
-- The Challenge decoder accepts no frame but the one of docs/PROTOCOL.md for the fields it returns.
use c0_pqlink_complete.Prelude.{
  ℕ, ◌≡◌, ap, ap₂, ◌∙◌, sym, Bytes, ◌++◌, append_assoc, codes, take, drop, length, length-take,
  length-drop, length-append, arith,
}
use c0_pqlink_complete.Prelude.Arrays.{
  slice, take-append, take_all, cut, IsBytes, IsBytes-take, IsBytes-drop,
}
use c0_pqlink_complete.Common.{ok}
use c0_pqlink_complete.Wire.RoundTrip.{
  store16-load16_list, store64-load64_list, store16-big_endian, store64-big_endian,
  big_endian_bytes,
}
use c0_pqlink_complete.Hmac.Laws.{hmac}
use c0_pqlink_complete.Session.Header.{FrameHeader}
use c0_pqlink_complete.Session.Header.Laws.{decode_header_sound, header_bytes, header-bytes}
use c0_pqlink_complete.Session.Crypto.Schedule.{
  early_secret, extract_psk-early_secret, session_auth_key-hmac,
}
use c0_pqlink_complete.Session.Crypto.Tags.{auth_tag-hmac, verify_auth_tag_iff}
use c0_pqlink_complete.Session.Preflight.{
  Challenge, challenge_key, parse_challenge, decode_verify_challenge,
}
use c0_pqlink_complete.Session.Preflight.Steps.{ChallengeChecks, decode_challenge-checks}

-- suite || epoch || key_id || device_nonce || peer_nonce
abbrev pub challenge_fields : Challenge → Bytes
challenge_fields c =
    big_endian_bytes 2 c.suite
    ++ (big_endian_bytes 8 c.epoch ++ (c.key_id ++ (c.device_nonce ++ c.server_nonce)))

-- session_auth_key
abbrev pub session_key_of : Bytes → Challenge → Bytes
session_key_of psk c = hmac (early_secret psk) (codes "C0PQ/1 session auth" ++ challenge_fields c)

abbrev pub challenge_text : ℕ → Challenge → Bytes
challenge_text session_id c = header_bytes 2 0 74 session_id ++ challenge_fields c

-- The frame of a Challenge, with HMAC16 of its first 68 bytes.
abbrev pub challenge_frame_of : ℕ → Bytes → Challenge → Bytes
challenge_frame_of session_id psk c =
    challenge_text session_id c
    ++ take 16 (
        hmac (session_key_of psk c) (codes "C0PQ/1 challenge frame" ++ challenge_text session_id c))

pub challenge_key-hmac : (psk : Bytes) (c : Challenge) → challenge_key psk c ≡ session_key_of psk c
challenge_key-hmac psk c =
    session_auth_key-hmac psk c.suite c.epoch c.key_id c.device_nonce c.server_nonce
    ∙ ap₂ hmac (extract_psk-early_secret psk)
        (simp (append_assoc, store16-big_endian, store64-big_endian))

module _ (frame psk : Bytes) (expected : ℕ) (header : FrameHeader) (sized : length frame ≡ 84)
    (bytes : IsBytes frame) (c : ChallengeChecks expected frame psk header) where
  start : take 10 frame ≡ header_bytes 2 0 74 expected
  start =
      (decode_header_sound frame 84 header (omega arith) bytes c.decoded).0
      ∙ rw (c.frame_type, c.flags, c.payload_length, c.session_id)
          (header-bytes 2 0 74 expected (omega arith))

  fields : drop 10 frame ≡ challenge_fields (parse_challenge frame) ++ slice 68 16 frame
  unfolding parse_challenge
  fields =
      cut 10 2 frame
      ∙ ap₂ ◌++◌
          (sym (
              store16-load16_list (drop 10 frame) (omega (arith, length-drop 10 frame))
                (IsBytes-drop 10 frame bytes))
            ∙ store16-big_endian _)
          (cut 12 8 frame
            ∙ ap₂ ◌++◌
                (sym (
                    store64-load64_list (drop 12 frame) (omega (arith, length-drop 12 frame))
                      (IsBytes-drop 12 frame bytes))
                  ∙ store64-big_endian _)
                (cut 20 16 frame
                  ∙ ap (◌++◌ (slice 20 16 frame)) (
                      cut 36 16 frame
                      ∙ ap (◌++◌ (slice 36 16 frame))
                          (cut 52 16 frame ∙ ap (◌++◌ (slice 52 16 frame)) last))))
      ∙ simp append_assoc
    where
      last : drop 68 frame ≡ slice 68 16 frame
      last = sym (take_all (drop 68 frame) 16 (omega (arith, length-drop 68 frame)))

  split : frame ≡ challenge_text expected (parse_challenge frame) ++ slice 68 16 frame
  split =
      cut 0 10 frame
      ∙ ap₂ ◌++◌ start fields
      ∙ sym (
          append_assoc (header_bytes 2 0 74 expected) (challenge_fields (parse_challenge frame))
            (slice 68 16 frame))

  text : take 68 frame ≡ challenge_text expected (parse_challenge frame)
  text =
      ap (take 68) split
      ∙ take-append (challenge_text expected (parse_challenge frame)) (slice 68 16 frame) 68 (
          omega (
            arith,
            ap length split,
            length-append (challenge_text expected (parse_challenge frame)) (slice 68 16 frame),
            length-take 16 (drop 68 frame),
            length-drop 68 frame,
          ))

  whole : frame ≡ challenge_frame_of expected psk (parse_challenge frame)
  whole =
      split
      ∙ ap (◌++◌ (challenge_text expected (parse_challenge frame))) (
          (verify_auth_tag_iff (slice 68 16 frame) (challenge_key psk (parse_challenge frame))
              (codes "C0PQ/1 challenge frame") (take 68 frame)
              (omega (arith, length-take 16 (drop 68 frame), length-drop 68 frame))
              (IsBytes-take 16 _ (IsBytes-drop 68 frame bytes))).0
            c.tagged
          ∙ auth_tag-hmac (challenge_key psk (parse_challenge frame))
              (codes "C0PQ/1 challenge frame") (take 68 frame)
          ∙ ap₂ (λ k m. take 16 (hmac k (codes "C0PQ/1 challenge frame" ++ m)))
              (challenge_key-hmac psk (parse_challenge frame)) text)

-- An 84-byte frame that the Challenge decoder accepts for a session is the frame of the protocol for
-- that session and the fields that it returns, of the known suite, with the tag under the session
-- key of the pre-shared key and these fields: no other frame passes.
pub decode_challenge_sound :
    (expected : ℕ) (frame psk : Bytes) (challenge : Challenge)
    → length frame ≡ 84
    → IsBytes frame
    → decode_verify_challenge expected frame 84 psk ≡ ok challenge
    → (frame ≡ challenge_frame_of expected psk challenge) × (challenge.suite ≡ 1)
decode_challenge_sound expected frame psk challenge sized bytes e =
    let (header, c, n, parsed) = decode_challenge-checks expected frame 84 psk challenge e in
    rw parsed (whole frame psk expected header sized bytes c, c.suite)
