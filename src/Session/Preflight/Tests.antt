-- ===== src/Session/Preflight/Tests.antt =====
-- A Hello and a Challenge of one session.
use c0_pqlink_complete.Prelude.{
  ◌≡◌, refl, Bytes, ◌++◌, length, length-append, replicate, codes, arith, take, ◌∙◌, ap, ap₂,
}
use c0_pqlink_complete.Prelude.Arrays.{
  IsBytes, IsBytes-append, take_all, slice, take-append, drop-append,
}
use c0_pqlink_complete.Common.{ok}
use c0_pqlink_complete.Wire.{store16_be, store32_be, store64_be, load16_be, load32_be, load64_be}
use c0_pqlink_complete.Session.Header.{encode_header, decode_header, FrameHeader}
use c0_pqlink_complete.Session.Crypto.{auth_tag, derive_hello_key, verify_auth_tag}
use c0_pqlink_complete.Session.Crypto.Tags.{auth_tag-IsBytes, length-auth_tag, verify_auth_tag_self}
use c0_pqlink_complete.Session.Preflight.{
  Hello, Challenge, hello_core, encode_hello, decode_verify_hello, challenge_core, challenge_key,
  parse_challenge, decode_verify_challenge,
}
use c0_pqlink_complete.Session.Preflight.Steps.{ChallengeChecks, decode_challenge-checked}
use c0_pqlink_complete.Session.Preflight.Challenges.{challenge_frame_of, decode_challenge_sound}
use c0_pqlink_complete.Session.Preflight.RoundTrip.{IsHello, hello_frame, decode-encode_hello}
use c0_pqlink_complete.Session.Preflight.Soundness.{decode_hello_sound}

abbrev psk : Bytes
psk = replicate 32 0x2a

abbrev hello : Hello
hello = record { suite = 1; device_id = codes "pump-001"; epoch = 3; device_nonce = replicate 16 4 }

hello-IsHello : IsHello hello
hello-IsHello = record {
  suite = refl;
  device_id = refl;
  epoch = omega arith;
  device_nonce = refl;
  id_bytes = ground arith;
  nonce_bytes = ground arith;
}

abbrev frame : Bytes
frame = hello_frame 77 hello psk

decode-encode_hello_example :
    (encode_hello 77 hello psk ≡ ok frame)
    × (length frame ≡ 60)
    × (decode_verify_hello frame 60 psk ≡ ok (hello, 77))
decode-encode_hello_example = decode-encode_hello 77 hello psk hello-IsHello (omega arith)

frame-IsBytes : IsBytes frame
unfolding hello_core encode_header store16_be store32_be store64_be
frame-IsBytes =
    IsBytes-append (hello_core 77 hello) _ (ground arith)
      (auth_tag-IsBytes (derive_hello_key psk) (codes "C0PQ/1 hello frame") (hello_core 77 hello))

hello_facts :
    (encode_hello 77 hello psk ≡ ok frame)
    × (length frame ≡ 60)
    × (decode_verify_hello frame 60 psk ≡ ok (hello, 77))
hello_facts = decode-encode_hello 77 hello psk hello-IsHello (omega arith)

decode_hello_sound_example : (encode_hello 77 hello psk ≡ ok frame) × IsHello hello
decode_hello_sound_example =
    let (encoded, sized, decoded) = hello_facts in
    decode_hello_sound frame psk hello 77 sized frame-IsBytes decoded

abbrev challenge : Challenge
challenge = record {
  suite = 1;
  epoch = 3;
  key_id = replicate 16 5;
  device_nonce = replicate 16 4;
  server_nonce = replicate 16 6;
}

abbrev challenge_frame : Bytes
challenge_frame =
    challenge_core 77 challenge
    ++ auth_tag (challenge_key psk challenge) (codes "C0PQ/1 challenge frame")
        (challenge_core 77 challenge)

challenge_parsed : parse_challenge challenge_frame ≡ challenge
unfolding challenge_core encode_header store16_be store32_be store64_be parse_challenge load16_be
    load64_be
challenge_parsed = refl

abbrev tag : Bytes
tag =
    auth_tag (challenge_key psk challenge) (codes "C0PQ/1 challenge frame")
      (challenge_core 77 challenge)

core_length : length (challenge_core 77 challenge) ≡ 68
unfolding challenge_core encode_header store16_be store32_be store64_be
core_length = refl

challenge_head : take 68 challenge_frame ≡ challenge_core 77 challenge
challenge_head = take-append (challenge_core 77 challenge) tag 68 core_length

challenge_tag : slice 68 16 challenge_frame ≡ tag
challenge_tag =
    ap (λ t. take 16 t) (drop-append (challenge_core 77 challenge) tag 68 core_length)
    ∙ take_all tag 16 (
        length-auth_tag (challenge_key psk challenge) (codes "C0PQ/1 challenge frame")
          (challenge_core 77 challenge))

abbrev challenge_header : FrameHeader
challenge_header = record { frame_type = 2; flags = 0; payload_length = 74; session_id = 77 }

challenge_checks : ChallengeChecks 77 challenge_frame psk challenge_header
challenge_checks = record {
  decoded = unfold challenge_core encode_header store32_be decode_header load32_be in refl;
  frame_type = refl;
  flags = refl;
  session_id = refl;
  payload_length = refl;
  suite = ap (λ c. c.suite) challenge_parsed;
  tagged = rw challenge_parsed (
      ap₂
        (λ t c. verify_auth_tag t (challenge_key psk challenge) (codes "C0PQ/1 challenge frame") c)
        challenge_tag challenge_head
      ∙ verify_auth_tag_self (challenge_key psk challenge) (codes "C0PQ/1 challenge frame")
          (challenge_core 77 challenge));
}

accepted : decode_verify_challenge 77 challenge_frame 84 psk ≡ ok (parse_challenge challenge_frame)
accepted = decode_challenge-checked 77 challenge_frame psk challenge_header challenge_checks

challenge_length : length challenge_frame ≡ 84
challenge_length = omega (
  arith,
  core_length,
  length-append (challenge_core 77 challenge) tag,
  length-auth_tag (challenge_key psk challenge) (codes "C0PQ/1 challenge frame")
      (challenge_core 77 challenge),
)

challenge-IsBytes : IsBytes challenge_frame
unfolding challenge_core encode_header store16_be store32_be store64_be
challenge-IsBytes = IsBytes-append (challenge_core 77 challenge) _ (ground arith) (
    auth_tag-IsBytes (challenge_key psk challenge) (codes "C0PQ/1 challenge frame")
      (challenge_core 77 challenge))

decode_challenge_sound_example :
    (challenge_frame ≡ challenge_frame_of 77 psk (parse_challenge challenge_frame))
    × ((parse_challenge challenge_frame).suite ≡ 1)
decode_challenge_sound_example =
    decode_challenge_sound 77 challenge_frame psk (parse_challenge challenge_frame) challenge_length
      challenge-IsBytes accepted
