-- ===== src/Session/Preflight/Soundness.antt =====
-- The Hello decoder accepts no frame but the encoder's.
use c0_pqlink_complete.Prelude.{
  ℕ, ◌≡◌, ap, ap₂, ◌∙◌, sym, Bytes, ◌++◌, codes, take, drop, length, length-take, length-drop,
  length-append, arith,
}
use c0_pqlink_complete.Prelude.Arrays.{slice, take-append, IsBytes, IsBytes-take, IsBytes-drop}
use c0_pqlink_complete.Common.{ok}
use c0_pqlink_complete.Wire.RoundTrip.{store16-load16_list, store64-load64_list, load64-lt}
use c0_pqlink_complete.Session.Header.{FrameHeader, encode_header, written}
use c0_pqlink_complete.Session.Header.Laws.{decode_header_sound}
use c0_pqlink_complete.Session.Crypto.{auth_tag, derive_hello_key}
use c0_pqlink_complete.Session.Crypto.Tags.{verify_auth_tag_iff}
use c0_pqlink_complete.Session.Preflight.{
  Hello, hello_core, encode_hello, parse_hello, decode_verify_hello,
}
use c0_pqlink_complete.Session.Preflight.Steps.{HelloChecks, decode_hello-checks}
use c0_pqlink_complete.Session.Preflight.Frames.{hello_split}
use c0_pqlink_complete.Session.Preflight.RoundTrip.{IsHello, hello_frame, encode_hello-frame}

module _ (frame psk : Bytes) (header : FrameHeader) (sized : length frame ≡ 60)
    (bytes : IsBytes frame) (c : HelloChecks frame psk header) where
  parse_hello-IsHello : IsHello (parse_hello frame)
  parse_hello-IsHello = record {
    suite = c.suite;
    device_id =
        unfold parse_hello in omega (arith, length-take 8 (drop 12 frame), length-drop 12 frame);
    epoch =
        unfold parse_hello in
        load64-lt (drop 20 frame) (omega (arith, length-drop 20 frame))
          (IsBytes-drop 20 frame bytes);
    device_nonce =
        unfold parse_hello in omega (arith, length-take 16 (drop 28 frame), length-drop 28 frame);
    id_bytes = unfold parse_hello in IsBytes-take 8 _ (IsBytes-drop 12 frame bytes);
    nonce_bytes = unfold parse_hello in IsBytes-take 16 _ (IsBytes-drop 28 frame bytes);
  }

  split_core :
      take 10 frame
        ++ (slice 10 2 frame ++ (slice 12 8 frame ++ (slice 20 8 frame ++ slice 28 16 frame)))
      ≡ hello_core header.session_id (parse_hello frame)
  unfolding hello_core parse_hello
  split_core = ap₂ ◌++◌ start (
      ap₂ ◌++◌
        (sym (
          store16-load16_list (drop 10 frame) (omega (arith, length-drop 10 frame))
            (IsBytes-drop 10 frame bytes)))
        (ap (λ e. slice 12 8 frame ++ (e ++ slice 28 16 frame))
          (sym (
            store64-load64_list (drop 20 frame) (omega (arith, length-drop 20 frame))
              (IsBytes-drop 20 frame bytes)))))
    where
      start : take 10 frame ≡ written (encode_header 1 0 50 header.session_id)
      start =
          (decode_header_sound frame 60 header (omega arith) bytes c.decoded).0
          ∙ rw (c.frame_type, c.flags, c.payload_length)

  core : take 44 frame ≡ hello_core header.session_id (parse_hello frame)
  core =
      ap (λ f. take 44 f) (hello_split frame sized)
      ∙ take-append _ (slice 44 16 frame) 44 (
          omega (
            arith,
            ap length (hello_split frame sized),
            length-append
                (take 10 frame
                  ++ (slice 10 2 frame
                      ++ (slice 12 8 frame ++ (slice 20 8 frame ++ slice 28 16 frame))))
                (slice 44 16 frame),
            length-take 16 (drop 44 frame),
            length-drop 44 frame,
          ))
      ∙ split_core

  tagged :
      slice 44 16 frame
      ≡ auth_tag
          (derive_hello_key psk)
          (codes "C0PQ/1 hello frame")
          (hello_core header.session_id (parse_hello frame))
  tagged =
      (verify_auth_tag_iff (slice 44 16 frame) (derive_hello_key psk) (codes "C0PQ/1 hello frame")
          (take 44 frame) (omega (arith, length-take 16 (drop 44 frame), length-drop 44 frame))
          (IsBytes-take 16 _ (IsBytes-drop 44 frame bytes))).0
        c.tagged
      ∙ ap (λ m. auth_tag (derive_hello_key psk) (codes "C0PQ/1 hello frame") m) core

  whole : frame ≡ hello_frame header.session_id (parse_hello frame) psk
  whole = hello_split frame sized ∙ ap₂ ◌++◌ split_core tagged

-- A 60-byte frame that the Hello decoder accepts is the encoding of the Hello that it returns: no
-- other frame with those fields passes.
pub decode_hello_sound :
    (frame psk : Bytes) (hello : Hello) (session_id : ℕ)
    → length frame ≡ 60
    → IsBytes frame
    → decode_verify_hello frame 60 psk ≡ ok (hello, session_id)
    → (encode_hello session_id hello psk ≡ ok frame) × IsHello hello
decode_hello_sound frame psk hello session_id sized bytes e =
    let (header, c, n, parsed, id) = decode_hello-checks frame 60 psk hello session_id e in
    let fits = parse_hello-IsHello frame psk header sized bytes c in
    rw (parsed, id)
      (
        encode_hello-frame header.session_id (parse_hello frame) psk fits
            ∙ ap ok (sym (whole frame psk header sized bytes c)),
        fits,
      )
