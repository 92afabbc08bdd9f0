-- ===== src/Session/Preflight/RoundTrip.antt =====
-- What the encoders make, the verifying decoders of the same key accept and give back.
use c0_pqlink_complete.Prelude.{
  ℕ, ◌^◌, ◌<◌, ◌≡◌, refl, ap, ap₂, ◌∙◌, Bytes, ◌++◌, codes, take, length, arith, ==_iff,
}
use c0_pqlink_complete.Prelude.Arrays.{slice, IsBytes}
use c0_pqlink_complete.Common.{ok}
use c0_pqlink_complete.Wire.{store16_be, store64_be, load16_be, load64_be}
use c0_pqlink_complete.Wire.RoundTrip.{
  length-store16, length-store64, load16-store16_prefix, load64-store64,
}
use c0_pqlink_complete.Session.Header.{encode_header, decode_header, written}
use c0_pqlink_complete.Session.Header.Laws.{length-header, decode-encode_header}
use c0_pqlink_complete.Session.Crypto.{auth_tag, verify_auth_tag, derive_hello_key}
use c0_pqlink_complete.Session.Crypto.Tags.{length-auth_tag, verify_auth_tag_self}
use c0_pqlink_complete.Session.Preflight.{
  Hello, hello_core, encode_hello, parse_hello, decode_verify_hello,
}
use c0_pqlink_complete.Session.Preflight.Steps.{decode_hello-checked}
use c0_pqlink_complete.Session.Preflight.Frames.{hello_fields}

-- The fields fit the arrays and integers that hold them in C, and the suite is the known one.
pub record IsHello (hello : Hello) : Type 0 where
  pub suite : hello.suite ≡ 1
  pub device_id : length hello.device_id ≡ 8
  pub epoch : hello.epoch < 2 ^ 64
  pub device_nonce : length hello.device_nonce ≡ 16
  pub id_bytes : IsBytes hello.device_id
  pub nonce_bytes : IsBytes hello.device_nonce

module _ (session_id : ℕ) (hello : Hello) (psk : Bytes) where
  abbrev tag : Bytes
  tag = auth_tag (derive_hello_key psk) (codes "C0PQ/1 hello frame") (hello_core session_id hello)

  abbrev pub hello_frame : Bytes
  hello_frame = hello_core session_id hello ++ tag

  abbrev header : Bytes
  header = written (encode_header 1 0 50 session_id)

  pub encode_hello-frame : IsHello hello → encode_hello session_id hello psk ≡ ok hello_frame
  unfolding encode_hello
  encode_hello-frame h = rw ((==_iff hello.suite 1).1 h.suite)

  -- The encoded frame has its fields where the decoder reads them.
  hello_frame-fields :
      IsHello hello
      → session_id < 2 ^ 32
      → (length hello_frame ≡ 60)
        × (decode_header hello_frame 60
            ≡ ok (record {
              frame_type = 1;
              flags = 0;
              payload_length = 50;
              session_id = session_id;
            }))
        × (take 44 hello_frame ≡ hello_core session_id hello)
        × (slice 44 16 hello_frame ≡ tag)
        × (parse_hello hello_frame ≡ hello)
  unfolding hello_core parse_hello
  hello_frame-fields h s =
      let fields =
        hello_fields header (store16_be hello.suite) hello.device_id (store64_be hello.epoch)
          hello.device_nonce tag (length-header 1 0 50 session_id (omega arith))
          (length-store16 hello.suite) h.device_id (length-store64 hello.epoch) h.device_nonce
          (length-auth_tag (derive_hello_key psk) (codes "C0PQ/1 hello frame")
            (hello_core session_id hello)) in
      (
        fields.0,
        ap (λ f. decode_header f 60) fields.3
            ∙ decode-encode_header 1 0 50 session_id _ (omega arith) s,
        fields.1,
        fields.2,
        λ i. record {
          suite =
              (ap load16_be fields.4 ∙ load16-store16_prefix hello.suite _ (omega (arith, h.suite)))
                i;
          device_id = fields.5 i;
          epoch = (ap load64_be fields.6 ∙ load64-store64 hello.epoch _ h.epoch) i;
          device_nonce = fields.7 i;
        },
      )

  -- An encoded Hello is 60 bytes, and the decoder with the same pre-shared key accepts it and
  -- returns the fields and the session id that went in.
  pub decode-encode_hello :
      IsHello hello
      → session_id < 2 ^ 32
      → (encode_hello session_id hello psk ≡ ok hello_frame)
        × (length hello_frame ≡ 60)
        × (decode_verify_hello hello_frame 60 psk ≡ ok (hello, session_id))
  decode-encode_hello h s =
      let (sized, decoded, core, tagged, parsed) = hello_frame-fields h s in
      (
        encode_hello-frame h,
        sized,
        decode_hello-checked hello_frame psk _ (record {
          decoded = decoded;
          frame_type = refl;
          flags = refl;
          payload_length = refl;
          tagged =
              ap₂ (λ t c. verify_auth_tag t (derive_hello_key psk) (codes "C0PQ/1 hello frame") c)
                tagged core
              ∙ verify_auth_tag_self (derive_hello_key psk) (codes "C0PQ/1 hello frame")
                  (hello_core session_id hello);
          suite = ap (λ x. x.suite) parsed ∙ h.suite;
        })
            ∙ ap (λ x. ok (x, session_id)) parsed,
      )
