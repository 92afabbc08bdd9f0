-- ===== src/Session/Header/Laws.antt =====
-- A header decodes to what was encoded, and nothing else decodes.
use c0_pqlink_complete.Prelude.{
  refl, u8, ltb, false, ℕ, ◌+◌, ◌^◌, ◌≤◌, ◌<◌, ◌≡◌, Bytes, ◌∷◌, ◌++◌, length, take, arith,
}
use c0_pqlink_complete.Prelude.Arrays.{IsBytes}
use c0_pqlink_complete.Common.{ok}
use c0_pqlink_complete.Wire.{store32_be}
use c0_pqlink_complete.Wire.RoundTrip.{
  store32-big_endian, big_endian_bytes, load32-store32_prefix, load32-bytes, store32-load32,
}
use c0_pqlink_complete.Session.Header.{FrameHeader, encode_header, decode_header, written}

pub length-header :
    (frame_type flags payload session : ℕ)
    → payload ≤ 255
    → length (written (encode_header frame_type flags payload session)) ≡ 10
unfolding encode_header store32_be
length-header frame_type flags payload session h = ground arith

pub header-IsBytes :
    (frame_type flags payload session : ℕ)
    → frame_type < 2 ^ 8
    → flags < 2 ^ 8
    → IsBytes (written (encode_header frame_type flags payload session))
unfolding encode_header store32_be
header-IsBytes frame_type flags payload session p q = ground arith

-- Decoding a frame that begins with an encoded header gives its four fields back, where the frame
-- has the length that the header states.
pub decode-encode_header :
    (frame_type flags payload session : ℕ) (rest : Bytes)
    → payload ≤ 255
    → session < 2 ^ 32
    → decode_header
        (written (encode_header frame_type flags payload session) ++ rest)
        (payload + 10)
      ≡ ok (record {
        frame_type = frame_type;
        flags = flags;
        payload_length = payload;
        session_id = session;
      })
unfolding decode_header encode_header
decode-encode_header frame_type flags payload session rest p q =
    ground (arith, load32-store32_prefix session rest q)

-- Only a frame that begins with the encoding of the result decodes, at the stated length.
pub decode_header_sound :
    (frame : Bytes) (frame_length : ℕ) (header : FrameHeader)
    → frame_length ≤ length frame
    → IsBytes frame
    → decode_header frame frame_length ≡ ok header
    → (take 10 frame
        ≡ written
            (encode_header header.frame_type header.flags header.payload_length header.session_id))
      × (header.payload_length + 10 ≡ frame_length)
      × (header.payload_length ≤ 255)
      × (header.session_id < 2 ^ 32)
unfolding decode_header encode_header
decode_header_sound (a ∷ b ∷ c ∷ d ∷ e ∷ f ∷ g ∷ h ∷ i ∷ j ∷ rest) n header fits bytes ok' =
    ground (arith, store32-load32 g h i j rest, load32-bytes g h i j rest)
decode_header_sound frame n header fits bytes ok' = ground arith

-- The ten bytes of a header.
abbrev pub header_bytes : ℕ → ℕ → ℕ → ℕ → Bytes
header_bytes frame_type flags payload session =
    0x43 ∷ 0x30 ∷ 1 ∷ frame_type ∷ flags ∷ payload ∷ big_endian_bytes 4 session

pub header-bytes :
    (frame_type flags payload session : ℕ)
    → payload ≤ 255
    → written (encode_header frame_type flags payload session)
      ≡ header_bytes frame_type flags payload session
unfolding encode_header
header-bytes frame_type flags payload session h =
    let fits : ltb 255 payload ≡ false = ground arith in
    let same : u8 payload ≡ payload = omega arith in
    rw (fits, same, store32-big_endian session) refl
