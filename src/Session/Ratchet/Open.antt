-- ===== src/Session/Ratchet/Open.antt =====
-- `c0pq_client_open_record`: its branches, order and replay, and the round trip with a peer.
use c0_pqlink_complete.Prelude.{
  ℕ, ◌+◌, ◌-◌, ◌^◌, ◌<◌, ◌≤◌, ◌≡◌, inl, inr, refl, ap, subst, ◌∙◌, Bytes, ◌++◌, length,
  length-append, append_assoc, arith, take, drop, u64, Bool-cases, ==_iff, false, true, ltb, ◌||◌,
  ◌==◌,
}
use c0_pqlink_complete.Prelude.Arrays.{
  IsBytes, slice, take-append, drop-append, drop-append_ge, take_all, slice-append,
}
use c0_pqlink_complete.Common.{Result, ok, err, err_replay, Result-cases}
use c0_pqlink_complete.Wire.{store64_be, load64_be}
use c0_pqlink_complete.Wire.RoundTrip.{length-store64, load64-store64}
use c0_pqlink_complete.Session.Header.{
  FrameHeader, encode_header, decode_header, written, frame_data,
}
use c0_pqlink_complete.Session.Header.Laws.{length-header}
use c0_pqlink_complete.Session.Client.{Client, ClientState, established, is_established}
use c0_pqlink_complete.Session.Aead.{Aead}
use c0_pqlink_complete.Session.Ratchet.{
  select_key, next_secret, make_record_nonce, record_prefix, open_record, open_decoded,
  open_payload, commit_opened, is_peer_record,
}
use c0_pqlink_complete.Session.Ratchet.Seal.{record_frame, decode-record_frame}

is_established-eq : (s : ClientState) → is_established s ≡ true → s ≡ established
is_established-eq s h = ground arith

-- The client after a record has been accepted.
abbrev pub received : Client → Client
received c = record c {
  receive_secret = next_secret c.config.mode c.receive_secret;
  receive_sequence = u64 (c.receive_sequence + 1);
}

-- Where the parts of a record stand.
frame_parts :
    (header sequence text tag : Bytes) (n : ℕ)
    → length header ≡ 10
    → length sequence ≡ 8
    → length text ≡ n
    → length tag ≡ 16
    → let frame = (header ++ sequence) ++ (text ++ tag) in
      (take 18 frame ≡ header ++ sequence)
      × (slice 18 n frame ≡ text)
      × (slice (18 + n) 16 frame ≡ tag)
      × (drop 10 frame ≡ sequence ++ (text ++ tag))
frame_parts header sequence text tag n lh ls lt lg = (
  take-append prefix (text ++ tag) 18 prefix_length,
  slice-append prefix text tag 18 n prefix_length lt,
  ap (λ t. take 16 t)
        (drop-append_ge prefix (text ++ tag) 18 (18 + n) prefix_length (omega arith)
          ∙ drop-append text tag (18 + n - 18) (omega arith))
      ∙ take_all tag 16 lg,
  ap (λ t. drop 10 t) (append_assoc header sequence (text ++ tag))
      ∙ drop-append header (sequence ++ (text ++ tag)) 10 lh,
)
  where
    prefix : Bytes
    prefix = header ++ sequence

    prefix_length : length prefix ≡ 18
    prefix_length = omega (arith, length-append header sequence)

long_enough : (p : Bytes) → ltb (8 + length p + 16) (8 + 16) ≡ false
long_enough p = ground arith

module _ (aead : Aead) where
  -- What a call of `open_record` has done, by its result.
  abbrev pub Opened : Client → Bytes → Client × Result Bytes → Type 0
  Opened c frame (c', ok p) =
      (c.state ≡ established) × (load64_be (drop 10 frame) ≡ c.receive_sequence) × (c' ≡ received c)
  Opened c frame (c', err e) = c' ≡ c

  open_payload-Opened :
      (c : Client) (frame : Bytes) (size room : ℕ)
      → c.state ≡ established
      → Opened c frame (open_payload aead c frame size room)
  unfolding open_payload commit_opened
  open_payload-Opened c frame size room e = ground arith

  open_decoded-Opened :
      (c : Client) (frame : Bytes) (header : Result FrameHeader) (room : ℕ)
      → c.state ≡ established
      → Opened c frame (open_decoded aead c frame header room)
  unfolding open_decoded
  open_decoded-Opened c frame (ok header) room e = elim (Bool-cases (is_peer_record c header)) [
    | inl fits ↦ rw fits (open_payload-Opened c frame header.payload_length room e)
    | inr other ↦ rw other refl
  ]
  open_decoded-Opened c frame (err code) room e = refl

  -- `c0pq_client_open_record` changes the client only when it returns a plaintext, and then only
  -- an established client whose next expected sequence number the frame carries: the receive
  -- secret takes one step and the number grows by one (on 64 bits). On every error the client is
  -- unchanged, its receive secret and sequence number included.
  pub open_record-Opened :
      (c : Client) (frame : Bytes) (n room : ℕ) → Opened c frame (open_record aead c frame n room)
  unfolding open_record
  open_record-Opened c frame n room = elim (Bool-cases (is_established c.state)) [
    | inl live ↦
        rw live (
          open_decoded-Opened c frame (decode_header frame n) room (is_established-eq c.state live))
    | inr idle ↦ rw idle refl
  ]

  -- The tests that an accepted frame has passed before its sequence number was looked at.
  open_record-passed :
      (c : Client) (frame : Bytes) (n room : ℕ) (header : FrameHeader) {c' : Client} {p : Bytes}
      → decode_header frame n ≡ ok header
      → open_record aead c frame n room ≡ (c', ok p)
      → (is_peer_record c header ≡ true)
        × ((ltb 48 (header.payload_length - 8 - 16) || ltb room (header.payload_length - 8 - 16))
            ≡ false)
  unfolding open_record open_decoded open_payload
  open_record-passed c frame n room header d e = (ground arith, ground arith)

  -- A frame that has been accepted is refused as a replay if it comes again, at once.
  pub open_record-replay :
      (c : Client) (frame : Bytes) (n room : ℕ) {c' : Client} {p : Bytes}
      → c.receive_sequence < 2 ^ 64
      → open_record aead c frame n room ≡ (c', ok p)
      → open_record aead c' frame n room ≡ (c', err err_replay)
  unfolding open_record open_decoded open_payload
  open_record-replay c frame n room {c'} {p} h e = elim (Result-cases (decode_header frame n)) [
    | inl (header, d) ↦
        let (live, sequence, next) = subst (Opened c frame) e (open_record-Opened c frame n room) in
        let (peer, fits) = open_record-passed c frame n room header d e in
        let late : (load64_be (drop 10 frame) == u64 (c.receive_sequence + 1)) ≡ false =
          ground arith in
        rw (next, d, live, peer, fits, late)
    | inr (code, d) ↦ ground arith
  ]

  open_payload-record_frame :
      (c : Client) (p : Bytes) (room : ℕ)
      → length p ≤ 48
      → length p ≤ room
      → c.receive_sequence < 2 ^ 64
      → IsBytes p
      → open_payload aead c
          (record_frame aead 1 c.session_id c.receive_sequence
            (select_key c.config.mode c.receive_secret).0
            c.receive_nonce_base
            p)
          (8 + length p + 16)
          room
        ≡ (received c, ok p)
  unfolding open_payload commit_opened
  open_payload-record_frame c p room fits room' q b =
      let size : 8 + length p + 16 - 8 - 16 ≡ length p = omega arith in
      let (start, text, tag, number) =
        frame_parts header (store64_be c.receive_sequence) sealed.0 sealed.1 (length p)
          (length-header frame_data 1 (8 + length p + 16) c.session_id (omega arith))
          (length-store64 c.receive_sequence) (aead.length_ciphertext key nonce prefix p)
          (aead.length_tag key nonce prefix p) in
      let sequence =
        ap load64_be number ∙ load64-store64 c.receive_sequence (sealed.0 ++ sealed.1) q in
      let small : (ltb 48 (length p) || ltb room (length p)) ≡ false = ground arith in
      rw (
        size,
        small,
        sequence,
        (==_iff c.receive_sequence c.receive_sequence).1 refl,
        start,
        text,
        tag,
        aead.decrypt_encrypt key nonce prefix p b,
      )
    where
      key : Bytes
      key = (select_key c.config.mode c.receive_secret).0

      nonce : Bytes
      nonce = make_record_nonce c.receive_nonce_base c.receive_sequence

      header : Bytes
      header = written (encode_header frame_data 1 (8 + length p + 16) c.session_id)

      prefix : Bytes
      prefix = record_prefix 1 (length p) c.session_id c.receive_sequence

      sealed : Bytes × Bytes
      sealed = aead.encrypt key nonce prefix p

  -- For an established client, a peer's record of at most 48 bytes of text that fit the room, under
  -- the client's receive key, nonce base, 32-bit session and 64-bit next sequence number, is opened
  -- to its plaintext, and the receive side moves by one record.
  pub open_record-record_frame :
      (c : Client) (p : Bytes) (room : ℕ)
      → c.state ≡ established
      → length p ≤ 48
      → length p ≤ room
      → c.session_id < 2 ^ 32
      → c.receive_sequence < 2 ^ 64
      → IsBytes p
      → let frame =
          record_frame aead 1 c.session_id c.receive_sequence
            (select_key c.config.mode c.receive_secret).0
            c.receive_nonce_base
            p in
        open_record aead c frame (length frame) room ≡ (received c, ok p)
  unfolding open_record open_decoded
  open_record-record_frame c p room live fits room' s q b =
      let key = (select_key c.config.mode c.receive_secret).0 in
      let established' : is_established c.state ≡ true = ap is_established live in
      rw
        (
          established',
          decode-record_frame aead 1 c.session_id c.receive_sequence key c.receive_nonce_base p fits
              s,
          (==_iff c.session_id c.session_id).1 refl,
          long_enough p,
        )
        (open_payload-record_frame c p room fits room' q b)

  -- The receive counter is kept on 64 bits and is not tested before it grows: an accepted record
  -- with the last sequence number sets the expected number back to 0.
  pub open_record-wraps :
      (c : Client) (frame : Bytes) (n room : ℕ) {c' : Client} {p : Bytes}
      → c.receive_sequence ≡ 2 ^ 64 - 1
      → open_record aead c frame n room ≡ (c', ok p)
      → c'.receive_sequence ≡ 0
  open_record-wraps c frame n room last e =
      let (live, sequence, next) = subst (Opened c frame) e (open_record-Opened c frame n room) in
      ap (λ d. d.receive_sequence) next ∙ ap (λ (t : ℕ). u64 (t + 1)) last
