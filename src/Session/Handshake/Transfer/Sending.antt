-- ===== src/Session/Handshake/Transfer/Sending.antt =====
-- The fragments on the link while the ciphertext writer runs: in order, each acknowledged before the
-- next, and their payloads with what is pending are the data.
use c0_pqlink_complete.Prelude.{
  ℕ, zero, suc, ◌+◌, ◌-◌, ◌<◌, ◌≤◌, ◌≡◌, refl, ap, subst, sym, ◌∙◌, Bytes, [], ◌∷◌, ◌++◌, not, ◌||◌,
  u8, ltb, ◌==◌, arith, length, take, ==_iff, length-append, length-drop, append_assoc, append-nil,
  take-append-drop, codes, Bool-cases, inl, inr,
}
use c0_pqlink_complete.Prelude.Arrays.{byte_at, slice, take_all}
use c0_pqlink_complete.Common.{Result, ok, err, Result-cases, err_ok}
use c0_pqlink_complete.Hmac.Laws.{hmac}
use c0_pqlink_complete.Session.Client.{Client}
use c0_pqlink_complete.Session.Header.{FrameHeader, decode_header, frame_ciphertext_ack}
use c0_pqlink_complete.Session.Header.Laws.{header_bytes, header-bytes}
use c0_pqlink_complete.Session.Crypto.{auth_tag, verify_auth_tag}
use c0_pqlink_complete.Session.Crypto.Tags.{auth_tag-hmac, length-auth_tag}
use c0_pqlink_complete.Session.Fragment.{Transport, send_and_receive}
use c0_pqlink_complete.Session.Fragment.Traffic.{Exchanged, send_and_receive-Exchanged}
use c0_pqlink_complete.Session.Handshake.{
  Writer, fragment_core, check_ack, conclude_flush, flush_ciphertext_fragment, write_loop,
}
use c0_pqlink_complete.Session.Handshake.Transfer.{
  filled, rest, flushed, loop_room, loop_stop, loop_full, length-filled, flush_ok,
}

-- A fragment without its tag: header, index, count, length and payload.
abbrev pub fragment_text : ℕ → ℕ → Bytes → Bytes
fragment_text session_id index payload =
    header_bytes 3 0 (19 + length payload) session_id ++ (index ∷ 16 ∷ length payload ∷ payload)

-- The frame of a fragment, with the HMAC16 of its text.
abbrev pub fragment_frame : ℕ → Bytes → ℕ → Bytes → Bytes
fragment_frame session_id key index payload =
    fragment_text session_id index payload
    ++ take 16
        (hmac key (codes "C0PQ/1 ciphertext fragment" ++ fragment_text session_id index payload))

-- A reply that acknowledges the fragment with this index.
pub record IsAck (key : Bytes) (index : ℕ) (reply : Bytes) : Type 0 where
  pub header : FrameHeader
  pub decoded : decode_header reply 28 ≡ ok header
  pub flags : header.flags ≡ 0
  pub payload_length : header.payload_length ≡ 18
  pub numbered : byte_at reply 10 ≡ index
  pub status : byte_at reply 11 ≡ 0
  pub tagged :
      verify_auth_tag (slice 12 16 reply) key (codes "C0PQ/1 ciphertext ack") (take 12 reply)
      ≡ ok tt

check_ack-IsAck :
    (writer : Writer) (reply : Bytes)
    → check_ack writer reply ≡ ok tt
    → IsAck writer.session_auth_key writer.fragment_index reply
unfolding check_ack
check_ack-IsAck writer reply h = elim (Result-cases (decode_header reply 28)) [
  | inl (header, d) ↦ record {
    header = header;
    decoded = d;
    flags = ground arith;
    payload_length = ground arith;
    numbered = ground arith;
    status = ground arith;
    tagged = ground arith;
  }
  | inr (code, d) ↦ ground arith
]

core_text :
    (client : Client) (writer : Writer)
    → length writer.pending ≤ 48
    → fragment_core client writer
      ≡ fragment_text client.session_id writer.fragment_index writer.pending
unfolding fragment_core
core_text client writer h =
    ap (λ t. t ++ (writer.fragment_index ∷ 16 ∷ length writer.pending ∷ writer.pending))
      (header-bytes 3 0 (3 + length writer.pending + 16) client.session_id (omega arith)
        ∙ ap (λ n. header_bytes 3 0 n client.session_id) (the_sum (length writer.pending)))
  where
    the_sum : (n : ℕ) → 3 + n + 16 ≡ 19 + n
    the_sum n = omega arith

sent_frame :
    (client : Client) (writer : Writer)
    → length writer.pending ≤ 48
    → take (length (fragment_core client writer) + 16) (
        fragment_core client writer
        ++ auth_tag writer.session_auth_key
            (codes "C0PQ/1 ciphertext fragment")
            (fragment_core client writer))
      ≡ fragment_frame client.session_id writer.session_auth_key writer.fragment_index
          writer.pending
sent_frame client writer h =
    let core = fragment_core client writer in
    let key = writer.session_auth_key in
    let label = codes "C0PQ/1 ciphertext fragment" in
    take_all (core ++ auth_tag key label core) (length core + 16)
      (omega (arith, length-append core (auth_tag key label core), length-auth_tag key label core))
    ∙ ap (◌++◌ core) (auth_tag-hmac key label core)
    ∙ ap (λ t. t ++ take 16 (hmac key (label ++ t))) (core_text client writer h)

module _ (transport : Transport) (client : Client) (key : Bytes) where
  open transport use {Link}

  -- The first fragments of a transfer that has begun at `start`: their number, the data they hold,
  -- and the link after the last acknowledgement.
  pub data Fragments (start : Link) : ℕ → Bytes → Link → Type 0 where
    begun : Fragments start 0 [] start
    next :
        (index : ℕ) (sent payload reply : Bytes) (link later : Link)
        → Fragments start index sent link
        → 0 < length payload
        → length payload ≤ 48
        → Exchanged transport client
            (fragment_frame client.session_id key index payload)
            4
            28
            link
            reply
            later
        → IsAck key index reply
        → Fragments start (suc index) (sent ++ payload) later

  -- The data so far: acknowledged in fragments, then pending.
  pub record InFlight (start : Link) (whole : Bytes) (link : Link) (index : ℕ)
      (pending session_auth_key : Bytes) : Type 0 where
    pub acked : Bytes
    pub fragments : Fragments start index acked link
    pub split : whole ≡ acked ++ pending
    pub keyed : session_auth_key ≡ key

  abbrev pub Flies : Link → Bytes → Link → Writer → Type 0
  Flies start whole link writer =
      InFlight start whole link writer.fragment_index writer.pending writer.session_auth_key

  module _ (start : Link) where
    conclude_flush_sent :
        (writer : Writer) (reply : Link × Bytes × Result (Unit {0}))
        → (conclude_flush transport writer reply).2 ≡ ok tt
        → (reply.2 ≡ ok tt)
          × ((conclude_flush transport writer reply).0 ≡ reply.0)
          × IsAck writer.session_auth_key writer.fragment_index reply.1
    unfolding conclude_flush
    conclude_flush_sent writer (link, frame, err e) h = cc
    conclude_flush_sent writer (link, frame, ok done) h =
        elim (Result-cases (check_ack writer frame)) [
          | inl (passed, e) ↦ (refl, ground arith, check_ack-IsAck writer frame e)
          | inr (code, e) ↦ ground arith
        ]

    pub flush-Fragments :
        (whole : Bytes) (link : Link) (writer : Writer)
        → Flies start whole link writer
        → 0 < length writer.pending
        → length writer.pending ≤ 48
        → (flush_ciphertext_fragment transport link client writer).2 ≡ ok tt
        → Fragments start
            (suc writer.fragment_index)
            whole
            (flush_ciphertext_fragment transport link client writer).0
    unfolding flush_ciphertext_fragment
    flush-Fragments whole link writer f some' short done =
        elim (Bool-cases (length writer.pending == 0 || not (ltb writer.fragment_index 16))) [
          | inl refused ↦ ground arith
          | inr open' ↦
              let core = fragment_core client writer in
              let tagged =
                core
                ++ auth_tag writer.session_auth_key (codes "C0PQ/1 ciphertext fragment") core in
              let call =
                send_and_receive transport link client tagged (length core + 16)
                  frame_ciphertext_ack 28 in
              let (passed, same, ack) = conclude_flush_sent writer call (rw open' at done) in
              rw (open', same, f.split)
                (next writer.fragment_index f.acked writer.pending call.1 link call.0 f.fragments
                  some' short
                  (subst (λ t. Exchanged transport client t 4 28 link call.1 call.0)
                    (sent_frame client writer short
                      ∙ ap
                          (λ k.
                            fragment_frame client.session_id k writer.fragment_index writer.pending)
                          f.keyed)
                    (send_and_receive-Exchanged transport link client tagged (length core + 16)
                      frame_ciphertext_ack 28 passed))
                  (subst (λ k. IsAck k writer.fragment_index call.1) f.keyed ack))
        ]

    grown :
        (whole more : Bytes) (link : Link) (writer : Writer)
        → Flies start whole link writer
        → InFlight start
            (whole ++ more)
            link
            writer.fragment_index
            (writer.pending ++ more)
            writer.session_auth_key
    grown whole more link writer f = record {
      acked = f.acked;
      fragments = f.fragments;
      split = ap (λ w. w ++ more) f.split ∙ append_assoc f.acked writer.pending more;
      keyed = f.keyed;
    }

    flushed-Flies :
        (whole : Bytes) (link : Link) (writer : Writer)
        → Flies start whole link writer
        → 0 < length writer.pending
        → length writer.pending ≤ 48
        → (flush_ciphertext_fragment transport link client writer).2 ≡ ok tt
        → Flies start whole
            (flush_ciphertext_fragment transport link client writer).0
            (flush_ciphertext_fragment transport link client writer).1
    flushed-Flies whole link writer f some' short done =
        let (acked, few) = flush_ok transport link client writer done in
        let after = (flush_ciphertext_fragment transport link client writer).0 in
        let counted : u8 (writer.fragment_index + 1) ≡ suc writer.fragment_index =
          omega (arith, few) in
        subst (Flies start whole after) (sym acked) (record {
          acked = whole;
          fragments =
              subst (λ i. Fragments start i whole after) (sym counted)
                (flush-Fragments whole link writer f some' short done);
          split = sym (append-nil whole);
          keyed = f.keyed;
        })

    pub write_loop-Flies :
        (fuel : ℕ) (link : Link) (writer : Writer) (whole bytes : Bytes)
        → length bytes ≤ fuel
        → length writer.pending < 48
        → Flies start whole link writer
        → (write_loop transport fuel link client writer bytes).2 ≡ ok tt
        → Flies start
            (whole ++ bytes)
            (write_loop transport fuel link client writer bytes).0
            (write_loop transport fuel link client writer bytes).1
    write_loop-Flies zero link writer whole [] h short f done = unfold write_loop in rw append-nil f
    write_loop-Flies zero link writer whole (x ∷ xs) h short f done = absurd (omega arith)
    write_loop-Flies (suc fuel) link writer whole [] h short f done =
        unfold write_loop in rw append-nil f
    write_loop-Flies (suc fuel) link writer whole (x ∷ xs) h short f done =
        let fill = filled transport fuel link client writer x xs in
        let left = rest transport fuel link client writer x xs in
        let call = flushed transport fuel link client writer x xs in
        let space = 48 - length writer.pending in
        let first = take space (x ∷ xs) in
        let size = length-filled transport writer (x ∷ xs) in
        let enough : length left ≤ fuel = omega (arith, h, short, length-drop space (x ∷ xs)) in
        let parts : (whole ++ first) ++ left ≡ whole ++ (x ∷ xs) =
          append_assoc whole first left ∙ ap (◌++◌ whole) (take-append-drop space (x ∷ xs)) in
        let g = grown whole first link writer f in
        elim (Bool-cases (length fill.pending == 48)) [
          | inl full ↦ elim (Result-cases call.2) [
            | inl (done', sent) ↦
                let acked = flush_ok transport link client fill sent in
                let ran = loop_full transport fuel link client writer x xs full sent in
                let exact = (==_iff (length fill.pending) 48).0 full in
                let kept = record call.1 { failure = call.2 } in
                let out =
                  write_loop-Flies fuel call.0 kept (whole ++ first) left enough
                    (omega (arith, ap (λ w. length w.pending) acked.0))
                    (flushed-Flies (whole ++ first) link fill g (omega (arith, exact))
                      (omega (arith, exact)) sent)
                    (ap (λ t. t.2) (sym ran) ∙ done) in
                rw ran (
                  subst
                    (λ w.
                      Flies start w (write_loop transport fuel call.0 client kept left).0
                        (write_loop transport fuel call.0 client kept left).1)
                    parts out)
            | inr (e, failed) ↦ absurd (
                err_ok e (
                  ap (λ t. t.2)
                    (sym (loop_stop transport fuel link client writer x xs e full failed))
                  ∙ done))
          ]
          | inr room ↦
              let ran = loop_room transport fuel link client writer x xs room in
              rw ran (
                subst
                  (λ w.
                    Flies start w (write_loop transport fuel link client fill left).0
                      (write_loop transport fuel link client fill left).1)
                  parts
                  (write_loop-Flies fuel link fill (whole ++ first) left enough
                    (ground (arith, short, size)) g (ap (λ t. t.2) (sym ran) ∙ done)))
        ]
