-- ===== src/Session/Handshake/Connect/Delivery.antt =====
-- The ciphertext as the link has seen it: the fragments of a whole transfer.
use c0_pqlink_complete.Prelude.{
  joined, suc, ◌<◌, ◌≤◌, ◌≡◌, ◌⊎◌, refl, ap, subst, sym, ◌∙◌, Bytes, List, [], ◌∷◌, ◌++◌, ◌==◌,
  arith, length, append-nil, append_assoc, Bool-cases, inl, inr, ==_iff,
}
use c0_pqlink_complete.Common.{ok, err, Error, Result-cases, Result}
use c0_pqlink_complete.Sha256.Stream.{Represents}
use c0_pqlink_complete.Sha256.{sha256_update}
use c0_pqlink_complete.Session.Client.{Client}
use c0_pqlink_complete.Session.Fragment.{Transport}
use c0_pqlink_complete.Session.Handshake.{
  Writer, flush_ciphertext_fragment, write_ciphertext, write_chunks,
}
use c0_pqlink_complete.Session.Handshake.Connect.{conclude_transfer}
use c0_pqlink_complete.Session.Handshake.Connect.Chunks.{
  Carries, bound, checked, chunks_ran, chunks_stopped, ciphertext_ran, conclude_sent,
  transfer-Carries, write_chunks-Carries, write_ciphertext-Carries,
}
use c0_pqlink_complete.Session.Handshake.Transfer.{flush_ok}
use c0_pqlink_complete.Session.Handshake.Transfer.Sending.{
  begun, Flies, Fragments, flush-Fragments, write_loop-Flies,
}

module _ (transport : Transport) (client : Client) (key : Bytes) where
  open transport use {Link}

  module _ (start : Link) where
    write_ciphertext-Flies :
        (link : Link) (writer : Writer) (before sent bytes : Bytes)
        → Carries before sent writer
        → Flies transport client key start sent link writer
        → (write_ciphertext transport link client writer bytes).2 ≡ ok tt
        → Flies transport client key start
            (sent ++ bytes)
            (write_ciphertext transport link client writer bytes).0
            (write_ciphertext transport link client writer bytes).1
    write_ciphertext-Flies link writer before sent bytes c f done =
        let started = record writer { transcript = sha256_update writer.transcript bytes } in
        let ran = ciphertext_ran transport link client writer bytes c.filling.sound in
        rw ran (
          write_loop-Flies transport client key start (length bytes) link started sent bytes
            (omega arith) c.filling.short f (ap (λ t. t.2) (sym ran) ∙ done))

    write_chunks-Flies :
        (link : Link) (writer : Writer) (before sent : Bytes) (chunks : List Bytes)
        → Carries before sent writer
        → Flies transport client key start sent link writer
        → (write_chunks transport link client writer chunks).2 ≡ ok tt
        → Flies transport client key start
            (sent ++ joined chunks)
            (write_chunks transport link client writer chunks).0
            (write_chunks transport link client writer chunks).1
    write_chunks-Flies link writer before sent [] c f done = unfold write_chunks in rw append-nil f
    write_chunks-Flies link writer before sent (chunk ∷ chunks) c f done =
        let passed = chunks_stopped transport link client writer chunk chunks done in
        let ran = chunks_ran transport link client writer chunk chunks passed in
        let call = write_ciphertext transport link client writer chunk in
        rw ran (
          subst
            (λ w.
              Flies transport client key start w
                (write_chunks transport call.0 client call.1 chunks).0
                (write_chunks transport call.0 client call.1 chunks).1)
            (append_assoc sent chunk (joined chunks))
            (write_chunks-Flies call.0 call.1 before (sent ++ chunk) chunks
              (write_ciphertext-Carries transport link client writer before sent chunk c passed)
              (write_ciphertext-Flies link writer before sent chunk c f passed)
              (ap (λ t. t.2) (sym ran) ∙ done)))

    empty_list : (xs : Bytes) → length xs ≡ 0 → xs ≡ []
    empty_list [] h = refl
    empty_list (x ∷ xs) h = absurd (omega arith)

    conclude_transfer-Fragments :
        (link : Link) (writer : Writer) (before sent : Bytes)
        → Carries before sent writer
        → Flies transport client key start sent link writer
        → (conclude_transfer transport client (link, writer, ok tt)).2 ≡ ok tt
        → Fragments transport client key start 16 sent
            (conclude_transfer transport client (link, writer, ok tt)).0
    unfolding conclude_transfer
    conclude_transfer-Fragments link writer before sent c f done =
        elim (Bool-cases (length writer.pending == 0)) [
          | inl empty ↦
              let total = checked transport writer (rw empty at done) in
              let none' = empty_list writer.pending ((==_iff _ 0).0 empty) in
              let all : sent ≡ f.acked = f.split ∙ ap (◌++◌ f.acked) none' ∙ append-nil f.acked in
              rw empty (
                subst (λ i. Fragments transport client key start i sent link) total
                  (subst (λ m. Fragments transport client key start writer.fragment_index m link)
                    (sym all) f.fragments))
          | inr partial ↦
              let call = flush_ciphertext_fragment transport link client writer in
              let (passed, last) = bound transport call.2 call.1 (rw partial at done) in
              let (acked, few) = flush_ok transport link client writer passed in
              let last' : suc writer.fragment_index ≡ 16 =
                omega (arith, few, last, ap (λ w. w.fragment_index) acked) in
              rw partial (
                subst (λ i. Fragments transport client key start i sent call.0) last'
                  (flush-Fragments transport client key start sent link writer f (ground arith)
                    (omega (arith, c.filling.short)) passed))
        ]

    -- Nothing is sent before the first chunk.
    begin-Flies :
        (writer : Writer) (before : Bytes)
        → Carries before [] writer
        → writer.session_auth_key ≡ key
        → Flies transport client key start [] start writer
    begin-Flies writer before c keyed = record {
      acked = [];
      fragments =
          subst (λ i. Fragments transport client key start i [] start)
            (omega (arith, c.filling.counted)) begun;
      split = sym (empty_list writer.pending (omega (arith, c.filling.counted)));
      keyed = keyed;
    }

module _ (transport : Transport) (link : transport.Link) (client : Client) (writer : Writer)
    (before : Bytes) (chunks : List Bytes) where
  abbrev run : transport.Link × Writer × Result (Unit {0})
  run = write_chunks transport link client writer chunks

  abbrev concluded : transport.Link × Writer × Result (Unit {0})
  concluded = conclude_transfer transport client run

  pub transfer-Fragments :
      Carries before [] writer
      → concluded.2 ≡ ok tt
      → Fragments transport client writer.session_auth_key link 16 (joined chunks) concluded.0
  transfer-Fragments c done =
      let key = writer.session_auth_key in
      let whole = conclude_sent transport client run done in
      let sent = ap (λ t. t.2) whole in
      subst
        (λ w.
          Fragments transport client key link 16 (joined chunks)
            (conclude_transfer transport client w).0)
        (sym whole)
        (conclude_transfer-Fragments transport client key link run.0 run.1 before (joined chunks)
          (write_chunks-Carries transport link client writer before [] chunks c sent)
          (write_chunks-Flies transport client key link link writer before [] chunks c
            (begin-Flies transport client key link writer before c refl) sent)
          (ap (λ w. (conclude_transfer transport client w).2) (sym whole) ∙ done))

  -- From a writer that has sent nothing and whose transcript holds `before`, the transfer of the
  -- chunks and of the last fragment either returns an error, or has sent sixteen fragments in order,
  -- index 0 to 15, of 1 to 48 bytes of payload and tagged under the key of the writer, which
  -- together hold exactly the chunks; each was sent before the reply that acknowledges it came in,
  -- and only then the next, and the last reply leaves the link as it is returned. The transcript
  -- then holds the chunks after `before`, and they are 721 to 768 bytes.
  pub transfer-outcomes :
      Carries before [] writer
      → ((concluded.2 ≡ ok tt)
          × Fragments transport client writer.session_auth_key link 16 (joined chunks) concluded.0
          × Represents concluded.1.transcript (before ++ joined chunks)
          × (720 < length (joined chunks))
          × (length (joined chunks) ≤ 768))
        ⊎ ((code : Error) × (concluded.2 ≡ err code))
  transfer-outcomes c = elim (Result-cases concluded.2) [
    | inl (done, e) ↦
        let (held, more, whole) = transfer-Carries transport link client writer before chunks c e in
        inl (e, transfer-Fragments c e, held, more, whole)
    | inr failed ↦ inr failed
  ]
