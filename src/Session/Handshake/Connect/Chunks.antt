-- ===== src/Session/Handshake/Connect/Chunks.antt =====
-- The ciphertext as the server receives it: the chunks of the encapsulation, one after the other.
use c0_pqlink_complete.Prelude.{
  joined, ◌<◌, ◌≤◌, ◌≡◌, refl, ap, subst, sym, ◌∙◌, Bytes, List, [], ◌∷◌, ◌++◌, ◌==◌, arith, length,
  append-nil, append_assoc, Bool-cases, inl, inr, ==_iff, length-append,
}
use c0_pqlink_complete.Common.{ok, err, Result-cases, choose_ok, Result, ◌>>=◌}
use c0_pqlink_complete.Sha256.Stream.{Represents, update-Represents}
use c0_pqlink_complete.Sha256.{sha256_update}
use c0_pqlink_complete.Session.Client.{Client}
use c0_pqlink_complete.Session.Fragment.{Transport}
use c0_pqlink_complete.Session.Handshake.{
  Writer, flush_ciphertext_fragment, write_loop, write_ciphertext, write_chunks,
}
use c0_pqlink_complete.Session.Handshake.Connect.{check_transfer, conclude_transfer}
use c0_pqlink_complete.Session.Handshake.Transfer.{IsFilling, write_loop-Advances, flush_ok}

-- The writer has taken the bytes `sent`, and its transcript holds them after `before`.
pub record Carries (before sent : Bytes) (writer : Writer) : Type 0 where
  pub filling : IsFilling writer (length sent)
  pub transcript : Represents writer.transcript (before ++ sent)

module _ (transport : Transport) where
  open transport use {Link}

  pub ciphertext_ran :
      (link : Link) (client : Client) (writer : Writer) (bytes : Bytes)
      → writer.failure ≡ ok tt
      → write_ciphertext transport link client writer bytes
        ≡ write_loop transport
            (length bytes)
            link
            client
            (record writer { transcript = sha256_update writer.transcript bytes })
            bytes
  unfolding write_ciphertext
  ciphertext_ran link client writer bytes sound = choose_ok writer.failure _ _ sound

  pub write_ciphertext-Carries :
      (link : Link) (client : Client) (writer : Writer) (before sent bytes : Bytes)
      → Carries before sent writer
      → (write_ciphertext transport link client writer bytes).2 ≡ ok tt
      → Carries before (sent ++ bytes) (write_ciphertext transport link client writer bytes).1
  write_ciphertext-Carries link client writer before sent bytes c done =
      let started = record writer { transcript = sha256_update writer.transcript bytes } in
      let ran = ciphertext_ran link client writer bytes c.filling.sound in
      let a =
        write_loop-Advances transport (length bytes) link client started bytes (omega arith)
          c.filling.short (ap (λ t. t.2) (sym ran) ∙ done) in
      subst (λ t. Carries before (sent ++ bytes) t.1) (sym ran)
        (record {
          filling = subst (IsFilling _) (sym (length-append sent bytes)) (
              a.moved (length sent) (record {
                counted = c.filling.counted;
                short = c.filling.short;
                few = c.filling.few;
                sound = c.filling.sound;
              }));
          transcript =
              subst (λ t. Represents t (before ++ (sent ++ bytes))) (sym a.same_transcript)
                (subst (Represents _) (append_assoc before sent bytes)
                  (update-Represents writer.transcript (before ++ sent) bytes c.transcript));
        })

  pub chunks_ran :
      (link : Link) (client : Client) (writer : Writer) (chunk : Bytes) (chunks : List Bytes)
      → (write_ciphertext transport link client writer chunk).2 ≡ ok tt
      → write_chunks transport link client writer (chunk ∷ chunks)
        ≡ write_chunks transport
            (write_ciphertext transport link client writer chunk).0
            client
            (write_ciphertext transport link client writer chunk).1
            chunks
  unfolding write_chunks
  chunks_ran link client writer chunk chunks passed =
      choose_ok (write_ciphertext transport link client writer chunk).2 _ _ passed

  pub chunks_stopped :
      (link : Link) (client : Client) (writer : Writer) (chunk : Bytes) (chunks : List Bytes)
      → (write_chunks transport link client writer (chunk ∷ chunks)).2 ≡ ok tt
      → (write_ciphertext transport link client writer chunk).2 ≡ ok tt
  unfolding write_chunks
  chunks_stopped link client writer chunk chunks done =
      elim (Result-cases (write_ciphertext transport link client writer chunk).2) [
        | inl (passed, e) ↦ e
        | inr (code, e) ↦ ground arith
      ]

  pub write_chunks-Carries :
      (link : Link) (client : Client) (writer : Writer) (before sent : Bytes) (chunks : List Bytes)
      → Carries before sent writer
      → (write_chunks transport link client writer chunks).2 ≡ ok tt
      → Carries before (sent ++ joined chunks) (write_chunks transport link client writer chunks).1
  write_chunks-Carries link client writer before sent [] c done =
      unfold write_chunks in rw append-nil c
  write_chunks-Carries link client writer before sent (chunk ∷ chunks) c done =
      let passed = chunks_stopped link client writer chunk chunks done in
      let ran = chunks_ran link client writer chunk chunks passed in
      let next = write_ciphertext transport link client writer chunk in
      subst (λ t. Carries before (sent ++ (chunk ++ joined chunks)) t.1) (sym ran)
        (subst (λ m. Carries before m (write_chunks transport next.0 client next.1 chunks).1)
          (append_assoc sent chunk (joined chunks))
          (write_chunks-Carries next.0 client next.1 before (sent ++ chunk) chunks
            (write_ciphertext-Carries link client writer before sent chunk c passed)
            (ap (λ t. t.2) (sym ran) ∙ done)))

  pub checked : (writer : Writer) → check_transfer writer ≡ ok tt → writer.fragment_index ≡ 16
  unfolding check_transfer
  checked writer h = ground arith

  pub bound :
      (sent : Result (Unit {0})) (writer : Writer)
      → (sent >>= (λ done. check_transfer writer)) ≡ ok tt
      → (sent ≡ ok tt) × (writer.fragment_index ≡ 16)
  bound (ok done) writer h = (refl, checked writer h)
  bound (err e) writer h = cc

  conclude_transfer-Carries :
      (link : Link) (client : Client) (writer : Writer) (before sent : Bytes)
      → Carries before sent writer
      → (conclude_transfer transport client (link, writer, ok tt)).2 ≡ ok tt
      → Represents
          (conclude_transfer transport client (link, writer, ok tt)).1.transcript
          (before ++ sent)
        × (720 < length sent)
        × (length sent ≤ 768)
  unfolding conclude_transfer
  conclude_transfer-Carries link client writer before sent c done =
      elim (Bool-cases (length writer.pending == 0)) [
        | inl empty ↦
            let total = checked writer (rw empty at done) in
            rw empty (
              c.transcript,
              omega (arith, total, c.filling.counted),
              omega (arith, total, c.filling.counted, (==_iff _ 0).0 empty),
            )
        | inr partial ↦
            let flushed = flush_ciphertext_fragment transport link client writer in
            let (sent', last) = bound flushed.2 flushed.1 (rw partial at done) in
            let (acked, few) = flush_ok transport link client writer sent' in
            let total : writer.fragment_index ≡ 15 =
              omega (arith, few, last, ap (λ w. w.fragment_index) acked) in
            let held : 0 < length writer.pending = ground arith in
            rw partial (
              subst (λ w. Represents w.transcript (before ++ sent)) (sym acked) c.transcript,
              omega (arith, total, c.filling.counted, held),
              omega (arith, total, c.filling.counted, c.filling.short),
            )
      ]

  pub conclude_sent :
      (client : Client) (run : Link × Writer × Result (Unit {0}))
      → (conclude_transfer transport client run).2 ≡ ok tt
      → run ≡ (run.0, run.1, ok tt)
  unfolding conclude_transfer
  conclude_sent client (link, writer, ok done) h = refl
  conclude_sent client (link, writer, err e) h = cc

  module _ (link : Link) (client : Client) (writer : Writer) (before : Bytes)
      (chunks : List Bytes) where
    abbrev run : Link × Writer × Result (Unit {0})
    run = write_chunks transport link client writer chunks

    pub transfer-Carries :
        Carries before [] writer
        → (conclude_transfer transport client run).2 ≡ ok tt
        → Represents (conclude_transfer transport client run).1.transcript (before ++ joined chunks)
          × (720 < length (joined chunks))
          × (length (joined chunks) ≤ 768)
    transfer-Carries c done =
        let whole = conclude_sent client run done in
        subst
          (λ w.
            Represents (conclude_transfer transport client w).1.transcript (before ++ joined chunks)
            × (720 < length (joined chunks))
            × (length (joined chunks) ≤ 768))
          (sym whole)
          (conclude_transfer-Carries run.0 client run.1 before (joined chunks)
            (write_chunks-Carries link client writer before [] chunks c (ap (λ t. t.2) whole))
            (ap (λ w. (conclude_transfer transport client w).2) (sym whole) ∙ done))
