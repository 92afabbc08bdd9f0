-- ===== src/Session/Handshake/Transfer.antt =====
-- The ciphertext writer: fragments of 48 bytes, in order, whatever the pieces it is given.
pub mod Fuel
pub mod Sending
use c0_pqlink_complete.Prelude.{
  ℕ, zero, suc, ◌+◌, ◌-◌, ◌*◌, ◌<◌, ◌≤◌, ◌≡◌, refl, ap, ap₂, subst, sym, ◌∙◌, Bytes, List, [], ◌∷◌,
  ◌++◌, true, false, not, ◌||◌, u8, ltb, ◌==◌, arith, length, take, drop, ==_iff, min,
  length-append, length-take, length-drop, Bool-cases, inl, inr,
}
use c0_pqlink_complete.Common.{Result, ok, err, Error, Result-cases, err_ok, choose_ok, choose_err}
use c0_pqlink_complete.Sha256.{Sha256Ctx, sha256_update}
use c0_pqlink_complete.Session.Client.{Client}
use c0_pqlink_complete.Session.Fragment.{Transport, send_and_receive}
use c0_pqlink_complete.Session.Handshake.{
  Writer, check_ack, acknowledged, fill_pending, conclude_flush, flush_ciphertext_fragment,
  write_loop, write_ciphertext, write_chunks,
}

-- The writer has taken `n` bytes: whole fragments, acknowledged, and less than one pending.
pub record IsFilling (writer : Writer) (n : ℕ) : Type 0 where
  pub counted : 48 * writer.fragment_index + length writer.pending ≡ n
  pub short : length writer.pending < 48
  pub few : writer.fragment_index ≤ 16
  pub sound : writer.failure ≡ ok tt

abbrev stored : Writer → Result (Unit {0}) → Writer
stored writer result = record writer { failure = result }

module _ (transport : Transport) where
  open transport use {Link}

  conclude_flush_ok :
      (writer : Writer) (reply : Link × Bytes × Result (Unit {0}))
      → (conclude_flush transport writer reply).2 ≡ ok tt
      → (conclude_flush transport writer reply).1 ≡ acknowledged writer
  unfolding conclude_flush
  conclude_flush_ok writer (link, frame, err e) h = cc
  conclude_flush_ok writer (link, frame, ok done) h = elim (Result-cases (check_ack writer frame)) [
    | inl (passed, e) ↦ ground arith
    | inr (code, e) ↦ ground arith
  ]

  -- A flush that succeeds had a fragment to send and room for it, and leaves the acknowledged
  -- writer.
  pub flush_ok :
      (link : Link) (client : Client) (writer : Writer)
      → (flush_ciphertext_fragment transport link client writer).2 ≡ ok tt
      → ((flush_ciphertext_fragment transport link client writer).1 ≡ acknowledged writer)
        × (writer.fragment_index < 16)
  unfolding flush_ciphertext_fragment
  flush_ok link client writer h =
      elim (Bool-cases (length writer.pending == 0 || not (ltb writer.fragment_index 16))) [
        | inl refused ↦ ground arith
        | inr sent ↦ (rw sent (conclude_flush_ok writer _ (rw sent at h)), ground arith)
      ]

  -- What a successful run of the writer over `size` bytes changes.
  pub record Advances (before : Writer) (size : ℕ) (after : Writer) : Type 0 where
    pub moved : (n : ℕ) → IsFilling before n → IsFilling after (n + size)
    pub same_transcript : after.transcript ≡ before.transcript

  advance_none : (writer : Writer) → Advances writer 0 writer
  advance_none writer = record {
    moved = λ n filling. record {
      counted = omega (arith, filling.counted);
      short = filling.short;
      few = filling.few;
      sound = filling.sound;
    };
    same_transcript = refl;
  }

  advance_both :
      {a b c : Writer} (size i j : ℕ)
      → size ≡ i + j
      → Advances a i b
      → Advances b j c
      → Advances a size c
  advance_both {c = c} size i j split first second = record {
    moved = λ n filling.
        subst (IsFilling c) (omega (arith, split)) (second.moved (n + i) (first.moved n filling));
    same_transcript = second.same_transcript ∙ first.same_transcript;
  }

  length-filled :
      (writer : Writer) (bytes : Bytes)
      → length (fill_pending writer bytes).pending
        ≡ length writer.pending + min (48 - length writer.pending) (length bytes)
  length-filled writer bytes =
      length-append writer.pending (take (48 - length writer.pending) bytes)
      ∙ ap (◌+◌ (length writer.pending)) (length-take (48 - length writer.pending) bytes)

  -- Data that leaves room in the pending fragment.
  advance_room :
      (writer : Writer) (bytes : Bytes)
      → length bytes < 48 - length writer.pending
      → Advances writer (length bytes) (fill_pending writer bytes)
  advance_room writer bytes room = record {
    moved = λ n filling. record {
      counted = omega (arith, filling.counted, length-filled writer bytes);
      short = omega (arith, length-filled writer bytes);
      few = filling.few;
      sound = filling.sound;
    };
    same_transcript = refl;
  }

  -- Data that fills it, after the acknowledgement.
  advance_full :
      (writer : Writer) (bytes : Bytes)
      → 48 - length writer.pending ≤ length bytes
      → writer.fragment_index < 16
      → Advances writer
          (48 - length writer.pending)
          (record (acknowledged (fill_pending writer bytes)) { failure = ok tt })
  advance_full writer bytes full few = record {
    moved = λ n filling. record {
      counted = omega (arith, filling.counted, filling.short, few);
      short = omega arith;
      few = omega (arith, few);
      sound = refl;
    };
    same_transcript = refl;
  }

  module _ (fuel : ℕ) (link : Link) (client : Client) (writer : Writer) (x : ℕ) (xs : Bytes) where
    abbrev filled : Writer
    filled = fill_pending writer (x ∷ xs)

    abbrev rest : Bytes
    rest = drop (48 - length writer.pending) (x ∷ xs)

    abbrev flushed : Link × Writer × Result (Unit {0})
    flushed = flush_ciphertext_fragment transport link client filled

    abbrev looped : Link × Writer × Result (Unit {0})
    looped = write_loop transport (suc fuel) link client writer (x ∷ xs)

    loop_room :
        (length filled.pending == 48) ≡ false
        → looped ≡ write_loop transport fuel link client filled rest
    unfolding write_loop
    loop_room room =
        let used : (suc (length xs) == 0) ≡ false = ground arith in rw (used, room) refl

    loop_stop :
        (e : Error)
        → (length filled.pending == 48) ≡ true
        → flushed.2 ≡ err e
        → looped ≡ (flushed.0, record flushed.1 { failure = flushed.2 }, err e)
    unfolding write_loop
    loop_stop e full failed =
        let used : (suc (length xs) == 0) ≡ false = ground arith in
        rw (used, full) (choose_err flushed.2 _ _ failed)

    loop_full :
        (length filled.pending == 48) ≡ true
        → flushed.2 ≡ ok tt
        → looped
          ≡ write_loop transport fuel flushed.0 client
              (record flushed.1 { failure = flushed.2 })
              rest
    unfolding write_loop
    loop_full full sent =
        let used : (suc (length xs) == 0) ≡ false = ground arith in
        rw (used, full) (choose_ok flushed.2 _ _ sent)

  -- The fuel of the loop is the length of its data or more.
  pub write_loop-Advances :
      (fuel : ℕ) (link : Link) (client : Client) (writer : Writer) (bytes : Bytes)
      → length bytes ≤ fuel
      → length writer.pending < 48
      → (write_loop transport fuel link client writer bytes).2 ≡ ok tt
      → Advances writer (length bytes) (write_loop transport fuel link client writer bytes).1
  write_loop-Advances zero link client writer [] h short done =
      unfold write_loop in advance_none writer
  write_loop-Advances zero link client writer (x ∷ xs) h short done = absurd (omega arith)
  write_loop-Advances (suc fuel) link client writer [] h short done =
      unfold write_loop in advance_none writer
  write_loop-Advances (suc fuel) link client writer (x ∷ xs) h short done =
      let kept = record (flushed fuel link client writer x xs).1 {
        failure = (flushed fuel link client writer x xs).2;
      } in
      let enough : length (rest fuel link client writer x xs) ≤ fuel =
        omega (arith, h, short, length-drop (48 - length writer.pending) (x ∷ xs)) in
      elim (Bool-cases (length (filled fuel link client writer x xs).pending == 48)) [
        | inl full ↦ elim (Result-cases (flushed fuel link client writer x xs).2) [
          | inl (done', sent) ↦
              let acked = flush_ok link client (filled fuel link client writer x xs) sent in
              let step =
                subst (Advances writer (48 - length writer.pending)) (sym (ap₂ stored acked.0 sent))
                  (advance_full writer (x ∷ xs)
                    (omega (arith, short, (==_iff _ 48).0 full, length-filled writer (x ∷ xs)))
                    acked.1) in
              let next =
                write_loop-Advances fuel (flushed fuel link client writer x xs).0 client kept
                  (rest fuel link client writer x xs) enough
                  (omega (arith, ap (λ w. length w.pending) acked.0))
                  (ap (λ t. t.2) (sym (loop_full fuel link client writer x xs full sent)) ∙ done) in
              rw (loop_full fuel link client writer x xs full sent) (
                advance_both (suc (length xs)) _ _
                  (omega (
                    arith,
                    short,
                    (==_iff _ 48).0 full,
                    length-drop (48 - length writer.pending) (x ∷ xs),
                    length-filled writer (x ∷ xs),
                  ))
                  step next)
          | inr (e, failed) ↦ absurd (
              err_ok e
                (ap (λ t. t.2) (sym (loop_stop fuel link client writer x xs e full failed)) ∙ done))
        ]
        | inr room ↦ rw (loop_room fuel link client writer x xs room) (
            advance_both (suc (length xs)) _ _
              (ground (
                arith,
                short,
                length-drop (48 - length writer.pending) (x ∷ xs),
                length-filled writer (x ∷ xs),
              ))
              (advance_room writer (x ∷ xs) (ground (arith, short, length-filled writer (x ∷ xs))))
              (write_loop-Advances fuel link client (filled fuel link client writer x xs)
                (rest fuel link client writer x xs) enough
                (ground (arith, short, length-filled writer (x ∷ xs)))
                (ap (λ t. t.2) (sym (loop_room fuel link client writer x xs room)) ∙ done)))
      ]
