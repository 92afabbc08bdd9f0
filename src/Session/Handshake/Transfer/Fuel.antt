-- ===== src/Session/Handshake/Transfer/Fuel.antt =====
-- The loop of `write_ciphertext` ends: each pass takes data, so the length of the data is fuel enough.
use c0_pqlink_complete.Prelude.{
  ℕ, zero, suc, ◌-◌, ◌<◌, ◌≤◌, ◌≡◌, refl, ap, sym, ◌∙◌, Bytes, [], ◌∷◌, ◌==◌, arith, length, drop,
  length-drop, Bool-cases, inl, inr,
}
use c0_pqlink_complete.Common.{Result-cases}
use c0_pqlink_complete.Session.Client.{Client}
use c0_pqlink_complete.Session.Fragment.{Transport}
use c0_pqlink_complete.Session.Handshake.{Writer, write_loop}
use c0_pqlink_complete.Session.Handshake.Transfer.{
  filled, flushed, loop_room, loop_stop, loop_full, length-filled, flush_ok,
}

module _ (transport : Transport) where
  open transport use {Link}

  any_fuel :
      (m n : ℕ) (link : Link) (client : Client) (writer : Writer) (bytes : Bytes)
      → length bytes ≤ m
      → length bytes ≤ n
      → length writer.pending < 48
      → write_loop transport m link client writer bytes
        ≡ write_loop transport n link client writer bytes
  any_fuel zero zero link client writer bytes p q short = refl
  any_fuel zero (suc n) link client writer [] p q short = unfold write_loop in refl
  any_fuel (suc m) zero link client writer [] p q short = unfold write_loop in refl
  any_fuel (suc m) (suc n) link client writer [] p q short = unfold write_loop in refl
  any_fuel zero (suc n) link client writer (x ∷ xs) p q short = absurd (omega arith)
  any_fuel (suc m) zero link client writer (x ∷ xs) p q short = absurd (omega arith)
  any_fuel (suc m) (suc n) link client writer (x ∷ xs) p q short =
      let left = drop (48 - length writer.pending) (x ∷ xs) in
      let less = length-drop (48 - length writer.pending) (x ∷ xs) in
      let sent = flushed transport m link client writer x xs in
      let fill = filled transport m link client writer x xs in
      elim (Bool-cases (length fill.pending == 48)) [
        | inl full ↦ elim (Result-cases sent.2) [
          | inl (done, passed) ↦
              let (acked, few) = flush_ok transport link client fill passed in
              loop_full transport m link client writer x xs full passed
              ∙ any_fuel m n sent.0 client (record sent.1 { failure = sent.2 }) left
                  (omega (arith, p, short, less)) (omega (arith, q, short, less))
                  (omega (arith, ap (λ w. length w.pending) acked))
              ∙ sym (loop_full transport n link client writer x xs full passed)
          | inr (e, failed) ↦
              loop_stop transport m link client writer x xs e full failed
              ∙ sym (loop_stop transport n link client writer x xs e full failed)
        ]
        | inr room ↦
            loop_room transport m link client writer x xs room
            ∙ any_fuel m n link client fill left (omega (arith, p, short, less))
                (omega (arith, q, short, less))
                (ground (arith, short, length-filled transport writer (x ∷ xs)))
            ∙ sym (loop_room transport n link client writer x xs room)
      ]

  -- For a pending fragment that is not full, the loop over the data gives the same with any fuel
  -- from the length of the data on: the fuel never ends it.
  pub write_loop_enough :
      (fuel : ℕ) (link : Link) (client : Client) (writer : Writer) (bytes : Bytes)
      → length bytes ≤ fuel
      → length writer.pending < 48
      → write_loop transport fuel link client writer bytes
        ≡ write_loop transport (length bytes) link client writer bytes
  write_loop_enough fuel link client writer bytes enough short =
      any_fuel fuel (length bytes) link client writer bytes enough (omega arith) short
