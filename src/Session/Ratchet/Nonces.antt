-- ===== src/Session/Ratchet/Nonces.antt =====
-- Record nonces: one for each sequence number.
use c0_pqlink_complete.Prelude.{
  ℕ, ◌^◌, ◌<◌, ◌≡◌, refl, ap, ap₂, ◌∙◌, sym, Bytes, [], ◌∷◌, bit_xor, take, drop, length,
  length-take, length-drop, arith, append-nil,
}
use c0_pqlink_complete.Prelude.Arrays.{slice, drop-append}
use c0_pqlink_complete.Prelude.Bits.{bit_xor-cancel, bit_xor_comm}
use c0_pqlink_complete.Wire.{store64_be, load64_be}
use c0_pqlink_complete.Wire.RoundTrip.{length-store64, load64-store64}
use c0_pqlink_complete.Session.Ratchet.{xor_bytes, make_record_nonce}

xor_bytes-cancel : (xs ys : Bytes) → length xs ≡ length ys → xor_bytes (xor_bytes xs ys) xs ≡ ys
xor_bytes-cancel [] [] e = refl
xor_bytes-cancel [] (y ∷ ys) e = absurd (omega arith)
xor_bytes-cancel (x ∷ xs) [] e = absurd (omega arith)
xor_bytes-cancel (x ∷ xs) (y ∷ ys) e =
    ap₂ ◌∷◌ (ap (λ (t : ℕ). bit_xor t x) (bit_xor_comm x y) ∙ bit_xor-cancel y x)
      (xor_bytes-cancel xs ys (omega arith))

-- The sequence number can be read back from a nonce and its base.
nonce-sequence :
    (base : Bytes) (sequence : ℕ)
    → length base ≡ 16
    → sequence < 2 ^ 64
    → load64_be (xor_bytes (drop 8 (make_record_nonce base sequence)) (slice 8 8 base)) ≡ sequence
unfolding make_record_nonce
nonce-sequence base sequence l h =
    ap (λ t. load64_be (xor_bytes t (slice 8 8 base)))
      (drop-append (take 8 base) (xor_bytes (slice 8 8 base) (store64_be sequence)) 8
        (omega (arith, length-take 8 base)))
    ∙ ap load64_be (
        xor_bytes-cancel (slice 8 8 base) (store64_be sequence)
          (omega (arith, length-take 8 (drop 8 base), length-drop 8 base, length-store64 sequence)))
    ∙ ap load64_be (sym (append-nil (store64_be sequence)))
    ∙ load64-store64 sequence [] h

-- Under one 16-byte base, two records have one nonce only if they have one sequence number.
pub record_nonce-injective :
    (base : Bytes) (m n : ℕ)
    → length base ≡ 16
    → m < 2 ^ 64
    → n < 2 ^ 64
    → make_record_nonce base m ≡ make_record_nonce base n
    → m ≡ n
record_nonce-injective base m n l p q e =
    sym (nonce-sequence base m l p)
    ∙ ap (λ t. load64_be (xor_bytes (drop 8 t) (slice 8 8 base))) e
    ∙ nonce-sequence base n l q
