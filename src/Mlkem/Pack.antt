-- ===== src/Mlkem/Pack.antt =====
-- The packed coefficients of the ciphertext, as a reader of ML-KEM unpacks them.
use c0_pqlink_complete.Prelude.{
  ◌++◌, ℕ, zero, suc, ◌+◌, ◌*◌, ◌/◌, ◌%◌, ◌^◌, ◌<◌, ◌≡◌, refl, ap, ap₂, ◌∙◌, Bytes, List, [], ◌∷◌,
  bit_or, ◌<<<◌, ◌>>>◌, arith, map, length,
}
use c0_pqlink_complete.Prelude.Bits.{bit_or-fields, bit_or_comm}
use c0_pqlink_complete.Mlkem.{pack10, compress10, compressed_u}
use c0_pqlink_complete.Mlkem.Compress.{canonical, nearest, compress-nearest}

-- The four values of five bytes.
abbrev pub unpack10 : Bytes → List ℕ
unpack10 (b0 ∷ (b1 ∷ (b2 ∷ (b3 ∷ (b4 ∷ rest))))) =
    (b0 + 256 * (b1 % 4))
    ∷ (b1 / 4 + 64 * (b2 % 16))
    ∷ (b2 / 16 + 16 * (b3 % 64))
    ∷ (b3 / 64 + 4 * b4)
    ∷ []
unpack10 _ = []

either_or : (k low high : ℕ) → low < 2 ^ k → bit_or low (high <<< k) ≡ high * 2 ^ k + low
either_or k low high h = bit_or_comm low (high * 2 ^ k) ∙ bit_or-fields k high low h

four :
    {a b c d a' b' c' d' : ℕ}
    → a ≡ a'
    → b ≡ b'
    → c ≡ c'
    → d ≡ d'
    → (a ∷ b ∷ c ∷ d ∷ []) ≡ (a' ∷ b' ∷ c' ∷ d' ∷ [])
four p q r s = ap₂ ◌∷◌ p (ap₂ ◌∷◌ q (ap₂ ◌∷◌ r (ap (λ x. x ∷ []) s)))

unpack-pack10 :
    (t0 t1 t2 t3 : ℕ)
    → t0 < 1024
    → t1 < 1024
    → t2 < 1024
    → t3 < 1024
    → unpack10 (pack10 t0 t1 t2 t3) ≡ t0 ∷ t1 ∷ t2 ∷ t3 ∷ []
unfolding pack10
unpack-pack10 t0 t1 t2 t3 h0 h1 h2 h3 =
    let e1 = either_or 2 (t0 >>> 8) t1 (omega arith) in
    let e2 = either_or 4 (t1 >>> 6) t2 (omega arith) in
    let e3 = either_or 6 (t2 >>> 4) t3 (omega arith) in
    four (omega (arith, e1)) (omega (arith, e1, e2)) (omega (arith, e2, e3)) (omega (arith, e3))

abbrev pub IsPolynomial : List ℕ → Type 0
IsPolynomial [] = Unit {0}
IsPolynomial (word ∷ words) = (word < 2 ^ 16) × IsPolynomial words

-- A reader of the chunks.
abbrev pub unpacked : List Bytes → List ℕ
unpacked [] = []
unpacked (chunk ∷ chunks) = unpack10 chunk ++ unpacked chunks

compress10_lt : (word : ℕ) → word < 2 ^ 16 → compress10 word < 1024
compress10_lt word h = omega (arith, (compress-nearest word h).1)

-- The chunks of write_compressed_u, unpacked ten bits at a time, are the coefficients of the
-- polynomial, each compressed to the nearest of 1024 steps, for a polynomial of 16-bit coefficients
-- whose length is a multiple of 4.
pub unpacked-compressed_u :
    (count : ℕ) (polynomial : List ℕ)
    → length polynomial ≡ 4 * count
    → IsPolynomial polynomial
    → unpacked (compressed_u polynomial) ≡ map (λ word. nearest 10 (canonical word)) polynomial
unfolding compressed_u
unpacked-compressed_u count [] sized words = refl
unpacked-compressed_u count (a ∷ []) sized words = absurd (omega arith)
unpacked-compressed_u count (a ∷ (b ∷ [])) sized words = absurd (omega arith)
unpacked-compressed_u count (a ∷ (b ∷ (c ∷ []))) sized words = absurd (omega arith)
unpacked-compressed_u zero (a ∷ (b ∷ (c ∷ (d ∷ rest)))) sized words = absurd (omega arith)
unpacked-compressed_u (suc count) (a ∷ (b ∷ (c ∷ (d ∷ rest)))) sized (wa, (wb, (wc, (wd, words)))) =
    ap₂ ◌++◌
      (unpack-pack10 _ _ _ _ (compress10_lt a wa) (compress10_lt b wb) (compress10_lt c wc)
          (compress10_lt d wd)
        ∙ four (compress-nearest a wa).1 (compress-nearest b wb).1 (compress-nearest c wc).1
            (compress-nearest d wd).1)
      (unpacked-compressed_u count rest (omega arith) words)
