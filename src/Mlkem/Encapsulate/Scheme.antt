-- ===== src/Mlkem/Encapsulate/Scheme.antt =====
-- The encapsulation against the scheme over whole polynomials: ML-KEM.Encaps and K-PKE.Encrypt of
-- FIPS 203, with the code's own transforms, products, noise and roundings.
use c0_pqlink_complete.Prelude.{
  ℕ, ◌+◌, ◌*◌, ◌<◌, ◌≤◌, ◌≡◌, refl, ap, sym, ◌∙◌, Bytes, List, ◌++◌, some, true, false, length,
  take, drop, replicate, arith, inl, inr,
}
use c0_pqlink_complete.Prelude.Arrays.{slice}
use c0_pqlink_complete.Prelude.Loops.{count_from}
use c0_pqlink_complete.Common.{ok}
use c0_pqlink_complete.Keccak.{sha3_256, sha3_512}
use c0_pqlink_complete.Mlkem.{compressed_u, compressed_v}
use c0_pqlink_complete.Mlkem.Sample.Stream.{twelves}
use c0_pqlink_complete.Mlkem.Sample.Matrix.{multiply_entries, entries, matrix_product_add_lem}
use c0_pqlink_complete.Mlkem.Encapsulate.{
  noise_transform, finish_row, row_u, key_column, dot_v, encapsulate_valid, encapsulate_derand,
}
use c0_pqlink_complete.Mlkem.Encapsulate.Key.{IsReduced, validate-outcomes, derive-sha3, seed_of}
use c0_pqlink_complete.Mlkem.Encapsulate.Columns.{key_column_lem}

-- The product of two rows of polynomials, of which the second is the transformed noise.
unfoldable pub inner_product : List ℕ → List ℕ → Bytes → List ℕ
inner_product a0 a1 coins =
    multiply_entries (count_from 0 64) a1 (noise_transform coins 1)
      (multiply_entries (count_from 0 64) a0 (noise_transform coins 0) (replicate 256 0))

-- The ciphertext for a public key, a message and coins: two rows with the entries of the matrix, of
-- which each is the residues in the first `3 * triples` bytes of its stream, and v with the key.
encrypt : ℕ → Bytes → Bytes → Bytes → List Bytes
encrypt triples public_key message coins =
    let row = λ (i : ℕ). finish_row coins (2 + i) (
      inner_product (entries triples (seed_of public_key) i 0)
        (entries triples (seed_of public_key) i 1) coins) in
    let v = finish_row coins 4 (
      inner_product (twelves (slice 0 384 public_key)) (twelves (slice 384 384 public_key))
        coins) in
    compressed_u (row 0) ++ (compressed_u (row 1) ++ compressed_v 0 v message)

row_u_lem :
    (fuel triples row : ℕ) (coins rho : Bytes)
    → 2 * triples ≤ fuel
    → ((column : ℕ) → column < 2 → 256 ≤ length (entries triples rho row column))
    → row_u fuel coins rho row
      ≡ some (
          finish_row coins
            (2 + row)
            (inner_product (entries triples rho row 0) (entries triples rho row 1) coins))
unfolding row_u inner_product
row_u_lem fuel triples row coins rho enough sized =
    rw
      (
        matrix_product_add_lem fuel triples row 0 rho (noise_transform coins 0) (replicate 256 0)
            enough (sized 0 (omega arith)),
        matrix_product_add_lem fuel triples row 1 rho (noise_transform coins 1)
            (multiply_entries (count_from 0 64) (entries triples rho row 0)
              (noise_transform coins 0) (replicate 256 0))
            enough (sized 1 (omega arith)),
      )
      refl

dot_v_lem :
    (public_key coins : Bytes)
    → length public_key ≡ 800
    → dot_v public_key coins
      ≡ finish_row coins 4 (
          inner_product
            (twelves (slice 0 384 public_key))
            (twelves (slice 384 384 public_key))
            coins)
unfolding dot_v inner_product count_from
dot_v_lem public_key coins sized = ap (finish_row coins 4) (
    key_column_lem public_key coins (key_column public_key coins (replicate 256 0) 0) 1
      (omega (arith, sized))
    ∙ ap
        (multiply_entries (count_from 0 64) (twelves (slice 384 384 public_key))
          (noise_transform coins 1))
        (key_column_lem public_key coins (replicate 256 0) 0 (omega (arith, sized))))

-- For a key of 800 bytes whose coefficients are below 3329, and with fuel for as many values of the
-- four streams of the matrix as hold 256 residues each, the run ends. Its ciphertext is the one of
-- the scheme over whole polynomials, with the code's own steps, under the coins that are the second half of SHA3-512 of the
-- randomness and the SHA3-256 hash of the key; its secret is the first half.
encapsulate_derand-encrypt :
    (fuel triples : ℕ) (public_key randomness : Bytes)
    → length public_key ≡ 800
    → IsReduced public_key
    → 2 * triples ≤ fuel
    → ((row column : ℕ)
        → row < 2
        → column < 2
        → 256 ≤ length (entries triples (seed_of public_key) row column))
    → encapsulate_derand fuel public_key randomness
      ≡ some (
          ok (
            encrypt triples public_key randomness
                (drop 32 (sha3_512 (randomness ++ sha3_256 public_key))),
            take 32 (sha3_512 (randomness ++ sha3_256 public_key)),
          ))
unfolding encapsulate_derand encapsulate_valid encrypt
encapsulate_derand-encrypt fuel triples public_key randomness sized reduced enough streams =
    elim (validate-outcomes public_key sized) [
      | inr ((i, small, bad), refused) ↦
          absurd (let clash : true ≡ false = sym (reduced i small) ∙ bad in ground arith)
      | inl (again, accepted) ↦
          let coins = drop 32 (sha3_512 (randomness ++ sha3_256 public_key)) in
          let row0 =
            row_u_lem fuel triples 0 coins (seed_of public_key) enough
              (λ c. streams 0 c (omega arith)) in
          let row1 =
            row_u_lem fuel triples 1 coins (seed_of public_key) enough
              (λ c. streams 1 c (omega arith)) in
          rw
            (
              accepted,
              derive-sha3 randomness (sha3_256 public_key),
              row0,
              row1,
              dot_v_lem public_key coins sized,
            )
            refl
    ]
