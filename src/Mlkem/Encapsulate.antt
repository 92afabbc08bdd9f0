-- ===== src/Mlkem/Encapsulate.antt =====
-- src/core/mlkem512_stream.c: c0_mlkem512_encapsulate_derand. The public key is the array that
-- `read_public_key` reads; the ciphertext is the list of the arrays that the writer is given.
pub mod Key
pub mod Output
pub mod Columns
pub mod Scheme
mod Tests
use c0_pqlink_complete.Prelude.{
  ℕ, zero, suc, ◌+◌, ◌-◌, ◌*◌, ◌/◌, Bytes, List, [], ◌∷◌, ◌++◌, Option, none, some, Bool, true,
  false, ◌&&◌, not, ltb, if◌then◌else◌, map, replicate, length,
}
use c0_pqlink_complete.Prelude.Arrays.{byte_at, slice}
use c0_pqlink_complete.Prelude.Loops.{each, count_from}
use c0_pqlink_complete.Common.{Result, ok, err, err_key_encoding}
use c0_pqlink_complete.Keccak.{
  KeccakCtx, sha3_256_init, sha3_512_init, keccak_absorb, keccak_squeeze,
}
use c0_pqlink_complete.Mlkem.{barrett_reduce, compressed_u, compressed_v}
use c0_pqlink_complete.Mlkem.Transform.{
  add16, load_zeta, coefficient, ntt, inverse_ntt, multiply_block,
}
use c0_pqlink_complete.Mlkem.Sample.{◌>>=◌, first12, second12, sample_cbd, matrix_product_add}

-- The first loop, byte by byte.
unfoldable pub hash_public_key : Bytes → Bytes
hash_public_key public_key =
    (keccak_squeeze
      (each (count_from 0 800) sha3_256_init
        (λ ctx offset. keccak_absorb ctx (byte_at public_key offset ∷ [])))
      32).1

-- The test of the three bytes at an offset.
abbrev pub is_reduced : Bytes → ℕ → Bool
is_reduced public_key offset =
    ltb (first12 (byte_at public_key offset) (byte_at public_key (offset + 1))) 3329
    && ltb (second12 (byte_at public_key (offset + 1)) (byte_at public_key (offset + 2))) 3329

-- The second loop, over the offsets left.
unfoldable pub check_triples : List ℕ → Bytes → Result (Unit {0})
check_triples [] public_key = ok tt
check_triples (offset ∷ offsets) public_key =
    let rest = check_triples offsets public_key in
    if not (is_reduced public_key offset) then err err_key_encoding else rest

-- The hash of the public key and its seed `rho`.
unfoldable pub validate_and_hash_public_key : Bytes → Result (Bytes × Bytes)
validate_and_hash_public_key public_key =
    elim (check_triples (map (λ i. 3 * i) (count_from 0 256)) public_key) [
      | err e ↦ err e
      | ok passed ↦
          ok (hash_public_key public_key, map (λ i. byte_at public_key (768 + i)) (count_from 0 32))
    ]

-- The shared secret and the coins.
unfoldable pub derive_k_and_coins : Bytes → Bytes → Bytes × Bytes
derive_k_and_coins randomness public_key_hash =
    let ctx = keccak_absorb (keccak_absorb sha3_512_init randomness) public_key_hash in
    let (ctx', shared_secret) = keccak_squeeze ctx 32 in (shared_secret, (keccak_squeeze ctx' 32).1)

-- The noise polynomial number `column` of the vector, transformed.
abbrev pub noise_transform : Bytes → ℕ → List ℕ
noise_transform coins column = ntt (sample_cbd coins column 3)

-- A sum of two polynomials, coefficient by coefficient.
unfoldable pub add_polynomials : List ℕ → List ℕ → List ℕ
add_polynomials a b = map (λ i. add16 (coefficient a i) (coefficient b i)) (count_from 0 256)

-- The accumulator, reduced and transformed back, with the noise number `nonce`.
abbrev pub finish_row : Bytes → ℕ → List ℕ → List ℕ
finish_row coins nonce accumulator =
    add_polynomials (inverse_ntt (map barrett_reduce accumulator)) (sample_cbd coins nonce 2)

-- One row of u.
unfoldable pub row_u : ℕ → Bytes → Bytes → ℕ → Option (List ℕ)
row_u fuel coins rho row =
    matrix_product_add fuel (replicate 256 0) (noise_transform coins 0) rho row 0 >>= λ half.
    matrix_product_add fuel half (noise_transform coins 1) rho row 1 >>= λ accumulator.
    some (finish_row coins (2 + row) accumulator)

-- The product of one block of the public key, and the loop over the blocks of a column.
unfoldable pub key_block : Bytes → ℕ → List ℕ → List ℕ → ℕ → List ℕ
key_block public_key column vector accumulator block =
    let base = column * 384 + block * 6 in
    let b0 = byte_at public_key base in
    let b1 = byte_at public_key (base + 1) in
    let b2 = byte_at public_key (base + 2) in
    let b3 = byte_at public_key (base + 3) in
    let b4 = byte_at public_key (base + 4) in
    let b5 = byte_at public_key (base + 5) in
    multiply_block block (load_zeta (64 + block)) (first12 b0 b1) (second12 b1 b2) (first12 b3 b4)
      (second12 b4 b5) vector accumulator

unfoldable pub key_column : Bytes → Bytes → List ℕ → ℕ → List ℕ
key_column public_key coins accumulator column =
    each (count_from 0 64) accumulator (key_block public_key column (noise_transform coins column))

-- v before the message is added.
unfoldable pub dot_v : Bytes → Bytes → List ℕ
dot_v public_key coins =
    finish_row coins 4 (each (count_from 0 2) (replicate 256 0) (key_column public_key coins))

-- For a key that is accepted.
unfoldable pub encapsulate_valid : ℕ → Bytes → Bytes → Bytes → Bytes → Option (List Bytes × Bytes)
encapsulate_valid fuel public_key randomness public_key_hash rho =
    let (shared_secret, coins) = derive_k_and_coins randomness public_key_hash in
    row_u fuel coins rho 0 >>= λ u0. row_u fuel coins rho 1 >>= λ u1. some (
      compressed_u u0 ++ (compressed_u u1 ++ compressed_v 0 (dot_v public_key coins) randomness),
      shared_secret,
    )

-- The end of the run, from the check of the key on.
abbrev pub after_check :
    ℕ → Bytes → Bytes → Result (Bytes × Bytes) → Option (Result (List Bytes × Bytes))
after_check fuel public_key randomness (err e) = some (err e)
after_check fuel public_key randomness (ok (public_key_hash, rho)) =
    encapsulate_valid fuel public_key randomness public_key_hash rho >>= λ done. some (ok done)

-- `none` where a draw for the matrix takes more than `fuel` passes.
unfoldable pub encapsulate_derand : ℕ → Bytes → Bytes → Option (Result (List Bytes × Bytes))
encapsulate_derand fuel public_key randomness =
    after_check fuel public_key randomness (validate_and_hash_public_key public_key)
