-- ===== src/Mlkem/Encapsulate/Output.antt =====
-- The outputs of an encapsulation, and their sizes.
use c0_pqlink_complete.Prelude.{
  ℕ, zero, suc, ◌+◌, ◌*◌, ◌<◌, ◌≡◌, ◌⊎◌, inl, inr, refl, ap, sym, ◌∙◌, Bytes, List, [], ◌∷◌, ◌++◌,
  false, Option, none, some, take, length, arith, joined, length-joined-append, length-map,
  Option-cases, replicate,
}
use c0_pqlink_complete.Prelude.Loops.{count_from, length-count_from}
use c0_pqlink_complete.Common.{ok, err, err_key_encoding}
use c0_pqlink_complete.Keccak.{sha3_256, sha3_512}
use c0_pqlink_complete.Mlkem.{compressed_u, compressed_v, pack10}
use c0_pqlink_complete.Mlkem.Sample.{◌>>=◌, matrix_product_add}
use c0_pqlink_complete.Mlkem.Encapsulate.{
  is_reduced, derive_k_and_coins, add_polynomials, finish_row, noise_transform, row_u, dot_v,
  encapsulate_valid, encapsulate_derand,
}
use c0_pqlink_complete.Mlkem.Encapsulate.Key.{IsReduced, validate-outcomes, derive-sha3, seed_of}

length-compressed_u :
    (count : ℕ) (polynomial : List ℕ)
    → length polynomial ≡ 4 * count
    → length (joined (compressed_u polynomial)) ≡ 5 * count
unfolding compressed_u pack10
length-compressed_u zero [] sized = refl
length-compressed_u (suc count) [] sized = absurd (omega arith)
length-compressed_u count (a ∷ []) sized = absurd (omega arith)
length-compressed_u count (a ∷ (b ∷ [])) sized = absurd (omega arith)
length-compressed_u count (a ∷ (b ∷ (c ∷ []))) sized = absurd (omega arith)
length-compressed_u zero (a ∷ (b ∷ (c ∷ (d ∷ rest)))) sized = absurd (omega arith)
length-compressed_u (suc count) (a ∷ (b ∷ (c ∷ (d ∷ rest)))) sized =
    omega (arith, length-compressed_u count rest (omega arith))

length-compressed_v :
    (count i : ℕ) (polynomial : List ℕ) (message : Bytes)
    → length polynomial ≡ 2 * count
    → length (joined (compressed_v i polynomial message)) ≡ count
unfolding compressed_v
length-compressed_v zero i [] message sized = refl
length-compressed_v (suc count) i [] message sized = absurd (omega arith)
length-compressed_v count i (a ∷ []) message sized = absurd (omega arith)
length-compressed_v zero i (a ∷ (b ∷ rest)) message sized = absurd (omega arith)
length-compressed_v (suc count) i (a ∷ (b ∷ rest)) message sized =
    omega (arith, length-compressed_v count (i + 2) rest message (omega arith))

length-add_polynomials : (a b : List ℕ) → length (add_polynomials a b) ≡ 256
unfolding add_polynomials
length-add_polynomials a b = length-map (count_from 0 256) _ ∙ length-count_from 0 256

-- A draw that succeeds, and then the rest.
bind_some :
    {A B : Type 0} (r : Option A) (rest : A → Option B) (b : B)
    → (r >>= rest) ≡ some b
    → (a : A) × (r ≡ some a) × (rest a ≡ some b)
bind_some none rest b h = cc
bind_some (some a) rest b h = (a, refl, h)

length-row_u :
    (fuel : ℕ) (coins rho : Bytes) (row : ℕ) (u : List ℕ)
    → row_u fuel coins rho row ≡ some u
    → length u ≡ 256
unfolding row_u
length-row_u fuel coins rho row u h =
    let (half, first, h') =
      bind_some (matrix_product_add fuel (replicate 256 0) (noise_transform coins 0) rho row 0) _ u
        h in
    let (accumulator, second, h'') =
      bind_some (matrix_product_add fuel half (noise_transform coins 1) rho row 1) _ u h' in
    let same : finish_row coins (2 + row) accumulator ≡ u = cc in
    ap length (sym same) ∙ length-add_polynomials _ _

length-dot_v : (public_key coins : Bytes) → length (dot_v public_key coins) ≡ 256
unfolding dot_v
length-dot_v public_key coins = length-add_polynomials _ _

-- The outputs for an accepted key.
pub record Encapsulated (randomness public_key_hash : Bytes) (output : List Bytes × Bytes)
    : Type 0 where
  pub sized : length (joined output.0) ≡ 768
  pub secret : output.1 ≡ take 32 (sha3_512 (randomness ++ public_key_hash))

valid-Encapsulated :
    (fuel : ℕ) (public_key randomness public_key_hash rho : Bytes) (output : List Bytes × Bytes)
    → encapsulate_valid fuel public_key randomness public_key_hash rho ≡ some output
    → Encapsulated randomness public_key_hash output
unfolding encapsulate_valid
valid-Encapsulated fuel public_key randomness public_key_hash rho output h =
    let coins = (derive_k_and_coins randomness public_key_hash).1 in
    let (u0, first, h') = bind_some (row_u fuel coins rho 0) _ output h in
    let (u1, second, h'') = bind_some (row_u fuel coins rho 1) _ output h' in
    let v = compressed_v 0 (dot_v public_key coins) randomness in
    let same : (
      compressed_u u0 ++ (compressed_u u1 ++ v),
      (derive_k_and_coins randomness public_key_hash).0,
    )
        ≡ output =
      cc in
    record {
      sized =
          ap (λ (o : List Bytes × Bytes). length (joined o.0)) (sym same)
          ∙ omega (
            arith,
            length-joined-append (compressed_u u0) (compressed_u u1 ++ v),
            length-joined-append (compressed_u u1) v,
            length-compressed_u 64 u0 (length-row_u fuel coins rho 0 u0 first),
            length-compressed_u 64 u1 (length-row_u fuel coins rho 1 u1 second),
            length-compressed_v 128 0 (dot_v public_key coins) randomness
                (length-dot_v public_key coins),
          );
      secret =
          ap (λ (o : List Bytes × Bytes). o.1) (sym same)
          ∙ ap (λ (o : Bytes × Bytes). o.0) (derive-sha3 randomness public_key_hash);
    }

-- How a run on a key of 800 bytes ends. A key with a coefficient of 3329 or more is refused with
-- C0PQLINK_ERR_KEY_ENCODING, before any ciphertext, with any fuel. For another key, the run takes
-- more draws than the fuel, or it gives 768 bytes of ciphertext, and as secret the first half of
-- SHA3-512 of the randomness and the SHA3-256 hash of the key.
pub encapsulate-outcomes :
    (fuel : ℕ) (public_key randomness : Bytes)
    → length public_key ≡ 800
    → (((i : ℕ) × (i < 256) × (is_reduced public_key (3 * i) ≡ false))
        × (encapsulate_derand fuel public_key randomness ≡ some (err err_key_encoding)))
      ⊎ (IsReduced public_key
          × ((encapsulate_derand fuel public_key randomness ≡ none)
              ⊎ ((output : List Bytes × Bytes) × (encapsulate_derand fuel public_key randomness
                    ≡ some (ok output))
                  × Encapsulated randomness (sha3_256 public_key) output)))
unfolding encapsulate_derand
encapsulate-outcomes fuel public_key randomness sized = elim (validate-outcomes public_key sized) [
  | inr (bad, refused) ↦ inl (bad, rw refused refl)
  | inl (reduced, accepted) ↦ inr (
    reduced,
    elim (Option-cases
        (encapsulate_valid fuel public_key randomness (sha3_256 public_key) (seed_of public_key))) [
          | inl long ↦ inl (rw (accepted, long) refl)
          | inr (output, done) ↦ inr (
            output,
            rw (accepted, done) refl,
            valid-Encapsulated fuel public_key randomness (sha3_256 public_key) (seed_of public_key)
                output done,
          )
        ],
  )
]
