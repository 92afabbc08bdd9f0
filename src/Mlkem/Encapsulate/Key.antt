-- ===== src/Mlkem/Encapsulate/Key.antt =====
-- The public key: its hash, its check, and the secrets that come from it.
use c0_pqlink_complete.Prelude.{
  ℕ, zero, suc, ◌+◌, ◌*◌, ◌<◌, ◌≤◌, ◌≡◌, ◌⊎◌, inl, inr, refl, ap, ap₂, sym, ◌∙◌, Bytes, [], ◌∷◌,
  ◌++◌, true, false, map, take, drop, length, arith, Bool-cases, ==_iff, ◌==◌,
}
use c0_pqlink_complete.Prelude.Arrays.{byte_at, slice, take_all, take-append, drop-append}
use c0_pqlink_complete.Prelude.Loops.{each, count_from}
use c0_pqlink_complete.Common.{ok, err, err_key_encoding, choose_ok, choose_err}
use c0_pqlink_complete.Keccak.{
  KeccakCtx, sha3_256_init, sha3_512_init, keccak_absorb, keccak_squeeze, sha3_256, sha3_512,
}
use c0_pqlink_complete.Keccak.Pieces.{
  absorb_nothing, absorb-append, absorb-mode, squeeze-add, length-squeeze,
}
use c0_pqlink_complete.Mlkem.Encapsulate.{
  hash_public_key, is_reduced, check_triples, validate_and_hash_public_key, derive_k_and_coins,
}

pub drop-byte : (xs : Bytes) (i : ℕ) → i < length xs → drop i xs ≡ byte_at xs i ∷ drop (suc i) xs
drop-byte [] i h = absurd (omega arith)
drop-byte (x ∷ xs) zero h = refl
drop-byte (x ∷ xs) (suc i) h = drop-byte xs i (omega arith)

-- Bytes read by their offsets.
pub read-slice :
    (xs : Bytes) (count start : ℕ)
    → start + count ≤ length xs
    → map (λ i. byte_at xs i) (count_from start count) ≡ slice start count xs
unfolding count_from
read-slice xs zero start h = refl
read-slice xs (suc count) start h =
    let next : suc start ≡ start + 1 = omega arith in
    ap (◌∷◌ (byte_at xs start)) (read-slice xs count (start + 1) (omega arith))
    ∙ ap (take (suc count))
        (sym (drop-byte xs start (omega arith) ∙ ap (λ n. byte_at xs start ∷ drop n xs) next))

read_moved :
    (xs : Bytes) (base count start : ℕ)
    → map (λ i. byte_at xs (base + i)) (count_from start count)
      ≡ map (λ i. byte_at xs i) (count_from (base + start) count)
unfolding count_from
read_moved xs base zero start = refl
read_moved xs base (suc count) start =
    let same : base + (start + 1) ≡ base + start + 1 = omega arith in
    ap (◌∷◌ (byte_at xs (base + start))) (
      read_moved xs base count (start + 1)
      ∙ ap (λ n. map (λ i. byte_at xs i) (count_from n count)) same)

absorb_each :
    (xs : Bytes) (count start : ℕ) (ctx : KeccakCtx)
    → ctx.squeezing ≡ 0
    → each (count_from start count) ctx (λ c i. keccak_absorb c (byte_at xs i ∷ []))
      ≡ keccak_absorb ctx (map (λ i. byte_at xs i) (count_from start count))
unfolding count_from
absorb_each xs zero start ctx mode = sym (absorb_nothing ctx mode)
absorb_each xs (suc count) start ctx mode =
    absorb_each xs count (start + 1) (keccak_absorb ctx (byte_at xs start ∷ []))
      (absorb-mode ctx (byte_at xs start ∷ []) mode)
    ∙ sym (
        absorb-append ctx (byte_at xs start ∷ [])
          (map (λ i. byte_at xs i) (count_from (start + 1) count)) mode)

-- The hash of the streamed key is SHA3-256 of the key.
pub hash-sha3 :
    (public_key : Bytes)
    → length public_key ≡ 800
    → hash_public_key public_key ≡ sha3_256 public_key
unfolding hash_public_key sha3_256
hash-sha3 public_key sized =
    ap (λ (c : KeccakCtx). (keccak_squeeze c 32).1)
      (absorb_each public_key 800 0 sha3_256_init refl
        ∙ ap (keccak_absorb sha3_256_init) (
            read-slice public_key 800 0 (omega (arith, sized))
            ∙ take_all public_key 800 (omega (arith, sized))))

-- The seed of the matrix is the end of the key.
abbrev pub seed_of : Bytes → Bytes
seed_of public_key = slice 768 32 public_key

check_outcome :
    (public_key : Bytes) (count start : ℕ)
    → ((check_triples (map (λ i. 3 * i) (count_from start count)) public_key ≡ ok tt)
        × ((i : ℕ) → start ≤ i → i < start + count → is_reduced public_key (3 * i) ≡ true))
      ⊎ ((check_triples (map (λ i. 3 * i) (count_from start count)) public_key
            ≡ err err_key_encoding)
          × (i : ℕ) × (start ≤ i)
          × (i < start + count)
          × (is_reduced public_key (3 * i) ≡ false))
unfolding check_triples count_from
check_outcome public_key zero start = inl (refl, λ i low high. absurd (omega arith))
check_outcome public_key (suc count) start = elim (Bool-cases (is_reduced public_key (3 * start))) [
  | inl good ↦ elim (check_outcome public_key count (start + 1)) [
    | inl (passed, all) ↦ inl (
      rw good passed,
      λ i low high. elim (Bool-cases (i == start)) [
        | inl e ↦ ap (λ n. is_reduced public_key (3 * n)) ((==_iff i start).0 e) ∙ good
        | inr ne ↦ all i (ground arith) (omega arith)
      ],
    )
    | inr (refused, i, low, high, bad) ↦ inr (rw good refused, i, omega arith, omega arith, bad)
  ]
  | inr bad ↦ inr (rw bad refl, start, omega arith, omega arith, bad)
]

-- Every coefficient of the key is below 3329.
abbrev pub IsReduced : Bytes → Type 0
IsReduced public_key = (i : ℕ) → i < 256 → is_reduced public_key (3 * i) ≡ true

-- For a key of 800 bytes: either all its coefficients are below 3329 and the result is its SHA3-256
-- hash and its last 32 bytes, or one is not and the result is C0PQLINK_ERR_KEY_ENCODING.
pub validate-outcomes :
    (public_key : Bytes)
    → length public_key ≡ 800
    → (IsReduced public_key
        × (validate_and_hash_public_key public_key ≡ ok (sha3_256 public_key, seed_of public_key)))
      ⊎ (((i : ℕ) × (i < 256) × (is_reduced public_key (3 * i) ≡ false))
          × (validate_and_hash_public_key public_key ≡ err err_key_encoding))
unfolding validate_and_hash_public_key
validate-outcomes public_key sized = elim (check_outcome public_key 256 0) [
  | inl (passed, all) ↦ inl (
    λ i high. all i (omega arith) (omega arith),
    choose_ok (check_triples (map (λ i. 3 * i) (count_from 0 256)) public_key) _ _ passed
        ∙ ap₂ (λ a b. ok (a, b)) (hash-sha3 public_key sized)
            (read_moved public_key 768 32 0 ∙ read-slice public_key 32 768 (omega (arith, sized))),
  )
  | inr (refused, i, low, high, bad) ↦ inr (
    (i, omega arith, bad),
    choose_err (check_triples (map (λ i. 3 * i) (count_from 0 256)) public_key) _ _ refused,
  )
]

-- The shared secret and the coins are the halves of SHA3-512 of the randomness and the hash.
pub derive-sha3 :
    (randomness public_key_hash : Bytes)
    → derive_k_and_coins randomness public_key_hash ≡ (
      take 32 (sha3_512 (randomness ++ public_key_hash)),
      drop 32 (sha3_512 (randomness ++ public_key_hash)),
    )
unfolding derive_k_and_coins sha3_512
derive-sha3 randomness public_key_hash =
    let start = absorb-mode sha3_512_init randomness refl in
    let ctx = keccak_absorb (keccak_absorb sha3_512_init randomness) public_key_hash in
    let mode = absorb-mode (keccak_absorb sha3_512_init randomness) public_key_hash start in
    let first = (keccak_squeeze ctx 32).1 in
    let second = (keccak_squeeze (keccak_squeeze ctx 32).0 32).1 in
    let whole : sha3_512 (randomness ++ public_key_hash) ≡ first ++ second =
      ap (λ (c : KeccakCtx). (keccak_squeeze c 64).1)
        (absorb-append sha3_512_init randomness public_key_hash refl)
      ∙ squeeze-add ctx 32 32 64 mode refl in
    ap₂ (λ a b. (a, b))
      (sym (ap (take 32) whole ∙ take-append first second 32 (length-squeeze ctx 32)))
      (sym (ap (drop 32) whole ∙ drop-append first second 32 (length-squeeze ctx 32)))
