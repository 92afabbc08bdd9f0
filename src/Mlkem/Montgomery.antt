-- ===== src/Mlkem/Montgomery.antt =====
-- The Montgomery reduction: a value of 32 bits times the inverse of 2 ^ 16, modulo 3329.
use c0_pqlink_complete.Prelude.{
  ℕ, ◌+◌, ◌-◌, ◌*◌, ◌/◌, ◌%◌, ◌^◌, ◌<◌, ◌≤◌, ◌≡◌, ◌⊎◌, inl, inr, ap, sym, ◌∙◌, u16, u32, ◌>>>◌,
  arith, ltb, Bool-cases,
}
use c0_pqlink_complete.Mlkem.{montgomery_reduce, multiply_s16_constant_schedule}
use c0_pqlink_complete.Mlkem.Multiply.{product_pos_pos, product_neg_pos}

-- The factor times 3329 has the low half of the value.
factor_lem : (v : ℕ) → u16 (u16 (u16 v * 62209) * 3329) ≡ u16 v
factor_lem v = omega arith

pub sign_cases : (t : ℕ) → (t < 2 ^ 15) ⊎ (2 ^ 15 ≤ t)
sign_cases t = elim (Bool-cases (ltb t (2 ^ 15))) [
  | inl small ↦ inl (ground arith)
  | inr large ↦ inr (ground arith)
]

-- The word for `y - bound`.
abbrev pub word32 : ℕ → ℕ
word32 y = u32 (y + (2 ^ 32 - 2 ^ 15 * 3329))

-- The word for a number between -3329 and 3329.
abbrev pub word16 : ℕ → ℕ
word16 r = u16 (r + (2 ^ 16 - 3329))

-- What a reduction gives for `y - 2 ^ 15 * 3329`.
pub record Reduced (y result : ℕ) : Type 0 where
  pub value : ℕ
  pub bound : value ≤ 2 * 3329
  pub word : result ≡ word16 value
  pub residue : 2 ^ 16 * value % 3329 ≡ y % 3329

reduce_factor :
    (y t : ℕ)
    → y < 2 ^ 16 * 3329
    → t < 2 ^ 16
    → u16 (t * 3329) ≡ u16 (word32 y)
    → Reduced y (u16 (u32 (word32 y + (2 ^ 32 - multiply_s16_constant_schedule t 3329)) >>> 16))
reduce_factor y t h g f = elim (sign_cases t) [
  | inl small ↦ record {
    value = (y + 3329 * (2 ^ 15 - t)) / 2 ^ 16;
    bound = omega arith;
    word = rw (product_pos_pos t 3329 small (omega arith)) (omega arith);
    residue = omega arith;
  }
  | inr large ↦
      let back : 2 ^ 16 - (2 ^ 16 - t) ≡ t = omega arith in
      let product : multiply_s16_constant_schedule t 3329 ≡ u32 (2 ^ 32 - (2 ^ 16 - t) * 3329) =
        ap (λ n. multiply_s16_constant_schedule n 3329) (sym back)
        ∙ product_neg_pos (2 ^ 16 - t) 3329 (omega arith) (omega arith) (omega arith) in
      record {
        value = (y + 3329 * 2 ^ 15 + 3329 * (2 ^ 16 - t)) / 2 ^ 16;
        bound = omega arith;
        word = rw product (omega arith);
        residue = omega arith;
      }
]

-- montgomery_reduce of `y - 2 ^ 15 * 3329`.
pub montgomery_reduce-Reduced :
    (y : ℕ) → y < 2 ^ 16 * 3329 → Reduced y (montgomery_reduce (word32 y))
unfolding montgomery_reduce
montgomery_reduce-Reduced y h =
    reduce_factor y (u16 (u16 (word32 y) * 62209)) h (omega arith) (factor_lem (word32 y))
