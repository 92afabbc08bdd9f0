-- ===== src/Mlkem/Multiply.antt =====
-- src/core/mlkem512_stream.c: the multiplications without branches, and the numbers that their
-- words stand for.
use c0_pqlink_complete.Prelude.{
  ℕ, ◌+◌, ◌-◌, ◌*◌, ◌^◌, ◌<◌, ◌≤◌, ◌≡◌, refl, ap, ap₂, ◌∙◌, u8, u32, ◌<<<◌, ◌>>>◌, arith,
}
use native.Mathlib.Nat.{mul-le-mul}
use Prim.Native.Nat.{bit_and-bitwise}
use c0_pqlink_complete.Prelude.Masks.{bit_and-mask, bit_and_comm}
use c0_pqlink_complete.Mlkem.{
  mask_of, multiply_u8_fixed, multiply_u16_fixed, multiply_s16_constant_schedule,
}

-- A product of two bytes.
byte_product-le : (a b : ℕ) → a < 256 → b < 256 → a * b ≤ 255 * 255
byte_product-le a b h g = mul-le-mul {n₂ = 255} {m₂ = 255} (omega arith) (omega arith)

small_product : (a b : ℕ) → a < 256 → b < 256 → multiply_u8_fixed a b ≡ a * b
unfolding multiply_u8_fixed
small_product a b h g = omega (arith, byte_product-le a b h g)

parts :
    (a0 a1 b0 b1 p00 p01 p10 p11 : ℕ)
    → a0 < 256
    → a1 < 256
    → b0 < 256
    → b1 < 256
    → p00 ≡ a0 * b0
    → p01 ≡ a0 * b1
    → p10 ≡ a1 * b0
    → p11 ≡ a1 * b1
    → u32 (p00 + u32 (p01 <<< 8) + u32 (p10 <<< 8) + u32 (p11 <<< 16))
      ≡ (256 * a1 + a0) * (256 * b1 + b0)
parts a0 a1 b0 b1 p00 p01 p10 p11 ha0 ha1 hb0 hb1 e00 e01 e10 e11 = omega (
  arith,
  byte_product-le a0 b0 ha0 hb0,
  byte_product-le a0 b1 ha0 hb1,
  byte_product-le a1 b0 ha1 hb0,
  byte_product-le a1 b1 ha1 hb1,
)

-- multiply_u16_fixed is the product.
pub u16_product : (a b : ℕ) → a < 2 ^ 16 → b < 2 ^ 16 → multiply_u16_fixed a b ≡ a * b
unfolding multiply_u16_fixed
u16_product a b h g =
    let split =
      parts (u8 a) (u8 (a >>> 8)) (u8 b) (u8 (b >>> 8)) _ _ _ _ (omega arith) (omega arith)
        (omega arith) (omega arith) (small_product (u8 a) (u8 b) (omega arith) (omega arith))
        (small_product (u8 a) (u8 (b >>> 8)) (omega arith) (omega arith))
        (small_product (u8 (a >>> 8)) (u8 b) (omega arith) (omega arith))
        (small_product (u8 (a >>> 8)) (u8 (b >>> 8)) (omega arith) (omega arith)) in
    let left : 256 * u8 (a >>> 8) + u8 a ≡ a = omega arith in
    let right : 256 * u8 (b >>> 8) + u8 b ≡ b = omega arith in split ∙ ap₂ ◌*◌ left right

-- A correction is nothing, or the word.
pub mask_none : (word : ℕ) → mask_of 0 word ≡ 0
mask_none word = bit_and-bitwise 0 word

pub mask_all : (word : ℕ) → word < 2 ^ 32 → mask_of 1 word ≡ word
mask_all word h = bit_and_comm (2 ^ 32 - 1) word ∙ bit_and-mask 32 word ∙ omega arith

-- The product with its corrections, from the signs of the factors.
corrected :
    (a b na nb ca cb : ℕ)
    → a < 2 ^ 16
    → b < 2 ^ 16
    → a >>> 15 ≡ na
    → b >>> 15 ≡ nb
    → mask_of na (u32 (b <<< 16)) ≡ ca
    → mask_of nb (u32 (a <<< 16)) ≡ cb
    → multiply_s16_constant_schedule a b ≡ u32 (u32 (a * b + (2 ^ 32 - ca)) + (2 ^ 32 - cb))
unfolding multiply_s16_constant_schedule
corrected a b na nb ca cb h g ea eb ma mb = rw (u16_product a b h g, ea, eb, ma, mb) refl

magnitude : (a b : ℕ) → a ≤ 2 ^ 15 → b ≤ 2 ^ 15 → a * b ≤ 2 ^ 30
magnitude a b h g = mul-le-mul {n₂ = 2 ^ 15} {m₂ = 2 ^ 15} h g

-- The signed products, for words that stand for `a` or `- a`, and for `b` or `- b`.
pub product_pos_pos :
    (a b : ℕ) → a < 2 ^ 15 → b < 2 ^ 15 → multiply_s16_constant_schedule a b ≡ a * b
product_pos_pos a b h g =
    corrected a b 0 0 0 0 (omega arith) (omega arith) (omega arith) (omega arith)
      (mask_none (u32 (b <<< 16))) (mask_none (u32 (a <<< 16)))
    ∙ omega (arith, magnitude a b (omega arith) (omega arith))

pub product_neg_pos :
    (a b : ℕ)
    → 0 < a
    → a ≤ 2 ^ 15
    → b < 2 ^ 15
    → multiply_s16_constant_schedule (2 ^ 16 - a) b ≡ u32 (2 ^ 32 - a * b)
product_neg_pos a b p h g =
    let c = 2 ^ 16 - a in
    let whole : (a + c) * b ≡ 2 ^ 16 * b = ap (λ (t : ℕ). t * b) (omega arith) in
    corrected c b 1 0 (u32 (b <<< 16)) 0 (omega arith) (omega arith) (omega arith) (omega arith)
      (mask_all (u32 (b <<< 16)) (omega arith)) (mask_none (u32 (c <<< 16)))
    ∙ omega (arith, magnitude a b (omega arith) (omega arith), whole)

pub product_pos_neg :
    (a b : ℕ)
    → a < 2 ^ 15
    → 0 < b
    → b ≤ 2 ^ 15
    → multiply_s16_constant_schedule a (2 ^ 16 - b) ≡ u32 (2 ^ 32 - a * b)
product_pos_neg a b h p g =
    let c = 2 ^ 16 - b in
    let whole : a * (b + c) ≡ a * 2 ^ 16 = ap (λ (t : ℕ). a * t) (omega arith) in
    corrected a c 0 1 0 (u32 (a <<< 16)) (omega arith) (omega arith) (omega arith) (omega arith)
      (mask_none (u32 (c <<< 16))) (mask_all (u32 (a <<< 16)) (omega arith))
    ∙ omega (arith, magnitude a b (omega arith) (omega arith), whole)

pub product_neg_neg :
    (a b : ℕ)
    → 0 < a
    → a ≤ 2 ^ 15
    → 0 < b
    → b ≤ 2 ^ 15
    → multiply_s16_constant_schedule (2 ^ 16 - a) (2 ^ 16 - b) ≡ a * b
product_neg_neg a b p h q g =
    let c = 2 ^ 16 - a in
    let d = 2 ^ 16 - b in
    let left : (a + c) * d ≡ 2 ^ 16 * d = ap (λ (t : ℕ). t * d) (omega arith) in
    let right : a * (b + d) ≡ a * 2 ^ 16 = ap (λ (t : ℕ). a * t) (omega arith) in
    corrected c d 1 1 (u32 (d <<< 16)) (u32 (c <<< 16)) (omega arith) (omega arith) (omega arith)
      (omega arith) (mask_all (u32 (d <<< 16)) (omega arith))
      (mask_all (u32 (c <<< 16)) (omega arith))
    ∙ omega (arith, magnitude a b h g, left, right)
