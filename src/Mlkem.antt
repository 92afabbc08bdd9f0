-- ===== src/Mlkem.antt =====
-- src/core/mlkem512_stream.c: the arithmetic of coefficients. An `int16_t` or `int32_t` is its bit
-- pattern, a number below 2 ^ 16 or 2 ^ 32, and stands for that number less 2 ^ 16 or 2 ^ 32 from the
-- half on. The multiplication is the portable one, without the instructions for AVR.
pub mod Range
pub mod Compress
pub mod Pack
pub mod Multiply
pub mod Montgomery
pub mod Product
pub mod Barrett
pub mod Transform
pub mod Sample
pub mod Encapsulate
mod Tests
use c0_pqlink_complete.Prelude.Arrays.{byte_at}
use c0_pqlink_complete.Prelude.{
  Bytes, List, [], ◌∷◌, bit_or, ℕ, ◌+◌, ◌-◌, ◌*◌, ◌/◌, ◌%◌, ◌^◌, bit_and, u8, u16, u32, u64, ◌<<<◌,
  ◌>>>◌,
}

unfoldable pub multiply_u8_fixed : ℕ → ℕ → ℕ
multiply_u8_fixed a b = u16 (a * b)

unfoldable pub multiply_u16_fixed : ℕ → ℕ → ℕ
multiply_u16_fixed a b =
    let p00 = multiply_u8_fixed (u8 a) (u8 b) in
    let p01 = multiply_u8_fixed (u8 a) (u8 (b >>> 8)) in
    let p10 = multiply_u8_fixed (u8 (a >>> 8)) (u8 b) in
    let p11 = multiply_u8_fixed (u8 (a >>> 8)) (u8 (b >>> 8)) in
    u32 (p00 + u32 (p01 <<< 8) + u32 (p10 <<< 8) + u32 (p11 <<< 16))

-- `(UINT32_C(0) - bit) & word`, for a bit.
abbrev pub mask_of : ℕ → ℕ → ℕ
mask_of bit word = bit_and (u32 (2 ^ 32 - bit)) word

unfoldable pub multiply_s16_constant_schedule : ℕ → ℕ → ℕ
multiply_s16_constant_schedule ua ub =
    let a_correction = mask_of (ua >>> 15) (u32 (ub <<< 16)) in
    let b_correction = mask_of (ub >>> 15) (u32 (ua <<< 16)) in
    u32 (u32 (multiply_u16_fixed ua ub + (2 ^ 32 - a_correction)) + (2 ^ 32 - b_correction))

-- `(int16_t)((value - product) >> 16)`: the upper half.
unfoldable pub montgomery_reduce : ℕ → ℕ
montgomery_reduce value =
    let factor = u16 (u16 value * 62209) in
    let product = multiply_s16_constant_schedule factor 3329 in
    u16 (u32 (value + (2 ^ 32 - product)) >>> 16)

-- `(int16_t)(value >> shift)` of an `int32_t`, for shifts from 16 on: the sign fills the upper bits.
abbrev pub shift_right : ℕ → ℕ → ℕ
shift_right value shift = u16 ((value >>> shift) + (value >>> 31) * (2 ^ 32 - 2 ^ (32 - shift)))

-- The multiplier (2 ^ 26 + 3329 / 2) / 3329 is 20159.
unfoldable pub barrett_reduce : ℕ → ℕ
barrett_reduce value =
    let v = ((1 <<< 26) + 3329 / 2) / 3329 in
    let quotient = shift_right (u32 (multiply_s16_constant_schedule v value + (1 <<< 25))) 26 in
    u16 (value + (2 ^ 16 - u16 (multiply_s16_constant_schedule quotient 3329)))

unfoldable pub fqmul : ℕ → ℕ → ℕ
fqmul a b = montgomery_reduce (multiply_s16_constant_schedule a b)

-- `reduced >> 15` is a mask of sign bits.
unfoldable pub freeze_coefficient : ℕ → ℕ
freeze_coefficient value =
    let reduced = barrett_reduce value in
    u16 (reduced + bit_and (u16 (2 ^ 16 - (reduced >>> 15))) 3329)

-- The scaling of a coefficient in the canonical range.
unfoldable pub scale10 : ℕ → ℕ
scale10 value = bit_and (u64 (u64 ((value <<< 10) + 1665) * 1290167) >>> 32) 0x3ff

unfoldable pub compress10 : ℕ → ℕ
compress10 coefficient = scale10 (freeze_coefficient coefficient)

unfoldable pub scale4 : ℕ → ℕ
scale4 value = bit_and (u32 (u32 ((value <<< 4) + 1665) * 80635) >>> 28) 0x0f

unfoldable pub compress4 : ℕ → ℕ
compress4 coefficient = scale4 (freeze_coefficient coefficient)

-- The five bytes of four values of 10 bits.
unfoldable pub pack10 : ℕ → ℕ → ℕ → ℕ → Bytes
pack10 t0 t1 t2 t3 =
    u8 t0
    ∷ u8 (bit_or (t0 >>> 8) (t1 <<< 2))
    ∷ u8 (bit_or (t1 >>> 6) (t2 <<< 4))
    ∷ u8 (bit_or (t2 >>> 4) (t3 <<< 6))
    ∷ u8 (t3 >>> 2)
    ∷ []

-- What write_compressed_u hands to the writer, in order, for a polynomial whose length is a
-- multiple of 4. A writer that fails ends the loop.
unfoldable pub compressed_u : List ℕ → List Bytes
compressed_u (c0 ∷ (c1 ∷ (c2 ∷ (c3 ∷ polynomial)))) =
    pack10 (compress10 c0) (compress10 c1) (compress10 c2) (compress10 c3) ∷ compressed_u polynomial
compressed_u _ = []

-- `(0 - bit) & 1665` for the bit number `i` of the message.
unfoldable pub message_term : Bytes → ℕ → ℕ
message_term message i =
    let message_bit = bit_and (byte_at message (i >>> 3) >>> bit_and i 7) 1 in
    bit_and (u16 (2 ^ 16 - message_bit)) 1665

-- What write_compressed_v hands to the writer from the coefficient number `i` on.
unfoldable pub compressed_v : ℕ → List ℕ → Bytes → List Bytes
compressed_v i (c0 ∷ (c1 ∷ polynomial)) message =
    let low = compress4 (u16 (c0 + message_term message i)) in
    let high = compress4 (u16 (c1 + message_term message (i + 1))) in
    (u8 (bit_or low (u8 (high <<< 4))) ∷ []) ∷ compressed_v (i + 2) polynomial message
compressed_v i _ message = []
