-- ===== src/Wire.antt =====
-- src/session/crypto.c, the big-endian stores and loads that every frame and journal record uses.
pub mod RoundTrip
use c0_pqlink_complete.Prelude.{
  ℕ, zero, suc, List, [], ◌∷◌, Bytes, bit_or, u8, u16, u32, u64, ◌<<<◌, ◌>>>◌,
}
use c0_pqlink_complete.Prelude.Arrays.{byte_at, slice}

unfoldable pub store16_be : ℕ → Bytes
store16_be value = u8 (value >>> 8) ∷ u8 value ∷ []

unfoldable pub store32_be : ℕ → Bytes
store32_be value = u8 (value >>> 24) ∷ u8 (value >>> 16) ∷ u8 (value >>> 8) ∷ u8 value ∷ []

-- The loop of `c0pq_store64_be` fills the array from its last byte down: `stored` holds the bytes
-- behind the next one.
pub store64_loop : ℕ → ℕ → Bytes → Bytes
store64_loop zero value stored = stored
store64_loop (suc rounds) value stored = store64_loop rounds (value >>> 8) (u8 value ∷ stored)

unfoldable pub store64_be : ℕ → Bytes
unfolding store64_loop
store64_be value = store64_loop 8 value []

unfoldable pub load16_be : Bytes → ℕ
load16_be input = bit_or (u16 (byte_at input 0 <<< 8)) (byte_at input 1)

unfoldable pub load32_be : Bytes → ℕ
load32_be input =
    bit_or
      (bit_or (bit_or (u32 (byte_at input 0 <<< 24)) (u32 (byte_at input 1 <<< 16)))
        (u32 (byte_at input 2 <<< 8)))
      (byte_at input 3)

-- The loop of `c0pq_load64_be` over the bytes left.
pub load64_loop : Bytes → ℕ → ℕ
load64_loop [] value = value
load64_loop (byte ∷ input) value = load64_loop input (bit_or (u64 (value <<< 8)) byte)

unfoldable pub load64_be : Bytes → ℕ
unfolding load64_loop
load64_be input = load64_loop (slice 0 8 input) 0
