-- ===== src/Ascon/Lanes.antt =====
-- The byte loops of src/core/ascon_aead128.c: little-endian loads and stores of part of a lane.
pub mod Laws
use c0_pqlink_complete.Prelude.{
  not64, ℕ, zero, suc, ◌+◌, ◌-◌, ◌*◌, ◌^◌, Bytes, [], ◌∷◌, bit_and, bit_or, u8, u64, ◌<<<◌, ◌>>>◌,
  take,
}

unfoldable pub rotate_right64 : ℕ → ℕ → ℕ
rotate_right64 value count = bit_or (value >>> count) (u64 (value <<< (64 - count)))

-- The loop from byte number `i` on; the array is cut to its length.
pub load_loop : Bytes → ℕ → ℕ → ℕ
load_loop [] i value = value
load_loop (byte ∷ bytes) i value = load_loop bytes (i + 1) (bit_or value (u64 (byte <<< (8 * i))))

unfoldable pub load_little_endian : Bytes → ℕ → ℕ
unfolding load_loop
load_little_endian bytes length = load_loop (take length bytes) 0 0

-- The loop with `left` bytes to write, from byte number `i` on.
pub store_loop : ℕ → ℕ → ℕ → Bytes
store_loop zero i value = []
store_loop (suc left) i value = u8 (value >>> (8 * i)) ∷ store_loop left (i + 1) value

unfoldable pub store_little_endian : ℕ → ℕ → Bytes
unfolding store_loop
store_little_endian value length = store_loop length 0 value

pub clear_loop : ℕ → ℕ → ℕ → ℕ
clear_loop zero i value = value
clear_loop (suc left) i value =
    clear_loop left (i + 1) (bit_and value (not64 (u64 (0xff <<< (8 * i)))))

unfoldable pub clear_low_bytes : ℕ → ℕ → ℕ
unfolding clear_loop
clear_low_bytes value length = clear_loop length 0 value
