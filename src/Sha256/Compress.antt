-- ===== src/Sha256/Compress.antt =====
-- src/core/sha256.c, one block: the round constants and `sha256_transform`.
use c0_pqlink_complete.Prelude.{
  ℕ, zero, suc, ◌+◌, ◌-◌, ◌%◌, ◌^◌, Bytes, List, [], ◌∷◌, ◌++◌, bit_and, bit_or, bit_xor, u32,
  ◌<<<◌, ◌>>>◌, ltb, if◌then◌else◌, get_or, set,
}
use c0_pqlink_complete.Prelude.Arrays.{slice}
use c0_pqlink_complete.Wire.{load32_be, store32_be}

abbrev pub round_constants : List ℕ
round_constants =
    0x428a2f98 ∷ 0x71374491 ∷ 0xb5c0fbcf ∷ 0xe9b5dba5 ∷ 0x3956c25b ∷ 0x59f111f1 ∷ 0x923f82a4
    ∷ 0xab1c5ed5 ∷ 0xd807aa98 ∷ 0x12835b01 ∷ 0x243185be ∷ 0x550c7dc3 ∷ 0x72be5d74 ∷ 0x80deb1fe
    ∷ 0x9bdc06a7 ∷ 0xc19bf174 ∷ 0xe49b69c1 ∷ 0xefbe4786 ∷ 0x0fc19dc6 ∷ 0x240ca1cc ∷ 0x2de92c6f
    ∷ 0x4a7484aa ∷ 0x5cb0a9dc ∷ 0x76f988da ∷ 0x983e5152 ∷ 0xa831c66d ∷ 0xb00327c8 ∷ 0xbf597fc7
    ∷ 0xc6e00bf3 ∷ 0xd5a79147 ∷ 0x06ca6351 ∷ 0x14292967 ∷ 0x27b70a85 ∷ 0x2e1b2138 ∷ 0x4d2c6dfc
    ∷ 0x53380d13 ∷ 0x650a7354 ∷ 0x766a0abb ∷ 0x81c2c92e ∷ 0x92722c85 ∷ 0xa2bfe8a1 ∷ 0xa81a664b
    ∷ 0xc24b8b70 ∷ 0xc76c51a3 ∷ 0xd192e819 ∷ 0xd6990624 ∷ 0xf40e3585 ∷ 0x106aa070 ∷ 0x19a4c116
    ∷ 0x1e376c08 ∷ 0x2748774c ∷ 0x34b0bcb5 ∷ 0x391c0cb3 ∷ 0x4ed8aa4a ∷ 0x5b9cca4f ∷ 0x682e6ff3
    ∷ 0x748f82ee ∷ 0x78a5636f ∷ 0x84c87814 ∷ 0x8cc70208 ∷ 0x90befffa ∷ 0xa4506ceb ∷ 0xbef9a3f7
    ∷ 0xc67178f2 ∷ []

-- `uint32_t state[8]`, and the working variables `a` to `h` of a block.
pub record Registers : Type 0 where
  pub a : ℕ
  pub b : ℕ
  pub c : ℕ
  pub d : ℕ
  pub e : ℕ
  pub f : ℕ
  pub g : ℕ
  pub h : ℕ

unfoldable pub rotate_right32 : ℕ → ℕ → ℕ
rotate_right32 value count = bit_or (value >>> count) (u32 (value <<< (32 - count)))

-- `~x` on 32 bits.
abbrev not32 : ℕ → ℕ
not32 x = 2 ^ 32 - 1 - x

-- `schedule[round] = load32_be(block + 4 * round)` for the rounds left.
load_schedule : ℕ → Bytes → List ℕ
load_schedule zero block = []
load_schedule (suc rounds) block =
    load32_be block ∷ load_schedule rounds (slice 4 (rounds + rounds + rounds + rounds) block)

-- The update of `schedule[round & 15]`, from round 16 on.
extend_schedule : List ℕ → ℕ → List ℕ
unfolding rotate_right32
extend_schedule schedule round =
    let x = get_or schedule ((round - 15) % 16) 0 in
    let y = get_or schedule ((round - 2) % 16) 0 in
    let sigma0 = bit_xor (bit_xor (rotate_right32 x 7) (rotate_right32 x 18)) (x >>> 3) in
    let sigma1 = bit_xor (bit_xor (rotate_right32 y 17) (rotate_right32 y 19)) (y >>> 10) in
    set schedule (round % 16) (
      u32 (get_or schedule (round % 16) 0 + sigma0 + get_or schedule ((round - 7) % 16) 0 + sigma1))

-- One round of the working variables with its message word.
compress_round : Registers → ℕ → ℕ → Registers
unfolding rotate_right32
compress_round r constant word =
    let sum1 =
      bit_xor (bit_xor (rotate_right32 r.e 6) (rotate_right32 r.e 11)) (rotate_right32 r.e 25) in
    let choice = bit_xor (bit_and r.e r.f) (bit_and (not32 r.e) r.g) in
    let temp1 = u32 (r.h + sum1 + choice + constant + word) in
    let sum0 =
      bit_xor (bit_xor (rotate_right32 r.a 2) (rotate_right32 r.a 13)) (rotate_right32 r.a 22) in
    let majority = bit_xor (bit_xor (bit_and r.a r.b) (bit_and r.a r.c)) (bit_and r.b r.c) in
    let temp2 = u32 (sum0 + majority) in
    record {
      a = u32 (temp1 + temp2);
      b = r.a;
      c = r.b;
      d = r.c;
      e = u32 (r.d + temp1);
      f = r.e;
      g = r.f;
      h = r.g;
    }

-- The round loop from `round` on, over the constants left.
compress_rounds : List ℕ → ℕ → List ℕ → Registers → Registers
unfolding extend_schedule compress_round
compress_rounds [] round schedule r = r
compress_rounds (constant ∷ constants) round schedule r =
    let schedule' = if ltb round 16 then schedule else extend_schedule schedule round in
    compress_rounds constants (round + 1) schedule'
      (compress_round r constant (get_or schedule' (round % 16) 0))

unfoldable pub sha256_transform : Registers → Bytes → Registers
unfolding load_schedule compress_rounds load32_be
sha256_transform state block =
    let r = compress_rounds round_constants 0 (load_schedule 16 block) state in
    record {
      a = u32 (state.a + r.a);
      b = u32 (state.b + r.b);
      c = u32 (state.c + r.c);
      d = u32 (state.d + r.d);
      e = u32 (state.e + r.e);
      f = u32 (state.f + r.f);
      g = u32 (state.g + r.g);
      h = u32 (state.h + r.h);
    }

-- The eight big-endian stores of a digest.
unfoldable pub store_digest : Registers → Bytes
unfolding store32_be
store_digest r =
    store32_be r.a
    ++ (store32_be r.b
        ++ (store32_be r.c
            ++ (store32_be r.d
                ++ (store32_be r.e ++ (store32_be r.f ++ (store32_be r.g ++ store32_be r.h))))))
