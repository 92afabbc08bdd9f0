-- ===== src/Mlkem/Sample.antt =====
-- src/core/mlkem512_stream.c: noise from SHAKE256, and uniform values from SHAKE128 by rejection.
pub mod Stream
pub mod Matrix
pub mod Uniform
use c0_pqlink_complete.Prelude.{
  ℕ, zero, suc, ◌+◌, ◌*◌, Bytes, List, [], ◌∷◌, ◌++◌, Option, none, some, true, false, bit_and,
  bit_or, u8, u32, ◌<<<◌, ◌>>>◌, ltb, ◌==◌, if◌then◌else◌, replicate, get_or,
}
use c0_pqlink_complete.Prelude.Arrays.{byte_at}
use c0_pqlink_complete.Prelude.Loops.{count_from}
use c0_pqlink_complete.Keccak.{
  KeccakCtx, shake128_init, shake256_init, keccak_absorb, keccak_finalize, keccak_squeeze,
}
use c0_pqlink_complete.Mlkem.Transform.{sub16, zetas, multiply_block}

-- A draw that may want more random values than the fuel of the model allows.
infixl 5 ◌>>=◌
abbrev pub ◌>>=◌ {ℓ κ} : {A : Type ℓ} {B : Type κ} → Option A → (A → Option B) → Option B
none >>= rest = none
some a >>= rest = rest a

unfoldable pub popcount2 : ℕ → ℕ
popcount2 value = u8 (bit_and value 1 + bit_and (value >>> 1) 1)

-- The coefficient of a nibble, for eta = 2.
unfoldable pub cbd2_coefficient : ℕ → ℕ → ℕ
cbd2_coefficient byte half =
    let nibble = u8 (byte >>> (4 * half)) in
    sub16 (popcount2 nibble) (popcount2 (u8 (nibble >>> 2)))

-- `passes` passes of the loop for eta = 2: a byte and two coefficients each.
unfoldable pub cbd2_loop : ℕ → KeccakCtx → List ℕ
cbd2_loop zero ctx = []
cbd2_loop (suc passes) ctx =
    let (ctx', bytes) = keccak_squeeze ctx 1 in
    let byte = byte_at bytes 0 in
    cbd2_coefficient byte 0 ∷ cbd2_coefficient byte 1 ∷ cbd2_loop passes ctx'

-- The sums of three bits each, for eta = 3.
unfoldable pub cbd3_sums : Bytes → ℕ
cbd3_sums bytes =
    let word = bit_or (bit_or (byte_at bytes 0) (byte_at bytes 1 <<< 8)) (byte_at bytes 2 <<< 16) in
    u32 (
      u32 (bit_and word 0x00249249 + bit_and (word >>> 1) 0x00249249)
      + bit_and (word >>> 2) 0x00249249)

unfoldable pub cbd3_coefficient : ℕ → ℕ → ℕ
cbd3_coefficient sums i = sub16 (bit_and (sums >>> (6 * i)) 7) (bit_and (sums >>> (6 * i + 3)) 7)

-- The loop for eta = 3: three bytes and four coefficients in each pass.
unfoldable pub cbd3_loop : ℕ → KeccakCtx → List ℕ
cbd3_loop zero ctx = []
cbd3_loop (suc passes) ctx =
    let (ctx', bytes) = keccak_squeeze ctx 3 in
    let sums = cbd3_sums bytes in
    cbd3_coefficient sums 0
    ∷ cbd3_coefficient sums 1
    ∷ cbd3_coefficient sums 2
    ∷ cbd3_coefficient sums 3
    ∷ cbd3_loop passes ctx'

-- 256 coefficients: 128 passes with two each, or 64 passes with four.
unfoldable pub sample_cbd : Bytes → ℕ → ℕ → List ℕ
sample_cbd seed nonce eta =
    let ctx = keccak_finalize (keccak_absorb shake256_init (seed ++ (nonce ∷ []))) in
    if eta == 2 then cbd2_loop 128 ctx else cbd3_loop 64 ctx

pub record SampleNttReader : Type 0 where
  pub ctx : KeccakCtx
  pub bytes : Bytes
  pub available : ℕ
  pub next : ℕ

unfoldable pub sample_ntt_reader_init : Bytes → ℕ → ℕ → SampleNttReader
sample_ntt_reader_init rho x y = record {
  ctx = keccak_finalize (keccak_absorb (keccak_absorb shake128_init rho) (x ∷ (y ∷ [])));
  bytes = replicate 3 0;
  available = 0;
  next = 0;
}

-- The two 12-bit values of three bytes.
abbrev pub first12 : ℕ → ℕ → ℕ
first12 b0 b1 = bit_or b0 (bit_and b1 0x0f <<< 8)

abbrev pub second12 : ℕ → ℕ → ℕ
second12 b1 b2 = bit_or (b1 >>> 4) (b2 <<< 4)

abbrev pub refill : SampleNttReader → SampleNttReader
refill reader =
    if reader.available == 0
    then (let (ctx', bytes') = keccak_squeeze reader.ctx 3 in
        record { ctx = ctx'; bytes = bytes'; available = 2; next = 0 })
    else reader

-- One pass of the loop in sample_ntt_next: the reader after it, and the value.
unfoldable pub draw : SampleNttReader → SampleNttReader × ℕ
draw reader =
    let filled = refill reader in
    if filled.next == 0
    then (record filled { next = 1 }, first12 (byte_at filled.bytes 0) (byte_at filled.bytes 1))
    else (
      record filled { available = 0 },
      second12 (byte_at filled.bytes 1) (byte_at filled.bytes 2),
    )

-- The loop has no bound; `none` stands for a run that is longer than the fuel.
unfoldable pub sample_ntt_next : ℕ → SampleNttReader → Option (SampleNttReader × ℕ)
sample_ntt_next zero reader = none
sample_ntt_next (suc fuel) reader = elim (ltb (draw reader).1 3329) [
  | true ↦ some (draw reader)
  | false ↦ sample_ntt_next fuel (draw reader).0
]

unfoldable pub matrix_loop : ℕ → List ℕ → List ℕ → SampleNttReader → List ℕ → Option (List ℕ)
matrix_loop fuel vector [] reader accumulator = some accumulator
matrix_loop fuel vector (block ∷ blocks) reader accumulator = sample_ntt_next fuel reader >>= λ r0.
    sample_ntt_next fuel r0.0 >>= λ r1. sample_ntt_next fuel r1.0 >>= λ r2.
    sample_ntt_next fuel r2.0 >>= λ r3.
    matrix_loop fuel vector blocks r3.0
      (multiply_block block (get_or zetas (64 + block) 0) r0.1 r1.1 r2.1 r3.1 vector accumulator)

-- The product of one entry of the matrix with a polynomial of the vector.
unfoldable pub matrix_product_add : ℕ → List ℕ → List ℕ → Bytes → ℕ → ℕ → Option (List ℕ)
matrix_product_add fuel accumulator vector rho x y =
    matrix_loop fuel vector (count_from 0 64) (sample_ntt_reader_init rho x y) accumulator
