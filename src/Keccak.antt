-- ===== src/Keccak.antt =====
-- src/core/keccak.c: the sponge of SHA-3 and SHAKE.
pub mod Permutation
pub mod Blocks
pub mod Pieces
mod Tests
use c0_pqlink_complete.Prelude.{
  ℕ, zero, suc, ◌+◌, ◌-◌, ◌*◌, ◌/◌, ◌%◌, ◌^◌, Bytes, List, [], ◌∷◌, ◌==◌, not, if◌then◌else◌, set,
  replicate, bit_xor, u8, u16, u64, ◌<<<◌, ◌>>>◌,
}
use c0_pqlink_complete.Keccak.Permutation.{lane_at, keccak_f1600}

pub record KeccakCtx : Type 0 where
  pub state : List ℕ
  pub rate : ℕ
  pub position : ℕ
  pub domain : ℕ
  pub squeezing : ℕ

abbrev pub keccak_init : ℕ → ℕ → KeccakCtx
keccak_init rate domain = record {
  state = replicate 25 0;
  rate = rate;
  position = 0;
  domain = domain;
  squeezing = 0;
}

abbrev pub sha3_256_init : KeccakCtx
sha3_256_init = keccak_init 136 0x06

abbrev pub sha3_512_init : KeccakCtx
sha3_512_init = keccak_init 72 0x06

abbrev pub shake128_init : KeccakCtx
shake128_init = keccak_init 168 0x1f

abbrev pub shake256_init : KeccakCtx
shake256_init = keccak_init 136 0x1f

-- `ctx->state[lane] ^= (uint64_t)value << shift` for the byte at `position`.
abbrev pub xor_byte : List ℕ → ℕ → ℕ → List ℕ
xor_byte state position value =
    let lane = position / 8 in
    set state lane (bit_xor (lane_at state lane) (u64 (value <<< (8 * (position % 8)))))

-- The end of a pass of the two loops: the next position, and the permutation at the rate.
unfoldable pub advance : KeccakCtx → KeccakCtx
advance ctx =
    let position' = u16 (ctx.position + 1) in
    if position' == ctx.rate
    then record ctx { state = keccak_f1600 ctx.state; position = 0 }
    else record ctx { position = position' }

abbrev pub absorb_byte : KeccakCtx → ℕ → KeccakCtx
absorb_byte ctx value = advance (record ctx { state = xor_byte ctx.state ctx.position value })

unfoldable pub absorb_bytes : KeccakCtx → Bytes → KeccakCtx
absorb_bytes ctx [] = ctx
absorb_bytes ctx (value ∷ input) = absorb_bytes (absorb_byte ctx value) input

unfoldable pub keccak_absorb : KeccakCtx → Bytes → KeccakCtx
keccak_absorb ctx input = if ctx.squeezing == 0 then absorb_bytes ctx input else ctx

unfoldable pub keccak_finalize : KeccakCtx → KeccakCtx
keccak_finalize ctx =
    if ctx.squeezing == 0
    then (let padded = xor_byte (xor_byte ctx.state ctx.position ctx.domain) (ctx.rate - 1) 0x80 in
        record ctx { state = keccak_f1600 padded; position = 0; squeezing = 1 })
    else ctx

unfoldable pub squeeze_bytes : ℕ → KeccakCtx → KeccakCtx × Bytes
squeeze_bytes zero ctx = (ctx, [])
squeeze_bytes (suc length) ctx =
    let value = u8 (lane_at ctx.state (ctx.position / 8) >>> (8 * (ctx.position % 8))) in
    let (ctx', output) = squeeze_bytes length (advance ctx) in (ctx', value ∷ output)

unfoldable pub keccak_squeeze : KeccakCtx → ℕ → KeccakCtx × Bytes
keccak_squeeze ctx length =
    squeeze_bytes length (if ctx.squeezing == 0 then keccak_finalize ctx else ctx)

unfoldable pub sha3_256 : Bytes → Bytes
sha3_256 input = (keccak_squeeze (keccak_absorb sha3_256_init input) 32).1

unfoldable pub sha3_512 : Bytes → Bytes
sha3_512 input = (keccak_squeeze (keccak_absorb sha3_512_init input) 64).1
