-- ===== src/Sha256.antt =====
-- src/core/sha256.c: streaming SHA-256, HMAC-SHA-256 and HKDF-SHA-256.
pub mod Compress
pub mod Blocks
pub mod Stream
pub mod Digest
use c0_pqlink_complete.Prelude.{
  ℕ, zero, suc, ◌+◌, ◌-◌, ◌*◌, ◌<◌, min, Bytes, List, [], ◌∷◌, ◌++◌, u8, u64, ltb, ◌==◌,
  if◌then◌else◌, length, take, drop, replicate, refl, ◌≡◌,
}
use c0_pqlink_complete.Prelude.Arrays.{overwrite}
use c0_pqlink_complete.Wire.{store64_be}
use c0_pqlink_complete.Sha256.Compress.{Registers, sha256_transform, store_digest}

pub record Sha256Ctx : Type 0 where
  pub state : Registers
  pub total_bytes : ℕ
  pub buffer : Bytes
  pub buffered : ℕ

abbrev pub initial_state : Registers
initial_state = record {
  a = 0x6a09e667;
  b = 0xbb67ae85;
  c = 0x3c6ef372;
  d = 0xa54ff53a;
  e = 0x510e527f;
  f = 0x9b05688c;
  g = 0x1f83d9ab;
  h = 0x5be0cd19;
}

abbrev pub sha256_init : Sha256Ctx
sha256_init = record {
  state = initial_state;
  total_bytes = 0;
  buffer = replicate 64 0;
  buffered = 0;
}

-- `while (length - used >= 64)`, over the input left; the fuel is its length, which is enough
-- (Sha256/Stream). It returns the state and what is left of the input.
pub transform_blocks : ℕ → Registers → Bytes → Registers × Bytes
transform_blocks zero state input = (state, input)
transform_blocks (suc fuel) state input =
    let rest = transform_blocks fuel (sha256_transform state (take 64 input)) (drop 64 input) in
    if ltb (length input) 64 then (state, input) else rest

-- The block that tops up a buffer in use. It returns the context and what is left of the input.
pub fill_buffer : Sha256Ctx → Bytes → Sha256Ctx × Bytes
fill_buffer ctx input =
    if ctx.buffered == 0
    then (ctx, input)
    else (let available = 64 - ctx.buffered in
        let taken = if ltb (length input) available then length input else available in
        let buffer' = overwrite ctx.buffer ctx.buffered (take taken input) in
        let buffered' = u8 (ctx.buffered + taken) in
        if buffered' == 64
        then (
          record ctx { state = sha256_transform ctx.state buffer'; buffer = buffer'; buffered = 0 },
          drop taken input,
        )
        else (record ctx { buffer = buffer'; buffered = buffered' }, drop taken input))

-- The full blocks of the input, and the remainder into the buffer.
pub absorb_rest : Sha256Ctx → Bytes → Sha256Ctx
absorb_rest ctx input =
    let (state', remainder) = transform_blocks (length input) ctx.state input in
    if ltb 0 (length remainder)
    then record ctx {
      state = state';
      buffer = overwrite ctx.buffer 0 remainder;
      buffered = u8 (length remainder);
    }
    else record ctx { state = state' }

pub sha256_update : Sha256Ctx → Bytes → Sha256Ctx
sha256_update ctx input =
    if length input == 0
    then ctx
    else (let counted = record ctx { total_bytes = u64 (ctx.total_bytes + length input) } in
        let (filled, rest) = fill_buffer counted input in absorb_rest filled rest)

-- `ctx->buffer[ctx->buffered++] = 0x80`, and the extra block where the length has no room.
pub finish_marker : Sha256Ctx → Sha256Ctx
finish_marker ctx =
    let marked = overwrite ctx.buffer ctx.buffered (0x80 ∷ []) in
    let buffered' = ctx.buffered + 1 in
    if ltb 56 buffered'
    then (let padded = overwrite marked buffered' (replicate (64 - buffered') 0) in
        record ctx { state = sha256_transform ctx.state padded; buffer = padded; buffered = 0 })
    else record ctx { buffer = marked; buffered = buffered' }

-- The digest; the context is erased.
pub sha256_final : Sha256Ctx → Bytes
sha256_final ctx =
    let total_bits = u64 (ctx.total_bytes * 8) in
    let marked = finish_marker ctx in
    let padded = overwrite marked.buffer marked.buffered (replicate (56 - marked.buffered) 0) in
    store_digest (sha256_transform marked.state (overwrite padded 56 (store64_be total_bits)))

unfoldable pub sha256 : Bytes → Bytes
unfolding sha256_update sha256_final fill_buffer absorb_rest transform_blocks finish_marker
    sha256_transform store_digest store64_be
sha256 input = sha256_final (sha256_update sha256_init input)
