-- ===== src/Hmac.antt =====
-- src/core/sha256.c: HMAC-SHA-256 and HKDF-SHA-256 over the streaming hash.
pub mod Laws
pub mod Expand
use c0_pqlink_complete.Prelude.{
  ℕ, zero, suc, ◌+◌, ◌-◌, ◌*◌, Bytes, [], ◌∷◌, ◌++◌, map, bit_xor, u8, ltb, ◌==◌, if◌then◌else◌,
  length, take, replicate,
}
use c0_pqlink_complete.Prelude.Arrays.{overwrite}
use c0_pqlink_complete.Common.{Result, ok, err, err_capacity}
use c0_pqlink_complete.Sha256.{Sha256Ctx, sha256_init, sha256_update, sha256_final, sha256}

pub record HmacCtx : Type 0 where
  pub inner : Sha256Ctx
  pub outer_pad : Bytes

-- `key_block` before it is masked: the key, or its digest if it is longer than a block.
unfoldable pub key_block : Bytes → Bytes
key_block key =
    if ltb 64 (length key)
    then overwrite (replicate 64 0) 0 (sha256 key)
    else if length key == 0
    then replicate 64 0
    else overwrite (replicate 64 0) 0 key

abbrev pub mask : ℕ → Bytes → Bytes
mask pad block = map (λ b. u8 (bit_xor b pad)) block

pub hmac_sha256_init : Bytes → HmacCtx
hmac_sha256_init key = record {
  inner = sha256_update sha256_init (mask 0x36 (key_block key));
  outer_pad = mask 0x5c (key_block key);
}

pub hmac_sha256_update : HmacCtx → Bytes → HmacCtx
hmac_sha256_update ctx input = record ctx { inner = sha256_update ctx.inner input }

-- The tag; the context is erased.
pub hmac_sha256_final : HmacCtx → Bytes
hmac_sha256_final ctx =
    sha256_final (sha256_update (sha256_update sha256_init ctx.outer_pad) (sha256_final ctx.inner))

unfoldable pub hmac_sha256 : Bytes → Bytes → Bytes
unfolding hmac_sha256_init hmac_sha256_update hmac_sha256_final key_block
hmac_sha256 key input = hmac_sha256_final (hmac_sha256_update (hmac_sha256_init key) input)

-- An absent salt is the empty array.
unfoldable pub hkdf_sha256_extract : Bytes → Bytes → Bytes
hkdf_sha256_extract salt input_key_material =
    hmac_sha256 (if length salt == 0 then [] else salt) input_key_material

-- `while (produced < output_length)`: `output` holds what is produced, `previous` the block before
-- (none at first). A round produces a byte at least, so `output_length` rounds are enough
-- (Hmac/Expand).
pub expand_loop : ℕ → ℕ → Bytes → Bytes → Bytes → ℕ → Bytes → Bytes
expand_loop zero output_length prk info previous counter output = output
expand_loop (suc fuel) output_length prk info previous counter output =
    let left = output_length - length output in
    let taken = if ltb left 32 then left else 32 in
    let block = hmac_sha256_final (
      hmac_sha256_update
        (hmac_sha256_update (hmac_sha256_update (hmac_sha256_init prk) previous) info)
        (counter ∷ [])) in
    let rest =
      expand_loop fuel output_length prk info block (u8 (counter + 1))
        (output ++ take taken block) in
    if ltb (length output) output_length then rest else output

unfoldable pub hkdf_sha256_expand : ℕ → Bytes → Bytes → Result Bytes
unfolding expand_loop
hkdf_sha256_expand output_length prk info =
    if ltb (255 * 32) output_length
    then err err_capacity
    else ok (expand_loop output_length output_length prk info [] 1 [])
