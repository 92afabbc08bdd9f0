-- ===== src/Keccak/Blocks.antt =====
-- The sponge block by block: no position, no mode, a permutation for each whole block.
use c0_pqlink_complete.Prelude.{
  ℕ, zero, suc, ◌+◌, ◌-◌, ◌*◌, ◌/◌, ◌%◌, ◌<◌, ◌≤◌, ◌^◌, ◌≡◌, refl, ap, sym, ◌∙◌, Bytes, List, [],
  ◌∷◌, ◌++◌, true, false, ◌==◌, ltb, if◌then◌else◌, u8, u16, ◌>>>◌, arith, length, length-take,
  take-append-drop, length-drop, take, drop, Bool-cases, inl, inr, replicate,
}
use c0_pqlink_complete.Keccak.Permutation.{lane_at, keccak_f1600}
use c0_pqlink_complete.Keccak.{
  KeccakCtx, keccak_init, xor_byte, advance, absorb_byte, absorb_bytes, keccak_absorb,
  keccak_finalize, squeeze_bytes, keccak_squeeze, sha3_256, sha3_512,
}

-- A block, or a part of one, into the state from the byte number `position` on.
abbrev pub xor_block : List ℕ → ℕ → Bytes → List ℕ
xor_block state position [] = state
xor_block state position (x ∷ xs) = xor_block (xor_byte state position x) (position + 1) xs

-- `size` bytes of the state from the byte number `position` on.
abbrev pub extract : List ℕ → ℕ → ℕ → Bytes
extract state position zero = []
extract state position (suc size) =
    u8 (lane_at state (position / 8) >>> (8 * (position % 8))) ∷ extract state (position + 1) size

-- The state after the whole blocks of a message, and what is left of it.
pub absorb_blocks : ℕ → ℕ → List ℕ → Bytes → List ℕ × Bytes
absorb_blocks zero rate state message = (state, message)
absorb_blocks (suc fuel) rate state message =
    let rest =
      absorb_blocks fuel rate (keccak_f1600 (xor_block state 0 (take rate message)))
        (drop rate message) in
    if ltb (length message) rate then (state, message) else rest

-- The hash of at most one block of output.
abbrev pub sponge : ℕ → ℕ → ℕ → Bytes → Bytes
sponge rate domain size message =
    let (state, rest) = absorb_blocks (length message) rate (replicate 25 0) message in
    extract
      (keccak_f1600
        (xor_byte (xor_byte (xor_block state 0 rest) (length rest) domain) (rate - 1) 0x80))
      0 size

abbrev moved : KeccakCtx → List ℕ → ℕ → KeccakCtx
moved ctx state position = record ctx { state = state; position = position }

advance_more :
    (ctx : KeccakCtx)
    → ctx.position + 1 < ctx.rate
    → ctx.rate < 2 ^ 16
    → advance ctx ≡ record ctx { position = ctx.position + 1 }
unfolding advance
advance_more ctx more small =
    let next : u16 (ctx.position + 1) ≡ ctx.position + 1 = omega arith in
    let below : (u16 (ctx.position + 1) == ctx.rate) ≡ false = ground arith in
    rw below (ap (λ (p : ℕ). moved ctx ctx.state p) next)

advance_full :
    (ctx : KeccakCtx)
    → ctx.position + 1 ≡ ctx.rate
    → ctx.rate < 2 ^ 16
    → advance ctx ≡ record ctx { state = keccak_f1600 ctx.state; position = 0 }
unfolding advance
advance_full ctx full small =
    let next : (u16 (ctx.position + 1) == ctx.rate) ≡ true = ground arith in rw next refl

absorb_part :
    (ctx : KeccakCtx) (xs : Bytes)
    → ctx.position + length xs < ctx.rate
    → ctx.rate < 2 ^ 16
    → absorb_bytes ctx xs ≡ record ctx {
      state = xor_block ctx.state ctx.position xs;
      position = ctx.position + length xs;
    }
unfolding absorb_bytes
absorb_part ctx [] more small = ap (λ (p : ℕ). moved ctx ctx.state p) (omega arith)
absorb_part ctx (x ∷ xs) more small =
    ap (λ c. absorb_bytes c xs)
      (advance_more (record ctx { state = xor_byte ctx.state ctx.position x }) (omega arith) small)
    ∙ absorb_part
        (record ctx { state = xor_byte ctx.state ctx.position x; position = ctx.position + 1 }) xs
        (omega arith) small
    ∙ ap
        (λ (p : ℕ).
          moved ctx (xor_block (xor_byte ctx.state ctx.position x) (ctx.position + 1) xs) p)
        (omega arith)

-- The rest of a block, up to the permutation.
absorb_whole :
    (ctx : KeccakCtx) (xs : Bytes)
    → ctx.position + length xs ≡ ctx.rate
    → ctx.position < ctx.rate
    → ctx.rate < 2 ^ 16
    → absorb_bytes ctx xs ≡ moved ctx (keccak_f1600 (xor_block ctx.state ctx.position xs)) 0
unfolding absorb_bytes
absorb_whole ctx [] full some small = absurd (omega arith)
absorb_whole ctx (x ∷ []) full some small =
    advance_full (record ctx { state = xor_byte ctx.state ctx.position x }) (omega arith) small
absorb_whole ctx (x ∷ (y ∷ xs)) full some small =
    ap (λ c. absorb_bytes c (y ∷ xs))
      (advance_more (record ctx { state = xor_byte ctx.state ctx.position x }) (omega arith) small)
    ∙ absorb_whole
        (record ctx { state = xor_byte ctx.state ctx.position x; position = ctx.position + 1 })
        (y ∷ xs) (omega arith) (omega arith) small

absorb_bytes-append :
    (ctx : KeccakCtx) (a b : Bytes)
    → absorb_bytes ctx (a ++ b) ≡ absorb_bytes (absorb_bytes ctx a) b
unfolding absorb_bytes
absorb_bytes-append ctx [] b = refl
absorb_bytes-append ctx (x ∷ a) b = absorb_bytes-append (absorb_byte ctx x) a b

absorb-blocks :
    (fuel : ℕ) (ctx : KeccakCtx) (state : List ℕ) (message : Bytes)
    → length message ≤ fuel
    → 0 < ctx.rate
    → ctx.rate < 2 ^ 16
    → absorb_bytes (moved ctx state 0) message
      ≡ moved ctx
          (xor_block
            (absorb_blocks fuel ctx.rate state message).0
            0
            (absorb_blocks fuel ctx.rate state message).1)
          (length (absorb_blocks fuel ctx.rate state message).1)
unfolding absorb_blocks
absorb-blocks zero ctx state [] enough some small = unfold absorb_bytes in refl
absorb-blocks zero ctx state (x ∷ xs) enough some small = absurd (omega arith)
absorb-blocks (suc fuel) ctx state message enough some small =
    elim (Bool-cases (ltb (length message) ctx.rate)) [
      | inl short ↦
          let below : 0 + length message < ctx.rate = ground arith in
          rw short (
            absorb_part (moved ctx state 0) message below small
            ∙ ap (moved ctx (xor_block state 0 message)) (omega arith))
      | inr long ↦
          let block = take ctx.rate message in
          let left = drop ctx.rate message in
          let room : ctx.rate ≤ length message = ground arith in
          let sized : 0 + length block ≡ ctx.rate = omega (arith, length-take ctx.rate message) in
          rw long (
            ap (absorb_bytes (moved ctx state 0)) (sym (take-append-drop ctx.rate message))
            ∙ absorb_bytes-append (moved ctx state 0) block left
            ∙ ap (λ c. absorb_bytes c left)
                (absorb_whole (moved ctx state 0) block sized some small)
            ∙ absorb-blocks fuel ctx (keccak_f1600 (xor_block state 0 block)) left
                (omega (arith, length-drop ctx.rate message)) some small)
    ]

squeeze_part :
    (size : ℕ) (ctx : KeccakCtx)
    → ctx.position + size < ctx.rate
    → ctx.rate < 2 ^ 16
    → (squeeze_bytes size ctx).1 ≡ extract ctx.state ctx.position size
unfolding squeeze_bytes
squeeze_part zero ctx more small = refl
squeeze_part (suc size) ctx more small =
    ap (◌∷◌ (u8 (lane_at ctx.state (ctx.position / 8) >>> (8 * (ctx.position % 8))))) (
      ap (λ c. (squeeze_bytes size c).1) (advance_more ctx (omega arith) small)
      ∙ squeeze_part size (record ctx { position = ctx.position + 1 }) (omega arith) small)

-- The output of a context that is still absorbing.
squeeze_first :
    (ctx : KeccakCtx) (size : ℕ)
    → ctx.squeezing ≡ 0
    → size < ctx.rate
    → ctx.rate < 2 ^ 16
    → (keccak_squeeze ctx size).1
      ≡ extract
          (keccak_f1600 (xor_byte (xor_byte ctx.state ctx.position ctx.domain) (ctx.rate - 1) 0x80))
          0
          size
unfolding keccak_squeeze keccak_finalize
squeeze_first ctx size absorbing short small =
    let test : (ctx.squeezing == 0) ≡ true = ground arith in
    let padded =
      keccak_f1600 (xor_byte (xor_byte ctx.state ctx.position ctx.domain) (ctx.rate - 1) 0x80) in
    rw test (squeeze_part size (record (moved ctx padded 0) { squeezing = 1 }) (omega arith) small)

-- A hash with output below the rate.
hash-sponge :
    (rate domain size : ℕ) (message : Bytes)
    → size < rate
    → rate < 2 ^ 16
    → (keccak_squeeze (keccak_absorb (keccak_init rate domain) message) size).1
      ≡ sponge rate domain size message
unfolding keccak_absorb
hash-sponge rate domain size message short small =
    ap (λ c. (keccak_squeeze c size).1)
      (absorb-blocks (length message) (keccak_init rate domain) (replicate 25 0) message
        (omega arith) (omega arith) small)
    ∙ squeeze_first _ size refl short small

-- SHA3-256 and SHA3-512 are the sponge with the rates 136 and 72 and the domain 6: whole blocks of
-- the message into the state, each with a permutation; the rest with its padding; and the output.
pub sha3-sponge :
    (message : Bytes)
    → (sha3_256 message ≡ sponge 136 6 32 message) × (sha3_512 message ≡ sponge 72 6 64 message)
unfolding sha3_256 sha3_512
sha3-sponge message = (
  hash-sponge 136 6 32 message (omega arith) (omega arith),
  hash-sponge 72 6 64 message (omega arith) (omega arith),
)
