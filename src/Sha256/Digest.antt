-- ===== src/Sha256/Digest.antt =====
-- `c0_sha256_final` against the padding rule of SHA-256, stated on the whole message.
use c0_pqlink_complete.Prelude.{
  ℕ, zero, suc, ◌+◌, ◌-◌, ◌*◌, ◌%◌, ◌≤◌, ◌<◌, ◌≡◌, refl, ap, ap₂, sym, ◌∙◌, Bytes, [], ◌∷◌, ◌++◌,
  append_assoc, append-nil, take, replicate, length, length-append, length-replicate, lt→ltb, arith,
  u64,
}
use c0_pqlink_complete.Prelude.Arrays.{
  take_all, take-append, drop-append, length-overwrite, take-overwrite, overwrite,
}
use native.Mathlib.Decide.{dec_le}
use native.Mathlib.Nat.{zero-add, suc-add}
use c0_pqlink_complete.Wire.{store64_be}
use c0_pqlink_complete.Wire.RoundTrip.{length-store64}
use c0_pqlink_complete.Sha256.Compress.{Registers, sha256_transform, store_digest}
use c0_pqlink_complete.Sha256.{
  Sha256Ctx, initial_state, sha256_init, finish_marker, sha256_final, sha256,
}
use c0_pqlink_complete.Sha256.Blocks.{
  absorb, absorb-short, absorb-step, absorb-append, length-absorb,
}
use c0_pqlink_complete.Sha256.Stream.{
  Represents, IsBuffering, pending, length-pending, init-Represents, update-Represents,
}

-- A one bit, the least number of zeros, and the bit count: a whole number of blocks.
abbrev pub padding : ℕ → Bytes
padding n = 0x80 ∷ replicate ((119 - n % 64) % 64) 0 ++ store64_be (u64 (n * 8))

-- The digest of a message, with no streaming.
abbrev pub digest : Bytes → Bytes
digest m = store_digest (absorb initial_state (m ++ padding (length m))).0

absorb-block :
    (s : Registers) (block rest : Bytes)
    → length block ≡ 64
    → absorb s (block ++ rest) ≡ absorb (sha256_transform s block) rest
absorb-block s block rest e =
    absorb-step s (block ++ rest) (omega (arith, length-append block rest))
    ∙ ap₂ (λ b r. absorb (sha256_transform s b) r) (take-append block rest 64 e)
        (drop-append block rest 64 e)

absorb_last :
    (s : Registers) (block : Bytes)
    → length block ≡ 64
    → (absorb s block).0 ≡ sha256_transform s block
absorb_last s block e =
    ap (λ m. (absorb s m).0) (sym (append-nil block))
    ∙ ap (λ p. p.0) (absorb-block s block [] e)
    ∙ ap (λ p. p.0) (absorb-short (sha256_transform s block) [] (omega arith))

replicate-add : (a b v : ℕ) → replicate (a + b) v ≡ replicate a v ++ replicate b v
replicate-add zero b v = rw zero-add
replicate-add (suc a) b v = rw suc-add (ap (λ r. v ∷ r) (replicate-add a b v))

-- Writes that fill a buffer from `offset` to its end leave what was before, then what they wrote.
filled :
    (buffer source : Bytes) (offset : ℕ)
    → offset + length source ≡ length buffer
    → overwrite buffer offset source ≡ take offset buffer ++ source
filled buffer source offset e =
    sym (
      take_all (overwrite buffer offset source) (length buffer)
        (length-overwrite buffer source offset (omega arith)))
    ∙ take-overwrite buffer source offset (length buffer) (omega arith) (sym e)

regroup : (p q r bits : Bytes) → (p ++ (0x80 ∷ q)) ++ (r ++ bits) ≡ p ++ ((0x80 ∷ (q ++ r)) ++ bits)
regroup p q r bits = simp append_assoc

module _ (ctx : Sha256Ctx) (b : IsBuffering ctx) where
  marker : Bytes
  marker = overwrite ctx.buffer ctx.buffered (0x80 ∷ [])

  length-marker : length marker ≡ 64
  unfolding marker
  length-marker =
      length-overwrite ctx.buffer (0x80 ∷ []) ctx.buffered (omega (arith, b.partial, b.capacity))
      ∙ b.capacity

  take-marker : take (ctx.buffered + 1) marker ≡ pending ctx ++ 0x80 ∷ []
  unfolding marker
  take-marker =
      take-overwrite ctx.buffer (0x80 ∷ []) ctx.buffered _ (omega (arith, b.partial, b.capacity))
        refl

  -- The marker and zeros up to `top`.
  take-zeros :
      (top : ℕ)
      → ctx.buffered + 1 ≤ top
      → top ≤ 64
      → let padded = overwrite marker (ctx.buffered + 1) (replicate (top - (ctx.buffered + 1)) 0) in
        (length padded ≡ 64)
        × (take top padded ≡ pending ctx ++ (0x80 ∷ replicate (top - (ctx.buffered + 1)) 0))
  take-zeros top lo hi = (
    length-overwrite marker zeros (ctx.buffered + 1) fits ∙ length-marker,
    take-overwrite marker zeros (ctx.buffered + 1) top fits (omega (arith, count))
        ∙ ap (λ p. p ++ zeros) take-marker
        ∙ append_assoc (pending ctx) (0x80 ∷ []) zeros,
  )
    where
      zeros : Bytes
      zeros = replicate (top - (ctx.buffered + 1)) 0

      count : length zeros ≡ top - (ctx.buffered + 1)
      count = length-replicate (top - (ctx.buffered + 1)) 0

      fits : ctx.buffered + 1 + length zeros ≤ length marker
      fits = omega (arith, count, length-marker)

  -- What `finish_marker` leaves, with and without room for the length in the same block.
  marker-room :
      ctx.buffered + 1 ≤ 56
      → finish_marker ctx ≡ record ctx { buffer = marker; buffered = ctx.buffered + 1 }
  unfolding finish_marker marker
  marker-room h = ground arith

  spilled : Bytes
  spilled = overwrite marker (ctx.buffered + 1) (replicate (64 - (ctx.buffered + 1)) 0)

  marker-spill :
      56 < ctx.buffered + 1
      → finish_marker ctx
        ≡ record ctx { state = sha256_transform ctx.state spilled; buffer = spilled; buffered = 0 }
  unfolding finish_marker marker spilled
  marker-spill h = rw (lt→ltb 56 (ctx.buffered + 1) h)

  abbrev bits : Bytes
  bits = store64_be (u64 (ctx.total_bytes * 8))

  abbrev zeros : ℕ → Bytes
  zeros n = replicate n 0

  final-room :
      ctx.buffered + 1 ≤ 56
      → sha256_final ctx
        ≡ store_digest
            (absorb ctx.state (pending ctx ++ ((0x80 ∷ zeros (56 - (ctx.buffered + 1))) ++ bits))).0
  unfolding sha256_final
  final-room h = rw (marker-room h) (
      ap store_digest (
        ap (λ m. sha256_transform ctx.state m) whole
        ∙ sym (absorb_last ctx.state _ (ap length (sym whole) ∙ whole_length))))
    where
      padded : Bytes
      padded = overwrite marker (ctx.buffered + 1) (zeros (56 - (ctx.buffered + 1)))

      facts :
          (length padded ≡ 64)
          × (take 56 padded ≡ pending ctx ++ (0x80 ∷ zeros (56 - (ctx.buffered + 1))))
      facts = take-zeros 56 h (omega arith)

      whole_length : length (overwrite padded 56 bits) ≡ 64
      whole_length =
          length-overwrite padded bits 56
            (omega (arith, facts.0, length-store64 (u64 (ctx.total_bytes * 8))))
          ∙ facts.0

      whole :
          overwrite padded 56 bits
          ≡ pending ctx ++ ((0x80 ∷ zeros (56 - (ctx.buffered + 1))) ++ bits)
      whole =
          filled padded bits 56 (omega (arith, facts.0, length-store64 (u64 (ctx.total_bytes * 8))))
          ∙ ap (λ p. p ++ bits) facts.1
          ∙ append_assoc (pending ctx) (0x80 ∷ zeros (56 - (ctx.buffered + 1))) bits

  final-spill :
      56 < ctx.buffered + 1
      → sha256_final ctx
        ≡ store_digest
            (absorb ctx.state
              (pending ctx ++ ((0x80 ∷ zeros (64 - (ctx.buffered + 1) + 56)) ++ bits))).0
  unfolding sha256_final
  final-spill h = rw (marker-spill h) (
      ap store_digest (
        ap (λ m. sha256_transform (sha256_transform ctx.state spilled) m) last_zeros
        ∙ sym (absorb_last (sha256_transform ctx.state spilled) (zeros 56 ++ bits) last_length)
        ∙ ap (λ p. p.0) (sym (absorb-block ctx.state spilled (zeros 56 ++ bits) facts.0))
        ∙ ap (λ m. (absorb ctx.state m).0) regrouped))
    where
      facts :
          (length spilled ≡ 64)
          × (take 64 spilled ≡ pending ctx ++ (0x80 ∷ zeros (64 - (ctx.buffered + 1))))
      facts = unfold spilled in take-zeros 64 (omega (arith, b.partial)) (omega arith)

      last : Bytes
      last = overwrite (overwrite spilled 0 (zeros 56)) 56 bits

      last_zeros : last ≡ zeros 56 ++ bits
      last_zeros =
          filled (overwrite spilled 0 (zeros 56)) bits 56 (
            omega (
              arith,
              length-overwrite spilled (zeros 56) 0 (omega (arith, facts.0)),
              facts.0,
              length-store64 (u64 (ctx.total_bytes * 8)),
            ))
          ∙ ap (λ p. p ++ bits)
              (take-overwrite spilled (zeros 56) 0 56 (omega (arith, facts.0)) refl)

      first : spilled ≡ pending ctx ++ (0x80 ∷ zeros (64 - (ctx.buffered + 1)))
      first = sym (take_all spilled 64 facts.0) ∙ facts.1

      last_length : length (zeros 56 ++ bits) ≡ 64
      last_length = omega (arith, length-store64 (u64 (ctx.total_bytes * 8)))

      regrouped :
          spilled ++ (zeros 56 ++ bits)
          ≡ pending ctx ++ ((0x80 ∷ zeros (64 - (ctx.buffered + 1) + 56)) ++ bits)
      regrouped =
          ap (λ p. p ++ (zeros 56 ++ bits)) first
          ∙ regroup (pending ctx) (zeros (64 - (ctx.buffered + 1))) (zeros 56) bits
          ∙ ap (λ z. pending ctx ++ ((0x80 ∷ z) ++ bits))
              (sym (replicate-add (64 - (ctx.buffered + 1)) 56 0))

-- The zeros that `c0_sha256_final` writes are those of the padding rule.
final-absorb :
    (ctx : Sha256Ctx) (n : ℕ)
    → IsBuffering ctx
    → ctx.buffered ≡ n % 64
    → ctx.total_bytes ≡ u64 n
    → sha256_final ctx ≡ store_digest (absorb ctx.state (pending ctx ++ padding n)).0
final-absorb ctx n b part total = elim (dec_le (ctx.buffered + 1) 56) [
  | yes room ↦ final-room ctx b room ∙ same (56 - (ctx.buffered + 1)) (omega arith)
  | no spill ↦
      final-spill ctx b (omega arith)
      ∙ same (64 - (ctx.buffered + 1) + 56) (omega (arith, b.partial))
]
  where
    same :
        (k : ℕ)
        → k ≡ (119 - n % 64) % 64
        → store_digest
            (absorb ctx.state
              (pending ctx ++ ((0x80 ∷ replicate k 0) ++ store64_be (u64 (ctx.total_bytes * 8))))).0
          ≡ store_digest (absorb ctx.state (pending ctx ++ padding n)).0
    same k e =
        let count : u64 (ctx.total_bytes * 8) ≡ u64 (n * 8) = omega arith in
        ap₂
          (λ j c.
            store_digest
              (absorb ctx.state (pending ctx ++ ((0x80 ∷ replicate j 0) ++ store64_be c))).0)
          e count

-- `c0_sha256_final` is the digest of the message that the context has taken in, whatever the
-- pieces in which it came.
pub final-digest : (ctx : Sha256Ctx) (m : Bytes) → Represents ctx m → sha256_final ctx ≡ digest m
final-digest ctx m r =
    final-absorb ctx (length m) r.buffering part r.counted
    ∙ ap (λ p. store_digest (absorb p.0 (p.1 ++ padding (length m))).0) (sym r.consumed)
    ∙ ap (λ p. store_digest p.0) (sym (absorb-append initial_state m (padding (length m))))
  where
    part : ctx.buffered ≡ length m % 64
    part = omega (
      arith,
      length-pending ctx r.buffering,
      ap (λ p. length p.1) r.consumed,
      length-absorb initial_state m,
    )

-- `c0_sha256` is the digest.
pub sha256-eq-digest : (m : Bytes) → sha256 m ≡ digest m
unfolding sha256
sha256-eq-digest m = final-digest _ m (update-Represents sha256_init [] m init-Represents)
