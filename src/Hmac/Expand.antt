-- ===== src/Hmac/Expand.antt =====
-- `c0_hkdf_sha256_expand` against the blocks T(1), T(2), ... of RFC 5869.
use c0_pqlink_complete.Prelude.{
  ℕ, zero, suc, ◌+◌, ◌-◌, ◌*◌, ◌/◌, ◌≤◌, ◌<◌, ◌≡◌, refl, ap, ap₂, ◌∙◌, sym, Bytes, [], ◌∷◌, ◌++◌,
  append_assoc, append-nil, length, take, u8, ltb, lt→ltb, ltb→lt, arith, length-append,
  length-take, Bool-cases, inl, inr, if◌then◌else◌, false,
}
use c0_pqlink_complete.Prelude.Arrays.{take-append_ge, take-append_le, take_all}
use c0_pqlink_complete.Common.{ok, err, err_capacity}
use c0_pqlink_complete.Hmac.{
  hmac_sha256_init, hmac_sha256_update, hmac_sha256_final, expand_loop, hkdf_sha256_expand, mask,
  key_block,
}
use c0_pqlink_complete.Sha256.Digest.{digest}
use c0_pqlink_complete.Hmac.Laws.{hmac, init-Keyed, update-Keyed, final-hmac, length-digest}

-- `count` blocks from block number `number` on, behind the block `previous`.
pub okm_blocks : Bytes → Bytes → Bytes → ℕ → ℕ → Bytes
okm_blocks prk info previous number zero = []
okm_blocks prk info previous number (suc count) =
    let block = hmac prk ((previous ++ info) ++ number ∷ []) in
    block ++ okm_blocks prk info block (number + 1) count

round_block :
    (prk previous info : Bytes) (counter : ℕ)
    → hmac_sha256_final (
        hmac_sha256_update
          (hmac_sha256_update (hmac_sha256_update (hmac_sha256_init prk) previous) info)
          (counter ∷ []))
      ≡ hmac prk ((previous ++ info) ++ counter ∷ [])
round_block prk previous info counter = final-hmac prk _ _ (
    update-Keyed prk _ (previous ++ info) (counter ∷ [])
      (update-Keyed prk _ previous info (update-Keyed prk _ [] previous (init-Keyed prk))))

expand_done :
    (f length' : ℕ) (prk info previous : Bytes) (counter : ℕ) (output : Bytes)
    → length' ≤ length output
    → expand_loop f length' prk info previous counter output ≡ output
unfolding expand_loop
expand_done zero length' prk info previous counter output h = refl
expand_done (suc f) length' prk info previous counter output h =
    elim (Bool-cases (ltb (length output) length')) [
      | inl e ↦ absurd (omega (arith, ltb→lt _ _ e))
      | inr e ↦ rw e
    ]

next_blocks :
    (prk info block : Bytes) (counter count : ℕ)
    → counter + suc count ≤ 256
    → okm_blocks prk info block (u8 (counter + 1)) count
      ≡ okm_blocks prk info block (counter + 1) count
unfolding okm_blocks
next_blocks prk info block counter zero h = refl
next_blocks prk info block counter (suc count) h =
    let no_wrap : u8 (counter + 1) ≡ counter + 1 = omega arith in
    ap (λ c. okm_blocks prk info block c (suc count)) no_wrap

-- What a round appends, and what the rounds after it append.
join_blocks :
    (block blocks output : Bytes) (left : ℕ)
    → length block ≡ 32
    → let taken = if ltb left 32 then left else 32 in
      (output ++ take taken block) ++ take (left - taken) blocks
      ≡ output ++ take left (block ++ blocks)
join_blocks block blocks output left e = elim (Bool-cases (ltb left 32)) [
  | inl short ↦
      let fits : left < 32 = ltb→lt left 32 short in
      let none_left : left - left ≡ 0 = omega arith in
      rw (short, none_left, take-append_le block blocks left (omega arith))
        (append-nil (output ++ take left block))
  | inr long ↦
      rw (long, take_all block 32 e, take-append_ge block blocks 32 left e (ground arith))
        (append_assoc output block (take (left - 32) blocks))
]

expand_step :
    (f size : ℕ) (prk info previous : Bytes) (counter : ℕ) (output : Bytes)
    → length output < size
    → let left = size - length output in
      let taken = if ltb left 32 then left else 32 in
      let block = hmac prk ((previous ++ info) ++ counter ∷ []) in
      expand_loop (suc f) size prk info previous counter output
      ≡ expand_loop f size prk info block (u8 (counter + 1)) (output ++ take taken block)
unfolding expand_loop
expand_step f size prk info previous counter output h =
    rw (lt→ltb (length output) size h, round_block prk previous info counter)

length-taken :
    (size : ℕ) (output block : Bytes)
    → length output < size
    → length block ≡ 32
    → let left = size - length output in
      let taken = if ltb left 32 then left else 32 in
      (length (output ++ take taken block) ≡ length output + taken)
      × (size - (length output + taken) ≡ left - taken)
      × (length output + taken ≤ size)
      × (left ≤ taken + (left - 32))
length-taken size output block h e = elim (Bool-cases (ltb (size - length output) 32)) [
  | inl short ↦
      let fits = ltb→lt (size - length output) 32 short in
      rw short (
        omega (
          arith,
          length-append output (take (size - length output) block),
          length-take (size - length output) block,
        ))
  | inr long ↦
      let fits : 32 ≤ size - length output = ground arith in
      rw long (omega (arith, length-append output (take 32 block), length-take 32 block))
]

expand-okm :
    (count f size : ℕ) (prk info previous : Bytes) (counter : ℕ) (output : Bytes)
    → count ≤ f
    → counter + count ≤ 256
    → length output ≤ size
    → size - length output ≤ 32 * count
    → expand_loop f size prk info previous counter output
      ≡ output ++ take (size - length output) (okm_blocks prk info previous counter count)
expand-okm zero f size prk info previous counter output p q r s =
    let none_left : size - length output ≡ 0 = omega arith in
    rw none_left
      (expand_done f size prk info previous counter output (omega arith) ∙ sym (append-nil output))
expand-okm (suc count) zero size prk info previous counter output p q r s = absurd (omega arith)
expand-okm (suc count) (suc f) size prk info previous counter output p q r s =
    elim (Bool-cases (ltb (length output) size)) [
      | inl more ↦
          let room : length output < size = ltb→lt (length output) size more in
          let sizes = length-taken size output block room (length-digest _) in
          expand_step f size prk info previous counter output room
          ∙ expand-okm count f size prk info block (u8 (counter + 1)) output' (omega arith)
              (omega arith) (omega (arith, sizes)) (omega (arith, sizes))
          ∙ ap₂ (λ n blocks. output' ++ take n blocks) (omega_left sizes.0 sizes.1)
              (next_blocks prk info block counter count q)
          ∙ unfold okm_blocks in
            join_blocks block (okm_blocks prk info block (counter + 1) count) output left
              (length-digest _)
      | inr done ↦
          let none_left : size - length output ≡ 0 = ground arith in
          rw none_left (
            expand_done (suc f) size prk info previous counter output (ground arith)
            ∙ sym (append-nil output))
    ]
  where
    left : ℕ
    left = size - length output

    taken : ℕ
    taken = if ltb left 32 then left else 32

    block : Bytes
    block = hmac prk ((previous ++ info) ++ counter ∷ [])

    output' : Bytes
    output' = output ++ take taken block

    omega_left :
        length output' ≡ length output + taken
        → size - (length output + taken) ≡ left - taken
        → size - length output' ≡ left - taken
    omega_left e d = ap (λ (n : ℕ). size - n) e ∙ d

-- The blocks that cover `size` bytes.
abbrev pub block_count : ℕ → ℕ
block_count size = (size + 31) / 32

-- Up to 255 blocks, `c0_hkdf_sha256_expand` returns the first `size` bytes of T(1) T(2) ...; the
-- block counter never wraps.
pub hkdf_expand-okm :
    (size : ℕ) (prk info : Bytes)
    → size ≤ 255 * 32
    → hkdf_sha256_expand size prk info
      ≡ ok (take size (okm_blocks prk info [] 1 (block_count size)))
unfolding hkdf_sha256_expand
hkdf_expand-okm size prk info h =
    let bounded : ltb (255 * 32) size ≡ false = ground arith in
    let all : size - 0 ≡ size = omega arith in
    rw bounded (
      ap ok (
        expand-okm (block_count size) size size prk info [] 1 [] (omega arith) (omega arith)
          (omega arith) (omega arith)
        ∙ ap (λ n. take n (okm_blocks prk info [] 1 (block_count size))) all))

length-okm_blocks :
    (prk info previous : Bytes) (number count : ℕ)
    → length (okm_blocks prk info previous number count) ≡ 32 * count
unfolding okm_blocks
length-okm_blocks prk info previous number zero = refl
length-okm_blocks prk info previous number (suc count) =
    let block = hmac prk ((previous ++ info) ++ number ∷ []) in
    omega (
      arith,
      length-append block (okm_blocks prk info block (number + 1) count),
      length-digest (
          mask 0x5c (key_block prk)
          ++ digest (mask 0x36 (key_block prk) ++ ((previous ++ info) ++ number ∷ []))),
      length-okm_blocks prk info block (number + 1) count,
    )

-- A request of up to 8160 bytes succeeds with exactly that many bytes.
pub length-hkdf_expand :
    (size : ℕ) (prk info : Bytes)
    → size ≤ 255 * 32
    → (out : Bytes) × (hkdf_sha256_expand size prk info ≡ ok out) × (length out ≡ size)
length-hkdf_expand size prk info h = (
  take size (okm_blocks prk info [] 1 (block_count size)),
  hkdf_expand-okm size prk info h,
  omega (
    arith,
    length-take size (okm_blocks prk info [] 1 (block_count size)),
    length-okm_blocks prk info [] 1 (block_count size),
  ),
)

pub hkdf_expand-capacity :
    (size : ℕ) (prk info : Bytes)
    → 255 * 32 < size
    → hkdf_sha256_expand size prk info ≡ err err_capacity
unfolding hkdf_sha256_expand
hkdf_expand-capacity size prk info h = rw (lt→ltb (255 * 32) size h)
