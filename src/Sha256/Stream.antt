-- ===== src/Sha256/Stream.antt =====
-- `c0_sha256_update` and `c0_sha256_final` against the one-message description of SHA-256.
use c0_pqlink_complete.Prelude.{
  ℕ, suc, ◌+◌, ◌-◌, ◌≤◌, ◌<◌, ◌≡◌, refl, ap, ap₂, sym, ◌∙◌, ◌⊎◌, inl, inr, Bytes, [], ◌∷◌, ◌++◌,
  append-nil, take, drop, length, length-append, length-take, ltb, lt→ltb, Bool-cases, ltb→lt,
  arith, false, ◌≢◌, u8, u64, ◌==◌, ==_iff,
}
use c0_pqlink_complete.Prelude.Arrays.{
  take_all, drop_all, take-append_ge, drop-append_ge, length-overwrite, take-overwrite, overwrite,
}
use c0_pqlink_complete.Sha256.Compress.{sha256_transform}
use c0_pqlink_complete.Sha256.{
  transform_blocks, Sha256Ctx, initial_state, sha256_init, fill_buffer, absorb_rest, sha256_update,
}
use c0_pqlink_complete.Sha256.Blocks.{
  absorb, absorb-short, absorb-step, absorb-append, length-absorb,
}

abbrev pub pending : Sha256Ctx → Bytes
pending ctx = take ctx.buffered ctx.buffer

-- The buffer holds a part of a block.
pub record IsBuffering (ctx : Sha256Ctx) : Type 0 where
  pub capacity : length ctx.buffer ≡ 64
  pub partial : ctx.buffered < 64

-- The context has taken in exactly the message `m`.
pub record Represents (ctx : Sha256Ctx) (m : Bytes) : Type 0 where
  pub buffering : IsBuffering ctx
  pub consumed : absorb initial_state m ≡ (ctx.state, pending ctx)
  pub counted : ctx.total_bytes ≡ u64 (length m)

pub init-Represents : Represents sha256_init []
init-Represents = record {
  buffering = record { capacity = refl; partial = omega arith };
  consumed = unfold transform_blocks in refl;
  counted = refl;
}

-- After the fill, either the input is used up or the buffer is empty; the stream is the same.
record Fills (ctx : Sha256Ctx) (input : Bytes) (filled : Sha256Ctx) (rest : Bytes) : Type 0 where
  buffering : IsBuffering filled
  same : absorb ctx.state (pending ctx ++ input) ≡ absorb filled.state (pending filled ++ rest)
  total : filled.total_bytes ≡ ctx.total_bytes
  split : (filled.buffered ≡ 0) ⊎ (rest ≡ [])

fill_empty :
    (ctx : Sha256Ctx) (input : Bytes) → ctx.buffered ≡ 0 → fill_buffer ctx input ≡ (ctx, input)
unfolding fill_buffer
fill_empty ctx input e = rw ((==_iff ctx.buffered 0).1 e)

fill_short :
    (ctx : Sha256Ctx) (input : Bytes)
    → ctx.buffered ≢ 0
    → ctx.buffered + length input < 64
    → fill_buffer ctx input ≡ (
      record ctx {
        buffer = overwrite ctx.buffer ctx.buffered (take (length input) input);
        buffered = u8 (ctx.buffered + length input);
      },
      drop (length input) input,
    )
unfolding fill_buffer
fill_short ctx input ne h = ground arith

fill_block :
    (ctx : Sha256Ctx) (input : Bytes)
    → ctx.buffered ≢ 0
    → ctx.buffered < 64
    → 64 ≤ ctx.buffered + length input
    → let taken = 64 - ctx.buffered in
      let buffer' = overwrite ctx.buffer ctx.buffered (take taken input) in
      fill_buffer ctx input ≡ (
        record ctx { state = sha256_transform ctx.state buffer'; buffer = buffer'; buffered = 0 },
        drop taken input,
      )
unfolding fill_buffer
fill_block ctx input ne p h = ground arith

pub length-pending : (ctx : Sha256Ctx) → IsBuffering ctx → length (pending ctx) ≡ ctx.buffered
length-pending ctx b = omega (arith, length-take ctx.buffered ctx.buffer, b.capacity, b.partial)

Fills-short :
    (ctx : Sha256Ctx) (input : Bytes)
    → IsBuffering ctx
    → ctx.buffered + length input < 64
    → Fills ctx input
        (record ctx {
          buffer = overwrite ctx.buffer ctx.buffered input;
          buffered = u8 (ctx.buffered + length input);
        })
        []
Fills-short ctx input b h = record {
  buffering = record {
    capacity = length-overwrite ctx.buffer input ctx.buffered fits ∙ b.capacity;
    partial = omega arith;
  };
  same = ap (λ m. absorb ctx.state m) (sym (append-nil _ ∙ grown));
  total = refl;
  split = inr refl;
}
  where
    fits : ctx.buffered + length input ≤ length ctx.buffer
    fits = omega (arith, b.capacity)

    grown :
        take (u8 (ctx.buffered + length input)) (overwrite ctx.buffer ctx.buffered input)
        ≡ pending ctx ++ input
    grown = take-overwrite ctx.buffer input ctx.buffered _ fits (omega arith)

Fills-block :
    (ctx : Sha256Ctx) (input : Bytes)
    → IsBuffering ctx
    → 64 ≤ ctx.buffered + length input
    → let buffer' = overwrite ctx.buffer ctx.buffered (take (64 - ctx.buffered) input) in
      Fills ctx input
        (record ctx { state = sha256_transform ctx.state buffer'; buffer = buffer'; buffered = 0 })
        (drop (64 - ctx.buffered) input)
Fills-block ctx input b h = record {
  buffering = record { capacity = capacity'; partial = omega arith };
  same =
      absorb-step ctx.state (pending ctx ++ input)
        (omega (arith, length-append (pending ctx) input, length-pending ctx b))
      ∙ ap₂ (λ block rest. absorb (sha256_transform ctx.state block) rest) (sym first) rest;
  total = refl;
  split = inl refl;
}
  where
    source : Bytes
    source = take (64 - ctx.buffered) input

    source_length : length source ≡ 64 - ctx.buffered
    source_length = omega (arith, length-take (64 - ctx.buffered) input)

    fits : ctx.buffered + length source ≤ length ctx.buffer
    fits = omega (arith, source_length, b.capacity, b.partial)

    capacity' : length (overwrite ctx.buffer ctx.buffered source) ≡ 64
    capacity' = length-overwrite ctx.buffer source ctx.buffered fits ∙ b.capacity

    first : overwrite ctx.buffer ctx.buffered source ≡ take 64 (pending ctx ++ input)
    first =
        sym (take_all (overwrite ctx.buffer ctx.buffered source) 64 capacity')
        ∙ take-overwrite ctx.buffer source ctx.buffered 64 fits
            (omega (arith, source_length, b.partial))
        ∙ sym (
            take-append_ge (pending ctx) input ctx.buffered 64 (length-pending ctx b)
              (omega (arith, b.partial)))

    rest : drop 64 (pending ctx ++ input) ≡ drop (64 - ctx.buffered) input
    rest =
        drop-append_ge (pending ctx) input ctx.buffered 64 (length-pending ctx b)
          (omega (arith, b.partial))

fill_buffer-Fills :
    (ctx : Sha256Ctx) (input : Bytes)
    → IsBuffering ctx
    → Fills ctx input (fill_buffer ctx input).0 (fill_buffer ctx input).1
fill_buffer-Fills ctx input b = elim (Bool-cases (ctx.buffered == 0)) [
  | inl e ↦
      let zero_buffered : ctx.buffered ≡ 0 = (==_iff ctx.buffered 0).0 e in
      rw (fill_empty ctx input zero_buffered)
        (record { buffering = b; same = refl; total = refl; split = inl zero_buffered })
  | inr e ↦
      let in_use : ctx.buffered ≢ 0 = ground arith in
      elim (Bool-cases (ltb (ctx.buffered + length input) 64)) [
        | inl short ↦
            let fits : ctx.buffered + length input < 64 = ltb→lt _ 64 short in
            rw
              (
                fill_short ctx input in_use fits,
                take_all input (length input) refl,
                drop_all input (length input) (omega arith),
              )
              (Fills-short ctx input b fits)
        | inr long ↦
            let full : 64 ≤ ctx.buffered + length input = ground arith in
            rw (fill_block ctx input in_use b.partial full) (Fills-block ctx input b full)
      ]
]

-- What `absorb_rest` needs and keeps.
abbrev Absorbs : Sha256Ctx → Bytes → Sha256Ctx → Type 0
Absorbs ctx input out =
    IsBuffering out
    × (absorb ctx.state (pending ctx ++ input) ≡ (out.state, pending out))
    × (out.total_bytes ≡ ctx.total_bytes)

Absorbs-none : (ctx : Sha256Ctx) → IsBuffering ctx → Absorbs ctx [] (absorb_rest ctx [])
unfolding absorb_rest transform_blocks
Absorbs-none ctx b = (
  b,
  ap (λ m. absorb ctx.state m) (append-nil (pending ctx))
      ∙ absorb-short ctx.state (pending ctx) (omega (arith, length-pending ctx b, b.partial)),
  refl,
)

absorb_rest_store :
    (ctx : Sha256Ctx) (input : Bytes)
    → 0 < length (absorb ctx.state input).1
    → absorb_rest ctx input ≡ record ctx {
      state = (absorb ctx.state input).0;
      buffer = overwrite ctx.buffer 0 (absorb ctx.state input).1;
      buffered = u8 (length (absorb ctx.state input).1);
    }
unfolding absorb_rest
absorb_rest_store ctx input h = rw (lt→ltb 0 _ h)

absorb_rest_even :
    (ctx : Sha256Ctx) (input : Bytes)
    → length (absorb ctx.state input).1 ≡ 0
    → absorb_rest ctx input ≡ record ctx { state = (absorb ctx.state input).0 }
unfolding absorb_rest
absorb_rest_even ctx input h = rw h

length-eq-zero : (xs : Bytes) → length xs ≡ 0 → xs ≡ []
length-eq-zero [] e = refl
length-eq-zero (x ∷ xs) e = absurd (omega arith)

Absorbs-empty :
    (ctx : Sha256Ctx) (input : Bytes)
    → IsBuffering ctx
    → ctx.buffered ≡ 0
    → Absorbs ctx input (absorb_rest ctx input)
Absorbs-empty ctx input b e = elim (Bool-cases (ltb 0 (length left))) [
  | inl some_left ↦
      let more : 0 < length left = ltb→lt 0 _ some_left in
      rw (absorb_rest_store ctx input more) (
        record {
          capacity = length-overwrite ctx.buffer left 0 fits ∙ b.capacity;
          partial = omega (arith, less);
        },
        start ∙ ap (λ r. ((absorb ctx.state input).0, r)) (sym stored),
        refl,
      )
  | inr none_left ↦
      let even : length left ≡ 0 = ground arith in
      rw (absorb_rest_even ctx input even) (
        record { capacity = b.capacity; partial = b.partial },
        start ∙ ap (λ r. ((absorb ctx.state input).0, r)) (length-eq-zero left even ∙ sym nothing),
        refl,
      )
]
  where
    left : Bytes
    left = (absorb ctx.state input).1

    less : length left < 64
    less = omega (arith, length-absorb ctx.state input)

    fits : 0 + length left ≤ length ctx.buffer
    fits = omega (arith, less, b.capacity)

    nothing : pending ctx ≡ []
    nothing = rw e

    start : absorb ctx.state (pending ctx ++ input) ≡ ((absorb ctx.state input).0, left)
    start = ap (λ p. absorb ctx.state (p ++ input)) nothing

    stored : take (u8 (length left)) (overwrite ctx.buffer 0 left) ≡ left
    stored = take-overwrite ctx.buffer left 0 (u8 (length left)) fits (omega (arith, less))

absorb_rest-Absorbs :
    (ctx : Sha256Ctx) (input : Bytes)
    → IsBuffering ctx
    → (ctx.buffered ≡ 0) ⊎ (input ≡ [])
    → Absorbs ctx input (absorb_rest ctx input)
absorb_rest-Absorbs ctx input b (inl e) = Absorbs-empty ctx input b e
absorb_rest-Absorbs ctx input b (inr e) = rw e (Absorbs-none ctx b)

update_some :
    (ctx : Sha256Ctx) (x : ℕ) (xs : Bytes)
    → let counted = record ctx { total_bytes = u64 (ctx.total_bytes + length (x ∷ xs)) } in
      sha256_update ctx (x ∷ xs)
      ≡ absorb_rest (fill_buffer counted (x ∷ xs)).0 (fill_buffer counted (x ∷ xs)).1
unfolding sha256_update
update_some ctx x xs = let used : (suc (length xs) == 0) ≡ false = ground arith in rw used

-- `c0_sha256_update` appends to the message that a context has taken in.
pub update-Represents :
    (ctx : Sha256Ctx) (m input : Bytes)
    → Represents ctx m
    → Represents (sha256_update ctx input) (m ++ input)
update-Represents ctx m [] r = unfold sha256_update in rw append-nil r
update-Represents ctx m (x ∷ xs) r =
    let counted = record ctx { total_bytes = u64 (ctx.total_bytes + length (x ∷ xs)) } in
    let fills =
      fill_buffer-Fills counted (x ∷ xs)
        (record { capacity = r.buffering.capacity; partial = r.buffering.partial }) in
    let rest = absorb_rest-Absorbs _ _ fills.buffering fills.split in
    rw (update_some ctx x xs) (record {
      buffering = rest.0;
      consumed =
          absorb-append initial_state m (x ∷ xs)
          ∙ ap (λ p. absorb p.0 (p.1 ++ x ∷ xs)) r.consumed
          ∙ fills.same
          ∙ rest.1;
      counted = omega (arith, rest.2, fills.total, r.counted, length-append m (x ∷ xs));
    })
