-- ===== src/Mlkem/Sample/Stream.antt =====
-- The values that sample_ntt_next takes from its stream: those below 3329, of 12 bits each.
use c0_pqlink_complete.Prelude.{
  ℕ, zero, suc, ◌*◌, ◌≤◌, ◌≡◌, refl, ap, sym, ◌∙◌, Bytes, List, [], ◌∷◌, ◌++◌, some, ltb,
  if◌then◌else◌, length, arith, Bool-cases, inl, inr,
}
use c0_pqlink_complete.Prelude.Arrays.{byte_at}
use c0_pqlink_complete.Keccak.{KeccakCtx, keccak_squeeze}
use c0_pqlink_complete.Keccak.Pieces.{length-squeeze, squeeze-add_squeezing, squeeze-mode}
use c0_pqlink_complete.Mlkem.Sample.{SampleNttReader, first12, second12, draw, sample_ntt_next}

-- The numbers of 12 bits in a stream of bytes, two in each three bytes.
unfoldable pub twelves : Bytes → List ℕ
twelves (b0 ∷ (b1 ∷ (b2 ∷ bytes))) = first12 b0 b1 ∷ second12 b1 b2 ∷ twelves bytes
twelves _ = []

-- Those that are residues modulo 3329.
unfoldable pub accepted : List ℕ → List ℕ
accepted [] = []
accepted (v ∷ values) = if ltb v 3329 then v ∷ accepted values else accepted values

-- The values of the next `count` passes, also of those that are rejected.
unfoldable pub draws : ℕ → SampleNttReader → List ℕ
draws zero reader = []
draws (suc count) reader = (draw reader).1 ∷ draws count (draw reader).0

-- The first value that is accepted within the fuel, and the reader from which the others come.
pub next_accepted :
    (fuel count : ℕ) (reader : SampleNttReader) (value : ℕ) (rest : List ℕ)
    → count ≤ fuel
    → accepted (draws count reader) ≡ value ∷ rest
    → (reader' : SampleNttReader) × (sample_ntt_next fuel reader ≡ some (reader', value))
      × ((count' : ℕ) × (count' ≤ fuel) × (accepted (draws count' reader') ≡ rest))
unfolding sample_ntt_next draws accepted
next_accepted fuel zero reader value rest enough h = cc
next_accepted zero (suc count) reader value rest enough h = absurd (omega arith)
next_accepted (suc fuel) (suc count) reader value rest enough h =
    elim (Bool-cases (ltb (draw reader).1 3329)) [
      | inl small ↦
          let same : (draw reader).1 ∷ accepted (draws count (draw reader).0) ≡ value ∷ rest =
            ap
              (λ b.
                if b
                then (draw reader).1 ∷ accepted (draws count (draw reader).0)
                else accepted (draws count (draw reader).0))
              (sym small)
            ∙ h in
          let first : (draw reader).1 ≡ value = cc in
          let later : accepted (draws count (draw reader).0) ≡ rest = cc in
          (
            (draw reader).0,
            rw (small, sample_ntt_next) (ap (λ (v : ℕ). some ((draw reader).0, v)) first),
            (count, omega arith, later),
          )
      | inr large ↦
          let same : accepted (draws count (draw reader).0) ≡ value ∷ rest =
            ap
              (λ b.
                if b
                then (draw reader).1 ∷ accepted (draws count (draw reader).0)
                else accepted (draws count (draw reader).0))
              (sym large)
            ∙ h in
          let (reader', drawn, (count', le, later)) =
            next_accepted fuel count (draw reader).0 value rest (omega arith) same in
          (reader', rw (large, sample_ntt_next) drawn, (count', omega arith, later))
    ]

drawn_first :
    (reader : SampleNttReader)
    → reader.available ≡ 0
    → draw reader ≡ (
      record {
        ctx = (keccak_squeeze reader.ctx 3).0;
        bytes = (keccak_squeeze reader.ctx 3).1;
        available = 2;
        next = 1;
      },
      first12
          (byte_at (keccak_squeeze reader.ctx 3).1 0)
          (byte_at (keccak_squeeze reader.ctx 3).1 1),
    )
unfolding draw
drawn_first reader empty = rw empty refl

drawn_second :
    (ctx : KeccakCtx) (bytes : Bytes)
    → draw (record { ctx = ctx; bytes = bytes; available = 2; next = 1 }) ≡ (
      record { ctx = ctx; bytes = bytes; available = 0; next = 1 },
      second12 (byte_at bytes 1) (byte_at bytes 2),
    )
unfolding draw
drawn_second ctx bytes = refl

twelves_triple :
    (bytes more : Bytes)
    → length bytes ≡ 3
    → twelves (bytes ++ more)
      ≡ first12 (byte_at bytes 0) (byte_at bytes 1)
        ∷ second12 (byte_at bytes 1) (byte_at bytes 2)
        ∷ twelves more
unfolding twelves
twelves_triple [] more sized = absurd (omega arith)
twelves_triple (a ∷ []) more sized = absurd (omega arith)
twelves_triple (a ∷ (b ∷ [])) more sized = absurd (omega arith)
twelves_triple (a ∷ (b ∷ (c ∷ []))) more sized = refl
twelves_triple (a ∷ (b ∷ (c ∷ (d ∷ bytes)))) more sized = absurd (omega arith)

twelves_nil : (bytes : Bytes) → length bytes ≡ 0 → twelves bytes ≡ []
unfolding twelves
twelves_nil [] sized = refl
twelves_nil (b ∷ bytes) sized = absurd (omega arith)

-- The passes read the stream three bytes at a time.
pub draws-twelves :
    (triples : ℕ) (reader : SampleNttReader)
    → reader.available ≡ 0
    → reader.ctx.squeezing ≡ 1
    → draws (2 * triples) reader ≡ twelves (keccak_squeeze reader.ctx (3 * triples)).1
unfolding draws
draws-twelves triples reader empty mode = from_triples triples _ _ reader refl refl empty mode
  where
    from_triples :
        (triples count size : ℕ) (reader : SampleNttReader)
        → count ≡ 2 * triples
        → size ≡ 3 * triples
        → reader.available ≡ 0
        → reader.ctx.squeezing ≡ 1
        → draws count reader ≡ twelves (keccak_squeeze reader.ctx size).1
    from_triples zero zero size reader c s empty mode =
        sym (twelves_nil _ (length-squeeze reader.ctx size ∙ omega (arith, s)))
    from_triples zero (suc count) size reader c s empty mode = absurd (omega arith)
    from_triples (suc triples) zero size reader c s empty mode = absurd (omega arith)
    from_triples (suc triples) (suc zero) size reader c s empty mode = absurd (omega arith)
    from_triples (suc triples) (suc (suc count)) size reader c s empty mode =
        let ctx' = (keccak_squeeze reader.ctx 3).0 in
        let bytes = (keccak_squeeze reader.ctx 3).1 in
        let later =
          from_triples triples count (3 * triples)
            (record { ctx = ctx'; bytes = bytes; available = 0; next = 1 }) (omega arith) refl refl
            (squeeze-mode reader.ctx 3 mode) in
        let split = squeeze-add_squeezing reader.ctx 3 (3 * triples) size mode (omega arith) in
        let a = first12 (byte_at bytes 0) (byte_at bytes 1) in
        let b = second12 (byte_at bytes 1) (byte_at bytes 2) in
        ap (λ (d : SampleNttReader × ℕ). d.1 ∷ (draw d.0).1 ∷ draws count (draw d.0).0)
          (drawn_first reader empty)
        ∙ ap (λ (d : SampleNttReader × ℕ). a ∷ d.1 ∷ draws count d.0) (drawn_second ctx' bytes)
        ∙ ap (λ (values : List ℕ). a ∷ b ∷ values) later
        ∙ sym (ap twelves split ∙ twelves_triple bytes _ (length-squeeze reader.ctx 3))
