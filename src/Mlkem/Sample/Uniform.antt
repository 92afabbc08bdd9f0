-- ===== src/Mlkem/Sample/Uniform.antt =====
-- sample_ntt_next of src/core/mlkem512_stream.c against the sampling of FIPS 203 (Algorithm 7).
use c0_pqlink_complete.Prelude.{
  ℕ, zero, suc, ◌+◌, ◌*◌, ◌/◌, ◌%◌, ◌^◌, ◌<◌, ◌≤◌, ◌≡◌, refl, ap, ap₂, sym, subst, ◌∙◌, Bytes, List,
  [], ◌∷◌, ◌++◌, Bool, true, Option, some, bit_and, ◌>>>◌, ◌==◌, ==_iff, take, length, arith,
}
use c0_pqlink_complete.Prelude.Arrays.{IsBytes}
use c0_pqlink_complete.Prelude.Bits.{bit_or-fields, bit_or_comm}
use c0_pqlink_complete.Keccak.{
  KeccakCtx, shake128_init, keccak_absorb, keccak_squeeze, squeeze_bytes, advance,
}
use c0_pqlink_complete.Keccak.Pieces.{absorb-append, absorb-mode, squeeze-finalize, finalize-mode}
use c0_pqlink_complete.Mlkem.Range.{holds_from, holds_from-at}
use c0_pqlink_complete.Mlkem.Sample.{
  SampleNttReader, sample_ntt_reader_init, sample_ntt_next, first12, second12, ◌>>=◌,
}
use c0_pqlink_complete.Mlkem.Sample.Stream.{twelves, accepted, draws, next_accepted, draws-twelves}
use c0_pqlink_complete.Mlkem.Sample.Matrix.{shake128}

-- Two numbers of 12 bits in each three bytes.
unfoldable pub twelve_bits : Bytes → List ℕ
twelve_bits (b0 ∷ (b1 ∷ (b2 ∷ bytes))) =
    (b0 + 256 * (b1 % 16)) ∷ (b1 / 16 + 16 * b2) ∷ twelve_bits bytes
twelve_bits _ = []

-- The residues in the first `3 * triples` bytes of SHAKE128 of the seed and two indices.
abbrev pub residues : ℕ → Bytes → ℕ → ℕ → List ℕ
residues triples rho x y = accepted (twelve_bits (shake128 (rho ++ (x ∷ (y ∷ []))) (3 * triples)))

-- The values of a number of calls, one after the other.
pub called : ℕ → ℕ → SampleNttReader → Option (List ℕ)
called zero fuel reader = some []
called (suc calls) fuel reader = sample_ntt_next fuel reader >>= λ drawn.
    called calls fuel drawn.0 >>= λ values. some (drawn.1 ∷ values)

squeeze_bytes-IsBytes : (size : ℕ) (ctx : KeccakCtx) → IsBytes (squeeze_bytes size ctx).1
unfolding squeeze_bytes
squeeze_bytes-IsBytes zero ctx = tt
squeeze_bytes-IsBytes (suc size) ctx = (omega arith, squeeze_bytes-IsBytes size (advance ctx))

shake128-IsBytes : (input : Bytes) (size : ℕ) → IsBytes (shake128 input size)
unfolding shake128 keccak_squeeze
shake128-IsBytes input size = squeeze_bytes-IsBytes size _

nibble_test : ℕ → Bool
nibble_test n = bit_and n 15 == n % 16

nibble_table : holds_from nibble_test 0 256 ≡ true
unfolding holds_from nibble_test
nibble_table = refl

low_nibble : (b : ℕ) → b < 2 ^ 8 → bit_and b 15 ≡ b % 16
unfolding nibble_test
low_nibble b h =
    let same : 0 + b ≡ b = omega arith in
    (==_iff (bit_and b 15) (b % 16)).0
      (subst (λ n. nibble_test n ≡ true) same (holds_from-at nibble_test 256 0 b nibble_table h))

first12_lem : (b0 b1 : ℕ) → b0 < 2 ^ 8 → b1 < 2 ^ 8 → first12 b0 b1 ≡ b0 + 256 * (b1 % 16)
first12_lem b0 b1 h g =
    let fields = bit_or-fields 8 (bit_and b1 15) b0 h in
    bit_or_comm b0 _ ∙ omega (arith, fields, low_nibble b1 g)

second12_lem : (b1 b2 : ℕ) → b1 < 2 ^ 8 → second12 b1 b2 ≡ b1 / 16 + 16 * b2
second12_lem b1 b2 h =
    let fields = bit_or-fields 4 b2 (b1 >>> 4) (omega arith) in
    bit_or_comm (b1 >>> 4) _ ∙ omega (arith, fields)

twelves-twelve_bits : (bytes : Bytes) → IsBytes bytes → twelves bytes ≡ twelve_bits bytes
unfolding twelves twelve_bits
twelves-twelve_bits (b0 ∷ (b1 ∷ (b2 ∷ bytes))) h =
    ap₂ ◌∷◌ (first12_lem b0 b1 h.0 h.1.0)
      (ap₂ ◌∷◌ (second12_lem b1 b2 h.1.0) (twelves-twelve_bits bytes h.1.1.1))
twelves-twelve_bits [] h = refl
twelves-twelve_bits (b0 ∷ []) h = refl
twelves-twelve_bits (b0 ∷ (b1 ∷ [])) h = refl

called-accepted :
    (calls fuel count : ℕ) (reader : SampleNttReader) (values : List ℕ)
    → count ≤ fuel
    → accepted (draws count reader) ≡ values
    → calls ≤ length values
    → called calls fuel reader ≡ some (take calls values)
unfolding called
called-accepted zero fuel count reader values enough drawn sized = refl
called-accepted (suc calls) fuel count reader [] enough drawn sized = absurd (omega arith)
called-accepted (suc calls) fuel count reader (value ∷ values) enough drawn sized =
    let (reader', got, (count', le, later)) =
      next_accepted fuel count reader value values enough drawn in
    rw (got, called-accepted calls fuel count' reader' values le later (omega arith)) refl

-- With fuel for two values of each of the first `triples` triples of the stream, that many calls of
-- sample_ntt_next as these hold residues, or fewer, return the first residues of FIPS 203 for the
-- seed and the two indices, in order: of the 12-bit numbers `b0 + 256 * (b1 % 16)` and
-- `b1 / 16 + 16 * b2` of each three bytes of the stream, those below 3329. The stream is SHAKE128 of
-- the seed and the indices, as the sponge of the code gives it in one piece; the code squeezes it in
-- pieces of three bytes.
pub sample_ntt_next-residues :
    (fuel triples calls x y : ℕ) (rho : Bytes)
    → 2 * triples ≤ fuel
    → calls ≤ length (residues triples rho x y)
    → called calls fuel (sample_ntt_reader_init rho x y)
      ≡ some (take calls (residues triples rho x y))
unfolding sample_ntt_reader_init shake128
sample_ntt_next-residues fuel triples calls x y rho enough sized =
    let seeded = keccak_absorb shake128_init rho in
    let ctx = keccak_absorb seeded (x ∷ (y ∷ [])) in
    let mode : ctx.squeezing ≡ 0 = absorb-mode seeded _ (absorb-mode shake128_init rho refl) in
    let joined : keccak_absorb shake128_init (rho ++ (x ∷ (y ∷ []))) ≡ ctx =
      absorb-append shake128_init rho (x ∷ (y ∷ [])) refl in
    let stream =
      squeeze-finalize ctx (3 * triples) mode
      ∙ ap (λ (c : KeccakCtx). (keccak_squeeze c (3 * triples)).1) (sym joined) in
    called-accepted calls fuel (2 * triples) (sample_ntt_reader_init rho x y) _ enough
      (ap accepted (
        draws-twelves triples (sample_ntt_reader_init rho x y) refl (finalize-mode ctx mode)
        ∙ ap twelves stream
        ∙ twelves-twelve_bits _ (shake128-IsBytes (rho ++ (x ∷ (y ∷ []))) (3 * triples))))
      sized
