-- ===== src/Mlkem/Sample/Matrix.antt =====
-- The product with an entry of the matrix: the entry is the polynomial that FIPS 203 samples from
-- the stream of its seed, and the code never holds it.
use c0_pqlink_complete.Prelude.{
  ℕ, ◌+◌, ◌*◌, ◌≤◌, ◌≡◌, refl, ap, sym, ◌∙◌, Bytes, List, [], ◌∷◌, ◌++◌, some, length, arith,
}
use c0_pqlink_complete.Prelude.Loops.{count_from, length-count_from}
use c0_pqlink_complete.Keccak.{KeccakCtx, shake128_init, keccak_absorb, keccak_squeeze}
use c0_pqlink_complete.Keccak.Pieces.{absorb-append, absorb-mode, squeeze-finalize, finalize-mode}
use c0_pqlink_complete.Mlkem.Transform.{load_zeta, multiply_block}
use c0_pqlink_complete.Mlkem.Sample.{
  SampleNttReader, sample_ntt_reader_init, matrix_loop, matrix_product_add,
}
use c0_pqlink_complete.Mlkem.Sample.Stream.{twelves, accepted, draws, next_accepted, draws-twelves}

-- The first bytes of SHAKE128.
unfoldable pub shake128 : Bytes → ℕ → Bytes
shake128 input size = (keccak_squeeze (keccak_absorb shake128_init input) size).1

-- The product of two transformed polynomials, added to a third: four coefficients in each block.
unfoldable pub multiply_entries : List ℕ → List ℕ → List ℕ → List ℕ → List ℕ
multiply_entries (block ∷ blocks) (a0 ∷ (a1 ∷ (a2 ∷ (a3 ∷ entries)))) vector accumulator =
    multiply_entries blocks entries vector
      (multiply_block block (load_zeta (64 + block)) a0 a1 a2 a3 vector accumulator)
multiply_entries _ _ vector accumulator = accumulator

-- The residues in the first `3 * triples` bytes of the stream for an entry of the matrix.
unfoldable pub entries : ℕ → Bytes → ℕ → ℕ → List ℕ
entries triples rho x y = accepted (twelves (shake128 (rho ++ (x ∷ (y ∷ []))) (3 * triples)))

loop_entries :
    (blocks : List ℕ) (fuel count : ℕ) (reader : SampleNttReader)
    (values vector accumulator : List ℕ)
    → count ≤ fuel
    → accepted (draws count reader) ≡ values
    → 4 * length blocks ≤ length values
    → matrix_loop fuel vector blocks reader accumulator
      ≡ some (multiply_entries blocks values vector accumulator)
unfolding matrix_loop multiply_entries
loop_entries [] fuel count reader values vector accumulator enough drawn sized = refl
loop_entries (block ∷ blocks) fuel count reader [] vector accumulator enough drawn sized =
    absurd (omega arith)
loop_entries (block ∷ blocks) fuel count reader (a0 ∷ []) vector accumulator enough drawn sized =
    absurd (omega arith)
loop_entries (block ∷ blocks) fuel count reader (a0 ∷ (a1 ∷ [])) vector accumulator enough drawn
      sized =
    absurd (omega arith)
loop_entries (block ∷ blocks) fuel count reader (a0 ∷ (a1 ∷ (a2 ∷ []))) vector accumulator enough
      drawn sized =
    absurd (omega arith)
loop_entries (block ∷ blocks) fuel count reader (a0 ∷ (a1 ∷ (a2 ∷ (a3 ∷ values)))) vector
      accumulator enough drawn sized =
    let (r0, d0, (c0, le0, h0)) = next_accepted fuel count reader a0 _ enough drawn in
    let (r1, d1, (c1, le1, h1)) = next_accepted fuel c0 r0 a1 _ le0 h0 in
    let (r2, d2, (c2, le2, h2)) = next_accepted fuel c1 r1 a2 _ le1 h1 in
    let (r3, d3, (c3, le3, h3)) = next_accepted fuel c2 r2 a3 _ le2 h2 in
    rw (d0, d1, d2, d3)
      (loop_entries blocks fuel c3 r3 values vector
        (multiply_block block (load_zeta (64 + block)) a0 a1 a2 a3 vector accumulator) le3 h3
        (omega arith))

-- With fuel for as many values of the stream as hold 256 residues, the product is that with these
-- residues: the rejection sampling ends.
pub matrix_product_add_lem :
    (fuel triples x y : ℕ) (rho : Bytes) (vector accumulator : List ℕ)
    → 2 * triples ≤ fuel
    → 256 ≤ length (entries triples rho x y)
    → matrix_product_add fuel accumulator vector rho x y
      ≡ some (multiply_entries (count_from 0 64) (entries triples rho x y) vector accumulator)
unfolding matrix_product_add sample_ntt_reader_init entries shake128
matrix_product_add_lem fuel triples x y rho vector accumulator enough sized =
    let seeded = keccak_absorb shake128_init rho in
    let ctx = keccak_absorb seeded (x ∷ (y ∷ [])) in
    let mode : ctx.squeezing ≡ 0 = absorb-mode seeded _ (absorb-mode shake128_init rho refl) in
    let joined : keccak_absorb shake128_init (rho ++ (x ∷ (y ∷ []))) ≡ ctx =
      absorb-append shake128_init rho (x ∷ (y ∷ [])) refl in
    let stream =
      squeeze-finalize ctx (3 * triples) mode
      ∙ ap (λ (c : KeccakCtx). (keccak_squeeze c (3 * triples)).1) (sym joined) in
    loop_entries (count_from 0 64) fuel (2 * triples) (sample_ntt_reader_init rho x y) _ vector
      accumulator enough
      (ap accepted (
        draws-twelves triples (sample_ntt_reader_init rho x y) refl (finalize-mode ctx mode)
        ∙ ap twelves stream))
      (omega (arith, length-count_from 0 64, sized))
