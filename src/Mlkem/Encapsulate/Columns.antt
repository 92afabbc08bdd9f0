-- ===== src/Mlkem/Encapsulate/Columns.antt =====
-- The product with a column of the public key: the polynomial that its bytes hold.
use c0_pqlink_complete.Prelude.{
  ℕ, zero, suc, ◌+◌, ◌*◌, ◌<◌, ◌≤◌, ◌≡◌, refl, ap, sym, ◌∙◌, Bytes, List, ◌∷◌, length, take, drop,
  arith,
}
use c0_pqlink_complete.Prelude.Arrays.{byte_at, slice}
use c0_pqlink_complete.Prelude.Loops.{each, count_from}
use c0_pqlink_complete.Mlkem.Transform.{load_zeta, multiply_block}
use c0_pqlink_complete.Mlkem.Sample.{first12, second12}
use c0_pqlink_complete.Mlkem.Sample.Stream.{twelves}
use c0_pqlink_complete.Mlkem.Sample.Matrix.{multiply_entries}
use c0_pqlink_complete.Mlkem.Encapsulate.{key_block, key_column, noise_transform}
use c0_pqlink_complete.Mlkem.Encapsulate.Key.{drop-byte}

slice-byte :
    (xs : Bytes) (start next count : ℕ)
    → start < length xs
    → next ≡ suc start
    → slice start (suc count) xs ≡ byte_at xs start ∷ slice next count xs
slice-byte xs start next count h e =
    ap (take (suc count)) (drop-byte xs start h)
    ∙ ap (λ n. byte_at xs start ∷ take count (drop n xs)) (sym e)

-- The coefficients of a block, and the rest.
twelves-block :
    (xs : Bytes) (base count size : ℕ)
    → base + 6 ≤ length xs
    → size ≡ 6 + count
    → twelves (slice base size xs)
      ≡ first12 (byte_at xs base) (byte_at xs (base + 1))
        ∷ second12 (byte_at xs (base + 1)) (byte_at xs (base + 2))
        ∷ first12 (byte_at xs (base + 3)) (byte_at xs (base + 4))
        ∷ second12 (byte_at xs (base + 4)) (byte_at xs (base + 5))
        ∷ twelves (slice (base + 6) count xs)
unfolding twelves
twelves-block xs base count size h e = ap twelves (
    ap (λ n. slice base n xs) shape
    ∙ slice-byte xs base (base + 1) (suc (suc (suc (suc (suc count))))) (omega arith) (omega arith)
    ∙ ap (◌∷◌ b0) (
        slice-byte xs (base + 1) (base + 2) (suc (suc (suc (suc count)))) (omega arith)
          (omega arith)
        ∙ ap (◌∷◌ b1) (
            slice-byte xs (base + 2) (base + 3) (suc (suc (suc count))) (omega arith) (omega arith)
            ∙ ap (◌∷◌ b2) (
                slice-byte xs (base + 3) (base + 4) (suc (suc count)) (omega arith) (omega arith)
                ∙ ap (◌∷◌ b3) (
                    slice-byte xs (base + 4) (base + 5) (suc count) (omega arith) (omega arith)
                    ∙ ap (◌∷◌ b4)
                        (slice-byte xs (base + 5) (base + 6) count (omega arith) (omega arith)))))))
  where
    b0 : ℕ
    b0 = byte_at xs base

    b1 : ℕ
    b1 = byte_at xs (base + 1)

    b2 : ℕ
    b2 = byte_at xs (base + 2)

    b3 : ℕ
    b3 = byte_at xs (base + 3)

    b4 : ℕ
    b4 = byte_at xs (base + 4)

    shape : size ≡ suc (suc (suc (suc (suc (suc count)))))
    shape = omega (arith, e)

blocks_of_column :
    (count start column size base : ℕ) (public_key : Bytes) (vector accumulator : List ℕ)
    → size ≡ 6 * count
    → base ≡ column * 384 + start * 6
    → base + size ≤ length public_key
    → each (count_from start count) accumulator (key_block public_key column vector)
      ≡ multiply_entries
          (count_from start count)
          (twelves (slice base size public_key))
          vector
          accumulator
unfolding count_from multiply_entries key_block
blocks_of_column zero start column size base public_key vector accumulator s b h = refl
blocks_of_column (suc count) start column size base public_key vector accumulator s b h =
    let here : column * 384 + start * 6 ≡ base = omega (arith, b) in
    let rest =
      blocks_of_column count (start + 1) column (6 * count) (base + 6) public_key vector
        (key_block public_key column vector accumulator start) refl (omega (arith, b))
        (omega (arith, s)) in
    let block_at = λ (b : ℕ).
      multiply_block start (load_zeta (64 + start))
        (first12 (byte_at public_key b) (byte_at public_key (b + 1)))
        (second12 (byte_at public_key (b + 1)) (byte_at public_key (b + 2)))
        (first12 (byte_at public_key (b + 3)) (byte_at public_key (b + 4)))
        (second12 (byte_at public_key (b + 4)) (byte_at public_key (b + 5))) vector accumulator in
    rest
    ∙ ap
        (λ b.
          multiply_entries (count_from (start + 1) count)
            (twelves (slice (base + 6) (6 * count) public_key)) vector (block_at b))
        here
    ∙ sym (
        ap
          (λ values.
            multiply_entries (start ∷ count_from (start + 1) count) values vector accumulator)
          (twelves-block public_key base (6 * count) size (omega (arith, s)) (omega (arith, s))))

-- The loop over the blocks of a column is the product with the polynomial in its 384 bytes.
pub key_column_lem :
    (public_key coins : Bytes) (accumulator : List ℕ) (column : ℕ)
    → column * 384 + 384 ≤ length public_key
    → key_column public_key coins accumulator column
      ≡ multiply_entries
          (count_from 0 64)
          (twelves (slice (column * 384) 384 public_key))
          (noise_transform coins column)
          accumulator
unfolding key_column
key_column_lem public_key coins accumulator column h =
    blocks_of_column 64 0 column 384 (column * 384) public_key (noise_transform coins column)
      accumulator refl (omega arith) h
