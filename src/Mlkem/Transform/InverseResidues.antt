-- ===== src/Mlkem/Transform/InverseResidues.antt =====
-- src/core/mlkem512_stream.c: inverse_ntt, beside that of the residues, layer by layer.
use c0_pqlink_complete.Prelude.{
  ℕ, ◌+◌, ◌-◌, ◌*◌, ◌/◌, ◌%◌, ◌^◌, ◌<◌, ◌≤◌, ◌≡◌, refl, ap, sym, ◌∙◌, subst, List, [], ◌∷◌, map,
  length, length-map, arith,
}
use native.Mathlib.Nat.{mul-le-mul}
use c0_pqlink_complete.Prelude.Loops.{each, count_from, each_together}
use c0_pqlink_complete.Mlkem.{fqmul}
use c0_pqlink_complete.Mlkem.Compress.{canonical}
use c0_pqlink_complete.Mlkem.Product.{Within, fqmul-Multiplies, magnitude, magnitude-Within}
use c0_pqlink_complete.Mlkem.Transform.{
  coefficient, load_zeta, inverse_butterfly, inverse_block, inverse_layer, inverse_ntt,
}
use c0_pqlink_complete.Mlkem.Transform.Reference.{root}
use c0_pqlink_complete.Mlkem.Transform.Butterfly.{Within-lt, cancel, canonical_small}
use c0_pqlink_complete.Mlkem.Transform.Inverse.{
  reference_inverse_butterfly, reference_inverse_block, reference_inverse_layer,
  reference_inverse_ntt, butterfly-Residues,
}
use c0_pqlink_complete.Mlkem.Transform.Writes.{Residues, coefficient-map, each-starts}

-- The state between two blocks, with the number of the next zeta.
record Going (z : ℕ) (s t : List ℕ × ℕ) : Type 0 where
  pub residues : Residues 1 s.0 t.0
  pub zeta : s.1 ≡ z
  pub root_number : t.1 ≡ z

block-Going :
    (len start z : ℕ) (s t : List ℕ × ℕ)
    → z < 128
    → 0 < len
    → start + 2 * len ≤ 256
    → Going z s t
    → Going (z - 1) (inverse_block len s start) (reference_inverse_block len t start)
block-Going len start z (p, zs) (f, zt) zb pos inside going = record {
  residues =
      each_together (λ j. Residues 1) (inverse_butterfly (load_zeta zs) len)
        (reference_inverse_butterfly (root zt) len) len start step p f going.residues;
  zeta = ap (λ n. n - 1) going.zeta;
  root_number = ap (λ n. n - 1) going.root_number;
}
  where
    step :
        (j : ℕ) (q g : List ℕ)
        → start ≤ j
        → j < start + len
        → Residues 1 q g
        → Residues 1
            (inverse_butterfly (load_zeta zs) len q j)
            (reference_inverse_butterfly (root zt) len g j)
    step j q g from below state =
        subst
          (λ n.
            Residues 1 (inverse_butterfly (load_zeta zs) len q j)
              (reference_inverse_butterfly (root n) len g j))
          (going.zeta ∙ sym going.root_number)
          (butterfly-Residues len zs j q g (omega (arith, zb, going.zeta)) pos
            (omega (arith, inside)) state)

layer-Going :
    (len count z : ℕ) (s t : List ℕ × ℕ)
    → 0 < len
    → 128 / len ≡ count
    → count * (2 * len) ≡ 256
    → z < 128
    → count ≤ z
    → Going z s t
    → Going (z - count) (inverse_layer s len) (reference_inverse_layer t len)
layer-Going len count z s t pos blocks whole zb zetas going =
    let loop =
      each_together (λ i. Going (z - i)) (λ q i. inverse_block len q (i * (2 * len)))
        (λ g i. reference_inverse_block len g (i * (2 * len))) count 0 step s t
        (subst (λ n. Going n s t) zero_left going) in
    subst (λ q. Going (z - count) q (reference_inverse_layer t len))
      (sym (each-starts len count (inverse_block len) s blocks))
      (subst
        (Going (z - count)
          (each (count_from 0 count) s (λ q i. inverse_block len q (i * (2 * len)))))
        (sym (each-starts len count (reference_inverse_block len) t blocks))
        (record {
          residues = loop.residues;
          zeta = loop.zeta ∙ omega arith;
          root_number = loop.root_number ∙ omega arith;
        }))
  where
    zero_left : z ≡ z - 0
    zero_left = omega arith

    step :
        (i : ℕ) (q g : List ℕ × ℕ)
        → 0 ≤ i
        → i < 0 + count
        → Going (z - i) q g
        → Going
            (z - (i + 1))
            (inverse_block len q (i * (2 * len)))
            (reference_inverse_block len g (i * (2 * len)))
    step i q g low high before =
        let top : (i + 1) * (2 * len) ≤ count * (2 * len) =
          mul-le-mul {n₂ = count} {m₂ = 2 * len} (omega (arith, high)) (omega arith) in
        let next : i * (2 * len) + 2 * len ≡ (i + 1) * (2 * len) = omega arith in
        let number : z - i - 1 ≡ z - (i + 1) = omega arith in
        subst
          (λ n.
            Going n (inverse_block len q (i * (2 * len)))
              (reference_inverse_block len g (i * (2 * len))))
          number
          (block-Going len (i * (2 * len)) (z - i) q g (omega (arith, zb)) pos
            (omega (arith, top, next, whole)) before)

-- The layers fit a polynomial of 256, and the zetas.
abbrev Fits : ℕ → List ℕ → Type 0
Fits z [] = Unit
Fits z (len ∷ lens) =
    (0 < len)
    × (128 / len * (2 * len) ≡ 256)
    × (z < 128)
    × (128 / len ≤ z)
    × Fits (z - 128 / len) lens

layers-Residues :
    (lens : List ℕ) (z : ℕ) (s t : List ℕ × ℕ)
    → Fits z lens
    → Going z s t
    → Residues 1 (each lens s inverse_layer).0 (each lens t reference_inverse_layer).0
layers-Residues [] z s t fits going = going.residues
layers-Residues (len ∷ lens) z s t (pos, whole, zb, zetas, rest) going =
    layers-Residues lens (z - 128 / len) (inverse_layer s len) (reference_inverse_layer t len) rest
      (layer-Going len (128 / len) z s t pos refl whole zb zetas going)

-- The factor 1441 is 2 ^ 32 / 128 modulo 3329.
scaled :
    (c : ℕ)
    → Within 1 c
    → (canonical (fqmul c 1441) ≡ canonical c * 3303 % 3329 * 2 ^ 16 % 3329)
      × Within 1 (fqmul c 1441)
scaled c small =
    let bound : magnitude c * 1441 ≤ 3329 * 1441 =
      mul-le-mul {n₂ = 3329} {m₂ = 1441} (omega (arith, magnitude-Within 1 c (omega arith) small))
        (omega arith) in
    let (within, below, product) =
      fqmul-Multiplies c 1441 (Within-lt 1 c (omega arith) small) (omega arith)
        (omega (arith, bound)) in
    (
      sym (canonical_small (fqmul c 1441))
          ∙ cancel (canonical (fqmul c 1441)) (canonical c * 3303 * 2 ^ 16) (product ∙ omega arith)
          ∙ omega arith,
      within,
    )

-- For a polynomial of 256 coefficients between -3329 and 3329, each coefficient of the inverse
-- transform is that of FIPS 203 on the residues modulo 3329, times 2 ^ 16, and it is between -3329
-- and 3329.
pub inverse_ntt-residues :
    (p : List ℕ)
    → length p ≡ 256
    → ((i : ℕ) → i < 256 → Within 1 (coefficient p i))
    → (i : ℕ) → i < 256
    → (canonical (coefficient (inverse_ntt p) i)
        ≡ coefficient (reference_inverse_ntt (map canonical p)) i * 2 ^ 16 % 3329)
      × Within 1 (coefficient (inverse_ntt p) i)
unfolding inverse_ntt reference_inverse_ntt
inverse_ntt-residues p sized small i below =
    let start : Going 127 (p, 127) (map canonical p, 127) = record {
      residues = record {
        sized = sized;
        sized_residues = length-map p canonical ∙ sized;
        residues = λ i below. sym (coefficient-map canonical p i (omega (arith, sized)));
        bounded = small;
      };
      zeta = refl;
      root_number = refl;
    } in
    let lens = 2 ∷ 4 ∷ 8 ∷ 16 ∷ 32 ∷ 64 ∷ 128 ∷ [] in
    let end = layers-Residues lens 127 (p, 127) (map canonical p, 127) (omega arith) start in
    let q = (each lens (p, 127) inverse_layer).0 in
    let g = (each lens (map canonical p, 127) reference_inverse_layer).0 in
    let (residue, within) = scaled (coefficient q i) (end.bounded i below) in
    let at_q = coefficient-map (λ c. fqmul c 1441) q i (omega (arith, end.sized, below)) in
    let at_g =
      coefficient-map (λ c. c * 3303 % 3329) g i (omega (arith, end.sized_residues, below)) in
    (
      ap canonical at_q
          ∙ residue
          ∙ ap (λ (c : ℕ). c * 3303 % 3329 * 2 ^ 16 % 3329) (end.residues i below)
          ∙ ap (λ (c : ℕ). c * 2 ^ 16 % 3329) (sym at_g),
      subst (Within 1) (sym at_q) within,
    )
