-- ===== src/Mlkem/Transform/Residues.antt =====
-- src/core/mlkem512_stream.c: ntt, beside the transform of the residues, layer by layer.
use c0_pqlink_complete.Prelude.{
  ℕ, suc, ◌+◌, ◌*◌, ◌/◌, ◌<◌, ◌≤◌, ◌≡◌, inl, inr, refl, ap, sym, ◌∙◌, subst, List, [], ◌∷◌, map,
  length, length-map, arith,
}
use native.Mathlib.Nat.{mul-le-mul}
use c0_pqlink_complete.Prelude.Loops.{each, count_from, each_together}
use c0_pqlink_complete.Mlkem.Compress.{canonical}
use c0_pqlink_complete.Mlkem.Product.{Within}
use c0_pqlink_complete.Mlkem.Transform.{
  coefficient, load_zeta, butterfly, ntt_block, ntt_layer, ntt,
}
use c0_pqlink_complete.Mlkem.Transform.Reference.{
  root, reference_butterfly, reference_block, reference_layer, reference_ntt,
}
use c0_pqlink_complete.Mlkem.Transform.Butterfly.{Within-suc}
use c0_pqlink_complete.Mlkem.Transform.Writes.{Residues, coefficient-map, each-starts}
use c0_pqlink_complete.Mlkem.Transform.Layers.{Fresh, Underway, butterfly-Underway}

-- The state of a layer before the block from `start` on.
record Before (k len start z : ℕ) (s t : List ℕ × ℕ) : Type 0 where
  pub underway : Underway k len start start s.0 t.0
  pub zeta : s.1 ≡ z
  pub root_number : t.1 ≡ z

block-Before :
    (k len start z : ℕ) (s t : List ℕ × ℕ)
    → k ≤ 7
    → z < 128
    → 0 < len
    → start + 2 * len ≤ 256
    → Before k len start z s t
    → Before k len (start + 2 * len) (z + 1) (ntt_block len s start) (reference_block len t start)
block-Before k len start z (p, zs) (f, zt) small zb pos inside before =
    let loop =
      each_together (Underway k len start) (butterfly (load_zeta zs) len)
        (reference_butterfly (root zt) len) len start step p f before.underway in
    record {
      underway = record {
        all = loop.all;
        fresh = λ i below new. loop.fresh i below (inr (past i new));
      };
      zeta = ap (λ n. n + 1) before.zeta;
      root_number = ap (λ n. n + 1) before.root_number;
    }
  where
    same : zs ≡ zt
    same = before.zeta ∙ sym before.root_number

    step :
        (j : ℕ) (q g : List ℕ)
        → start ≤ j
        → j < start + len
        → Underway k len start j q g
        → Underway k len start
            (j + 1)
            (butterfly (load_zeta zs) len q j)
            (reference_butterfly (root zt) len g j)
    step j q g from below state =
        subst
          (λ n.
            Underway k len start (j + 1) (butterfly (load_zeta zs) len q j)
              (reference_butterfly (root n) len g j))
          same
          (butterfly-Underway k len start zs j q g small (omega (arith, before.zeta)) pos from below
            (omega (arith, inside)) state)

    past : (i : ℕ) → Fresh len (start + 2 * len) (start + 2 * len) i → start + len + len ≤ i
    past i (inl (low, high)) = omega arith
    past i (inr low) = omega arith

-- The state between two layers, with the number of the next zeta.
record Between (k z : ℕ) (s t : List ℕ × ℕ) : Type 0 where
  pub residues : Residues k s.0 t.0
  pub zeta : s.1 ≡ z
  pub root_number : t.1 ≡ z

layer-Between :
    (k len count z : ℕ) (s t : List ℕ × ℕ)
    → k ≤ 7
    → 0 < len
    → 128 / len ≡ count
    → count * (2 * len) ≡ 256
    → z + count ≤ 128
    → Between k z s t
    → Between (suc k) (z + count) (ntt_layer s len) (reference_layer t len)
layer-Between k len count z s t small pos blocks whole zetas between =
    let loop =
      each_together (λ i. Before k len (i * (2 * len)) (z + i))
        (λ q i. ntt_block len q (i * (2 * len))) (λ g i. reference_block len g (i * (2 * len)))
        count 0 step s t start in
    let a = each-starts len count (ntt_block len) s blocks in
    let b = each-starts len count (reference_block len) t blocks in
    subst (λ q. Between (suc k) (z + count) q (reference_layer t len)) (sym a)
      (subst
        (Between (suc k) (z + count)
          (each (count_from 0 count) s (λ q i. ntt_block len q (i * (2 * len)))))
        (sym b)
        (record {
          residues = record {
            sized = loop.underway.all.sized;
            sized_residues = loop.underway.all.sized_residues;
            residues = loop.underway.all.residues;
            bounded = loop.underway.all.bounded;
          };
          zeta = loop.zeta ∙ omega arith;
          root_number = loop.root_number ∙ omega arith;
        }))
  where
    start : Before k len (0 * (2 * len)) (z + 0) s t
    start = record {
      underway = record {
        all = record {
          sized = between.residues.sized;
          sized_residues = between.residues.sized_residues;
          residues = between.residues.residues;
          bounded = λ i below. Within-suc k _ (between.residues.bounded i below);
        };
        fresh = λ i below new. between.residues.bounded i below;
      };
      zeta = omega (arith, between.zeta);
      root_number = omega (arith, between.root_number);
    }

    step :
        (i : ℕ) (q g : List ℕ × ℕ)
        → 0 ≤ i
        → i < 0 + count
        → Before k len (i * (2 * len)) (z + i) q g
        → Before k len
            ((i + 1) * (2 * len))
            (z + (i + 1))
            (ntt_block len q (i * (2 * len)))
            (reference_block len g (i * (2 * len)))
    step i q g low high before =
        let top : (i + 1) * (2 * len) ≤ count * (2 * len) =
          mul-le-mul {n₂ = count} {m₂ = 2 * len} (omega (arith, high)) (omega arith) in
        let next : i * (2 * len) + 2 * len ≡ (i + 1) * (2 * len) = omega arith in
        let number : z + i + 1 ≡ z + (i + 1) = omega arith in
        subst
          (λ n.
            Before k len n (z + (i + 1)) (ntt_block len q (i * (2 * len)))
              (reference_block len g (i * (2 * len))))
          next
          (subst
            (λ n.
              Before k len (i * (2 * len) + 2 * len) n (ntt_block len q (i * (2 * len)))
                (reference_block len g (i * (2 * len))))
            number
            (block-Before k len (i * (2 * len)) (z + i) q g small (omega (arith, zetas, high)) pos
              (omega (arith, top, next, whole)) before))

-- The layers fit a polynomial of 256, the zetas and the range of 16 bits.
abbrev Fits : ℕ → ℕ → List ℕ → Type 0
Fits k z [] = Unit
Fits k z (len ∷ lens) =
    (k ≤ 7)
    × (0 < len)
    × (128 / len * (2 * len) ≡ 256)
    × (z + 128 / len ≤ 128)
    × Fits (suc k) (z + 128 / len) lens

layers-Residues :
    (lens : List ℕ) (k z : ℕ) (s t : List ℕ × ℕ)
    → Fits k z lens
    → Between k z s t
    → Residues (length lens + k) (each lens s ntt_layer).0 (each lens t reference_layer).0
layers-Residues [] k z s t fits between =
    subst (λ n. Residues n s.0 t.0) (omega arith) between.residues
layers-Residues (len ∷ lens) k z s t (small, pos, whole, zetas, rest) between =
    subst
      (λ n.
        Residues n (each lens (ntt_layer s len) ntt_layer).0
          (each lens (reference_layer t len) reference_layer).0)
      (omega arith)
      (layers-Residues lens (suc k) (z + 128 / len) (ntt_layer s len) (reference_layer t len) rest
        (layer-Between k len (128 / len) z s t small pos refl whole zetas between))

-- For a polynomial of 256 coefficients between -3329 and 3329, the transform of the code is that of
-- FIPS 203 on the residues modulo 3329; each of its coefficients is between -8 * 3329 and 8 * 3329.
pub ntt-residues :
    (p : List ℕ)
    → length p ≡ 256
    → ((i : ℕ) → i < 256 → Within 1 (coefficient p i))
    → (i : ℕ) → i < 256
    → (canonical (coefficient (ntt p) i) ≡ coefficient (reference_ntt (map canonical p)) i)
      × Within 8 (coefficient (ntt p) i)
unfolding ntt reference_ntt
ntt-residues p sized small i below =
    let start : Between 1 1 (p, 1) (map canonical p, 1) = record {
      residues = record {
        sized = sized;
        sized_residues = length-map p canonical ∙ sized;
        residues = λ i below. sym (coefficient-map canonical p i (omega (arith, sized)));
        bounded = small;
      };
      zeta = refl;
      root_number = refl;
    } in
    let end =
      layers-Residues (128 ∷ 64 ∷ 32 ∷ 16 ∷ 8 ∷ 4 ∷ 2 ∷ []) 1 1 (p, 1) (map canonical p, 1)
        (omega arith) start in
    (end.residues i below, end.bounded i below)
