-- ===== src/Mlkem/Transform/Pairs.antt =====
-- The products of pairs of transformed coefficients, which are polynomials modulo X ^ 2 - root.
use c0_pqlink_complete.Prelude.{
  ℕ, suc, ◌+◌, ◌*◌, ◌%◌, ◌^◌, ◌≤◌, ◌≡◌, inl, inr, ap, ap₂, sym, ◌∙◌, subst, u16, arith,
}
use native.Mathlib.Nat.{mul-le-mul}
use c0_pqlink_complete.Mlkem.{fqmul}
use c0_pqlink_complete.Mlkem.Compress.{canonical}
use c0_pqlink_complete.Mlkem.Product.{
  Within, magnitude, magnitude-Within, fqmul-Multiplies, residue_product,
}
use c0_pqlink_complete.Mlkem.Transform.{add16, base_multiply_add}
use c0_pqlink_complete.Mlkem.Transform.Butterfly.{add16-residue, Within-lt, canonical_small}

-- A product in Montgomery form.
product_of :
    (a b : ℕ)
    → Within 1 a
    → Within 8 b
    → Within 1 (fqmul a b)
      × (canonical (fqmul a b) * 2 ^ 16 % 3329 ≡ canonical a * canonical b % 3329)
product_of a b wa wb =
    let bound : magnitude a * magnitude b ≤ 3329 * (8 * 3329) =
      mul-le-mul {n₂ = 3329} {m₂ = 8 * 3329} (omega (arith, magnitude-Within 1 a (omega arith) wa))
        (magnitude-Within 8 b (omega arith) wb) in
    let (within, below, product) =
      fqmul-Multiplies a b (Within-lt 1 a (omega arith) wa) (Within-lt 8 b (omega arith) wb)
        (omega arith) in
    (within, product)

-- The sum of a coefficient and two products.
sum_of_three :
    (k a p q : ℕ)
    → k ≤ 7
    → Within k a
    → Within 1 p
    → Within 1 q
    → Within (suc (suc k)) (add16 (add16 a p) q)
      × (canonical (add16 (add16 a p) q) ≡ (canonical a + canonical p + canonical q) % 3329)
sum_of_three k a p q h wa wp wq =
    let (ws, s) = add16-residue k a p (omega arith) wa wp in
    let (wt, t) = add16-residue (suc k) (add16 a p) q (omega arith) ws wq in
    (wt, t ∙ ap (λ (c : ℕ). (c + canonical q) % 3329) s ∙ omega arith)

twisted :
    (root zeta p x : ℕ)
    → canonical zeta ≡ root * 2 ^ 16 % 3329
    → canonical p * 2 ^ 16 % 3329 ≡ x % 3329
    → canonical p * canonical zeta % 3329 ≡ x * root % 3329
twisted root zeta p x form e =
    ap₂ (λ (m n : ℕ). m * n % 3329) (sym (canonical_small p)) form
    ∙ residue_product (canonical p) (root * 2 ^ 16)
    ∙ omega arith
    ∙ sym (residue_product (canonical p * 2 ^ 16) root)
    ∙ ap (λ (m : ℕ). m * (root % 3329) % 3329) e
    ∙ residue_product x root

-- A sum of residues, times 2 ^ 16.
scaled_sum :
    (c a p q x y : ℕ)
    → c ≡ (a + p + q) % 3329
    → p * 2 ^ 16 % 3329 ≡ x % 3329
    → q * 2 ^ 16 % 3329 ≡ y % 3329
    → c * 2 ^ 16 % 3329 ≡ (a * 2 ^ 16 + (x + y)) % 3329
scaled_sum c a p q x y e f g = omega arith

-- For coefficients `a` between -3329 and 3329, `b` between -8 * 3329 and 8 * 3329, a zeta in
-- Montgomery form and an accumulator between -k * 3329 and k * 3329, with k at most 7: the new
-- accumulator is in the range that is two larger, and modulo 3329 and times 2 ^ 16 it is the old one
-- and the product of the pairs as polynomials modulo X ^ 2 - root.
pub base_multiply_add-residues :
    (k root acc0 acc1 a0 a1 b0 b1 zeta : ℕ)
    → k ≤ 7
    → canonical zeta ≡ root * 2 ^ 16 % 3329
    → Within 1 zeta
    → Within k acc0
    → Within k acc1
    → Within 1 a0
    → Within 1 a1
    → Within 8 b0
    → Within 8 b1
    → Within (suc (suc k)) (base_multiply_add acc0 acc1 a0 a1 b0 b1 zeta).0
      × Within (suc (suc k)) (base_multiply_add acc0 acc1 a0 a1 b0 b1 zeta).1
      × (canonical (base_multiply_add acc0 acc1 a0 a1 b0 b1 zeta).0 * 2 ^ 16 % 3329
          ≡ (canonical acc0 * 2 ^ 16
              + (canonical a1 * canonical b1 * root + canonical a0 * canonical b0))
            % 3329)
      × (canonical (base_multiply_add acc0 acc1 a0 a1 b0 b1 zeta).1 * 2 ^ 16 % 3329
          ≡ (canonical acc1 * 2 ^ 16 + (canonical a0 * canonical b1 + canonical a1 * canonical b0))
            % 3329)
unfolding base_multiply_add
base_multiply_add-residues k root acc0 acc1 a0 a1 b0 b1 zeta h form wz w0 w1 wa0 wa1 wb0 wb1 =
    let (wp, ep) = product_of a1 b1 wa1 wb1 in
    let (wq, eq) = product_of (fqmul a1 b1) zeta wp (widen zeta wz) in
    let (wr, er) = product_of a0 b0 wa0 wb0 in
    let (wx, ex) = product_of a0 b1 wa0 wb1 in
    let (wy, ey) = product_of a1 b0 wa1 wb0 in
    let q = fqmul (fqmul a1 b1) zeta in
    let r = fqmul a0 b0 in
    let x = fqmul a0 b1 in
    let y = fqmul a1 b0 in
    let (ws, s) = sum_of_three k acc0 q r h w0 wq wr in
    let (wt, t) = sum_of_three k acc1 x y h w1 wx wy in
    let first : add16 (add16 acc0 q) r ≡ add16 acc0 (add16 q r) = omega arith in
    let second : add16 (add16 acc1 x) y ≡ u16 (acc1 + x + y) = omega arith in
    let eq' = eq ∙ twisted root zeta (fqmul a1 b1) (canonical a1 * canonical b1) form ep in
    (
      subst (Within (suc (suc k))) first ws,
      subst (Within (suc (suc k))) second wt,
      scaled_sum _ (canonical acc0) (canonical q) (canonical r) _ _ (ap canonical (sym first) ∙ s)
          eq' er,
      scaled_sum _ (canonical acc1) (canonical x) (canonical y) _ _ (ap canonical (sym second) ∙ t)
          ex ey,
    )
  where
    widen : (w : ℕ) → Within 1 w → Within 8 w
    widen w (inl low) = inl (omega arith)
    widen w (inr (high, below)) = inr (omega arith, below)
