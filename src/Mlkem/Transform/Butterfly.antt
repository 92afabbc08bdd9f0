-- ===== src/Mlkem/Transform/Butterfly.antt =====
-- One butterfly: the residues of its two coefficients, and their bounds.
use c0_pqlink_complete.Prelude.{
  ℕ, suc, ◌+◌, ◌-◌, ◌*◌, ◌%◌, ◌^◌, ◌<◌, ◌≤◌, ◌≡◌, inl, inr, ap₂, sym, ◌∙◌, arith,
}
use native.Mathlib.Nat.{mul-le-mul}
use c0_pqlink_complete.Mlkem.{fqmul}
use c0_pqlink_complete.Mlkem.Compress.{canonical}
use c0_pqlink_complete.Mlkem.Product.{
  Within, magnitude, magnitude-Within, fqmul-Multiplies, residue_product,
}
use c0_pqlink_complete.Mlkem.Montgomery.{sign_cases}
use c0_pqlink_complete.Mlkem.Transform.{add16, sub16}

pub canonical_small : (word : ℕ) → canonical word % 3329 ≡ canonical word
canonical_small word = ground arith

pub Within-lt : (k word : ℕ) → k ≤ 9 → Within k word → word < 2 ^ 16
Within-lt k word h (inl low) = omega arith
Within-lt k word h (inr (high, below)) = below

pub Within-suc : (k word : ℕ) → Within k word → Within (suc k) word
Within-suc k word (inl low) = inl (omega arith)
Within-suc k word (inr (high, below)) = inr (omega arith, below)

-- 169 is the inverse of 2 ^ 16.
pub cancel : (c u : ℕ) → c * 2 ^ 16 % 3329 ≡ u * 2 ^ 16 % 3329 → c % 3329 ≡ u % 3329
cancel c u h = omega arith

-- The product with a zeta in Montgomery form is that with the root.
pub fqmul-root :
    (root zeta b : ℕ)
    → canonical zeta ≡ root * 2 ^ 16 % 3329
    → Within 1 zeta
    → Within 8 b
    → Within 1 (fqmul zeta b) × (canonical (fqmul zeta b) ≡ root * canonical b % 3329)
fqmul-root root zeta b form small wide =
    let bound : magnitude zeta * magnitude b ≤ 3329 * (8 * 3329) =
      mul-le-mul {n₂ = 3329} {m₂ = 8 * 3329}
        (omega (arith, magnitude-Within 1 zeta (omega arith) small))
        (magnitude-Within 8 b (omega arith) wide) in
    let (within, below, product) =
      fqmul-Multiplies zeta b (Within-lt 1 zeta (omega arith) small)
        (Within-lt 8 b (omega arith) wide) (omega arith) in
    let scaled : canonical zeta * canonical b % 3329 ≡ root * canonical b * 2 ^ 16 % 3329 =
      ap₂ (λ (x y : ℕ). x * y % 3329) form (sym (canonical_small b))
      ∙ residue_product (root * 2 ^ 16) (canonical b)
      ∙ omega arith in
    (
      within,
      sym (canonical_small (fqmul zeta b))
          ∙ cancel (canonical (fqmul zeta b)) (root * canonical b) (product ∙ scaled),
    )

-- Sums and differences that stay below 2 ^ 15.
pub add16-residue :
    (k a p : ℕ)
    → k ≤ 8
    → Within k a
    → Within 1 p
    → Within (suc k) (add16 a p) × (canonical (add16 a p) ≡ (canonical a + canonical p) % 3329)
add16-residue k a p h (inl la) (inl lp) = (inl (omega arith), ground arith)
add16-residue k a p h (inl la) (inr (hp, bp)) = elim (sign_cases (add16 a p)) [
  | inl low ↦ (inl (omega arith), ground arith)
  | inr high ↦ (inr (omega arith, omega arith), ground arith)
]
add16-residue k a p h (inr (ha, ba)) (inl lp) = elim (sign_cases (add16 a p)) [
  | inl low ↦ (inl (omega arith), ground arith)
  | inr high ↦ (inr (omega arith, omega arith), ground arith)
]
add16-residue k a p h (inr (ha, ba)) (inr (hp, bp)) = (inr (omega arith, omega arith), ground arith)

pub sub16-residue :
    (k a p : ℕ)
    → k ≤ 8
    → Within k a
    → Within 1 p
    → Within (suc k) (sub16 a p)
      × (canonical (sub16 a p) ≡ (canonical a + (3329 - canonical p)) % 3329)
sub16-residue k a p h (inl la) (inl lp) = elim (sign_cases (sub16 a p)) [
  | inl low ↦ (inl (omega arith), ground arith)
  | inr high ↦ (inr (omega arith, omega arith), ground arith)
]
sub16-residue k a p h (inl la) (inr (hp, bp)) = (inl (omega arith), ground arith)
sub16-residue k a p h (inr (ha, ba)) (inl lp) = (inr (omega arith, omega arith), ground arith)
sub16-residue k a p h (inr (ha, ba)) (inr (hp, bp)) = elim (sign_cases (sub16 a p)) [
  | inl low ↦ (inl (omega arith), ground arith)
  | inr high ↦ (inr (omega arith, omega arith), ground arith)
]
