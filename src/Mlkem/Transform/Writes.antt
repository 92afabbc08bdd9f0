-- ===== src/Mlkem/Transform/Writes.antt =====
-- Two coefficients written at once, and the residues beside them.
use c0_pqlink_complete.Prelude.{
  ℕ, zero, suc, ◌<◌, ◌≡◌, ◌≢◌, ◌⊎◌, inl, inr, refl, ap, sym, ◌∙◌, subst, List, [], ◌∷◌, map, set,
  length, length-set, get_or-set_self, get_or-set_ne, arith, Bool-cases, ◌==◌, ==_iff,
}
use c0_pqlink_complete.Mlkem.Compress.{canonical}
use c0_pqlink_complete.Mlkem.Product.{Within}
use c0_pqlink_complete.Prelude.{◌*◌, ◌/◌}
use c0_pqlink_complete.Prelude.Loops.{each, count_from, each-map}
use c0_pqlink_complete.Mlkem.Transform.{coefficient, starts}

-- Two writes.
unfoldable pub two_writes : List ℕ → ℕ → ℕ → ℕ → ℕ → List ℕ
two_writes p j m u v = set (set p m v) j u

module _ (p : List ℕ) (j m u v : ℕ) (sized : length p ≡ 256) (low : j < 256) (high : m < 256)
    (apart : m ≢ j) where
  pub at_first : coefficient (two_writes p j m u v) j ≡ u
  unfolding two_writes
  at_first = get_or-set_self (set p m v) j u 0 (omega (arith, length-set p m v))

  pub at_second : coefficient (two_writes p j m u v) m ≡ v
  unfolding two_writes
  at_second =
      get_or-set_ne (set p m v) j m u 0 (λ e. apart (sym e)) ∙ get_or-set_self p m v 0 (omega arith)

  pub elsewhere : (i : ℕ) → i ≢ j → i ≢ m → coefficient (two_writes p j m u v) i ≡ coefficient p i
  unfolding two_writes
  elsewhere i nj nm =
      get_or-set_ne (set p m v) j i u 0 (λ e. nj (sym e))
      ∙ get_or-set_ne p m i v 0 (λ e. nm (sym e))

index_cases : (i j m : ℕ) → (i ≡ j) ⊎ ((i ≡ m) ⊎ ((i ≢ j) × (i ≢ m)))
index_cases i j m = elim (Bool-cases (i == j)) [
  | inl e ↦ inl ((==_iff i j).0 e)
  | inr nj ↦ elim (Bool-cases (i == m)) [
    | inl e ↦ inr (inl ((==_iff i m).0 e))
    | inr nm ↦ inr (inr (λ e. ground arith, λ e. ground arith))
  ]
]

length-two_writes : (p : List ℕ) (j m u v : ℕ) → length (two_writes p j m u v) ≡ length p
unfolding two_writes
length-two_writes p j m u v = length-set (set p m v) j u ∙ length-set p m v

-- A polynomial in a range, beside the residues of its coefficients.
pub record Residues (k : ℕ) (p f : List ℕ) : Type 0 where
  pub sized : length p ≡ 256
  pub sized_residues : length f ≡ 256
  pub residues : (i : ℕ) → i < 256 → canonical (coefficient p i) ≡ coefficient f i
  pub bounded : (i : ℕ) → i < 256 → Within k (coefficient p i)

-- Two writes beside two others.
pub two_writes-Residues :
    (k j m u v u' v' : ℕ) (p f : List ℕ)
    → Residues k p f
    → j < 256
    → m < 256
    → m ≢ j
    → Within k u
    → Within k v
    → canonical u ≡ u'
    → canonical v ≡ v'
    → Residues k (two_writes p j m u v) (two_writes f j m u' v')
two_writes-Residues k j m u v u' v' p f state low high apart wu wv eu ev = record {
  sized = length-two_writes p j m u v ∙ state.sized;
  sized_residues = length-two_writes f j m u' v' ∙ state.sized_residues;
  residues = λ i below. elim (index_cases i j m) [
    | inl e ↦
        subst (λ n. canonical (coefficient q n) ≡ coefficient g n) (sym e)
          (ap canonical (at_first p j m u v state.sized low high apart)
            ∙ eu
            ∙ sym (at_first f j m u' v' state.sized_residues low high apart))
    | inr (inl e) ↦
        subst (λ n. canonical (coefficient q n) ≡ coefficient g n) (sym e)
          (ap canonical (at_second p j m u v state.sized low high apart)
            ∙ ev
            ∙ sym (at_second f j m u' v' state.sized_residues low high apart))
    | inr (inr (nj, nm)) ↦
        ap canonical (elsewhere p j m u v state.sized low high apart i nj nm)
        ∙ state.residues i below
        ∙ sym (elsewhere f j m u' v' state.sized_residues low high apart i nj nm)
  ];
  bounded = λ i below. elim (index_cases i j m) [
    | inl e ↦
        subst (λ n. Within k (coefficient q n)) (sym e)
          (subst (Within k) (sym (at_first p j m u v state.sized low high apart)) wu)
    | inr (inl e) ↦
        subst (λ n. Within k (coefficient q n)) (sym e)
          (subst (Within k) (sym (at_second p j m u v state.sized low high apart)) wv)
    | inr (inr (nj, nm)) ↦
        subst (Within k) (sym (elsewhere p j m u v state.sized low high apart i nj nm))
          (state.bounded i below)
  ];
}
  where
    q : List ℕ
    q = two_writes p j m u v

    g : List ℕ
    g = two_writes f j m u' v'

pub coefficient-map :
    (f : ℕ → ℕ) (p : List ℕ) (i : ℕ) → i < length p → coefficient (map f p) i ≡ f (coefficient p i)
coefficient-map f [] i h = absurd (omega arith)
coefficient-map f (x ∷ p) zero h = refl
coefficient-map f (x ∷ p) (suc i) h = coefficient-map f p i (omega arith)

-- The loop over the starts of the blocks of a layer is one over their numbers.
pub each-starts :
    (len count : ℕ) (f : List ℕ × ℕ → ℕ → List ℕ × ℕ) (state : List ℕ × ℕ)
    → 128 / len ≡ count
    → each (starts len) state f ≡ each (count_from 0 count) state (λ s i. f s (i * (2 * len)))
each-starts len count f state blocks =
    each-map (λ i. i * (2 * len)) (count_from 0 (128 / len)) state f
    ∙ ap (λ n. each (count_from 0 n) state (λ s i. f s (i * (2 * len)))) blocks
