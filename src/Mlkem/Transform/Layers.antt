-- ===== src/Mlkem/Transform/Layers.antt =====
-- The transform beside the reference transform of the residues, butterfly by butterfly.
use c0_pqlink_complete.Prelude.{
  ℕ, suc, ◌+◌, ◌-◌, ◌*◌, ◌%◌, ◌<◌, ◌≤◌, ◌≡◌, ◌≢◌, ◌⊎◌, inl, inr, ap, ap₂, sym, ◌∙◌, subst, List,
  set, get_or-set_ne, arith,
}
use c0_pqlink_complete.Mlkem.{fqmul}
use c0_pqlink_complete.Mlkem.Compress.{canonical}
use c0_pqlink_complete.Mlkem.Product.{Within}
use c0_pqlink_complete.Mlkem.Transform.{add16, sub16, coefficient, load_zeta, butterfly}
use c0_pqlink_complete.Mlkem.Transform.Writes.{two_writes, elsewhere, Residues, two_writes-Residues}
use c0_pqlink_complete.Mlkem.Transform.Reference.{root, zeta_root, reference_butterfly}
use c0_pqlink_complete.Mlkem.Transform.Butterfly.{fqmul-root, add16-residue, sub16-residue}

-- The coefficients that the layer has not reached, in the block from `start` on, at `j`.
abbrev pub Fresh : ℕ → ℕ → ℕ → ℕ → Type 0
Fresh len start j i = ((j ≤ i) × (i < start + len)) ⊎ (j + len ≤ i)

-- A polynomial beside the residues of its coefficients, within a layer: those that it has not
-- reached are in the range before the layer, all are in the range after it.
pub record Underway (k len start j : ℕ) (p f : List ℕ) : Type 0 where
  pub all : Residues (suc k) p f
  pub fresh : (i : ℕ) → i < 256 → Fresh len start j i → Within k (coefficient p i)

butterfly_writes :
    (zeta len j : ℕ) (p : List ℕ)
    → 0 < len
    → butterfly zeta len p j
      ≡ two_writes p j
          (j + len)
          (add16 (coefficient p j) (fqmul zeta (coefficient p (j + len))))
          (sub16 (coefficient p j) (fqmul zeta (coefficient p (j + len))))
unfolding butterfly two_writes
butterfly_writes zeta len j p h =
    let product = fqmul zeta (coefficient p (j + len)) in
    let lower = set p (j + len) (sub16 (coefficient p j) product) in
    ap (λ c. set lower j (add16 c product))
      (get_or-set_ne p (j + len) j (sub16 (coefficient p j) product) 0 (λ e. absurd (omega arith)))

-- Two writes beside two others, of coefficients that were not reached.
both_writes :
    (k len start j u v u' v' : ℕ) (p f : List ℕ)
    → Underway k len start j p f
    → 0 < len
    → start ≤ j
    → j < start + len
    → j + len < 256
    → Within (suc k) u
    → Within (suc k) v
    → canonical u ≡ u'
    → canonical v ≡ v'
    → Underway k len start (j + 1) (two_writes p j (j + len) u v) (two_writes f j (j + len) u' v')
both_writes k len start j u v u' v' p f state pos from inside high wu wv eu ev = record {
  all = two_writes-Residues (suc k) j m u v u' v' p f state.all low high apart wu wv eu ev;
  fresh = λ i below new.
      subst (Within k)
        (sym (
          elsewhere p j m u v state.all.sized low high apart i (λ e. not_first i new e)
            (λ e. not_second i new e)))
        (state.fresh i below (still i new));
}
  where
    m : ℕ
    m = j + len

    low : j < 256
    low = omega arith

    apart : m ≢ j
    apart e = absurd (omega arith)

    not_first : (i : ℕ) → Fresh len start (j + 1) i → i ≢ j
    not_first i (inl (a, b)) e = absurd (omega arith)
    not_first i (inr a) e = absurd (omega arith)

    not_second : (i : ℕ) → Fresh len start (j + 1) i → i ≢ m
    not_second i (inl (a, b)) e = absurd (omega arith)
    not_second i (inr a) e = absurd (omega arith)

    still : (i : ℕ) → Fresh len start (j + 1) i → Fresh len start j i
    still i (inl (a, b)) = inl (omega arith, b)
    still i (inr a) = inr (omega arith)

-- One butterfly beside that of the residues.
pub butterfly-Underway :
    (k len start z j : ℕ) (p f : List ℕ)
    → k ≤ 7
    → z < 128
    → 0 < len
    → start ≤ j
    → j < start + len
    → j + len < 256
    → Underway k len start j p f
    → Underway k len start
        (j + 1)
        (butterfly (load_zeta z) len p j)
        (reference_butterfly (root z) len f j)
unfolding reference_butterfly two_writes
butterfly-Underway k len start z j p f small zb pos from inside high state =
    let a = coefficient p j in
    let b = coefficient p (j + len) in
    let (form, narrow) = zeta_root z zb in
    let first = state.fresh j (omega arith) (inl (omega arith, inside)) in
    let second = state.fresh (j + len) high (inr (omega arith)) in
    let (within, product) =
      fqmul-root (root z) (load_zeta z) b form narrow (widen k b small second) in
    let (sum_within, sum) = add16-residue k a (fqmul (load_zeta z) b) (omega arith) first within in
    let (difference_within, difference) =
      sub16-residue k a (fqmul (load_zeta z) b) (omega arith) first within in
    let t = root z * coefficient f (j + len) % 3329 in
    let same_a = state.all.residues j (omega arith) in
    let same_p : canonical (fqmul (load_zeta z) b) ≡ t =
      product ∙ ap (λ (c : ℕ). root z * c % 3329) (state.all.residues (j + len) high) in
    subst (λ q. Underway k len start (j + 1) q (reference_butterfly (root z) len f j))
      (sym (butterfly_writes (load_zeta z) len j p pos))
      (both_writes k len start j _ _ _ _ p f state pos from inside high sum_within difference_within
        (sum ∙ ap₂ (λ (x y : ℕ). (x + y) % 3329) same_a same_p)
        (difference ∙ ap₂ (λ (x y : ℕ). (x + (3329 - y)) % 3329) same_a same_p))
  where
    widen : (k b : ℕ) → k ≤ 7 → Within k b → Within 8 b
    widen k b h (inl low) = inl (omega arith)
    widen k b h (inr (high, below)) = inr (omega arith, below)
