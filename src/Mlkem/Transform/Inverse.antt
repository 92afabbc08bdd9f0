-- ===== src/Mlkem/Transform/Inverse.antt =====
-- The inverse transform beside that of FIPS 203 (Algorithm 10) on residues modulo 3329.
use c0_pqlink_complete.Prelude.{
  ℕ, zero, suc, ◌+◌, ◌-◌, ◌*◌, ◌%◌, ◌<◌, ◌≤◌, ◌≡◌, inl, inr, refl, ap, ap₂, sym, ◌∙◌, subst, List,
  [], ◌∷◌, map, set, length, length-set, get_or-set_self, get_or-set_ne, arith,
}
use c0_pqlink_complete.Prelude.Loops.{each, count_from}
use c0_pqlink_complete.Mlkem.{fqmul, barrett_reduce}
use c0_pqlink_complete.Mlkem.Barrett.{barrett-residue}
use c0_pqlink_complete.Mlkem.Product.{Within}
use c0_pqlink_complete.Mlkem.Transform.{
  add16, sub16, coefficient, load_zeta, inverse_butterfly, starts,
}
use c0_pqlink_complete.Mlkem.Transform.Reference.{root, zeta_root}
use c0_pqlink_complete.Mlkem.Transform.Butterfly.{fqmul-root, add16-residue, sub16-residue}
use c0_pqlink_complete.Mlkem.Transform.Writes.{two_writes, Residues, two_writes-Residues}

unfoldable pub reference_inverse_butterfly : ℕ → ℕ → List ℕ → ℕ → List ℕ
reference_inverse_butterfly zeta length f j =
    let t = coefficient f j in
    let u = coefficient f (j + length) in
    set (set f j ((t + u) % 3329)) (j + length) (zeta * ((u + (3329 - t)) % 3329) % 3329)

abbrev pub reference_inverse_block : ℕ → List ℕ × ℕ → ℕ → List ℕ × ℕ
reference_inverse_block length (f, k) start =
    (each (count_from start length) f (reference_inverse_butterfly (root k) length), k - 1)

abbrev pub reference_inverse_layer : List ℕ × ℕ → ℕ → List ℕ × ℕ
reference_inverse_layer state length = each (starts length) state (reference_inverse_block length)

-- 3303 is the inverse of 128.
unfoldable pub reference_inverse_ntt : List ℕ → List ℕ
reference_inverse_ntt f =
    map (λ c. c * 3303 % 3329)
      (each (2 ∷ 4 ∷ 8 ∷ 16 ∷ 32 ∷ 64 ∷ 128 ∷ []) (f, 127) reference_inverse_layer).0

twice : (xs : List ℕ) (i u v : ℕ) → set (set xs i u) i v ≡ set xs i v
twice [] i u v = refl
twice (x ∷ xs) zero u v = refl
twice (x ∷ xs) (suc i) u v = ap (◌∷◌ x) (twice xs i u v)

inverse_butterfly_writes :
    (zeta len j : ℕ) (p : List ℕ)
    → 0 < len
    → j + len < length p
    → inverse_butterfly zeta len p j
      ≡ two_writes p
          (j + len)
          j
          (fqmul zeta (sub16 (coefficient p (j + len)) (coefficient p j)))
          (barrett_reduce (add16 (coefficient p j) (coefficient p (j + len))))
unfolding inverse_butterfly two_writes
inverse_butterfly_writes zeta len j p pos high =
    let sum = set p j (barrett_reduce (add16 (coefficient p j) (coefficient p (j + len)))) in
    let kept : coefficient sum (j + len) ≡ coefficient p (j + len) =
      get_or-set_ne p j (j + len) _ 0 (λ e. absurd (omega arith)) in
    let d = sub16 (coefficient sum (j + len)) (coefficient p j) in
    ap (set (set sum (j + len) d) (j + len)) (
      ap (fqmul zeta) (
        get_or-set_self sum (j + len) d 0 (
          omega (
            arith,
            length-set p j (barrett_reduce (add16 (coefficient p j) (coefficient p (j + len)))),
          ))
        ∙ ap (λ c. sub16 c (coefficient p j)) kept))
    ∙ twice sum (j + len) d _

widen : (k word : ℕ) → k ≤ 8 → Within k word → Within 8 word
widen k word h (inl low) = inl (omega arith)
widen k word h (inr (high, below)) = inr (omega arith, below)

-- One butterfly beside that of the residues.
pub butterfly-Residues :
    (len z j : ℕ) (p f : List ℕ)
    → z < 128
    → 0 < len
    → j + len < 256
    → Residues 1 p f
    → Residues 1
        (inverse_butterfly (load_zeta z) len p j)
        (reference_inverse_butterfly (root z) len f j)
unfolding reference_inverse_butterfly two_writes
butterfly-Residues len z j p f zb pos high state =
    let a = coefficient p j in
    let b = coefficient p (j + len) in
    let (form, narrow) = zeta_root z zb in
    let wa = state.bounded j (omega arith) in
    let wb = state.bounded (j + len) high in
    let ea = state.residues j (omega arith) in
    let eb = state.residues (j + len) high in
    let (ws, sum) = add16-residue 1 a b (omega arith) wa wb in
    let (wd, difference) = sub16-residue 1 b a (omega arith) wb wa in
    let (reduced, small) = barrett-residue (add16 a b) (omega arith) in
    let (within, product) =
      fqmul-root (root z) (load_zeta z) (sub16 b a) form narrow
        (widen 2 (sub16 b a) (omega arith) wd) in
    subst (λ q. Residues 1 q (reference_inverse_butterfly (root z) len f j))
      (sym (inverse_butterfly_writes (load_zeta z) len j p pos (omega (arith, high, state.sized))))
      (two_writes-Residues 1 (j + len) j _ _ _ _ p f state high (omega arith)
        (λ e. absurd (omega arith)) within small
        (product
          ∙ ap (λ (c : ℕ). root z * c % 3329)
              (difference ∙ ap₂ (λ (x y : ℕ). (y + (3329 - x)) % 3329) ea eb))
        (reduced ∙ sum ∙ ap₂ (λ (x y : ℕ). (x + y) % 3329) ea eb))
