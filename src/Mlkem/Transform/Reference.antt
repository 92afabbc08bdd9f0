-- ===== src/Mlkem/Transform/Reference.antt =====
-- The number-theoretic transform of FIPS 203 (Algorithm 9) on residues modulo 3329, and the table
-- of zetas against its roots of unity.
use c0_pqlink_complete.Prelude.{
  ℕ, zero, suc, ◌+◌, ◌-◌, ◌*◌, ◌/◌, ◌%◌, ◌^◌, ◌<◌, ◌≡◌, refl, subst, List, [], ◌∷◌, set, arith,
  ◌==◌, ◌&&◌, ◌||◌, ltb, leb, Bool, true,
}
use c0_pqlink_complete.Prelude.Loops.{each, count_from}
use c0_pqlink_complete.Mlkem.Range.{holds_from, holds_from-at}
use c0_pqlink_complete.Mlkem.Compress.{canonical}
use c0_pqlink_complete.Mlkem.Product.{Within, read_entry}
use c0_pqlink_complete.Mlkem.Transform.{coefficient, load_zeta, starts}

-- A number of `bits` bits with its bits in the reverse order.
unfoldable pub reversed_bits : ℕ → ℕ → ℕ
reversed_bits zero k = 0
reversed_bits (suc bits) k = k % 2 * 2 ^ bits + reversed_bits bits (k / 2)

-- 17 is a primitive root of unity of order 256 modulo 3329.
unfoldable pub root : ℕ → ℕ
root k = 17 ^ reversed_bits 7 k % 3329

unfoldable pub reference_butterfly : ℕ → ℕ → List ℕ → ℕ → List ℕ
reference_butterfly zeta length f j =
    let t = zeta * coefficient f (j + length) % 3329 in
    let u = coefficient f j in set (set f (j + length) ((u + (3329 - t)) % 3329)) j ((u + t) % 3329)

abbrev pub reference_block : ℕ → List ℕ × ℕ → ℕ → List ℕ × ℕ
reference_block length (f, k) start =
    (each (count_from start length) f (reference_butterfly (root k) length), k + 1)

abbrev pub reference_layer : List ℕ × ℕ → ℕ → List ℕ × ℕ
reference_layer state length = each (starts length) state (reference_block length)

unfoldable pub reference_ntt : List ℕ → List ℕ
reference_ntt f = (each (128 ∷ 64 ∷ 32 ∷ 16 ∷ 8 ∷ 4 ∷ 2 ∷ []) (f, 1) reference_layer).0

-- An entry is a root times 2 ^ 16, and between -3329 and 3329.
abbrev entry_test : ℕ → Bool
entry_test k =
    (canonical (load_zeta k) == root k * 2 ^ 16 % 3329)
    && (ltb (load_zeta k) 3330 || (leb (2 ^ 16) (load_zeta k + 3329) && ltb (load_zeta k) (2 ^ 16)))

table : holds_from entry_test 0 128 ≡ true
unfolding holds_from root reversed_bits
table = refl

entry_at : (k : ℕ) → k < 128 → entry_test k ≡ true
entry_at k h =
    let same : 0 + k ≡ k = omega arith in
    subst (λ n. entry_test n ≡ true) same (holds_from-at entry_test 128 0 k table h)

pub zeta_root :
    (k : ℕ) → k < 128 → (canonical (load_zeta k) ≡ root k * 2 ^ 16 % 3329) × Within 1 (load_zeta k)
zeta_root k h = read_entry _ _ (load_zeta k) (entry_at k h)
