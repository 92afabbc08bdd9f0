-- ===== src/Prelude/Loops.antt =====
-- `for` loops over a list of values of their counter, and the invariant rules for them.
use Prim.Native.Nat.{ℕ, zero, suc, ◌+◌, ◌≤◌, ◌<◌}
use mathlib.Core.Path.{◌≡◌, refl, ap, subst}
use mathlib.Core.List.{List, [], ◌∷◌, map}
use native.Mathlib.Omega.{arith}
use c0_pqlink_complete.Prelude.Lists.{length}

abbrev pub each {ℓ} : {S : Type ℓ} → List ℕ → S → (S → ℕ → S) → S
each [] state step = state
each (i ∷ indices) state step = each indices (step state i) step

-- The `count` values from `start` on.
unfoldable pub count_from : ℕ → ℕ → List ℕ
count_from start zero = []
count_from start (suc count) = start ∷ count_from (start + 1) count

pub length-count_from : (start count : ℕ) → length (count_from start count) ≡ count
unfolding count_from
length-count_from start zero = refl
length-count_from start (suc count) = ap suc (length-count_from (start + 1) count)

-- A property that every pass keeps.
pub each_kept {ℓ κ} :
    {S : Type ℓ} (P : S → Type κ) (step : S → ℕ → S)
    → ((state : S) (i : ℕ) → P state → P (step state i))
    → (indices : List ℕ) (state : S) → P state
    → P (each indices state step)
each_kept P step keep [] state p = p
each_kept P step keep (i ∷ indices) state p =
    each_kept P step keep indices (step state i) (keep state i p)

-- A property of the counter and the state.
pub each_counted {ℓ κ} :
    {S : Type ℓ} (P : ℕ → S → Type κ) (step : S → ℕ → S) (count start : ℕ)
    → ((i : ℕ) (state : S) → start ≤ i → i < start + count → P i state → P (i + 1) (step state i))
    → (state : S) → P start state
    → P (start + count) (each (count_from start count) state step)
unfolding count_from
each_counted P step zero start keep state p = subst (λ n. P n state) (omega arith) p
each_counted P step (suc count) start keep state p =
    subst (λ n. P n (each (count_from (start + 1) count) (step state start) step)) (omega arith)
      (each_counted P step count (start + 1) (λ i s low high. keep i s (omega arith) (omega arith))
        (step state start) (keep start state (omega arith) (omega arith) p))

-- Two loops over the same values of the counter, side by side.
pub each_together {ℓ κ ι} :
    {S : Type ℓ} {T : Type κ} (R : ℕ → S → T → Type ι) (f : S → ℕ → S) (g : T → ℕ → T)
    (count start : ℕ)
    → ((i : ℕ) (s : S) (t : T)
        → start ≤ i
        → i < start + count
        → R i s t
        → R (i + 1) (f s i) (g t i))
    → (s : S) (t : T) → R start s t
    → R (start + count) (each (count_from start count) s f) (each (count_from start count) t g)
unfolding count_from
each_together R f g zero start keep s t r = subst (λ n. R n s t) (omega arith) r
each_together R f g (suc count) start keep s t r =
    subst
      (λ n.
        R n (each (count_from (start + 1) count) (f s start) f)
          (each (count_from (start + 1) count) (g t start) g))
      (omega arith)
      (each_together R f g count (start + 1)
        (λ i s t low high. keep i s t (omega arith) (omega arith)) (f s start) (g t start)
        (keep start s t (omega arith) (omega arith) r))

-- A loop over values that are computed from another counter.
pub each-map {ℓ} :
    {S : Type ℓ} (g : ℕ → ℕ) (indices : List ℕ) (s : S) (f : S → ℕ → S)
    → each (map g indices) s f ≡ each indices s (λ t i. f t (g i))
each-map g [] s f = refl
each-map g (i ∷ indices) s f = each-map g indices (f s (g i)) f
