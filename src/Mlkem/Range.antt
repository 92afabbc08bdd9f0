-- ===== src/Mlkem/Range.antt =====
-- A test of every number of a range, by evaluation.
use c0_pqlink_complete.Prelude.{
  ℕ, zero, suc, ◌+◌, ◌*◌, ◌/◌, ◌%◌, ◌<◌, ◌≡◌, ◌^◌, subst, Bool, true, ◌&&◌, arith,
}

unfoldable pub holds_from : (ℕ → Bool) → ℕ → ℕ → Bool
holds_from test first zero = true
holds_from test first (suc count) = test first && holds_from test (first + 1) count

pub holds_from-at :
    (test : ℕ → Bool) (count first x : ℕ)
    → holds_from test first count ≡ true
    → x < count
    → test (first + x) ≡ true
unfolding holds_from
holds_from-at test zero first x every below = absurd (omega arith)
holds_from-at test (suc count) first zero every below = ground arith
holds_from-at test (suc count) first (suc x) every below =
    let later : holds_from test (first + 1) count ≡ true = ground arith in
    let same : first + 1 + x ≡ first + suc x = omega arith in
    subst (λ n. test n ≡ true) same (holds_from-at test count (first + 1) x later (omega arith))

-- The same over the product of two ranges.
pub holds_square :
    (test : ℕ → Bool) (x : ℕ)
    → holds_from (λ high. holds_from (λ low. test (256 * high + low)) 0 256) 0 256 ≡ true
    → x < 2 ^ 16
    → test x ≡ true
holds_square test x every below =
    let row =
      holds_from-at (λ high. holds_from (λ low. test (256 * high + low)) 0 256) 256 0 (x / 256)
        every (omega arith) in
    let cell =
      holds_from-at (λ low. test (256 * (0 + x / 256) + low)) 256 0 (x % 256) row (omega arith) in
    let same : 256 * (0 + x / 256) + (0 + x % 256) ≡ x = omega arith in
    subst (λ n. test n ≡ true) same cell
