-- ===== src/Common/Secrets.antt =====
-- The constant-time comparison decides equality.
use c0_pqlink_complete.Prelude.{
  ℕ, ◌<◌, ◌^◌, ◌≡◌, refl, ap₂, ◌↔◌, true, [], ◌∷◌, Bytes, bit_or, bit_xor, u8, length, ==_iff,
  arith,
}
use c0_pqlink_complete.Prelude.Arrays.{IsBytes}
use c0_pqlink_complete.Prelude.Bits.{
  bit_or-eq-zero, bit_or-zero, bit_xor-eq-zero, bit_xor_self, bit_xor-lt,
}
use c0_pqlink_complete.Common.{ct_difference, ct_equal}

byte_difference : (a b : ℕ) → a < 2 ^ 8 → b < 2 ^ 8 → u8 (bit_xor a b) ≡ bit_xor a b
byte_difference a b p q = omega (arith, bit_xor-lt 8 a b p q)

ct_difference_sound :
    (xs ys : Bytes) (d : ℕ)
    → length xs ≡ length ys
    → IsBytes xs
    → IsBytes ys
    → ct_difference xs ys d ≡ 0
    → (d ≡ 0) × (xs ≡ ys)
unfolding ct_difference
ct_difference_sound [] [] d l p q e = (e, refl)
ct_difference_sound [] (b ∷ ys) d l p q e = absurd (omega arith)
ct_difference_sound (a ∷ xs) [] d l p q e = absurd (omega arith)
ct_difference_sound (a ∷ xs) (b ∷ ys) d l p q e =
    let (here, rest) =
      ct_difference_sound xs ys (bit_or d (u8 (bit_xor a b))) (omega arith) p.1 q.1 e in
    let (old, new) = bit_or-eq-zero d (u8 (bit_xor a b)) here in
    (old, ap₂ ◌∷◌ (bit_xor-eq-zero a b (omega (arith, byte_difference a b p.0 q.0))) rest)

ct_difference_self : (xs : Bytes) → ct_difference xs xs 0 ≡ 0
unfolding ct_difference
ct_difference_self [] = refl
ct_difference_self (a ∷ xs) = rw (bit_xor_self a, bit_or-zero 0) (ct_difference_self xs)

pub ct_equal_self : (xs : Bytes) → ct_equal xs xs ≡ true
unfolding ct_equal
ct_equal_self xs = (==_iff _ 0).1 (ct_difference_self xs)

-- For byte arrays of one length, `c0pqlink_ct_equal` is 1 exactly when they are equal.
pub ct_equal_iff :
    (xs ys : Bytes)
    → length xs ≡ length ys
    → IsBytes xs
    → IsBytes ys
    → (ct_equal xs ys ≡ true) ↔ (xs ≡ ys)
ct_equal_iff xs ys l p q = (
  λ h. unfold ct_equal in (ct_difference_sound xs ys 0 l p q ((==_iff _ 0).0 h)).1,
  λ e. rw (← e) (ct_equal_self xs),
)
