-- ===== src/Prelude/Bits.antt =====
-- Laws of the bit operations at every width, from one equation for the lowest binary digit.
use Prim.Native.Nat.{digits, bitwise, differ, bit_or-bitwise, bit_xor-bitwise}
use Prim.Native.Nat.{ℕ, zero, suc, ◌+◌, ◌*◌, ◌/◌, ◌%◌, ◌^◌, ◌≤◌, ◌<◌, max, bit_or, bit_xor}
use mathlib.Core.Path.{◌≡◌, refl, ap, ap₂, ◌∙◌, sym}
use native.Mathlib.Nat.{two-pow-succ}
use native.Mathlib.Omega.{arith}

-- Digit recursion needs no more fuel than the first operand.
pub enough_digits :
    (z : ℕ → ℕ) (f : ℕ → ℕ → ℕ) (n m a b : ℕ) → a ≤ n → a ≤ m → digits z f n a b ≡ digits z f m a b
enough_digits z f zero zero a b p q = refl
enough_digits z f (suc n) zero zero b p q = refl
enough_digits z f (suc n) zero (suc a) b p q = absurd (omega arith)
enough_digits z f zero (suc m) zero b p q = refl
enough_digits z f zero (suc m) (suc a) b p q = absurd (omega arith)
enough_digits z f (suc n) (suc m) zero b p q = refl
enough_digits z f (suc n) (suc m) (suc a) b p q =
    omega (arith, enough_digits z f n m (suc a / 2) (b / 2) (omega arith) (omega arith))

pub lowest_digit :
    (z : ℕ → ℕ) (f : ℕ → ℕ → ℕ) (a b : ℕ)
    → bitwise z f (suc a) b ≡ bitwise z f (suc a / 2) (b / 2) * 2 + f (suc a % 2) (b % 2)
lowest_digit z f a b =
    omega (arith, enough_digits z f a (suc a / 2) (suc a / 2) (b / 2) (omega arith) (omega arith))

differ-bits : (x y : ℕ) → x < 2 → y < 2 → differ x y ≡ (x + y) % 2
differ-bits zero y hx hy = omega arith
differ-bits (suc zero) zero hx hy = refl
differ-bits (suc zero) (suc zero) hx hy = refl
differ-bits (suc zero) (suc (suc y)) hx hy = absurd (omega arith)
differ-bits (suc (suc x)) y hx hy = absurd (omega arith)

zero-bit_or : (b : ℕ) → bit_or 0 b ≡ b
zero-bit_or b = bit_or-bitwise 0 b

zero-bit_xor : (b : ℕ) → bit_xor 0 b ≡ b
zero-bit_xor b = bit_xor-bitwise 0 b

pub bit_or_step : (a b : ℕ) → bit_or a b ≡ bit_or (a / 2) (b / 2) * 2 + max (a % 2) (b % 2)
bit_or_step zero b = omega (arith, zero-bit_or b, zero-bit_or (b / 2))
bit_or_step (suc a) b = omega (
  arith,
  bit_or-bitwise (suc a) b,
  bit_or-bitwise (suc a / 2) (b / 2),
  lowest_digit (λ b. b) max a b,
)

pub bit_xor_step : (a b : ℕ) → bit_xor a b ≡ bit_xor (a / 2) (b / 2) * 2 + (a % 2 + b % 2) % 2
bit_xor_step zero b = omega (arith, zero-bit_xor b, zero-bit_xor (b / 2))
bit_xor_step (suc a) b = omega (
  arith,
  bit_xor-bitwise (suc a) b,
  bit_xor-bitwise (suc a / 2) (b / 2),
  lowest_digit (λ b. b) differ a b,
  differ-bits (suc a % 2) (b % 2) (omega arith) (omega arith),
)

-- Each law below is an induction on a width that both operands fit.
wide : (a : ℕ) → a < 2 ^ a
wide zero = omega arith
wide (suc a) = omega (arith, wide a, two-pow-succ a)

pub bit_xor-lt : (k a b : ℕ) → a < 2 ^ k → b < 2 ^ k → bit_xor a b < 2 ^ k
bit_xor-lt zero zero zero p q = omega arith
bit_xor-lt zero zero (suc b) p q = absurd (omega arith)
bit_xor-lt zero (suc a) b p q = absurd (omega arith)
bit_xor-lt (suc k) a b p q = omega (
  arith,
  bit_xor_step a b,
  two-pow-succ k,
  bit_xor-lt k (a / 2) (b / 2) (omega (arith, two-pow-succ k)) (omega (arith, two-pow-succ k)),
)

pub bit_or-lt : (k a b : ℕ) → a < 2 ^ k → b < 2 ^ k → bit_or a b < 2 ^ k
bit_or-lt zero zero zero p q = omega arith
bit_or-lt zero zero (suc b) p q = absurd (omega arith)
bit_or-lt zero (suc a) b p q = absurd (omega arith)
bit_or-lt (suc k) a b p q = omega (
  arith,
  bit_or_step a b,
  two-pow-succ k,
  bit_or-lt k (a / 2) (b / 2) (omega (arith, two-pow-succ k)) (omega (arith, two-pow-succ k)),
)

-- Exclusive or with the same word twice.
bit_xor-cancel_fuel : (n a b : ℕ) → a ≤ n → b ≤ n → bit_xor (bit_xor a b) b ≡ a
bit_xor-cancel_fuel zero zero zero p q = refl
bit_xor-cancel_fuel zero zero (suc b) p q = absurd (omega arith)
bit_xor-cancel_fuel zero (suc a) b p q = absurd (omega arith)
bit_xor-cancel_fuel (suc n) a b p q = omega (
  arith,
  bit_xor_step (bit_xor a b) b,
  ap (λ (t : ℕ). bit_xor t (b / 2)) halved,
  bit_xor_step a b,
  bit_xor-cancel_fuel n (a / 2) (b / 2) (omega arith) (omega arith),
)
  where
    halved : bit_xor a b / 2 ≡ bit_xor (a / 2) (b / 2)
    halved = omega (arith, bit_xor_step a b)

pub bit_xor-cancel : (a b : ℕ) → bit_xor (bit_xor a b) b ≡ a
bit_xor-cancel a b = bit_xor-cancel_fuel (a + b) a b (omega arith) (omega arith)

-- `acc |= x` stays zero exactly when both are.
bit_or-eq-zero_fuel : (n a b : ℕ) → a ≤ n → b ≤ n → bit_or a b ≡ 0 → (a ≡ 0) × (b ≡ 0)
bit_or-eq-zero_fuel zero a b p q e = omega arith
bit_or-eq-zero_fuel (suc n) a b p q e = omega (
  arith,
  bit_or_step a b,
  bit_or-eq-zero_fuel n (a / 2) (b / 2) (omega arith) (omega arith)
      (omega (arith, bit_or_step a b)),
)

pub bit_or-eq-zero : (a b : ℕ) → bit_or a b ≡ 0 → (a ≡ 0) × (b ≡ 0)
bit_or-eq-zero a b e = bit_or-eq-zero_fuel (a + b) a b (omega arith) (omega arith) e

pub bit_or-zero : (a : ℕ) → bit_or 0 a ≡ a
bit_or-zero a = zero-bit_or a

pub bit_xor_self : (a : ℕ) → bit_xor a a ≡ 0
bit_xor_self a = ap (λ (t : ℕ). bit_xor t a) (sym (zero-bit_xor a)) ∙ bit_xor-cancel 0 a

pub bit_xor-eq-zero : (a b : ℕ) → bit_xor a b ≡ 0 → a ≡ b
bit_xor-eq-zero a b e = sym (bit_xor-cancel a b) ∙ ap (λ (t : ℕ). bit_xor t b) e ∙ zero-bit_xor b

bit_or-comm_fuel : (n a b : ℕ) → a ≤ n → b ≤ n → bit_or a b ≡ bit_or b a
bit_or-comm_fuel zero zero zero p q = refl
bit_or-comm_fuel zero zero (suc b) p q = absurd (omega arith)
bit_or-comm_fuel zero (suc a) b p q = absurd (omega arith)
bit_or-comm_fuel (suc n) a b p q = omega (
  arith,
  bit_or_step a b,
  bit_or_step b a,
  bit_or-comm_fuel n (a / 2) (b / 2) (omega arith) (omega arith),
)

pub bit_or_comm : (a b : ℕ) → bit_or a b ≡ bit_or b a
bit_or_comm a b = bit_or-comm_fuel (a + b) a b (omega arith) (omega arith)

bit_xor-comm_fuel : (n a b : ℕ) → a ≤ n → b ≤ n → bit_xor a b ≡ bit_xor b a
bit_xor-comm_fuel zero zero zero p q = refl
bit_xor-comm_fuel zero zero (suc b) p q = absurd (omega arith)
bit_xor-comm_fuel zero (suc a) b p q = absurd (omega arith)
bit_xor-comm_fuel (suc n) a b p q = omega (
  arith,
  bit_xor_step a b,
  bit_xor_step b a,
  bit_xor-comm_fuel n (a / 2) (b / 2) (omega arith) (omega arith),
)

pub bit_xor_comm : (a b : ℕ) → bit_xor a b ≡ bit_xor b a
bit_xor_comm a b = bit_xor-comm_fuel (a + b) a b (omega arith) (omega arith)

pub double_pow : (q k : ℕ) → q * 2 ^ suc k ≡ 2 * (q * 2 ^ k)
double_pow q k = omega (arith, ap (λ (t : ℕ). q * t) (two-pow-succ k))

-- `(q << k) | r` is a sum where `r` fits `k` bits.
pub bit_or-fields : (k q r : ℕ) → r < 2 ^ k → bit_or (q * 2 ^ k) r ≡ q * 2 ^ k + r
bit_or-fields zero q zero h = omega (arith, bit_or_comm (q * 1) 0, zero-bit_or (q * 1))
bit_or-fields zero q (suc r) h = absurd (omega arith)
bit_or-fields (suc k) q r h = omega (
  arith,
  bit_or_step (q * 2 ^ suc k) r,
  ap (λ (t : ℕ). bit_or t (r / 2)) half,
  double_pow q k,
  bit_or-fields k q (r / 2) (omega (arith, two-pow-succ k)),
)
  where
    half : q * 2 ^ suc k / 2 ≡ q * 2 ^ k
    half = omega (arith, double_pow q k)

-- Exclusive or works on the low `k` bits and on the rest apart.
pub bit_xor-fields :
    (k q r p s : ℕ)
    → r < 2 ^ k
    → s < 2 ^ k
    → bit_xor (q * 2 ^ k + r) (p * 2 ^ k + s) ≡ bit_xor q p * 2 ^ k + bit_xor r s
bit_xor-fields zero q zero p zero h g =
    omega (arith, ap₂ (λ (a b : ℕ). bit_xor a b) (unit q) (unit p), zero-bit_xor 0)
  where
    unit : (a : ℕ) → a * 2 ^ 0 + 0 ≡ a
    unit a = omega arith
bit_xor-fields zero q zero p (suc s) h g = absurd (omega arith)
bit_xor-fields zero q (suc r) p s h g = absurd (omega arith)
bit_xor-fields (suc k) q r p s h g = omega (
  arith,
  bit_xor_step (q * 2 ^ suc k + r) (p * 2 ^ suc k + s),
  ap₂ (λ (a b : ℕ). bit_xor a b) (half q r) (half p s),
  double_pow (bit_xor q p) k,
  double_pow q k,
  double_pow p k,
  bit_xor_step r s,
  bit_xor-fields k q (r / 2) p (s / 2) (omega (arith, two-pow-succ k))
      (omega (arith, two-pow-succ k)),
)
  where
    half : (a b : ℕ) → (a * 2 ^ suc k + b) / 2 ≡ a * 2 ^ k + b / 2
    half a b = omega (arith, double_pow a k)

pub bit_xor-zero : (a : ℕ) → bit_xor 0 a ≡ a
bit_xor-zero a = zero-bit_xor a
