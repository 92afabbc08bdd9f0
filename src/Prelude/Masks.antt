-- ===== src/Prelude/Masks.antt =====
-- Laws of `bit_and`: masks, complements and shifts; and `bit_xor` on the low bits of words.
use Prim.Native.Nat.{bit_and-bitwise}
use Prim.Native.Nat.{ℕ, zero, suc, ◌+◌, ◌-◌, ◌*◌, ◌/◌, ◌%◌, ◌^◌, ◌≤◌, ◌<◌, min, bit_and, bit_xor}
use mathlib.Core.Path.{◌≡◌, refl, ap, ap₂, ◌∙◌, sym}
use native.Mathlib.Nat.{
  two-pow-succ, mul-add-div_right, mul-add-mod_self_right, mod-eq_of_lt, div-add-mod', mod-lt,
  div-div-eq-div-mul, div-eq_of_lt,
}
use native.Mathlib.Omega.{arith}
use c0_pqlink_complete.Prelude.Bits.{lowest_digit, double_pow, bit_xor-fields, bit_xor-lt}

-- The digit law, from the halves to the whole.
pub from_halves : (x y : ℕ) → min (x % 2) (y % 2) + 2 * bit_and (x / 2) (y / 2) ≡ bit_and x y
from_halves zero y = omega (arith, bit_and-bitwise 0 (y / 2), bit_and-bitwise 0 y)
from_halves (suc x) y =
    let lower = bit_and-bitwise (suc x / 2) (y / 2) in
    omega (lowest_digit (λ c. zero) min x y, bit_and-bitwise (suc x) y, lower, arith)

pub bit_and-lt : (k a b : ℕ) → a < 2 ^ k → bit_and a b < 2 ^ k
bit_and-lt zero zero b h = omega (arith, bit_and-bitwise 0 b)
bit_and-lt zero (suc a) b h = absurd (omega arith)
bit_and-lt (suc k) a b h = omega (
  arith,
  from_halves a b,
  two-pow-succ k,
  bit_and-lt k (a / 2) (b / 2) (omega (arith, two-pow-succ k)),
)

right_zero : (k x : ℕ) → x < 2 ^ k → bit_and x 0 ≡ 0
right_zero k zero below = refl
right_zero zero (suc x) below = absurd (omega arith)
right_zero (suc k) (suc x) below =
    let half = right_zero k (suc x / 2) (omega (arith, two-pow-succ k)) in
    omega (arith, half, from_halves (suc x) 0)

power_above : (n : ℕ) → n < 2 ^ n
power_above zero = omega arith
power_above (suc n) = omega (arith, power_above n, two-pow-succ n)

commuted : (k a b : ℕ) → a < 2 ^ k → bit_and a b ≡ bit_and b a
commuted zero zero b h = bit_and-bitwise 0 b ∙ sym (right_zero b b (power_above b))
commuted zero (suc a) b h = absurd (omega arith)
commuted (suc k) a b h = omega (
  arith,
  from_halves a b,
  from_halves b a,
  commuted k (a / 2) (b / 2) (omega (arith, two-pow-succ k)),
)

pub bit_and_comm : (a b : ℕ) → bit_and a b ≡ bit_and b a
bit_and_comm a b = commuted a a b (power_above a)

-- Clearing the bits of a mask.
pub bit_and-complement :
    (k a m : ℕ) → a < 2 ^ k → m < 2 ^ k → bit_and a (2 ^ k - 1 - m) + bit_and a m ≡ a
bit_and-complement zero zero zero h g = refl
bit_and-complement zero zero (suc m) h g = absurd (omega arith)
bit_and-complement zero (suc a) m h g = absurd (omega arith)
bit_and-complement (suc k) a m h g = omega (
  arith,
  two-pow-succ k,
  from_halves a (2 ^ suc k - 1 - m),
  ap (λ (t : ℕ). bit_and (a / 2) t) half,
  from_halves a m,
  bit_and-complement k (a / 2) (m / 2) (omega (arith, two-pow-succ k))
      (omega (arith, two-pow-succ k)),
)
  where
    half : (2 ^ suc k - 1 - m) / 2 ≡ 2 ^ k - 1 - m / 2
    half = omega (arith, two-pow-succ k)

pub pow_pos : (k : ℕ) → 0 < 2 ^ k
pow_pos zero = omega arith
pow_pos (suc k) = omega (arith, two-pow-succ k, pow_pos k)

-- The two fields of a word.
pub parts-div : (k q r : ℕ) → r < 2 ^ k → (q * 2 ^ k + r) / 2 ^ k ≡ q
parts-div k q r h = omega (arith, mul-add-div_right (pow_pos k) q r, div-eq_of_lt h)

pub parts-mod : (k q r : ℕ) → r < 2 ^ k → (q * 2 ^ k + r) % 2 ^ k ≡ r
parts-mod k q r h = mul-add-mod_self_right q (2 ^ k) r ∙ mod-eq_of_lt h

pub parts : (k a : ℕ) → a / 2 ^ k * 2 ^ k + a % 2 ^ k ≡ a
parts k a = div-add-mod' a (2 ^ k)

pub mod-pow-lt : (k a : ℕ) → a % 2 ^ k < 2 ^ k
mod-pow-lt k a = mod-lt a (pow_pos k)

halves : (k a : ℕ) → a % 2 ^ suc k ≡ a / 2 % 2 ^ k * 2 + a % 2
halves k a =
    ap (λ (t : ℕ). t % 2 ^ suc k) shape
    ∙ parts-mod (suc k) (a / 2 / 2 ^ k) (a / 2 % 2 ^ k * 2 + a % 2)
        (omega (arith, mod-pow-lt k (a / 2), two-pow-succ k))
  where
    shape : a ≡ a / 2 / 2 ^ k * 2 ^ suc k + (a / 2 % 2 ^ k * 2 + a % 2)
    shape = omega (arith, parts k (a / 2), double_pow (a / 2 / 2 ^ k) k)

-- A mask of the low bits.
pub bit_and-mask : (k a : ℕ) → bit_and a (2 ^ k - 1) ≡ a % 2 ^ k
bit_and-mask zero a = omega (arith, right_zero a a (power_above a))
bit_and-mask (suc k) a = omega (
  arith,
  two-pow-succ k,
  from_halves a (2 ^ suc k - 1),
  ap (λ (t : ℕ). bit_and (a / 2) t) half,
  bit_and-mask k (a / 2),
  halves k a,
  pow_pos k,
)
  where
    half : (2 ^ suc k - 1) / 2 ≡ 2 ^ k - 1
    half = omega (arith, two-pow-succ k, pow_pos k)

-- A mask above the low bits.
pub bit_and-shift : (k a m : ℕ) → bit_and a (m * 2 ^ k) ≡ bit_and (a / 2 ^ k) m * 2 ^ k
bit_and-shift zero a m = ap₂ (λ (x y : ℕ). bit_and x y) whole unit ∙ omega arith
  where
    whole : a ≡ a / 2 ^ 0
    whole = omega arith

    unit : m * 2 ^ 0 ≡ m
    unit = omega arith
bit_and-shift (suc k) a m = omega (
  arith,
  from_halves a (m * 2 ^ suc k),
  ap (λ (t : ℕ). bit_and (a / 2) t) half,
  bit_and-shift k (a / 2) m,
  double_pow m k,
  double_pow (bit_and (a / 2 ^ suc k) m) k,
  ap (λ (t : ℕ). bit_and t m * 2 ^ k) lower,
)
  where
    half : m * 2 ^ suc k / 2 ≡ m * 2 ^ k
    half = omega (arith, double_pow m k)

    twice : 2 * 2 ^ k ≡ 2 ^ suc k
    twice = omega (arith, two-pow-succ k)

    lower : a / 2 / 2 ^ k ≡ a / 2 ^ suc k
    lower = div-div-eq-div-mul a 2 (2 ^ k) ∙ ap (λ (t : ℕ). a / t) twice

-- Exclusive or, field by field.
fields :
    (k a b : ℕ)
    → bit_xor a b ≡ bit_xor (a / 2 ^ k) (b / 2 ^ k) * 2 ^ k + bit_xor (a % 2 ^ k) (b % 2 ^ k)
fields k a b =
    ap₂ (λ (x y : ℕ). bit_xor x y) (sym (parts k a)) (sym (parts k b))
    ∙ bit_xor-fields k (a / 2 ^ k) (a % 2 ^ k) (b / 2 ^ k) (b % 2 ^ k) (mod-pow-lt k a)
        (mod-pow-lt k b)

pub bit_xor-mod : (k a b : ℕ) → bit_xor a b % 2 ^ k ≡ bit_xor (a % 2 ^ k) (b % 2 ^ k)
bit_xor-mod k a b =
    ap (λ (t : ℕ). t % 2 ^ k) (fields k a b)
    ∙ parts-mod k _ _ (bit_xor-lt k (a % 2 ^ k) (b % 2 ^ k) (mod-pow-lt k a) (mod-pow-lt k b))

pub bit_xor-div : (k a b : ℕ) → bit_xor a b / 2 ^ k ≡ bit_xor (a / 2 ^ k) (b / 2 ^ k)
bit_xor-div k a b =
    ap (λ (t : ℕ). t / 2 ^ k) (fields k a b)
    ∙ parts-div k _ _ (bit_xor-lt k (a % 2 ^ k) (b % 2 ^ k) (mod-pow-lt k a) (mod-pow-lt k b))

pub pow_le : (k n : ℕ) → k ≤ n → 2 ^ k ≤ 2 ^ n
pow_le zero n h = pow_pos n
pow_le (suc k) zero h = absurd (omega arith)
pow_le (suc k) (suc n) h = omega (arith, two-pow-succ k, two-pow-succ n, pow_le k n (omega arith))
