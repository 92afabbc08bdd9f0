-- ===== src/Mlkem/Compress.antt =====
-- Coefficients in the canonical range, and their compression.
use c0_pqlink_complete.Prelude.{
  ℕ, ◌+◌, ◌*◌, ◌/◌, ◌%◌, ◌^◌, ◌<◌, ◌≡◌, refl, ap, subst, Bool-cases, inl, inr, ◌∙◌, true, ◌&&◌,
  ◌==◌, ==_iff, ltb, if◌then◌else◌, arith, and_left, and_right,
}
use c0_pqlink_complete.Mlkem.{
  multiply_u8_fixed, multiply_u16_fixed, multiply_s16_constant_schedule, barrett_reduce,
  freeze_coefficient, scale10, compress10, scale4, compress4,
}
use c0_pqlink_complete.Mlkem.Range.{holds_from, holds_from-at, holds_square}

-- The residue modulo 3329 of a coefficient, read as a signed number; 2 ^ 16 is 20 * 3329 - 1044.
abbrev pub canonical : ℕ → ℕ
canonical word = if ltb word (2 ^ 15) then word % 3329 else (word + 1044) % 3329

-- x * 2 ^ bits / 3329 to the nearest integer, modulo 2 ^ bits.
abbrev pub nearest : ℕ → ℕ → ℕ
nearest bits x = (2 * (x * 2 ^ bits) + 3329) / (2 * 3329) % 2 ^ bits

freeze_table :
    holds_from
      (λ high.
        holds_from
          (λ low. freeze_coefficient (256 * high + low) == canonical (256 * high + low))
          0
          256)
      0
      256
    ≡ true
unfolding holds_from freeze_coefficient barrett_reduce multiply_s16_constant_schedule
    multiply_u16_fixed multiply_u8_fixed
freeze_table = refl

scale_table :
    holds_from (λ x. (scale10 x == nearest 10 x) && (scale4 x == nearest 4 x)) 0 3329 ≡ true
unfolding holds_from scale10 scale4
scale_table = refl

freeze-canonical : (word : ℕ) → word < 2 ^ 16 → freeze_coefficient word ≡ canonical word
freeze-canonical word small =
    (==_iff _ _).0 (holds_square (λ w. freeze_coefficient w == canonical w) word freeze_table small)

scaled : (x : ℕ) → x < 3329 → (scale10 x ≡ nearest 10 x) × (scale4 x ≡ nearest 4 x)
scaled x small =
    let test = λ (y : ℕ). (scale10 y == nearest 10 y) && (scale4 y == nearest 4 y) in
    let start : 0 + x ≡ x = omega arith in
    let both : test x ≡ true =
      subst (λ y. test y ≡ true) start (holds_from-at test 3329 0 x scale_table small) in
    (
      (==_iff (scale10 x) (nearest 10 x)).0 (and_left _ _ both),
      (==_iff (scale4 x) (nearest 4 x)).0 (and_right _ _ both),
    )

canonical_lt : (word : ℕ) → canonical word < 3329
canonical_lt word = elim (Bool-cases (ltb word (2 ^ 15))) [
  | inl positive ↦ rw positive (omega arith)
  | inr negative ↦ rw negative (omega arith)
]

-- For every 16-bit coefficient, freezing gives its residue modulo 3329 as a signed number, and the
-- compressions to 10 and to 4 bits are the nearest integers to that residue scaled by 2 ^ 10 / 3329
-- and 2 ^ 4 / 3329, modulo 2 ^ 10 and 2 ^ 4.
pub compress-nearest :
    (word : ℕ)
    → word < 2 ^ 16
    → (freeze_coefficient word ≡ canonical word)
      × (compress10 word ≡ nearest 10 (canonical word))
      × (compress4 word ≡ nearest 4 (canonical word))
unfolding compress10 compress4
compress-nearest word small =
    let frozen = freeze-canonical word small in
    let (ten, four) = scaled (canonical word) (canonical_lt word) in
    (frozen, ap scale10 frozen ∙ ten, ap scale4 frozen ∙ four)
