-- ===== src/Mlkem/Product.antt =====
-- The product of two coefficients, modulo 3329, and its bound.
use c0_pqlink_complete.Prelude.{Bool-cases, leb, ◌==◌, ◌&&◌, ◌||◌, true}
use c0_pqlink_complete.Prelude.{
  ℕ, ◌+◌, ◌-◌, ◌*◌, ◌/◌, ◌%◌, ◌^◌, ◌<◌, ◌≤◌, ◌≡◌, ◌⊎◌, inl, inr, ap, ap₂, sym, ◌∙◌, subst, arith,
  ltb, if◌then◌else◌,
}
use c0_pqlink_complete.Mlkem.{montgomery_reduce, multiply_s16_constant_schedule, fqmul}
use c0_pqlink_complete.Mlkem.Multiply.{
  product_pos_pos, product_neg_pos, product_pos_neg, product_neg_neg,
}
use c0_pqlink_complete.Mlkem.Montgomery.{sign_cases, word32, word16, montgomery_reduce-Reduced}
use c0_pqlink_complete.Mlkem.Compress.{canonical}

-- A word that stands for a number from - k * 3329 to k * 3329.
abbrev pub Within : ℕ → ℕ → Type 0
Within k word = (word ≤ k * 3329) ⊎ ((2 ^ 16 ≤ word + k * 3329) × (word < 2 ^ 16))

-- Two facts about a word, from their tests.
pub read_entry :
    (c d z : ℕ)
    → (c == d) && (ltb z 3330 || (leb (2 ^ 16) (z + 3329) && ltb z (2 ^ 16))) ≡ true
    → (c ≡ d) × Within 1 z
read_entry c d z h = elim (Bool-cases (ltb z 3330)) [
  | inl low ↦ (ground arith, inl (ground arith))
  | inr high ↦ (ground arith, inr (ground arith, ground arith))
]

-- The absolute value of the number that a word stands for.
abbrev pub magnitude : ℕ → ℕ
magnitude word = if ltb word (2 ^ 15) then word else 2 ^ 16 - word

-- The residue of a product, from that of the value.
abbrev Multiplies : ℕ → ℕ → ℕ → Type 0
Multiplies c a b =
    Within 1 c × (c < 2 ^ 16) × (canonical c * 2 ^ 16 % 3329 ≡ canonical a * canonical b % 3329)

mod_product : (qa ra qb rb : ℕ) → (3329 * qa + ra) * (3329 * qb + rb) % 3329 ≡ ra * rb % 3329
mod_product qa ra qb rb = omega arith

-- Residues are multiplied as the numbers are.
pub residue_product : (a b : ℕ) → a % 3329 * (b % 3329) % 3329 ≡ a * b % 3329
residue_product a b =
    let left : 3329 * (a / 3329) + a % 3329 ≡ a = omega arith in
    let right : 3329 * (b / 3329) + b % 3329 ≡ b = omega arith in
    sym (mod_product (a / 3329) (a % 3329) (b / 3329) (b % 3329))
    ∙ ap₂ (λ (x y : ℕ). x * y % 3329) left right

canonical-word16 : (v : ℕ) → v ≤ 2 * 3329 → canonical (word16 v) ≡ v % 3329
canonical-word16 v h = ground arith

canonical_pos : (a : ℕ) → a < 2 ^ 15 → canonical a ≡ a % 3329
canonical_pos a h = ground arith

canonical_neg : (m : ℕ) → m ≤ 2 ^ 15 → canonical (2 ^ 16 - m) ≡ (66580 - m) % 3329
canonical_neg m h = ground arith

of_Reduced :
    (y a b : ℕ)
    → y < 2 ^ 16 * 3329
    → multiply_s16_constant_schedule a b ≡ word32 y
    → y % 3329 ≡ canonical a * canonical b % 3329
    → Multiplies (fqmul a b) a b
unfolding fqmul
of_Reduced y a b h e same =
    let reduced = montgomery_reduce-Reduced y h in
    let is : montgomery_reduce (multiply_s16_constant_schedule a b) ≡ word16 reduced.value =
      ap montgomery_reduce e ∙ reduced.word in
    subst (λ c. Multiplies c a b) (sym is)
      (
        ground arith,
        omega arith,
        ap (λ (c : ℕ). c * 2 ^ 16 % 3329) (canonical-word16 reduced.value reduced.bound)
            ∙ omega (arith, reduced.residue)
            ∙ same,
      )

-- The residue of a product of residues, from the numbers that they are of.
through : (x y a b : ℕ) → x ≡ a % 3329 → y ≡ b % 3329 → x * y % 3329 ≡ a * b % 3329
through x y a b ex ey = ap₂ (λ (m n : ℕ). m * n % 3329) ex ey ∙ residue_product a b

pos_pos : (a b : ℕ) → a < 2 ^ 15 → b < 2 ^ 15 → a * b < 2 ^ 15 * 3329 → Multiplies (fqmul a b) a b
pos_pos a b h g small =
    of_Reduced (2 ^ 15 * 3329 + a * b) a b (omega arith) (product_pos_pos a b h g ∙ omega arith)
      (omega arith ∙ sym (through _ _ a b (canonical_pos a h) (canonical_pos b g)))

neg_pos :
    (m b : ℕ)
    → 0 < m
    → m ≤ 2 ^ 15
    → b < 2 ^ 15
    → m * b < 2 ^ 15 * 3329
    → Multiplies (fqmul (2 ^ 16 - m) b) (2 ^ 16 - m) b
neg_pos m b p h g small =
    let a = 66580 - m in
    let whole : (m + a) * b ≡ 66580 * b = ap (λ (t : ℕ). t * b) (omega arith) in
    of_Reduced (2 ^ 15 * 3329 - m * b) (2 ^ 16 - m) b (omega arith)
      (product_neg_pos m b p h g ∙ omega arith)
      (omega (arith, whole) ∙ sym (through _ _ a b (canonical_neg m h) (canonical_pos b g)))

pos_neg :
    (a n : ℕ)
    → a < 2 ^ 15
    → 0 < n
    → n ≤ 2 ^ 15
    → a * n < 2 ^ 15 * 3329
    → Multiplies (fqmul a (2 ^ 16 - n)) a (2 ^ 16 - n)
pos_neg a n h p g small =
    let b = 66580 - n in
    let whole : a * (n + b) ≡ a * 66580 = ap (λ (t : ℕ). a * t) (omega arith) in
    of_Reduced (2 ^ 15 * 3329 - a * n) a (2 ^ 16 - n) (omega arith)
      (product_pos_neg a n h p g ∙ omega arith)
      (omega (arith, whole) ∙ sym (through _ _ a b (canonical_pos a h) (canonical_neg n g)))

neg_neg :
    (m n : ℕ)
    → 0 < m
    → m ≤ 2 ^ 15
    → 0 < n
    → n ≤ 2 ^ 15
    → m * n < 2 ^ 15 * 3329
    → Multiplies (fqmul (2 ^ 16 - m) (2 ^ 16 - n)) (2 ^ 16 - m) (2 ^ 16 - n)
neg_neg m n p h q g small =
    let a = 66580 - m in
    let b = 66580 - n in
    let left : (m + a) * b ≡ 66580 * b = ap (λ (t : ℕ). t * b) (omega arith) in
    let right : m * (n + b) ≡ m * 66580 = ap (λ (t : ℕ). m * t) (omega arith) in
    of_Reduced (2 ^ 15 * 3329 + m * n) (2 ^ 16 - m) (2 ^ 16 - n) (omega arith)
      (product_neg_neg m n p h q g ∙ omega arith)
      (omega (arith, left, right) ∙ sym (through _ _ a b (canonical_neg m h) (canonical_neg n g)))

magnitude_pos : (a : ℕ) → a < 2 ^ 15 → magnitude a ≡ a
magnitude_pos a h = ground arith

magnitude_neg : (a : ℕ) → 2 ^ 15 ≤ a → magnitude a ≡ 2 ^ 16 - a
magnitude_neg a h = ground arith

-- For two 16-bit coefficients whose absolute values have a product below 2 ^ 15 * 3329, the product
-- of fqmul lies between -3329 and 3329, and times 2 ^ 16 it is that of the coefficients modulo 3329.
pub fqmul-Multiplies :
    (a b : ℕ)
    → a < 2 ^ 16
    → b < 2 ^ 16
    → magnitude a * magnitude b < 2 ^ 15 * 3329
    → Within 1 (fqmul a b)
      × (fqmul a b < 2 ^ 16)
      × (canonical (fqmul a b) * 2 ^ 16 % 3329 ≡ canonical a * canonical b % 3329)
fqmul-Multiplies a b h g small =
    let a' : 2 ^ 16 - (2 ^ 16 - a) ≡ a = omega arith in
    let b' : 2 ^ 16 - (2 ^ 16 - b) ≡ b = omega arith in
    elim (sign_cases a) [
      | inl pa ↦ elim (sign_cases b) [
        | inl pb ↦ pos_pos a b pa pb (rw (magnitude_pos a pa, magnitude_pos b pb) at small)
        | inr nb ↦
            subst (λ t. Multiplies (fqmul a t) a t) b'
              (pos_neg a (2 ^ 16 - b) pa (omega arith) (omega arith)
                (rw (magnitude_pos a pa, magnitude_neg b nb) at small))
      ]
      | inr na ↦ elim (sign_cases b) [
        | inl pb ↦
            subst (λ t. Multiplies (fqmul t b) t b) a'
              (neg_pos (2 ^ 16 - a) b (omega arith) (omega arith) pb
                (rw (magnitude_neg a na, magnitude_pos b pb) at small))
        | inr nb ↦
            subst (λ t. Multiplies (fqmul t b) t b) a'
              (subst (λ t. Multiplies (fqmul (2 ^ 16 - (2 ^ 16 - a)) t) (2 ^ 16 - (2 ^ 16 - a)) t)
                b'
                (neg_neg (2 ^ 16 - a) (2 ^ 16 - b) (omega arith) (omega arith) (omega arith)
                  (omega arith) (rw (magnitude_neg a na, magnitude_neg b nb) at small)))
      ]
    ]

-- The bound on the absolute values, from bounds of the factors.
pub magnitude-Within : (k word : ℕ) → k ≤ 9 → Within k word → magnitude word ≤ k * 3329
magnitude-Within k word h (inl low) = ground arith
magnitude-Within k word h (inr (high, below)) = ground arith
