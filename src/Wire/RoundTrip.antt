-- ===== src/Wire/RoundTrip.antt =====
-- The loads undo the stores on words of their width, and the stores undo the loads on bytes.
use c0_pqlink_complete.Prelude.{
  ℕ, zero, suc, ◌+◌, ◌*◌, ◌/◌, ◌%◌, ◌^◌, ◌<◌, ◌≡◌, ap, ◌∙◌, [], ◌∷◌, ◌++◌, Bytes, bit_or, u8,
  length, refl, arith, take, ◌≤◌,
}
use c0_pqlink_complete.Prelude.Arrays.{IsBytes}
use c0_pqlink_complete.Prelude.Bits.{bit_or-fields}
use c0_pqlink_complete.Wire.{
  store16_be, store32_be, store64_loop, store64_be, load16_be, load32_be, load64_loop, load64_be,
}

-- One loaded byte: `value << 8 | byte` on values that leave room.
shift_in : (v b : ℕ) → b < 2 ^ 8 → bit_or (v * 2 ^ 8) b ≡ v * 256 + b
shift_in v b h = bit_or-fields 8 v b h

-- The first two, four and eight bytes of an array as a number, with bytes in range.
pub load16-bytes :
    (b0 b1 : ℕ) (rest : Bytes)
    → b0 < 2 ^ 8
    → b1 < 2 ^ 8
    → load16_be (b0 ∷ b1 ∷ rest) ≡ b0 * 256 + b1
unfolding load16_be
load16-bytes b0 b1 rest h0 h1 = ap (λ (t : ℕ). bit_or t b1) fits ∙ shift_in b0 b1 h1
  where
    fits : b0 * 2 ^ 8 % 2 ^ 16 ≡ b0 * 2 ^ 8
    fits = omega arith

join : (q r k : ℕ) {x : ℕ} → r < 2 ^ k → x ≡ q * 2 ^ k → bit_or x r ≡ x + r
join q r k h e = rw e (bit_or-fields k q r h)

pub load32-bytes :
    (b0 b1 b2 b3 : ℕ) (rest : Bytes)
    → b0 < 2 ^ 8
    → b1 < 2 ^ 8
    → b2 < 2 ^ 8
    → b3 < 2 ^ 8
    → load32_be (b0 ∷ b1 ∷ b2 ∷ b3 ∷ rest) ≡ ((b0 * 256 + b1) * 256 + b2) * 256 + b3
unfolding load32_be
load32-bytes b0 b1 b2 b3 rest h0 h1 h2 h3 =
    ap (λ (t : ℕ). bit_or (bit_or t z) b3) xy
    ∙ ap (λ (t : ℕ). bit_or t b3) xyz
    ∙ join ((b0 * 256 + b1) * 256 + b2) b3 8 h3 (omega arith)
    ∙ omega arith
  where
    x : ℕ
    x = b0 * 2 ^ 24 % 2 ^ 32

    y : ℕ
    y = b1 * 2 ^ 16 % 2 ^ 32

    z : ℕ
    z = b2 * 2 ^ 8 % 2 ^ 32

    xy : bit_or x y ≡ x + y
    xy = join b0 y 24 (omega arith) (omega arith)

    xyz : bit_or (x + y) z ≡ x + y + z
    xyz = join (b0 * 256 + b1) z 16 (omega arith) (omega arith)

load64-step :
    (b : ℕ) (xs : Bytes) (v : ℕ)
    → b < 2 ^ 8
    → v < 2 ^ 56
    → load64_loop (b ∷ xs) v ≡ load64_loop xs (v * 256 + b)
unfolding load64_loop
load64-step b xs v h room =
    ap (λ (t : ℕ). load64_loop xs t) (ap (λ (t : ℕ). bit_or t b) fits ∙ shift_in v b h)
  where
    fits : v * 2 ^ 8 % 2 ^ 64 ≡ v * 2 ^ 8
    fits = omega arith

-- The number that big-endian bytes spell, after a prefix that spells `v`.
abbrev pub big_endian : ℕ → Bytes → ℕ
big_endian v [] = v
big_endian v (b ∷ xs) = big_endian (v * 256 + b) xs

pub load64-bytes :
    (b0 b1 b2 b3 b4 b5 b6 b7 : ℕ) (rest : Bytes)
    → b0 < 2 ^ 8
    → b1 < 2 ^ 8
    → b2 < 2 ^ 8
    → b3 < 2 ^ 8
    → b4 < 2 ^ 8
    → b5 < 2 ^ 8
    → b6 < 2 ^ 8
    → b7 < 2 ^ 8
    → load64_be (b0 ∷ b1 ∷ b2 ∷ b3 ∷ b4 ∷ b5 ∷ b6 ∷ b7 ∷ rest)
      ≡ big_endian 0 (b0 ∷ b1 ∷ b2 ∷ b3 ∷ b4 ∷ b5 ∷ b6 ∷ b7 ∷ [])
unfolding load64_be load64_loop
load64-bytes b0 b1 b2 b3 b4 b5 b6 b7 rest h0 h1 h2 h3 h4 h5 h6 h7 =
    load64-step b0 (b1 ∷ b2 ∷ b3 ∷ b4 ∷ b5 ∷ b6 ∷ b7 ∷ []) (0) h0 (omega arith)
    ∙ load64-step b1 (b2 ∷ b3 ∷ b4 ∷ b5 ∷ b6 ∷ b7 ∷ []) (0 * 256 + b0) h1 (omega arith)
    ∙ load64-step b2 (b3 ∷ b4 ∷ b5 ∷ b6 ∷ b7 ∷ []) ((0 * 256 + b0) * 256 + b1) h2 (omega arith)
    ∙ load64-step b3 (b4 ∷ b5 ∷ b6 ∷ b7 ∷ []) (((0 * 256 + b0) * 256 + b1) * 256 + b2) h3
        (omega arith)
    ∙ load64-step b4 (b5 ∷ b6 ∷ b7 ∷ []) ((((0 * 256 + b0) * 256 + b1) * 256 + b2) * 256 + b3) h4
        (omega arith)
    ∙ load64-step b5 (b6 ∷ b7 ∷ [])
        (((((0 * 256 + b0) * 256 + b1) * 256 + b2) * 256 + b3) * 256 + b4) h5 (omega arith)
    ∙ load64-step b6 (b7 ∷ [])
        ((((((0 * 256 + b0) * 256 + b1) * 256 + b2) * 256 + b3) * 256 + b4) * 256 + b5) h6
        (omega arith)
    ∙ load64-step b7 ([])
        (((((((0 * 256 + b0) * 256 + b1) * 256 + b2) * 256 + b3) * 256 + b4) * 256 + b5) * 256 + b6)
        h7 (omega arith)

pub load16-store16 : (v : ℕ) → v < 2 ^ 16 → load16_be (store16_be v) ≡ v
unfolding store16_be
load16-store16 v h =
    omega (arith, load16-bytes (u8 (v / 256)) (u8 v) [] (omega arith) (omega arith))

pub load32-store32 : (v : ℕ) → v < 2 ^ 32 → load32_be (store32_be v) ≡ v
unfolding store32_be
load32-store32 v h = omega (
  arith,
  load32-bytes (u8 (v / 2 ^ 24)) (u8 (v / 2 ^ 16)) (u8 (v / 2 ^ 8)) (u8 v) [] (omega arith)
      (omega arith) (omega arith) (omega arith),
)

-- A number below 2 ^ 64 that has been stored loads again, whatever bytes follow it.
pub load64-store64 : (v : ℕ) (rest : Bytes) → v < 2 ^ 64 → load64_be (store64_be v ++ rest) ≡ v
unfolding store64_be store64_loop
load64-store64 v rest h = omega (
  arith,
  load64-bytes (u8 (v / 256 / 256 / 256 / 256 / 256 / 256 / 256))
      (u8 (v / 256 / 256 / 256 / 256 / 256 / 256)) (u8 (v / 256 / 256 / 256 / 256 / 256))
      (u8 (v / 256 / 256 / 256 / 256)) (u8 (v / 256 / 256 / 256)) (u8 (v / 256 / 256))
      (u8 (v / 256)) (u8 (v)) rest (omega arith) (omega arith) (omega arith) (omega arith)
      (omega arith) (omega arith) (omega arith) (omega arith),
)

pub store64-IsBytes : (v : ℕ) → IsBytes (store64_be v)
unfolding store64_be store64_loop
store64-IsBytes v = omega arith

pub length-store64 : (v : ℕ) → length (store64_be v) ≡ 8
unfolding store64_be store64_loop
length-store64 v = refl

pub load32-store32_prefix :
    (v : ℕ) (rest : Bytes) → v < 2 ^ 32 → load32_be (store32_be v ++ rest) ≡ v
unfolding store32_be
load32-store32_prefix v rest h = omega (
  arith,
  load32-bytes (u8 (v / 2 ^ 24)) (u8 (v / 2 ^ 16)) (u8 (v / 2 ^ 8)) (u8 v) rest (omega arith)
      (omega arith) (omega arith) (omega arith),
)

pub load16-store16_prefix :
    (v : ℕ) (rest : Bytes) → v < 2 ^ 16 → load16_be (store16_be v ++ rest) ≡ v
unfolding store16_be
load16-store16_prefix v rest h =
    omega (arith, load16-bytes (u8 (v / 256)) (u8 v) rest (omega arith) (omega arith))

-- The stores undo the loads on bytes.
pub store32-load32 :
    (b0 b1 b2 b3 : ℕ) (rest : Bytes)
    → IsBytes (b0 ∷ b1 ∷ b2 ∷ b3 ∷ [])
    → store32_be (load32_be (b0 ∷ b1 ∷ b2 ∷ b3 ∷ rest)) ≡ b0 ∷ b1 ∷ b2 ∷ b3 ∷ []
unfolding store32_be
store32-load32 b0 b1 b2 b3 rest p =
    rw (load32-bytes b0 b1 b2 b3 rest p.0 p.1.0 p.1.1.0 p.1.1.1.0) (ground arith)

pub store16-load16 :
    (b0 b1 : ℕ) (rest : Bytes)
    → IsBytes (b0 ∷ b1 ∷ [])
    → store16_be (load16_be (b0 ∷ b1 ∷ rest)) ≡ b0 ∷ b1 ∷ []
unfolding store16_be
store16-load16 b0 b1 rest p = rw (load16-bytes b0 b1 rest p.0 p.1.0) (ground arith)

pub length-store16 : (v : ℕ) → length (store16_be v) ≡ 2
unfolding store16_be
length-store16 v = refl

pub store16-IsBytes : (v : ℕ) → IsBytes (store16_be v)
unfolding store16_be
store16-IsBytes v = omega arith

pub store16-load16_list :
    (xs : Bytes) → 2 ≤ length xs → IsBytes xs → store16_be (load16_be xs) ≡ take 2 xs
store16-load16_list (b0 ∷ b1 ∷ rest) h p = store16-load16 b0 b1 rest (p.0, (p.1.0, tt))
store16-load16_list xs h p = absurd (omega arith)

pub store64-load64_list :
    (xs : Bytes) → 8 ≤ length xs → IsBytes xs → store64_be (load64_be xs) ≡ take 8 xs
unfolding store64_be store64_loop
store64-load64_list (b0 ∷ b1 ∷ b2 ∷ b3 ∷ b4 ∷ b5 ∷ b6 ∷ b7 ∷ rest) h p =
    rw
      (load64-bytes b0 b1 b2 b3 b4 b5 b6 b7 rest p.0 p.1.0 p.1.1.0 p.1.1.1.0 p.1.1.1.1.0
        p.1.1.1.1.1.0 p.1.1.1.1.1.1.0 p.1.1.1.1.1.1.1.0)
      (ground arith)
store64-load64_list xs h p = absurd (omega arith)

pub load64-lt : (xs : Bytes) → 8 ≤ length xs → IsBytes xs → load64_be xs < 2 ^ 64
load64-lt (b0 ∷ b1 ∷ b2 ∷ b3 ∷ b4 ∷ b5 ∷ b6 ∷ b7 ∷ rest) h p = omega (
  arith,
  load64-bytes b0 b1 b2 b3 b4 b5 b6 b7 rest p.0 p.1.0 p.1.1.0 p.1.1.1.0 p.1.1.1.1.0 p.1.1.1.1.1.0
      p.1.1.1.1.1.1.0 p.1.1.1.1.1.1.1.0,
)
load64-lt xs h p = absurd (omega arith)

pub length-store32 : (v : ℕ) → length (store32_be v) ≡ 4
unfolding store32_be
length-store32 v = refl

pub store32-IsBytes : (v : ℕ) → IsBytes (store32_be v)
unfolding store32_be
store32-IsBytes v = omega arith

-- The `count` bytes of a number, the highest first.
abbrev pub big_endian_bytes : ℕ → ℕ → Bytes
big_endian_bytes zero v = []
big_endian_bytes (suc count) v = v / 2 ^ (8 * count) % 256 ∷ big_endian_bytes count v

pub store16-big_endian : (v : ℕ) → store16_be v ≡ big_endian_bytes 2 v
unfolding store16_be
store16-big_endian v = ground arith

pub store32-big_endian : (v : ℕ) → store32_be v ≡ big_endian_bytes 4 v
unfolding store32_be
store32-big_endian v = ground arith

pub store64-big_endian : (v : ℕ) → store64_be v ≡ big_endian_bytes 8 v
unfolding store64_be store64_loop
store64-big_endian v = ground arith
