-- ===== src/Mlkem/Transform.antt =====
-- src/core/mlkem512_stream.c: the number-theoretic transform, its inverse, and the products of pairs.
pub mod Reference
pub mod Butterfly
pub mod Writes
pub mod Layers
pub mod Residues
pub mod Inverse
pub mod InverseResidues
pub mod Pairs
use c0_pqlink_complete.Prelude.{ℕ, ◌+◌, ◌-◌, ◌*◌, ◌/◌, ◌^◌, List, [], ◌∷◌, map, set, get_or, u16}
use c0_pqlink_complete.Prelude.Loops.{each, count_from}
use c0_pqlink_complete.Mlkem.{fqmul, barrett_reduce}

-- `a + b` and `a - b` of two coefficients, cast to `int16_t`.
abbrev pub add16 : ℕ → ℕ → ℕ
add16 a b = u16 (a + b)

abbrev pub sub16 : ℕ → ℕ → ℕ
sub16 a b = u16 (a + (2 ^ 16 - b))

-- The table, each entry as its bit pattern.
abbrev pub zetas : List ℕ
zetas =
    64492 ∷ 64778 ∷ 65177 ∷ 64019 ∷ 1493 ∷ 1422 ∷ 287 ∷ 202 ∷ 65365 ∷ 622 ∷ 1577 ∷ 182 ∷ 962 ∷ 64334
    ∷ 64062 ∷ 1468 ∷ 573 ∷ 64211 ∷ 264 ∷ 383 ∷ 64707 ∷ 1458 ∷ 63934 ∷ 65406 ∷ 64855 ∷ 1017 ∷ 732
    ∷ 608 ∷ 63994 ∷ 411 ∷ 65331 ∷ 63965 ∷ 1223 ∷ 652 ∷ 64984 ∷ 1015 ∷ 64243 ∷ 1491 ∷ 65254 ∷ 63992
    ∷ 516 ∷ 65528 ∷ 65216 ∷ 64870 ∷ 63918 ∷ 64374 ∷ 126 ∷ 1469 ∷ 64683 ∷ 65446 ∷ 65265 ∷ 830 ∷ 107
    ∷ 64115 ∷ 65289 ∷ 64585 ∷ 65138 ∷ 961 ∷ 64028 ∷ 64811 ∷ 448 ∷ 64471 ∷ 677 ∷ 64261 ∷ 64433 ∷ 430
    ∷ 555 ∷ 843 ∷ 64285 ∷ 871 ∷ 1550 ∷ 105 ∷ 422 ∷ 587 ∷ 177 ∷ 65301 ∷ 65245 ∷ 65076 ∷ 1574 ∷ 1653
    ∷ 65290 ∷ 778 ∷ 1159 ∷ 65389 ∷ 64759 ∷ 1483 ∷ 64934 ∷ 1119 ∷ 63946 ∷ 644 ∷ 64664 ∷ 349 ∷ 418
    ∷ 329 ∷ 65380 ∷ 65461 ∷ 817 ∷ 1097 ∷ 603 ∷ 610 ∷ 1322 ∷ 64251 ∷ 64071 ∷ 384 ∷ 64321 ∷ 65400
    ∷ 1218 ∷ 64201 ∷ 64662 ∷ 220 ∷ 64349 ∷ 63877 ∷ 64351 ∷ 64006 ∷ 64258 ∷ 794 ∷ 64026 ∷ 64682
    ∷ 64666 ∷ 478 ∷ 65428 ∷ 65228 ∷ 996 ∷ 991 ∷ 958 ∷ 64076 ∷ 1522 ∷ 1628 ∷ []

abbrev pub load_zeta : ℕ → ℕ
load_zeta index = get_or zetas index 0

abbrev pub coefficient : List ℕ → ℕ → ℕ
coefficient polynomial i = get_or polynomial i 0

unfoldable pub butterfly : ℕ → ℕ → List ℕ → ℕ → List ℕ
butterfly zeta length polynomial j =
    let product = fqmul zeta (coefficient polynomial (j + length)) in
    let lower = set polynomial (j + length) (sub16 (coefficient polynomial j) product) in
    set lower j (add16 (coefficient lower j) product)

-- The values of `start` in a layer.
abbrev pub starts : ℕ → List ℕ
starts length = map (λ i. i * (2 * length)) (count_from 0 (128 / length))

-- One block of a layer, with the number `k` of its zeta.
abbrev pub ntt_block : ℕ → List ℕ × ℕ → ℕ → List ℕ × ℕ
ntt_block length (polynomial, k) start =
    (each (count_from start length) polynomial (butterfly (load_zeta k) length), k + 1)

abbrev pub ntt_layer : List ℕ × ℕ → ℕ → List ℕ × ℕ
ntt_layer state length = each (starts length) state (ntt_block length)

unfoldable pub ntt : List ℕ → List ℕ
ntt polynomial = (each (128 ∷ 64 ∷ 32 ∷ 16 ∷ 8 ∷ 4 ∷ 2 ∷ []) (polynomial, 1) ntt_layer).0

unfoldable pub inverse_butterfly : ℕ → ℕ → List ℕ → ℕ → List ℕ
inverse_butterfly zeta length polynomial j =
    let first = coefficient polynomial j in
    let sum =
      set polynomial j (barrett_reduce (add16 first (coefficient polynomial (j + length)))) in
    let difference = set sum (j + length) (sub16 (coefficient sum (j + length)) first) in
    set difference (j + length) (fqmul zeta (coefficient difference (j + length)))

abbrev pub inverse_block : ℕ → List ℕ × ℕ → ℕ → List ℕ × ℕ
inverse_block length (polynomial, k) start =
    (each (count_from start length) polynomial (inverse_butterfly (load_zeta k) length), k - 1)

abbrev pub inverse_layer : List ℕ × ℕ → ℕ → List ℕ × ℕ
inverse_layer state length = each (starts length) state (inverse_block length)

unfoldable pub inverse_ntt : List ℕ → List ℕ
inverse_ntt polynomial =
    let layers = (each (2 ∷ 4 ∷ 8 ∷ 16 ∷ 32 ∷ 64 ∷ 128 ∷ []) (polynomial, 127) inverse_layer).0 in
    map (λ c. fqmul c 1441) layers

-- The two coefficients of the accumulator after the product of two pairs.
unfoldable pub base_multiply_add : ℕ → ℕ → ℕ → ℕ → ℕ → ℕ → ℕ → ℕ × ℕ
base_multiply_add acc0 acc1 a0 a1 b0 b1 zeta =
    let c0 = add16 (fqmul (fqmul a1 b1) zeta) (fqmul a0 b0) in
    (add16 acc0 c0, u16 (acc1 + fqmul a0 b1 + fqmul a1 b0))

-- The two calls for the block number `block`: four values of one factor, a polynomial with the
-- other, and the zeta of the block.
unfoldable pub multiply_block : ℕ → ℕ → ℕ → ℕ → ℕ → ℕ → List ℕ → List ℕ → List ℕ
multiply_block block zeta a0 a1 a2 a3 vector accumulator =
    let i = 4 * block in
    let (c0, c1) =
      base_multiply_add (coefficient accumulator i) (coefficient accumulator (i + 1)) a0 a1
        (coefficient vector i) (coefficient vector (i + 1)) zeta in
    let half = set (set accumulator i c0) (i + 1) c1 in
    let (c2, c3) =
      base_multiply_add (coefficient half (i + 2)) (coefficient half (i + 3)) a2 a3
        (coefficient vector (i + 2)) (coefficient vector (i + 3)) (u16 (2 ^ 16 - zeta)) in
    set (set half (i + 2) c2) (i + 3) c3
