-- ===== src/Mlkem/Tests.antt =====
-- A negative coefficient, products, a polynomial of four, and the transforms of one of 256.
use c0_pqlink_complete.Prelude.{ℕ, ◌≡◌, refl, arith, List, [], ◌∷◌, map}
use c0_pqlink_complete.Mlkem.{freeze_coefficient, compress10, compress4, compressed_u}
use c0_pqlink_complete.Mlkem.Compress.{canonical, nearest, compress-nearest}
use c0_pqlink_complete.Mlkem.Pack.{unpacked, unpacked-compressed_u}
use c0_pqlink_complete.Prelude.{◌*◌, ◌%◌, ◌<◌}
use c0_pqlink_complete.Prelude.Loops.{count_from}
use c0_pqlink_complete.Mlkem.{
  fqmul, barrett_reduce, montgomery_reduce, multiply_s16_constant_schedule, multiply_u16_fixed,
  multiply_u8_fixed,
}
use c0_pqlink_complete.Prelude.{◌+◌, length, ◌<◌, ◌^◌, ltb, ltb→lt, true, subst, inl}
use c0_pqlink_complete.Mlkem.Range.{holds_from, holds_from-at}
use c0_pqlink_complete.Mlkem.Product.{Within, fqmul-Multiplies}
use c0_pqlink_complete.Mlkem.Transform.{coefficient}
use c0_pqlink_complete.Mlkem.Transform.Reference.{reference_ntt, root, reversed_bits}
use c0_pqlink_complete.Mlkem.Transform.Residues.{ntt-residues}
use c0_pqlink_complete.Prelude.{inr}
use c0_pqlink_complete.Mlkem.Transform.{base_multiply_add, load_zeta}
use c0_pqlink_complete.Mlkem.Transform.Reference.{zeta_root}
use c0_pqlink_complete.Mlkem.Transform.Pairs.{base_multiply_add-residues}
use c0_pqlink_complete.Mlkem.Transform.Inverse.{reference_inverse_ntt}
use c0_pqlink_complete.Mlkem.Transform.InverseResidues.{inverse_ntt-residues}
use c0_pqlink_complete.Mlkem.Transform.{ntt, inverse_ntt, butterfly, inverse_butterfly}

-- The coefficient -1.
compress-nearest_example :
    (freeze_coefficient 65535 ≡ canonical 65535)
    × (compress10 65535 ≡ nearest 10 (canonical 65535))
    × (compress4 65535 ≡ nearest 4 (canonical 65535))
compress-nearest_example = compress-nearest 65535 (omega arith)

abbrev short_polynomial : List ℕ
short_polynomial = 0 ∷ 1665 ∷ 65535 ∷ 3328 ∷ []

unpacked-compressed_u_example :
    unpacked (compressed_u short_polynomial)
    ≡ map (λ word. nearest 10 (canonical word)) short_polynomial
unpacked-compressed_u_example = unpacked-compressed_u 1 short_polynomial refl (omega arith)

-- There and back: the coefficients, each times 2 ^ 16.
transforms_test :
    map canonical (inverse_ntt (ntt (count_from 0 256)))
    ≡ map (λ i. i * 65536 % 3329) (count_from 0 256)
unfolding ntt inverse_ntt butterfly inverse_butterfly count_from fqmul barrett_reduce
    montgomery_reduce multiply_s16_constant_schedule multiply_u16_fixed multiply_u8_fixed
transforms_test = refl

-- The reference has the roots of FIPS 203: the first is 17 ^ 64.
root_test : root 1 ≡ 1729
unfolding root reversed_bits
root_test = refl

-- The product of -1 and 1493.
fqmul-Multiplies_example :
    Within 1 (fqmul 65535 1493)
    × (fqmul 65535 1493 < 2 ^ 16)
    × (canonical (fqmul 65535 1493) * 2 ^ 16 % 3329 ≡ canonical 65535 * canonical 1493 % 3329)
fqmul-Multiplies_example = fqmul-Multiplies 65535 1493 (omega arith) (omega arith) (omega arith)

abbrev ramp : List ℕ
ramp = map (λ i. 7 * i) (count_from 0 256)

ramp-Within : (i : ℕ) → i < 256 → Within 1 (coefficient ramp i)
unfolding holds_from count_from
ramp-Within i below =
    let same : 0 + i ≡ i = omega arith in
    let small : ltb (coefficient ramp i) 3330 ≡ true =
      subst (λ n. ltb (coefficient ramp n) 3330 ≡ true) same
        (holds_from-at (λ n. ltb (coefficient ramp n) 3330) 256 0 i refl below) in
    inl (omega (arith, ltb→lt _ _ small))

ramp-length : length ramp ≡ 256
unfolding count_from
ramp-length = refl

ntt-residues_example :
    (canonical (coefficient (ntt ramp) 5) ≡ coefficient (reference_ntt (map canonical ramp)) 5)
    × Within 8 (coefficient (ntt ramp) 5)
ntt-residues_example = ntt-residues ramp ramp-length ramp-Within 5 (omega arith)

inverse_ntt-residues_example :
    (canonical (coefficient (inverse_ntt ramp) 5)
      ≡ coefficient (reference_inverse_ntt (map canonical ramp)) 5 * 2 ^ 16 % 3329)
    × Within 1 (coefficient (inverse_ntt ramp) 5)
inverse_ntt-residues_example = inverse_ntt-residues ramp ramp-length ramp-Within 5 (omega arith)

base_multiply_add-residues_example :
    Within 3 (base_multiply_add 5 65530 100 200 300 65000 (load_zeta 64)).0
    × Within 3 (base_multiply_add 5 65530 100 200 300 65000 (load_zeta 64)).1
    × (canonical (base_multiply_add 5 65530 100 200 300 65000 (load_zeta 64)).0 * 2 ^ 16 % 3329
        ≡ (canonical 5 * 2 ^ 16
            + (canonical 200 * canonical 65000 * root 64 + canonical 100 * canonical 300))
          % 3329)
    × (canonical (base_multiply_add 5 65530 100 200 300 65000 (load_zeta 64)).1 * 2 ^ 16 % 3329
        ≡ (canonical 65530 * 2 ^ 16
            + (canonical 100 * canonical 65000 + canonical 200 * canonical 300))
          % 3329)
base_multiply_add-residues_example =
    base_multiply_add-residues 1 (root 64) 5 65530 100 200 300 65000 (load_zeta 64) (omega arith)
      (zeta_root 64 (omega arith)).0 (zeta_root 64 (omega arith)).1 (inl (omega arith))
      (inr (omega arith)) (inl (omega arith)) (inl (omega arith)) (inl (omega arith))
      (inr (omega arith))
