-- ===== src/Mlkem/Encapsulate/Tests.antt =====
-- An encapsulation for the key of zeros.
use c0_pqlink_complete.Prelude.{
  ℕ, ◌+◌, ◌*◌, ◌<◌, ◌≡◌, refl, subst, Bytes, true, some, length, take, replicate, arith, leb,
  leb→le,
}
use c0_pqlink_complete.Common.{ok}
use c0_pqlink_complete.Keccak.{
  sha3_256, keccak_absorb, keccak_squeeze, keccak_finalize, absorb_bytes, squeeze_bytes, advance,
}
use c0_pqlink_complete.Keccak.Permutation.{
  keccak_f1600, keccak_round, theta_step, rho_pi_step, chi_step,
}
use c0_pqlink_complete.Mlkem.Range.{holds_from, holds_from-at}
use c0_pqlink_complete.Mlkem.Sample.{sample_ntt_reader_init}
use c0_pqlink_complete.Mlkem.Sample.Matrix.{shake128}
use c0_pqlink_complete.Mlkem.Sample.Uniform.{
  called, residues, twelve_bits, sample_ntt_next-residues,
}
use c0_pqlink_complete.Mlkem.Sample.Stream.{accepted}
use c0_pqlink_complete.Mlkem.Encapsulate.{is_reduced, encapsulate_derand}
use c0_pqlink_complete.Mlkem.Encapsulate.Key.{IsReduced}
use c0_pqlink_complete.Mlkem.Encapsulate.Output.{Encapsulated, encapsulate-outcomes}
use c0_pqlink_complete.Prelude.{◌⊎◌, List, none, false}
use c0_pqlink_complete.Common.{err, err_key_encoding}

abbrev zero_key : Bytes
zero_key = replicate 800 0

abbrev sevens : Bytes
sevens = replicate 32 7

zero_key-IsReduced : IsReduced zero_key
unfolding holds_from
zero_key-IsReduced i below =
    let same : 0 + i ≡ i = omega arith in
    subst (λ n. is_reduced zero_key (3 * n) ≡ true) same
      (holds_from-at (λ n. is_reduced zero_key (3 * n)) 256 0 i refl below)

abbrev seed : Bytes
seed = replicate 32 0

residues_test : leb 256 (length (residues 192 seed 0 1)) ≡ true
unfolding shake128 twelve_bits accepted keccak_absorb keccak_squeeze keccak_finalize absorb_bytes
    squeeze_bytes advance keccak_f1600 keccak_round theta_step rho_pi_step chi_step
residues_test = refl

sample_ntt_next-residues_example :
    called 256 384 (sample_ntt_reader_init seed 0 1) ≡ some (take 256 (residues 192 seed 0 1))
sample_ntt_next-residues_example =
    sample_ntt_next-residues 384 192 256 0 1 seed (omega arith)
      (leb→le 256 (length (residues 192 seed 0 1)) residues_test)

encapsulate-outcomes_example :
    (((i : ℕ) × (i < 256) × (is_reduced zero_key (3 * i) ≡ false))
      × (encapsulate_derand 40 zero_key sevens ≡ some (err err_key_encoding)))
    ⊎ (IsReduced zero_key
        × ((encapsulate_derand 40 zero_key sevens ≡ none)
            ⊎ ((output : List Bytes × Bytes) × (encapsulate_derand 40 zero_key sevens
                  ≡ some (ok output))
                × Encapsulated sevens (sha3_256 zero_key) output)))
encapsulate-outcomes_example = encapsulate-outcomes 40 zero_key sevens refl
