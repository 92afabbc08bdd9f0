-- ===== src/Keccak/Tests.antt =====
-- The vector of tests/test_core.c, and a short message.
use c0_pqlink_complete.Prelude.{◌≡◌, refl, [], ◌∷◌}
use c0_pqlink_complete.Keccak.{
  sha3_256, sha3_512, keccak_absorb, keccak_squeeze, keccak_finalize, absorb_bytes, squeeze_bytes,
  advance,
}
use c0_pqlink_complete.Keccak.Blocks.{sponge, sha3-sponge}
use c0_pqlink_complete.Keccak.Permutation.{
  keccak_f1600, keccak_round, theta_step, rho_pi_step, chi_step,
}

sha3_empty :
    sha3_256 []
    ≡ 0xa7 ∷ 0xff ∷ 0xc6 ∷ 0xf8 ∷ 0xbf ∷ 0x1e ∷ 0xd7 ∷ 0x66 ∷ 0x51 ∷ 0xc1 ∷ 0x47 ∷ 0x56 ∷ 0xa0
      ∷ 0x61 ∷ 0xd6 ∷ 0x62 ∷ 0xf5 ∷ 0x80 ∷ 0xff ∷ 0x4d ∷ 0xe4 ∷ 0x3b ∷ 0x49 ∷ 0xfa ∷ 0x82 ∷ 0xd8
      ∷ 0x0a ∷ 0x4b ∷ 0x80 ∷ 0xf8 ∷ 0x43 ∷ 0x4a ∷ []
unfolding sha3_256 keccak_absorb keccak_squeeze keccak_finalize absorb_bytes squeeze_bytes advance
    keccak_f1600 keccak_round theta_step rho_pi_step chi_step
sha3_empty = refl

sha3-sponge_example :
    (sha3_256 (1 ∷ (2 ∷ [])) ≡ sponge 136 6 32 (1 ∷ (2 ∷ [])))
    × (sha3_512 (1 ∷ (2 ∷ [])) ≡ sponge 72 6 64 (1 ∷ (2 ∷ [])))
sha3-sponge_example = sha3-sponge (1 ∷ (2 ∷ []))
