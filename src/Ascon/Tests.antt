-- ===== src/Ascon/Tests.antt =====
-- The vector of tests/test_core.c.
use c0_pqlink_complete.Prelude.{ℕ, zero, suc, ◌+◌, ◌≡◌, refl, subst, arith, Bytes, [], ◌∷◌}
use c0_pqlink_complete.Common.{ok}
use c0_pqlink_complete.Ascon.{
  ascon_encrypt, ascon_decrypt, encrypt_loop, encrypt_block, encrypt_last, absorb_associated_data,
  initialize, finalize_tag,
}
use c0_pqlink_complete.Ascon.Lanes.{load_little_endian, store_little_endian}
use c0_pqlink_complete.Ascon.Laws.{ascon_decrypt-encrypt, ascon_decrypt_sound}
use c0_pqlink_complete.Ascon.Permutation.{ascon_permute12, ascon_permute8}

abbrev count_up : ℕ → ℕ → Bytes
count_up zero from = []
count_up (suc n) from = from ∷ count_up n (from + 1)

abbrev key : Bytes
key = count_up 16 0

abbrev nonce : Bytes
nonce = count_up 16 0x10

abbrev extra : Bytes
extra = count_up 18 0x30

abbrev text : Bytes
text = count_up 15 0x20

abbrev sealed : Bytes
sealed =
    0xb3 ∷ 0xb0 ∷ 0x5f ∷ 0x0a ∷ 0x08 ∷ 0xc5 ∷ 0x76 ∷ 0x97 ∷ 0x49 ∷ 0xa3 ∷ 0xb5 ∷ 0x65 ∷ 0x8b ∷ 0xcb
    ∷ 0x1d ∷ []

abbrev tag : Bytes
tag =
    0x9c ∷ 0x4c ∷ 0x29 ∷ 0x70 ∷ 0xaa ∷ 0x15 ∷ 0x4b ∷ 0x85 ∷ 0x47 ∷ 0xc7 ∷ 0xd0 ∷ 0xfd ∷ 0x2a ∷ 0xd4
    ∷ 0x55 ∷ 0xa0 ∷ []

encrypt_vector : ascon_encrypt key nonce extra text ≡ (sealed, tag)
unfolding ascon_encrypt encrypt_loop encrypt_block encrypt_last absorb_associated_data initialize
    finalize_tag load_little_endian store_little_endian ascon_permute12 ascon_permute8
encrypt_vector = refl

ascon_decrypt-encrypt_example :
    ascon_decrypt key nonce extra
      (ascon_encrypt key nonce extra text).0
      (ascon_encrypt key nonce extra text).1
    ≡ ok text
ascon_decrypt-encrypt_example = ascon_decrypt-encrypt key nonce extra text (omega arith)

opened : ascon_decrypt key nonce extra sealed tag ≡ ok text
opened =
    subst (λ (r : Bytes × Bytes). ascon_decrypt key nonce extra r.0 r.1 ≡ ok text) encrypt_vector
      (ascon_decrypt-encrypt key nonce extra text (omega arith))

ascon_decrypt_sound_example : ascon_encrypt key nonce extra text ≡ (sealed, tag)
ascon_decrypt_sound_example =
    ascon_decrypt_sound key nonce extra sealed tag text (omega arith) (omega arith) refl opened
