-- ===== src/Tests.antt =====
-- Concrete runs of the digest, HMAC and HKDF code, and of the key schedule.
use c0_pqlink_complete.Prelude.{◌≡◌, ◌↔◌, refl, Bytes, [], ◌∷◌, ◌++◌, replicate, codes, arith, take}
use c0_pqlink_complete.Common.{ok}
use c0_pqlink_complete.Wire.{store64_be}
use c0_pqlink_complete.Sha256.{sha256, sha256_init, sha256_update}
use c0_pqlink_complete.Sha256.Stream.{Represents, init-Represents, update-Represents}
use c0_pqlink_complete.Sha256.Digest.{digest, sha256-eq-digest}
use c0_pqlink_complete.Hmac.{
  hmac_sha256_init, hmac_sha256_update, hmac_sha256_final, hkdf_sha256_expand,
}
use c0_pqlink_complete.Hmac.Laws.{hmac, init-Keyed, update-Keyed, final-hmac}
use c0_pqlink_complete.Hmac.Expand.{okm_blocks, block_count, hkdf_expand-okm}
use c0_pqlink_complete.Session.Crypto.{
  auth_tag, verify_auth_tag, extract_psk, derive_session_auth_key, derive_session_keys,
}
use c0_pqlink_complete.Session.Crypto.Tags.{verify_auth_tag_iff}
use c0_pqlink_complete.Session.Crypto.Schedule.{
  handshake_secret, schedule, derive_session_keys-schedule, session_auth_key-hmac,
}
use c0_pqlink_complete.Wire.{store16_be}

-- FIPS 180-4, the one-block example.
sha256_abc :
    sha256 (codes "abc")
    ≡ 0xba ∷ 0x78 ∷ 0x16 ∷ 0xbf ∷ 0x8f ∷ 0x01 ∷ 0xcf ∷ 0xea ∷ 0x41 ∷ 0x41 ∷ 0x40 ∷ 0xde ∷ 0x5d
      ∷ 0xae ∷ 0x22 ∷ 0x23 ∷ 0xb0 ∷ 0x03 ∷ 0x61 ∷ 0xa3 ∷ 0x96 ∷ 0x17 ∷ 0x7a ∷ 0x9c ∷ 0xb4 ∷ 0x10
      ∷ 0xff ∷ 0x61 ∷ 0xf2 ∷ 0x00 ∷ 0x15 ∷ 0xad ∷ []
unfolding sha256
sha256_abc = refl

sha256-eq-digest_example : sha256 (codes "abc") ≡ digest (codes "abc")
sha256-eq-digest_example = sha256-eq-digest (codes "abc")

update-Represents_example : Represents (sha256_update sha256_init (codes "abc")) ([] ++ codes "abc")
update-Represents_example = update-Represents sha256_init [] (codes "abc") init-Represents

ab_then_c :
    Represents (sha256_update (sha256_update sha256_init (codes "ab")) (codes "c")) (codes "abc")
ab_then_c =
    update-Represents (sha256_update sha256_init (codes "ab")) (codes "ab") (codes "c")
      (update-Represents sha256_init [] (codes "ab") init-Represents)

final-hmac_example :
    hmac_sha256_final (hmac_sha256_update (hmac_sha256_init (codes "key")) (codes "abc"))
    ≡ hmac (codes "key") (codes "abc")
final-hmac_example =
    final-hmac (codes "key") (hmac_sha256_update (hmac_sha256_init (codes "key")) (codes "abc"))
      (codes "abc")
      (update-Keyed (codes "key") (hmac_sha256_init (codes "key")) [] (codes "abc")
        (init-Keyed (codes "key")))

hkdf_expand-okm_example :
    hkdf_sha256_expand 42 (codes "prk") (codes "info")
    ≡ ok (take 42 (okm_blocks (codes "prk") (codes "info") [] 1 (block_count 42)))
hkdf_expand-okm_example = hkdf_expand-okm 42 (codes "prk") (codes "info") (omega arith)

abbrev secret : Bytes
secret = replicate 32 0x2a

verify_auth_tag_iff_example :
    (verify_auth_tag (replicate 16 0) secret (codes "label") (codes "abc") ≡ ok tt)
    ↔ (replicate 16 0 ≡ auth_tag secret (codes "label") (codes "abc"))
verify_auth_tag_iff_example =
    verify_auth_tag_iff (replicate 16 0) secret (codes "label") (codes "abc") refl (ground arith)

derive_session_keys-schedule_example :
    derive_session_keys secret (replicate 32 1) (replicate 32 2)
    ≡ ok (schedule (handshake_secret secret (replicate 32 1)) (replicate 32 2))
derive_session_keys-schedule_example =
    derive_session_keys-schedule secret (replicate 32 1) (replicate 32 2)

session_auth_key-hmac_example :
    derive_session_auth_key secret 1 3 (replicate 16 5) (replicate 16 6) (replicate 16 7)
    ≡ hmac (extract_psk secret) (
        (((codes "C0PQ/1 session auth" ++ (store16_be 1 ++ store64_be 3)) ++ replicate 16 5)
          ++ replicate 16 6)
        ++ replicate 16 7)
session_auth_key-hmac_example =
    session_auth_key-hmac secret 1 3 (replicate 16 5) (replicate 16 6) (replicate 16 7)
