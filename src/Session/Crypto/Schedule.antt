-- ===== src/Session/Crypto/Schedule.antt =====
-- The key schedule never fails and is the one of docs/PROTOCOL.md; the transcript is one message.
use c0_pqlink_complete.Prelude.{
  ℕ, suc, ◌==◌, ◌+◌, ◌*◌, ◌≤◌, ◌≡◌, refl, ap, ◌∙◌, replicate, Bytes, [], ◌∷◌, ◌++◌, String, codes,
  take, length, arith, false, ltb,
}
use c0_pqlink_complete.Common.{ok}
use c0_pqlink_complete.Wire.{store16_be, store64_be}
use c0_pqlink_complete.Sha256.{Sha256Ctx, sha256_init}
use c0_pqlink_complete.Sha256.Stream.{Represents, init-Represents, update-Represents}
use c0_pqlink_complete.Hmac.{hkdf_sha256_extract, key_block}
use c0_pqlink_complete.Hmac.Laws.{hmac, init-Keyed, update-Keyed, final-hmac, hmac_sha256_lem}
use c0_pqlink_complete.Hmac.Expand.{okm_blocks, block_count, hkdf_expand-okm}
use c0_pqlink_complete.Session.Header.{written}
use c0_pqlink_complete.Session.Crypto.{
  extract_psk, expand_text_label, derive_hello_key, derive_session_auth_key, transcript_init,
  transcript_add_hello, transcript_add_challenge, SessionKeys, derive_session_keys,
}

-- HKDF-Expand of the protocol description, for sizes in range.
abbrev pub hkdf : ℕ → Bytes → Bytes → Bytes
hkdf size secret info = take size (okm_blocks secret info [] 1 (block_count size))

pub hello_key-hkdf :
    (psk : Bytes) → derive_hello_key psk ≡ hkdf 32 (extract_psk psk) (codes "C0PQ/1 hello key")
unfolding derive_hello_key
hello_key-hkdf psk =
    ap written (hkdf_expand-okm 32 (extract_psk psk) (codes "C0PQ/1 hello key") (omega arith))

text_label-hkdf :
    (size : ℕ) (secret label transcript_hash : Bytes)
    → size ≤ 255 * 32
    → length label ≤ 31
    → expand_text_label size secret label transcript_hash
      ≡ ok (hkdf size secret (label ++ (0 ∷ transcript_hash)))
unfolding expand_text_label
text_label-hkdf size secret label transcript_hash h fits =
    let room : ltb 64 (length label + 1 + 32) ≡ false = ground arith in
    rw room (hkdf_expand-okm size secret (label ++ (0 ∷ transcript_hash)) h)

-- early_secret of the protocol description: HKDF-Extract with 32 zero bytes as salt.
abbrev pub early_secret : Bytes → Bytes
early_secret psk = hmac (replicate 32 0) psk

-- derived_secret and handshake_secret: HKDF-Extract is the HMAC under the salt.
abbrev pub handshake_secret : Bytes → Bytes → Bytes
handshake_secret psk kem_shared_secret =
    hmac (hkdf 32 (early_secret psk) (codes "C0PQ/1 derived")) kem_shared_secret

-- An absent salt is a block of zeros, as 32 zero bytes are.
pub extract_psk-early_secret : (psk : Bytes) → extract_psk psk ≡ early_secret psk
unfolding extract_psk hkdf_sha256_extract
extract_psk-early_secret psk = hmac_sha256_lem [] psk ∙ unfold key_block in refl

extract-hmac : (salt m : Bytes) → hkdf_sha256_extract salt m ≡ hmac salt m
unfolding hkdf_sha256_extract
extract-hmac [] m = hmac_sha256_lem [] m
extract-hmac (x ∷ salt) m =
    let given : (suc (length salt) == 0) ≡ false = ground arith in
    rw given (hmac_sha256_lem (x ∷ salt) m)

-- The eight values of the key schedule.
abbrev pub schedule : Bytes → Bytes → SessionKeys
schedule secret transcript_hash =
    let value =
      λ (size : ℕ) (label : String). hkdf size secret (codes label ++ (0 ∷ transcript_hash)) in
    record {
      device_finished_key = value 32 "C0PQ/1 device finished";
      server_finished_key = value 32 "C0PQ/1 server finished";
      client_traffic_key = value 16 "C0PQ/1 client traffic";
      server_traffic_key = value 16 "C0PQ/1 server traffic";
      client_nonce_base = value 16 "C0PQ/1 client nonce";
      server_nonce_base = value 16 "C0PQ/1 server nonce";
      client_chain_key = value 32 "C0PQ/1 client chain";
      server_chain_key = value 32 "C0PQ/1 server chain";
    }

-- `c0pq_derive_session_keys` succeeds on all inputs, with the key schedule of the protocol: the
-- early secret is HKDF-Extract of the pre-shared key under 32 zero bytes, the handshake secret that
-- of the shared secret under the derived secret, and each value HKDF-Expand of its label, a zero
-- byte and the transcript hash.
pub derive_session_keys-schedule :
    (psk kem_shared_secret transcript_hash : Bytes)
    → derive_session_keys psk kem_shared_secret transcript_hash
      ≡ ok (schedule (handshake_secret psk kem_shared_secret) transcript_hash)
unfolding derive_session_keys
derive_session_keys-schedule psk kem_shared_secret th =
    let secret = handshake_secret psk kem_shared_secret in
    rw (
      extract_psk-early_secret psk,
      hkdf_expand-okm 32 (early_secret psk) (codes "C0PQ/1 derived") (omega arith),
      extract-hmac (hkdf 32 (early_secret psk) (codes "C0PQ/1 derived")) kem_shared_secret,
      text_label-hkdf 32 secret (codes "C0PQ/1 device finished") th (omega arith) (omega arith),
      text_label-hkdf 32 secret (codes "C0PQ/1 server finished") th (omega arith) (omega arith),
      text_label-hkdf 16 secret (codes "C0PQ/1 client traffic") th (omega arith) (omega arith),
      text_label-hkdf 16 secret (codes "C0PQ/1 server traffic") th (omega arith) (omega arith),
      text_label-hkdf 16 secret (codes "C0PQ/1 client nonce") th (omega arith) (omega arith),
      text_label-hkdf 16 secret (codes "C0PQ/1 server nonce") th (omega arith) (omega arith),
      text_label-hkdf 32 secret (codes "C0PQ/1 client chain") th (omega arith) (omega arith),
      text_label-hkdf 32 secret (codes "C0PQ/1 server chain") th (omega arith) (omega arith),
    )

-- The authentication key of a session binds suite, epoch, key id and both nonces.
pub session_auth_key-hmac :
    (psk : Bytes) (suite epoch : ℕ) (key_id device_nonce server_nonce : Bytes)
    → derive_session_auth_key psk suite epoch key_id device_nonce server_nonce
      ≡ hmac (extract_psk psk) (
          (((codes "C0PQ/1 session auth" ++ (store16_be suite ++ store64_be epoch)) ++ key_id)
            ++ device_nonce)
          ++ server_nonce)
unfolding derive_session_auth_key
session_auth_key-hmac psk suite epoch key_id device_nonce server_nonce =
    final-hmac (extract_psk psk) _ _ (
      update-Keyed (extract_psk psk) _ _ server_nonce (
        update-Keyed (extract_psk psk) _ _ device_nonce (
          update-Keyed (extract_psk psk) _ _ key_id (
            update-Keyed (extract_psk psk) _ _ (store16_be suite ++ store64_be epoch) (
              update-Keyed (extract_psk psk) _ [] (codes "C0PQ/1 session auth")
                (init-Keyed (extract_psk psk)))))))

pub init_transcript : Represents transcript_init (codes "C0PQ/1 transcript")
unfolding transcript_init
init_transcript = update-Represents sha256_init [] (codes "C0PQ/1 transcript") init-Represents

pub hello_transcript :
    (transcript : Sha256Ctx) (m hello_frame : Bytes)
    → Represents transcript m
    → Represents (transcript_add_hello transcript hello_frame) (m ++ take 44 hello_frame)
unfolding transcript_add_hello
hello_transcript transcript m hello_frame r = update-Represents transcript m (take 44 hello_frame) r

pub challenge_transcript :
    (transcript : Sha256Ctx) (m challenge_frame : Bytes)
    → Represents transcript m
    → Represents
        (transcript_add_challenge transcript challenge_frame)
        (m ++ take 68 challenge_frame)
unfolding transcript_add_challenge
challenge_transcript transcript m challenge_frame r =
    update-Represents transcript m (take 68 challenge_frame) r
