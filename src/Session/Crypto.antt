-- ===== src/Session/Crypto.antt =====
-- src/session/crypto.c: authentication tags, the key schedule and the handshake transcript.
pub mod Tags
pub mod Schedule
use c0_pqlink_complete.Prelude.{
  ℕ, ◌+◌, Bytes, [], ◌∷◌, ◌++◌, ltb, if◌then◌else◌, length, take, drop, codes,
}
use c0_pqlink_complete.Common.{Result, ok, err, err_auth, err_capacity, ct_equal, ◌>>=◌}
use c0_pqlink_complete.Wire.{store16_be, store64_be}
use c0_pqlink_complete.Sha256.{Sha256Ctx, sha256_init, sha256_update, sha256}
use c0_pqlink_complete.Hmac.{
  hmac_sha256_init, hmac_sha256_update, hmac_sha256_final, hkdf_sha256_extract, hkdf_sha256_expand,
}
use c0_pqlink_complete.Session.Header.{encode_header, written}

pub auth_tag : Bytes → Bytes → Bytes → Bytes
auth_tag key label message = take 16 (
    hmac_sha256_final
      (hmac_sha256_update (hmac_sha256_update (hmac_sha256_init key) label) message))

pub verify_auth_tag : Bytes → Bytes → Bytes → Bytes → Result (Unit {0})
verify_auth_tag tag key label message =
    if ct_equal (auth_tag key label message) tag then ok tt else err err_auth

pub extract_psk : Bytes → Bytes
extract_psk psk = hkdf_sha256_extract [] psk

-- `info` is 64 bytes: the label, a zero byte and the transcript hash.
pub expand_text_label : ℕ → Bytes → Bytes → Bytes → Result Bytes
expand_text_label output_length secret label transcript_hash =
    if ltb 64 (length label + 1 + 32)
    then err err_capacity
    else hkdf_sha256_expand output_length secret (label ++ (0 ∷ transcript_hash))

pub derive_hello_key : Bytes → Bytes
derive_hello_key psk = written (hkdf_sha256_expand 32 (extract_psk psk) (codes "C0PQ/1 hello key"))

pub derive_session_auth_key : Bytes → ℕ → ℕ → Bytes → Bytes → Bytes → Bytes
derive_session_auth_key psk suite epoch key_id device_nonce server_nonce =
    let hmac0 = hmac_sha256_init (extract_psk psk) in
    let hmac1 = hmac_sha256_update hmac0 (codes "C0PQ/1 session auth") in
    let hmac2 = hmac_sha256_update hmac1 (store16_be suite ++ store64_be epoch) in
    let hmac3 = hmac_sha256_update hmac2 key_id in
    let hmac4 = hmac_sha256_update hmac3 device_nonce in
    hmac_sha256_final (hmac_sha256_update hmac4 server_nonce)

-- The transcript takes the frames without their tags.
pub transcript_init : Sha256Ctx
transcript_init = sha256_update sha256_init (codes "C0PQ/1 transcript")

pub transcript_add_hello : Sha256Ctx → Bytes → Sha256Ctx
transcript_add_hello transcript hello_frame = sha256_update transcript (take 44 hello_frame)

pub transcript_add_challenge : Sha256Ctx → Bytes → Sha256Ctx
transcript_add_challenge transcript challenge_frame =
    sha256_update transcript (take 68 challenge_frame)

pub record SessionKeys : Type 0 where
  pub device_finished_key : Bytes
  pub server_finished_key : Bytes
  pub client_traffic_key : Bytes
  pub server_traffic_key : Bytes
  pub client_nonce_base : Bytes
  pub server_nonce_base : Bytes
  pub client_chain_key : Bytes
  pub server_chain_key : Bytes

-- The first failure ends the derivation; the keys are erased then.
pub derive_session_keys : Bytes → Bytes → Bytes → Result SessionKeys
derive_session_keys psk kem_shared_secret transcript_hash = do
  derived_secret ← hkdf_sha256_expand 32 (extract_psk psk) (codes "C0PQ/1 derived")
  let handshake_secret = hkdf_sha256_extract derived_secret kem_shared_secret
  device_finished_key ←
      expand_text_label 32 handshake_secret (codes "C0PQ/1 device finished") transcript_hash
  server_finished_key ←
      expand_text_label 32 handshake_secret (codes "C0PQ/1 server finished") transcript_hash
  client_traffic_key ←
      expand_text_label 16 handshake_secret (codes "C0PQ/1 client traffic") transcript_hash
  server_traffic_key ←
      expand_text_label 16 handshake_secret (codes "C0PQ/1 server traffic") transcript_hash
  client_nonce_base ←
      expand_text_label 16 handshake_secret (codes "C0PQ/1 client nonce") transcript_hash
  server_nonce_base ←
      expand_text_label 16 handshake_secret (codes "C0PQ/1 server nonce") transcript_hash
  client_chain_key ←
      expand_text_label 32 handshake_secret (codes "C0PQ/1 client chain") transcript_hash
  server_chain_key ←
      expand_text_label 32 handshake_secret (codes "C0PQ/1 server chain") transcript_hash
  ok (record {
    device_finished_key = device_finished_key;
    server_finished_key = server_finished_key;
    client_traffic_key = client_traffic_key;
    server_traffic_key = server_traffic_key;
    client_nonce_base = client_nonce_base;
    server_nonce_base = server_nonce_base;
    client_chain_key = client_chain_key;
    server_chain_key = server_chain_key;
  })

pub finished_tag : Bytes → ℕ → ℕ → Bytes → Bytes
finished_tag finished_key frame_type session_id transcript_hash =
    auth_tag finished_key (codes "C0PQ/1 finished tag")
      (written (encode_header frame_type 0 16 session_id) ++ transcript_hash)

pub compute_public_key_id : Bytes → Bytes
compute_public_key_id public_key = take 16 (sha256 public_key)
