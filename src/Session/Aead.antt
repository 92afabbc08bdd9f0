-- ===== src/Session/Aead.antt =====
-- include/c0pqlink/ascon_aead128.h, as the record layer uses it: authenticated encryption with a
-- detached 16-byte tag, and what a caller may rely on.
pub mod Instance
use c0_pqlink_complete.Prelude.{◌≡◌, Bytes, length}
use c0_pqlink_complete.Prelude.Arrays.{IsBytes}
use c0_pqlink_complete.Common.{Result, ok}

pub record Aead : Type 0 where
  -- key, nonce, associated data, plaintext: ciphertext and tag
  pub encrypt : Bytes → Bytes → Bytes → Bytes → Bytes × Bytes
  -- key, nonce, associated data, ciphertext, tag
  pub decrypt : Bytes → Bytes → Bytes → Bytes → Bytes → Result Bytes
  pub length_ciphertext : (k n a p : Bytes) → length (encrypt k n a p).0 ≡ length p
  pub length_tag : (k n a p : Bytes) → length (encrypt k n a p).1 ≡ 16
  pub decrypt_encrypt :
      (k n a p : Bytes) → IsBytes p → decrypt k n a (encrypt k n a p).0 (encrypt k n a p).1 ≡ ok p
