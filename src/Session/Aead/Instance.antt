-- ===== src/Session/Aead/Instance.antt =====
-- src/core/ascon_aead128.c meets the interface of the record layer.
use c0_pqlink_complete.Ascon.{ascon_encrypt, ascon_decrypt}
use c0_pqlink_complete.Ascon.Laws.{length-ascon_encrypt, length-ascon_tag, ascon_decrypt-encrypt}
use c0_pqlink_complete.Session.Aead.{Aead}

abbrev pub ascon_aead : Aead
ascon_aead = record {
  encrypt = ascon_encrypt;
  decrypt = ascon_decrypt;
  length_ciphertext = length-ascon_encrypt;
  length_tag = length-ascon_tag;
  decrypt_encrypt = ascon_decrypt-encrypt;
}
