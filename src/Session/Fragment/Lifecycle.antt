-- ===== src/Session/Fragment/Lifecycle.antt =====
-- Which configurations a client starts with, and what is left of it when it is closed.
use c0_pqlink_complete.Prelude.{
  ℕ, zero, suc, ap, ap₂, ◌∙◌, ◌≡◌, ◌≢◌, ◌↔◌, ◌⊎◌, refl, Bytes, [], ◌∷◌, bit_or, replicate, length,
  arith,
}
use c0_pqlink_complete.Prelude.Bits.{bit_or-eq-zero, bit_or-zero}
use c0_pqlink_complete.Common.{ok, err, err_state, err_argument, secure_zero}
use c0_pqlink_complete.Session.Client.{Client, Config}
use c0_pqlink_complete.Session.Aead.{Aead}
use c0_pqlink_complete.Session.Ratchet.{seal_record, open_record}
use c0_pqlink_complete.Session.Fragment.{or_bytes, client_init, client_close}

or_bytes-zero :
    (xs : Bytes) (acc : ℕ) → or_bytes xs acc ≡ 0 → (acc ≡ 0) × (xs ≡ secure_zero (length xs))
unfolding or_bytes
or_bytes-zero [] acc h = (h, refl)
or_bytes-zero (x ∷ xs) acc h =
    let (here, rest) = or_bytes-zero xs (bit_or acc x) h in
    let (old, new) = bit_or-eq-zero acc x here in (old, ap₂ ◌∷◌ new rest)

or_bytes-replicate : (n : ℕ) → or_bytes (replicate n 0) 0 ≡ 0
unfolding or_bytes
or_bytes-replicate zero = refl
or_bytes-replicate (suc n) = rw (bit_or-zero 0) (or_bytes-replicate n)

-- The loop of the code finds an array that is all zero.
or_bytes_iff : (xs : Bytes) → (or_bytes xs 0 ≡ 0) ↔ (xs ≡ secure_zero (length xs))
or_bytes_iff xs =
    (λ h. (or_bytes-zero xs 0 h).1, λ h. ap (λ t. or_bytes t 0) h ∙ or_bytes-replicate (length xs))

-- For a configuration whose callbacks are not NULL, `c0pq_client_init` starts a client exactly for a
-- pre-shared key and a key id that are not all zero and one of the two modes; otherwise it returns
-- C0PQLINK_ERR_ARGUMENT and leaves the client.
pub client_init_iff :
    (client : Client) (config : Config)
    → (((client_init client config).1 ≡ ok tt) ↔ (
        (config.psk ≢ secure_zero (length config.psk))
        × (config.public_key_id ≢ secure_zero (length config.public_key_id))
        × ((config.mode ≡ 0) ⊎ (config.mode ≡ 1))))
      × (((client_init client config).1 ≡ ok tt)
          ⊎ (client_init client config ≡ (client, err err_argument)))
unfolding client_init
client_init_iff client config =
    let p = or_bytes_iff config.psk in
    let k = or_bytes_iff config.public_key_id in (ground arith, ground arith)

-- A closed client neither seals nor opens a record: every call returns C0PQLINK_ERR_STATE and
-- leaves it as it is.
pub client_close-err_state :
    (aead : Aead) (client : Client) (text frame : Bytes) (space n room : ℕ)
    → (seal_record aead (client_close client) text space ≡ (client_close client, err err_state))
      × (open_record aead (client_close client) frame n room ≡ (client_close client, err err_state))
unfolding seal_record open_record client_close
client_close-err_state aead client text frame space n room = (refl, refl)
