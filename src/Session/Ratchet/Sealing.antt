-- ===== src/Session/Ratchet/Sealing.antt =====
-- `c0pq_client_seal_record` against the record format and the key use of docs/PROTOCOL.md.
use c0_pqlink_complete.Prelude.{
  ℕ, ◌+◌, ◌-◌, ◌*◌, ◌/◌, ◌%◌, ◌^◌, ◌<◌, ◌≤◌, ◌≡◌, ◌≢◌, ◌⊎◌, refl, ap, ap₂, ◌∙◌, Bytes, [], ◌∷◌,
  ◌++◌, length, map, take, bit_xor, codes, ltb, ◌==◌, if◌then◌else◌, arith, Bool-cases, inl, inr,
}
use c0_pqlink_complete.Prelude.Arrays.{byte_at}
use c0_pqlink_complete.Prelude.Loops.{count_from}
use c0_pqlink_complete.Common.{Result, ok, err, err_state, err_capacity, err_expired}
use c0_pqlink_complete.Wire.RoundTrip.{big_endian_bytes, store64-big_endian}
use c0_pqlink_complete.Hmac.Laws.{hmac, hmac_sha256_lem}
use c0_pqlink_complete.Session.Header.{frame_data}
use c0_pqlink_complete.Session.Header.Laws.{header_bytes, header-bytes}
use c0_pqlink_complete.Session.Client.{Client, established, pq_bootstrap_ratchet}
use c0_pqlink_complete.Session.Aead.{Aead}
use c0_pqlink_complete.Session.Ratchet.{
  ratchet_step, select_key, next_secret, make_record_nonce, record_prefix, seal_record,
}

-- The key of a record and the secret after it. Under the ratchet both come from the chain key; in the
-- full mode the traffic key stands for the session.
abbrev pub record_key : ℕ → Bytes → Bytes
record_key mode secret =
    if mode == pq_bootstrap_ratchet
    then take 16 (hmac secret (codes "C0PQ/1 ratchet message"))
    else take 16 secret

abbrev pub secret_after : ℕ → Bytes → Bytes
secret_after mode secret =
    if mode == pq_bootstrap_ratchet then hmac secret (codes "C0PQ/1 ratchet next") else secret

-- The nonce base, its last eight bytes xor the sequence number.
abbrev pub record_nonce : Bytes → ℕ → Bytes
record_nonce base sequence =
    map
      (λ i.
        if ltb i 8
        then byte_at base i
        else bit_xor (byte_at base i) (sequence / 2 ^ (8 * (15 - i)) % 256))
      (count_from 0 16)

-- header || sequence
abbrev pub record_text : ℕ → ℕ → ℕ → Bytes
record_text size session_id sequence =
    header_bytes 7 0 (24 + size) session_id ++ big_endian_bytes 8 sequence

nonce_lem :
    (base : Bytes) (sequence : ℕ)
    → length base ≡ 16
    → make_record_nonce base sequence ≡ record_nonce base sequence
unfolding make_record_nonce count_from
nonce_lem (b0 ∷ b1 ∷ b2 ∷ b3 ∷ b4 ∷ b5 ∷ b6 ∷ b7 ∷ b8 ∷ b9 ∷ b10 ∷ b11 ∷ b12 ∷ b13 ∷ b14 ∷ b15 ∷ [])
      sequence h =
    rw (store64-big_endian sequence) refl
nonce_lem base sequence h = absurd (omega arith)

key_lem : (mode : ℕ) (secret : Bytes) → (select_key mode secret).0 ≡ record_key mode secret
unfolding select_key ratchet_step
key_lem mode secret = elim (Bool-cases (mode == pq_bootstrap_ratchet)) [
  | inl ratchet ↦
      rw ratchet (ap (take 16) (hmac_sha256_lem secret (codes "C0PQ/1 ratchet message")))
  | inr full ↦ rw full refl
]

next_lem : (mode : ℕ) (secret : Bytes) → next_secret mode secret ≡ secret_after mode secret
unfolding next_secret select_key ratchet_step
next_lem mode secret = elim (Bool-cases (mode == pq_bootstrap_ratchet)) [
  | inl ratchet ↦ rw ratchet (hmac_sha256_lem secret (codes "C0PQ/1 ratchet next"))
  | inr full ↦ rw full refl
]

text_lem :
    (size session_id sequence : ℕ)
    → size ≤ 48
    → record_prefix 0 size session_id sequence ≡ record_text size session_id sequence
text_lem size session_id sequence h =
    ap₂ ◌++◌
      (header-bytes frame_data 0 (8 + size + 16) session_id (omega arith)
        ∙ ap (λ n. header_bytes 7 0 n session_id) (omega arith))
      (store64-big_endian sequence)

module _ (aead : Aead) where
  -- header || sequence || ciphertext || tag
  abbrev pub sealed_frame : Client → Bytes → Bytes
  sealed_frame c p =
      let text = record_text (length p) c.session_id c.send_sequence in
      let sealed =
        aead.encrypt (record_key c.config.mode c.send_secret)
          (record_nonce c.send_nonce_base c.send_sequence) text p in
      text ++ (sealed.0 ++ sealed.1)

  -- What a call of `seal_record` has done, by its result: the checks in their order.
  abbrev pub Sealed : Client → Bytes → ℕ → Client × Result Bytes → Type 0
  Sealed c p space (c', ok frame) =
      (c.state ≡ established)
      × (length p ≤ 48)
      × (34 + length p ≤ space)
      × (c.send_sequence ≢ 2 ^ 64 - 1)
      × (frame ≡ sealed_frame c p)
      × (c' ≡ record c {
        send_secret = secret_after c.config.mode c.send_secret;
        send_sequence = c.send_sequence + 1;
      })
  Sealed c p space (c', err e) =
      (c' ≡ c)
      × ((e ≡ err_state) × (c.state ≢ established)
          ⊎ ((e ≡ err_capacity)
                × (c.state ≡ established)
                × ((48 < length p) ⊎ (space < 34 + length p))
              ⊎ (e ≡ err_expired)
                × (c.state ≡ established)
                × (length p ≤ 48)
                × (34 + length p ≤ space)
                × (c.send_sequence ≡ 2 ^ 64 - 1)))

  -- For a client with a nonce base of 16 bytes, a call of `c0pq_client_seal_record` either returns the
  -- frame of the protocol, with the key, nonce and header of the mode, the session and the sequence
  -- number, and moves the send side by one record: the sequence number by one, and under the ratchet
  -- the chain key by one step. Or it changes nothing and returns the error of the first failed check:
  -- state, then capacity, then the last sequence number.
  pub seal_record-Sealed :
      (c : Client) (p : Bytes) (space : ℕ)
      → length c.send_nonce_base ≡ 16
      → Sealed c p space (seal_record aead c p space)
  unfolding seal_record
  seal_record-Sealed c p space base =
      let key = key_lem c.config.mode c.send_secret in
      let next = next_lem c.config.mode c.send_secret in
      let nonce = nonce_lem c.send_nonce_base c.send_sequence base in
      rw (key, next, nonce) (ground (arith, text_lem (length p) c.session_id c.send_sequence))
