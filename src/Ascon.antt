-- ===== src/Ascon.antt =====
-- src/core/ascon_aead128.c: Ascon-AEAD128.
pub mod Lanes
pub mod Permutation
pub mod Duplex
pub mod Blocks
pub mod RoundTrip
pub mod Inverse
pub mod Laws
mod Tests
use c0_pqlink_complete.Prelude.{
  ℕ, zero, suc, ◌+◌, ◌-◌, ◌*◌, Bytes, [], ◌++◌, bit_or, bit_xor, u64, ◌<<<◌, ltb, ◌==◌,
  if◌then◌else◌, drop, length,
}
use c0_pqlink_complete.Common.{Result, ok, err, err_auth, ct_equal}
use c0_pqlink_complete.Ascon.Lanes.{load_little_endian, store_little_endian, clear_low_bytes}
use c0_pqlink_complete.Ascon.Permutation.{AsconState, ascon_permute12, ascon_permute8}

abbrev pub key0 : Bytes → ℕ
key0 key = load_little_endian key 8

abbrev pub key1 : Bytes → ℕ
key1 key = load_little_endian (drop 8 key) 8

pub initialize : Bytes → Bytes → AsconState
unfolding ascon_permute12
initialize key nonce =
    let state = ascon_permute12 (record {
      x0 = 0x00001000808c0001;
      x1 = key0 key;
      x2 = key1 key;
      x3 = load_little_endian nonce 8;
      x4 = load_little_endian (drop 8 nonce) 8;
    }) in
    record state { x3 = bit_xor state.x3 (key0 key); x4 = bit_xor state.x4 (key1 key) }

-- `state->x[0] ^= a; state->x[1] ^= b;`
abbrev pub mix : AsconState → ℕ → ℕ → AsconState
mix state a b = record state { x0 = bit_xor state.x0 a; x1 = bit_xor state.x1 b }

-- The end of a text: its last `length rest` bytes, below 16, are in the two lanes; a one bit
-- follows them.
abbrev pub pad : AsconState → ℕ → AsconState
pad state n =
    if ltb n 8
    then record state { x0 = bit_xor state.x0 (u64 (1 <<< (8 * n))) }
    else record state { x1 = bit_xor state.x1 (u64 (1 <<< (8 * (n - 8)))) }

-- The last block of associated data, below 16 bytes, with its padding.
pub absorb_last : AsconState → Bytes → AsconState
absorb_last state bytes =
    pad
      (if ltb (length bytes) 8
        then record state { x0 = bit_xor state.x0 (load_little_endian bytes (length bytes)) }
        else mix state (load_little_endian bytes 8)
            (load_little_endian (drop 8 bytes) (length bytes - 8)))
      (length bytes)

-- The whole blocks, then the last one; the fuel is the length of the data, and not 0.
pub absorb_loop : ℕ → AsconState → Bytes → AsconState
unfolding ascon_permute8 load_little_endian absorb_last
absorb_loop zero state bytes = state
absorb_loop (suc fuel) state bytes =
    let rest =
      absorb_loop fuel
        (ascon_permute8
          (mix state (load_little_endian bytes 8) (load_little_endian (drop 8 bytes) 8)))
        (drop 16 bytes) in
    if ltb (length bytes) 16 then ascon_permute8 (absorb_last state bytes) else rest

pub absorb_associated_data : AsconState → Bytes → AsconState
unfolding absorb_loop
absorb_associated_data state bytes =
    let absorbed = if length bytes == 0 then state else absorb_loop (length bytes) state bytes in
    record absorbed { x4 = bit_xor absorbed.x4 0x8000000000000000 }

pub finalize_tag : AsconState → Bytes → Bytes
unfolding ascon_permute12
finalize_tag state key =
    let mixed =
      ascon_permute12
        (record state { x2 = bit_xor state.x2 (key0 key); x3 = bit_xor state.x3 (key1 key) }) in
    store_little_endian (bit_xor mixed.x3 (key0 key)) 8
    ++ store_little_endian (bit_xor mixed.x4 (key1 key)) 8

-- A whole block of text at the front of `text`, and the state after it.
pub encrypt_block : AsconState → Bytes → AsconState × Bytes
encrypt_block state text =
    let mixed = mix state (load_little_endian text 8) (load_little_endian (drop 8 text) 8) in
    (mixed, store_little_endian mixed.x0 8 ++ store_little_endian mixed.x1 8)

-- The rest of the text, below 16 bytes; the one bit is still to follow.
pub encrypt_last : AsconState → Bytes → AsconState × Bytes
encrypt_last state text =
    if ltb (length text) 8
    then (let mixed = record state {
      x0 = bit_xor state.x0 (load_little_endian text (length text));
    } in
        (mixed, store_little_endian mixed.x0 (length text)))
    else (let mixed =
          mix state (load_little_endian text 8)
            (load_little_endian (drop 8 text) (length text - 8)) in
        (mixed, store_little_endian mixed.x0 8 ++ store_little_endian mixed.x1 (length text - 8)))

-- The loop over the whole blocks, and the last one. It returns the state for the tag and the
-- ciphertext. The fuel is more than the length of the text.
pub encrypt_loop : ℕ → AsconState → Bytes → AsconState × Bytes
encrypt_loop zero state plaintext = (state, [])
encrypt_loop (suc fuel) state plaintext =
    let (mixed, block) = encrypt_block state plaintext in
    let rest = encrypt_loop fuel (ascon_permute8 mixed) (drop 16 plaintext) in
    let (last, text) = encrypt_last state plaintext in
    if ltb (length plaintext) 16
    then (pad last (length plaintext), text)
    else (rest.0, block ++ rest.1)

-- `c0_ascon_aead128_encrypt`: the ciphertext and the tag.
pub ascon_encrypt : Bytes → Bytes → Bytes → Bytes → Bytes × Bytes
ascon_encrypt key nonce associated_data plaintext =
    let (state, ciphertext) =
      encrypt_loop (suc (length plaintext))
        (absorb_associated_data (initialize key nonce) associated_data) plaintext in
    (ciphertext, finalize_tag state key)

pub decrypt_block : AsconState → Bytes → AsconState × Bytes
decrypt_block state text =
    let c0 = load_little_endian text 8 in
    let c1 = load_little_endian (drop 8 text) 8 in
    (
      record state { x0 = c0; x1 = c1 },
      store_little_endian (bit_xor state.x0 c0) 8 ++ store_little_endian (bit_xor state.x1 c1) 8,
    )

pub decrypt_last : AsconState → Bytes → AsconState × Bytes
decrypt_last state text =
    if ltb (length text) 8
    then (let c0 = load_little_endian text (length text) in
        (
          record state { x0 = bit_or (clear_low_bytes state.x0 (length text)) c0 },
          store_little_endian (bit_xor state.x0 c0) (length text),
        ))
    else (let c0 = load_little_endian text 8 in
        let c1 = load_little_endian (drop 8 text) (length text - 8) in
        (
          record state { x0 = c0; x1 = bit_or (clear_low_bytes state.x1 (length text - 8)) c1 },
          store_little_endian (bit_xor state.x0 c0) 8
              ++ store_little_endian (bit_xor state.x1 c1) (length text - 8),
        ))

pub decrypt_loop : ℕ → AsconState → Bytes → AsconState × Bytes
decrypt_loop zero state ciphertext = (state, [])
decrypt_loop (suc fuel) state ciphertext =
    let (mixed, block) = decrypt_block state ciphertext in
    let rest = decrypt_loop fuel (ascon_permute8 mixed) (drop 16 ciphertext) in
    let (last, text) = decrypt_last state ciphertext in
    if ltb (length ciphertext) 16
    then (pad last (length ciphertext), text)
    else (rest.0, block ++ rest.1)

-- `c0_ascon_aead128_decrypt`: on a wrong tag the plaintext is erased.
pub ascon_decrypt : Bytes → Bytes → Bytes → Bytes → Bytes → Result Bytes
ascon_decrypt key nonce associated_data ciphertext tag =
    let (state, plaintext) =
      decrypt_loop (suc (length ciphertext))
        (absorb_associated_data (initialize key nonce) associated_data) ciphertext in
    if ct_equal (finalize_tag state key) tag then ok plaintext else err err_auth
