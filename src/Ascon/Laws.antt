-- ===== src/Ascon/Laws.antt =====
-- Ascon-AEAD128 as the record layer uses it: lengths, the round trip, and what a tag attests.
use c0_pqlink_complete.Prelude.{
  ℕ, zero, suc, ◌-◌, ◌^◌, ◌≤◌, ◌<◌, ◌≡◌, ap, sym, ◌∙◌, inl, inr, Bytes, bit_xor, length, drop,
  arith, length-append, length-drop, ltb, true, Bool-cases, ◌==◌,
}
use c0_pqlink_complete.Prelude.Arrays.{IsBytes, IsBytes-append}
use c0_pqlink_complete.Prelude.Bits.{bit_xor-lt}
use c0_pqlink_complete.Common.{ok, ct_equal}
use c0_pqlink_complete.Common.Secrets.{ct_equal_self, ct_equal_iff}
use c0_pqlink_complete.Ascon.Lanes.{store_little_endian}
use c0_pqlink_complete.Ascon.Lanes.Laws.{load-lt, store_lem, length-low_bytes, low_bytes-IsBytes}
use c0_pqlink_complete.Ascon.Permutation.{AsconState, ascon_permute8}
use c0_pqlink_complete.Ascon.Permutation.Bounds.{
  IsState, ascon_permute8-IsState, ascon_permute12-IsState,
}
use c0_pqlink_complete.Ascon.RoundTrip.{loop_round}
use c0_pqlink_complete.Ascon.Blocks.{mix-IsState}
use c0_pqlink_complete.Ascon.Inverse.{loop_back}
use c0_pqlink_complete.Ascon.{
  pad, encrypt_block, encrypt_last, encrypt_loop, decrypt_loop, ascon_encrypt, ascon_decrypt,
  initialize, absorb_last, absorb_loop, absorb_associated_data, finalize_tag,
}

length-store : (v n : ℕ) → length (store_little_endian v n) ≡ n
length-store v n = ap length (store_lem v n) ∙ length-low_bytes n v

initialize-IsState : (key nonce : Bytes) → IsState (initialize key nonce)
unfolding initialize
initialize-IsState key nonce =
    let v = ascon_permute12-IsState _ (record {
      x0 = omega arith;
      x1 = load-lt key 8;
      x2 = load-lt (drop 8 key) 8;
      x3 = load-lt nonce 8;
      x4 = load-lt (drop 8 nonce) 8;
    }) in
    record {
      x0 = v.x0;
      x1 = v.x1;
      x2 = v.x2;
      x3 = bit_xor-lt 64 _ _ v.x3 (load-lt key 8);
      x4 = bit_xor-lt 64 _ _ v.x4 (load-lt (drop 8 key) 8);
    }

lane0-IsState :
    (s : AsconState) (a : ℕ) → a < 2 ^ 64 → IsState s → IsState (record s { x0 = bit_xor s.x0 a })
lane0-IsState s a h v = record {
  x0 = bit_xor-lt 64 s.x0 a v.x0 h;
  x1 = v.x1;
  x2 = v.x2;
  x3 = v.x3;
  x4 = v.x4;
}

lane1-IsState :
    (s : AsconState) (a : ℕ) → a < 2 ^ 64 → IsState s → IsState (record s { x1 = bit_xor s.x1 a })
lane1-IsState s a h v = record {
  x0 = v.x0;
  x1 = bit_xor-lt 64 s.x1 a v.x1 h;
  x2 = v.x2;
  x3 = v.x3;
  x4 = v.x4;
}

lane4-IsState :
    (s : AsconState) → IsState s → IsState (record s { x4 = bit_xor s.x4 0x8000000000000000 })
lane4-IsState s v = record {
  x0 = v.x0;
  x1 = v.x1;
  x2 = v.x2;
  x3 = v.x3;
  x4 = bit_xor-lt 64 s.x4 _ v.x4 (omega arith);
}

pad-IsState : (s : AsconState) (n : ℕ) → IsState s → IsState (pad s n)
pad-IsState s n v = elim (Bool-cases (ltb n 8)) [
  | inl short ↦ rw short (lane0-IsState s _ (omega arith) v)
  | inr long ↦ rw long (lane1-IsState s _ (omega arith) v)
]

absorb_last-IsState : (s : AsconState) (xs : Bytes) → IsState s → IsState (absorb_last s xs)
unfolding absorb_last
absorb_last-IsState s xs v = pad-IsState _ (length xs) (elim (Bool-cases (ltb (length xs) 8)) [
  | inl short ↦ rw short (lane0-IsState s _ (load-lt xs (length xs)) v)
  | inr long ↦ rw long (mix-IsState s _ _ (load-lt xs 8) (load-lt (drop 8 xs) (length xs - 8)) v)
])

absorb_loop-IsState :
    (fuel : ℕ) (s : AsconState) (xs : Bytes) → IsState s → IsState (absorb_loop fuel s xs)
unfolding absorb_loop
absorb_loop-IsState zero s xs v = v
absorb_loop-IsState (suc fuel) s xs v = elim (Bool-cases (ltb (length xs) 16)) [
  | inl short ↦ rw short (ascon_permute8-IsState _ (absorb_last-IsState s xs v))
  | inr long ↦ rw long (
      absorb_loop-IsState fuel _ (drop 16 xs)
        (ascon_permute8-IsState _ (mix-IsState s _ _ (load-lt xs 8) (load-lt (drop 8 xs) 8) v)))
]

absorbed-IsState :
    (key nonce extra : Bytes) → IsState (absorb_associated_data (initialize key nonce) extra)
unfolding absorb_associated_data
absorbed-IsState key nonce extra = elim (Bool-cases (length extra == 0)) [
  | inl empty ↦ rw empty (lane4-IsState _ (initialize-IsState key nonce))
  | inr some ↦
      rw some (
        lane4-IsState _ (absorb_loop-IsState (length extra) _ extra (initialize-IsState key nonce)))
]

length-encrypt_last : (s : AsconState) (p : Bytes) → length (encrypt_last s p).1 ≡ length p
unfolding encrypt_last
length-encrypt_last s p = elim (Bool-cases (ltb (length p) 8)) [
  | inl short ↦ rw short (length-store _ (length p))
  | inr long ↦
      let enough : 8 ≤ length p = ground arith in
      rw long (
        omega (
          arith,
          length-append (store_little_endian _ 8) (store_little_endian _ (length p - 8)),
          length-store _ 8,
          length-store _ (length p - 8),
        ))
]

length-encrypt_block : (s : AsconState) (p : Bytes) → length (encrypt_block s p).1 ≡ 16
unfolding encrypt_block
length-encrypt_block s p = omega (
  arith,
  length-append (store_little_endian _ 8) (store_little_endian _ 8),
  length-store _ 8,
  length-store _ 8,
)

length-encrypt_loop :
    (fuel : ℕ) (s : AsconState) (p : Bytes)
    → length p < fuel
    → length (encrypt_loop fuel s p).1 ≡ length p
unfolding encrypt_loop
length-encrypt_loop zero s p h = absurd (omega arith)
length-encrypt_loop (suc fuel) s p h = elim (Bool-cases (ltb (length p) 16)) [
  | inl short ↦ rw short (length-encrypt_last s p)
  | inr long ↦
      let enough : 16 ≤ length p = ground arith in
      let s' = ascon_permute8 (encrypt_block s p).0 in
      rw long (
        omega (
          arith,
          length-append (encrypt_block s p).1 (encrypt_loop fuel s' (drop 16 p)).1,
          length-encrypt_block s p,
          length-encrypt_loop fuel s' (drop 16 p) (omega (arith, length-drop 16 p)),
          length-drop 16 p,
        ))
]

pub length-ascon_encrypt :
    (key nonce extra p : Bytes) → length (ascon_encrypt key nonce extra p).0 ≡ length p
unfolding ascon_encrypt
length-ascon_encrypt key nonce extra p = length-encrypt_loop (suc (length p)) _ p (omega arith)

pub length-ascon_tag : (key nonce extra p : Bytes) → length (ascon_encrypt key nonce extra p).1 ≡ 16
unfolding ascon_encrypt finalize_tag
length-ascon_tag key nonce extra p = omega (
  arith,
  length-append (store_little_endian _ 8) (store_little_endian _ 8),
  length-store _ 8,
  length-store _ 8,
)

-- Decryption returns the message that was encrypted, for any key, nonce and associated data.
pub ascon_decrypt-encrypt :
    (key nonce extra p : Bytes)
    → IsBytes p
    → ascon_decrypt key nonce extra
        (ascon_encrypt key nonce extra p).0
        (ascon_encrypt key nonce extra p).1
      ≡ ok p
unfolding ascon_encrypt ascon_decrypt
ascon_decrypt-encrypt key nonce extra p b =
    let s = absorb_associated_data (initialize key nonce) extra in
    let (back, sized, bytes) =
      loop_round (suc (length p)) s p (omega arith) (absorbed-IsState key nonce extra) b in
    rw (sized, back, ct_equal_self)

finalize_tag-IsBytes : (s : AsconState) (key : Bytes) → IsBytes (finalize_tag s key)
unfolding finalize_tag
finalize_tag-IsBytes s key =
    IsBytes-append (store_little_endian _ 8) (store_little_endian _ 8)
      (rw (store_lem _ 8) (low_bytes-IsBytes 8 _)) (rw (store_lem _ 8) (low_bytes-IsBytes 8 _))

length-finalize_tag : (s : AsconState) (key : Bytes) → length (finalize_tag s key) ≡ 16
unfolding finalize_tag
length-finalize_tag s key = omega (
  arith,
  length-append (store_little_endian _ 8) (store_little_endian _ 8),
  length-store _ 8,
  length-store _ 8,
)

-- Decryption accepts nothing else: a ciphertext and a 16-byte tag that it accepts are the
-- encryption of the text that it returns, under the same key, nonce and associated data.
pub ascon_decrypt_sound :
    (key nonce extra c tag p : Bytes)
    → IsBytes c
    → IsBytes tag
    → length tag ≡ 16
    → ascon_decrypt key nonce extra c tag ≡ ok p
    → ascon_encrypt key nonce extra p ≡ (c, tag)
unfolding ascon_encrypt ascon_decrypt
ascon_decrypt_sound key nonce extra c tag p b g n e =
    let s = absorb_associated_data (initialize key nonce) extra in
    let d = decrypt_loop (suc (length c)) s c in
    let (back, sized, bytes) =
      loop_back (suc (length c)) s c (omega arith) (absorbed-IsState key nonce extra) b in
    let text : d.1 ≡ p = ground arith in
    let accepted : ct_equal (finalize_tag d.0 key) tag ≡ true = ground arith in
    let same =
      (ct_equal_iff (finalize_tag d.0 key) tag (length-finalize_tag d.0 key ∙ sym n)
          (finalize_tag-IsBytes d.0 key) g).0
        accepted in
    rw (← text) (rw (sized, back, same))
