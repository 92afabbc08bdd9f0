-- ===== src/Ascon/Blocks.antt =====
-- Decryption of one block, whole or last, undoes its encryption.
use c0_pqlink_complete.Prelude.{
  ℕ, ◌+◌, ◌-◌, ◌^◌, ◌≤◌, ◌<◌, ◌≡◌, refl, ap, ap₂, sym, ◌∙◌, inl, inr, Bytes, [], ◌++◌, bit_or,
  bit_xor, length, take, drop, arith, length-append, length-drop, ltb, true, false, Bool-cases,
  append_assoc, append-nil,
}
use c0_pqlink_complete.Prelude.Arrays.{
  IsBytes, IsBytes-drop, IsBytes-append, take_all, drop-append, take-take-drop,
}
use c0_pqlink_complete.Prelude.Bits.{bit_xor-lt}
use c0_pqlink_complete.Ascon.Lanes.{load_little_endian, store_little_endian, clear_low_bytes}
use c0_pqlink_complete.Ascon.Permutation.{AsconState}
use c0_pqlink_complete.Ascon.Permutation.Bounds.{IsState}
use c0_pqlink_complete.Ascon.Duplex.{
  sent, loaded-lt, length-sent, sent-IsBytes, received_text, received_state, received_whole,
  returned_state,
}
use c0_pqlink_complete.Ascon.{mix, encrypt_block, encrypt_last, decrypt_block, decrypt_last}

pub mix-IsState :
    (s : AsconState) (a b : ℕ) → a < 2 ^ 64 → b < 2 ^ 64 → IsState s → IsState (mix s a b)
mix-IsState s a b p q v = record {
  x0 = bit_xor-lt 64 s.x0 a v.x0 p;
  x1 = bit_xor-lt 64 s.x1 b v.x1 q;
  x2 = v.x2;
  x3 = v.x3;
  x4 = v.x4;
}

-- Two lanes of text, the second one cut to `n` bytes, whatever follows their ciphertext.
module _ (s : AsconState) (v : IsState s) (p : Bytes) (n : ℕ) (enough : 8 + n ≤ length p)
    (small : n ≤ 8) (b : IsBytes p) where
  pub room : n ≤ length (drop 8 p)
  room = omega (arith, length-drop 8 p)

  abbrev pub low : Bytes
  low = sent s.x0 8 p (omega arith) (omega arith) b v.x0

  abbrev pub high : Bytes
  high = sent s.x1 n (drop 8 p) room small (IsBytes-drop 8 p b) v.x1

  length-low : length low ≡ 8
  length-low = length-sent s.x0 8 p (omega arith) (omega arith) b v.x0

  length-high : length high ≡ n
  length-high = length-sent s.x1 n (drop 8 p) room small (IsBytes-drop 8 p b) v.x1

  pub length-two : length (low ++ high) ≡ 8 + n
  length-two = omega (arith, length-append low high, length-low, length-high)

  pub two-IsBytes : IsBytes (low ++ high)
  two-IsBytes =
      IsBytes-append low high (sent-IsBytes s.x0 8 p (omega arith) (omega arith) b v.x0)
        (sent-IsBytes s.x1 n (drop 8 p) room small (IsBytes-drop 8 p b) v.x1)

  module _ (rest : Bytes) where
    past : drop 8 ((low ++ high) ++ rest) ≡ high ++ rest
    past =
        ap (λ t. drop 8 t) (append_assoc low high rest)
        ∙ drop-append low (high ++ rest) 8 length-low

    pub two_low :
        load_little_endian ((low ++ high) ++ rest) 8 ≡ bit_xor s.x0 (load_little_endian p 8)
    two_low =
        ap (λ t. load_little_endian t 8) (append_assoc low high rest)
        ∙ received_whole s.x0 8 p (omega arith) (omega arith) b v.x0 (high ++ rest) refl

    pub two_high :
        n ≡ 8
        → load_little_endian (drop 8 ((low ++ high) ++ rest)) n
          ≡ bit_xor s.x1 (load_little_endian (drop 8 p) n)
    two_high e =
        ap (λ t. load_little_endian t n) past
        ∙ received_whole s.x1 n (drop 8 p) room small (IsBytes-drop 8 p b) v.x1 rest e

    pub two_kept :
        bit_or (clear_low_bytes s.x1 n) (load_little_endian (drop 8 ((low ++ high) ++ rest)) n)
        ≡ bit_xor s.x1 (load_little_endian (drop 8 p) n)
    two_kept =
        ap (λ t. bit_or (clear_low_bytes s.x1 n) (load_little_endian t n)) past
        ∙ received_state s.x1 n (drop 8 p) room small (IsBytes-drop 8 p b) v.x1 rest

    pub two_returned :
        bit_or (clear_low_bytes s.x1 n) (load_little_endian (drop 8 p) n)
        ≡ bit_xor s.x1 (load_little_endian (drop 8 ((low ++ high) ++ rest)) n)
    two_returned =
        returned_state s.x1 n (drop 8 p) room small (IsBytes-drop 8 p b) v.x1 rest
        ∙ ap (λ t. bit_xor s.x1 (load_little_endian t n)) (sym past)

    pub two_text :
        store_little_endian (bit_xor s.x0 (load_little_endian ((low ++ high) ++ rest) 8)) 8
          ++ store_little_endian
              (bit_xor s.x1 (load_little_endian (drop 8 ((low ++ high) ++ rest)) n))
              n
        ≡ take (8 + n) p
    two_text =
        ap₂ ◌++◌
          (ap (λ t. store_little_endian (bit_xor s.x0 (load_little_endian t 8)) 8)
              (append_assoc low high rest)
            ∙ received_text s.x0 8 p (omega arith) (omega arith) b v.x0 (high ++ rest))
          (ap (λ t. store_little_endian (bit_xor s.x1 (load_little_endian t n)) n) past
            ∙ received_text s.x1 n (drop 8 p) room small (IsBytes-drop 8 p b) v.x1 rest)
        ∙ take-take-drop 8 n p

pub block_round :
    (s : AsconState) (p rest : Bytes)
    → IsState s
    → 16 ≤ length p
    → IsBytes p
    → decrypt_block s ((encrypt_block s p).1 ++ rest) ≡ ((encrypt_block s p).0, take 16 p)
unfolding decrypt_block encrypt_block
block_round s p rest v enough b = λ i. (
  record s {
    x0 = two_low s v p 8 enough (omega arith) b rest i;
    x1 = two_high s v p 8 enough (omega arith) b rest refl i;
  },
  two_text s v p 8 enough (omega arith) b rest i,
)

-- The last block, by its length.
decrypt_short :
    (s : AsconState) (text : Bytes) (n : ℕ)
    → length text ≡ n
    → n < 8
    → decrypt_last s text ≡ (
      record s { x0 = bit_or (clear_low_bytes s.x0 n) (load_little_endian text n) },
      store_little_endian (bit_xor s.x0 (load_little_endian text n)) n,
    )
unfolding decrypt_last
decrypt_short s text n e h = let short : ltb n 8 ≡ true = ground arith in rw (e, short)

decrypt_long :
    (s : AsconState) (text : Bytes) (n : ℕ)
    → length text ≡ 8 + n
    → decrypt_last s text ≡ (
      record s {
        x0 = load_little_endian text 8;
        x1 = bit_or (clear_low_bytes s.x1 n) (load_little_endian (drop 8 text) n);
      },
      store_little_endian (bit_xor s.x0 (load_little_endian text 8)) 8
          ++ store_little_endian (bit_xor s.x1 (load_little_endian (drop 8 text) n)) n,
    )
unfolding decrypt_last
decrypt_long s text n e =
    let long : ltb (8 + n) 8 ≡ false = ground arith in
    let left : 8 + n - 8 ≡ n = omega arith in rw (e, long, left)

-- What is sent of the last block has the length of the text and is bytes, and decrypts to the text.
module _ (s : AsconState) (v : IsState s) (t : Bytes) (b : IsBytes t) where
  abbrev pub LastRound : Type 0
  LastRound =
      (decrypt_last s (encrypt_last s t).1 ≡ ((encrypt_last s t).0, t))
      × (length (encrypt_last s t).1 ≡ length t)
      × IsBytes (encrypt_last s t).1

  short_round : length t < 8 → LastRound
  unfolding encrypt_last
  short_round h =
      let short : ltb (length t) 8 ≡ true = ground arith in
      let out = sent s.x0 (length t) t (omega arith) (omega arith) b v.x0 in
      let sized = length-sent s.x0 (length t) t (omega arith) (omega arith) b v.x0 in
      let alone = append-nil out in
      rw short (
        decrypt_short s out (length t) sized h ∙ (λ i. (
          record s {
            x0 =
                (ap
                      (λ o.
                        bit_or (clear_low_bytes s.x0 (length t)) (load_little_endian o (length t)))
                      (sym alone)
                    ∙ received_state s.x0 (length t) t (omega arith) (omega arith) b v.x0 [])
                  i;
          },
          (ap (λ o. store_little_endian (bit_xor s.x0 (load_little_endian o (length t))) (length t))
                  (sym alone)
                ∙ received_text s.x0 (length t) t (omega arith) (omega arith) b v.x0 []
                ∙ take_all t (length t) refl)
              i,
        )),
        sized,
        sent-IsBytes s.x0 (length t) t (omega arith) (omega arith) b v.x0,
      )

  long_round : 8 ≤ length t → length t < 16 → LastRound
  unfolding encrypt_last
  long_round h g =
      let long : ltb (length t) 8 ≡ false = ground arith in
      let n = length t - 8 in
      let enough : 8 + n ≤ length t = omega arith in
      let whole : 8 + n ≡ length t = omega arith in
      let out = low s v t n enough (omega arith) b ++ high s v t n enough (omega arith) b in
      let sized = length-two s v t n enough (omega arith) b in
      let alone = append-nil out in
      rw long (
        decrypt_long s out n sized ∙ (λ i. (
          record s {
            x0 =
                (ap (λ o. load_little_endian o 8) (sym alone)
                    ∙ two_low s v t n enough (omega arith) b [])
                  i;
            x1 =
                (ap (λ o. bit_or (clear_low_bytes s.x1 n) (load_little_endian (drop 8 o) n))
                      (sym alone)
                    ∙ two_kept s v t n enough (omega arith) b [])
                  i;
          },
          (ap
                  (λ o.
                    store_little_endian (bit_xor s.x0 (load_little_endian o 8)) 8
                    ++ store_little_endian (bit_xor s.x1 (load_little_endian (drop 8 o) n)) n)
                  (sym alone)
                ∙ two_text s v t n enough (omega arith) b []
                ∙ take_all t (8 + n) (omega arith))
              i,
        )),
        sized ∙ whole,
        two-IsBytes s v t n enough (omega arith) b,
      )

  pub last_round : length t < 16 → LastRound
  last_round h = elim (Bool-cases (ltb (length t) 8)) [
    | inl short ↦ short_round (ground arith)
    | inr long ↦ long_round (ground arith) h
  ]

module _ (s : AsconState) (p : Bytes) (v : IsState s) (enough : 16 ≤ length p) (b : IsBytes p) where
  pub encrypt_block-IsState : IsState (encrypt_block s p).0
  unfolding encrypt_block
  encrypt_block-IsState =
      mix-IsState s _ _ (loaded-lt s.x0 8 p (omega arith) (omega arith) b v.x0)
        (loaded-lt s.x1 8 (drop 8 p) (omega (arith, length-drop 8 p)) (omega arith)
          (IsBytes-drop 8 p b) v.x1)
        v

  pub length-encrypt_block : length (encrypt_block s p).1 ≡ 16
  unfolding encrypt_block
  length-encrypt_block = length-two s v p 8 enough (omega arith) b

  pub encrypt_block-IsBytes : IsBytes (encrypt_block s p).1
  unfolding encrypt_block
  encrypt_block-IsBytes = two-IsBytes s v p 8 enough (omega arith) b
