-- ===== src/Ascon/Inverse.antt =====
-- Encryption undoes decryption: a ciphertext is the encryption of the text that it decrypts to.
use c0_pqlink_complete.Prelude.{
  ℕ, zero, suc, ◌+◌, ◌-◌, ◌≤◌, ◌<◌, ◌≡◌, refl, ap, sym, ◌∙◌, inl, inr, Bytes, [], ◌++◌, bit_xor,
  length, take, drop, arith, length-append, length-drop, ltb, true, false, take-append-drop,
  Bool-cases, append-nil,
}
use c0_pqlink_complete.Prelude.Arrays.{IsBytes, IsBytes-drop, IsBytes-append, drop-append, take_all}
use c0_pqlink_complete.Ascon.Lanes.{load_little_endian, store_little_endian}
use c0_pqlink_complete.Ascon.Lanes.Laws.{load-lt}
use c0_pqlink_complete.Ascon.Permutation.{AsconState, ascon_permute8}
use c0_pqlink_complete.Ascon.Permutation.Bounds.{IsState, ascon_permute8-IsState}
use c0_pqlink_complete.Ascon.Duplex.{
  sent, length-sent, sent-IsBytes, received_text, returned_state, xor_back,
}
use c0_pqlink_complete.Ascon.Blocks.{
  low, high, length-two, two-IsBytes, two_low, two_high, two_returned, two_text,
}
use c0_pqlink_complete.Ascon.{
  mix, encrypt_block, encrypt_last, encrypt_loop, decrypt_block, decrypt_last, decrypt_loop,
}

block_back :
    (s : AsconState) (c rest : Bytes)
    → IsState s
    → 16 ≤ length c
    → IsBytes c
    → encrypt_block s ((decrypt_block s c).1 ++ rest) ≡ ((decrypt_block s c).0, take 16 c)
unfolding decrypt_block encrypt_block
block_back s c rest v enough b = λ i. (
  record s {
    x0 =
        (ap (λ (t : ℕ). bit_xor s.x0 t) (two_low s v c 8 enough (omega arith) b rest)
            ∙ xor_back s.x0 (load_little_endian c 8))
          i;
    x1 =
        (ap (λ (t : ℕ). bit_xor s.x1 t) (two_high s v c 8 enough (omega arith) b rest refl)
            ∙ xor_back s.x1 (load_little_endian (drop 8 c) 8))
          i;
  },
  two_text s v c 8 enough (omega arith) b rest i,
)

-- The last block, by its length.
encrypt_short :
    (s : AsconState) (text : Bytes) (n : ℕ)
    → length text ≡ n
    → n < 8
    → encrypt_last s text ≡ (
      record s { x0 = bit_xor s.x0 (load_little_endian text n) },
      store_little_endian (bit_xor s.x0 (load_little_endian text n)) n,
    )
unfolding encrypt_last
encrypt_short s text n e h = let short : ltb n 8 ≡ true = ground arith in rw (e, short)

encrypt_long :
    (s : AsconState) (text : Bytes) (n : ℕ)
    → length text ≡ 8 + n
    → encrypt_last s text ≡ (
      mix s (load_little_endian text 8) (load_little_endian (drop 8 text) n),
      store_little_endian (bit_xor s.x0 (load_little_endian text 8)) 8
          ++ store_little_endian (bit_xor s.x1 (load_little_endian (drop 8 text) n)) n,
    )
unfolding encrypt_last
encrypt_long s text n e =
    let long : ltb (8 + n) 8 ≡ false = ground arith in
    let left : 8 + n - 8 ≡ n = omega arith in rw (e, long, left)

module _ (s : AsconState) (v : IsState s) (c : Bytes) (b : IsBytes c) where
  abbrev LastBack : Type 0
  LastBack =
      (encrypt_last s (decrypt_last s c).1 ≡ ((decrypt_last s c).0, c))
      × (length (decrypt_last s c).1 ≡ length c)
      × IsBytes (decrypt_last s c).1

  short_back : length c < 8 → LastBack
  unfolding decrypt_last
  short_back h =
      let short : ltb (length c) 8 ≡ true = ground arith in
      let out = sent s.x0 (length c) c (omega arith) (omega arith) b v.x0 in
      let sized = length-sent s.x0 (length c) c (omega arith) (omega arith) b v.x0 in
      let alone = append-nil out in
      rw short (
        encrypt_short s out (length c) sized h ∙ (λ i. (
          record s {
            x0 =
                (ap (λ o. bit_xor s.x0 (load_little_endian o (length c))) (sym alone)
                    ∙ sym (returned_state s.x0 (length c) c (omega arith) (omega arith) b v.x0 []))
                  i;
          },
          (ap (λ o. store_little_endian (bit_xor s.x0 (load_little_endian o (length c))) (length c))
                  (sym alone)
                ∙ received_text s.x0 (length c) c (omega arith) (omega arith) b v.x0 []
                ∙ take_all c (length c) refl)
              i,
        )),
        sized,
        sent-IsBytes s.x0 (length c) c (omega arith) (omega arith) b v.x0,
      )

  long_back : 8 ≤ length c → length c < 16 → LastBack
  unfolding decrypt_last
  long_back h g =
      let long : ltb (length c) 8 ≡ false = ground arith in
      let n = length c - 8 in
      let enough : 8 + n ≤ length c = omega arith in
      let whole : 8 + n ≡ length c = omega arith in
      let out = low s v c n enough (omega arith) b ++ high s v c n enough (omega arith) b in
      let sized = length-two s v c n enough (omega arith) b in
      let alone = append-nil out in
      rw long (
        encrypt_long s out n sized ∙ (λ i. (
          record s {
            x0 =
                (ap (λ o. bit_xor s.x0 (load_little_endian o 8)) (sym alone)
                    ∙ ap (λ (t : ℕ). bit_xor s.x0 t) (two_low s v c n enough (omega arith) b [])
                    ∙ xor_back s.x0 (load_little_endian c 8))
                  i;
            x1 =
                (ap (λ o. bit_xor s.x1 (load_little_endian (drop 8 o) n)) (sym alone)
                    ∙ sym (two_returned s v c n enough (omega arith) b []))
                  i;
          },
          (ap
                  (λ o.
                    store_little_endian (bit_xor s.x0 (load_little_endian o 8)) 8
                    ++ store_little_endian (bit_xor s.x1 (load_little_endian (drop 8 o) n)) n)
                  (sym alone)
                ∙ two_text s v c n enough (omega arith) b []
                ∙ take_all c (8 + n) (omega arith))
              i,
        )),
        sized ∙ whole,
        two-IsBytes s v c n enough (omega arith) b,
      )

  last_back : length c < 16 → LastBack
  last_back h = elim (Bool-cases (ltb (length c) 8)) [
    | inl short ↦ short_back (ground arith)
    | inr long ↦ long_back (ground arith) h
  ]

abbrev LoopBack : ℕ → AsconState → Bytes → Type 0
LoopBack fuel s c =
    (encrypt_loop fuel s (decrypt_loop fuel s c).1 ≡ ((decrypt_loop fuel s c).0, c))
    × (length (decrypt_loop fuel s c).1 ≡ length c)
    × IsBytes (decrypt_loop fuel s c).1

back_end :
    (fuel : ℕ) (s : AsconState) (c : Bytes)
    → IsState s
    → IsBytes c
    → length c < 16
    → LoopBack (suc fuel) s c
unfolding encrypt_loop decrypt_loop
back_end fuel s c v b h =
    let (back, sized, bytes) = last_back s v c b h in
    let short : ltb (length c) 16 ≡ true = ground arith in
    rw short (rw (sized, short, back), sized, bytes)

back_more :
    (fuel : ℕ) (s : AsconState) (c : Bytes)
    → IsState s
    → IsBytes c
    → 16 ≤ length c
    → LoopBack fuel (ascon_permute8 (decrypt_block s c).0) (drop 16 c)
    → LoopBack (suc fuel) s c
unfolding encrypt_loop decrypt_loop
back_more fuel s c v b h (back, sized, bytes) =
    let block = (decrypt_block s c).1 in
    let rest = (decrypt_loop fuel (ascon_permute8 (decrypt_block s c).0) (drop 16 c)).1 in
    let size : length block ≡ 16 = unfold decrypt_block in length-two s v c 8 h (omega arith) b in
    let whole : ltb (length c) 16 ≡ false = ground arith in
    let all : length (block ++ rest) ≡ length c =
      omega (arith, length-append block rest, size, sized, length-drop 16 c) in
    let left = drop-append block rest 16 size in
    rw whole (
      rw (all, whole, block_back s c rest v h b, left, back, take-append-drop 16 c),
      all,
      IsBytes-append block rest (unfold decrypt_block in two-IsBytes s v c 8 h (omega arith) b)
          bytes,
    )

decrypt_block-IsState : (s : AsconState) (c : Bytes) → IsState s → IsState (decrypt_block s c).0
unfolding decrypt_block
decrypt_block-IsState s c v = record {
  x0 = load-lt c 8;
  x1 = load-lt (drop 8 c) 8;
  x2 = v.x2;
  x3 = v.x3;
  x4 = v.x4;
}

pub loop_back :
    (fuel : ℕ) (s : AsconState) (c : Bytes)
    → length c < fuel
    → IsState s
    → IsBytes c
    → LoopBack fuel s c
loop_back zero s c f v b = absurd (omega arith)
loop_back (suc fuel) s c f v b = elim (Bool-cases (ltb (length c) 16)) [
  | inl short ↦ back_end fuel s c v b (ground arith)
  | inr long ↦ back_more fuel s c v b (ground arith) (
      loop_back fuel (ascon_permute8 (decrypt_block s c).0) (drop 16 c)
        (let enough : 16 ≤ length c = ground arith in omega (arith, length-drop 16 c))
        (ascon_permute8-IsState _ (decrypt_block-IsState s c v)) (IsBytes-drop 16 c b))
]
