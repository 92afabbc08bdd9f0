-- ===== src/Ascon/Duplex.antt =====
-- One block of the cipher: decryption finds the state and the text of encryption, and encryption
-- those of decryption.
use c0_pqlink_complete.Prelude.{
  ℕ, ◌+◌, ◌*◌, ◌/◌, ◌%◌, ◌^◌, ◌≤◌, ◌<◌, ◌≡◌, ap, sym, subst, ◌∙◌, Bytes, ◌++◌, bit_or, bit_xor,
  length, take, arith, length-take,
}
use c0_pqlink_complete.Prelude.Arrays.{IsBytes, IsBytes-take, take-append}
use c0_pqlink_complete.Prelude.Bits.{
  bit_or-fields, bit_xor-lt, bit_xor-cancel, bit_xor_comm, bit_xor-zero,
}
use c0_pqlink_complete.Prelude.Masks.{pow_le, parts, mod-pow-lt, bit_xor-mod, bit_xor-div}
use native.Mathlib.Nat.{mod-eq_of_lt, div-eq_of_lt}
use c0_pqlink_complete.Ascon.Lanes.{load_little_endian, store_little_endian, clear_low_bytes}
use c0_pqlink_complete.Ascon.Lanes.Laws.{
  little_endian, low_bytes, little_endian-lt, load_lem, store_lem, length-low_bytes,
  low_bytes-IsBytes, little_endian-low_bytes, low_bytes-little_endian, low_bytes-mod, clear_lem,
}

pub xor_back : (a b : ℕ) → bit_xor a (bit_xor a b) ≡ b
xor_back a b =
    bit_xor_comm a (bit_xor a b)
    ∙ ap (λ (t : ℕ). bit_xor t a) (bit_xor_comm a b)
    ∙ bit_xor-cancel b a

-- One lane `x` with the `n` bytes of `t`: what `n` bytes are written, what they read back as, and
-- what the two sides keep.
module _ (x n : ℕ) (t : Bytes) (sized : length t ≡ n) (small : n ≤ 8) (b : IsBytes t)
    (fits : x < 2 ^ 64) where
  abbrev mixed : ℕ
  mixed = bit_xor x (little_endian t)

  below : little_endian t < 2 ^ (8 * n)
  below = let e : 8 * length t ≡ 8 * n = omega arith in rw (← e) (little_endian-lt t b)

  lane_value : bit_xor x (mixed % 2 ^ (8 * n)) % 2 ^ (8 * n) ≡ little_endian t
  lane_value =
      bit_xor-mod (8 * n) x (mixed % 2 ^ (8 * n))
      ∙ ap (λ (v : ℕ). bit_xor (x % 2 ^ (8 * n)) v)
          (mod-eq_of_lt (mod-pow-lt (8 * n) mixed)
            ∙ bit_xor-mod (8 * n) x (little_endian t)
            ∙ ap (λ (v : ℕ). bit_xor (x % 2 ^ (8 * n)) v) (mod-eq_of_lt below))
      ∙ xor_back (x % 2 ^ (8 * n)) (little_endian t)

  -- The text comes back.
  lane_text : low_bytes n (bit_xor x (mixed % 2 ^ (8 * n))) ≡ t
  lane_text =
      sym (low_bytes-mod n (bit_xor x (mixed % 2 ^ (8 * n))))
      ∙ ap (λ (v : ℕ). low_bytes n v) lane_value
      ∙ ap (λ (k : ℕ). low_bytes k (little_endian t)) (sym sized)
      ∙ low_bytes-little_endian t b

  -- The kept upper bytes and the ciphertext make up the encrypting side's lane.
  lane_state : bit_or (clear_low_bytes x n) (mixed % 2 ^ (8 * n)) ≡ mixed
  lane_state =
      ap (λ (v : ℕ). bit_or v (mixed % 2 ^ (8 * n))) (clear_lem x n small fits)
      ∙ bit_or-fields (8 * n) (x / 2 ^ (8 * n)) (mixed % 2 ^ (8 * n)) (mod-pow-lt (8 * n) mixed)
      ∙ ap (λ (v : ℕ). v * 2 ^ (8 * n) + mixed % 2 ^ (8 * n)) (sym upper)
      ∙ parts (8 * n) mixed
    where
      upper : mixed / 2 ^ (8 * n) ≡ x / 2 ^ (8 * n)
      upper =
          bit_xor-div (8 * n) x (little_endian t)
          ∙ ap (λ (v : ℕ). bit_xor (x / 2 ^ (8 * n)) v) (div-eq_of_lt below)
          ∙ bit_xor_comm (x / 2 ^ (8 * n)) 0
          ∙ bit_xor-zero (x / 2 ^ (8 * n))

-- The same in the words of the code: `n` bytes of `p` enter the lane `x`, and go out as `sent`.
module _ (x n : ℕ) (p : Bytes) (enough : n ≤ length p) (small : n ≤ 8) (b : IsBytes p)
    (fits : x < 2 ^ 64) where
  abbrev pub sent : Bytes
  sent = store_little_endian (bit_xor x (load_little_endian p n)) n

  sized : length (take n p) ≡ n
  sized = omega (arith, length-take n p)

  loaded : load_little_endian p n ≡ little_endian (take n p)
  loaded = load_lem p n (omega (arith, sized)) (IsBytes-take n p b)

  pub loaded-lt : load_little_endian p n < 2 ^ 64
  loaded-lt = rw loaded (
      omega (
        arith,
        little_endian-lt (take n p) (IsBytes-take n p b),
        sized,
        pow_le (8 * length (take n p)) 64 (omega (arith, sized)),
      ))

  sent-low_bytes : sent ≡ low_bytes n (mixed x n (take n p) sized small (IsBytes-take n p b) fits)
  sent-low_bytes =
      store_lem (bit_xor x (load_little_endian p n)) n
      ∙ ap (λ (v : ℕ). low_bytes n (bit_xor x v)) loaded

  pub length-sent : length sent ≡ n
  length-sent = ap length sent-low_bytes ∙ length-low_bytes n _

  pub sent-IsBytes : IsBytes sent
  sent-IsBytes = rw sent-low_bytes (low_bytes-IsBytes n _)

  module _ (rest : Bytes) where
    cut : take n (sent ++ rest) ≡ sent
    cut = take-append sent rest n length-sent

    received :
        load_little_endian (sent ++ rest) n
        ≡ mixed x n (take n p) sized small (IsBytes-take n p b) fits % 2 ^ (8 * n)
    received =
        load_lem (sent ++ rest) n (omega (arith, ap length cut, length-sent)) (rw cut sent-IsBytes)
        ∙ ap little_endian (cut ∙ sent-low_bytes)
        ∙ little_endian-low_bytes n _

    pub received_text :
        store_little_endian (bit_xor x (load_little_endian (sent ++ rest) n)) n ≡ take n p
    received_text =
        store_lem (bit_xor x (load_little_endian (sent ++ rest) n)) n
        ∙ ap (λ (v : ℕ). low_bytes n (bit_xor x v)) received
        ∙ lane_text x n (take n p) sized small (IsBytes-take n p b) fits

    pub received_state :
        bit_or (clear_low_bytes x n) (load_little_endian (sent ++ rest) n)
        ≡ bit_xor x (load_little_endian p n)
    received_state =
        ap (λ (v : ℕ). bit_or (clear_low_bytes x n) v) received
        ∙ lane_state x n (take n p) sized small (IsBytes-take n p b) fits
        ∙ ap (λ (v : ℕ). bit_xor x v) (sym loaded)

    pub received_whole :
        n ≡ 8 → load_little_endian (sent ++ rest) n ≡ bit_xor x (load_little_endian p n)
    received_whole e =
        received
        ∙ mod-eq_of_lt (
            let e' : 64 ≡ 8 * n = omega arith in
            subst (λ (k : ℕ). mixed x n (take n p) sized small (IsBytes-take n p b) fits < 2 ^ k) e'
              (bit_xor-lt 64 x _ fits (subst (λ (v : ℕ). v < 2 ^ 64) loaded loaded-lt)))
        ∙ ap (λ (v : ℕ). bit_xor x v) (sym loaded)

    -- On the decrypting side `p` is the ciphertext and `sent` the text.
    pub returned_state :
        bit_or (clear_low_bytes x n) (load_little_endian p n)
        ≡ bit_xor x (load_little_endian (sent ++ rest) n)
    returned_state =
        ap (λ (v : ℕ). bit_or (clear_low_bytes x n) v)
          (loaded
            ∙ sym (lane_value x n (take n p) sized small (IsBytes-take n p b) fits)
            ∙ ap (λ (v : ℕ). bit_xor x v % 2 ^ (8 * n)) (sym value))
        ∙ lane_state x n text (length-low_bytes n _) small (low_bytes-IsBytes n _) fits
        ∙ ap (λ (v : ℕ). bit_xor x v) (value ∙ sym received)
      where
        text : Bytes
        text = low_bytes n (mixed x n (take n p) sized small (IsBytes-take n p b) fits)

        value :
            little_endian text
            ≡ mixed x n (take n p) sized small (IsBytes-take n p b) fits % 2 ^ (8 * n)
        value = little_endian-low_bytes n _
