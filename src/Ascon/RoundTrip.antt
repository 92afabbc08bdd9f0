-- ===== src/Ascon/RoundTrip.antt =====
-- Decryption undoes encryption, on messages of any length.
use c0_pqlink_complete.Prelude.{
  ℕ, zero, suc, ◌≤◌, ◌<◌, ◌≡◌, inl, inr, Bytes, ◌++◌, length, drop, arith, length-append,
  length-drop, ltb, true, false, take-append-drop, Bool-cases,
}
use c0_pqlink_complete.Prelude.Arrays.{IsBytes, IsBytes-drop, IsBytes-append, drop-append}
use c0_pqlink_complete.Ascon.Permutation.{AsconState, ascon_permute8}
use c0_pqlink_complete.Ascon.Permutation.Bounds.{IsState, ascon_permute8-IsState}
use c0_pqlink_complete.Ascon.Blocks.{
  block_round, last_round, encrypt_block-IsState, length-encrypt_block, encrypt_block-IsBytes,
}
use c0_pqlink_complete.Ascon.{encrypt_block, encrypt_loop, decrypt_loop}

abbrev LoopRound : ℕ → AsconState → Bytes → Type 0
LoopRound fuel s p =
    (decrypt_loop fuel s (encrypt_loop fuel s p).1 ≡ ((encrypt_loop fuel s p).0, p))
    × (length (encrypt_loop fuel s p).1 ≡ length p)
    × IsBytes (encrypt_loop fuel s p).1

loop_end :
    (fuel : ℕ) (s : AsconState) (p : Bytes)
    → IsState s
    → IsBytes p
    → length p < 16
    → LoopRound (suc fuel) s p
unfolding encrypt_loop decrypt_loop
loop_end fuel s p v b h =
    let (back, sized, bytes) = last_round s v p b h in
    let short : ltb (length p) 16 ≡ true = ground arith in
    rw short (rw (sized, short, back), sized, bytes)

loop_more :
    (fuel : ℕ) (s : AsconState) (p : Bytes)
    → IsState s
    → IsBytes p
    → 16 ≤ length p
    → LoopRound fuel (ascon_permute8 (encrypt_block s p).0) (drop 16 p)
    → LoopRound (suc fuel) s p
unfolding encrypt_loop decrypt_loop
loop_more fuel s p v b h (back, sized, bytes) =
    let block = (encrypt_block s p).1 in
    let rest = (encrypt_loop fuel (ascon_permute8 (encrypt_block s p).0) (drop 16 p)).1 in
    let size = length-encrypt_block s p v h b in
    let whole : ltb (length p) 16 ≡ false = ground arith in
    let all : length (block ++ rest) ≡ length p =
      omega (arith, length-append block rest, size, sized, length-drop 16 p) in
    let left = drop-append block rest 16 size in
    rw whole (
      rw (all, whole, block_round s p rest v h b, left, back, take-append-drop 16 p),
      all,
      IsBytes-append block rest (encrypt_block-IsBytes s p v h b) bytes,
    )

pub loop_round :
    (fuel : ℕ) (s : AsconState) (p : Bytes)
    → length p < fuel
    → IsState s
    → IsBytes p
    → LoopRound fuel s p
loop_round zero s p f v b = absurd (omega arith)
loop_round (suc fuel) s p f v b = elim (Bool-cases (ltb (length p) 16)) [
  | inl short ↦ loop_end fuel s p v b (ground arith)
  | inr long ↦
      let enough : 16 ≤ length p = ground arith in
      loop_more fuel s p v b enough (
        loop_round fuel (ascon_permute8 (encrypt_block s p).0) (drop 16 p)
          (omega (arith, length-drop 16 p))
          (ascon_permute8-IsState _ (encrypt_block-IsState s p v enough b)) (IsBytes-drop 16 p b))
]
