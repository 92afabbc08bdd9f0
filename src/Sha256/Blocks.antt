-- ===== src/Sha256/Blocks.antt =====
-- The block loop of `c0_sha256_update`: its fuel is enough, and it may be cut anywhere.
use c0_pqlink_complete.Prelude.{
  ℕ, zero, suc, ◌%◌, ◌≤◌, ◌<◌, ◌≡◌, refl, sym, ◌∙◌, ◌⊎◌, inl, inr, Bytes, ◌++◌, take, drop, length,
  length-append, length-drop, ltb, lt→ltb, Bool-cases, ltb→lt, arith,
}
use c0_pqlink_complete.Prelude.Arrays.{take-append_le, drop-append_le}
use c0_pqlink_complete.Sha256.Compress.{Registers, sha256_transform}
use c0_pqlink_complete.Sha256.{transform_blocks}

blocks-stop : (f : ℕ) (s : Registers) (m : Bytes) → length m < 64 → transform_blocks f s m ≡ (s, m)
unfolding transform_blocks
blocks-stop zero s m h = refl
blocks-stop (suc f) s m h = rw (lt→ltb (length m) 64 h)

blocks-step :
    (f : ℕ) (s : Registers) (m : Bytes)
    → 64 ≤ length m
    → transform_blocks (suc f) s m ≡ transform_blocks f (sha256_transform s (take 64 m)) (drop 64 m)
unfolding transform_blocks
blocks-step f s m h = elim (Bool-cases (ltb (length m) 64)) [
  | inl e ↦ absurd (omega (arith, ltb→lt (length m) 64 e))
  | inr e ↦ rw e
]

short-or-long : (n : ℕ) → (n < 64) ⊎ (64 ≤ n)
short-or-long n = ground arith

-- Any fuel from the length on gives the same result.
blocks-fuel :
    (f g : ℕ) (s : Registers) (m : Bytes)
    → length m ≤ f
    → length m ≤ g
    → transform_blocks f s m ≡ transform_blocks g s m
blocks-fuel zero zero s m p q = refl
blocks-fuel zero (suc g) s m p q =
    blocks-stop 0 s m (omega arith) ∙ sym (blocks-stop (suc g) s m (omega arith))
blocks-fuel (suc f) zero s m p q =
    blocks-stop (suc f) s m (omega arith) ∙ sym (blocks-stop 0 s m (omega arith))
blocks-fuel (suc f) (suc g) s m p q = elim (short-or-long (length m)) [
  | inl short ↦ blocks-stop (suc f) s m short ∙ sym (blocks-stop (suc g) s m short)
  | inr long ↦
      blocks-step f s m long
      ∙ blocks-fuel f g (sha256_transform s (take 64 m)) (drop 64 m)
          (omega (arith, length-drop 64 m)) (omega (arith, length-drop 64 m))
      ∙ sym (blocks-step g s m long)
]

-- The state after all full blocks of a message, and the bytes left over.
abbrev pub absorb : Registers → Bytes → Registers × Bytes
absorb s m = transform_blocks (length m) s m

pub absorb-short : (s : Registers) (m : Bytes) → length m < 64 → absorb s m ≡ (s, m)
absorb-short s m h = blocks-stop (length m) s m h

pub absorb-step :
    (s : Registers) (m : Bytes)
    → 64 ≤ length m
    → absorb s m ≡ absorb (sha256_transform s (take 64 m)) (drop 64 m)
absorb-step s m h =
    blocks-fuel (length m) (suc (length m)) s m (omega arith) (omega arith)
    ∙ blocks-step (length m) s m h
    ∙ blocks-fuel (length m) (length (drop 64 m)) (sha256_transform s (take 64 m)) (drop 64 m)
        (omega (arith, length-drop 64 m)) (omega arith)

-- The loop leaves less than a block, the remainder of the length.
absorb_rest_fuel :
    (n : ℕ) (s : Registers) (m : Bytes) → length m ≤ n → length (absorb s m).1 ≡ length m % 64
absorb_rest_fuel zero s m h = rw (absorb-short s m (omega arith)) (omega arith)
absorb_rest_fuel (suc n) s m h = elim (short-or-long (length m)) [
  | inl short ↦ rw (absorb-short s m short) (omega arith)
  | inr long ↦ rw (absorb-step s m long) (
      omega (
        arith,
        length-drop 64 m,
        absorb_rest_fuel n (sha256_transform s (take 64 m)) (drop 64 m)
            (omega (arith, length-drop 64 m)),
      ))
]

pub length-absorb : (s : Registers) (m : Bytes) → length (absorb s m).1 ≡ length m % 64
length-absorb s m = absorb_rest_fuel (length m) s m (omega arith)

absorb-append_fuel :
    (n : ℕ) (s : Registers) (m x : Bytes)
    → length m ≤ n
    → absorb s (m ++ x) ≡ absorb (absorb s m).0 ((absorb s m).1 ++ x)
absorb-append_fuel zero s m x h = rw (absorb-short s m (omega arith)) refl
absorb-append_fuel (suc n) s m x h = elim (short-or-long (length m)) [
  | inl short ↦ rw (absorb-short s m short) refl
  | inr long ↦
      let rest =
        absorb-append_fuel n (sha256_transform s (take 64 m)) (drop 64 m) x
          (omega (arith, length-drop 64 m)) in
      rw
        (
          absorb-step s (m ++ x) (omega (arith, length-append m x)),
          take-append_le m x 64 long,
          drop-append_le m x 64 long,
          absorb-step s m long,
        )
        rest
]

-- Absorbing a message in two parts is absorbing it whole.
pub absorb-append :
    (s : Registers) (m x : Bytes) → absorb s (m ++ x) ≡ absorb (absorb s m).0 ((absorb s m).1 ++ x)
absorb-append s m x = absorb-append_fuel (length m) s m x (omega arith)
