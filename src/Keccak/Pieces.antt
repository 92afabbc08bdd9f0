-- ===== src/Keccak/Pieces.antt =====
-- The sponge on pieces: its input and its output may come in any number of calls.
use c0_pqlink_complete.Prelude.{
  ℕ, zero, suc, ◌+◌, ◌*◌, ◌/◌, ◌%◌, ◌≡◌, refl, ap, sym, ◌∙◌, Bytes, [], ◌∷◌, ◌++◌, true, false,
  ◌==◌, u8, u16, ◌>>>◌, arith, length, Bool-cases, inl, inr,
}
use c0_pqlink_complete.Keccak.Permutation.{lane_at}
use c0_pqlink_complete.Keccak.{
  KeccakCtx, advance, absorb_byte, absorb_bytes, keccak_absorb, keccak_finalize, squeeze_bytes,
  keccak_squeeze,
}

-- A pass of a loop keeps the mode.
advance-mode : (ctx : KeccakCtx) → (advance ctx).squeezing ≡ ctx.squeezing
unfolding advance
advance-mode ctx = elim (Bool-cases (u16 (ctx.position + 1) == ctx.rate)) [
  | inl full ↦ rw full refl
  | inr more ↦ rw more refl
]

absorb_bytes-mode :
    (ctx : KeccakCtx) (input : Bytes) → (absorb_bytes ctx input).squeezing ≡ ctx.squeezing
unfolding absorb_bytes
absorb_bytes-mode ctx [] = refl
absorb_bytes-mode ctx (x ∷ input) = absorb_bytes-mode (absorb_byte ctx x) input ∙ advance-mode _

absorbing :
    (ctx : KeccakCtx) (input : Bytes)
    → ctx.squeezing ≡ 0
    → keccak_absorb ctx input ≡ absorb_bytes ctx input
unfolding keccak_absorb
absorbing ctx input mode = let test : (ctx.squeezing == 0) ≡ true = ground arith in rw test refl

pub absorb_nothing : (ctx : KeccakCtx) → ctx.squeezing ≡ 0 → keccak_absorb ctx [] ≡ ctx
absorb_nothing ctx mode = unfold absorb_bytes in absorbing ctx [] mode

pub absorb-mode :
    (ctx : KeccakCtx) (input : Bytes) → ctx.squeezing ≡ 0 → (keccak_absorb ctx input).squeezing ≡ 0
absorb-mode ctx input mode =
    ap (λ c. c.squeezing) (absorbing ctx input mode) ∙ absorb_bytes-mode ctx input ∙ mode

joined_absorb :
    (ctx : KeccakCtx) (a b : Bytes)
    → absorb_bytes ctx (a ++ b) ≡ absorb_bytes (absorb_bytes ctx a) b
unfolding absorb_bytes
joined_absorb ctx [] b = refl
joined_absorb ctx (x ∷ a) b = joined_absorb (absorb_byte ctx x) a b

pub absorb-append :
    (ctx : KeccakCtx) (a b : Bytes)
    → ctx.squeezing ≡ 0
    → keccak_absorb ctx (a ++ b) ≡ keccak_absorb (keccak_absorb ctx a) b
absorb-append ctx a b mode =
    absorbing ctx (a ++ b) mode
    ∙ joined_absorb ctx a b
    ∙ ap (λ c. absorb_bytes c b) (sym (absorbing ctx a mode))
    ∙ sym (absorbing (keccak_absorb ctx a) b (absorb-mode ctx a mode))

squeeze_bytes-mode :
    (size : ℕ) (ctx : KeccakCtx) → (squeeze_bytes size ctx).0.squeezing ≡ ctx.squeezing
unfolding squeeze_bytes
squeeze_bytes-mode zero ctx = refl
squeeze_bytes-mode (suc size) ctx = squeeze_bytes-mode size (advance ctx) ∙ advance-mode ctx

joined_squeeze :
    (m n size : ℕ) (ctx : KeccakCtx)
    → size ≡ m + n
    → (squeeze_bytes size ctx).1
      ≡ (squeeze_bytes m ctx).1 ++ (squeeze_bytes n (squeeze_bytes m ctx).0).1
unfolding squeeze_bytes
joined_squeeze zero n size ctx e = ap (λ s. (squeeze_bytes s ctx).1) (omega (arith, e))
joined_squeeze (suc m) n zero ctx e = absurd (omega arith)
joined_squeeze (suc m) n (suc size) ctx e =
    ap (◌∷◌ (u8 (lane_at ctx.state (ctx.position / 8) >>> (8 * (ctx.position % 8)))))
      (joined_squeeze m n size (advance ctx) (omega arith))

pub finalize-mode : (ctx : KeccakCtx) → ctx.squeezing ≡ 0 → (keccak_finalize ctx).squeezing ≡ 1
unfolding keccak_finalize
finalize-mode ctx mode = let test : (ctx.squeezing == 0) ≡ true = ground arith in rw test refl

from_absorbing :
    (ctx : KeccakCtx) (n : ℕ)
    → ctx.squeezing ≡ 0
    → keccak_squeeze ctx n ≡ squeeze_bytes n (keccak_finalize ctx)
unfolding keccak_squeeze
from_absorbing ctx n mode = let test : (ctx.squeezing == 0) ≡ true = ground arith in rw test refl

from_squeezing :
    (ctx : KeccakCtx) (n : ℕ) → ctx.squeezing ≡ 1 → keccak_squeeze ctx n ≡ squeeze_bytes n ctx
unfolding keccak_squeeze
from_squeezing ctx n mode = let test : (ctx.squeezing == 0) ≡ false = ground arith in rw test refl

-- The output of one call is that of two, from a context that is still absorbing.
pub squeeze-add :
    (ctx : KeccakCtx) (m n size : ℕ)
    → ctx.squeezing ≡ 0
    → size ≡ m + n
    → (keccak_squeeze ctx size).1
      ≡ (keccak_squeeze ctx m).1 ++ (keccak_squeeze (keccak_squeeze ctx m).0 n).1
squeeze-add ctx m n size mode e =
    let first = from_absorbing ctx m mode in
    let later : (keccak_squeeze ctx m).0.squeezing ≡ 1 =
      ap (λ (t : KeccakCtx × Bytes). t.0.squeezing) first
      ∙ squeeze_bytes-mode m (keccak_finalize ctx)
      ∙ finalize-mode ctx mode in
    ap (λ (t : KeccakCtx × Bytes). t.1) (from_absorbing ctx size mode)
    ∙ joined_squeeze m n size (keccak_finalize ctx) e
    ∙ ap (λ (t : KeccakCtx × Bytes). t.1 ++ (squeeze_bytes n t.0).1) (sym first)
    ∙ ap (λ (t : KeccakCtx × Bytes). (keccak_squeeze ctx m).1 ++ t.1)
        (sym (from_squeezing (keccak_squeeze ctx m).0 n later))

pub length-squeeze_bytes : (size : ℕ) (ctx : KeccakCtx) → length (squeeze_bytes size ctx).1 ≡ size
unfolding squeeze_bytes
length-squeeze_bytes zero ctx = refl
length-squeeze_bytes (suc size) ctx = ap suc (length-squeeze_bytes size (advance ctx))

pub length-squeeze : (ctx : KeccakCtx) (size : ℕ) → length (keccak_squeeze ctx size).1 ≡ size
unfolding keccak_squeeze
length-squeeze ctx size = length-squeeze_bytes size _

pub squeeze-mode :
    (ctx : KeccakCtx) (n : ℕ) → ctx.squeezing ≡ 1 → (keccak_squeeze ctx n).0.squeezing ≡ 1
squeeze-mode ctx n mode =
    ap (λ (t : KeccakCtx × Bytes). t.0.squeezing) (from_squeezing ctx n mode)
    ∙ squeeze_bytes-mode n ctx
    ∙ mode

-- The same, from a context that squeezes already.
pub squeeze-add_squeezing :
    (ctx : KeccakCtx) (m n size : ℕ)
    → ctx.squeezing ≡ 1
    → size ≡ m + n
    → (keccak_squeeze ctx size).1
      ≡ (keccak_squeeze ctx m).1 ++ (keccak_squeeze (keccak_squeeze ctx m).0 n).1
squeeze-add_squeezing ctx m n size mode e =
    ap (λ (t : KeccakCtx × Bytes). t.1) (from_squeezing ctx size mode)
    ∙ joined_squeeze m n size ctx e
    ∙ ap (λ (t : KeccakCtx × Bytes). t.1 ++ (squeeze_bytes n t.0).1) (sym first)
    ∙ ap (λ (t : KeccakCtx × Bytes). (keccak_squeeze ctx m).1 ++ t.1)
        (sym (from_squeezing (keccak_squeeze ctx m).0 n (squeeze-mode ctx m mode)))
  where
    first : keccak_squeeze ctx m ≡ squeeze_bytes m ctx
    first = from_squeezing ctx m mode

-- A context that is finalized, or that finalizes when it is squeezed: the output is the same.
pub squeeze-finalize :
    (ctx : KeccakCtx) (n : ℕ)
    → ctx.squeezing ≡ 0
    → (keccak_squeeze (keccak_finalize ctx) n).1 ≡ (keccak_squeeze ctx n).1
squeeze-finalize ctx n mode =
    ap (λ (t : KeccakCtx × Bytes). t.1)
      (from_squeezing (keccak_finalize ctx) n (finalize-mode ctx mode)
        ∙ sym (from_absorbing ctx n mode))
