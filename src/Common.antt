-- ===== src/Common.antt =====
-- include/c0pqlink/common.h: the return codes, and the two helpers on secrets that
-- src/core/mlkem512_stream.c defines.
pub mod Secrets
use c0_pqlink_complete.Prelude.{
  ap, sym, ℕ, ◌≡◌, ◌≢◌, refl, ◌⊎◌, inl, inr, zero, suc, ◌≡◌, refl, Bool, true, false, List, [], ◌∷◌,
  Bytes, bit_or, bit_xor, u8, ◌==◌, replicate,
}

-- The negative return codes, C0PQLINK_ERR_ARGUMENT (-1) to C0PQLINK_ERR_RNG (-9).
pub data Error : Type 0 where
  err_argument err_key_encoding err_io err_auth err_state err_replay err_expired : Error
  err_capacity err_rng : Error

-- C0PQLINK_OK with what the call stores through its out parameters, or an error.
pub data Result {ℓ} (A : Type ℓ) : Type ℓ where
  ok : A → Result A
  err : Error → Result A

-- A call whose error the caller returns at once.
infixl 5 ◌>>=◌ ◌>>◌
abbrev pub ◌>>=◌ {ℓ κ} : {S : Type ℓ} {T : Type κ} → Result S → (S → Result T) → Result T
err code >>= rest = err code
ok value >>= rest = rest value

abbrev pub ◌>>◌ {ℓ} : {T : Type ℓ} → Result (Unit {0}) → Result T → Result T
check >> rest = check >>= λ passed. rest

-- `if (!condition) return error;`
abbrev pub require : Bool → Error → Result (Unit {0})
require false code = err code
require true code = ok tt

abbrev pub is_ok {ℓ} : {A : Type ℓ} → Result A → Bool
is_ok (ok a) = true
is_ok (err e) = false

-- `c0pqlink_secure_zero` on an array of `length` bytes.
abbrev pub secure_zero : ℕ → Bytes
secure_zero length = replicate length 0

-- The loop of `c0pqlink_ct_equal`, with the differences of the bytes before in `difference`. It
-- reads all bytes of both arrays whatever they hold; the arrays have one length.
pub ct_difference : Bytes → Bytes → ℕ → ℕ
ct_difference [] ys difference = difference
ct_difference (a ∷ xs) [] difference = difference
ct_difference (a ∷ xs) (b ∷ ys) difference =
    ct_difference xs ys (bit_or difference (u8 (bit_xor a b)))

unfoldable pub ct_equal : Bytes → Bytes → Bool
unfolding ct_difference
ct_equal a b = ct_difference a b 0 == 0

-- To split on the outcome of a call and keep the equation.
pub Result-cases {ℓ} :
    {A : Type ℓ} (r : Result A) → ((a : A) × (r ≡ ok a)) ⊎ ((e : Error) × (r ≡ err e))
Result-cases (ok a) = inl (a, refl)
Result-cases (err e) = inr (e, refl)

pub err_ok {ℓ} : {A : Type ℓ} {a : A} (e : Error) → err e ≢ ok a
err_ok e = cc

-- A branch on a result that is known.
pub choose_ok :
    {A : Type 0} (r : Result (Unit {0})) (failed : Error → A) (passed : A)
    → r ≡ ok tt
    → elim r [ err e ↦ failed e | ok done ↦ passed ] ≡ passed
choose_ok (ok done) failed passed h = refl
choose_ok (err e) failed passed h = absurd (err_ok e h)

pub choose_err :
    {A : Type 0} {e : Error} (r : Result (Unit {0})) (failed : Error → A) (passed : A)
    → r ≡ err e
    → elim r [ err e ↦ failed e | ok done ↦ passed ] ≡ failed e
choose_err {e = e} (ok done) failed passed h = absurd (err_ok e (sym h))
choose_err (err code) failed passed h = ap failed (cc h)
