-- ===== src/Mlkem/Barrett.antt =====
-- The Barrett reduction, for every coefficient.
use c0_pqlink_complete.Prelude.{
  ℕ, ◌+◌, ◌*◌, ◌^◌, ◌<◌, ◌≡◌, refl, Bool, true, ◌==◌, ◌&&◌, ◌||◌, ltb, leb,
}
use c0_pqlink_complete.Mlkem.{
  barrett_reduce, multiply_s16_constant_schedule, multiply_u16_fixed, multiply_u8_fixed,
}
use c0_pqlink_complete.Mlkem.Range.{holds_from, holds_square}
use c0_pqlink_complete.Mlkem.Compress.{canonical}
use c0_pqlink_complete.Mlkem.Product.{Within, read_entry}

-- A Barrett reduction keeps the residue.
abbrev barrett_test : ℕ → Bool
barrett_test word =
    (canonical (barrett_reduce word) == canonical word)
    && (ltb (barrett_reduce word) 3330
        || (leb (2 ^ 16) (barrett_reduce word + 3329) && ltb (barrett_reduce word) (2 ^ 16)))

barrett_table :
    holds_from (λ high. holds_from (λ low. barrett_test (256 * high + low)) 0 256) 0 256 ≡ true
unfolding holds_from barrett_reduce multiply_s16_constant_schedule multiply_u16_fixed
    multiply_u8_fixed
barrett_table = refl

pub barrett-residue :
    (word : ℕ)
    → word < 2 ^ 16
    → (canonical (barrett_reduce word) ≡ canonical word) × Within 1 (barrett_reduce word)
barrett-residue word h =
    read_entry _ _ (barrett_reduce word) (holds_square barrett_test word barrett_table h)
