-- ===== src/Prelude/Arrays.antt =====
-- C arrays as lists of bytes: slices, copies into a buffer, and their laws. A read out of range
-- gives 0; every model reads only below a length that it has tested or that its type fixes.
use Prim.Native.Nat.{ℕ, zero, suc, ◌+◌, ◌-◌, ◌≤◌, ◌<◌, ◌^◌}
use mathlib.Core.Path.{◌≡◌, refl, ap, sym, ◌∙◌}
use mathlib.Core.List.{List, [], ◌∷◌, ◌++◌}
use native.Mathlib.Omega.{arith}
use c0_pqlink_complete.Prelude.Lists.{
  length, get_or, take, drop, length-append, length-take, length-drop, take-append-drop,
}
use c0_pqlink_complete.Prelude.Words.{Bytes}

abbrev pub byte_at : Bytes → ℕ → ℕ
byte_at xs i = get_or xs i 0

-- `n` elements from `offset` on.
abbrev pub slice {ℓ} : {A : Type ℓ} → ℕ → ℕ → List A → List A
slice offset n xs = take n (drop offset xs)

-- memcpy(buffer + offset, source, length source).
abbrev pub overwrite {ℓ} : {A : Type ℓ} → List A → ℕ → List A → List A
overwrite buffer offset source =
    take offset buffer ++ (source ++ drop (offset + length source) buffer)

-- Every element is a byte.
abbrev pub IsBytes : Bytes → Type 0
IsBytes [] = Unit
IsBytes (x ∷ xs) = (x < 2 ^ 8) × IsBytes xs

module _ {ℓ} {A : Type ℓ} where
  pub take-append : (xs ys : List A) (n : ℕ) → length xs ≡ n → take n (xs ++ ys) ≡ xs
  take-append [] ys zero e = refl
  take-append [] ys (suc n) e = absurd (omega arith)
  take-append (x ∷ xs) ys zero e = absurd (omega arith)
  take-append (x ∷ xs) ys (suc n) e = ap (λ t. x ∷ t) (take-append xs ys n (omega arith))

  pub drop-append : (xs ys : List A) (n : ℕ) → length xs ≡ n → drop n (xs ++ ys) ≡ ys
  drop-append [] ys zero e = refl
  drop-append [] ys (suc n) e = absurd (omega arith)
  drop-append (x ∷ xs) ys zero e = absurd (omega arith)
  drop-append (x ∷ xs) ys (suc n) e = drop-append xs ys n (omega arith)

  pub drop-append_ge :
      (xs ys : List A) (m k : ℕ) → length xs ≡ m → m ≤ k → drop k (xs ++ ys) ≡ drop (k - m) ys
  drop-append_ge [] ys zero k e h = let t : k ≡ k - 0 = omega arith in ap (λ i. drop i ys) t
  drop-append_ge [] ys (suc m) k e h = absurd (omega arith)
  drop-append_ge (x ∷ xs) ys zero k e h = absurd (omega arith)
  drop-append_ge (x ∷ xs) ys (suc m) zero e h = absurd (omega arith)
  drop-append_ge (x ∷ xs) ys (suc m) (suc k) e h =
      let t : k - m ≡ suc k - suc m = omega arith in
      drop-append_ge xs ys m k (omega arith) (omega arith) ∙ ap (λ i. drop i ys) t

  pub take_all : (xs : List A) (n : ℕ) → length xs ≡ n → take n xs ≡ xs
  take_all [] zero e = refl
  take_all [] (suc n) e = absurd (omega arith)
  take_all (x ∷ xs) zero e = absurd (omega arith)
  take_all (x ∷ xs) (suc n) e = ap (λ t. x ∷ t) (take_all xs n (omega arith))

  -- The middle of three parts, by their lengths.
  pub slice-append :
      (xs ys zs : List A) (m n : ℕ)
      → length xs ≡ m
      → length ys ≡ n
      → slice m n (xs ++ (ys ++ zs)) ≡ ys
  slice-append xs ys zs m n p q = rw (drop-append xs (ys ++ zs) m p) (take-append ys zs n q)

  pub take-append_ge :
      (xs ys : List A) (m k : ℕ) → length xs ≡ m → m ≤ k → take k (xs ++ ys) ≡ xs ++ take (k - m) ys
  take-append_ge [] ys zero k e h = let t : k ≡ k - 0 = omega arith in ap (λ i. take i ys) t
  take-append_ge [] ys (suc m) k e h = absurd (omega arith)
  take-append_ge (x ∷ xs) ys zero k e h = absurd (omega arith)
  take-append_ge (x ∷ xs) ys (suc m) zero e h = absurd (omega arith)
  take-append_ge (x ∷ xs) ys (suc m) (suc k) e h =
      let t : k - m ≡ suc k - suc m = omega arith in
      ap (λ r. x ∷ r)
        (take-append_ge xs ys m k (omega arith) (omega arith) ∙ ap (λ i. xs ++ take i ys) t)

  pub take-append_le : (xs ys : List A) (k : ℕ) → k ≤ length xs → take k (xs ++ ys) ≡ take k xs
  take-append_le xs ys zero h = refl
  take-append_le [] ys (suc k) h = absurd (omega arith)
  take-append_le (x ∷ xs) ys (suc k) h = ap (λ r. x ∷ r) (take-append_le xs ys k (omega arith))

  pub drop-append_le :
      (xs ys : List A) (k : ℕ) → k ≤ length xs → drop k (xs ++ ys) ≡ drop k xs ++ ys
  drop-append_le xs ys zero h = refl
  drop-append_le [] ys (suc k) h = absurd (omega arith)
  drop-append_le (x ∷ xs) ys (suc k) h = drop-append_le xs ys k (omega arith)

  pub drop_all : (xs : List A) (n : ℕ) → length xs ≤ n → drop n xs ≡ []
  drop_all [] zero h = refl
  drop_all [] (suc n) h = refl
  drop_all (x ∷ xs) zero h = absurd (omega arith)
  drop_all (x ∷ xs) (suc n) h = drop_all xs n (omega arith)

pub IsBytes-append : (xs ys : Bytes) → IsBytes xs → IsBytes ys → IsBytes (xs ++ ys)
IsBytes-append [] ys p q = q
IsBytes-append (x ∷ xs) ys p q = (p.0, IsBytes-append xs ys p.1 q)

pub IsBytes-take : (n : ℕ) (xs : Bytes) → IsBytes xs → IsBytes (take n xs)
IsBytes-take zero xs p = tt
IsBytes-take (suc n) [] p = tt
IsBytes-take (suc n) (x ∷ xs) p = (p.0, IsBytes-take n xs p.1)

pub IsBytes-drop : (n : ℕ) (xs : Bytes) → IsBytes xs → IsBytes (drop n xs)
IsBytes-drop zero xs p = p
IsBytes-drop (suc n) [] p = tt
IsBytes-drop (suc n) (x ∷ xs) p = IsBytes-drop n xs p.1

pub byte_at-lt : (xs : Bytes) (i : ℕ) → IsBytes xs → byte_at xs i < 2 ^ 8
byte_at-lt [] i p = omega arith
byte_at-lt (x ∷ xs) zero p = p.0
byte_at-lt (x ∷ xs) (suc i) p = byte_at-lt xs i p.1

module _ {ℓ} {A : Type ℓ} where
  pub length-overwrite :
      (buffer source : List A) (offset : ℕ)
      → offset + length source ≤ length buffer
      → length (overwrite buffer offset source) ≡ length buffer
  length-overwrite buffer source offset h = omega (
    arith,
    length-append (take offset buffer) (source ++ drop (offset + length source) buffer),
    length-append source (drop (offset + length source) buffer),
    length-take offset buffer,
    length-drop (offset + length source) buffer,
  )

  -- A copy into a buffer extends what stands before it.
  pub take-overwrite :
      (buffer source : List A) (offset k : ℕ)
      → offset + length source ≤ length buffer
      → k ≡ offset + length source
      → take k (overwrite buffer offset source) ≡ take offset buffer ++ source
  take-overwrite buffer source offset k h e =
      let kept : length (take offset buffer) ≡ offset = omega (arith, length-take offset buffer) in
      take-append_ge (take offset buffer) _ offset k kept (omega arith)
      ∙ ap (λ t. take offset buffer ++ t)
          (take-append source (drop (offset + length source) buffer) (k - offset) (omega arith))

module _ {ℓ} {A : Type ℓ} where
  pub drop-drop : (m n : ℕ) (xs : List A) → drop n (drop m xs) ≡ drop (m + n) xs
  drop-drop zero n xs = let t : n ≡ 0 + n = omega arith in ap (λ i. drop i xs) t
  drop-drop (suc m) zero [] = let t : suc m + 0 ≡ suc m = omega arith in rw t
  drop-drop (suc m) (suc n) [] = let t : suc m + suc n ≡ suc (m + suc n) = omega arith in rw t
  drop-drop (suc m) n (x ∷ xs) =
      let t : suc m + n ≡ suc (m + n) = omega arith in rw t (drop-drop m n xs)

  -- Cutting a part off the rest of an array.
  pub cut : (m n : ℕ) (xs : List A) → drop m xs ≡ slice m n xs ++ drop (m + n) xs
  cut m n xs = sym (take-append-drop n (drop m xs)) ∙ ap (λ t. slice m n xs ++ t) (drop-drop m n xs)

module _ {ℓ} {A : Type ℓ} where
  pub take-take-drop : (m n : ℕ) (xs : List A) → take m xs ++ take n (drop m xs) ≡ take (m + n) xs
  take-take-drop zero n xs = let t : n ≡ 0 + n = omega arith in ap (λ i. take i xs) t
  take-take-drop (suc m) zero [] = let t : suc m + 0 ≡ suc m = omega arith in rw t
  take-take-drop (suc m) (suc n) [] = let t : suc m + suc n ≡ suc (m + suc n) = omega arith in rw t
  take-take-drop (suc m) n (x ∷ xs) =
      let t : suc m + n ≡ suc (m + n) = omega arith in
      rw t (ap (λ r. x ∷ r) (take-take-drop m n xs))
