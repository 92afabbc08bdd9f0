-- ===== src/Ascon/Lanes/Laws.antt =====
-- What the byte loops compute, and that they undo one another.
use c0_pqlink_complete.Prelude.{
  not64, ℕ, zero, suc, ◌+◌, ◌*◌, ◌/◌, ◌%◌, ◌^◌, ◌≤◌, ◌<◌, ◌≡◌, refl, ap, ap₂, sym, ◌∙◌, Bytes, [],
  ◌∷◌, bit_and, bit_or, u64, length, take, arith,
}
use native.Mathlib.Nat.{two-pow-succ, div-div-eq-div-mul}
use c0_pqlink_complete.Prelude.Arrays.{IsBytes}
use c0_pqlink_complete.Prelude.Bits.{bit_or-lt, bit_or-fields, bit_or_comm}
use c0_pqlink_complete.Prelude.Masks.{
  pow_pos, parts, parts-div, parts-mod, mod-pow-lt, bit_and-complement, bit_and-shift, bit_and-mask,
}
use c0_pqlink_complete.Ascon.Lanes.{
  load_loop, load_little_endian, store_loop, store_little_endian, clear_loop, clear_low_bytes,
}

-- The number that bytes spell, the lowest first, and its first `n` bytes.
abbrev pub little_endian : Bytes → ℕ
little_endian [] = 0
little_endian (x ∷ xs) = x + 256 * little_endian xs

abbrev pub low_bytes : ℕ → ℕ → Bytes
low_bytes zero v = []
low_bytes (suc n) v = v % 256 ∷ low_bytes n (v / 256)

next_byte : (i : ℕ) → 2 ^ (8 * (i + 1)) ≡ 256 * 2 ^ (8 * i)
next_byte i =
    ap (λ (t : ℕ). 2 ^ t) at
    ∙ omega (
      arith,
      two-pow-succ k,
      two-pow-succ (suc k),
      two-pow-succ (suc (suc k)),
      two-pow-succ (suc (suc (suc k))),
      two-pow-succ (suc (suc (suc (suc k)))),
      two-pow-succ (suc (suc (suc (suc (suc k))))),
      two-pow-succ (suc (suc (suc (suc (suc (suc k)))))),
      two-pow-succ (suc (suc (suc (suc (suc (suc (suc k))))))),
    )
  where
    k : ℕ
    k = 8 * i

    at : 8 * (i + 1) ≡ suc (suc (suc (suc (suc (suc (suc (suc k)))))))
    at = omega arith

byte_room : (i x : ℕ) → i ≤ 7 → x < 256 → x * 2 ^ (8 * i) < 2 ^ 64
byte_room zero x h g = omega arith
byte_room (suc zero) x h g = omega arith
byte_room (suc (suc zero)) x h g = omega arith
byte_room (suc (suc (suc zero))) x h g = omega arith
byte_room (suc (suc (suc (suc zero)))) x h g = omega arith
byte_room (suc (suc (suc (suc (suc zero))))) x h g = omega arith
byte_room (suc (suc (suc (suc (suc (suc zero)))))) x h g = omega arith
byte_room (suc (suc (suc (suc (suc (suc (suc zero))))))) x h g = omega arith
byte_room (suc (suc (suc (suc (suc (suc (suc (suc i)))))))) x h g = absurd (omega arith)

byte_below : (x v w : ℕ) → x < 256 → v < w → x * w + v < 256 * w
byte_below x v w h g = grind arith

load_loop_lem :
    (xs : Bytes) (i v : ℕ)
    → i + length xs ≤ 8
    → IsBytes xs
    → v < 2 ^ (8 * i)
    → load_loop xs i v ≡ little_endian xs * 2 ^ (8 * i) + v
unfolding load_loop
load_loop_lem [] i v h b f = omega arith
load_loop_lem (x ∷ xs) i v h b f =
    ap (λ (t : ℕ). load_loop xs (i + 1) t) joined
    ∙ load_loop_lem xs (i + 1) (x * 2 ^ (8 * i) + v) (omega arith) b.1 room
    ∙ ap (λ (t : ℕ). little_endian xs * t + (x * 2 ^ (8 * i) + v)) (next_byte i)
    ∙ grind arith
  where
    small : x * 2 ^ (8 * i) % 2 ^ 64 ≡ x * 2 ^ (8 * i)
    small = omega (arith, byte_room i x (omega arith) b.0)

    joined : bit_or v (u64 (x * 2 ^ (8 * i))) ≡ x * 2 ^ (8 * i) + v
    joined =
        ap (λ (t : ℕ). bit_or v t) small
        ∙ bit_or_comm v (x * 2 ^ (8 * i))
        ∙ bit_or-fields (8 * i) x v f

    room : x * 2 ^ (8 * i) + v < 2 ^ (8 * (i + 1))
    room = rw (next_byte i) (byte_below x v (2 ^ (8 * i)) b.0 f)

byte_more : (n : ℕ) → 2 ^ (8 * suc n) ≡ 256 * 2 ^ (8 * n)
byte_more n = let e : 8 * suc n ≡ 8 * (n + 1) = omega arith in ap (λ (t : ℕ). 2 ^ t) e ∙ next_byte n

pub little_endian-lt : (xs : Bytes) → IsBytes xs → little_endian xs < 2 ^ (8 * length xs)
little_endian-lt [] b = omega arith
little_endian-lt (x ∷ xs) b =
    rw (byte_more (length xs)) (omega (arith, b.0, little_endian-lt xs b.1))

-- A load is the number that the bytes spell.
pub load_lem :
    (bytes : Bytes) (n : ℕ)
    → length (take n bytes) ≤ 8
    → IsBytes (take n bytes)
    → load_little_endian bytes n ≡ little_endian (take n bytes)
unfolding load_little_endian
load_lem bytes n h b = load_loop_lem (take n bytes) 0 0 (omega arith) b (omega arith) ∙ omega arith

store_loop_lem : (n i v : ℕ) → store_loop n i v ≡ low_bytes n (v / 2 ^ (8 * i))
unfolding store_loop
store_loop_lem zero i v = refl
store_loop_lem (suc n) i v =
    ap (λ t. v / 2 ^ (8 * i) % 256 ∷ t)
      (store_loop_lem n (i + 1) v ∙ ap (λ (t : ℕ). low_bytes n t) lower)
  where
    lower : v / 2 ^ (8 * (i + 1)) ≡ v / 2 ^ (8 * i) / 256
    lower =
        let e : 2 ^ (8 * (i + 1)) ≡ 2 ^ (8 * i) * 256 = omega (arith, next_byte i) in
        ap (λ (t : ℕ). v / t) e ∙ sym (div-div-eq-div-mul v (2 ^ (8 * i)) 256)

-- A store writes the lowest bytes.
pub store_lem : (v n : ℕ) → store_little_endian v n ≡ low_bytes n v
unfolding store_little_endian
store_lem v n =
    let e : v / 2 ^ (8 * 0) ≡ v = omega arith in
    store_loop_lem n 0 v ∙ ap (λ (t : ℕ). low_bytes n t) e

pub length-low_bytes : (n v : ℕ) → length (low_bytes n v) ≡ n
length-low_bytes zero v = refl
length-low_bytes (suc n) v = ap suc (length-low_bytes n (v / 256))

pub low_bytes-IsBytes : (n v : ℕ) → IsBytes (low_bytes n v)
low_bytes-IsBytes zero v = tt
low_bytes-IsBytes (suc n) v = (omega arith, low_bytes-IsBytes n (v / 256))

mod_byte : (n v : ℕ) → v % 2 ^ (8 * suc n) ≡ v % 256 + 256 * (v / 256 % 2 ^ (8 * n))
mod_byte n v = ap (λ (t : ℕ). t % 2 ^ (8 * suc n)) shape ∙ parts-mod (8 * suc n) q r below
  where
    q : ℕ
    q = v / 256 / 2 ^ (8 * n)

    r : ℕ
    r = v % 256 + 256 * (v / 256 % 2 ^ (8 * n))

    shape : v ≡ q * 2 ^ (8 * suc n) + r
    shape = omega (arith, parts (8 * n) (v / 256), ap (λ (t : ℕ). q * t) (byte_more n), swap)
      where
        swap : q * (256 * 2 ^ (8 * n)) ≡ 256 * (q * 2 ^ (8 * n))
        swap = grind arith

    below : r < 2 ^ (8 * suc n)
    below = omega (arith, byte_more n, mod-pow-lt (8 * n) (v / 256))

pub little_endian-low_bytes : (n v : ℕ) → little_endian (low_bytes n v) ≡ v % 2 ^ (8 * n)
little_endian-low_bytes zero v = omega arith
little_endian-low_bytes (suc n) v = omega (arith, mod_byte n v, little_endian-low_bytes n (v / 256))

pub low_bytes-little_endian :
    (xs : Bytes) → IsBytes xs → low_bytes (length xs) (little_endian xs) ≡ xs
low_bytes-little_endian [] b = refl
low_bytes-little_endian (x ∷ xs) b =
    ap₂ ◌∷◌ (omega arith)
      (ap (λ (t : ℕ). low_bytes (length xs) t) rest ∙ low_bytes-little_endian xs b.1)
  where
    rest : (x + 256 * little_endian xs) / 256 ≡ little_endian xs
    rest = omega arith

pub low_bytes-mod : (n v : ℕ) → low_bytes n (v % 2 ^ (8 * n)) ≡ low_bytes n v
low_bytes-mod zero v = refl
low_bytes-mod (suc n) v =
    ap₂ ◌∷◌ (omega (arith, mod_byte n v))
      (ap (λ (t : ℕ). low_bytes n t) rest ∙ low_bytes-mod n (v / 256))
  where
    rest : v % 2 ^ (8 * suc n) / 256 ≡ v / 256 % 2 ^ (8 * n)
    rest = omega (arith, mod_byte n v)

lowest_byte : (q w : ℕ) → q * w ≡ q / 256 * (256 * w) + q % 256 * w
lowest_byte q w =
    let e : q ≡ q / 256 * 256 + q % 256 = omega arith in ap (λ (t : ℕ). t * w) e ∙ grind arith

regroup : (d n w : ℕ) → d * n * (256 * w) ≡ d * (256 * n) * w
regroup d n w = grind arith

-- Each pass of `clear_low_bytes` clears one more byte.
clear_step :
    (i q : ℕ)
    → i ≤ 7
    → q * 2 ^ (8 * i) < 2 ^ 64
    → bit_and (q * 2 ^ (8 * i)) (not64 (u64 (0xff * 2 ^ (8 * i)))) ≡ q / 256 * 2 ^ (8 * (i + 1))
clear_step i q h f =
    let room = byte_room i 255 h (omega arith) in
    let kept : u64 (255 * 2 ^ (8 * i)) ≡ 255 * 2 ^ (8 * i) = omega arith in
    ap (λ (t : ℕ). bit_and (q * 2 ^ (8 * i)) (not64 t)) kept
    ∙ omega (
      arith,
      bit_and-complement 64 (q * 2 ^ (8 * i)) (255 * 2 ^ (8 * i)) f room,
      bit_and-shift (8 * i) (q * 2 ^ (8 * i)) 255,
      ap (λ (t : ℕ). bit_and t 255 * 2 ^ (8 * i)) quotient,
      ap (λ (t : ℕ). t * 2 ^ (8 * i)) (bit_and-mask 8 q),
      lowest_byte q (2 ^ (8 * i)),
      ap (λ (t : ℕ). q / 256 * t) (next_byte i),
    )
  where
    quotient : q * 2 ^ (8 * i) / 2 ^ (8 * i) ≡ q
    quotient =
        let e : q * 2 ^ (8 * i) ≡ q * 2 ^ (8 * i) + 0 = omega arith in
        ap (λ (t : ℕ). t / 2 ^ (8 * i)) e ∙ parts-div (8 * i) q 0 (pow_pos (8 * i))

clear_loop_lem :
    (n i q : ℕ)
    → i + n ≤ 8
    → q * 2 ^ (8 * i) < 2 ^ 64
    → clear_loop n i (q * 2 ^ (8 * i)) ≡ q / 2 ^ (8 * n) * 2 ^ (8 * n) * 2 ^ (8 * i)
unfolding clear_loop
clear_loop_lem zero i q h f =
    let e : q ≡ q / 2 ^ (8 * 0) * 2 ^ (8 * 0) = omega arith in ap (λ (t : ℕ). t * 2 ^ (8 * i)) e
clear_loop_lem (suc n) i q h f =
    let fewer : q / 256 * 2 ^ (8 * (i + 1)) < 2 ^ 64 =
      rw (next_byte i) (omega (arith, lowest_byte q (2 ^ (8 * i)))) in
    ap (λ (t : ℕ). clear_loop n (i + 1) t) (clear_step i q (omega arith) f)
    ∙ clear_loop_lem n (i + 1) (q / 256) (omega arith) fewer
    ∙ ap (λ (t : ℕ). q / 256 / 2 ^ (8 * n) * 2 ^ (8 * n) * t) (next_byte i)
    ∙ regroup (q / 256 / 2 ^ (8 * n)) (2 ^ (8 * n)) (2 ^ (8 * i))
    ∙ ap₂ (λ (s t : ℕ). s * t * 2 ^ (8 * i)) lower (sym (byte_more n))
  where
    lower : q / 256 / 2 ^ (8 * n) ≡ q / 2 ^ (8 * suc n)
    lower = div-div-eq-div-mul q 256 (2 ^ (8 * n)) ∙ ap (λ (t : ℕ). q / t) (sym (byte_more n))

-- Clearing the `n` lowest bytes of a lane.
pub clear_lem : (v n : ℕ) → n ≤ 8 → v < 2 ^ 64 → clear_low_bytes v n ≡ v / 2 ^ (8 * n) * 2 ^ (8 * n)
unfolding clear_low_bytes
clear_lem v n h f =
    let e : v ≡ v * 2 ^ (8 * 0) = omega arith in
    ap (λ (t : ℕ). clear_loop n 0 t) e
    ∙ clear_loop_lem n 0 v (omega arith) (omega arith)
    ∙ omega arith

load_loop-lt : (xs : Bytes) (i v : ℕ) → v < 2 ^ 64 → load_loop xs i v < 2 ^ 64
unfolding load_loop
load_loop-lt [] i v h = h
load_loop-lt (x ∷ xs) i v h = load_loop-lt xs (i + 1) _ (bit_or-lt 64 v _ h (omega arith))

pub load-lt : (xs : Bytes) (n : ℕ) → load_little_endian xs n < 2 ^ 64
unfolding load_little_endian
load-lt xs n = load_loop-lt (take n xs) 0 0 (omega arith)
