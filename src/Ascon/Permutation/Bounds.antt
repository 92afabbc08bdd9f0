-- ===== src/Ascon/Permutation/Bounds.antt =====
-- The five lanes stay 64-bit words.
use c0_pqlink_complete.Prelude.{not64, ℕ, zero, suc, ◌+◌, ◌/◌, ◌^◌, ◌<◌, bit_and, bit_xor, arith}
use c0_pqlink_complete.Prelude.Bits.{bit_or-lt, bit_xor-lt}
use c0_pqlink_complete.Prelude.Masks.{bit_and-lt}
use native.Mathlib.Nat.{div-le_self}
use c0_pqlink_complete.Ascon.Lanes.{rotate_right64}
use c0_pqlink_complete.Ascon.Permutation.{
  AsconState, substitute, diffuse, ascon_round, permute_loop, ascon_permute12, ascon_permute8,
}

pub record IsState (state : AsconState) : Type 0 where
  pub x0 : state.x0 < 2 ^ 64
  pub x1 : state.x1 < 2 ^ 64
  pub x2 : state.x2 < 2 ^ 64
  pub x3 : state.x3 < 2 ^ 64
  pub x4 : state.x4 < 2 ^ 64

abbrev xor_lt : (a b : ℕ) → a < 2 ^ 64 → b < 2 ^ 64 → bit_xor a b < 2 ^ 64
xor_lt a b p q = bit_xor-lt 64 a b p q

not_lt : (v : ℕ) → not64 v < 2 ^ 64
not_lt v = omega arith

rotate_right64-lt : (v n : ℕ) → v < 2 ^ 64 → rotate_right64 v n < 2 ^ 64
unfolding rotate_right64
rotate_right64-lt v n h =
    bit_or-lt 64 (v / 2 ^ n) _ (omega (arith, div-le_self v (2 ^ n))) (omega arith)

diffuse-lt : (t m n : ℕ) → t < 2 ^ 64 → diffuse t m n < 2 ^ 64
unfolding diffuse
diffuse-lt t m n h = xor_lt _ _ (xor_lt t _ h (rotate_right64-lt t m h)) (rotate_right64-lt t n h)

-- One cell of the nonlinear layer.
cell_lt : (a b c : ℕ) → a < 2 ^ 64 → bit_xor a (bit_and (not64 b) c) < 2 ^ 64
cell_lt a b c h = xor_lt a _ h (bit_and-lt 64 (not64 b) c (not_lt b))

substitute-IsState :
    (state : AsconState) (constant : ℕ)
    → constant < 2 ^ 64
    → IsState state
    → IsState (substitute state constant)
unfolding substitute
substitute-IsState state constant h s =
    let x0 = xor_lt state.x0 state.x4 s.x0 s.x4 in
    let x4 = xor_lt state.x4 state.x3 s.x4 s.x3 in
    let x2 = xor_lt _ state.x1 (xor_lt state.x2 constant s.x2 h) s.x1 in
    let t0 = cell_lt _ state.x1 _ x0 in
    let t1 = cell_lt state.x1 _ state.x3 s.x1 in
    let t2 = cell_lt _ state.x3 _ x2 in
    let t3 = cell_lt state.x3 _ _ s.x3 in
    let t4 = cell_lt _ _ state.x1 x4 in
    record {
      x0 = xor_lt _ _ t0 t4;
      x1 = xor_lt _ _ t1 t0;
      x2 = not_lt _;
      x3 = xor_lt _ _ t3 t2;
      x4 = t4;
    }

pub ascon_round-IsState :
    (state : AsconState) (constant : ℕ)
    → constant < 2 ^ 64
    → IsState state
    → IsState (ascon_round state constant)
unfolding ascon_round
ascon_round-IsState state constant h s =
    let t = substitute-IsState state constant h s in
    record {
      x0 = diffuse-lt _ 19 28 t.x0;
      x1 = diffuse-lt _ 61 39 t.x1;
      x2 = diffuse-lt _ 1 6 t.x2;
      x3 = diffuse-lt _ 10 17 t.x3;
      x4 = diffuse-lt _ 7 41 t.x4;
    }

permute_loop-IsState :
    (left round : ℕ) (state : AsconState) → IsState state → IsState (permute_loop left round state)
unfolding permute_loop
permute_loop-IsState zero round state s = s
permute_loop-IsState (suc left) round state s =
    permute_loop-IsState left (round + 1) _ (ascon_round-IsState state _ (omega arith) s)

pub ascon_permute12-IsState : (state : AsconState) → IsState state → IsState (ascon_permute12 state)
unfolding ascon_permute12
ascon_permute12-IsState state s = permute_loop-IsState 12 0 state s

pub ascon_permute8-IsState : (state : AsconState) → IsState state → IsState (ascon_permute8 state)
unfolding ascon_permute8
ascon_permute8-IsState state s = permute_loop-IsState 8 4 state s
