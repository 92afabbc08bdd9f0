-- ===== src/Ascon/Permutation.antt =====
-- The permutation of src/core/ascon_aead128.c.
pub mod Bounds
use c0_pqlink_complete.Prelude.{not64, ℕ, zero, suc, ◌+◌, ◌-◌, bit_and, bit_or, bit_xor, u8, ◌<<<◌}
use c0_pqlink_complete.Ascon.Lanes.{rotate_right64}

pub record AsconState : Type 0 where
  pub x0 : ℕ
  pub x1 : ℕ
  pub x2 : ℕ
  pub x3 : ℕ
  pub x4 : ℕ

-- The first part of a round: the constant and the nonlinear layer.
pub substitute : AsconState → ℕ → AsconState
substitute state constant =
    let s2 = bit_xor state.x2 constant in
    let x0 = bit_xor state.x0 state.x4 in
    let x4 = bit_xor state.x4 state.x3 in
    let x2 = bit_xor s2 state.x1 in
    let t0 = bit_xor x0 (bit_and (not64 state.x1) x2) in
    let t1 = bit_xor state.x1 (bit_and (not64 x2) state.x3) in
    let t2 = bit_xor x2 (bit_and (not64 state.x3) x4) in
    let t3 = bit_xor state.x3 (bit_and (not64 x4) x0) in
    let t4 = bit_xor x4 (bit_and (not64 x0) state.x1) in
    record { x0 = bit_xor t0 t4; x1 = bit_xor t1 t0; x2 = not64 t2; x3 = bit_xor t3 t2; x4 = t4 }

-- One lane of the linear layer.
pub diffuse : ℕ → ℕ → ℕ → ℕ
diffuse t left right = bit_xor (bit_xor t (rotate_right64 t left)) (rotate_right64 t right)

unfoldable pub ascon_round : AsconState → ℕ → AsconState
unfolding substitute diffuse rotate_right64
ascon_round state constant =
    let t = substitute state constant in
    record {
      x0 = diffuse t.x0 19 28;
      x1 = diffuse t.x1 61 39;
      x2 = diffuse t.x2 1 6;
      x3 = diffuse t.x3 10 17;
      x4 = diffuse t.x4 7 41;
    }

-- `left` rounds, from round number `round` on.
pub permute_loop : ℕ → ℕ → AsconState → AsconState
permute_loop zero round state = state
permute_loop (suc left) round state =
    permute_loop left (round + 1) (ascon_round state (u8 (bit_or ((15 - round) <<< 4) round)))

unfoldable pub ascon_permute12 : AsconState → AsconState
unfolding permute_loop ascon_round
ascon_permute12 state = permute_loop 12 0 state

-- Its round `i` is round `i + 4` of the twelve.
unfoldable pub ascon_permute8 : AsconState → AsconState
unfolding permute_loop ascon_round
ascon_permute8 state = permute_loop 8 4 state
