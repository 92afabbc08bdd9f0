-- ===== src/Keccak/Permutation.antt =====
-- src/core/keccak.c: the permutation Keccak-f[1600] on 25 lanes of 64 bits.
use c0_pqlink_complete.Prelude.{
  not64, ℕ, ◌+◌, ◌-◌, ◌%◌, List, [], ◌∷◌, map, set, get_or, bit_and, bit_or, bit_xor, u64, ◌<<<◌,
  ◌>>>◌,
}
use c0_pqlink_complete.Prelude.Loops.{each}

abbrev pub rotate_left64 : ℕ → ℕ → ℕ
rotate_left64 value count = bit_or (u64 (value <<< count)) (value >>> (64 - count))

abbrev keccak_round_constants : List ℕ
keccak_round_constants =
    0x0000000000000001 ∷ 0x0000000000008082 ∷ 0x800000000000808a ∷ 0x8000000080008000
    ∷ 0x000000000000808b ∷ 0x0000000080000001 ∷ 0x8000000080008081 ∷ 0x8000000000008009
    ∷ 0x000000000000008a ∷ 0x0000000000000088 ∷ 0x0000000080008009 ∷ 0x000000008000000a
    ∷ 0x000000008000808b ∷ 0x800000000000008b ∷ 0x8000000000008089 ∷ 0x8000000000008003
    ∷ 0x8000000000008002 ∷ 0x8000000000000080 ∷ 0x000000000000800a ∷ 0x800000008000000a
    ∷ 0x8000000080008081 ∷ 0x8000000000008080 ∷ 0x0000000080000001 ∷ 0x8000000080008008 ∷ []

abbrev keccak_rotation : List ℕ
keccak_rotation =
    1 ∷ 3 ∷ 6 ∷ 10 ∷ 15 ∷ 21 ∷ 28 ∷ 36 ∷ 45 ∷ 55 ∷ 2 ∷ 14 ∷ 27 ∷ 41 ∷ 56 ∷ 8 ∷ 25 ∷ 43 ∷ 62 ∷ 18
    ∷ 39 ∷ 61 ∷ 20 ∷ 44 ∷ []

abbrev keccak_pi_lane : List ℕ
keccak_pi_lane =
    10 ∷ 7 ∷ 11 ∷ 17 ∷ 18 ∷ 3 ∷ 5 ∷ 16 ∷ 8 ∷ 21 ∷ 24 ∷ 4 ∷ 15 ∷ 23 ∷ 19 ∷ 13 ∷ 12 ∷ 2 ∷ 20 ∷ 14 ∷ 22
    ∷ 9 ∷ 6 ∷ 1 ∷ []

abbrev pub lane_at : List ℕ → ℕ → ℕ
lane_at state i = get_or state i 0

abbrev pub five : List ℕ
five = 0 ∷ 1 ∷ 2 ∷ 3 ∷ 4 ∷ []

abbrev pub rows : List ℕ
rows = 0 ∷ 5 ∷ 10 ∷ 15 ∷ 20 ∷ []

abbrev pub rounds : List ℕ
rounds =
    0 ∷ 1 ∷ 2 ∷ 3 ∷ 4 ∷ 5 ∷ 6 ∷ 7 ∷ 8 ∷ 9 ∷ 10 ∷ 11 ∷ 12 ∷ 13 ∷ 14 ∷ 15 ∷ 16 ∷ 17 ∷ 18 ∷ 19 ∷ 20
    ∷ 21 ∷ 22 ∷ 23 ∷ []

abbrev pub column_parity : List ℕ → ℕ → ℕ
column_parity state i =
    bit_xor
      (bit_xor
        (bit_xor (bit_xor (lane_at state i) (lane_at state (i + 5))) (lane_at state (i + 10)))
        (lane_at state (i + 15)))
      (lane_at state (i + 20))

-- `state[j + i] ^= theta`, down one column.
abbrev pub xor_column : ℕ → ℕ → List ℕ → List ℕ
xor_column i theta state =
    each rows state (λ lanes j. set lanes (j + i) (bit_xor (lane_at lanes (j + i)) theta))

unfoldable pub theta_step : List ℕ → List ℕ
theta_step state =
    let bc = map (column_parity state) five in
    each five state (λ lanes i.
      xor_column i (bit_xor (lane_at bc ((i + 4) % 5)) (rotate_left64 (lane_at bc ((i + 1) % 5)) 1))
        lanes)

-- One pass of the loop over the lanes, with `current` beside the state.
abbrev pub move_lane : List ℕ × ℕ → ℕ → List ℕ × ℕ
move_lane (state, current) i =
    let lane = get_or keccak_pi_lane i 0 in
    (set state lane (rotate_left64 current (get_or keccak_rotation i 0)), lane_at state lane)

unfoldable pub rho_pi_step : List ℕ → List ℕ
rho_pi_step state = (each rounds (state, lane_at state 1) move_lane).0

abbrev pub chi_row : List ℕ → ℕ → List ℕ
chi_row state j =
    let bc = map (λ i. lane_at state (j + i)) five in
    each five state (λ lanes i. set lanes (j + i) (
      bit_xor (lane_at bc i)
        (bit_and (not64 (lane_at bc ((i + 1) % 5))) (lane_at bc ((i + 2) % 5)))))

unfoldable pub chi_step : List ℕ → List ℕ
chi_step state = each rows state chi_row

unfoldable pub keccak_round : List ℕ → ℕ → List ℕ
keccak_round state round =
    let lanes = chi_step (rho_pi_step (theta_step state)) in
    set lanes 0 (bit_xor (lane_at lanes 0) (get_or keccak_round_constants round 0))

unfoldable pub keccak_f1600 : List ℕ → List ℕ
keccak_f1600 state = each rounds state keccak_round
