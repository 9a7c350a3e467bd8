-- ===== src/Programs/Keccak/Truncated.antt =====
-- What the cast in `ROTL64` does to the permutation: of the 25 lanes only the one that is not
-- rotated keeps its upper half, and it reaches two places.
use zwasm.Base.{
  ℕ, zero, suc, ◌+◌, ◌*◌, ◌%◌, ◌^◌, ◌<◌, ◌≡◌, refl, sym, arith, false, List, ◌==◌, set, All,
}
use zwasm.Base.Bits.{bit_and-lt_right, bit_xor-lt}
use mathlib.Core.Path.{subst}
use zwasm.Programs.Keccak.Lanes.{Lanes, rotl64, chi}
use zwasm.Programs.Keccak.Core.{load, store, keccak_core}
use zwasm.Programs.Keccak.Reference.{
  keccak_round, round_constant, keccak_from, offset, moved, mixed, turned,
}
use zwasm.Programs.Keccak.Equal.{keccak_core_lem}

abbrev pub IsShort : ℕ → Type 0
IsShort v = v < 2 ^ 32

rotl64-IsShort : (x n : ℕ) → IsShort (rotl64 x n)
unfolding rotl64
rotl64-IsShort x n = omega arith

turned-IsShort : (v n : ℕ) → (n == 0) ≡ false → IsShort (turned v n)
turned-IsShort v n h = rw h (rotl64-IsShort v n)

chi-IsShort : (a b c : ℕ) → IsShort a → IsShort c → IsShort (chi a b c)
unfolding chi
chi-IsShort a b c ha hc = bit_xor-lt 32 a _ ha (bit_and-lt_right (2 ^ 32) _ c hc)

-- A lane that is rotated, and comes to (x, y).
module _ (s : Lanes) where
  moved-IsShort : (x y : ℕ) → (offset ((x + 3 * y) % 5) x == 0) ≡ false → IsShort (moved s x y)
  unfolding moved
  moved-IsShort x y h = turned-IsShort _ (offset ((x + 3 * y) % 5) x) h

  mixed-IsShort :
      (x y : ℕ)
      → (offset ((x + 3 * y) % 5) x == 0) ≡ false
      → (offset (((x + 2) % 5 + 3 * y) % 5) ((x + 2) % 5) == 0) ≡ false
      → IsShort (mixed s x y)
  unfolding mixed
  mixed-IsShort x y h k = chi-IsShort _ _ _ (moved-IsShort x y h) (moved-IsShort ((x + 2) % 5) y k)

  round-IsShort : (constant : ℕ) → All IsShort (set (set (store (keccak_round constant s)) 0 0) 3 0)
  unfolding keccak_round store offset
  round-IsShort constant = (
    omega arith,
    (
      mixed-IsShort 1 0 refl refl,
      (
        mixed-IsShort 2 0 refl refl,
        (
          omega arith,
          (
            mixed-IsShort 4 0 refl refl,
            (
              mixed-IsShort 0 1 refl refl,
              (
                mixed-IsShort 1 1 refl refl,
                (
                  mixed-IsShort 2 1 refl refl,
                  (
                    mixed-IsShort 3 1 refl refl,
                    (
                      mixed-IsShort 4 1 refl refl,
                      (
                        mixed-IsShort 0 2 refl refl,
                        (
                          mixed-IsShort 1 2 refl refl,
                          (
                            mixed-IsShort 2 2 refl refl,
                            (
                              mixed-IsShort 3 2 refl refl,
                              (
                                mixed-IsShort 4 2 refl refl,
                                (
                                  mixed-IsShort 0 3 refl refl,
                                  (
                                    mixed-IsShort 1 3 refl refl,
                                    (
                                      mixed-IsShort 2 3 refl refl,
                                      (
                                        mixed-IsShort 3 3 refl refl,
                                        (
                                          mixed-IsShort 4 3 refl refl,
                                          (
                                            mixed-IsShort 0 4 refl refl,
                                            (
                                              mixed-IsShort 1 4 refl refl,
                                              (
                                                mixed-IsShort 2 4 refl refl,
                                                (
                                                  mixed-IsShort 3 4 refl refl,
                                                  (mixed-IsShort 4 4 refl refl, tt),
                                                ),
                                              ),
                                            ),
                                          ),
                                        ),
                                      ),
                                    ),
                                  ),
                                ),
                              ),
                            ),
                          ),
                        ),
                      ),
                    ),
                  ),
                ),
              ),
            ),
          ),
        ),
      ),
    ),
  )

-- Behind at least one round.
rounds-IsShort :
    (n i : ℕ) (s : Lanes) → All IsShort (set (set (store (keccak_from (suc n) i s)) 0 0) 3 0)
unfolding keccak_from
rounds-IsShort zero i s = round-IsShort s (round_constant i)
rounds-IsShort (suc n) i s = rounds-IsShort n (suc i) (keccak_round (round_constant i) s)

-- Behind `keccak_core` all lanes but those at places 0 and 3 are below 2 ^ 32, whatever the state.
pub keccak_core-IsShort : (state : List ℕ) → All IsShort (set (set (keccak_core state) 0 0) 3 0)
keccak_core-IsShort state =
    subst (λ out. All IsShort (set (set out 0 0) 3 0)) (sym (keccak_core_lem state))
      (rounds-IsShort 23 0 (load state))
