-- ===== src/Programs/Keccak/Core.antt =====
-- bench/shootout-src/keccak.c: `keccak_core`, from the state and back to it, and the loop of `main`.
use zwasm.Base.{ℕ, zero, suc, List, [], ◌∷◌, get_or}
use zwasm.Programs.Keccak.Lanes.{Lanes}
use zwasm.Programs.Keccak.Rounds.First.{round_1, round_2}
use zwasm.Programs.Keccak.Rounds.Second.{round_3, round_4}
use zwasm.Programs.Keccak.Rounds.Third.{round_5, round_6}
use zwasm.Programs.Keccak.Rounds.Fourth.{round_7, round_8}
use zwasm.Programs.Keccak.Rounds.Fifth.{round_9, round_10}
use zwasm.Programs.Keccak.Rounds.Sixth.{round_11, round_12}
use zwasm.Programs.Keccak.Rounds.Seventh.{round_13, round_14}
use zwasm.Programs.Keccak.Rounds.Eighth.{round_15, round_16}
use zwasm.Programs.Keccak.Rounds.Ninth.{round_17, round_18}
use zwasm.Programs.Keccak.Rounds.Tenth.{round_19, round_20}
use zwasm.Programs.Keccak.Rounds.Eleventh.{round_21, round_22}
use zwasm.Programs.Keccak.Rounds.Twelfth.{round_23, round_24}

-- The assignments `Aba = state[0];` and so on; a state has 25 elements.
unfoldable pub load : List ℕ → Lanes
load state = record {
  ba = get_or state 0 0;
  be = get_or state 1 0;
  bi = get_or state 2 0;
  bo = get_or state 3 0;
  bu = get_or state 4 0;
  ga = get_or state 5 0;
  ge = get_or state 6 0;
  gi = get_or state 7 0;
  go = get_or state 8 0;
  gu = get_or state 9 0;
  ka = get_or state 10 0;
  ke = get_or state 11 0;
  ki = get_or state 12 0;
  ko = get_or state 13 0;
  ku = get_or state 14 0;
  ma = get_or state 15 0;
  me = get_or state 16 0;
  mi = get_or state 17 0;
  mo = get_or state 18 0;
  mu = get_or state 19 0;
  sa = get_or state 20 0;
  se = get_or state 21 0;
  si = get_or state 22 0;
  so = get_or state 23 0;
  su = get_or state 24 0;
}

-- The assignments `state[0] = Aba;` and so on.
unfoldable pub store : Lanes → List ℕ
store s =
    s.ba ∷ s.be ∷ s.bi ∷ s.bo ∷ s.bu ∷ s.ga ∷ s.ge ∷ s.gi ∷ s.go ∷ s.gu ∷ s.ka ∷ s.ke ∷ s.ki ∷ s.ko
    ∷ s.ku ∷ s.ma ∷ s.me ∷ s.mi ∷ s.mo ∷ s.mu ∷ s.sa ∷ s.se ∷ s.si ∷ s.so ∷ s.su ∷ []

abbrev pub in_order : List (Lanes → Lanes)
in_order =
    round_1 ∷ round_2 ∷ round_3 ∷ round_4 ∷ round_5 ∷ round_6 ∷ round_7 ∷ round_8 ∷ round_9
    ∷ round_10 ∷ round_11 ∷ round_12 ∷ round_13 ∷ round_14 ∷ round_15 ∷ round_16 ∷ round_17
    ∷ round_18 ∷ round_19 ∷ round_20 ∷ round_21 ∷ round_22 ∷ round_23 ∷ round_24 ∷ []

abbrev pub run_rounds : List (Lanes → Lanes) → Lanes → Lanes
run_rounds [] s = s
run_rounds (f ∷ fs) s = run_rounds fs (f s)

unfoldable pub keccak_core : List ℕ → List ℕ
unfolding load store
keccak_core state = store (run_rounds in_order (load state))

-- The loop of `main`, which runs ITERATIONS times.
unfoldable pub iterate : ℕ → List ℕ → List ℕ
unfolding keccak_core
iterate zero state = state
iterate (suc n) state = iterate n (keccak_core state)
