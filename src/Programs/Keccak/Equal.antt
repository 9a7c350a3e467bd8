-- ===== src/Programs/Keccak/Equal.antt =====
-- The statements of `keccak_core` against the description by coordinates: the twenty-four rounds as
-- they stand in the source are the rounds of the reference, with its constants and offsets.
use zwasm.Base.{ℕ, suc, ◌≡◌, refl, ap, ◌∙◌, List, [], ◌∷◌, length}
use zwasm.Programs.Keccak.Lanes.{Lanes}
use zwasm.Programs.Keccak.Rounds.First.{round_1, round_2}
use zwasm.Programs.Keccak.Rounds.Second.{round_3, round_4}
use zwasm.Programs.Keccak.Rounds.Third.{round_5, round_6}
use zwasm.Programs.Keccak.Rounds.Fourth.{round_7, round_8}
use zwasm.Programs.Keccak.Rounds.Fifth.{round_9, round_10}
use zwasm.Programs.Keccak.Rounds.Sixth.{round_11, round_12}
use zwasm.Programs.Keccak.Rounds.Seventh.{round_13, round_14}
use zwasm.Programs.Keccak.Rounds.Eighth.{round_15, round_16}
use zwasm.Programs.Keccak.Rounds.Ninth.{round_17, round_18}
use zwasm.Programs.Keccak.Rounds.Tenth.{round_19, round_20}
use zwasm.Programs.Keccak.Rounds.Eleventh.{round_21, round_22}
use zwasm.Programs.Keccak.Rounds.Twelfth.{round_23, round_24}
use zwasm.Programs.Keccak.Core.{load, store, in_order, run_rounds, keccak_core}
use zwasm.Programs.Keccak.Reference.{keccak_round, round_constant, keccak_from}

round_1_lem : (s : Lanes) → round_1 s ≡ keccak_round (round_constant 0) s
unfolding round_1 keccak_round round_constant
round_1_lem s = refl

round_2_lem : (s : Lanes) → round_2 s ≡ keccak_round (round_constant 1) s
unfolding round_2 keccak_round round_constant
round_2_lem s = refl

round_3_lem : (s : Lanes) → round_3 s ≡ keccak_round (round_constant 2) s
unfolding round_3 keccak_round round_constant
round_3_lem s = refl

round_4_lem : (s : Lanes) → round_4 s ≡ keccak_round (round_constant 3) s
unfolding round_4 keccak_round round_constant
round_4_lem s = refl

round_5_lem : (s : Lanes) → round_5 s ≡ keccak_round (round_constant 4) s
unfolding round_5 keccak_round round_constant
round_5_lem s = refl

round_6_lem : (s : Lanes) → round_6 s ≡ keccak_round (round_constant 5) s
unfolding round_6 keccak_round round_constant
round_6_lem s = refl

round_7_lem : (s : Lanes) → round_7 s ≡ keccak_round (round_constant 6) s
unfolding round_7 keccak_round round_constant
round_7_lem s = refl

round_8_lem : (s : Lanes) → round_8 s ≡ keccak_round (round_constant 7) s
unfolding round_8 keccak_round round_constant
round_8_lem s = refl

round_9_lem : (s : Lanes) → round_9 s ≡ keccak_round (round_constant 8) s
unfolding round_9 keccak_round round_constant
round_9_lem s = refl

round_10_lem : (s : Lanes) → round_10 s ≡ keccak_round (round_constant 9) s
unfolding round_10 keccak_round round_constant
round_10_lem s = refl

round_11_lem : (s : Lanes) → round_11 s ≡ keccak_round (round_constant 10) s
unfolding round_11 keccak_round round_constant
round_11_lem s = refl

round_12_lem : (s : Lanes) → round_12 s ≡ keccak_round (round_constant 11) s
unfolding round_12 keccak_round round_constant
round_12_lem s = refl

round_13_lem : (s : Lanes) → round_13 s ≡ keccak_round (round_constant 12) s
unfolding round_13 keccak_round round_constant
round_13_lem s = refl

round_14_lem : (s : Lanes) → round_14 s ≡ keccak_round (round_constant 13) s
unfolding round_14 keccak_round round_constant
round_14_lem s = refl

round_15_lem : (s : Lanes) → round_15 s ≡ keccak_round (round_constant 14) s
unfolding round_15 keccak_round round_constant
round_15_lem s = refl

round_16_lem : (s : Lanes) → round_16 s ≡ keccak_round (round_constant 15) s
unfolding round_16 keccak_round round_constant
round_16_lem s = refl

round_17_lem : (s : Lanes) → round_17 s ≡ keccak_round (round_constant 16) s
unfolding round_17 keccak_round round_constant
round_17_lem s = refl

round_18_lem : (s : Lanes) → round_18 s ≡ keccak_round (round_constant 17) s
unfolding round_18 keccak_round round_constant
round_18_lem s = refl

round_19_lem : (s : Lanes) → round_19 s ≡ keccak_round (round_constant 18) s
unfolding round_19 keccak_round round_constant
round_19_lem s = refl

round_20_lem : (s : Lanes) → round_20 s ≡ keccak_round (round_constant 19) s
unfolding round_20 keccak_round round_constant
round_20_lem s = refl

round_21_lem : (s : Lanes) → round_21 s ≡ keccak_round (round_constant 20) s
unfolding round_21 keccak_round round_constant
round_21_lem s = refl

round_22_lem : (s : Lanes) → round_22 s ≡ keccak_round (round_constant 21) s
unfolding round_22 keccak_round round_constant
round_22_lem s = refl

round_23_lem : (s : Lanes) → round_23 s ≡ keccak_round (round_constant 22) s
unfolding round_23 keccak_round round_constant
round_23_lem s = refl

round_24_lem : (s : Lanes) → round_24 s ≡ keccak_round (round_constant 23) s
unfolding round_24 keccak_round round_constant
round_24_lem s = refl

-- Each function of a list is the round of its place, from place `i` on.
abbrev Agree : ℕ → List (Lanes → Lanes) → Type 0
Agree i [] = Unit {0}
Agree i (f ∷ fs) = ((s : Lanes) → f s ≡ keccak_round (round_constant i) s) × Agree (suc i) fs

run_agreeing :
    (i : ℕ) (fs : List (Lanes → Lanes)) (s : Lanes)
    → Agree i fs
    → run_rounds fs s ≡ keccak_from (length fs) i s
unfolding keccak_from
run_agreeing i [] s h = refl
run_agreeing i (f ∷ fs) s (here, rest) =
    ap (run_rounds fs) (here s) ∙ run_agreeing (suc i) fs (keccak_round (round_constant i) s) rest

-- The source's core is twenty-four rounds of the reference, at every state.
pub keccak_core_lem : (state : List ℕ) → keccak_core state ≡ store (keccak_from 24 0 (load state))
unfolding keccak_core
keccak_core_lem state = ap store (
    run_agreeing 0 in_order (load state) (
      round_1_lem,
      (
        round_2_lem,
        (
          round_3_lem,
          (
            round_4_lem,
            (
              round_5_lem,
              (
                round_6_lem,
                (
                  round_7_lem,
                  (
                    round_8_lem,
                    (
                      round_9_lem,
                      (
                        round_10_lem,
                        (
                          round_11_lem,
                          (
                            round_12_lem,
                            (
                              round_13_lem,
                              (
                                round_14_lem,
                                (
                                  round_15_lem,
                                  (
                                    round_16_lem,
                                    (
                                      round_17_lem,
                                      (
                                        round_18_lem,
                                        (
                                          round_19_lem,
                                          (
                                            round_20_lem,
                                            (
                                              round_21_lem,
                                              (round_22_lem, (round_23_lem, (round_24_lem, tt))),
                                            ),
                                          ),
                                        ),
                                      ),
                                    ),
                                  ),
                                ),
                              ),
                            ),
                          ),
                        ),
                      ),
                    ),
                  ),
                ),
              ),
            ),
          ),
        ),
      ),
    ))
