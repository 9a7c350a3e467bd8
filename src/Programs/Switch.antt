-- ===== src/Programs/Switch.antt =====
-- bench/shootout-src/switch.c: a switch of 4096 cases in two loops. The cases stand in tables of
-- fifty, named for the first of them.
pub mod First
pub mod Second
pub mod Third
pub mod Fourth
pub mod Fifth
pub mod Sixth
pub mod Bounds
pub mod Tests
use zwasm.Base.{
  ℕ, zero, suc, ◌+◌, ◌-◌, Option, none, some, List, [], ◌∷◌, ◌++◌, map, get_elem?, bit_xor, ltb,
  if◌then◌else◌,
}
use zwasm.Programs.Switch.First.{
  cases_0, cases_50, cases_100, cases_150, cases_200, cases_250, cases_300, cases_350, cases_400,
  cases_450, cases_500, cases_550, cases_600, cases_650,
}
use zwasm.Programs.Switch.Second.{
  cases_700, cases_750, cases_800, cases_850, cases_900, cases_950, cases_1000, cases_1050,
  cases_1100, cases_1150, cases_1200, cases_1250, cases_1300, cases_1350,
}
use zwasm.Programs.Switch.Third.{
  cases_1400, cases_1450, cases_1500, cases_1550, cases_1600, cases_1650, cases_1700, cases_1750,
  cases_1800, cases_1850, cases_1900, cases_1950, cases_2000, cases_2050,
}
use zwasm.Programs.Switch.Fourth.{
  cases_2100, cases_2150, cases_2200, cases_2250, cases_2300, cases_2350, cases_2400, cases_2450,
  cases_2500, cases_2550, cases_2600, cases_2650, cases_2700, cases_2750,
}
use zwasm.Programs.Switch.Fifth.{
  cases_2800, cases_2850, cases_2900, cases_2950, cases_3000, cases_3050, cases_3100, cases_3150,
  cases_3200, cases_3250, cases_3300, cases_3350, cases_3400, cases_3450,
}
use zwasm.Programs.Switch.Sixth.{
  cases_3500, cases_3550, cases_3600, cases_3650, cases_3700, cases_3750, cases_3800, cases_3850,
  cases_3900, cases_3950, cases_4000, cases_4050,
}

-- The tables in order.
abbrev pub tables : List (List ℕ)
tables =
    cases_0 ∷ cases_50 ∷ cases_100 ∷ cases_150 ∷ cases_200 ∷ cases_250 ∷ cases_300 ∷ cases_350
    ∷ cases_400 ∷ cases_450 ∷ cases_500 ∷ cases_550 ∷ cases_600 ∷ cases_650 ∷ cases_700 ∷ cases_750
    ∷ cases_800 ∷ cases_850 ∷ cases_900 ∷ cases_950 ∷ cases_1000 ∷ cases_1050 ∷ cases_1100
    ∷ cases_1150 ∷ cases_1200 ∷ cases_1250 ∷ cases_1300 ∷ cases_1350 ∷ cases_1400 ∷ cases_1450
    ∷ cases_1500 ∷ cases_1550 ∷ cases_1600 ∷ cases_1650 ∷ cases_1700 ∷ cases_1750 ∷ cases_1800
    ∷ cases_1850 ∷ cases_1900 ∷ cases_1950 ∷ cases_2000 ∷ cases_2050 ∷ cases_2100 ∷ cases_2150
    ∷ cases_2200 ∷ cases_2250 ∷ cases_2300 ∷ cases_2350 ∷ cases_2400 ∷ cases_2450 ∷ cases_2500
    ∷ cases_2550 ∷ cases_2600 ∷ cases_2650 ∷ cases_2700 ∷ cases_2750 ∷ cases_2800 ∷ cases_2850
    ∷ cases_2900 ∷ cases_2950 ∷ cases_3000 ∷ cases_3050 ∷ cases_3100 ∷ cases_3150 ∷ cases_3200
    ∷ cases_3250 ∷ cases_3300 ∷ cases_3350 ∷ cases_3400 ∷ cases_3450 ∷ cases_3500 ∷ cases_3550
    ∷ cases_3600 ∷ cases_3650 ∷ cases_3700 ∷ cases_3750 ∷ cases_3800 ∷ cases_3850 ∷ cases_3900
    ∷ cases_3950 ∷ cases_4000 ∷ cases_4050 ∷ []

-- The mask of a case, if there is one: each table but the last has fifty.
unfoldable pub mask_in : List (List ℕ) → ℕ → Option ℕ
mask_in [] x = none
mask_in (t ∷ ts) x = let later = mask_in ts (x - 50) in if ltb x 50 then get_elem? t x else later

-- The switch on one element; there is no default.
unfoldable pub switch_step : ℕ → ℕ
switch_step x = elim (mask_in tables x) [ none ↦ x | some mask ↦ bit_xor x mask ]

-- `x[i] = i` for `n` elements from `i` on.
unfoldable pub initial : ℕ → ℕ → List ℕ
initial zero i = []
initial (suc n) i = i ∷ initial n (i + 1)

-- The outer loop, `iterations` times over all elements.
unfoldable pub run : ℕ → List ℕ → List ℕ
run zero x = x
run (suc iterations) x = run iterations (map switch_step x)
