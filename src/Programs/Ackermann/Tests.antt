-- ===== src/Programs/Ackermann/Tests.antt =====
-- The call of `main`.
use zwasm.Base.{◌+◌, ◌-◌, ◌^◌, ◌≡◌, refl, arith, some}
use zwasm.Programs.Ackermann.{ackermann}
use zwasm.Programs.Ackermann.Depth.{ackermann-three}

row_run : ackermann 12 2 3 ≡ some 9
unfolding ackermann
row_run = refl

ackermann-three_example : ackermann 1023 3 7 ≡ some (2 ^ (7 + 3) - 3)
ackermann-three_example = ackermann-three 7 1023 (omega arith) (omega arith)
