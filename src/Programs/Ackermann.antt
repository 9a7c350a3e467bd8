-- ===== src/Programs/Ackermann.antt =====
-- bench/shootout-src/ackermann.c on numbers that are not negative. The fuel is the depth of the calls;
-- `none` is more depth than it allows, or an int that overflows.
pub mod Depth
pub mod Tests
use zwasm.Base.{ℕ, zero, suc, ◌+◌, ◌^◌, Option, none, some, ltb, if◌then◌else◌}

abbrev pub continue : Option ℕ → (ℕ → Option ℕ) → Option ℕ
continue none f = none
continue (some r) f = f r

unfoldable pub ackermann : ℕ → ℕ → ℕ → Option ℕ
ackermann zero m n = none
ackermann (suc fuel) zero n = if ltb (n + 1) (2 ^ 31) then some (n + 1) else none
ackermann (suc fuel) (suc m) zero = ackermann fuel m 1
ackermann (suc fuel) (suc m) (suc n) = continue (ackermann fuel (suc m) n) (ackermann fuel m)
