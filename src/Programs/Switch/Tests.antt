-- ===== src/Programs/Switch/Tests.antt =====
-- Some cases, and the bounds on a short array.
use zwasm.Base.{ℕ, ◌≡◌, refl, arith, some, get_elem?}
use zwasm.Programs.Switch.{mask_in, switch_step, initial, run}
use zwasm.Programs.Switch.Bounds.{Fits, run-initial}

switch_step_last : switch_step 4095 ≡ 703
unfolding switch_step mask_in
switch_step_last = refl

switch_step_beyond : switch_step 4096 ≡ 4096
unfolding switch_step mask_in
switch_step_beyond = refl

run-initial_example : (v : ℕ) × (get_elem? (run 2 (initial 3 0)) 1 ≡ some v) × Fits 1 v
run-initial_example = run-initial 2 3 1 (omega arith)
