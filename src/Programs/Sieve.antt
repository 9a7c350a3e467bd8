-- ===== src/Programs/Sieve.antt =====
-- bench/shootout-src/sieve.c: the sieve of Eratosthenes up to `top`, which is 8192 there, and the loop
-- that repeats it. An `unsigned long` has 32 bits.
pub mod Loops
pub mod Primes
pub mod Counts
pub mod Tests
use zwasm.Base.{ℕ, zero, suc, ◌+◌, ◌%◌, ◌^◌, Bool, List, leb, ◌==◌, if◌then◌else◌, get_or, set}

-- `for (i = 2; i <= top; i++) flags[i] = 1;`, from one place on. As much fuel as places, and one more,
-- is enough for each loop.
unfoldable pub fill : ℕ → ℕ → ℕ → List ℕ → List ℕ
fill top zero i flags = flags
fill top (suc fuel) i flags =
    let rest = fill top fuel (i + 1) (set flags i 1) in if leb i top then rest else flags

-- `for (k = i + i; k <= top; k += i) flags[k] = 0;`
unfoldable pub strike : ℕ → ℕ → ℕ → ℕ → List ℕ → List ℕ
strike top i zero k flags = flags
strike top i (suc fuel) k flags =
    let rest = strike top i fuel (k + i) (set flags k 0) in if leb k top then rest else flags

-- The second loop over `i`, with its count.
unfoldable pub scan : ℕ → ℕ → ℕ → ℕ → List ℕ → ℕ × List ℕ
unfolding strike
scan top zero i count flags = (count, flags)
scan top (suc fuel) i count flags =
    let struck = scan top fuel (i + 1) (count + 1) (strike top i (top + 1) (i + i) flags) in
    let skipped = scan top fuel (i + 1) count flags in
    if leb i top then (if get_or flags i 0 == 0 then skipped else struck) else (count, flags)

-- One pass.
unfoldable pub sieve : ℕ → List ℕ → ℕ × List ℕ
unfolding fill scan
sieve top flags = scan top (top + 1) 2 0 (fill top (top + 1) 2 flags)

-- `while (n--)`, with the sum in `res`.
unfoldable pub passes : ℕ → ℕ → ℕ → List ℕ → ℕ × List ℕ
unfolding sieve
passes top zero res flags = (res, flags)
passes top (suc n) res flags =
    let (count, flags') = sieve top flags in passes top n ((res + count) % 2 ^ 32) flags'
