-- ===== src/Programs/Sieve/Tests.antt =====
-- A small sieve, and the theorems there.
use zwasm.Base.{ℕ, ◌*◌, ◌%◌, ◌^◌, ◌≡◌, ◌↔◌, refl, arith, List, replicate, get_or}
use zwasm.Programs.Sieve.{fill, strike, scan, sieve, passes}
use zwasm.Programs.Sieve.Primes.{IsPrime, PrimesBelow, sieve_sound}
use zwasm.Programs.Sieve.Counts.{sieve-IsPrime, passes-PrimesBelow}

abbrev flags : List ℕ
flags = replicate 31 0

-- There are ten primes up to 30.
sieve_run : (sieve 30 flags).0 ≡ 10
unfolding sieve fill scan strike
sieve_run = refl

sieve-IsPrime_example : (get_or (sieve 30 flags).1 29 0 ≡ 1) ↔ IsPrime 29
sieve-IsPrime_example = sieve-IsPrime 30 29 flags (omega arith) (omega arith) (omega arith)

thirty_counted : PrimesBelow 31 (sieve 30 flags).0
thirty_counted = (sieve_sound 30 flags (omega arith) (omega arith)).1

passes-PrimesBelow_example : (passes 30 3 0 flags).0 ≡ 3 * (sieve 30 flags).0 % 2 ^ 32
passes-PrimesBelow_example =
    passes-PrimesBelow 30 3 (sieve 30 flags).0 flags (omega arith) (omega arith) thirty_counted
