-- ===== src/Programs/Sieve/Counts.antt =====
-- What the program as a whole computes: its flags, and its sum.
use zwasm.Base.{
  ℕ, zero, suc, ◌+◌, ◌*◌, ◌%◌, ◌^◌, ◌≤◌, ◌<◌, ◌≡◌, ◌↔◌, refl, ap, ◌∙◌, arith, List, leb, ◌==◌,
  length, get_or, Bool-cases, inl, inr,
}
use zwasm.Programs.Sieve.{fill, strike, scan, sieve, passes}
use zwasm.Programs.Sieve.Loops.{length-fill, length-strike}
use zwasm.Programs.Sieve.Primes.{IsPrime, PrimesBelow, PrimesBelow-unique, sieve_sound}

module _ (top : ℕ) where
  length-scan :
      (fuel i count : ℕ) (flags : List ℕ) → length (scan top fuel i count flags).1 ≡ length flags
  unfolding scan
  length-scan zero i count flags = refl
  length-scan (suc fuel) i count flags = elim (Bool-cases (leb i top)) [
    | inl more ↦ elim (Bool-cases (get_or flags i 0 == 0)) [
      | inl unset ↦ rw (more, unset) (length-scan fuel (i + 1) count flags)
      | inr set ↦
          rw (more, set)
            (length-scan fuel (i + 1) (count + 1) (strike top i (top + 1) (i + i) flags)
              ∙ length-strike top i (top + 1) (i + i) flags)
    ]
    | inr done ↦ rw done refl
  ]

  length-sieve : (flags : List ℕ) → length (sieve top flags).1 ≡ length flags
  unfolding sieve
  length-sieve flags =
      length-scan (top + 1) 2 0 (fill top (top + 1) 2 flags) ∙ length-fill top (top + 1) 2 flags

  reduced : (res c p : ℕ) → ((res + c) % 2 ^ 32 + p) % 2 ^ 32 ≡ (res + (c + p)) % 2 ^ 32
  reduced res c p = omega arith

  once_more : (n c : ℕ) → c + n * c ≡ suc n * c
  once_more n c = grind arith

  passes_from :
      (n res c : ℕ) (flags : List ℕ)
      → top < length flags
      → 1 ≤ top
      → res < 2 ^ 32
      → PrimesBelow (top + 1) c
      → (passes top n res flags).0 ≡ (res + n * c) % 2 ^ 32
  unfolding passes
  passes_from zero res c flags room pos lt h = omega arith
  passes_from (suc n) res c flags room pos lt h =
      let count : ℕ = (sieve top flags).0 in
      let flags' : List ℕ = (sieve top flags).1 in
      let same : count ≡ c =
        PrimesBelow-unique (top + 1) count c (sieve_sound top flags room pos).1 h in
      passes_from n ((res + count) % 2 ^ 32) c flags' (omega (arith, length-sieve flags)) pos
        (omega arith) h
      ∙ ap (λ (x : ℕ). ((res + x) % 2 ^ 32 + n * c) % 2 ^ 32) same
      ∙ reduced res c (n * c)
      ∙ ap (λ (x : ℕ). (res + x) % 2 ^ 32) (once_more n c)

-- Behind a pass, whatever the flags were before, the flag of a number from 2 up to the bound is 1
-- exactly when the number is prime. The array has a place for the bound, which is not 0.
pub sieve-IsPrime :
    (top k : ℕ) (flags : List ℕ)
    → top < length flags
    → 2 ≤ k
    → k ≤ top
    → (get_or (sieve top flags).1 k 0 ≡ 1) ↔ IsPrime k
sieve-IsPrime top k flags room le inside =
    elim ((sieve_sound top flags room (omega arith)).0 k le inside) [
      | inl (one, none) ↦
          (λ _. (le, λ d m two lt below e. none d m two (omega arith) below e), λ _. one)
      | inr (cleared, (d, m, two, lt, below, e)) ↦
          (λ one. absurd (omega arith), λ (_, none). absurd (none d m two below below e))
    ]

-- After any number of passes the sum is this number times the number of primes up to the bound,
-- modulo 2 ^ 32. The array has a place for the bound, which is not 0.
pub passes-PrimesBelow :
    (top n c : ℕ) (flags : List ℕ)
    → top < length flags
    → 1 ≤ top
    → PrimesBelow (top + 1) c
    → (passes top n 0 flags).0 ≡ n * c % 2 ^ 32
passes-PrimesBelow top n c flags room pos h =
    passes_from top n 0 c flags room pos (omega arith) h ∙ omega arith
