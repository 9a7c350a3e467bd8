-- ===== src/Programs/Sieve/Primes.antt =====
-- A pass of the sieve leaves 1 at the primes alone, and counts them.
use mathlib.Core.Path.{subst}
use native.Mathlib.Nat.{div-add-mod, mul-mod_right}
use zwasm.Base.{
  ℕ, zero, suc, ◌+◌, ◌-◌, ◌*◌, ◌/◌, ◌%◌, ◌≤◌, ◌<◌, ◌≡◌, ◌≢◌, ◌⊎◌, refl, sym, ap, ◌∙◌, arith, true,
  false, List, leb, ltb, ◌==◌, length, get_or, Bool-cases, inl, inr, leb→le, lt_of_leb,
}
use zwasm.Programs.Sieve.{fill, strike, scan, sieve}
use zwasm.Programs.Sieve.Loops.{length-fill, fill_ones, length-strike, strike_misses, strike_clears}

-- No number from 2 up to one below `i`, and below `k`, divides `k`.
abbrev NoDivisor : ℕ → ℕ → Type 0
NoDivisor i k = (d m : ℕ) → 2 ≤ d → d < i → d < k → k ≢ d * m

abbrev HasDivisor : ℕ → ℕ → Type 0
HasDivisor i k = (d : ℕ) × (m : ℕ) × (2 ≤ d) × (d < i) × (d < k) × (k ≡ d * m)

abbrev pub IsPrime : ℕ → Type 0
IsPrime p = (2 ≤ p) × NoDivisor p p

-- There are `c` primes below a number.
abbrev pub PrimesBelow : ℕ → ℕ → Type 0
PrimesBelow zero c = c ≡ 0
PrimesBelow (suc i) c =
    (IsPrime i × (b : ℕ) × (c ≡ suc b) × PrimesBelow i b) ⊎ ((IsPrime i → ⊥) × PrimesBelow i c)

pub PrimesBelow-unique : (i b c : ℕ) → PrimesBelow i b → PrimesBelow i c → b ≡ c
PrimesBelow-unique zero b c h k = h ∙ sym k
PrimesBelow-unique (suc i) b c (inl (p, b', e, h)) (inl (q, c', f, k)) =
    omega (arith, PrimesBelow-unique i b' c' h k)
PrimesBelow-unique (suc i) b c (inl (p, b', e, h)) (inr (q, k)) = absurd (q p)
PrimesBelow-unique (suc i) b c (inr (p, h)) (inl (q, c', f, k)) = absurd (p q)
PrimesBelow-unique (suc i) b c (inr (p, h)) (inr (q, k)) = PrimesBelow-unique i b c h k

-- What the flags say of a number when the multiples of those below `i` are cleared.
abbrev Marked : ℕ → List ℕ → ℕ → Type 0
Marked i flags k =
    ((get_or flags k 0 ≡ 1) × NoDivisor i k) ⊎ ((get_or flags k 0 ≡ 0) × HasDivisor i k)

abbrev Sifted : ℕ → ℕ → List ℕ → Type 0
Sifted top i flags = (k : ℕ) → 2 ≤ k → k ≤ top → Marked i flags k

doubled : (i q : ℕ) → i < i * q → i * q ≡ i + i + i * (q - 2)
doubled i zero lt = absurd (omega arith)
doubled i (suc zero) lt = absurd (omega arith)
doubled i (suc (suc t)) lt = grind arith

from_two : (i t : ℕ) → i + i + i * t ≡ i * (t + 2)
from_two i t = grind arith

-- A multiple of `i` above it is one that the loop over its multiples comes to.
data Place (i k : ℕ) : Type 0 where
  at : (t m : ℕ) → i < k → k ≡ i + i + i * t → k ≡ i * m → Place i k
  off : ((t : ℕ) → k ≢ i + i + i * t) → ((m : ℕ) → i < k → k ≢ i * m) → Place i k

place : (i k : ℕ) → 2 ≤ i → Place i k
place i k le = elim (Bool-cases (k % i == 0)) [
  | inl divides ↦
      let whole : i * (k / i) ≡ k = ground (arith, div-add-mod k i) in
      elim (Bool-cases (ltb i k)) [
        | inl above ↦
            let lt : i < i * (k / i) = ground (arith, whole) in
            at (k / i - 2) (k / i) (ground arith) (sym whole ∙ doubled i (k / i) lt) (sym whole)
        | inr not_above ↦ off (λ t e. ground arith) (λ m lt e. ground arith)
      ]
  | inr left ↦
      off (λ t e. ground (arith, ap (λ (x : ℕ). x % i) (e ∙ from_two i t), mul-mod_right i (t + 2)))
        (λ m lt e. ground (arith, ap (λ (x : ℕ). x % i) e, mul-mod_right i m))
]

no_more : (i k : ℕ) → NoDivisor i k → ((m : ℕ) → i < k → k ≢ i * m) → NoDivisor (i + 1) k
no_more i k none here d m two lt below e = elim (Bool-cases (d == i)) [
  | inl same ↦ here m (ground arith) (subst (λ (x : ℕ). k ≡ x * m) (ground arith) e)
  | inr other ↦ none d m two (ground arith) below e
]

weaken : (i k : ℕ) → HasDivisor i k → HasDivisor (i + 1) k
weaken i k (d, m, two, lt, below, e) = (d, m, two, omega arith, below, e)

counted : (i c : ℕ) → IsPrime i → PrimesBelow i c → PrimesBelow (i + 1) (c + 1)
counted i c p h =
    let step : PrimesBelow (suc i) (suc c) = inl (p, c, refl, h) in
    let place : suc i ≡ i + 1 = omega arith in
    let number : suc c ≡ c + 1 = omega arith in
    subst (λ (x : ℕ). PrimesBelow x (c + 1)) place
      (subst (λ (b : ℕ). PrimesBelow (suc i) b) number step)

passed : (i c : ℕ) → (IsPrime i → ⊥) → PrimesBelow i c → PrimesBelow (i + 1) c
passed i c p h =
    let step : PrimesBelow (suc i) c = inr (p, h) in
    let place : suc i ≡ i + 1 = omega arith in subst (λ (x : ℕ). PrimesBelow x c) place step

module _ (top : ℕ) where
  sift_struck :
      (i : ℕ) (flags : List ℕ)
      → top < length flags
      → 2 ≤ i
      → Sifted top i flags
      → Sifted top (i + 1) (strike top i (top + 1) (i + i) flags)
  sift_struck i flags room two s k le inside = elim (place i k two) [
    | at t m lt e f ↦ inr (
      strike_clears top i (top + 1) (i + i) k t flags room (omega arith) (omega arith) inside e,
      (i, m, two, omega arith, lt, f),
    )
    | off miss here ↦
        let same : get_or (strike top i (top + 1) (i + i) flags) k 0 ≡ get_or flags k 0 =
          strike_misses top i (top + 1) (i + i) k flags room miss in
        elim (s k le inside) [
          | inl (one, none) ↦ inl (same ∙ one, no_more i k none here)
          | inr (cleared, some_divisor) ↦ inr (same ∙ cleared, weaken i k some_divisor)
        ]
  ]

  -- A number that is cleared has its multiples cleared already.
  sift_skipped :
      (i : ℕ) (flags : List ℕ) → HasDivisor i i → Sifted top i flags → Sifted top (i + 1) flags
  sift_skipped i flags (d, n, two, lt, below, f) s k le inside = elim (s k le inside) [
    | inl (one, none) ↦ inl (
      one,
      no_more i k none λ m lt' e.
          none d (n * m) two lt (omega arith) (e ∙ ap (λ (x : ℕ). x * m) f ∙ grind arith),
    )
    | inr (cleared, some_divisor) ↦ inr (cleared, weaken i k some_divisor)
  ]

  scan_sound :
      (fuel i count : ℕ) (flags : List ℕ)
      → top < length flags
      → 2 ≤ i
      → i ≤ top + 1
      → top < i + fuel
      → Sifted top i flags
      → PrimesBelow i count
      → Sifted top (top + 1) (scan top fuel i count flags).1
        × PrimesBelow (top + 1) (scan top fuel i count flags).0
  unfolding scan
  scan_sound zero i count flags room two le enough s c = (
    subst (λ (x : ℕ). Sifted top x flags) (omega arith) s,
    subst (λ (x : ℕ). PrimesBelow x count) (omega arith) c,
  )
  scan_sound (suc fuel) i count flags room two le enough s c = elim (Bool-cases (leb i top)) [
    | inl more ↦
        let inside : i ≤ top = leb→le i top more in
        elim (s i two inside) [
          | inl (one, none) ↦
              let set : (get_or flags i 0 == 0) ≡ false = ground arith in
              rw (more, set)
                (scan_sound fuel (i + 1) (count + 1) (strike top i (top + 1) (i + i) flags)
                  (omega (arith, length-strike top i (top + 1) (i + i) flags)) (omega arith)
                  (omega arith) (omega arith) (sift_struck i flags room two s)
                  (counted i count (two, none) c))
          | inr (cleared, (d, m, two_d, lt, below, e)) ↦
              let unset : (get_or flags i 0 == 0) ≡ true = ground arith in
              rw (more, unset)
                (scan_sound fuel (i + 1) count flags room (omega arith) (omega arith) (omega arith)
                  (sift_skipped i flags (d, m, two_d, lt, below, e) s)
                  (passed i count (λ (t, none). none d m two_d lt below e) c))
        ]
    | inr done ↦
        let last : i ≡ top + 1 = omega (arith, lt_of_leb i top done) in
        rw done (
          subst (λ (x : ℕ). Sifted top x flags) last s,
          subst (λ (x : ℕ). PrimesBelow x count) last c,
        )
  ]

  pub sieve_sound :
      (flags : List ℕ)
      → top < length flags
      → 1 ≤ top
      → Sifted top (top + 1) (sieve top flags).1 × PrimesBelow (top + 1) (sieve top flags).0
  unfolding sieve
  sieve_sound flags room pos =
      let filled : List ℕ = fill top (top + 1) 2 flags in
      scan_sound (top + 1) 2 0 filled (omega (arith, length-fill top (top + 1) 2 flags))
        (omega arith) (omega arith) (omega arith)
        (λ k le inside. inl (
          fill_ones top (top + 1) 2 k flags room le inside (omega arith),
          λ d m two lt below e. omega arith,
        ))
        (inr (λ (two, n). omega arith, inr (λ (two, n). omega arith, refl)))
