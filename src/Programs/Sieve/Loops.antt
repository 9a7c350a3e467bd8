-- ===== src/Programs/Sieve/Loops.antt =====
-- What the inner loops write: the first sets every place, the second clears the multiples.
use zwasm.Base.{
  ℕ, zero, suc, ◌+◌, ◌*◌, ◌≤◌, ◌<◌, ◌≡◌, ◌≢◌, refl, sym, ap, ◌∙◌, arith, true, false, List, leb,
  ◌==◌, length, get_or, set, Bool-cases, inl, inr, leb→le,
}
use zwasm.Base.Slices.{length-set, get_or-set}
use zwasm.Programs.Sieve.{fill, strike}

set_here : (flags : List ℕ) (k v : ℕ) → k < length flags → get_or (set flags k v) k 0 ≡ v
set_here flags k v lt =
    let same : (k == k) ≡ true = ground arith in rw (get_or-set flags k k v 0 lt, same) refl

set_there :
    (flags : List ℕ) (i k v : ℕ)
    → i < length flags
    → i ≢ k
    → get_or (set flags i v) k 0 ≡ get_or flags k 0
set_there flags i k v lt ne =
    let other : (i == k) ≡ false = ground arith in rw (get_or-set flags i k v 0 lt, other) refl

module _ (top : ℕ) where
  pub length-fill : (fuel i : ℕ) (flags : List ℕ) → length (fill top fuel i flags) ≡ length flags
  unfolding fill
  length-fill zero i flags = refl
  length-fill (suc fuel) i flags = elim (Bool-cases (leb i top)) [
    | inl more ↦ rw more (length-fill fuel (i + 1) (set flags i 1) ∙ length-set flags i 1)
    | inr done ↦ rw done refl
  ]

  fill_before :
      (fuel i k : ℕ) (flags : List ℕ)
      → top < length flags
      → k < i
      → get_or (fill top fuel i flags) k 0 ≡ get_or flags k 0
  unfolding fill
  fill_before zero i k flags room lt = refl
  fill_before (suc fuel) i k flags room lt = elim (Bool-cases (leb i top)) [
    | inl more ↦
        let le : i ≤ top = leb→le i top more in
        rw more (
          fill_before fuel (i + 1) k (set flags i 1) (omega (arith, length-set flags i 1))
            (omega arith)
          ∙ set_there flags i k 1 (omega arith) (λ e. omega arith))
    | inr done ↦ rw done refl
  ]

  -- Behind the first loop every place from its start on is 1.
  pub fill_ones :
      (fuel i k : ℕ) (flags : List ℕ)
      → top < length flags
      → i ≤ k
      → k ≤ top
      → top < i + fuel
      → get_or (fill top fuel i flags) k 0 ≡ 1
  unfolding fill
  fill_ones zero i k flags room le inside enough = absurd (omega arith)
  fill_ones (suc fuel) i k flags room le inside enough =
      let more : leb i top ≡ true = ground arith in
      rw more (elim (Bool-cases (i == k)) [
        | inl here ↦
            let e : i ≡ k = ground arith in
            fill_before fuel (i + 1) k (set flags i 1) (omega (arith, length-set flags i 1))
              (omega arith)
            ∙ ap (λ (j : ℕ). get_or (set flags i 1) j 0) (sym e)
            ∙ set_here flags i 1 (omega arith)
        | inr later ↦
            let ne : i < k = ground arith in
            fill_ones fuel (i + 1) k (set flags i 1) (omega (arith, length-set flags i 1))
              (omega arith) inside (omega arith)
      ])

module _ (top i : ℕ) where
  pub length-strike :
      (fuel k : ℕ) (flags : List ℕ) → length (strike top i fuel k flags) ≡ length flags
  unfolding strike
  length-strike zero k flags = refl
  length-strike (suc fuel) k flags = elim (Bool-cases (leb k top)) [
    | inl more ↦ rw more (length-strike fuel (k + i) (set flags k 0) ∙ length-set flags k 0)
    | inr done ↦ rw done refl
  ]

  -- A place that the second loop does not come to.
  pub strike_misses :
      (fuel k j : ℕ) (flags : List ℕ)
      → top < length flags
      → ((t : ℕ) → j ≢ k + i * t)
      → get_or (strike top i fuel k flags) j 0 ≡ get_or flags j 0
  unfolding strike
  strike_misses zero k j flags room miss = refl
  strike_misses (suc fuel) k j flags room miss = elim (Bool-cases (leb k top)) [
    | inl more ↦
        let le : k ≤ top = leb→le k top more in
        rw more (
          strike_misses fuel (k + i) j (set flags k 0) (omega (arith, length-set flags k 0))
            (λ t e. miss (suc t) (e ∙ next_multiple k t))
          ∙ set_there flags k j 0 (omega arith) (λ e. miss 0 (omega arith)))
    | inr done ↦ rw done refl
  ]
    where
      next_multiple : (k t : ℕ) → k + i + i * t ≡ k + i * suc t
      next_multiple k t = grind arith

  -- A place that it comes to is 0, with fuel up to the end.
  pub strike_clears :
      (fuel k j t : ℕ) (flags : List ℕ)
      → top < length flags
      → 0 < i
      → top < k + fuel
      → j ≤ top
      → j ≡ k + i * t
      → get_or (strike top i fuel k flags) j 0 ≡ 0
  unfolding strike
  strike_clears zero k j t flags room pos enough inside e = absurd (omega arith)
  strike_clears (suc fuel) k j zero flags room pos enough inside e =
      let here : j ≡ k = omega arith in
      let more : leb k top ≡ true = ground arith in
      rw more (
        strike_misses fuel (k + i) j (set flags k 0) (omega (arith, length-set flags k 0))
          (λ u f. omega arith)
        ∙ ap (λ (x : ℕ). get_or (set flags k 0) x 0) here
        ∙ set_here flags k 0 (omega arith))
  strike_clears (suc fuel) k j (suc t) flags room pos enough inside e =
      let more : leb k top ≡ true = ground arith in
      rw more (
        strike_clears fuel (k + i) j t (set flags k 0) (omega (arith, length-set flags k 0)) pos
          (omega arith) inside (e ∙ multiple k t))
    where
      multiple : (k t : ℕ) → k + i * suc t ≡ k + i + i * t
      multiple k t = grind arith
