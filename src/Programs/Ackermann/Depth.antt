-- ===== src/Programs/Ackermann/Depth.antt =====
-- Results of `ackermann`, and the depth of calls that is enough for them.
use zwasm.Base.{
  ℕ, zero, suc, ◌+◌, ◌-◌, ◌*◌, ◌^◌, ◌≤◌, ◌<◌, ◌≡◌, refl, sym, ap, ◌∙◌, arith, some, true, ltb,
}
use native.Mathlib.Nat.{pow-suc, one-le-pow}
use zwasm.Base.Bits.{pow_add}
use zwasm.Programs.Ackermann.{continue, ackermann}

row_0 : (fuel n : ℕ) → 1 ≤ fuel → n + 1 < 2 ^ 31 → ackermann fuel 0 n ≡ some (n + 1)
unfolding ackermann
row_0 zero n enough fits = absurd (omega arith)
row_0 (suc fuel) n enough fits =
    let small : ltb (n + 1) (2 ^ 31) ≡ true = ground arith in rw small refl

row_1 : (n fuel : ℕ) → n + 2 ≤ fuel → n + 2 < 2 ^ 31 → ackermann fuel 1 n ≡ some (n + 2)
unfolding ackermann
row_1 n zero enough fits = absurd (omega arith)
row_1 zero (suc fuel) enough fits = row_0 fuel 1 (omega arith) (omega arith)
row_1 (suc n) (suc fuel) enough fits =
    ap (λ r. continue r (ackermann fuel 0)) (row_1 n fuel (omega arith) (omega arith))
    ∙ row_0 fuel (n + 2) (omega arith) (omega arith)
    ∙ ap (λ (x : ℕ). some x) (omega arith)

row_2 : (n fuel : ℕ) → 2 * n + 4 ≤ fuel → 2 * n + 3 < 2 ^ 31 → ackermann fuel 2 n ≡ some (2 * n + 3)
unfolding ackermann
row_2 n zero enough fits = absurd (omega arith)
row_2 zero (suc fuel) enough fits = row_1 1 fuel (omega arith) (omega arith)
row_2 (suc n) (suc fuel) enough fits =
    ap (λ r. continue r (ackermann fuel 1)) (row_2 n fuel (omega arith) (omega arith))
    ∙ row_1 (2 * n + 3) fuel (omega arith) (omega arith)
    ∙ ap (λ (x : ℕ). some x) (omega arith)

row_3 :
    (n fuel : ℕ)
    → 8 * 2 ^ n ≤ fuel + 1
    → 8 * 2 ^ n < 2 ^ 31 + 3
    → ackermann fuel 3 n ≡ some (8 * 2 ^ n - 3)
unfolding ackermann
row_3 n zero enough fits = absurd (omega (arith, one-le-pow n 2 (omega arith)))
row_3 zero (suc fuel) enough fits = row_2 1 fuel (omega arith) (omega arith)
row_3 (suc n) (suc fuel) enough fits =
    let twice : 2 ^ suc n ≡ 2 ^ n * 2 = pow-suc 2 n in
    let some_more : 1 ≤ 2 ^ n = one-le-pow n 2 (omega arith) in
    ap (λ r. continue r (ackermann fuel 2)) (row_3 n fuel (omega arith) (omega arith))
    ∙ row_2 (8 * 2 ^ n - 3) fuel (omega arith) (omega arith)
    ∙ ap (λ (x : ℕ). some x) (omega arith)

-- In the third row a call ends within a depth of 2 ^ (n + 3) - 1 calls, and returns 2 ^ (n + 3) - 3, when
-- this fits into an int.
pub ackermann-three :
    (n fuel : ℕ)
    → 2 ^ (n + 3) ≤ fuel + 1
    → 2 ^ (n + 3) < 2 ^ 31 + 3
    → ackermann fuel 3 n ≡ some (2 ^ (n + 3) - 3)
unfolding ackermann
ackermann-three n fuel enough fits =
    let eight : 2 ^ (n + 3) ≡ 8 * 2 ^ n = omega (arith, pow_add n 3) in
    row_3 n fuel (omega arith) (omega arith) ∙ ap (λ (x : ℕ). some (x - 3)) (sym eight)
