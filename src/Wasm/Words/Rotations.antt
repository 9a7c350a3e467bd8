-- ===== src/Wasm/Words/Rotations.antt =====
-- The rotations of a word, by its upper and its lower bits.
use Prim.Native.Nat.{digits, max, bit_or-bitwise}
use mathlib.Core.Path.{subst}
use native.Mathlib.Nat.{
  one-le-pow, le_refl, mod-eq_of_lt, div-eq_of_lt, add-mul-mod_self_left, add-mul-div_left,
  mul_comm, mod_self,
}
use zwasm.Base.{
  ℕ, zero, suc, ◌+◌, ◌-◌, ◌*◌, ◌/◌, ◌%◌, ◌^◌, ◌≤◌, ◌<◌, ◌≡◌, refl, sym, ap, ◌∙◌, arith, bit_or,
}
use zwasm.Base.Bits.{pow_add, bit_or_disjoint, bit_or_above}
use zwasm.Wasm.Words.{rotate_left, rotate_right}

or_self_digits : (n a : ℕ) → a ≤ n → digits (λ b. b) max n a a ≡ a
or_self_digits zero a le = omega arith
or_self_digits (suc n) zero le = refl
or_self_digits (suc n) (suc a) le = omega (arith, or_self_digits n (suc a / 2) (omega arith))

bit_or_self : (a : ℕ) → bit_or a a ≡ a
bit_or_self a = bit_or-bitwise a a ∙ or_self_digits a a (le_refl a)

-- A shift by a factor of the modulus drops the high part.
shifted : (m n lo hi : ℕ) → 0 < m → lo < n → (lo + n * hi) * m % (m * n) ≡ lo * m
shifted m n lo hi pos lt =
    ap (λ (t : ℕ). t % (m * n)) (spread m n lo hi)
    ∙ add-mul-mod_self_left (lo * m) (m * n) hi
    ∙ mod-eq_of_lt (scaled m n lo pos lt)
  where
    spread : (m n lo hi : ℕ) → (lo + n * hi) * m ≡ lo * m + m * n * hi
    spread m n lo hi = grind arith

    scaled : (m n lo : ℕ) → 0 < m → lo < n → lo * m < m * n
    scaled m n lo pos lt = grind arith

-- The rotations by `r` of a word of `r + k` bits, by its parts of `k` and of `r` bits.
module _ (r k lo hi : ℕ) (low : lo < 2 ^ k) (high : hi < 2 ^ r) (inside : 0 < k) where
  back : (r + k - r) % (r + k) ≡ k % (r + k)
  back = ap (λ (t : ℕ). t % (r + k)) (omega arith)

  rotated_left : 0 < r → rotate_left (r + k) (lo + 2 ^ k * hi) r ≡ lo * 2 ^ r + hi
  unfolding rotate_left
  rotated_left pos =
      let kept : (r + k - r) % (r + k) ≡ k = back ∙ mod-eq_of_lt (omega arith) in
      let upper : (lo + 2 ^ k * hi) * 2 ^ r % 2 ^ (r + k) ≡ lo * 2 ^ r =
        ap (λ (t : ℕ). (lo + 2 ^ k * hi) * 2 ^ r % t) (pow_add r k)
        ∙ shifted (2 ^ r) (2 ^ k) lo hi (one-le-pow r 2 (omega arith)) low in
      let lower : (lo + 2 ^ k * hi) / 2 ^ k ≡ hi =
        add-mul-div_left lo hi (one-le-pow k 2 (omega arith)) ∙ omega (arith, div-eq_of_lt low) in
      rw (kept, upper, lower) (bit_or_above r lo hi high)

  rotated_right : 0 < r → rotate_right (r + k) (lo * 2 ^ r + hi) r ≡ lo + 2 ^ k * hi
  unfolding rotate_right
  rotated_right pos =
      let kept : (r + k - r) % (r + k) ≡ k = back ∙ mod-eq_of_lt (omega arith) in
      let swap : lo * 2 ^ r + hi ≡ hi + 2 ^ r * lo = omega (arith, mul_comm lo (2 ^ r)) in
      let lower : (hi + 2 ^ r * lo) / 2 ^ r ≡ lo =
        add-mul-div_left hi lo (one-le-pow r 2 (omega arith)) ∙ omega (arith, div-eq_of_lt high) in
      let upper : (hi + 2 ^ r * lo) * 2 ^ k % 2 ^ (r + k) ≡ hi * 2 ^ k =
        ap (λ (t : ℕ). (hi + 2 ^ r * lo) * 2 ^ k % t) (pow_add r k ∙ mul_comm (2 ^ r) (2 ^ k))
        ∙ shifted (2 ^ k) (2 ^ r) hi lo (one-le-pow k 2 (omega arith)) high in
      rw (swap, kept, lower, upper)
        (bit_or_disjoint k lo hi low ∙ ap (λ (t : ℕ). lo + t) (mul_comm hi (2 ^ k)))

-- Rotating by no bit.
rotate_none : (w a : ℕ) → 0 < w → a < 2 ^ w → (rotate_left w a 0 ≡ a) × (rotate_right w a 0 ≡ a)
unfolding rotate_left rotate_right
rotate_none w a pos lt =
    let none_left : (w - 0) % w ≡ 0 = ap (λ (t : ℕ). t % w) (omega arith) ∙ mod_self w in
    let whole : a * 2 ^ 0 % 2 ^ w ≡ a = ap (λ (t : ℕ). t % 2 ^ w) (omega arith) ∙ mod-eq_of_lt lt in
    let same : a / 2 ^ 0 ≡ a = omega arith in
    (rw (none_left, whole, same) (bit_or_self a), rw (none_left, whole, same) (bit_or_self a))

width : (w r : ℕ) → suc r < w → suc r + (w - suc r) ≡ w
width w r inside = omega arith

-- A word by its upper `r` bits and the others: rotating left brings the upper ones down.
pub rotate_left-parts :
    (w r lo hi : ℕ)
    → r < w
    → lo < 2 ^ (w - r)
    → hi < 2 ^ r
    → rotate_left w (lo + 2 ^ (w - r) * hi) r ≡ lo * 2 ^ r + hi
rotate_left-parts w zero lo hi inside low high =
    let none_above : hi ≡ 0 = omega arith in
    let whole : lo + 2 ^ (w - 0) * hi ≡ lo =
      ap (λ (h : ℕ). lo + 2 ^ (w - 0) * h) none_above ∙ omega arith in
    let small : lo < 2 ^ w = subst (λ (n : ℕ). lo < 2 ^ n) (omega arith) low in
    ap (λ (a : ℕ). rotate_left w a 0) whole ∙ (rotate_none w lo inside small).0 ∙ omega arith
rotate_left-parts w (suc r) lo hi inside low high =
    subst (λ v. rotate_left v (lo + 2 ^ (w - suc r) * hi) (suc r) ≡ lo * 2 ^ suc r + hi)
      (width w r inside)
      (rotated_left (suc r) (w - suc r) lo hi low high (omega arith) (omega arith))

-- Rotating right brings the lower ones up.
pub rotate_right-parts :
    (w r lo hi : ℕ)
    → r < w
    → lo < 2 ^ (w - r)
    → hi < 2 ^ r
    → rotate_right w (lo * 2 ^ r + hi) r ≡ lo + 2 ^ (w - r) * hi
rotate_right-parts w zero lo hi inside low high =
    let none_above : hi ≡ 0 = omega arith in
    let whole : lo ≡ lo + 2 ^ (w - 0) * hi =
      sym (ap (λ (h : ℕ). lo + 2 ^ (w - 0) * h) none_above ∙ omega arith) in
    let small : lo < 2 ^ w = subst (λ (n : ℕ). lo < 2 ^ n) (omega arith) low in
    ap (λ (a : ℕ). rotate_right w a 0) (omega arith) ∙ (rotate_none w lo inside small).1 ∙ whole
rotate_right-parts w (suc r) lo hi inside low high =
    subst (λ v. rotate_right v (lo * 2 ^ suc r + hi) (suc r) ≡ lo + 2 ^ (w - suc r) * hi)
      (width w r inside)
      (rotated_right (suc r) (w - suc r) lo hi low high (omega arith) (omega arith))

-- Such parts make a word, in either order.
pub parts_lt :
    (w r lo hi : ℕ)
    → r < w
    → lo < 2 ^ (w - r)
    → hi < 2 ^ r
    → (lo + 2 ^ (w - r) * hi < 2 ^ w) × (lo * 2 ^ r + hi < 2 ^ w)
parts_lt w r lo hi inside low high =
    let whole : 2 ^ w ≡ 2 ^ (w - r) * 2 ^ r =
      ap (λ (n : ℕ). 2 ^ n) (omega arith) ∙ pow_add (w - r) r in
    (
      subst (λ (n : ℕ). lo + 2 ^ (w - r) * hi < n) (sym whole)
          (upper (2 ^ (w - r)) (2 ^ r) lo hi low high),
      subst (λ (n : ℕ). lo * 2 ^ r + hi < n) (sym whole)
          (lower (2 ^ (w - r)) (2 ^ r) lo hi low high),
    )
  where
    upper : (m n lo hi : ℕ) → lo < m → hi < n → lo + m * hi < m * n
    upper m n lo hi low high = grind arith

    lower : (m n lo hi : ℕ) → lo < m → hi < n → lo * n + hi < m * n
    lower m n lo hi low high = grind arith
