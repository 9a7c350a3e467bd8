-- ===== src/Base/Bits.antt =====
-- Bit operations on disjoint fields, and masks on one byte, as arithmetic.
use Prim.Native.Nat.{
  ℕ, zero, suc, ◌+◌, ◌*◌, ◌/◌, ◌%◌, ◌^◌, ◌≤◌, ◌<◌, ◌-◌, min, max, digits, bit_and, bit_or,
  bit_or-bitwise, bit_and-bitwise, bit_xor, bit_xor-bitwise, differ,
}
use mathlib.Core.Path.{◌≡◌, refl, sym, ap, ◌∙◌}
use mathlib.Core.Bool.{Bool, true, ◌&&◌}
use native.Mathlib.Nat.{
  pow-suc, mul_comm, le_refl, one-le-pow, div-add-mod, mod-lt, mod-eq_of_lt, add-mul-mod_self_left,
}
use native.Mathlib.Omega.{arith}
use zwasm.Base.Tests.{◌==◌, ==_iff}

pub mul-two_pow_suc : (q k : ℕ) → q * 2 ^ suc k ≡ 2 * (q * 2 ^ k)
mul-two_pow_suc q k = omega (arith, ap (λ (t : ℕ). q * t) (pow-suc 2 k))

-- The digits of `r` lie below place `k`, those of the other number at `k` and above.
or_digits_disjoint :
    (k n r q : ℕ) → r < 2 ^ k → r ≤ n → digits (λ y. y) max n r (q * 2 ^ k) ≡ r + q * 2 ^ k
or_digits_disjoint k zero zero q lt le = omega arith
or_digits_disjoint k zero (suc r) q lt le = absurd (omega arith)
or_digits_disjoint k (suc n) zero q lt le = omega arith
or_digits_disjoint zero (suc n) (suc r) q lt le = absurd (omega arith)
or_digits_disjoint (suc k) (suc n) (suc r) q lt le =
    let halved : q * 2 ^ suc k / 2 ≡ q * 2 ^ k = omega (arith, mul-two_pow_suc q k) in
    rw halved (
      omega (
        arith,
        mul-two_pow_suc q k,
        or_digits_disjoint k n (suc r / 2) q (omega (arith, pow-suc 2 k)) (omega arith),
      ))

-- `r | (q << k)` is a sum when `r` has at most `k` bits.
pub bit_or_disjoint : (k r q : ℕ) → r < 2 ^ k → bit_or r (q * 2 ^ k) ≡ r + q * 2 ^ k
bit_or_disjoint k r q lt = bit_or-bitwise r (q * 2 ^ k) ∙ or_digits_disjoint k r r q lt (le_refl r)

or_digits_above :
    (k n a r q : ℕ) → a ≡ q * 2 ^ k → r < 2 ^ k → a ≤ n → digits (λ y. y) max n a r ≡ a + r
or_digits_above k zero zero r q e lt le = omega arith
or_digits_above k zero (suc a) r q e lt le = absurd (omega arith)
or_digits_above k (suc n) zero r q e lt le = omega arith
or_digits_above zero (suc n) (suc a) r q e lt le = omega (
  arith,
  or_digits_above zero n (suc a / 2) (r / 2) (suc a / 2) (omega arith) (omega arith) (omega arith),
)
or_digits_above (suc k) (suc n) (suc a) r q e lt le = omega (
  arith,
  mul-two_pow_suc q k,
  or_digits_above k n (suc a / 2) (r / 2) q (omega (arith, mul-two_pow_suc q k))
      (omega (arith, pow-suc 2 k)) (omega arith),
)

-- The same with the shifted number first.
pub bit_or_above : (k q r : ℕ) → r < 2 ^ k → bit_or (q * 2 ^ k) r ≡ q * 2 ^ k + r
bit_or_above k q r lt =
    bit_or-bitwise (q * 2 ^ k) r
    ∙ or_digits_above k (q * 2 ^ k) (q * 2 ^ k) r q refl lt (le_refl (q * 2 ^ k))

-- Facts about one byte, checked at each of its values.
abbrev pub all_below : ℕ → (ℕ → Bool) → Bool
all_below zero p = true
all_below (suc n) p = p n && all_below n p

pub all_below-true : (n : ℕ) (p : ℕ → Bool) → all_below n p ≡ true → (x : ℕ) → x < n → p x ≡ true
all_below-true zero p h x lt = absurd (omega arith)
all_below-true (suc n) p h x lt = ground (arith, all_below-true n p (ground arith) x)

pub low_seven : (b : ℕ) → b < 256 → bit_and b 0x7f ≡ b % 128
low_seven b h = (==_iff _ _).0 (all_below-true 256 (λ x. bit_and x 0x7f == x % 128) refl b h)

pub top_bit : (b : ℕ) → b < 256 → bit_and b 0x80 ≡ b / 128 * 128
top_bit b h = (==_iff _ _).0 (all_below-true 256 (λ x. bit_and x 0x80 == x / 128 * 128) refl b h)

pub sign_bit : (b : ℕ) → b < 256 → bit_and b 0x40 ≡ b / 64 % 2 * 64
sign_bit b h = (==_iff _ _).0 (all_below-true 256 (λ x. bit_and x 0x40 == x / 64 % 2 * 64) refl b h)

pub set_top_bit : (b : ℕ) → b < 256 → bit_or b 0x80 ≡ b % 128 + 128
set_top_bit b h = (==_iff _ _).0 (all_below-true 256 (λ x. bit_or x 0x80 == x % 128 + 128) refl b h)

-- A mask of high bits keeps a multiple of a power of two, and one of low bits a remainder.
pub high_mask :
    (mask k : ℕ)
    → all_below 256 (λ x. bit_and x mask == x / k * k) ≡ true
    → (b : ℕ) → b < 256
    → bit_and b mask ≡ b / k * k
high_mask mask k table b h =
    (==_iff _ _).0 (all_below-true 256 (λ x. bit_and x mask == x / k * k) table b h)

pub low_mask :
    (mask k : ℕ)
    → all_below 256 (λ x. bit_and x mask == x % k) ≡ true
    → (b : ℕ) → b < 256
    → bit_and b mask ≡ b % k
low_mask mask k table b h =
    (==_iff _ _).0 (all_below-true 256 (λ x. bit_and x mask == x % k) table b h)

or_digits_lt : (k n a b : ℕ) → a < 2 ^ k → b < 2 ^ k → a ≤ n → digits (λ y. y) max n a b < 2 ^ k
or_digits_lt k zero a b ha hb le = hb
or_digits_lt k (suc n) zero b ha hb le = hb
or_digits_lt zero (suc n) (suc a) b ha hb le = absurd (omega arith)
or_digits_lt (suc k) (suc n) (suc a) b ha hb le = omega (
  arith,
  pow-suc 2 k,
  or_digits_lt k n (suc a / 2) (b / 2) (omega (arith, pow-suc 2 k)) (omega (arith, pow-suc 2 k))
      (omega arith),
)

-- `|` of numbers that fit `k` bits fits `k` bits.
pub bit_or-lt : (k a b : ℕ) → a < 2 ^ k → b < 2 ^ k → bit_or a b < 2 ^ k
bit_or-lt k a b ha hb = rw bit_or-bitwise (or_digits_lt k a a b ha hb (le_refl a))

-- The digits of `a` under a mask of `k` ones.
and_digits_zero : (n a : ℕ) → a ≤ n → digits (λ y. 0) min n a 0 ≡ 0
and_digits_zero zero a le = refl
and_digits_zero (suc n) zero le = refl
and_digits_zero (suc n) (suc a) le = omega (arith, and_digits_zero n (suc a / 2) (omega arith))

pub mod-two_mul : (a m : ℕ) → 0 < m → a % (2 * m) ≡ 2 * (a / 2 % m) + a % 2
mod-two_mul a m pos =
    let low : ℕ = 2 * (a / 2 % m) + a % 2 in
    let split : a ≡ low + 2 * m * (a / 2 / m) = omega (arith, div-add-mod (a / 2) m) in
    ap (λ (t : ℕ). t % (2 * m)) split
    ∙ add-mul-mod_self_left low (2 * m) (a / 2 / m)
    ∙ mod-eq_of_lt (omega (arith, mod-lt (a / 2) pos))

and_digits_mask : (k n a : ℕ) → a ≤ n → digits (λ y. 0) min n a (2 ^ k - 1) ≡ a % 2 ^ k
and_digits_mask zero n a le = omega (arith, and_digits_zero n a le)
and_digits_mask (suc k) zero a le = omega arith
and_digits_mask (suc k) (suc n) zero le = omega arith
and_digits_mask (suc k) (suc n) (suc a) le =
    let halved : (2 ^ suc k - 1) / 2 ≡ 2 ^ k - 1 = omega (arith, pow-suc 2 k) in
    let odd : (2 ^ suc k - 1) % 2 ≡ 1 = omega (arith, pow-suc 2 k, one-le-pow k 2) in
    let whole : suc a % 2 ^ suc k ≡ 2 * (suc a / 2 % 2 ^ k) + suc a % 2 =
      ap (λ (t : ℕ). suc a % t) (pow-suc 2 k)
      ∙ ap (λ (t : ℕ). suc a % t) (mul_comm (2 ^ k) 2)
      ∙ mod-two_mul (suc a) (2 ^ k) (one-le-pow k 2 (omega arith)) in
    rw (halved, odd) (omega (arith, whole, and_digits_mask k n (suc a / 2) (omega arith)))

-- A mask of `k` low bits is the remainder by 2 ^ k.
pub bit_and_mask : (k a : ℕ) → bit_and a (2 ^ k - 1) ≡ a % 2 ^ k
bit_and_mask k a = bit_and-bitwise a (2 ^ k - 1) ∙ and_digits_mask k a a (le_refl a)

and_digits_lt : (n m a b : ℕ) → a < m → digits (λ y. 0) min n a b < m
and_digits_lt zero m a b h = omega arith
and_digits_lt (suc n) m zero b h = omega arith
and_digits_lt (suc n) m (suc a) b h =
    omega (arith, and_digits_lt n (suc a / 2 + 1) (suc a / 2) (b / 2) (omega arith))

differ-le : (x y : ℕ) → x < 2 → y < 2 → differ x y < 2
differ-le zero y hx hy = hy
differ-le (suc x) zero hx hy = hx
differ-le (suc zero) (suc zero) hx hy = omega arith
differ-le (suc zero) (suc (suc y)) hx hy = absurd (omega arith)
differ-le (suc (suc x)) (suc y) hx hy = absurd (omega arith)

xor_digits_lt : (k n a b : ℕ) → a < 2 ^ k → b < 2 ^ k → digits (λ y. y) differ n a b < 2 ^ k
xor_digits_lt k zero a b ha hb = hb
xor_digits_lt k (suc n) zero b ha hb = hb
xor_digits_lt zero (suc n) (suc a) b ha hb = absurd (omega arith)
xor_digits_lt (suc k) (suc n) (suc a) b ha hb = omega (
  arith,
  pow-suc 2 k,
  differ-le (suc a % 2) (b % 2) (omega arith) (omega arith),
  xor_digits_lt k n (suc a / 2) (b / 2) (omega (arith, pow-suc 2 k)) (omega (arith, pow-suc 2 k)),
)

pub bit_and-lt : (m a b : ℕ) → a < m → bit_and a b < m
bit_and-lt m a b h = rw bit_and-bitwise (and_digits_lt a m a b h)

and_digits_below : (n m a b : ℕ) → b < m → digits (λ y. 0) min n a b < m
and_digits_below zero m a b h = omega arith
and_digits_below (suc n) m zero b h = omega arith
and_digits_below (suc n) m (suc a) b h =
    omega (arith, and_digits_below n (b / 2 + 1) (suc a / 2) (b / 2) (omega arith))

-- `&` is at most either number.
pub bit_and-lt_right : (m a b : ℕ) → b < m → bit_and a b < m
bit_and-lt_right m a b h = rw bit_and-bitwise (and_digits_below a m a b h)

pub bit_xor-lt : (k a b : ℕ) → a < 2 ^ k → b < 2 ^ k → bit_xor a b < 2 ^ k
bit_xor-lt k a b ha hb = rw bit_xor-bitwise (xor_digits_lt k a a b ha hb)

twice_mul : (p q : ℕ) → p * 2 * q ≡ p * q * 2
twice_mul p q = grind arith

pub pow_add : (k n : ℕ) → 2 ^ (k + n) ≡ 2 ^ k * 2 ^ n
pow_add zero n = ground arith
pow_add (suc k) n =
    let up : suc k + n ≡ suc (k + n) = omega arith in
    ap (λ (t : ℕ). 2 ^ t) up
    ∙ pow-suc 2 (k + n)
    ∙ ap (λ (t : ℕ). t * 2) (pow_add k n)
    ∙ sym (ap (λ (t : ℕ). t * 2 ^ n) (pow-suc 2 k) ∙ twice_mul (2 ^ k) (2 ^ n))
