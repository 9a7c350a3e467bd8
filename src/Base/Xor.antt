-- ===== src/Base/Xor.antt =====
-- Exclusive or by halves: on parts of a number, and twice.
use Prim.Native.Nat.{
  ℕ, zero, suc, ◌+◌, ◌*◌, ◌/◌, ◌%◌, ◌^◌, ◌≤◌, ◌<◌, digits, differ, bit_xor, bit_xor-bitwise,
}
use mathlib.Core.Path.{◌≡◌, refl, sym, ap, ◌∙◌}
use native.Mathlib.Nat.{pow-suc, one-le-pow, le_refl, mul_comm, div-div-eq-div-mul}
use native.Mathlib.Omega.{arith}
use zwasm.Base.Bits.{mod-two_mul}

-- Digits enough are as good as more.
digits_enough :
    (n m a b : ℕ) → a ≤ n → a ≤ m → digits (λ y. y) differ n a b ≡ digits (λ y. y) differ m a b
digits_enough zero zero a b hn hm = refl
digits_enough zero (suc m) zero b hn hm = refl
digits_enough zero (suc m) (suc a) b hn hm = absurd (omega arith)
digits_enough (suc n) zero zero b hn hm = refl
digits_enough (suc n) zero (suc a) b hn hm = absurd (omega arith)
digits_enough (suc n) (suc m) zero b hn hm = refl
digits_enough (suc n) (suc m) (suc a) b hn hm =
    ap (λ (t : ℕ). t * 2 + differ (suc a % 2) (b % 2))
      (digits_enough n m (suc a / 2) (b / 2) (omega arith) (omega arith))

differ-lt : (x y : ℕ) → x < 2 → y < 2 → differ x y < 2
differ-lt zero y hx hy = hy
differ-lt (suc zero) zero hx hy = hx
differ-lt (suc zero) (suc zero) hx hy = omega arith
differ-lt (suc zero) (suc (suc y)) hx hy = absurd (omega arith)
differ-lt (suc (suc x)) y hx hy = absurd (omega arith)

-- The halves and the lowest digits.
bit_xor_step : (a b : ℕ) → bit_xor a b ≡ bit_xor (a / 2) (b / 2) * 2 + differ (a % 2) (b % 2)
bit_xor_step zero b = rw (bit_xor-bitwise zero b, bit_xor-bitwise (zero / 2) (b / 2)) (omega arith)
bit_xor_step (suc a) b =
    bit_xor-bitwise (suc a) b
    ∙ ap (λ (t : ℕ). t * 2 + differ (suc a % 2) (b % 2))
        (digits_enough a (suc a / 2) (suc a / 2) (b / 2) (omega arith) (le_refl (suc a / 2))
          ∙ sym (bit_xor-bitwise (suc a / 2) (b / 2)))

pub bit_xor_half : (a b : ℕ) → bit_xor a b / 2 ≡ bit_xor (a / 2) (b / 2)
bit_xor_half a b =
    omega (arith, bit_xor_step a b, differ-lt (a % 2) (b % 2) (omega arith) (omega arith))

pub bit_xor_parity : (a b : ℕ) → bit_xor a b % 2 ≡ differ (a % 2) (b % 2)
bit_xor_parity a b =
    omega (arith, bit_xor_step a b, differ-lt (a % 2) (b % 2) (omega arith) (omega arith))

differ_twice : (x y : ℕ) → x < 2 → y < 2 → differ x (differ x y) ≡ y
differ_twice zero y hx hy = refl
differ_twice (suc zero) zero hx hy = refl
differ_twice (suc zero) (suc zero) hx hy = refl
differ_twice (suc zero) (suc (suc y)) hx hy = absurd (omega arith)
differ_twice (suc (suc x)) y hx hy = absurd (omega arith)

xor_twice_below : (n k b : ℕ) → k ≤ n → bit_xor k (bit_xor k b) ≡ b
xor_twice_below zero zero b le = rw (bit_xor-bitwise zero b, bit_xor-bitwise zero b) (refl)
xor_twice_below zero (suc k) b le = absurd (omega arith)
xor_twice_below (suc n) k b le = omega (
  arith,
  bit_xor_half k (bit_xor k b),
  bit_xor_parity k (bit_xor k b),
  ap (bit_xor (k / 2)) (bit_xor_half k b),
  ap (differ (k % 2)) (bit_xor_parity k b),
  xor_twice_below n (k / 2) (b / 2) (omega arith),
  differ_twice (k % 2) (b % 2) (omega arith) (omega arith),
)

-- `k ^ (k ^ b)` is `b`.
pub bit_xor_twice : (k b : ℕ) → bit_xor k (bit_xor k b) ≡ b
bit_xor_twice k b = xor_twice_below k k b (le_refl k)

halves_equal : (x y : ℕ) → x / 2 ≡ y / 2 → x % 2 ≡ y % 2 → x ≡ y
halves_equal x y h p = omega arith

over_one : (x : ℕ) → x / 2 ^ 0 ≡ x
over_one x = omega arith

shift_suc : (k x : ℕ) → x / 2 ^ suc k ≡ x / 2 / 2 ^ k
shift_suc k x =
    ap (λ (t : ℕ). x / t) (pow-suc 2 k ∙ mul_comm (2 ^ k) 2) ∙ sym (div-div-eq-div-mul x 2 (2 ^ k))

-- A shift right shifts both numbers.
pub bit_xor_high : (k a b : ℕ) → bit_xor a b / 2 ^ k ≡ bit_xor (a / 2 ^ k) (b / 2 ^ k)
bit_xor_high zero a b = rw (over_one (bit_xor a b), over_one a, over_one b)
bit_xor_high (suc k) a b =
    shift_suc k (bit_xor a b)
    ∙ ap (λ (t : ℕ). t / 2 ^ k) (bit_xor_half a b)
    ∙ bit_xor_high k (a / 2) (b / 2)
    ∙ rw (shift_suc k a, shift_suc k b)

low_parts : (k x : ℕ) → (x % 2 ^ suc k / 2 ≡ x / 2 % 2 ^ k) × (x % 2 ^ suc k % 2 ≡ x % 2)
low_parts k x =
    let whole : x % 2 ^ suc k ≡ 2 * (x / 2 % 2 ^ k) + x % 2 =
      ap (λ (t : ℕ). x % t) (pow-suc 2 k ∙ mul_comm (2 ^ k) 2)
      ∙ mod-two_mul x (2 ^ k) (one-le-pow k 2 (omega arith)) in
    (omega arith, omega arith)

-- The lowest digits are those of the lowest digits.
pub bit_xor_low : (k a b : ℕ) → bit_xor a b % 2 ^ k ≡ bit_xor (a % 2 ^ k) (b % 2 ^ k)
bit_xor_low zero a b =
    let none_left : (x : ℕ) → x % 2 ^ 0 ≡ 0 = λ x. omega arith in
    rw (none_left (bit_xor a b), none_left a, none_left b)
bit_xor_low (suc k) a b =
    let x : ℕ = a % 2 ^ suc k in
    let y : ℕ = b % 2 ^ suc k in
    let upper : bit_xor a b % 2 ^ suc k / 2 ≡ bit_xor x y / 2 =
      (low_parts k (bit_xor a b)).0
      ∙ ap (λ (t : ℕ). t % 2 ^ k) (bit_xor_half a b)
      ∙ bit_xor_low k (a / 2) (b / 2)
      ∙ rw (← (low_parts k a).0, ← (low_parts k b).0) (sym (bit_xor_half x y)) in
    let lower : bit_xor a b % 2 ^ suc k % 2 ≡ bit_xor x y % 2 =
      (low_parts k (bit_xor a b)).1
      ∙ bit_xor_parity a b
      ∙ rw (← (low_parts k a).1, ← (low_parts k b).1) (sym (bit_xor_parity x y)) in
    halves_equal (bit_xor a b % 2 ^ suc k) (bit_xor x y) upper lower
