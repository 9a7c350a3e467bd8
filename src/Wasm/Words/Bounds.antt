-- ===== src/Wasm/Words/Bounds.antt =====
-- The results of integer instructions fit their width.
use native.Mathlib.Nat.{pow-suc, one-le-pow, mod-lt, mod-le}
use zwasm.Base.{ℕ, zero, suc, ◌+◌, ◌-◌, ◌*◌, ◌/◌, ◌%◌, ◌^◌, ◌≤◌, ◌<◌, ◌≡◌, arith}
use zwasm.Base.Bits.{bit_or-lt, bit_and-lt, bit_xor-lt}
use zwasm.Base.Outcome.{ok}
use zwasm.Wasm.Instr.{
  Unop, clz, ctz, popcnt, Binop, add, sub, mul, div_s, div_u, rem_s, rem_u, and, or, xor, shl,
  shr_s, shr_u, rotl, rotr,
}
use zwasm.Wasm.Words.{
  negate, magnitude, div_trunc, rem_trunc, shift_right_signed, rotate_left, rotate_right,
  leading_zeros, trailing_zeros, population, unary, binary, sign_extend_word,
}

div-le : (a b : ℕ) → a / b ≤ a
div-le a zero = omega arith
div-le a (suc b) = grind arith

two_pow_mono : (n w : ℕ) → n ≤ w → 2 ^ n ≤ 2 ^ w
two_pow_mono zero w h = one-le-pow w 2 (omega arith)
two_pow_mono (suc n) zero h = absurd (omega arith)
two_pow_mono (suc n) (suc w) h =
    omega (arith, pow-suc 2 n, pow-suc 2 w, two_pow_mono n w (omega arith))

leading_zeros-le : (n a : ℕ) → leading_zeros n a ≤ n
unfolding leading_zeros
leading_zeros-le zero a = omega arith
leading_zeros-le (suc n) a = ground (arith, leading_zeros-le n a)

trailing_zeros-le : (n a : ℕ) → trailing_zeros n a ≤ n
unfolding trailing_zeros
trailing_zeros-le zero a = omega arith
trailing_zeros-le (suc n) a = ground (arith, trailing_zeros-le n (a / 2))

population-le : (n a : ℕ) → population n a ≤ n
unfolding population
population-le zero a = omega arith
population-le (suc n) a = omega (arith, population-le n (a / 2))

pub unary-le : (w : ℕ) (op : Unop) (a : ℕ) → unary w op a ≤ w
unfolding unary
unary-le w clz a = leading_zeros-le w a
unary-le w ctz a = trailing_zeros-le w a
unary-le w popcnt a = population-le w a

module _ (w : ℕ) where
  pub wide : 0 < 2 ^ w
  wide = one-le-pow w 2 (omega arith)

  magnitude-lt : (a : ℕ) → a < 2 ^ w → magnitude w a < 2 ^ w
  magnitude-lt a h = ground (arith, one-le-pow (w - 1) 2, wide)

  negate-lt : (a : ℕ) → negate w a < 2 ^ w
  negate-lt a = mod-lt (2 ^ w - a) wide

  div_trunc-lt : (a b : ℕ) → a < 2 ^ w → div_trunc w a b < 2 ^ w
  unfolding div_trunc
  div_trunc-lt a b h = ground (
    arith,
    magnitude-lt a h,
    div-le (magnitude w a) (magnitude w b),
    negate-lt (magnitude w a / magnitude w b),
  )

  rem_trunc-lt : (a b : ℕ) → a < 2 ^ w → rem_trunc w a b < 2 ^ w
  unfolding rem_trunc
  rem_trunc-lt a b h = ground (
    arith,
    magnitude-lt a h,
    mod-le (magnitude w a) (magnitude w b),
    negate-lt (magnitude w a % magnitude w b),
  )

  shift_right_signed-lt : (a n : ℕ) → a < 2 ^ w → shift_right_signed w a n < 2 ^ w
  unfolding shift_right_signed
  shift_right_signed-lt a n h = ground (arith, div-le a (2 ^ n), wide)

  rotate_left-lt : (a r : ℕ) → a < 2 ^ w → rotate_left w a r < 2 ^ w
  unfolding rotate_left
  rotate_left-lt a r h =
      bit_or-lt w _ _ (mod-lt (a * 2 ^ r) wide) (omega (arith, div-le a (2 ^ ((w - r) % w))))

  rotate_right-lt : (a r : ℕ) → a < 2 ^ w → rotate_right w a r < 2 ^ w
  unfolding rotate_right
  rotate_right-lt a r h =
      bit_or-lt w _ _ (omega (arith, div-le a (2 ^ r))) (mod-lt (a * 2 ^ ((w - r) % w)) wide)

  pub binary-lt :
      (op : Binop) (a b r : ℕ) → a < 2 ^ w → b < 2 ^ w → binary w op a b ≡ ok r → r < 2 ^ w
  unfolding binary
  binary-lt add a b r ha hb h = ground (arith, mod-lt (a + b) wide)
  binary-lt sub a b r ha hb h = ground (arith, mod-lt (a + 2 ^ w - b) wide)
  binary-lt mul a b r ha hb h = ground (arith, mod-lt (a * b) wide)
  binary-lt div_s a b r ha hb h = ground (arith, div_trunc-lt a b ha)
  binary-lt div_u a b r ha hb h = ground (arith, div-le a b)
  binary-lt rem_s a b r ha hb h = ground (arith, rem_trunc-lt a b ha, wide)
  binary-lt rem_u a b r ha hb h = ground (arith, mod-le a b)
  binary-lt and a b r ha hb h = ground (arith, bit_and-lt (2 ^ w) a b ha)
  binary-lt or a b r ha hb h = ground (arith, bit_or-lt w a b ha hb)
  binary-lt xor a b r ha hb h = ground (arith, bit_xor-lt w a b ha hb)
  binary-lt shl a b r ha hb h = ground (arith, mod-lt (a * 2 ^ (b % w)) wide)
  binary-lt shr_s a b r ha hb h = ground (arith, shift_right_signed-lt a (b % w) ha)
  binary-lt shr_u a b r ha hb h = ground (arith, div-le a (2 ^ (b % w)))
  binary-lt rotl a b r ha hb h = ground (arith, rotate_left-lt a (b % w) ha)
  binary-lt rotr a b r ha hb h = ground (arith, rotate_right-lt a (b % w) ha)

pub sign_extend_word-lt : (w n a : ℕ) → n ≤ w → sign_extend_word w n a < 2 ^ w
unfolding sign_extend_word
sign_extend_word-lt w n a h = ground (arith, mod-lt a (wide n), wide w, two_pow_mono n w h)
