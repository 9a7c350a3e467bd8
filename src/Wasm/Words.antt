-- ===== src/Wasm/Words.antt =====
-- The integer instructions of src/vm.zig on bit patterns: a number of `w` bits is below 2 ^ w, and
-- a signed one is read in two's complement.
pub mod Bounds
pub mod Rotations
use zwasm.Base.{
  ℕ, zero, suc, ◌+◌, ◌-◌, ◌*◌, ◌/◌, ◌%◌, ◌^◌, Bool, true, not, ◌&&◌, ltb, leb, ◌==◌, if◌then◌else◌,
  bit_and, bit_or, bit_xor,
}
use zwasm.Base.Outcome.{Outcome, ok, err}
use zwasm.Wasm.Instr.{
  Unop, clz, ctz, popcnt, Binop, add, sub, mul, div_s, div_u, rem_s, rem_u, and, or, xor, shl,
  shr_s, shr_u, rotl, rotr, Relop, eq, ne, lt_s, lt_u, gt_s, gt_u, le_s, le_u, ge_s, ge_u,
}

-- The errors that integer instructions and the stacks trap with.
pub data Trap : Type 0 where
  stack_overflow division_by_zero integer_overflow unreachable_reached : Trap

abbrev pub is_negative : ℕ → ℕ → Bool
is_negative w a = leb (2 ^ (w - 1)) a

-- 2 ^ w - a, the pattern of the negated number.
abbrev pub negate : ℕ → ℕ → ℕ
negate w a = (2 ^ w - a) % 2 ^ w

abbrev pub magnitude : ℕ → ℕ → ℕ
magnitude w a = if is_negative w a then 2 ^ w - a else a

-- `@divTrunc` and `@rem`
unfoldable pub div_trunc : ℕ → ℕ → ℕ → ℕ
div_trunc w a b =
    let q = magnitude w a / magnitude w b in
    if is_negative w a
    then if is_negative w b then q else negate w q
    else if is_negative w b
    then negate w q
    else q

unfoldable pub rem_trunc : ℕ → ℕ → ℕ → ℕ
rem_trunc w a b = let r = magnitude w a % magnitude w b in if is_negative w a then negate w r else r

-- `>>` on a signed number fills with the sign.
unfoldable pub shift_right_signed : ℕ → ℕ → ℕ → ℕ
shift_right_signed w a n =
    if is_negative w a then 2 ^ w - 1 - (2 ^ w - 1 - a) / 2 ^ n else a / 2 ^ n

unfoldable pub rotate_left : ℕ → ℕ → ℕ → ℕ
rotate_left w a r = bit_or (a * 2 ^ r % 2 ^ w) (a / 2 ^ ((w - r) % w))

unfoldable pub rotate_right : ℕ → ℕ → ℕ → ℕ
rotate_right w a r = bit_or (a / 2 ^ r) (a * 2 ^ ((w - r) % w) % 2 ^ w)

-- `@clz`, `@ctz` and `@popCount` of the lowest `n` bits.
unfoldable pub leading_zeros : ℕ → ℕ → ℕ
leading_zeros zero a = 0
leading_zeros (suc n) a = let below = leading_zeros n a in if leb (2 ^ n) a then 0 else below + 1

unfoldable pub trailing_zeros : ℕ → ℕ → ℕ
trailing_zeros zero a = 0
trailing_zeros (suc n) a =
    let above = trailing_zeros n (a / 2) in if a % 2 == 0 then above + 1 else 0

unfoldable pub population : ℕ → ℕ → ℕ
population zero a = 0
population (suc n) a = population n (a / 2) + a % 2

unfoldable pub unary : ℕ → Unop → ℕ → ℕ
unary w clz a = leading_zeros w a
unary w ctz a = trailing_zeros w a
unary w popcnt a = population w a

unfoldable pub binary : ℕ → Binop → ℕ → ℕ → Outcome Trap ℕ
binary w add a b = ok ((a + b) % 2 ^ w)
binary w sub a b = ok ((a + 2 ^ w - b) % 2 ^ w)
binary w mul a b = ok (a * b % 2 ^ w)
binary w div_s a b =
    if b == 0
    then err Trap.division_by_zero
    else if a == 2 ^ (w - 1) && b == 2 ^ w - 1
    then err Trap.integer_overflow
    else ok (div_trunc w a b)
binary w div_u a b = if b == 0 then err Trap.division_by_zero else ok (a / b)
binary w rem_s a b =
    if b == 0
    then err Trap.division_by_zero
    else if b == 2 ^ w - 1
    then ok 0
    else ok (rem_trunc w a b)
binary w rem_u a b = if b == 0 then err Trap.division_by_zero else ok (a % b)
binary w and a b = ok (bit_and a b)
binary w or a b = ok (bit_or a b)
binary w xor a b = ok (bit_xor a b)
binary w shl a b = ok (a * 2 ^ (b % w) % 2 ^ w)
binary w shr_s a b = ok (shift_right_signed w a (b % w))
binary w shr_u a b = ok (a / 2 ^ (b % w))
binary w rotl a b = ok (rotate_left w a (b % w))
binary w rotr a b = ok (rotate_right w a (b % w))

-- `a` compared as a signed number is its pattern with the sign bit turned.
abbrev pub biased : ℕ → ℕ → ℕ
biased w a = (a + 2 ^ (w - 1)) % 2 ^ w

unfoldable pub related : ℕ → Relop → ℕ → ℕ → Bool
related w eq a b = a == b
related w ne a b = not (a == b)
related w lt_s a b = ltb (biased w a) (biased w b)
related w lt_u a b = ltb a b
related w gt_s a b = ltb (biased w b) (biased w a)
related w gt_u a b = ltb b a
related w le_s a b = leb (biased w a) (biased w b)
related w le_u a b = leb a b
related w ge_s a b = leb (biased w b) (biased w a)
related w ge_u a b = leb b a

-- The lowest `n` bits of `a`, read as a signed number, in `w` bits.
unfoldable pub sign_extend_word : ℕ → ℕ → ℕ → ℕ
sign_extend_word w n a =
    let low = a % 2 ^ n in if leb (2 ^ (n - 1)) low then low + 2 ^ w - 2 ^ n else low

-- `b2i`
abbrev pub b2i : Bool → ℕ
b2i b = if b then 1 else 0
