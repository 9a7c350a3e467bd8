-- ===== src/Programs/Keccak/Reference.antt =====
-- The permutation as the designers describe it: by the coordinates of the lanes, with the round
-- constants from a shift register and the offsets from a walk. The rotation is the source's.
use zwasm.Base.{
  ℕ, zero, suc, ◌+◌, ◌*◌, ◌/◌, ◌%◌, ◌^◌, ◌-◌, ◌&&◌, [], ◌∷◌, leb, ◌==◌, if◌then◌else◌, get_or,
  bit_xor,
}
use zwasm.Programs.Keccak.Lanes.{Lanes, xor5, rotl64, chi}

-- The lane at (x, y) stands at place 5 y + x.
unfoldable pub lane : Lanes → ℕ → ℕ → ℕ
lane s x y =
    get_or
      (s.ba ∷ s.be ∷ s.bi ∷ s.bo ∷ s.bu ∷ s.ga ∷ s.ge ∷ s.gi ∷ s.go ∷ s.gu ∷ s.ka ∷ s.ke ∷ s.ki
        ∷ s.ko ∷ s.ku ∷ s.ma ∷ s.me ∷ s.mi ∷ s.mo ∷ s.mu ∷ s.sa ∷ s.se ∷ s.si ∷ s.so ∷ s.su ∷ [])
      (5 * y + x) 0

-- The walk over the coordinates, from (1, 0): its place number t has offset (t + 1)(t + 2) / 2.
unfoldable pub walk : ℕ → ℕ → ℕ → ℕ → ℕ → ℕ → ℕ
walk zero t x y x' y' = 0
walk (suc n) t x y x' y' =
    let rest = walk n (t + 1) y ((2 * x + 3 * y) % 5) x' y' in
    if x == x' && y == y' then (t + 1) * (t + 2) / 2 % 64 else rest

unfoldable pub offset : ℕ → ℕ → ℕ
unfolding walk
offset x y = walk 24 0 1 0 x y

unfoldable pub column : Lanes → ℕ → ℕ
unfolding lane
column s x = xor5 (lane s x 0) (lane s x 1) (lane s x 2) (lane s x 3) (lane s x 4)

unfoldable pub theta : Lanes → ℕ → ℕ → ℕ
unfolding lane column
theta s x y =
    bit_xor (lane s x y) (bit_xor (column s ((x + 4) % 5)) (rotl64 (column s ((x + 1) % 5)) 1))

abbrev pub turned : ℕ → ℕ → ℕ
turned v n = if n == 0 then v else rotl64 v n

-- The lane that comes to (x, y), rotated.
unfoldable pub moved : Lanes → ℕ → ℕ → ℕ
unfolding theta offset
moved s x y = turned (theta s ((x + 3 * y) % 5) x) (offset ((x + 3 * y) % 5) x)

unfoldable pub mixed : Lanes → ℕ → ℕ → ℕ
unfolding moved
mixed s x y = chi (moved s x y) (moved s ((x + 1) % 5) y) (moved s ((x + 2) % 5) y)

unfoldable pub keccak_round : ℕ → Lanes → Lanes
unfolding mixed
keccak_round constant s = record {
  ba = bit_xor (mixed s 0 0) constant;
  be = mixed s 1 0;
  bi = mixed s 2 0;
  bo = mixed s 3 0;
  bu = mixed s 4 0;
  ga = mixed s 0 1;
  ge = mixed s 1 1;
  gi = mixed s 2 1;
  go = mixed s 3 1;
  gu = mixed s 4 1;
  ka = mixed s 0 2;
  ke = mixed s 1 2;
  ki = mixed s 2 2;
  ko = mixed s 3 2;
  ku = mixed s 4 2;
  ma = mixed s 0 3;
  me = mixed s 1 3;
  mi = mixed s 2 3;
  mo = mixed s 3 3;
  mu = mixed s 4 3;
  sa = mixed s 0 4;
  se = mixed s 1 4;
  si = mixed s 2 4;
  so = mixed s 3 4;
  su = mixed s 4 4;
}

-- The shift register with the polynomial x^8 + x^6 + x^5 + x^4 + 1.
unfoldable pub register : ℕ → ℕ
register zero = 1
register (suc n) = let r = register n * 2 in if leb 256 r then bit_xor r 0x171 else r

unfoldable pub constant_from : ℕ → ℕ → ℕ → ℕ
unfolding register
constant_from zero j i = 0
constant_from (suc n) j i = constant_from n (j + 1) i + register (j + 7 * i) % 2 * 2 ^ (2 ^ j - 1)

-- The constant of round i, from 0.
unfoldable pub round_constant : ℕ → ℕ
unfolding constant_from
round_constant i = constant_from 7 0 i

unfoldable pub keccak_from : ℕ → ℕ → Lanes → Lanes
unfolding keccak_round round_constant
keccak_from zero i s = s
keccak_from (suc n) i s = keccak_from n (suc i) (keccak_round (round_constant i) s)
