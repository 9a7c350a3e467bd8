-- ===== src/Programs/Keccak/Lanes.antt =====
-- bench/shootout-src/keccak.c: the state of `keccak_core`, and the operations of its statements.
-- A lane is a uint64_t. `ROTL64` casts its result to uint32_t.
use zwasm.Base.{ℕ, ◌-◌, ◌*◌, ◌/◌, ◌%◌, ◌^◌, bit_and, bit_or, bit_xor}

-- The locals `Aba` to `Asu`, or `Eba` to `Esu`, in the order of the state.
pub record Lanes : Type 0 where
  pub ba : ℕ
  pub be : ℕ
  pub bi : ℕ
  pub bo : ℕ
  pub bu : ℕ
  pub ga : ℕ
  pub ge : ℕ
  pub gi : ℕ
  pub go : ℕ
  pub gu : ℕ
  pub ka : ℕ
  pub ke : ℕ
  pub ki : ℕ
  pub ko : ℕ
  pub ku : ℕ
  pub ma : ℕ
  pub me : ℕ
  pub mi : ℕ
  pub mo : ℕ
  pub mu : ℕ
  pub sa : ℕ
  pub se : ℕ
  pub si : ℕ
  pub so : ℕ
  pub su : ℕ

-- `a ^ b ^ c ^ d ^ e`
unfoldable pub xor5 : ℕ → ℕ → ℕ → ℕ → ℕ → ℕ
xor5 a b c d e = bit_xor (bit_xor (bit_xor (bit_xor a b) c) d) e

-- `ROTL64(x, b)`
unfoldable pub rotl64 : ℕ → ℕ → ℕ
rotl64 x b = bit_or (x * 2 ^ b % 2 ^ 64) (x / 2 ^ (64 - b)) % 2 ^ 32

-- `a ^ ((~b) & c)`
unfoldable pub chi : ℕ → ℕ → ℕ → ℕ
chi a b c = bit_xor a (bit_and (2 ^ 64 - 1 - b) c)
