-- ===== src/Leb128/Bounds.antt =====
-- src/leb128.zig: what a read that succeeds has done, on any input.
use zwasm.Base.{
  ℕ, zero, suc, ◌+◌, ◌-◌, ◌*◌, ◌%◌, ◌^◌, ◌≤◌, ◌<◌, bit_and, bit_or, ◌≡◌, refl, arith, inl, inr,
  length, get_or, ◌⊎◌,
}
use zwasm.Base.Bits.{bit_or-lt}
use zwasm.Leb128.{
  Reader, Result, Error, ok, err, end_of_stream, read_byte, unsigned_loop, signed_loop, sign_extend,
  read_u32, read_u64, read_i64, read_i33,
}
use native.Mathlib.Nat.{mod-lt, one-le-pow}

pub Read-cases {ℓ} :
    {A : Type ℓ} (p : Result A × Reader)
    → ((a : A) × (r : Reader) × (p ≡ (ok a, r))) ⊎ ((e : Error) × (r : Reader) × (p ≡ (err e, r)))
Read-cases (ok a, r) = inl (a, r, refl)
Read-cases (err e, r) = inr (e, r, refl)

-- From `r` to `r'` between `low` and `high` bytes were taken, all of them within the slice.
pub record Advances (low high : ℕ) (r r' : Reader) : Type 0 where
  pub same_bytes : r'.bytes ≡ r.bytes
  pub at_least : r.pos + low ≤ r'.pos
  pub at_most : r'.pos ≤ r.pos + high
  pub within : r'.pos ≤ length r.bytes

-- A byte is there and is taken, or the slice has ended and the cursor stays.
pub read_byte_cases :
    (r : Reader)
    → (read_byte r ≡ (err end_of_stream, r)) × (length r.bytes ≤ r.pos)
      ⊎ (read_byte r ≡ (ok (get_or r.bytes r.pos 0), record r { pos = r.pos + 1 }))
        × (r.pos < length r.bytes)
unfolding read_byte
read_byte_cases r = ground arith

unsigned_loop-Advances :
    (bits rounds group value v : ℕ) (r r' : Reader)
    → value < 2 ^ bits
    → unsigned_loop bits rounds group value r ≡ (ok v, r')
    → (v < 2 ^ bits) × Advances 1 rounds r r'
unfolding unsigned_loop
unsigned_loop-Advances bits zero group value v r r' fits e = cc
unsigned_loop-Advances bits (suc rounds) group value v r r' fits e = elim (read_byte_cases r) [
  | inl (f, _) ↦ cc (e, f)
  | inr (f, lt) ↦
      let byte : ℕ = get_or r.bytes r.pos 0 in
      let shifted : ℕ = bit_and byte 0x7f * 2 ^ (group * 7) in
      let next : ℕ = bit_or value (shifted % 2 ^ bits) in
      let next_fits : next < 2 ^ bits =
        bit_or-lt bits value (shifted % 2 ^ bits) fits
          (mod-lt shifted (one-le-pow bits 2 (omega arith))) in
      ground (
        arith,
        f,
        next_fits,
        unsigned_loop-Advances bits rounds (group + 1) next v (record r { pos = r.pos + 1 }) r'
            next_fits,
      )
]

sign_extend-lt :
    (bits group byte value : ℕ) → value < 2 ^ bits → sign_extend bits group byte value < 2 ^ bits
unfolding sign_extend
sign_extend-lt bits group byte value fits =
    let ones : ℕ = (2 ^ bits - 1) * 2 ^ (group * 7 + 7) % 2 ^ bits in
    ground (
      arith,
      bit_or-lt bits value ones fits
          (mod-lt ((2 ^ bits - 1) * 2 ^ (group * 7 + 7)) (one-le-pow bits 2 (omega arith))),
    )

signed_loop-Advances :
    (bits rounds group value v : ℕ) (r r' : Reader)
    → value < 2 ^ bits
    → signed_loop bits rounds group value r ≡ (ok v, r')
    → (v < 2 ^ bits) × Advances 1 rounds r r'
unfolding signed_loop
signed_loop-Advances bits zero group value v r r' fits e = cc
signed_loop-Advances bits (suc rounds) group value v r r' fits e = elim (read_byte_cases r) [
  | inl (f, _) ↦ cc (e, f)
  | inr (f, lt) ↦
      let byte : ℕ = get_or r.bytes r.pos 0 in
      let shifted : ℕ = bit_and byte 0x7f * 2 ^ (group * 7) in
      let next : ℕ = bit_or value (shifted % 2 ^ bits) in
      let next_fits : next < 2 ^ bits =
        bit_or-lt bits value (shifted % 2 ^ bits) fits
          (mod-lt shifted (one-le-pow bits 2 (omega arith))) in
      ground (
        arith,
        f,
        sign_extend-lt bits group byte next next_fits,
        signed_loop-Advances bits rounds (group + 1) next v (record r { pos = r.pos + 1 }) r'
            next_fits,
      )
]

-- A `readU32` that succeeds gives a number below 2 ^ 32 after one to five bytes; it leaves the
-- slice as it was, and the cursor inside it.
pub read_u32-Advances :
    (v : ℕ) (r r' : Reader) → read_u32 r ≡ (ok v, r') → (v < 2 ^ 32) × Advances 1 5 r r'
unfolding read_u32
read_u32-Advances v r r' e = unsigned_loop-Advances 32 5 0 0 v r r' (omega arith) e

pub read_u64-Advances :
    (v : ℕ) (r r' : Reader) → read_u64 r ≡ (ok v, r') → (v < 2 ^ 64) × Advances 1 10 r r'
unfolding read_u64
read_u64-Advances v r r' e = unsigned_loop-Advances 64 10 0 0 v r r' (omega arith) e

pub read_i64-Advances :
    (v : ℕ) (r r' : Reader) → read_i64 r ≡ (ok v, r') → (v < 2 ^ 64) × Advances 1 10 r r'
unfolding read_i64
read_i64-Advances v r r' e = signed_loop-Advances 64 10 0 0 v r r' (omega arith) e

-- A `readI33` that succeeds gives the pattern of an i64 from -2 ^ 32 up to 2 ^ 32 - 1, after one
-- to ten bytes.
pub read_i33-Advances :
    (v : ℕ) (r r' : Reader)
    → read_i33 r ≡ (ok v, r')
    → ((v < 2 ^ 32) ⊎ (2 ^ 64 - 2 ^ 32 ≤ v) × (v < 2 ^ 64)) × Advances 1 10 r r'
unfolding read_i33
read_i33-Advances v r r' e = elim (Read-cases (read_i64 r)) [
  | inl (x, s, f) ↦ ground (arith, f, read_i64-Advances x r s f)
  | inr (x, s, f) ↦ cc (e, f)
]
