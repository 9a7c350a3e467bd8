-- ===== src/Leb128.antt =====
-- src/leb128.zig: a cursor over a byte slice, and the LEB128 readers of the module decoder.
-- A slice is a list of bytes, an integer of `bits` bits is its bit pattern, a number below
-- 2 ^ bits. Every method returns its result with the cursor that it leaves, also when it fails.
pub mod Encode
pub mod Bounds
pub mod RoundTrip
mod Tests
use zwasm.Base.{
  ℕ, zero, suc, ◌+◌, ◌-◌, ◌*◌, ◌/◌, ◌%◌, ◌^◌, bit_and, bit_or, ◌≡◌, ap, Bool, true, false, not,
  ◌&&◌, ◌||◌, List, ltb, leb, ◌==◌, if◌then◌else◌, length, get_or, take, drop,
}

pub data Error : Type 0 where
  overflow end_of_stream : Error

pub data Result {ℓ} (A : Type ℓ) : Type ℓ where
  ok : A → Result A
  err : Error → Result A

pub record Reader : Type 0 where
  pub bytes : List ℕ
  pub pos : ℕ

-- A method of `*Reader`.
abbrev pub Read {ℓ} : Type ℓ → Type ℓ
Read A = Reader → Result A × Reader

infixl 5 ◌>>=◌
abbrev pub ◌>>=◌ {ℓ κ} : {A : Type ℓ} {B : Type κ} → Read A → (A → Read B) → Read B
◌>>=◌ m f r = let (a, r') = m r in elim a [ ok x ↦ f x r' | err e ↦ (err e, r') ]

pub bind-ok {ℓ κ} :
    {A : Type ℓ} {B : Type κ} (m : Read A) (f : A → Read B) {r s : Reader} {a : A}
    → m r ≡ (ok a, s)
    → (m >>= f) r ≡ f a s
bind-ok m f e = ap (λ p. elim p.0 [ ok x ↦ f x p.1 | err x ↦ (err x, p.1) ]) e

abbrev pub return {ℓ} : {A : Type ℓ} → A → Read A
return a r = (ok a, r)

abbrev pub fail {ℓ} : {A : Type ℓ} → Error → Read A
fail e r = (err e, r)

pub init : List ℕ → Reader
init bytes = record { bytes = bytes; pos = 0 }

unfoldable pub read_byte : Read ℕ
read_byte r =
    if leb (length r.bytes) r.pos
    then (err end_of_stream, r)
    else (ok (get_or r.bytes r.pos 0), record r { pos = r.pos + 1 })

pub read_bytes : ℕ → Read (List ℕ)
read_bytes len r =
    if ltb (length r.bytes) (r.pos + len)
    then (err end_of_stream, r)
    else (ok (take len (drop r.pos r.bytes)), record r { pos = r.pos + len })

pub has_more : Reader → Bool
has_more r = ltb r.pos (length r.bytes)

pub remaining : Reader → ℕ
remaining r = length r.bytes - r.pos

pub sub_reader : ℕ → Read Reader
sub_reader len r = if ltb (length r.bytes) (r.pos + len) then (err end_of_stream, r) else (
  ok (record { bytes = take len (drop r.pos r.bytes); pos = 0 }),
  record r { pos = r.pos + len },
)

-- `(bits + 6) / 7`: the most bytes that an integer of `bits` bits may take.
abbrev pub max_group : ℕ → ℕ
max_group bits = (bits + 6) / 7

-- One round of `readUnsigned` once its byte is read; `continue` is the loop from there on.
-- `@shlWithOverflow` gives the shifted value modulo 2 ^ bits, and whether bits were lost.
unfoldable pub unsigned_byte : ℕ → ℕ → ℕ → (ℕ → Read ℕ) → ℕ → Read ℕ
unsigned_byte bits group value continue byte =
    let shifted = bit_and byte 0x7f * 2 ^ (group * 7) in
    let next = bit_or value (shifted % 2 ^ bits) in
    if leb (2 ^ bits) shifted
    then fail overflow
    else if bit_and byte 0x80 == 0
    then return next
    else continue next

-- `rounds` more bytes may come: `rounds + group` is `max_group`.
unfoldable pub unsigned_loop : ℕ → ℕ → ℕ → ℕ → Read ℕ
unfolding unsigned_byte
unsigned_loop bits zero group value = fail overflow
unsigned_loop bits (suc rounds) group value =
    read_byte >>= unsigned_byte bits group value (unsigned_loop bits rounds (group + 1))

unfoldable pub read_unsigned : ℕ → Read ℕ
unfolding unsigned_loop
read_unsigned bits = unsigned_loop bits (max_group bits) 0 0

-- An arithmetic shift to the right of a `w`-bit pattern, by at most `w`.
abbrev pub sar : ℕ → ℕ → ℕ → ℕ
sar w v s = if ltb v (2 ^ (w - 1)) then v / 2 ^ s else v / 2 ^ s + 2 ^ w - 2 ^ (w - s)

-- Whether `@as(i8, @bitCast(byte | 0x80)) >> remaining_shift` is -1.
abbrev pub extends_sign : ℕ → ℕ → Bool
extends_sign byte remaining_shift = sar 8 (bit_or byte 0x80) remaining_shift == 0xff

-- The checks of one round of `readSigned`: whether the byte is refused.
pub signed_refuses : ℕ → ℕ → ℕ → ℕ → Bool
signed_refuses bits byte shift shifted =
    let negative = leb (2 ^ (bits - 1)) (shifted % 2 ^ bits) in
    if leb (2 ^ bits) shifted
    then not (bit_and byte 0x80 == 0) || not negative || not (extends_sign byte (bits - shift))
    else bit_and byte 0x80 == 0 && negative && not (extends_sign byte (bits - shift))

-- The value after the last byte: a negative number that ended early gets its upper ones.
pub sign_extend : ℕ → ℕ → ℕ → ℕ → ℕ
sign_extend bits group byte value =
    if not (bit_and byte 0x40 == 0) && ltb (group + 1) (max_group bits)
    then bit_or value ((2 ^ bits - 1) * 2 ^ (group * 7 + 7) % 2 ^ bits)
    else value

unfoldable pub signed_byte : ℕ → ℕ → ℕ → (ℕ → Read ℕ) → ℕ → Read ℕ
unfolding signed_refuses sign_extend
signed_byte bits group value continue byte =
    let shifted = bit_and byte 0x7f * 2 ^ (group * 7) in
    let next = bit_or value (shifted % 2 ^ bits) in
    if signed_refuses bits byte (group * 7) shifted
    then fail overflow
    else if bit_and byte 0x80 == 0
    then return (sign_extend bits group byte next)
    else continue next

unfoldable pub signed_loop : ℕ → ℕ → ℕ → ℕ → Read ℕ
unfolding signed_byte
signed_loop bits zero group value = fail overflow
signed_loop bits (suc rounds) group value =
    read_byte >>= signed_byte bits group value (signed_loop bits rounds (group + 1))

unfoldable pub read_signed : ℕ → Read ℕ
unfolding signed_loop
read_signed bits = signed_loop bits (max_group bits) 0 0

unfoldable pub read_u32 : Read ℕ
unfolding read_unsigned
read_u32 = read_unsigned 32

unfoldable pub read_u64 : Read ℕ
unfolding read_unsigned
read_u64 = read_unsigned 64

unfoldable pub read_i32 : Read ℕ
unfolding read_signed
read_i32 = read_signed 32

unfoldable pub read_i64 : Read ℕ
unfolding read_signed
read_i64 = read_signed 64

-- The value is an i64; below -2 ^ 32, or from 2 ^ 32 on, it is refused.
unfoldable pub read_i33 : Read ℕ
read_i33 = do
  val ← read_i64
  let too_low = leb (2 ^ 63) val && ltb val (2 ^ 64 - 2 ^ 32)
  let too_high = ltb val (2 ^ 63) && leb (2 ^ 32) val
  if too_low || too_high then fail overflow else return val
