-- ===== src/Programs/Utf8.antt =====
-- test/realworld/c/utf8_validate.c: `utf8_analyze`. The bytes from `data + i` on are a list, so
-- `i + seq_len > len` is a test on its length.
pub mod Bytes
pub mod Encode
pub mod Sound
pub mod Correct
pub mod Tests
use zwasm.Base.{
  ℕ, zero, suc, ◌+◌, ◌-◌, ◌*◌, ◌%◌, ◌^◌, Bool, true, false, ◌&&◌, ◌||◌, not, Option, none, some,
  List, [], ◌∷◌, ltb, leb, ◌==◌, if◌then◌else◌, length, bit_and, bit_or,
}
use zwasm.Base.Options.{◌>>=◌}

pub record Utf8Stats : Type 0 where
  pub valid : Bool
  pub codepoints : ℕ
  pub bytes : ℕ
  pub ascii : ℕ
  pub multibyte : ℕ

-- `seq_len` and the bits of the first byte.
unfoldable pub lead : ℕ → Option (ℕ × ℕ)
lead b =
    if leb b 0x7f
    then some (1, b)
    else if bit_and b 0xe0 == 0xc0
    then some (2, bit_and b 0x1f)
    else if bit_and b 0xf0 == 0xe0
    then some (3, bit_and b 0x0f)
    else if bit_and b 0xf8 == 0xf0
    then some (4, bit_and b 0x07)
    else none

-- The loop over the bytes behind the first, with `n` of them to go.
unfoldable pub continuation : ℕ → ℕ → List ℕ → Option (ℕ × List ℕ)
continuation zero cp rest = some (cp, rest)
continuation (suc n) cp [] = none
continuation (suc n) cp (b ∷ rest) =
    let more = continuation n (bit_or (cp * 2 ^ 6 % 2 ^ 32) (bit_and b 0x3f)) rest in
    if bit_and b 0xc0 == 0x80 then more else none

-- Overlong encodings, surrogates, and what is too large.
unfoldable pub acceptable : ℕ → ℕ → Bool
acceptable seq_len cp =
    not (seq_len == 2 && ltb cp 0x80)
    && not (seq_len == 3 && ltb cp 0x800)
    && not (seq_len == 4 && ltb cp 0x1_0000)
    && not (leb 0xd800 cp && leb cp 0xdfff)
    && not (ltb 0x10_ffff cp)

-- One round of the loop up to its counters: `seq_len`, `cp`, and the bytes behind; `none` is a
-- `return` with `valid` at 0.
unfoldable pub decode_one : List ℕ → Option (ℕ × ℕ × List ℕ)
decode_one [] = none
decode_one (b ∷ rest) = lead b >>= λ (seq_len, first).
    (if ltb (suc (length rest)) seq_len
      then none
      else (continuation (seq_len - 1) first rest >>= λ (cp, behind).
          (if acceptable seq_len cp then some (seq_len, cp, behind) else none)))

-- A round that starts with an ASCII byte never fails, so `ascii` may count at its end.
unfoldable pub count : ℕ → Utf8Stats → Utf8Stats
count seq_len s = record s {
  ascii = if seq_len == 1 then s.ascii + 1 else s.ascii;
  multibyte = if ltb 1 seq_len then s.multibyte + 1 else s.multibyte;
  codepoints = s.codepoints + 1;
}

-- The loop takes a byte at least in each round: as much fuel as bytes is enough.
unfoldable pub loop : ℕ → List ℕ → Utf8Stats → Utf8Stats
loop fuel [] s = s
loop zero (b ∷ rest) s = s
loop (suc fuel) (b ∷ rest) s = elim (decode_one (b ∷ rest)) [
  | none ↦ record s { valid = false }
  | some (seq_len, cp, behind) ↦ loop fuel behind (count seq_len s)
]

-- `(int)len` is the pattern of an int.
unfoldable pub utf8_analyze : List ℕ → Utf8Stats
utf8_analyze bytes = loop (length bytes) bytes (record {
  valid = true;
  codepoints = 0;
  bytes = length bytes % 2 ^ 32;
  ascii = 0;
  multibyte = 0;
})
