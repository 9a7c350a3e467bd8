-- ===== src/Programs/Utf8/Correct.antt =====
-- The analysis accepts exactly the encodings of scalar values, and counts them.
use mathlib.Core.Path.{subst}
use native.Mathlib.Decide.{dec_lt}
use zwasm.Base.{
  ℕ, zero, suc, ◌+◌, ◌-◌, ◌*◌, ◌/◌, ◌%◌, ◌^◌, ◌≤◌, ◌<◌, ◌≡◌, refl, sym, ap, ◌∙◌, arith, inl, inr,
  true, false, none, some, List, [], ◌∷◌, ◌++◌, ltb, ◌==◌, if◌then◌else◌, length, length-append,
  All, Option-cases,
}
use zwasm.Programs.Utf8.{Utf8Stats, acceptable, decode_one, count, loop, utf8_analyze}
use zwasm.Programs.Utf8.Bytes.{decode_one-ascii, decode_one-two, decode_one-three, decode_one-four}
use zwasm.Programs.Utf8.Sound.{IsBytes, Accepted, decode_one-Accepted}
use zwasm.Programs.Utf8.Encode.{IsScalar, encode, encode_all}

abbrev pub width : ℕ → ℕ
width cp = if ltb cp 0x80 then 1 else if ltb cp 0x800 then 2 else if ltb cp 0x1_0000 then 3 else 4

-- One round on an encoding takes it whole.
decode_one-encode :
    (cp : ℕ) (rest : List ℕ)
    → IsScalar cp
    → decode_one (encode cp ++ rest) ≡ some (width cp, cp, rest)
unfolding encode acceptable
decode_one-encode cp rest scalar = elim (dec_lt cp 0x80) [
  | yes p ↦ let e : ltb cp 0x80 ≡ true = ground arith in rw e (decode_one-ascii cp rest p)
  | no p ↦
      let e : ltb cp 0x80 ≡ false = ground arith in
      elim (dec_lt cp 0x800) [
        | yes q ↦
            let f : ltb cp 0x800 ≡ true = ground arith in
            let there =
              decode_one-two (0xc0 + cp / 64) (0x80 + cp % 64) rest (omega arith) (omega arith)
                (omega arith) in
            let back : (0xc0 + cp / 64 - 192) * 64 + (0x80 + cp % 64) % 64 ≡ cp = omega arith in
            let mark : ((0x80 + cp % 64) / 64 == 2) ≡ true = ground arith in
            rw (e, f, there, back, mark) (ground arith)
        | no q ↦
            let f : ltb cp 0x800 ≡ false = ground arith in
            elim (dec_lt cp 0x1_0000) [
              | yes r ↦
                  let g : ltb cp 0x1_0000 ≡ true = ground arith in
                  let there =
                    decode_one-three (0xe0 + cp / 4096) (0x80 + cp / 64 % 64) (0x80 + cp % 64) rest
                      (omega arith) (omega arith) (omega arith) (omega arith) in
                  let back : ((0xe0 + cp / 4096 - 224) * 64 + (0x80 + cp / 64 % 64) % 64) * 64
                        + (0x80 + cp % 64) % 64
                      ≡ cp =
                    omega arith in
                  let mark : ((0x80 + cp / 64 % 64) / 64 == 2) ≡ true = ground arith in
                  let mark' : ((0x80 + cp % 64) / 64 == 2) ≡ true = ground arith in
                  rw (e, f, g, there, back, mark, mark') (ground arith)
              | no r ↦
                  let g : ltb cp 0x1_0000 ≡ false = ground arith in
                  let top : cp ≤ 0x10_ffff = ground arith in
                  let there =
                    decode_one-four (0xf0 + cp / 262144) (0x80 + cp / 4096 % 64)
                      (0x80 + cp / 64 % 64) (0x80 + cp % 64) rest (omega arith) (omega arith)
                      (omega arith) (omega arith) (omega arith) in
                  let back : (((0xf0 + cp / 262144 - 240) * 64 + (0x80 + cp / 4096 % 64) % 64) * 64
                            + (0x80 + cp / 64 % 64) % 64)
                          * 64
                        + (0x80 + cp % 64) % 64
                      ≡ cp =
                    omega arith in
                  let mark : ((0x80 + cp / 4096 % 64) / 64 == 2) ≡ true = ground arith in
                  let mark' : ((0x80 + cp / 64 % 64) / 64 == 2) ≡ true = ground arith in
                  let mark'' : ((0x80 + cp % 64) / 64 == 2) ≡ true = ground arith in
                  rw (e, f, g, there, back, mark, mark', mark'') (ground arith)
            ]
      ]
]

-- One round of the loop that accepts.
loop-step :
    (fuel n cp : ℕ) (bytes behind : List ℕ) (s : Utf8Stats)
    → decode_one bytes ≡ some (n, cp, behind)
    → loop (suc fuel) bytes s ≡ loop fuel behind (count n s)
unfolding loop decode_one
loop-step fuel n cp [] behind s e = cc e
loop-step fuel n cp (b ∷ rest) behind s e = rw (loop, e) refl

-- How many of the scalar values are ASCII, and how many are not.
abbrev pub ascii_count : List ℕ → ℕ
ascii_count [] = 0
ascii_count (cp ∷ cps) = (if ltb cp 0x80 then 1 else 0) + ascii_count cps

abbrev pub multibyte_count : List ℕ → ℕ
multibyte_count [] = 0
multibyte_count (cp ∷ cps) = (if ltb cp 0x80 then 0 else 1) + multibyte_count cps

-- The counters after the whole text.
abbrev total : List ℕ → Utf8Stats → Utf8Stats
total cps s = record s {
  codepoints = s.codepoints + length cps;
  ascii = s.ascii + ascii_count cps;
  multibyte = s.multibyte + multibyte_count cps;
}

counters :
    (s : Utf8Stats) {c c' a a' m m' : ℕ}
    → c ≡ c'
    → a ≡ a'
    → m ≡ m'
    → record s { codepoints = c; ascii = a; multibyte = m }
      ≡ record s { codepoints = c'; ascii = a'; multibyte = m' }
counters s p q r = cc (p, q, r)

count-total :
    (cp : ℕ) (cps : List ℕ) (s : Utf8Stats) → total cps (count (width cp) s) ≡ total (cp ∷ cps) s
unfolding count
count-total cp cps s = counters s (omega arith) (ground arith) (ground arith)

encode-length : (cp : ℕ) → 0 < length (encode cp)
unfolding encode
encode-length cp = ground arith

loop-encode_all :
    (fuel : ℕ) (cps : List ℕ) (s : Utf8Stats)
    → All IsScalar cps
    → length (encode_all cps) ≤ fuel
    → loop fuel (encode_all cps) s ≡ total cps s
unfolding encode_all loop
loop-encode_all fuel [] s scalars enough = counters s (omega arith) (omega arith) (omega arith)
loop-encode_all zero (cp ∷ cps) s scalars enough =
    absurd (omega (arith, encode-length cp, length-append (encode cp) (encode_all cps)))
loop-encode_all (suc fuel) (cp ∷ cps) s (h, scalars) enough =
    loop-step fuel (width cp) cp (encode cp ++ encode_all cps) (encode_all cps) s
      (decode_one-encode cp (encode_all cps) h)
    ∙ loop-encode_all fuel cps (count (width cp) s) scalars
        (omega (arith, encode-length cp, length-append (encode cp) (encode_all cps)))
    ∙ count-total cp cps s

-- On an encoded text of less than 2 ^ 31 bytes, whatever its scalar values: it is valid, and the
-- counters are the numbers of its code points, bytes, ASCII characters and others.
pub utf8_analyze-encode_all :
    (cps : List ℕ)
    → All IsScalar cps
    → length (encode_all cps) < 2 ^ 31
    → utf8_analyze (encode_all cps) ≡ record {
      valid = true;
      codepoints = length cps;
      bytes = length (encode_all cps);
      ascii = ascii_count cps;
      multibyte = multibyte_count cps;
    }
unfolding utf8_analyze
utf8_analyze-encode_all cps scalars short =
    let size : length (encode_all cps) % 2 ^ 32 ≡ length (encode_all cps) = omega arith in
    loop-encode_all (length (encode_all cps)) cps _ scalars (omega arith)
    ∙ rw size (
        counters
          (record {
            valid = true;
            codepoints = 0;
            bytes = length (encode_all cps);
            ascii = 0;
            multibyte = 0;
          })
          (omega arith) (omega arith) (omega arith))

loop-refuse :
    (fuel b : ℕ) (rest : List ℕ) (s : Utf8Stats)
    → decode_one (b ∷ rest) ≡ none
    → loop (suc fuel) (b ∷ rest) s ≡ record s { valid = false }
unfolding loop
loop-refuse fuel b rest s e = rw (loop, e) refl

loop-valid :
    (fuel : ℕ) (bytes : List ℕ) (s : Utf8Stats)
    → IsBytes bytes
    → length bytes ≤ fuel
    → (loop fuel bytes s).valid ≡ true
    → (cps : List ℕ) × All IsScalar cps × (bytes ≡ encode_all cps)
unfolding encode_all loop
loop-valid fuel [] s all enough ok = ([], tt, refl)
loop-valid zero (b ∷ rest) s all enough ok = absurd (omega arith)
loop-valid (suc fuel) (b ∷ rest) s all enough ok = elim (Option-cases (decode_one (b ∷ rest))) [
  | inl e ↦ cc (ap (λ (t : Utf8Stats). t.valid) (loop-refuse fuel b rest s e), ok)
  | inr ((n, cp, behind), e) ↦
      let next : loop (suc fuel) (b ∷ rest) s ≡ loop fuel behind (count n s) =
        loop-step fuel n cp (b ∷ rest) behind s e in
      let (scalar, split, small, shorter) =
        subst (Accepted (b ∷ rest)) e (decode_one-Accepted (b ∷ rest) all) in
      let (cps, scalars, whole) =
        loop-valid fuel behind (count n s) small (omega (arith, shorter))
          (ap (λ (t : Utf8Stats). t.valid) (sym next) ∙ ok) in
      (cp ∷ cps, (scalar, scalars), split ∙ ap (λ t. encode cp ++ t) whole)
]

-- A text of bytes that is found valid is the encoding of some scalar values: no overlong form,
-- no surrogate, nothing above 0x10ffff, and no sequence cut short.
pub utf8_analyze-valid :
    (bytes : List ℕ)
    → IsBytes bytes
    → (utf8_analyze bytes).valid ≡ true
    → (cps : List ℕ) × All IsScalar cps × (bytes ≡ encode_all cps)
unfolding utf8_analyze
utf8_analyze-valid bytes all ok = loop-valid (length bytes) bytes _ all (omega arith) ok
