-- ===== src/Programs/Utf8/Tests.antt =====
-- The program's own test strings, and the theorems at concrete inputs.
use zwasm.Base.{ℕ, ◌≡◌, refl, arith, inl, inr, true, false, List, [], ◌∷◌, length, All}
use zwasm.Programs.Utf8.{lead, continuation, acceptable, decode_one, count, loop, utf8_analyze}
use zwasm.Programs.Utf8.Encode.{IsScalar, encode, encode_all}
use zwasm.Programs.Utf8.Correct.{
  ascii_count, multibyte_count, utf8_analyze-encode_all, utf8_analyze-valid,
}

abbrev mixed : List ℕ
mixed = 0x41 ∷ 0xc3 ∷ 0xa9 ∷ 0xe4 ∷ 0xb8 ∷ 0xad ∷ 0xf0 ∷ 0x9f ∷ 0x98 ∷ 0x80 ∷ []

mixed_run :
    utf8_analyze mixed
    ≡ record { valid = true; codepoints = 4; bytes = 10; ascii = 1; multibyte = 3 }
unfolding utf8_analyze loop decode_one lead continuation acceptable count
mixed_run = refl

overlong_run : (utf8_analyze (0xc0 ∷ 0xaf ∷ [])).valid ≡ false
unfolding utf8_analyze loop decode_one lead continuation acceptable count
overlong_run = refl

surrogate_run : (utf8_analyze (0xed ∷ 0xa0 ∷ 0x80 ∷ [])).valid ≡ false
unfolding utf8_analyze loop decode_one lead continuation acceptable count
surrogate_run = refl

too_big_run : (utf8_analyze (0xf4 ∷ 0x90 ∷ 0x80 ∷ 0x80 ∷ [])).valid ≡ false
unfolding utf8_analyze loop decode_one lead continuation acceptable count
too_big_run = refl

abbrev scalars : List ℕ
scalars = 0x41 ∷ 0xe9 ∷ 0x4e2d ∷ 0x1_f600 ∷ []

scalars-All : All IsScalar scalars
scalars-All = (
  inl (omega arith),
  (inl (omega arith), (inl (omega arith), (inr (omega arith, omega arith), tt))),
)

utf8_analyze-encode_all_example : utf8_analyze (encode_all scalars) ≡ record {
  valid = true;
  codepoints = length scalars;
  bytes = length (encode_all scalars);
  ascii = ascii_count scalars;
  multibyte = multibyte_count scalars;
}
unfolding encode_all encode
utf8_analyze-encode_all_example = utf8_analyze-encode_all scalars scalars-All (omega arith)

utf8_analyze-valid_example :
    (cps : List ℕ) × All IsScalar cps × (0x41 ∷ 0xc3 ∷ 0xa9 ∷ [] ≡ encode_all cps)
unfolding utf8_analyze loop decode_one lead continuation acceptable count
utf8_analyze-valid_example =
    utf8_analyze-valid (0x41 ∷ 0xc3 ∷ 0xa9 ∷ []) (omega arith, (omega arith, (omega arith, tt)))
      refl
