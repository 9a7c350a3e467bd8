-- ===== src/Programs/Base64/Alphabet.antt =====
-- The characters of both alphabets: each of the 64 is decoded to its number, and `=` and zero to none.
use zwasm.Base.{ℕ, ◌<◌, ◌≡◌, refl, Bool, true, false, ◌==◌, ==_iff}
use zwasm.Base.Bits.{all_below-true}
use zwasm.Programs.Base64.{
  eq_mask, gt_mask, ge_mask, lt_mask, le_mask, to_char, b64_byte_to_char, from_char, int_of_char,
  b64_char_to_byte,
}

-- Decoding is the inverse of encoding on numbers of six bits, in both alphabets.
pub b64_char_to_byte-b64_byte_to_char :
    (urlsafe : Bool) (x : ℕ) → x < 64 → b64_char_to_byte urlsafe (b64_byte_to_char urlsafe x) ≡ x
unfolding b64_char_to_byte b64_byte_to_char to_char from_char int_of_char eq_mask gt_mask ge_mask
    lt_mask le_mask
b64_char_to_byte-b64_byte_to_char true x h =
    (==_iff _ _).0
      (all_below-true 64 (λ y. b64_char_to_byte true (b64_byte_to_char true y) == y) refl x h)
b64_char_to_byte-b64_byte_to_char false x h =
    (==_iff _ _).0
      (all_below-true 64 (λ y. b64_char_to_byte false (b64_byte_to_char false y) == y) refl x h)

-- No other char is decoded to a number of six bits.
pub b64_char_to_byte-equals : (urlsafe : Bool) → b64_char_to_byte urlsafe 61 ≡ 0xff
unfolding b64_char_to_byte from_char int_of_char eq_mask gt_mask ge_mask lt_mask le_mask
b64_char_to_byte-equals true = refl
b64_char_to_byte-equals false = refl
