-- ===== src/Programs/Base64/Tests.antt =====
-- Runs on short inputs, and the round trip at one of them.
use zwasm.Base.{
  ℕ, ◌≡◌, refl, arith, true, false, none, some, List, [], ◌∷◌, ◌++◌, ◌-◌, length, replicate,
}
use zwasm.Programs.Base64.{
  eq_mask, gt_mask, ge_mask, lt_mask, le_mask, to_char, b64_byte_to_char, from_char, int_of_char,
  b64_char_to_byte, variant_ok, no_padding, is_urlsafe, text_len, emit, encode_loop, bin2base64,
  ignored, skip_padding, decode_loop, einval,
}
use zwasm.Programs.Base64.Decode.{check_tail, skip_ignored, base642bin}
use zwasm.Programs.Base64.RoundTrip.{base642bin-bin2base64}

-- "foob" is "Zm9vYg==", and the buffer ends in zeros.
bin2base64_foob :
    bin2base64 10 (102 ∷ 111 ∷ 111 ∷ 98 ∷ []) 1
    ≡ some (90 ∷ 109 ∷ 57 ∷ 118 ∷ 89 ∷ 103 ∷ 61 ∷ 61 ∷ 0 ∷ 0 ∷ [])
unfolding bin2base64 variant_ok no_padding is_urlsafe text_len emit encode_loop b64_byte_to_char
    to_char eq_mask gt_mask ge_mask lt_mask
bin2base64_foob = refl

-- Bits that are set behind the last byte are refused.
base642bin_loose_bits :
    base642bin 9 (90 ∷ 104 ∷ 61 ∷ 61 ∷ []) none true 1
    ≡ some (record {
      failed = true;
      errno = none;
      bin = 102 ∷ [];
      bin_len = 0;
      b64_end = 61 ∷ 61 ∷ [];
    })
unfolding base642bin variant_ok no_padding is_urlsafe check_tail decode_loop b64_char_to_byte
    from_char int_of_char eq_mask gt_mask ge_mask le_mask ignored
base642bin_loose_bits = refl

-- A zero that follows the text is left over, which is an error without a place for the end.
base642bin_left_over :
    base642bin 9 (90 ∷ 103 ∷ 61 ∷ 61 ∷ 0 ∷ []) none false 1
    ≡ some (record {
      failed = true;
      errno = some einval;
      bin = 102 ∷ [];
      bin_len = 1;
      b64_end = 0 ∷ [];
    })
unfolding base642bin variant_ok no_padding is_urlsafe check_tail skip_padding skip_ignored
    decode_loop b64_char_to_byte from_char int_of_char eq_mask gt_mask ge_mask le_mask ignored
base642bin_left_over = refl

variant_ok_seven : variant_ok 7 ≡ true
unfolding variant_ok
variant_ok_seven = refl

abbrev two_bytes : List ℕ
two_bytes = 251 ∷ 255 ∷ []

text_len_two_bytes : text_len 2 7 ≡ 3
unfolding text_len no_padding
text_len_two_bytes = refl

-- In the variant for URLs without padding.
base642bin-bin2base64_example :
    (text : List ℕ) × (bin2base64 4 two_bytes 7 ≡ some (text ++ replicate (4 - text_len 2 7) 0))
    × (length text ≡ text_len 2 7)
    × (base642bin 2 text none false 7
        ≡ some
            (record { failed = false; errno = none; bin = two_bytes; bin_len = 2; b64_end = [] }))
base642bin-bin2base64_example =
    base642bin-bin2base64 7 4 2 two_bytes false variant_ok_seven (omega arith, (omega arith, tt))
      (omega (arith, text_len_two_bytes)) (omega arith)
