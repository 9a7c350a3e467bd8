-- ===== src/Programs/Base64/Steps.antt =====
-- One byte of the encoder's loop and one character of the decoder's, by the bits that are left.
use zwasm.Base.{
  ℕ, ◌+◌, ◌-◌, ◌*◌, ◌/◌, ◌%◌, ◌^◌, ◌≤◌, ◌<◌, ◌≡◌, refl, ◌∙◌, arith, Bool, false, none, List, [],
  ◌∷◌, ◌++◌, ltb, leb, ◌==◌, length, bit_and,
}
use zwasm.Base.Bits.{bit_and_mask}
use zwasm.Programs.Base64.{b64_byte_to_char, emit, encode_loop, decode_loop}
use zwasm.Programs.Base64.Alphabet.{b64_char_to_byte-b64_byte_to_char}

-- The accumulators after a byte and after a character.
abbrev pub after_byte : ℕ → ℕ → ℕ
after_byte acc b = (acc * 2 ^ 8 % 2 ^ 32 + b) % 2 ^ 32

abbrev pub after_char : ℕ → ℕ → ℕ
after_char acc x = (acc * 2 ^ 6 % 2 ^ 32 + x) % 2 ^ 32

six_bits : (a : ℕ) → bit_and a 0x3f ≡ a % 64
six_bits a = bit_and_mask 6 a

eight_bits : (a : ℕ) → bit_and a 0xff ≡ a % 256
eight_bits a = bit_and_mask 8 a

pub encode_loop-zero :
    (u : Bool) (acc b : ℕ) (bin : List ℕ)
    → b < 256
    → encode_loop u acc 0 (b ∷ bin)
      ≡ b64_byte_to_char u (b / 4) ∷ encode_loop u (after_byte acc b) 2 bin
unfolding encode_loop emit
encode_loop-zero u acc b bin h =
    let bits : after_byte acc b / 4 % 64 ≡ b / 4 = omega arith in
    rw (six_bits (after_byte acc b / 4), bits) refl

pub encode_loop-two :
    (u : Bool) (acc b : ℕ) (bin : List ℕ)
    → b < 256
    → encode_loop u acc 2 (b ∷ bin)
      ≡ b64_byte_to_char u (acc % 4 * 16 + b / 16) ∷ encode_loop u (after_byte acc b) 4 bin
unfolding encode_loop emit
encode_loop-two u acc b bin h =
    let bits : after_byte acc b / 16 % 64 ≡ acc % 4 * 16 + b / 16 = omega arith in
    rw (six_bits (after_byte acc b / 16), bits) refl

pub encode_loop-four :
    (u : Bool) (acc b : ℕ) (bin : List ℕ)
    → b < 256
    → encode_loop u acc 4 (b ∷ bin)
      ≡ b64_byte_to_char u (acc % 16 * 4 + b / 64)
        ∷ b64_byte_to_char u (b % 64)
        ∷ encode_loop u (after_byte acc b) 0 bin
unfolding encode_loop emit
encode_loop-four u acc b bin h =
    let high : after_byte acc b / 64 % 64 ≡ acc % 16 * 4 + b / 64 = omega arith in
    let low : after_byte acc b / 1 % 64 ≡ b % 64 = omega arith in
    rw (six_bits (after_byte acc b / 64), high, six_bits (after_byte acc b / 1), low) refl

pub encode_loop-end_two :
    (u : Bool) (acc : ℕ) → encode_loop u acc 2 [] ≡ b64_byte_to_char u (acc % 4 * 16) ∷ []
unfolding encode_loop
encode_loop-end_two u acc =
    let bits : acc * 2 ^ 4 % 2 ^ 32 % 64 ≡ acc % 4 * 16 = omega arith in
    rw (six_bits (acc * 2 ^ 4 % 2 ^ 32), bits) refl

pub encode_loop-end_four :
    (u : Bool) (acc : ℕ) → encode_loop u acc 4 [] ≡ b64_byte_to_char u (acc % 16 * 4) ∷ []
unfolding encode_loop
encode_loop-end_four u acc =
    let bits : acc * 2 ^ 2 % 2 ^ 32 % 64 ≡ acc % 16 * 4 = omega arith in
    rw (six_bits (acc * 2 ^ 2 % 2 ^ 32), bits) refl

module _ (u : Bool) (cap : ℕ) where
  pub decode_loop-zero :
      (acc x : ℕ) (bin b64 : List ℕ)
      → x < 64
      → decode_loop u none cap acc 0 bin (b64_byte_to_char u x ∷ b64)
        ≡ decode_loop u none cap (after_char acc x) 6 bin b64
  unfolding decode_loop
  decode_loop-zero acc x bin b64 h =
      let test : (x == 0xff) ≡ false = ground arith in
      rw (decode_loop, b64_char_to_byte-b64_byte_to_char u x h, test) refl

  -- With `acc_len` bits waiting, at least two, a character completes a byte.
  decode_loop-byte :
      (acc acc_len x : ℕ) (bin b64 : List ℕ)
      → x < 64
      → 2 ≤ acc_len
      → length bin < cap
      → decode_loop u none cap acc acc_len bin (b64_byte_to_char u x ∷ b64)
        ≡ decode_loop u none cap
            (after_char acc x)
            (acc_len - 2)
            (bin ++ (after_char acc x / 2 ^ (acc_len - 2) % 256) ∷ [])
            b64
  unfolding decode_loop
  decode_loop-byte acc acc_len x bin b64 h enough room =
      let test : (x == 0xff) ≡ false = ground arith in
      let full : ltb (acc_len + 6) 8 ≡ false = ground arith in
      let fits : leb cap (length bin) ≡ false = ground arith in
      rw
        (
          decode_loop,
          b64_char_to_byte-b64_byte_to_char u x h,
          test,
          full,
          fits,
          eight_bits (after_char acc x / 2 ^ (acc_len - 2)),
        )
        refl

  pub decode_loop-six :
      (acc x : ℕ) (bin b64 : List ℕ)
      → x < 64
      → length bin < cap
      → decode_loop u none cap acc 6 bin (b64_byte_to_char u x ∷ b64)
        ≡ decode_loop u none cap (after_char acc x) 4 (bin ++ (acc % 64 * 4 + x / 16) ∷ []) b64
  decode_loop-six acc x bin b64 h room =
      let bits : after_char acc x / 16 % 256 ≡ acc % 64 * 4 + x / 16 = omega arith in
      decode_loop-byte acc 6 x bin b64 h (omega arith) room ∙ rw bits refl

  pub decode_loop-four :
      (acc x : ℕ) (bin b64 : List ℕ)
      → x < 64
      → length bin < cap
      → decode_loop u none cap acc 4 bin (b64_byte_to_char u x ∷ b64)
        ≡ decode_loop u none cap (after_char acc x) 2 (bin ++ (acc % 16 * 16 + x / 4) ∷ []) b64
  decode_loop-four acc x bin b64 h room =
      let bits : after_char acc x / 4 % 256 ≡ acc % 16 * 16 + x / 4 = omega arith in
      decode_loop-byte acc 4 x bin b64 h (omega arith) room ∙ rw bits refl

  pub decode_loop-two :
      (acc x : ℕ) (bin b64 : List ℕ)
      → x < 64
      → length bin < cap
      → decode_loop u none cap acc 2 bin (b64_byte_to_char u x ∷ b64)
        ≡ decode_loop u none cap (after_char acc x) 0 (bin ++ (acc % 4 * 64 + x) ∷ []) b64
  decode_loop-two acc x bin b64 h room =
      let bits : after_char acc x / 1 % 256 ≡ acc % 4 * 64 + x = omega arith in
      decode_loop-byte acc 2 x bin b64 h (omega arith) room ∙ rw bits refl
