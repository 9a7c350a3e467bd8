-- ===== src/Programs/Base64.antt =====
-- bench/shootout-src/base64.c. The output buffers are lists that grow by one element where the code
-- writes `b64[b64_pos++]`; the input from `b64_pos` on is a list. An `unsigned int` is 32 bits wide
-- and a `char` is signed, as on WebAssembly.
pub mod Decode
pub mod Alphabet
pub mod Steps
pub mod Groups
pub mod RoundTrip
pub mod Tests
use zwasm.Base.{
  ℕ, zero, suc, ◌+◌, ◌-◌, ◌*◌, ◌/◌, ◌%◌, ◌^◌, Bool, true, false, ◌&&◌, ◌||◌, not, Option, none,
  some, List, [], ◌∷◌, ◌++◌, ltb, leb, ◌==◌, if◌then◌else◌, length, replicate, bit_and, bit_or,
  bit_xor,
}

-- The macros: all ones where the test holds, else 0.
unfoldable pub eq_mask : ℕ → ℕ → ℕ
eq_mask x y = bit_xor (bit_and ((2 ^ 32 - bit_xor x y) % 2 ^ 32 / 2 ^ 8) 0xff) 0xff

unfoldable pub gt_mask : ℕ → ℕ → ℕ
gt_mask x y = bit_and ((y + 2 ^ 32 - x) % 2 ^ 32 / 2 ^ 8) 0xff

unfoldable pub ge_mask : ℕ → ℕ → ℕ
ge_mask x y = bit_xor (gt_mask y x) 0xff

unfoldable pub lt_mask : ℕ → ℕ → ℕ
lt_mask x y = gt_mask y x

unfoldable pub le_mask : ℕ → ℕ → ℕ
le_mask x y = ge_mask y x

-- Addition of a difference that may be negative.
abbrev pub wrap_add : ℕ → ℕ → ℕ
wrap_add x y = (x + y) % 2 ^ 32

abbrev pub wrap_sub : ℕ → ℕ → ℕ
wrap_sub x y = (x + 2 ^ 32 - y) % 2 ^ 32

-- The three ranges that both alphabets share, then the two characters in which they differ.
unfoldable pub to_char : ℕ → ℕ → ℕ → ℕ
to_char c62 c63 x =
    bit_or
      (bit_or
        (bit_or
          (bit_or (bit_and (lt_mask x 26) (wrap_add x 65))
            (bit_and (bit_and (ge_mask x 26) (lt_mask x 52)) (wrap_add x 71)))
          (bit_and (bit_and (ge_mask x 52) (lt_mask x 62)) (wrap_sub x 4)))
        (bit_and (eq_mask x 62) c62))
      (bit_and (eq_mask x 63) c63)

-- `b64_byte_to_urlsafe_char` and `b64_byte_to_char`, as chars.
unfoldable pub b64_byte_to_char : Bool → ℕ → ℕ
b64_byte_to_char urlsafe x = (if urlsafe then to_char 45 95 x else to_char 43 47 x) % 256

unfoldable pub from_char : ℕ → ℕ → ℕ → ℕ
from_char c62 c63 c =
    let x =
      bit_or
        (bit_or
          (bit_or
            (bit_or (bit_and (bit_and (ge_mask c 65) (le_mask c 90)) (wrap_sub c 65))
              (bit_and (bit_and (ge_mask c 97) (le_mask c 122)) (wrap_sub c 71)))
            (bit_and (bit_and (ge_mask c 48) (le_mask c 57)) (wrap_add c 4)))
          (bit_and (eq_mask c c62) 62))
        (bit_and (eq_mask c c63) 63) in
    bit_or x (bit_and (eq_mask x 0) (bit_xor (eq_mask c 65) 0xff))

-- A char as an int, by its pattern.
unfoldable pub int_of_char : ℕ → ℕ
int_of_char c = if ltb c 128 then c else c + 2 ^ 32 - 256

unfoldable pub b64_char_to_byte : Bool → ℕ → ℕ
b64_char_to_byte urlsafe c =
    if urlsafe then from_char 45 95 (int_of_char c) else from_char 43 47 (int_of_char c)

-- `base64_check_variant`: any other number makes it loop for ever.
unfoldable pub variant_ok : ℕ → Bool
variant_ok variant = bit_and variant (2 ^ 32 - 7) == 1

unfoldable pub no_padding : ℕ → Bool
no_padding variant = not (bit_and variant 2 == 0)

unfoldable pub is_urlsafe : ℕ → Bool
is_urlsafe variant = not (bit_and variant 4 == 0)

-- `b64_len` in `bin2base64`.
unfoldable pub text_len : ℕ → ℕ → ℕ
text_len bin_len variant =
    let nibbles = bin_len / 3 in
    let remainder = bin_len - 3 * nibbles in
    if remainder == 0
    then nibbles * 4
    else if no_padding variant
    then nibbles * 4 + (2 + remainder / 2)
    else nibbles * 4 + 4

-- The inner loop, which runs twice at most: `acc_len` is below 14.
unfoldable pub emit : ℕ → Bool → ℕ → ℕ → List ℕ × ℕ
emit zero urlsafe acc acc_len = ([], acc_len)
emit (suc fuel) urlsafe acc acc_len =
    let (chars, left) = emit fuel urlsafe acc (acc_len - 6) in
    if leb 6 acc_len
    then (b64_byte_to_char urlsafe (bit_and (acc / 2 ^ (acc_len - 6)) 0x3f) ∷ chars, left)
    else ([], acc_len)

-- The outer loop and what is left behind it.
unfoldable pub encode_loop : Bool → ℕ → ℕ → List ℕ → List ℕ
encode_loop urlsafe acc acc_len [] =
    if ltb 0 acc_len
    then b64_byte_to_char urlsafe (bit_and (acc * 2 ^ (6 - acc_len) % 2 ^ 32) 0x3f) ∷ []
    else []
encode_loop urlsafe acc acc_len (b ∷ bin) =
    let acc' = (acc * 2 ^ 8 % 2 ^ 32 + b) % 2 ^ 32 in
    let (chars, left) = emit 2 urlsafe acc' (acc_len + 8) in
    chars ++ encode_loop urlsafe acc' left bin

-- `none` is a loop for ever, or the assertion that fails. The buffer ends in zeros.
unfoldable pub bin2base64 : ℕ → List ℕ → ℕ → Option (List ℕ)
bin2base64 b64_maxlen bin variant =
    let b64_len = text_len (length bin) variant in
    let chars = encode_loop (is_urlsafe variant) 0 0 bin in
    if not (variant_ok variant) || leb b64_maxlen b64_len
    then none
    else if leb (length chars) b64_len
    then some
        ((chars ++ replicate (b64_len - length chars) 61) ++ replicate (b64_maxlen - b64_len) 0)
    else none

pub data Errno : Type 0 where
  erange einval : Errno

-- `strchr` finds the zero at the string's end too.
unfoldable pub strchr : List ℕ → ℕ → Bool
strchr [] c = c == 0
strchr (x ∷ xs) c = x == c || strchr xs c

unfoldable pub ignored : Option (List ℕ) → ℕ → Bool
ignored none c = false
ignored (some chars) c = strchr chars c

-- `_base642bin_skip_padding`: the input that is left, or the error with it.
unfoldable pub skip_padding : ℕ → Option (List ℕ) → List ℕ → Option Errno × List ℕ
skip_padding zero ignore b64 = (none, b64)
skip_padding (suc n) ignore [] = (some erange, [])
skip_padding (suc n) ignore (c ∷ b64) =
    let next = skip_padding n ignore b64 in
    let stay = skip_padding (suc n) ignore b64 in
    if c == 61 then next else if ignored ignore c then stay else (some einval, c ∷ b64)

-- Where the decoding loop ends: its variables, and the error that broke it off.
pub record Decoding : Type 0 where
  pub acc : ℕ
  pub acc_len : ℕ
  pub bin : List ℕ
  pub rest : List ℕ
  pub error : Option Errno

unfoldable pub decode_loop : Bool → Option (List ℕ) → ℕ → ℕ → ℕ → List ℕ → List ℕ → Decoding
decode_loop urlsafe ignore bin_maxlen acc acc_len bin [] = record {
  acc = acc;
  acc_len = acc_len;
  bin = bin;
  rest = [];
  error = none;
}
decode_loop urlsafe ignore bin_maxlen acc acc_len bin (c ∷ b64) =
    let d = b64_char_to_byte urlsafe c in
    let acc' = (acc * 2 ^ 6 % 2 ^ 32 + d) % 2 ^ 32 in
    let skipped = decode_loop urlsafe ignore bin_maxlen acc acc_len bin b64 in
    let longer = decode_loop urlsafe ignore bin_maxlen acc' (acc_len + 6) bin b64 in
    let byte = bit_and (acc' / 2 ^ (acc_len - 2)) 0xff in
    let written = decode_loop urlsafe ignore bin_maxlen acc' (acc_len - 2) (bin ++ byte ∷ []) b64 in
    if d == 0xff
    then (if ignored ignore c
        then skipped
        else record { acc = acc; acc_len = acc_len; bin = bin; rest = c ∷ b64; error = none })
    else if ltb (acc_len + 6) 8
    then longer
    else if leb bin_maxlen (length bin)
    then record {
      acc = acc';
      acc_len = acc_len - 2;
      bin = bin;
      rest = c ∷ b64;
      error = some erange;
    }
    else written
