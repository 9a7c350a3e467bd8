-- ===== src/Programs/Base64/RoundTrip.antt =====
-- Decoding what was encoded gives the bytes back, in all four variants.
use mathlib.Core.List.{append_assoc, append-nil}
use zwasm.Base.{
  ℕ, zero, suc, ◌+◌, ◌-◌, ◌*◌, ◌/◌, ◌%◌, ◌^◌, ◌≤◌, ◌<◌, ◌≡◌, refl, sym, ap, ◌∙◌, arith, ◌⊎◌, inl,
  inr, Bool, true, false, not, ◌&&◌, none, some, List, [], ◌∷◌, ◌++◌, ltb, leb, if◌then◌else◌,
  length, length-append, replicate, length-replicate, All, Bool-cases, bit_and,
}
use zwasm.Base.Bits.{bit_and_mask}
use zwasm.Programs.Base64.Alphabet.{b64_char_to_byte-equals}
use zwasm.Programs.Base64.{
  ignored, skip_padding, bin2base64, encode_loop, decode_loop, text_len, no_padding, is_urlsafe,
  variant_ok,
}
use zwasm.Programs.Base64.Decode.{check_tail, skip_ignored, base642bin}
use zwasm.Programs.Base64.Groups.{
  group_one, group_two, group_three, encode_one, encode_two, encode_three,
}
use zwasm.Programs.Base64.Steps.{after_byte, after_char}

-- The bits that a text of `n` bytes leaves in the decoder.
abbrev pub left_bits : ℕ → ℕ
left_bits zero = 0
left_bits (suc zero) = 4
left_bits (suc (suc zero)) = 2
left_bits (suc (suc (suc n))) = left_bits n

-- The decoder goes through all characters of `bin`, and has read it after `out`.
abbrev Reads : Bool → ℕ → ℕ → ℕ → List ℕ → List ℕ → List ℕ → Type 0
Reads u cap acc acc' out bin tail =
    (a : ℕ) × (decode_loop u none cap acc' 0 out (encode_loop u acc 0 bin ++ tail)
      ≡ decode_loop u none cap a (left_bits (length bin)) (out ++ bin) tail)
    × (a % 2 ^ left_bits (length bin) ≡ 0)

decode_loop-encode_loop :
    (u : Bool) (cap acc acc' : ℕ) (out bin tail : List ℕ)
    → All (λ b. b < 256) bin
    → length out + length bin ≤ cap
    → Reads u cap acc acc' out bin tail
unfolding encode_loop
decode_loop-encode_loop u cap acc acc' out [] tail all room =
    (acc', ap (λ t. decode_loop u none cap acc' 0 t tail) (sym (append-nil out)), omega arith)
decode_loop-encode_loop u cap acc acc' out (b0 ∷ []) tail (h0, all) room =
    let y : ℕ = b0 % 4 * 16 in
    (
      after_char (after_char acc' (b0 / 4)) y,
      ap (λ t. decode_loop u none cap acc' 0 out (t ++ tail)) (encode_one u acc b0 h0)
          ∙ group_one u cap acc' (b0 / 4) y b0 out tail (omega arith) (omega arith) (omega arith)
              (omega arith),
      omega arith,
    )
decode_loop-encode_loop u cap acc acc' out (b0 ∷ b1 ∷ []) tail (h0, (h1, all)) room =
    let y : ℕ = b0 % 4 * 16 + b1 / 16 in
    let z : ℕ = b1 % 16 * 4 in
    (
      after_char (after_char (after_char acc' (b0 / 4)) y) z,
      ap (λ t. decode_loop u none cap acc' 0 out (t ++ tail)) (encode_two u acc b0 b1 h0 h1)
          ∙ group_two u cap acc' (b0 / 4) y z b0 b1 out tail (omega arith) (omega arith)
              (omega arith) (omega arith) (omega arith) (omega arith),
      omega arith,
    )
decode_loop-encode_loop u cap acc acc' out (b0 ∷ b1 ∷ b2 ∷ bin) tail (h0, (h1, (h2, all))) room =
    let y : ℕ = b0 % 4 * 16 + b1 / 16 in
    let z : ℕ = b1 % 16 * 4 + b2 / 64 in
    let d : ℕ = after_char (after_char (after_char (after_char acc' (b0 / 4)) y) z) (b2 % 64) in
    let e : ℕ = after_byte (after_byte (after_byte acc b0) b1) b2 in
    let (a, rest, zero_bits) =
      decode_loop-encode_loop u cap e d (out ++ b0 ∷ b1 ∷ b2 ∷ []) bin tail all
        (omega (arith, length-append out (b0 ∷ b1 ∷ b2 ∷ []))) in
    (
      a,
      ap (λ t. decode_loop u none cap acc' 0 out (t ++ tail))
            (encode_three u acc b0 b1 b2 bin h0 h1 h2)
          ∙ group_three u cap acc' (b0 / 4) y z (b2 % 64) b0 b1 b2 out
              (encode_loop u e 0 bin ++ tail) (omega arith) (omega arith) (omega arith)
              (omega arith) (omega arith) (omega arith) (omega arith) (omega arith)
          ∙ rest
          ∙ ap (λ t. decode_loop u none cap a (left_bits (length bin)) t tail)
              (append_assoc out (b0 ∷ b1 ∷ b2 ∷ []) bin),
      zero_bits,
    )

-- How many characters `n` bytes give, and how many `=` fill the last group.
abbrev char_count : ℕ → ℕ
char_count zero = 0
char_count (suc zero) = 2
char_count (suc (suc zero)) = 3
char_count (suc (suc (suc n))) = 4 + char_count n

length-encode_loop :
    (u : Bool) (acc : ℕ) (bin : List ℕ)
    → All (λ b. b < 256) bin
    → length (encode_loop u acc 0 bin) ≡ char_count (length bin)
unfolding encode_loop
length-encode_loop u acc [] all = refl
length-encode_loop u acc (b0 ∷ []) (h0, all) = rw (encode_one u acc b0 h0) refl
length-encode_loop u acc (b0 ∷ b1 ∷ []) (h0, (h1, all)) = rw (encode_two u acc b0 b1 h0 h1) refl
length-encode_loop u acc (b0 ∷ b1 ∷ b2 ∷ bin) (h0, (h1, (h2, all))) =
    rw (encode_three u acc b0 b1 b2 bin h0 h1 h2) (
      omega
        (arith, length-encode_loop u (after_byte (after_byte (after_byte acc b0) b1) b2) bin all))

abbrev padding : ℕ → ℕ → ℕ
padding n variant = if no_padding variant then 0 else left_bits n / 2

text_len-char_count : (n variant : ℕ) → text_len n variant ≡ char_count n + padding n variant
unfolding text_len
text_len-char_count zero variant = ground arith
text_len-char_count (suc zero) variant = ground arith
text_len-char_count (suc (suc zero)) variant = ground arith
text_len-char_count (suc (suc (suc n))) variant = ground (arith, text_len-char_count n variant)

left_bits-cases : (n : ℕ) → (left_bits n ≡ 0) ⊎ (left_bits n ≡ 2) ⊎ (left_bits n ≡ 4)
left_bits-cases zero = inl refl
left_bits-cases (suc zero) = inr (inr refl)
left_bits-cases (suc (suc zero)) = inr (inl refl)
left_bits-cases (suc (suc (suc n))) = left_bits-cases n

decode_loop-padding :
    (u : Bool) (cap a len n : ℕ) (out : List ℕ)
    → decode_loop u none cap a len out (replicate n 61)
      ≡ record { acc = a; acc_len = len; bin = out; rest = replicate n 61; error = none }
unfolding decode_loop ignored
decode_loop-padding u cap a len zero out = refl
decode_loop-padding u cap a len (suc n) out = rw (decode_loop, b64_char_to_byte-equals u) refl

skip_padding-replicate : (n : ℕ) → skip_padding n none (replicate n 61) ≡ (none, [])
unfolding skip_padding
skip_padding-replicate zero = refl
skip_padding-replicate (suc n) = skip_padding-replicate n

check_tail-padding :
    (variant n a : ℕ) (out : List ℕ)
    → a % 2 ^ left_bits n ≡ 0
    → check_tail variant none (record {
      acc = a;
      acc_len = left_bits n;
      bin = out;
      rest = replicate (padding n variant) 61;
      error = none;
    })
      ≡ (false, none, [])
unfolding check_tail
check_tail-padding variant n a out zero_bits =
    let few : ltb 4 (left_bits n) ≡ false = ground (arith, left_bits-cases n) in
    let mask : bit_and a (2 ^ left_bits n - 1) ≡ 0 = bit_and_mask (left_bits n) a ∙ zero_bits in
    rw (few, mask)
      (elim (Bool-cases (no_padding variant)) [
        | inl e ↦ rw e refl
        | inr e ↦ rw (e, skip_padding-replicate (left_bits n / 2)) refl
      ])

-- For each of the four variants and each buffer with room for the text and its end: `bin2base64`
-- gives a text of the length that was computed, then zeros; and `base642bin` on the text, with room
-- for the bytes and nothing to ignore, gives the bytes back and has read all of it.
pub base642bin-bin2base64 :
    (variant b64_maxlen cap : ℕ) (bin : List ℕ) (wants_end : Bool)
    → variant_ok variant ≡ true
    → All (λ b. b < 256) bin
    → text_len (length bin) variant < b64_maxlen
    → length bin ≤ cap
    → (text : List ℕ) × (bin2base64 b64_maxlen bin variant
        ≡ some (text ++ replicate (b64_maxlen - text_len (length bin) variant) 0))
      × (length text ≡ text_len (length bin) variant)
      × (base642bin cap text none wants_end variant
          ≡ some (record {
            failed = false;
            errno = none;
            bin = bin;
            bin_len = length bin;
            b64_end = [];
          }))
unfolding bin2base64 base642bin skip_ignored
base642bin-bin2base64 variant b64_maxlen cap bin wants_end right all room fits =
    let u : Bool = is_urlsafe variant in
    let n : ℕ = length bin in
    let chars : List ℕ = encode_loop u 0 0 bin in
    let tail : List ℕ = replicate (padding n variant) 61 in
    let count : length chars ≡ char_count n = length-encode_loop u 0 bin all in
    let size : text_len n variant ≡ char_count n + padding n variant =
      text_len-char_count n variant in
    let large : leb b64_maxlen (text_len n variant) ≡ false = ground arith in
    let assert : leb (length chars) (text_len n variant) ≡ true = ground arith in
    let fill : text_len n variant - length chars ≡ padding n variant = omega arith in
    let (a, read, zero_bits) = decode_loop-encode_loop u cap 0 0 [] bin tail all (omega arith) in
    let whole = read ∙ decode_loop-padding u cap a (left_bits n) (padding n variant) bin in
    let quiet : (not wants_end && false) ≡ false = ground arith in
    (
      chars ++ tail,
      rw (right, large, assert, fill) refl,
      omega (arith, length-append chars tail, length-replicate {A = ℕ} (padding n variant) 61),
      rw (right, whole, check_tail-padding variant n a bin zero_bits) (rw quiet refl),
    )
