-- ===== src/Programs/Utf8/Bytes.antt =====
-- The masks on one byte, and one round on the bytes of one encoding.
use zwasm.Base.{
  ℕ, suc, ◌+◌, ◌-◌, ◌*◌, ◌/◌, ◌%◌, ◌^◌, ◌≤◌, ◌<◌, ◌≡◌, refl, ◌∙◌, arith, false, ◌&&◌, none, some,
  List, ◌∷◌, ltb, ◌==◌, if◌then◌else◌, length, bit_or,
}
use zwasm.Base.Bits.{bit_or_above, high_mask, low_mask}
use zwasm.Base.Options.{◌>>=◌}
use zwasm.Programs.Utf8.{lead, continuation, acceptable, decode_one}

-- The first byte by its range.
pub lead_lem :
    (b : ℕ)
    → b < 256
    → lead b ≡ (
        if ltb b 128
        then some (1, b)
        else if ltb b 192
        then none
        else if ltb b 224
        then some (2, b - 192)
        else if ltb b 240
        then some (3, b - 224)
        else if ltb b 248
        then some (4, b - 240)
        else none)
unfolding lead
lead_lem b h =
    rw
      (
        lead,
        high_mask 0xe0 32 refl b h,
        high_mask 0xf0 16 refl b h,
        high_mask 0xf8 8 refl b h,
        low_mask 0x1f 32 refl b h,
        low_mask 0x0f 16 refl b h,
        low_mask 0x07 8 refl b h,
      )
      (ground arith)

-- A byte of a continuation adds six bits to a small number.
pub continuation-step :
    (n cp b : ℕ) (rest : List ℕ)
    → b < 256
    → cp < 2 ^ 20
    → continuation (suc n) cp (b ∷ rest)
      ≡ (if b / 64 == 2 then continuation n (cp * 64 + b % 64) rest else none)
unfolding continuation
continuation-step n cp b rest h small =
    let six : b % 64 < 2 ^ 6 = omega arith in
    let joined : bit_or (cp * 2 ^ 6) (b % 64) ≡ cp * 64 + b % 64 = bit_or_above 6 cp (b % 64) six in
    let whole : cp * 2 ^ 6 % 2 ^ 32 ≡ cp * 2 ^ 6 = omega arith in
    rw (whole, high_mask 0xc0 64 refl b h, low_mask 0x3f 64 refl b h, joined) (ground arith)

-- One round on each shape of input, as arithmetic on the bytes.
pub decode_one-ascii : (b : ℕ) (rest : List ℕ) → b < 128 → decode_one (b ∷ rest) ≡ some (1, b, rest)
unfolding decode_one continuation acceptable
decode_one-ascii b rest h = rw (decode_one, lead_lem b (omega arith)) (ground arith)

-- What a run of continuation bytes gives.
continuation_one :
    (cp b1 : ℕ) (rest : List ℕ)
    → b1 < 256
    → cp < 2 ^ 20
    → continuation 1 cp (b1 ∷ rest)
      ≡ (if b1 / 64 == 2 then some (cp * 64 + b1 % 64, rest) else none)
unfolding continuation
continuation_one cp b1 rest h1 small = continuation-step 0 cp b1 rest h1 small

continuation_two :
    (cp b1 b2 : ℕ) (rest : List ℕ)
    → b1 < 256
    → b2 < 256
    → cp < 2 ^ 14
    → continuation 2 cp (b1 ∷ b2 ∷ rest) ≡ (
        if b1 / 64 == 2 && b2 / 64 == 2
        then some ((cp * 64 + b1 % 64) * 64 + b2 % 64, rest)
        else none)
continuation_two cp b1 b2 rest h1 h2 small =
    continuation-step 1 cp b1 (b2 ∷ rest) h1 (omega arith)
    ∙ rw (continuation_one (cp * 64 + b1 % 64) b2 rest h2 (omega arith)) (ground arith)

continuation_three :
    (cp b1 b2 b3 : ℕ) (rest : List ℕ)
    → b1 < 256
    → b2 < 256
    → b3 < 256
    → cp < 2 ^ 8
    → continuation 3 cp (b1 ∷ b2 ∷ b3 ∷ rest) ≡ (
        if b1 / 64 == 2 && (b2 / 64 == 2 && b3 / 64 == 2)
        then some (((cp * 64 + b1 % 64) * 64 + b2 % 64) * 64 + b3 % 64, rest)
        else none)
continuation_three cp b1 b2 b3 rest h1 h2 h3 small =
    continuation-step 2 cp b1 (b2 ∷ b3 ∷ rest) h1 (omega arith)
    ∙ rw (continuation_two (cp * 64 + b1 % 64) b2 b3 rest h2 h3 (omega arith)) (ground arith)

-- What stands behind a multi-byte start.
decode_one-from :
    (n first b : ℕ) (rest : List ℕ)
    → lead b ≡ some (n, first)
    → n ≤ suc (length rest)
    → decode_one (b ∷ rest) ≡ (
        continuation (n - 1) first rest >>= λ (cp, behind).
        (if acceptable n cp then some (n, cp, behind) else none))
unfolding decode_one
decode_one-from n first b rest started room =
    let test : ltb (suc (length rest)) n ≡ false = ground arith in
    rw (decode_one, started, test) refl

pub decode_one-two :
    (b b1 : ℕ) (rest : List ℕ)
    → 192 ≤ b
    → b < 224
    → b1 < 256
    → decode_one (b ∷ b1 ∷ rest) ≡ (
        if b1 / 64 == 2 && acceptable 2 ((b - 192) * 64 + b1 % 64)
        then some (2, (b - 192) * 64 + b1 % 64, rest)
        else none)
decode_one-two b b1 rest low high h1 =
    let first : lead b ≡ some (2, b - 192) = lead_lem b (omega arith) ∙ ground arith in
    decode_one-from 2 (b - 192) b (b1 ∷ rest) first (omega arith)
    ∙ rw (continuation_one (b - 192) b1 rest h1 (omega arith)) (ground arith)

pub decode_one-three :
    (b b1 b2 : ℕ) (rest : List ℕ)
    → 224 ≤ b
    → b < 240
    → b1 < 256
    → b2 < 256
    → decode_one (b ∷ b1 ∷ b2 ∷ rest) ≡ (
        if (b1 / 64 == 2 && b2 / 64 == 2)
          && acceptable 3 (((b - 224) * 64 + b1 % 64) * 64 + b2 % 64)
        then some (3, ((b - 224) * 64 + b1 % 64) * 64 + b2 % 64, rest)
        else none)
decode_one-three b b1 b2 rest low high h1 h2 =
    let first : lead b ≡ some (3, b - 224) = lead_lem b (omega arith) ∙ ground arith in
    decode_one-from 3 (b - 224) b (b1 ∷ b2 ∷ rest) first (omega arith)
    ∙ rw (continuation_two (b - 224) b1 b2 rest h1 h2 (omega arith)) (ground arith)

pub decode_one-four :
    (b b1 b2 b3 : ℕ) (rest : List ℕ)
    → 240 ≤ b
    → b < 248
    → b1 < 256
    → b2 < 256
    → b3 < 256
    → decode_one (b ∷ b1 ∷ b2 ∷ b3 ∷ rest) ≡ (
        if (b1 / 64 == 2 && (b2 / 64 == 2 && b3 / 64 == 2))
          && acceptable 4 ((((b - 240) * 64 + b1 % 64) * 64 + b2 % 64) * 64 + b3 % 64)
        then some (4, (((b - 240) * 64 + b1 % 64) * 64 + b2 % 64) * 64 + b3 % 64, rest)
        else none)
decode_one-four b b1 b2 b3 rest low high h1 h2 h3 =
    let first : lead b ≡ some (4, b - 240) = lead_lem b (omega arith) ∙ ground arith in
    decode_one-from 4 (b - 240) b (b1 ∷ b2 ∷ b3 ∷ rest) first (omega arith)
    ∙ rw (continuation_three (b - 240) b1 b2 b3 rest h1 h2 h3 (omega arith)) (ground arith)
