-- ===== src/Programs/Base64/Groups.antt =====
-- Whole groups of three bytes and four characters, and the shorter groups at the end.
use mathlib.Core.List.{append_assoc}
use zwasm.Base.{
  ℕ, ◌+◌, ◌*◌, ◌/◌, ◌%◌, ◌<◌, ◌≡◌, refl, ap, ◌∙◌, arith, Bool, none, List, [], ◌∷◌, ◌++◌, length,
  length-append,
}
use zwasm.Programs.Base64.{b64_byte_to_char, encode_loop, decode_loop}
use zwasm.Programs.Base64.Steps.{
  after_byte, after_char, encode_loop-zero, encode_loop-two, encode_loop-four, encode_loop-end_two,
  encode_loop-end_four, decode_loop-zero, decode_loop-six, decode_loop-four, decode_loop-two,
}

-- Two characters from the start of a group, and the first byte of it.
module _ (u : Bool) (cap : ℕ) where
  pub group_one :
      (acc' x y b : ℕ) (out rest : List ℕ)
      → x < 64
      → y < 64
      → x * 4 + y / 16 ≡ b
      → length out < cap
      → decode_loop u none cap acc' 0 out (b64_byte_to_char u x ∷ b64_byte_to_char u y ∷ rest)
        ≡ decode_loop u none cap (after_char (after_char acc' x) y) 4 (out ++ b ∷ []) rest
  group_one acc' x y b out rest hx hy e room =
      let d : ℕ = after_char acc' x in
      let byte : d % 64 * 4 + y / 16 ≡ b = omega (arith, e) in
      decode_loop-zero u cap acc' x out (b64_byte_to_char u y ∷ rest) hx
      ∙ decode_loop-six u cap d y out rest hy room
      ∙ rw byte refl

  -- A third character and the second byte.
  pub group_two :
      (acc' x y z b b' : ℕ) (out rest : List ℕ)
      → x < 64
      → y < 64
      → z < 64
      → x * 4 + y / 16 ≡ b
      → y % 16 * 16 + z / 4 ≡ b'
      → length out + 1 < cap
      → decode_loop u none cap acc' 0 out
          (b64_byte_to_char u x ∷ b64_byte_to_char u y ∷ b64_byte_to_char u z ∷ rest)
        ≡ decode_loop u none cap
            (after_char (after_char (after_char acc' x) y) z)
            2
            (out ++ b ∷ b' ∷ [])
            rest
  group_two acc' x y z b b' out rest hx hy hz e e' room =
      let d : ℕ = after_char (after_char acc' x) y in
      let byte : d % 16 * 16 + z / 4 ≡ b' = omega (arith, e') in
      group_one acc' x y b out (b64_byte_to_char u z ∷ rest) hx hy e (omega arith)
      ∙ decode_loop-four u cap d z (out ++ b ∷ []) rest hz
          (omega (arith, length-append out (b ∷ [])))
      ∙ rw byte (
          ap (λ t. decode_loop u none cap (after_char d z) 2 t rest)
            (append_assoc out (b ∷ []) (b' ∷ [])))

  pub group_three :
      (acc' x y z w b b' b'' : ℕ) (out rest : List ℕ)
      → x < 64
      → y < 64
      → z < 64
      → w < 64
      → x * 4 + y / 16 ≡ b
      → y % 16 * 16 + z / 4 ≡ b'
      → z % 4 * 64 + w ≡ b''
      → length out + 2 < cap
      → decode_loop u none cap acc' 0 out (
          b64_byte_to_char u x
          ∷ b64_byte_to_char u y
          ∷ b64_byte_to_char u z
          ∷ b64_byte_to_char u w
          ∷ rest)
        ≡ decode_loop u none cap
            (after_char (after_char (after_char (after_char acc' x) y) z) w)
            0
            (out ++ b ∷ b' ∷ b'' ∷ [])
            rest
  group_three acc' x y z w b b' b'' out rest hx hy hz hw e e' e'' room =
      let d : ℕ = after_char (after_char (after_char acc' x) y) z in
      let byte : d % 4 * 64 + w ≡ b'' = omega (arith, e'') in
      group_two acc' x y z b b' out (b64_byte_to_char u w ∷ rest) hx hy hz e e' (omega arith)
      ∙ decode_loop-two u cap d w (out ++ b ∷ b' ∷ []) rest hw
          (omega (arith, length-append out (b ∷ b' ∷ [])))
      ∙ rw byte (
          ap (λ t. decode_loop u none cap (after_char d w) 0 t rest)
            (append_assoc out (b ∷ b' ∷ []) (b'' ∷ [])))

-- The characters of a whole group.
pub encode_three :
    (u : Bool) (acc b0 b1 b2 : ℕ) (bin : List ℕ)
    → b0 < 256
    → b1 < 256
    → b2 < 256
    → encode_loop u acc 0 (b0 ∷ b1 ∷ b2 ∷ bin)
      ≡ b64_byte_to_char u (b0 / 4)
        ∷ b64_byte_to_char u (b0 % 4 * 16 + b1 / 16)
        ∷ b64_byte_to_char u (b1 % 16 * 4 + b2 / 64)
        ∷ b64_byte_to_char u (b2 % 64)
        ∷ encode_loop u (after_byte (after_byte (after_byte acc b0) b1) b2) 0 bin
encode_three u acc b0 b1 b2 bin h0 h1 h2 =
    let e0 : ℕ = after_byte acc b0 in
    let e1 : ℕ = after_byte e0 b1 in
    let low0 : e0 % 4 ≡ b0 % 4 = omega arith in
    let low1 : e1 % 16 ≡ b1 % 16 = omega arith in
    rw
      (
        encode_loop-zero u acc b0 (b1 ∷ b2 ∷ bin) h0,
        encode_loop-two u e0 b1 (b2 ∷ bin) h1,
        encode_loop-four u e1 b2 bin h2,
        low0,
        low1,
      )
      refl

pub encode_two :
    (u : Bool) (acc b0 b1 : ℕ)
    → b0 < 256
    → b1 < 256
    → encode_loop u acc 0 (b0 ∷ b1 ∷ [])
      ≡ b64_byte_to_char u (b0 / 4)
        ∷ b64_byte_to_char u (b0 % 4 * 16 + b1 / 16)
        ∷ b64_byte_to_char u (b1 % 16 * 4)
        ∷ []
encode_two u acc b0 b1 h0 h1 =
    let e0 : ℕ = after_byte acc b0 in
    let e1 : ℕ = after_byte e0 b1 in
    let low0 : e0 % 4 ≡ b0 % 4 = omega arith in
    let low1 : e1 % 16 ≡ b1 % 16 = omega arith in
    rw
      (
        encode_loop-zero u acc b0 (b1 ∷ []) h0,
        encode_loop-two u e0 b1 [] h1,
        encode_loop-end_four u e1,
        low0,
        low1,
      )
      refl

pub encode_one :
    (u : Bool) (acc b0 : ℕ)
    → b0 < 256
    → encode_loop u acc 0 (b0 ∷ [])
      ≡ b64_byte_to_char u (b0 / 4) ∷ b64_byte_to_char u (b0 % 4 * 16) ∷ []
encode_one u acc b0 h0 =
    let e0 : ℕ = after_byte acc b0 in
    let low0 : e0 % 4 ≡ b0 % 4 = omega arith in
    rw (encode_loop-zero u acc b0 [] h0, encode_loop-end_two u e0, low0) refl
