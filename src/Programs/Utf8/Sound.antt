-- ===== src/Programs/Utf8/Sound.antt =====
-- What a round accepts is an encoding.
use mathlib.Core.Path.{subst}
use native.Mathlib.Decide.{dec_lt}
use zwasm.Base.{
  ℕ, suc, ◌+◌, ◌-◌, ◌*◌, ◌/◌, ◌%◌, ◌≤◌, ◌<◌, ◌≡◌, refl, sym, ◌∙◌, arith, inl, inr, Bool, true,
  false, Option, none, some, List, [], ◌∷◌, ◌++◌, ltb, if◌then◌else◌, length, All,
}
use zwasm.Programs.Utf8.{lead, acceptable, decode_one}
use zwasm.Programs.Utf8.Bytes.{
  lead_lem, decode_one-ascii, decode_one-two, decode_one-three, decode_one-four,
}
use zwasm.Programs.Utf8.Encode.{IsScalar, encode}

abbrev pub IsBytes : List ℕ → Type 0
IsBytes = All (λ b. b < 256)

-- What the round's result says of the bytes.
abbrev pub Accepted : List ℕ → Option (ℕ × ℕ × List ℕ) → Type 0
Accepted bytes none = Unit
Accepted bytes (some (n, cp, behind)) =
    IsScalar cp × (bytes ≡ encode cp ++ behind) × IsBytes behind × (length behind < length bytes)

Accepted-if :
    (bytes : List ℕ) (test : Bool) (x : ℕ × ℕ × List ℕ)
    → ((test ≡ true) → Accepted bytes (some x))
    → Accepted bytes (if test then some x else none)
Accepted-if bytes true x h = h refl
Accepted-if bytes false x h = tt

-- A start byte with too little behind it, or none.
decode_one-short :
    (n first b : ℕ) (rest : List ℕ)
    → lead b ≡ some (n, first)
    → suc (length rest) < n
    → decode_one (b ∷ rest) ≡ none
unfolding decode_one
decode_one-short n first b rest started short =
    let test : ltb (suc (length rest)) n ≡ true = ground arith in
    rw (decode_one, started, test) refl

decode_one-bad : (b : ℕ) (rest : List ℕ) → lead b ≡ none → decode_one (b ∷ rest) ≡ none
unfolding decode_one
decode_one-bad b rest bad = rw (decode_one, bad) refl

Accepted-two :
    (b : ℕ) (rest : List ℕ)
    → 192 ≤ b
    → b < 224
    → IsBytes rest
    → Accepted (b ∷ rest) (decode_one (b ∷ rest))
unfolding encode acceptable
Accepted-two b [] low high all =
    let first : lead b ≡ some (2, b - 192) = lead_lem b (omega arith) ∙ ground arith in
    subst (Accepted (b ∷ [])) (sym (decode_one-short 2 (b - 192) b [] first (omega arith))) tt
Accepted-two b (b1 ∷ rest) low high (h1, all) =
    subst (Accepted (b ∷ b1 ∷ rest)) (sym (decode_one-two b b1 rest low high h1)) (
      Accepted-if (b ∷ b1 ∷ rest) _ (2, (b - 192) * 64 + b1 % 64, rest)
        (λ ok.
          let cp : ℕ = (b - 192) * 64 + b1 % 64 in
          let mark : b1 / 64 ≡ 2 = ground arith in
          let e : ltb cp 0x80 ≡ false = ground arith in
          let f : ltb cp 0x800 ≡ true = ground arith in
          let g : 0xc0 + cp / 64 ≡ b = omega arith in
          let g1 : 0x80 + cp % 64 ≡ b1 = omega arith in
          (inl (omega arith), rw (e, f, g, g1) refl, all, omega arith)))

Accepted-three :
    (b : ℕ) (rest : List ℕ)
    → 224 ≤ b
    → b < 240
    → IsBytes rest
    → Accepted (b ∷ rest) (decode_one (b ∷ rest))
unfolding encode acceptable
Accepted-three b [] low high all =
    let first : lead b ≡ some (3, b - 224) = lead_lem b (omega arith) ∙ ground arith in
    subst (Accepted (b ∷ [])) (sym (decode_one-short 3 (b - 224) b [] first (omega arith))) tt
Accepted-three b (b1 ∷ []) low high all =
    let first : lead b ≡ some (3, b - 224) = lead_lem b (omega arith) ∙ ground arith in
    subst (Accepted (b ∷ b1 ∷ []))
      (sym (decode_one-short 3 (b - 224) b (b1 ∷ []) first (omega arith))) tt
Accepted-three b (b1 ∷ b2 ∷ rest) low high (h1, (h2, all)) =
    subst (Accepted (b ∷ b1 ∷ b2 ∷ rest)) (sym (decode_one-three b b1 b2 rest low high h1 h2)) (
      Accepted-if (b ∷ b1 ∷ b2 ∷ rest) _ (3, ((b - 224) * 64 + b1 % 64) * 64 + b2 % 64, rest)
        (λ ok.
          let cp : ℕ = ((b - 224) * 64 + b1 % 64) * 64 + b2 % 64 in
          let mark : (b1 / 64 ≡ 2) × (b2 / 64 ≡ 2) = ground arith in
          let scalar : IsScalar cp = ground arith in
          let e : ltb cp 0x80 ≡ false = ground arith in
          let f : ltb cp 0x800 ≡ false = ground arith in
          let h : ltb cp 0x1_0000 ≡ true = ground arith in
          let g : 0xe0 + cp / 4096 ≡ b = omega arith in
          let g1 : 0x80 + cp / 64 % 64 ≡ b1 = omega (arith, mark.0) in
          let g2 : 0x80 + cp % 64 ≡ b2 = omega (arith, mark.1) in
          (scalar, rw (e, f, h, g, g1, g2) refl, all, omega arith)))

Accepted-four :
    (b : ℕ) (rest : List ℕ)
    → 240 ≤ b
    → b < 248
    → IsBytes rest
    → Accepted (b ∷ rest) (decode_one (b ∷ rest))
unfolding encode acceptable
Accepted-four b [] low high all =
    let first : lead b ≡ some (4, b - 240) = lead_lem b (omega arith) ∙ ground arith in
    subst (Accepted (b ∷ [])) (sym (decode_one-short 4 (b - 240) b [] first (omega arith))) tt
Accepted-four b (b1 ∷ []) low high all =
    let first : lead b ≡ some (4, b - 240) = lead_lem b (omega arith) ∙ ground arith in
    subst (Accepted (b ∷ b1 ∷ []))
      (sym (decode_one-short 4 (b - 240) b (b1 ∷ []) first (omega arith))) tt
Accepted-four b (b1 ∷ b2 ∷ []) low high all =
    let first : lead b ≡ some (4, b - 240) = lead_lem b (omega arith) ∙ ground arith in
    subst (Accepted (b ∷ b1 ∷ b2 ∷ []))
      (sym (decode_one-short 4 (b - 240) b (b1 ∷ b2 ∷ []) first (omega arith))) tt
Accepted-four b (b1 ∷ b2 ∷ b3 ∷ rest) low high (h1, (h2, (h3, all))) =
    subst (Accepted (b ∷ b1 ∷ b2 ∷ b3 ∷ rest))
      (sym (decode_one-four b b1 b2 b3 rest low high h1 h2 h3))
      (Accepted-if (b ∷ b1 ∷ b2 ∷ b3 ∷ rest) _
        (4, (((b - 240) * 64 + b1 % 64) * 64 + b2 % 64) * 64 + b3 % 64, rest)
        (λ ok.
          let cp : ℕ = (((b - 240) * 64 + b1 % 64) * 64 + b2 % 64) * 64 + b3 % 64 in
          let mark : (b1 / 64 ≡ 2) × (b2 / 64 ≡ 2) × (b3 / 64 ≡ 2) = ground arith in
          let large : (0x1_0000 ≤ cp) × (cp ≤ 0x10_ffff) = ground arith in
          let e : ltb cp 0x80 ≡ false = ground arith in
          let f : ltb cp 0x800 ≡ false = ground arith in
          let h : ltb cp 0x1_0000 ≡ false = ground arith in
          let g : 0xf0 + cp / 262144 ≡ b = omega (arith, mark) in
          let g1 : 0x80 + cp / 4096 % 64 ≡ b1 = omega (arith, mark) in
          let g2 : 0x80 + cp / 64 % 64 ≡ b2 = omega (arith, mark) in
          let g3 : 0x80 + cp % 64 ≡ b3 = omega (arith, mark) in
          (
            inr (omega (arith, large), large.1),
            rw (e, f, h, g, g1, g2, g3) refl,
            all,
            omega arith,
          )))

pub decode_one-Accepted : (bytes : List ℕ) → IsBytes bytes → Accepted bytes (decode_one bytes)
unfolding encode decode_one
decode_one-Accepted [] all = tt
decode_one-Accepted (b ∷ rest) (h, all) = elim (dec_lt b 128) [
  | yes p ↦
      let e : ltb b 0x80 ≡ true = ground arith in
      subst (Accepted (b ∷ rest)) (sym (decode_one-ascii b rest p))
        (inl (omega arith), rw e refl, all, omega arith)
  | no p ↦ elim (dec_lt b 192) [
    | yes q ↦
        let bad : lead b ≡ none = lead_lem b h ∙ ground arith in
        subst (Accepted (b ∷ rest)) (sym (decode_one-bad b rest bad)) tt
    | no q ↦ elim (dec_lt b 224) [
      | yes r ↦ Accepted-two b rest (omega arith) r all
      | no r ↦ elim (dec_lt b 240) [
        | yes s ↦ Accepted-three b rest (omega arith) s all
        | no s ↦ elim (dec_lt b 248) [
          | yes t ↦ Accepted-four b rest (omega arith) t all
          | no t ↦
              let bad : lead b ≡ none = lead_lem b h ∙ ground arith in
              subst (Accepted (b ∷ rest)) (sym (decode_one-bad b rest bad)) tt
        ]
      ]
    ]
  ]
]
