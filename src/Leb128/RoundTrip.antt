-- ===== src/Leb128/RoundTrip.antt =====
-- src/wat.zig writes unsigned LEB128, src/leb128.zig reads it back.
use zwasm.Base.{
  ℕ, zero, suc, ◌+◌, ◌*◌, ◌/◌, ◌%◌, ◌^◌, ◌≤◌, ◌<◌, ◌≡◌, refl, ap, ◌∙◌, arith, List, [], ◌∷◌, ◌++◌,
  ltb, leb, ◌==◌, if◌then◌else◌, length, get_or, drop, drop-append_length, some, lt→ltb, false,
}
use zwasm.Base.Bits.{bit_or_disjoint, bit_and_mask, low_seven, top_bit, set_top_bit}
use zwasm.Leb128.{
  Reader, ok, return, bind-ok, read_byte, unsigned_byte, unsigned_loop, read_u32, read_u64,
}
use zwasm.Leb128.Encode.{encode_unsigned, encode_u32, encode_u64}
use mathlib.Core.List.{append_assoc}
use native.Mathlib.Nat.{div-add-mod, mod-eq_of_lt}
use native.Mathlib.Decide.{dec_lt}
use native.Mathlib.Numerals.{towards_suc}

-- The format: groups of seven bits, lowest first, the top bit set on all but the last. At most
-- `k` groups stand before the last.
unfoldable pub groups : ℕ → ℕ → List ℕ
groups zero v = v ∷ []
groups (suc k) v =
    let more = groups k (v / 128) in if ltb v 128 then v ∷ [] else (v % 128 + 128) ∷ more

encode_unsigned-groups :
    (k : ℕ) (out : List ℕ) (v : ℕ)
    → v < 128 ^ suc k
    → encode_unsigned (suc k) out v ≡ some (out ++ groups k v)
unfolding encode_unsigned groups
encode_unsigned-groups zero out v h = ground (arith, bit_and_mask 7 v)
encode_unsigned-groups (suc k) out v h = ground (
  arith,
  bit_and_mask 7 v,
  set_top_bit (v % 128) (omega arith),
  encode_unsigned-groups k (out ++ ((v % 128 + 128) ∷ [])) (v / 128) (omega arith),
  append_assoc out ((v % 128 + 128) ∷ []) (groups k (v / 128)),
)

drop-head :
    (n : ℕ) (xs : List ℕ) (b : ℕ) (rest : List ℕ)
    → drop n xs ≡ b ∷ rest
    → (n < length xs) × (get_or xs n 0 ≡ b) × (drop (suc n) xs ≡ rest)
drop-head zero [] b rest e = cc
drop-head zero (x ∷ xs) b rest e = ground arith
drop-head (suc n) [] b rest e = cc
drop-head (suc n) (x ∷ xs) b rest e = ground (arith, drop-head n xs b rest e)

abbrev pub step : Reader → Reader
step r = record r { pos = r.pos + 1 }

pub read_byte_at :
    (r : Reader) (b : ℕ) (rest : List ℕ)
    → drop r.pos r.bytes ≡ b ∷ rest
    → (read_byte r ≡ (ok b, step r)) × (drop (step r).pos r.bytes ≡ rest)
unfolding read_byte
read_byte_at r b rest e = ground (arith, drop-head r.pos r.bytes b rest e)

pub shift_seven : (group : ℕ) → 2 ^ ((group + 1) * 7) ≡ 128 * 2 ^ (group * 7)
shift_seven group =
    let e : (group + 1) * 7 ≡ group * 7 + 7 = omega arith in rw e (simp towards_suc (omega arith))

-- The lowest group of `w` and the others, both at the place of `group`.
pub split_group :
    (w group : ℕ)
    → w * 2 ^ (group * 7) ≡ w % 128 * 2 ^ (group * 7) + w / 128 * 2 ^ ((group + 1) * 7)
split_group w group = omega (
  arith,
  ap (λ (t : ℕ). t * 2 ^ (group * 7)) (div-add-mod w 128),
  ap (λ (t : ℕ). w / 128 * t) (shift_seven group),
)

-- One round of the loop on a byte `b`, when the bits of its group fit.
one_round :
    (bits rounds group value b : ℕ) (r : Reader)
    → b < 256
    → value < 2 ^ (group * 7)
    → b % 128 * 2 ^ (group * 7) < 2 ^ bits
    → read_byte r ≡ (ok b, step r)
    → unsigned_loop bits (suc rounds) group value r
      ≡ (if ltb b 128
            then return (value + b % 128 * 2 ^ (group * 7))
            else unsigned_loop bits rounds (group + 1) (value + b % 128 * 2 ^ (group * 7)))
          (step r)
unfolding unsigned_loop
one_round bits rounds group value b r hb hv fits e =
    let shifted : ℕ = b % 128 * 2 ^ (group * 7) in
    let kept : leb (2 ^ bits) shifted ≡ false = ground arith in
    let last : (b / 128 * 128 == 0) ≡ ltb b 128 = ground arith in
    bind-ok read_byte (unsigned_byte bits group value (unsigned_loop bits rounds (group + 1))) e
    ∙ rw
        (
          low_seven b hb,
          top_bit b hb,
          kept,
          mod-eq_of_lt fits,
          bit_or_disjoint (group * 7) value (b % 128) hv,
          last,
        )
        refl

pub groups_last : (k w : ℕ) → w < 128 → groups k w ≡ w ∷ []
unfolding groups
groups_last zero w h = refl
groups_last (suc k) w h = rw (lt→ltb w 128 h)

pub groups_more : (k w : ℕ) → 128 ≤ w → groups (suc k) w ≡ (w % 128 + 128) ∷ groups k (w / 128)
unfolding groups
groups_more k w h = let e : ltb w 128 ≡ false = ground arith in rw e

-- What the loop returns over `groups k w`, from the place of `group` on.
abbrev Reads : (bits k rounds group value w : ℕ) → Reader → Type 0
Reads bits k rounds group value w r =
    unsigned_loop bits rounds group value r
    ≡ (ok (value + w * 2 ^ (group * 7)), record r { pos = r.pos + length (groups k w) })

loop_last :
    (bits k rounds group value w : ℕ) (r : Reader) (rest : List ℕ)
    → w < 128
    → value < 2 ^ (group * 7)
    → w * 2 ^ (group * 7) < 2 ^ bits
    → drop r.pos r.bytes ≡ groups k w ++ rest
    → Reads bits k (suc rounds) group value w r
loop_last bits k rounds group value w r rest hw hv fits e =
    let small : groups k w ≡ w ∷ [] = groups_last k w hw in
    let (taken, _) = read_byte_at r w rest (rw small at e) in
    let low : w % 128 ≡ w = omega arith in
    one_round bits rounds group value w r (omega arith) hv (rw low fits) taken
    ∙ rw (lt→ltb w 128 hw, low, small) refl

next_fits :
    (group value g : ℕ)
    → value < 2 ^ (group * 7)
    → g < 128
    → value + g * 2 ^ (group * 7) < 2 ^ ((group + 1) * 7)
next_fits group value g hv hg = rw (shift_seven group) (grind arith)

inner_round :
    (bits rounds group value g : ℕ) (r : Reader)
    → g < 128
    → value < 2 ^ (group * 7)
    → g * 2 ^ (group * 7) < 2 ^ bits
    → read_byte r ≡ (ok (g + 128), step r)
    → unsigned_loop bits (suc rounds) group value r
      ≡ unsigned_loop bits rounds (group + 1) (value + g * 2 ^ (group * 7)) (step r)
inner_round bits rounds group value g r hg hv fits taken =
    let low : (g + 128) % 128 ≡ g = omega arith in
    let inner : ltb (g + 128) 128 ≡ false = ground arith in
    one_round bits rounds group value (g + 128) r (omega arith) hv (rw low fits) taken
    ∙ rw (inner, low) refl

loop-groups :
    (bits k rounds group value w : ℕ) (r : Reader) (rest : List ℕ)
    → w < 128 ^ suc k
    → k < rounds
    → value < 2 ^ (group * 7)
    → w * 2 ^ (group * 7) < 2 ^ bits
    → drop r.pos r.bytes ≡ groups k w ++ rest
    → Reads bits k rounds group value w r
loop-groups bits k zero group value w r rest hw hk hv fits e = absurd (omega arith)
loop-groups bits zero (suc rounds) group value w r rest hw hk hv fits e =
    loop_last bits zero rounds group value w r rest hw hv fits e
loop-groups bits (suc k) (suc rounds) group value w r rest hw hk hv fits e = elim (dec_lt w 128) [
  | yes last ↦ loop_last bits (suc k) rounds group value w r rest last hv fits e
  | no more ↦
      let unit : ℕ = 2 ^ (group * 7) in
      let large : groups (suc k) w ≡ (w % 128 + 128) ∷ groups k (w / 128) =
        groups_more k w (omega arith) in
      let (taken, after) =
        read_byte_at r (w % 128 + 128) (groups k (w / 128) ++ rest) (rw large at e) in
      let next : ℕ = value + w % 128 * unit in
      let total : next + w / 128 * 2 ^ ((group + 1) * 7) ≡ value + w * unit =
        omega (arith, split_group w group) in
      inner_round bits rounds group value (w % 128) r (omega arith) hv
        (omega (arith, split_group w group)) taken
      ∙ loop-groups bits k rounds (group + 1) next (w / 128) (step r) rest (omega arith)
          (omega arith) (next_fits group value (w % 128) hv (omega arith))
          (omega (arith, split_group w group)) after
      ∙ ground (arith, total, ap length large)
]

-- `read` gives `v` back when the cursor stands before what was written, whatever stands around it.
abbrev ReadsBack : (bits k : ℕ) (front rest : List ℕ) (v : ℕ) → Type 0
ReadsBack bits k front rest v =
    (code : List ℕ) × (encode_unsigned (suc k) front v ≡ some (front ++ code))
    × (length code ≤ suc k)
    × (unsigned_loop bits (suc k) 0 0
          (record { bytes = front ++ (code ++ rest); pos = length front })
        ≡ (ok v, record { bytes = front ++ (code ++ rest); pos = length front + length code }))

length-groups : (k v : ℕ) → length (groups k v) ≤ suc k
unfolding groups
length-groups zero v = omega arith
length-groups (suc k) v = ground (arith, length-groups k (v / 128))

loop-encode_unsigned :
    (bits k : ℕ) (front rest : List ℕ) (v : ℕ)
    → v < 128 ^ suc k
    → v < 2 ^ bits
    → ReadsBack bits k front rest v
loop-encode_unsigned bits k front rest v hk hv =
    let r : Reader = record { bytes = front ++ (groups k v ++ rest); pos = length front } in
    let found : Reads bits k (suc k) 0 0 v r =
      loop-groups bits k (suc k) 0 0 v r rest hk (omega arith) (omega arith) (omega arith)
        (drop-append_length front (groups k v ++ rest)) in
    (groups k v, encode_unsigned-groups k front v hk, length-groups k v, ground (arith, found))

-- A u32 that `lebEncodeU32` appends to any output is coded in at most five bytes, and `readU32`
-- at their start gives it back and stops right behind them, whatever follows.
pub read_u32-encode_u32 :
    (front rest : List ℕ) (v : ℕ)
    → v < 2 ^ 32
    → (code : List ℕ) × (encode_u32 front v ≡ some (front ++ code))
      × (length code ≤ 5)
      × (read_u32 (record { bytes = front ++ (code ++ rest); pos = length front })
          ≡ (ok v, record { bytes = front ++ (code ++ rest); pos = length front + length code }))
unfolding read_u32 encode_u32
read_u32-encode_u32 front rest v h = loop-encode_unsigned 32 4 front rest v (omega arith) h

-- The same of a u64, `lebEncodeU64` and `readU64`, in at most ten bytes.
pub read_u64-encode_u64 :
    (front rest : List ℕ) (v : ℕ)
    → v < 2 ^ 64
    → (code : List ℕ) × (encode_u64 front v ≡ some (front ++ code))
      × (length code ≤ 10)
      × (read_u64 (record { bytes = front ++ (code ++ rest); pos = length front })
          ≡ (ok v, record { bytes = front ++ (code ++ rest); pos = length front + length code }))
unfolding read_u64 encode_u64
read_u64-encode_u64 front rest v h = loop-encode_unsigned 64 9 front rest v (omega arith) h
