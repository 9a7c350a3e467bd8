-- ===== src/Leb128/Encode.antt =====
-- src/wat.zig, `lebEncodeU32` and its siblings: the encoders of the text format's assembler.
-- The output list only grows at its end. Appending cannot fail here: memory suffices.
use zwasm.Base.{
  ℕ, zero, suc, ◌-◌, ◌/◌, ◌%◌, ◌^◌, bit_and, bit_or, ◌&&◌, ◌||◌, not, Option, none, some, List, [],
  ◌∷◌, ◌++◌, ◌==◌, if◌then◌else◌,
}
use zwasm.Leb128.{sar}

-- `while (true)` on fuel; `none` means that the fuel ran out.
unfoldable pub encode_unsigned : ℕ → List ℕ → ℕ → Option (List ℕ)
encode_unsigned zero out v = none
encode_unsigned (suc fuel) out v =
    let byte = bit_and v 0x7f % 256 in
    let v' = v / 128 in
    let rest = encode_unsigned fuel (out ++ (bit_or byte 0x80 ∷ [])) v' in
    if v' == 0 then some (out ++ (byte ∷ [])) else rest

-- The same over bit patterns of signed numbers: -1 has all bits set, and `>>` keeps the sign.
unfoldable pub encode_signed : ℕ → ℕ → List ℕ → ℕ → Option (List ℕ)
encode_signed bits zero out v = none
encode_signed bits (suc fuel) out v =
    let byte = bit_and v 0x7f % 256 in
    let v' = sar bits v 7 in
    let rest = encode_signed bits fuel (out ++ (bit_or byte 0x80 ∷ [])) v' in
    if v' == 0 && bit_and byte 0x40 == 0 || v' == 2 ^ bits - 1 && not (bit_and byte 0x40 == 0)
    then some (out ++ (byte ∷ []))
    else rest

-- Five groups of seven bits hold 32 bits, ten hold 64.
unfoldable pub encode_u32 : List ℕ → ℕ → Option (List ℕ)
unfolding encode_unsigned
encode_u32 out v = encode_unsigned 5 out v

unfoldable pub encode_u64 : List ℕ → ℕ → Option (List ℕ)
unfolding encode_unsigned
encode_u64 out v = encode_unsigned 10 out v

unfoldable pub encode_i32 : List ℕ → ℕ → Option (List ℕ)
unfolding encode_signed
encode_i32 out v = encode_signed 32 5 out v

unfoldable pub encode_i64 : List ℕ → ℕ → Option (List ℕ)
unfolding encode_signed
encode_i64 out v = encode_signed 64 10 out v
