-- ===== src/Leb128/Tests.antt =====
-- Runs of the readers on the inputs of the repository's own tests, and the theorems at concrete
-- inputs.
use zwasm.Base.{ℕ, ◌+◌, ◌≤◌, ◌≡◌, refl, arith, some, List, [], ◌∷◌, ◌++◌, length}
use zwasm.Leb128.{
  Reader, read_u32, read_u64, read_i32, read_i64, read_i33, read_byte, ok, err, init, overflow,
}
use zwasm.Leb128.Encode.{encode_u32, encode_u64}
use zwasm.Leb128.RoundTrip.{read_u32-encode_u32, read_u64-encode_u64}

read_u32_wiki : (read_u32 (init (0xe5 ∷ 0x8e ∷ 0x26 ∷ []))).0 ≡ ok 624485
unfolding read_u32 read_byte init
read_u32_wiki = refl

read_i32_minus_one : (read_i32 (init (0x7f ∷ []))).0 ≡ ok 0xffff_ffff
unfolding read_i32 read_byte init
read_i32_minus_one = refl

read_i33_minus_64 : (read_i33 (init (0x40 ∷ []))).0 ≡ ok 0xffff_ffff_ffff_ffc0
unfolding read_i33 read_i64 read_byte init
read_i33_minus_64 = refl

read_u32_too_big : (read_u32 (init (0xff ∷ 0xff ∷ 0xff ∷ 0xff ∷ 0x1f ∷ []))).0 ≡ err overflow
unfolding read_u32 read_byte init
read_u32_too_big = refl

-- A cursor in a slice of four bytes.
abbrev at : ℕ → Reader
at pos = record { bytes = 0xe5 ∷ 0x8e ∷ 0x26 ∷ 0x40 ∷ []; pos = pos }

read_u32_run : read_u32 (at 0) ≡ (ok 624485, at 3)
unfolding read_u32 read_byte
read_u32_run = refl

read_i33_run : read_i33 (at 3) ≡ (ok 0xffff_ffff_ffff_ffc0, at 4)
unfolding read_i33 read_i64 read_byte
read_i33_run = refl

read_u32-encode_u32_example :
    (code : List ℕ) × (encode_u32 (1 ∷ []) 624485 ≡ some ((1 ∷ []) ++ code))
    × (length code ≤ 5)
    × (read_u32 (record { bytes = (1 ∷ []) ++ (code ++ (2 ∷ [])); pos = 1 })
        ≡ (ok 624485, record { bytes = (1 ∷ []) ++ (code ++ (2 ∷ [])); pos = 1 + length code }))
read_u32-encode_u32_example = read_u32-encode_u32 (1 ∷ []) (2 ∷ []) 624485 (omega arith)

read_u64-encode_u64_example :
    (code : List ℕ) × (encode_u64 (1 ∷ []) 0xffff_ffff_ffff ≡ some ((1 ∷ []) ++ code))
    × (length code ≤ 10)
    × (read_u64 (record { bytes = (1 ∷ []) ++ (code ++ (2 ∷ [])); pos = 1 }) ≡ (
      ok 0xffff_ffff_ffff,
      record { bytes = (1 ∷ []) ++ (code ++ (2 ∷ [])); pos = 1 + length code },
    ))
read_u64-encode_u64_example = read_u64-encode_u64 (1 ∷ []) (2 ∷ []) 0xffff_ffff_ffff (omega arith)
