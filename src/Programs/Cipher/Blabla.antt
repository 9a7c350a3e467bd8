-- ===== src/Programs/Cipher/Blabla.antt =====
-- bench/shootout-src/xblabla20.c
use zwasm.Base.{ℕ, ◌+◌, List, [], ◌∷◌, ◌++◌, length, set, take, drop}
use zwasm.Base.Slices.{slice}
use zwasm.Programs.Cipher.{Rotations, load_le, load_words, rounds, store_words, xor_loop}

abbrev pub blabla_rotations : Rotations
blabla_rotations = record { first = 32; second = 40; third = 48; fourth = 1 }

unfoldable pub blabla20_init : List ℕ → List ℕ → List ℕ
unfolding load_le load_words
blabla20_init nonce key =
    (0x6170786593810fab ∷ 0x3320646ec7398aee ∷ 0x79622d3217318274 ∷ 0x6b206574babadada ∷ [])
    ++ load_words 8 4 key
    ++ 0x2ae36e593e46ad5f
      ∷ 0xb68f143029225fc9
      ∷ 0x8da1e08468303aa6
      ∷ 0xa48a209acd50a4a7
      ∷ 0x7fdc12f23f90778c
      ∷ 1
      ∷ load_le 8 nonce
      ∷ load_le 8 (drop 8 nonce)
      ∷ []

unfoldable pub blabla20_xor : List ℕ → List ℕ → List ℕ → List ℕ
unfolding blabla20_init xor_loop
blabla20_xor m nonce key = xor_loop 8 blabla_rotations (length m + 1) (blabla20_init nonce key) m

unfoldable pub hblabla20 : List ℕ → List ℕ → List ℕ
unfolding blabla20_init rounds load_le
hblabla20 nonce key =
    let st =
      rounds 64 blabla_rotations 6 (set (blabla20_init (drop 8 nonce) key) 13 (load_le 8 nonce)) in
    store_words 8 (take 2 st) ++ store_words 8 (slice st 10 2)

-- `subnonce` is never written, and shorter than what is read of it: its bytes, and those behind it,
-- are whatever the stack holds.
unfoldable pub xblabla20_xor : List ℕ → List ℕ → List ℕ → List ℕ → List ℕ
unfolding blabla20_xor hblabla20
xblabla20_xor subnonce m nonce key = blabla20_xor m subnonce (hblabla20 nonce key)
