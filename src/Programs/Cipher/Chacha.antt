-- ===== src/Programs/Cipher/Chacha.antt =====
-- bench/shootout-src/xchacha20.c
use zwasm.Base.{ℕ, ◌+◌, List, [], ◌∷◌, ◌++◌, length, set, take, drop, replicate}
use zwasm.Base.Slices.{slice}
use zwasm.Programs.Cipher.{Rotations, load_le, load_words, rounds, store_words, xor_loop}

abbrev pub chacha_rotations : Rotations
chacha_rotations = record { first = 16; second = 12; third = 8; fourth = 7 }

unfoldable pub chacha20_init : List ℕ → List ℕ → List ℕ
unfolding load_le load_words
chacha20_init nonce key =
    (0x61707865 ∷ 0x3120646e ∷ 0x79622d36 ∷ 0x6b206574 ∷ [])
    ++ load_words 4 8 key
    ++ 0 ∷ load_le 4 nonce ∷ load_le 4 (drop 4 nonce) ∷ load_le 4 (drop 8 nonce) ∷ []

-- What is written to `c`.
unfoldable pub chacha20_xor : List ℕ → List ℕ → List ℕ → List ℕ
unfolding chacha20_init xor_loop
chacha20_xor m nonce key = xor_loop 4 chacha_rotations (length m + 1) (chacha20_init nonce key) m

unfoldable pub hchacha20 : List ℕ → List ℕ → List ℕ
unfolding chacha20_init rounds load_le
hchacha20 nonce key =
    let st =
      rounds 32 chacha_rotations 6 (set (chacha20_init (drop 4 nonce) key) 12 (load_le 4 nonce)) in
    store_words 4 (take 4 st) ++ store_words 4 (slice st 12 4)

unfoldable pub xchacha20_xor : List ℕ → List ℕ → List ℕ → List ℕ
unfolding chacha20_xor hchacha20
xchacha20_xor m nonce key = chacha20_xor m (replicate 4 0 ++ slice nonce 16 8) (hchacha20 nonce key)
