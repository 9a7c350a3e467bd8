-- ===== src/Programs/Cipher/Tests.antt =====
-- Runs of the two ciphers' parts, and the theorems at concrete inputs.
use zwasm.Base.{ℕ, ◌+◌, ◌≡◌, refl, arith, List, [], ◌∷◌, length, All, replicate}
use zwasm.Programs.Cipher.{load_from, load_le, rotl, half_quarter, quarter_round}
use zwasm.Programs.Cipher.Laws.{IsByte, xor_bytes}
use zwasm.Programs.Cipher.Stream.{keystream}
use zwasm.Programs.Cipher.Chacha.{chacha_rotations, chacha20_init, chacha20_xor, xchacha20_xor}
use zwasm.Programs.Cipher.Blabla.{blabla_rotations, blabla20_init, blabla20_xor, xblabla20_xor}
use zwasm.Programs.Cipher.RoundTrip.{
  chacha20_xor-keystream, blabla20_xor-keystream, xchacha20_xor_twice, xblabla20_xor_twice,
}

-- The test vector of the quarter round in RFC 8439, 2.1.1.
quarter_round_run :
    quarter_round 32 chacha_rotations 0 1 2 3
      (0x11111111 ∷ 0x01020304 ∷ 0x9b8d6f43 ∷ 0x01234567 ∷ [])
    ≡ 0xea2a92f4 ∷ 0xcb1cf8ce ∷ 0x4581472e ∷ 0x5881c4bb ∷ []
unfolding quarter_round half_quarter rotl
quarter_round_run = refl

load_run : load_le 4 (0x78 ∷ 0x56 ∷ 0x34 ∷ 0x12 ∷ 0xff ∷ []) ≡ 0x12345678
unfolding load_le load_from
load_run = refl

abbrev text : List ℕ
text = 0x68 ∷ 0x69 ∷ 0xff ∷ []

text-All : All IsByte text
text-All = (omega arith, (omega arith, (omega arith, tt)))

abbrev nonce : List ℕ
nonce = replicate 24 7

abbrev key : List ℕ
key = replicate 32 9

chacha20_xor-keystream_example :
    chacha20_xor text nonce key
    ≡ xor_bytes (keystream 4 chacha_rotations (length text + 1) (chacha20_init nonce key)) text
chacha20_xor-keystream_example = chacha20_xor-keystream text nonce key text-All

blabla20_xor-keystream_example :
    blabla20_xor text nonce key
    ≡ xor_bytes (keystream 8 blabla_rotations (length text + 1) (blabla20_init nonce key)) text
blabla20_xor-keystream_example = blabla20_xor-keystream text nonce key text-All

xchacha20_xor_twice_example : xchacha20_xor (xchacha20_xor text nonce key) nonce key ≡ text
xchacha20_xor_twice_example = xchacha20_xor_twice text nonce key text-All

xblabla20_xor_twice_example :
    xblabla20_xor nonce (xblabla20_xor nonce text nonce key) nonce key ≡ text
xblabla20_xor_twice_example = xblabla20_xor_twice nonce text nonce key text-All
