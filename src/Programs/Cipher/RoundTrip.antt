-- ===== src/Programs/Cipher/RoundTrip.antt =====
-- What the two ciphers write is the text under their key stream, and what they read back is the text.
use zwasm.Base.{ℕ, ◌+◌, ◌≡◌, refl, arith, List, ◌++◌, length, All, replicate}
use zwasm.Base.Slices.{slice}
use zwasm.Programs.Cipher.{load_words}
use zwasm.Programs.Cipher.Laws.{IsByte, xor_bytes}
use zwasm.Programs.Cipher.Stream.{keystream, xor_loop-keystream, xor_loop_twice}
use zwasm.Programs.Cipher.Chacha.{
  chacha_rotations, chacha20_init, chacha20_xor, hchacha20, xchacha20_xor,
}
use zwasm.Programs.Cipher.Blabla.{
  blabla_rotations, blabla20_init, blabla20_xor, hblabla20, xblabla20_xor,
}

length-chacha20_init : (nonce key : List ℕ) → length (chacha20_init nonce key) ≡ 16
unfolding chacha20_init load_words
length-chacha20_init nonce key = refl

length-blabla20_init : (nonce key : List ℕ) → length (blabla20_init nonce key) ≡ 16
unfolding blabla20_init load_words
length-blabla20_init nonce key = refl

-- What ChaCha20 writes is its input, byte by byte exclusive or with the key stream that starts from
-- `chacha20_init`; the last block, which is padded, included. The input is a list of bytes.
pub chacha20_xor-keystream :
    (m nonce key : List ℕ)
    → All IsByte m
    → chacha20_xor m nonce key
      ≡ xor_bytes (keystream 4 chacha_rotations (length m + 1) (chacha20_init nonce key)) m
unfolding chacha20_xor
chacha20_xor-keystream m nonce key h =
    xor_loop-keystream 4 chacha_rotations (length m + 1) (chacha20_init nonce key) m
      (length-chacha20_init nonce key) h (omega arith)

-- What BlaBla20 writes is its input, byte by byte exclusive or with the key stream that starts from
-- `blabla20_init`; the last block, which is padded, included. The input is a list of bytes.
pub blabla20_xor-keystream :
    (m nonce key : List ℕ)
    → All IsByte m
    → blabla20_xor m nonce key
      ≡ xor_bytes (keystream 8 blabla_rotations (length m + 1) (blabla20_init nonce key)) m
unfolding blabla20_xor
blabla20_xor-keystream m nonce key h =
    xor_loop-keystream 8 blabla_rotations (length m + 1) (blabla20_init nonce key) m
      (length-blabla20_init nonce key) h (omega arith)

chacha20_xor_twice :
    (m nonce key : List ℕ) → All IsByte m → chacha20_xor (chacha20_xor m nonce key) nonce key ≡ m
unfolding chacha20_xor
chacha20_xor_twice m nonce key h =
    let st : List ℕ = chacha20_init nonce key in
    let (same, back) =
      xor_loop_twice 4 chacha_rotations (length m + 1) st m (length-chacha20_init nonce key) h
        (omega arith) in
    rw same back

blabla20_xor_twice :
    (m nonce key : List ℕ) → All IsByte m → blabla20_xor (blabla20_xor m nonce key) nonce key ≡ m
unfolding blabla20_xor
blabla20_xor_twice m nonce key h =
    let st : List ℕ = blabla20_init nonce key in
    let (same, back) =
      xor_loop_twice 8 blabla_rotations (length m + 1) st m (length-blabla20_init nonce key) h
        (omega arith) in
    rw same back

-- Under the same nonce and key, a second pass of XChaCha20 over what the first pass wrote gives the
-- text back, whatever the nonce, the key and the length of the text. The text is a list of bytes.
pub xchacha20_xor_twice :
    (m nonce key : List ℕ) → All IsByte m → xchacha20_xor (xchacha20_xor m nonce key) nonce key ≡ m
unfolding xchacha20_xor
xchacha20_xor_twice m nonce key h =
    chacha20_xor_twice m (replicate 4 0 ++ slice nonce 16 8) (hchacha20 nonce key) h

-- A second pass of XBlaBla20 gives the text back, under the same nonce and key and when its local
-- `subnonce`, which it never writes, holds the same bytes in both calls. The text is a list of bytes.
pub xblabla20_xor_twice :
    (subnonce m nonce key : List ℕ)
    → All IsByte m
    → xblabla20_xor subnonce (xblabla20_xor subnonce m nonce key) nonce key ≡ m
unfolding xblabla20_xor
xblabla20_xor_twice subnonce m nonce key h = blabla20_xor_twice m subnonce (hblabla20 nonce key) h
