-- ===== src/Programs/Cipher.antt =====
-- The stream ciphers of bench/shootout-src/xchacha20.c and xblabla20.c. The two files have the same
-- functions, on words of 4 and of 8 bytes: what they share is defined here by the word's size.
-- A state is a list of 16 words, a buffer a list of bytes; the caller's arrays are large enough.
pub mod Laws
pub mod Stream
pub mod Chacha
pub mod Blabla
pub mod RoundTrip
pub mod Tests
use zwasm.Base.{
  ℕ, zero, suc, ◌+◌, ◌-◌, ◌*◌, ◌/◌, ◌%◌, ◌^◌, List, [], ◌∷◌, ◌++◌, ltb, leb, ◌==◌, if◌then◌else◌,
  length, get_or, set, take, drop, replicate, bit_or, bit_xor,
}
use zwasm.Base.Slices.{le_bytes}

-- `w |= (uint32_t)src[i] << 8 * i`, from one place on.
unfoldable pub load_from : ℕ → ℕ → List ℕ → ℕ
load_from w shift [] = w
load_from w shift (b ∷ bs) = load_from (bit_or w (b * 2 ^ shift)) (shift + 8) bs

-- `LOAD32_LE` and `LOAD64_LE`, of the first `n` bytes; the stores are `le_bytes`.
unfoldable pub load_le : ℕ → List ℕ → ℕ
unfolding load_from
load_le n src = load_from 0 0 (take n src)

-- Words from place `i` of the state on, loaded one by one.
unfoldable pub load_words : ℕ → ℕ → List ℕ → List ℕ
unfolding load_le
load_words n zero src = []
load_words n (suc count) src = load_le n src ∷ load_words n count (drop n src)

abbrev pub word : List ℕ → ℕ → ℕ
word st i = get_or st i 0

-- `ROTL32` and `ROTL64`
unfoldable pub rotl : ℕ → ℕ → ℕ → ℕ
rotl w x b = bit_or (x * 2 ^ b % 2 ^ w) (x / 2 ^ (w - b))

-- `a += b; d = ROTL(d ^ a, r)`
unfoldable pub half_quarter : ℕ → ℕ → ℕ → ℕ → ℕ → List ℕ → List ℕ
unfolding rotl
half_quarter w r a b d st =
    let sum = (word st a + word st b) % 2 ^ w in
    set (set st a sum) d (rotl w (bit_xor (word st d) sum) r)

pub record Rotations : Type 0 where
  pub first : ℕ
  pub second : ℕ
  pub third : ℕ
  pub fourth : ℕ

-- `CHACHA20_QUARTERROUND` and `BLABLA20_QUARTERROUND` on four places of the state.
unfoldable pub quarter_round : ℕ → Rotations → ℕ → ℕ → ℕ → ℕ → List ℕ → List ℕ
unfolding half_quarter
quarter_round w r a b c d st =
    half_quarter w r.fourth c d b (
      half_quarter w r.third a b d
        (half_quarter w r.second c d b (half_quarter w r.first a b d st)))

-- The body of the loop of `chacha20_rounds`.
unfoldable pub double_round : ℕ → Rotations → List ℕ → List ℕ
unfolding quarter_round
double_round w r st =
    let columns =
      quarter_round w r 3 7 11 15 (
        quarter_round w r 2 6 10 14 (quarter_round w r 1 5 9 13 (quarter_round w r 0 4 8 12 st))) in
    quarter_round w r 3 4 9 14 (
      quarter_round w r 2 7 8 13
        (quarter_round w r 1 6 11 12 (quarter_round w r 0 5 10 15 columns)))

unfoldable pub rounds : ℕ → Rotations → ℕ → List ℕ → List ℕ
unfolding double_round
rounds w r zero st = st
rounds w r (suc n) st = rounds w r n (double_round w r st)

-- `ks[i] += st[i]`
unfoldable pub add_words : ℕ → List ℕ → List ℕ → List ℕ
add_words w [] st = []
add_words w (k ∷ ks) st = (k + word st 0) % 2 ^ w ∷ add_words w ks (drop 1 st)

-- `if (++st[12] == 0) ++st[13];`
unfoldable pub count_up : ℕ → List ℕ → List ℕ
count_up w st =
    let low = (word st 12 + 1) % 2 ^ w in
    let counted = set st 12 low in
    if low == 0 then set counted 13 ((word counted 13 + 1) % 2 ^ w) else counted

-- `chacha20_update`: the key stream's words, and the state. Of twelve rounds the loop runs six times.
unfoldable pub update : ℕ → Rotations → List ℕ → List ℕ × List ℕ
unfolding rounds add_words count_up
update w r st = let st' = rounds w r 6 st in (add_words w st st', count_up w st')

-- Words stored one behind the other.
abbrev pub store_words : ℕ → List ℕ → List ℕ
store_words n [] = []
store_words n (k ∷ ks) = le_bytes n k ++ store_words n ks

-- `x = ks[i] ^ LOAD(m + n * i); STORE(c + n * i, x);`
unfoldable pub xor_words : ℕ → List ℕ → List ℕ → List ℕ
unfolding load_le
xor_words n [] m = []
xor_words n (k ∷ ks) m = le_bytes n (bit_xor k (load_le n m)) ++ xor_words n ks (drop n m)

-- The loop of `chacha20_xor` over whole blocks, and the rest behind it. Each round takes a block of
-- at least one byte, so as much fuel as bytes, and one more, is enough.
unfoldable pub xor_loop : ℕ → Rotations → ℕ → List ℕ → List ℕ → List ℕ
unfolding update xor_words
xor_loop n r zero st m = []
xor_loop n r (suc fuel) st m =
    let (ks, st') = update (8 * n) r st in
    let rest = xor_loop n r fuel st' (drop (16 * n) m) in
    if leb (16 * n) (length m)
    then xor_words n ks m ++ rest
    else if ltb 0 (length m)
    then take (length m) (xor_words n ks (m ++ replicate (16 * n - length m) 0))
    else []
