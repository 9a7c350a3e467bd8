-- ===== src/Programs/Cipher/Laws.antt =====
-- Bytes of words: what a load reads, and exclusive or byte by byte.
use zwasm.Base.{
  ℕ, zero, suc, ◌+◌, ◌*◌, ◌/◌, ◌%◌, ◌^◌, ◌≤◌, ◌<◌, ◌≡◌, refl, sym, ap, ◌∙◌, arith, List, [], ◌∷◌,
  ◌++◌, length, length-append, length-drop, take, drop, All, All-take, All-drop, bit_xor,
}
use native.Mathlib.Nat.{mul-suc}
use zwasm.Base.Bits.{bit_or_disjoint, pow_add}
use zwasm.Base.Xor.{bit_xor_low, bit_xor_high, bit_xor_twice}
use zwasm.Base.Slices.{le_bytes, le_value, length-le_bytes}
use zwasm.Programs.Cipher.{load_from, load_le, store_words, xor_words}

abbrev pub IsByte : ℕ → Type 0
IsByte b = b < 256

-- The key stream's bytes with those of a text, as far as the shorter goes.
unfoldable pub xor_bytes : List ℕ → List ℕ → List ℕ
xor_bytes [] bs = []
xor_bytes (k ∷ ks) [] = []
xor_bytes (k ∷ ks) (b ∷ bs) = bit_xor k b ∷ xor_bytes ks bs

pub length-xor_bytes :
    (ks bs : List ℕ) → length bs ≤ length ks → length (xor_bytes ks bs) ≡ length bs
unfolding xor_bytes
length-xor_bytes [] [] h = refl
length-xor_bytes [] (b ∷ bs) h = absurd (omega arith)
length-xor_bytes (k ∷ ks) [] h = refl
length-xor_bytes (k ∷ ks) (b ∷ bs) h = ap suc (length-xor_bytes ks bs (omega arith))

pub xor_bytes_twice : (ks bs : List ℕ) → length bs ≤ length ks → xor_bytes ks (xor_bytes ks bs) ≡ bs
unfolding xor_bytes
xor_bytes_twice [] [] h = refl
xor_bytes_twice [] (b ∷ bs) h = absurd (omega arith)
xor_bytes_twice (k ∷ ks) [] h = refl
xor_bytes_twice (k ∷ ks) (b ∷ bs) h =
    ap (λ t. t ∷ xor_bytes ks (xor_bytes ks bs)) (bit_xor_twice k b)
    ∙ ap (λ t. b ∷ t) (xor_bytes_twice ks bs (omega arith))

spread_lt : (w b p : ℕ) → w < p → b < 256 → w + b * p < p * 256
spread_lt w b p hw hb = grind arith

spread : (w b p v : ℕ) → w + b * p + v * (p * 256) ≡ w + (b + 256 * v) * p
spread w b p v = grind arith

-- A load is the value of the bytes, the lowest first.
load_from-value :
    (w shift : ℕ) (bs : List ℕ)
    → w < 2 ^ shift
    → All IsByte bs
    → load_from w shift bs ≡ w + le_value bs * 2 ^ shift
unfolding load_from
load_from-value w shift [] lt h = omega arith
load_from-value w shift (b ∷ bs) lt (hb, hs) =
    let grown : w + b * 2 ^ shift < 2 ^ (shift + 8) =
      omega (arith, pow_add shift 8, spread_lt w b (2 ^ shift) lt hb) in
    ap (λ t. load_from t (shift + 8) bs) (bit_or_disjoint shift w b lt)
    ∙ load_from-value (w + b * 2 ^ shift) (shift + 8) bs grown hs
    ∙ ap (λ (t : ℕ). w + b * 2 ^ shift + le_value bs * t) (pow_add shift 8)
    ∙ spread w b (2 ^ shift) (le_value bs)

pub load_le-value : (n : ℕ) (bs : List ℕ) → All IsByte bs → load_le n bs ≡ le_value (take n bs)
unfolding load_le
load_le-value n bs h =
    load_from-value 0 0 (take n bs) (omega arith) (All-take IsByte n bs h) ∙ omega arith

-- One word.
word_bytes :
    (n k : ℕ) (bs : List ℕ)
    → n ≤ length bs
    → All IsByte bs
    → le_bytes n (bit_xor k (le_value (take n bs))) ≡ xor_bytes (le_bytes n k) bs
unfolding xor_bytes
word_bytes zero k bs le h = refl
word_bytes (suc n) k [] le h = absurd (omega arith)
word_bytes (suc n) k (b ∷ bs) le (hb, hs) =
    let v : ℕ = le_value (take n bs) in
    let low : bit_xor k (b + 256 * v) % 256 ≡ bit_xor (k % 256) b =
      bit_xor_low 8 k (b + 256 * v) ∙ ap (bit_xor (k % 256)) (omega arith) in
    let high : bit_xor k (b + 256 * v) / 256 ≡ bit_xor (k / 256) v =
      bit_xor_high 8 k (b + 256 * v) ∙ ap (bit_xor (k / 256)) (omega arith) in
    rw (low, high) (ap (λ t. bit_xor (k % 256) b ∷ t) (word_bytes n (k / 256) bs (omega arith) hs))

pub xor_bytes-none : (ks : List ℕ) → xor_bytes ks [] ≡ []
unfolding xor_bytes
xor_bytes-none [] = refl
xor_bytes-none (k ∷ ks) = refl

-- Two parts of a key stream.
pub xor_bytes-append :
    (ks ls bs : List ℕ)
    → xor_bytes (ks ++ ls) bs ≡ xor_bytes ks bs ++ xor_bytes ls (drop (length ks) bs)
unfolding xor_bytes
xor_bytes-append [] ls bs = refl
xor_bytes-append (k ∷ ks) ls [] = sym (xor_bytes-none ls)
xor_bytes-append (k ∷ ks) ls (b ∷ bs) = ap (λ t. bit_xor k b ∷ t) (xor_bytes-append ks ls bs)

-- Of a key stream that is long enough, only the start counts.
pub xor_bytes-enough :
    (ks ls bs : List ℕ) → length bs ≤ length ks → xor_bytes (ks ++ ls) bs ≡ xor_bytes ks bs
unfolding xor_bytes
xor_bytes-enough [] ls [] h = xor_bytes-none ls
xor_bytes-enough [] ls (b ∷ bs) h = absurd (omega arith)
xor_bytes-enough (k ∷ ks) ls [] h = refl
xor_bytes-enough (k ∷ ks) ls (b ∷ bs) h =
    ap (λ t. bit_xor k b ∷ t) (xor_bytes-enough ks ls bs (omega arith))

-- What is behind a text does not change its start.
pub xor_bytes-padded :
    (ks bs pad : List ℕ) → take (length bs) (xor_bytes ks (bs ++ pad)) ≡ xor_bytes ks bs
unfolding xor_bytes
xor_bytes-padded [] [] pad = refl
xor_bytes-padded [] (b ∷ bs) pad = refl
xor_bytes-padded (k ∷ ks) [] pad = refl
xor_bytes-padded (k ∷ ks) (b ∷ bs) pad = ap (λ t. bit_xor k b ∷ t) (xor_bytes-padded ks bs pad)

pub length-store_words : (n : ℕ) (ks : List ℕ) → length (store_words n ks) ≡ n * length ks
length-store_words n [] = omega arith
length-store_words n (k ∷ ks) = omega (
  arith,
  length-append (le_bytes n k) (store_words n ks),
  length-le_bytes n k,
  length-store_words n ks,
  mul-suc n (length ks),
)

none_left : (bs : List ℕ) → [] ≡ xor_bytes [] bs
unfolding xor_bytes
none_left bs = refl

-- The first words of a text.
pub xor_words-bytes :
    (n : ℕ) (ks bs : List ℕ)
    → n * length ks ≤ length bs
    → All IsByte bs
    → xor_words n ks bs ≡ xor_bytes (store_words n ks) bs
unfolding xor_words
xor_words-bytes n [] bs le h = none_left bs
xor_words-bytes n (k ∷ ks) bs le h =
    let first : le_bytes n (bit_xor k (load_le n bs)) ≡ xor_bytes (le_bytes n k) bs =
      ap (λ (v : ℕ). le_bytes n (bit_xor k v)) (load_le-value n bs h)
      ∙ word_bytes n k bs (omega (arith, mul-suc n (length ks))) h in
    let rest : xor_words n ks (drop n bs) ≡ xor_bytes (store_words n ks) (drop n bs) =
      xor_words-bytes n ks (drop n bs) (omega (arith, mul-suc n (length ks), length-drop n bs))
        (All-drop IsByte n bs h) in
    rw (first, rest)
      (ap (λ (i : ℕ). xor_bytes (le_bytes n k) bs ++ xor_bytes (store_words n ks) (drop i bs))
          (sym (length-le_bytes n k))
        ∙ sym (xor_bytes-append (le_bytes n k) (store_words n ks) bs))
