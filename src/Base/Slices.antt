-- ===== src/Base/Slices.antt =====
-- Parts of a list by position: reading a slice, and writing over one.
use Prim.Native.Nat.{ℕ, zero, suc, ◌+◌, ◌*◌, ◌/◌, ◌%◌, ◌^◌, ◌≤◌, ◌<◌}
use mathlib.Core.Path.{◌≡◌, refl, ap}
use mathlib.Core.List.{List, [], ◌∷◌}
use native.Mathlib.Nat.{pow-suc}
use native.Mathlib.Omega.{arith}
use zwasm.Base.Lists.{length, get_or, set, take, drop, All}
use zwasm.Base.Tests.{◌==◌, if◌then◌else◌}

module _ {ℓ} {A : Type ℓ} where
  -- `n` elements from place `a` on.
  abbrev pub slice : List A → ℕ → ℕ → List A
  slice xs a n = take n (drop a xs)

  -- Writes `ys` over the start of the list; what would stand behind its end is dropped.
  abbrev pub overwrite : List A → List A → List A
  overwrite [] ys = []
  overwrite (x ∷ xs) [] = x ∷ xs
  overwrite (x ∷ xs) (y ∷ ys) = y ∷ overwrite xs ys

  -- Writes `ys` from place `a` on.
  abbrev pub splice : List A → ℕ → List A → List A
  splice xs zero ys = overwrite xs ys
  splice [] (suc a) ys = []
  splice (x ∷ xs) (suc a) ys = x ∷ splice xs a ys

  length-overwrite : (xs ys : List A) → length (overwrite xs ys) ≡ length xs
  length-overwrite [] ys = refl
  length-overwrite (x ∷ xs) [] = refl
  length-overwrite (x ∷ xs) (y ∷ ys) = ap suc (length-overwrite xs ys)

  pub length-splice : (xs : List A) (a : ℕ) (ys : List A) → length (splice xs a ys) ≡ length xs
  length-splice xs zero ys = length-overwrite xs ys
  length-splice [] (suc a) ys = refl
  length-splice (x ∷ xs) (suc a) ys = ap suc (length-splice xs a ys)

  take-overwrite :
      (xs ys : List A) → length ys ≤ length xs → take (length ys) (overwrite xs ys) ≡ ys
  take-overwrite [] [] h = refl
  take-overwrite [] (y ∷ ys) h = absurd (omega arith)
  take-overwrite (x ∷ xs) [] h = refl
  take-overwrite (x ∷ xs) (y ∷ ys) h = ap (λ t. y ∷ t) (take-overwrite xs ys (omega arith))

  pub slice-splice :
      (xs : List A) (a : ℕ) (ys : List A)
      → a + length ys ≤ length xs
      → slice (splice xs a ys) a (length ys) ≡ ys
  slice-splice xs zero ys h = take-overwrite xs ys (omega arith)
  slice-splice [] (suc a) ys h = absurd (omega arith)
  slice-splice (x ∷ xs) (suc a) ys h = slice-splice xs a ys (omega arith)

  pub slice-splice_before :
      (xs : List A) (a b n : ℕ) (ys : List A)
      → b + n ≤ a
      → slice (splice xs a ys) b n ≡ slice xs b n
  slice-splice_before xs zero zero zero ys h = refl
  slice-splice_before xs zero zero (suc n) ys h = absurd (omega arith)
  slice-splice_before xs zero (suc b) n ys h = absurd (omega arith)
  slice-splice_before [] (suc a) b n ys h = refl
  slice-splice_before (x ∷ xs) (suc a) zero zero ys h = refl
  slice-splice_before (x ∷ xs) (suc a) zero (suc n) ys h =
      ap (λ t. x ∷ t) (slice-splice_before xs a zero n ys (omega arith))
  slice-splice_before (x ∷ xs) (suc a) (suc b) n ys h =
      slice-splice_before xs a b n ys (omega arith)

  drop-overwrite : (xs ys : List A) (b : ℕ) → length ys ≤ b → drop b (overwrite xs ys) ≡ drop b xs
  drop-overwrite [] ys b h = refl
  drop-overwrite (x ∷ xs) [] b h = refl
  drop-overwrite (x ∷ xs) (y ∷ ys) zero h = absurd (omega arith)
  drop-overwrite (x ∷ xs) (y ∷ ys) (suc b) h = drop-overwrite xs ys b (omega arith)

  pub drop-splice_after :
      (xs : List A) (a b : ℕ) (ys : List A)
      → a + length ys ≤ b
      → drop b (splice xs a ys) ≡ drop b xs
  drop-splice_after xs zero b ys h = drop-overwrite xs ys b (omega arith)
  drop-splice_after [] (suc a) b ys h = refl
  drop-splice_after (x ∷ xs) (suc a) zero ys h = absurd (omega arith)
  drop-splice_after (x ∷ xs) (suc a) (suc b) ys h = drop-splice_after xs a b ys (omega arith)

  pub length-set : (xs : List A) (i : ℕ) (v : A) → length (set xs i v) ≡ length xs
  length-set [] i v = refl
  length-set (x ∷ xs) zero v = refl
  length-set (x ∷ xs) (suc i) v = ap suc (length-set xs i v)

  pub get_or-set :
      (xs : List A) (i j : ℕ) (v d : A)
      → i < length xs
      → get_or (set xs i v) j d ≡ (if i == j then v else get_or xs j d)
  get_or-set [] i j v d h = absurd (omega arith)
  get_or-set (x ∷ xs) zero zero v d h = refl
  get_or-set (x ∷ xs) zero (suc j) v d h = ground arith
  get_or-set (x ∷ xs) (suc i) zero v d h = ground arith
  get_or-set (x ∷ xs) (suc i) (suc j) v d h = ground (arith, get_or-set xs i j v d (omega arith))

-- A number below 256 ^ n as n bytes, the lowest first, and back.
abbrev pub le_bytes : ℕ → ℕ → List ℕ
le_bytes zero v = []
le_bytes (suc n) v = (v % 256) ∷ le_bytes n (v / 256)

abbrev pub le_value : List ℕ → ℕ
le_value [] = 0
le_value (b ∷ bs) = b + 256 * le_value bs

pub length-le_bytes : (n v : ℕ) → length (le_bytes n v) ≡ n
length-le_bytes zero v = refl
length-le_bytes (suc n) v = ap suc (length-le_bytes n (v / 256))

pub le_value-le_bytes : (n v : ℕ) → v < 256 ^ n → le_value (le_bytes n v) ≡ v
le_value-le_bytes zero v h = omega arith
le_value-le_bytes (suc n) v h =
    omega (arith, le_value-le_bytes n (v / 256) (omega (arith, pow-suc 256 n)))

pub le_value-lt : (bs : List ℕ) → All (λ b. b < 256) bs → le_value bs < 256 ^ length bs
le_value-lt [] h = omega arith
le_value-lt (b ∷ bs) (hb, hbs) = omega (arith, pow-suc 256 (length bs), le_value-lt bs hbs)
