-- ===== src/Programs/Switch/Bounds.antt =====
-- The loops keep a number below 4096 below 4096, and leave the others alone.
use Prim.Native.Nat.{digits, differ, bit_xor-bitwise}
use native.Mathlib.Nat.{pow-suc, le_refl}
use native.Mathlib.Decide.{dec_lt}
use zwasm.Base.{
  ℕ, zero, suc, ◌+◌, ◌-◌, ◌/◌, ◌%◌, ◌^◌, ◌≤◌, ◌<◌, ◌≡◌, refl, sym, ap, ◌∙◌, arith, ◌⊎◌, inl, inr,
  Bool, true, false, ◌&&◌, none, some, List, [], ◌∷◌, map, get_elem?, bit_xor, ltb, if◌then◌else◌,
  length, Option-cases,
}
use zwasm.Programs.Switch.{tables, mask_in, switch_step, initial, run}

differ_lt : (x y : ℕ) → x < 2 → y < 2 → differ x y < 2
differ_lt zero y hx hy = hy
differ_lt (suc zero) zero hx hy = hx
differ_lt (suc zero) (suc zero) hx hy = omega arith
differ_lt (suc zero) (suc (suc y)) hx hy = absurd (omega arith)
differ_lt (suc (suc x)) y hx hy = absurd (omega arith)

xor_digits_lt : (k n a b : ℕ) → a < 2 ^ k → b < 2 ^ k → a ≤ n → digits (λ y. y) differ n a b < 2 ^ k
xor_digits_lt k zero a b ha hb le = hb
xor_digits_lt k (suc n) zero b ha hb le = hb
xor_digits_lt zero (suc n) (suc a) b ha hb le = absurd (omega arith)
xor_digits_lt (suc k) (suc n) (suc a) b ha hb le = omega (
  arith,
  pow-suc 2 k,
  differ_lt (suc a % 2) (b % 2) (omega arith) (omega arith),
  xor_digits_lt k n (suc a / 2) (b / 2) (omega (arith, pow-suc 2 k)) (omega (arith, pow-suc 2 k))
      (omega arith),
)

-- `^` of numbers of twelve bits has twelve bits.
bit_xor-lt : (a b : ℕ) → a < 4096 → b < 4096 → bit_xor a b < 4096
bit_xor-lt a b ha hb = rw bit_xor-bitwise (xor_digits_lt 12 a a b ha hb (le_refl a))

-- All masks have twelve bits; this is computed over the tables.
all_small : List ℕ → Bool
all_small [] = true
all_small (c ∷ cs) = ltb c 4096 && all_small cs

all_tables_small : List (List ℕ) → Bool
all_tables_small [] = true
all_tables_small (t ∷ ts) = all_small t && all_tables_small ts

tables_small : all_tables_small tables ≡ true
unfolding all_tables_small all_small
tables_small = refl

get_elem?_small : (t : List ℕ) (x m : ℕ) → all_small t ≡ true → get_elem? t x ≡ some m → m < 4096
unfolding all_small
get_elem?_small [] x m h e = cc e
get_elem?_small (c ∷ t) zero m h e = let same : c ≡ m = cc e in ground (arith, same)
get_elem?_small (c ∷ t) (suc x) m h e = get_elem?_small t x m (ground arith) e

mask_in_small :
    (ts : List (List ℕ)) (x m : ℕ) → all_tables_small ts ≡ true → mask_in ts x ≡ some m → m < 4096
unfolding mask_in all_tables_small
mask_in_small [] x m h e = cc e
mask_in_small (t ∷ ts) x m h e = elim (dec_lt x 50) [
  | yes p ↦
      let test : ltb x 50 ≡ true = ground arith in
      get_elem?_small t x m (ground arith)
        (ap (λ b. if b then get_elem? t x else mask_in ts (x - 50)) (sym test) ∙ e)
  | no p ↦
      let test : ltb x 50 ≡ false = ground arith in
      mask_in_small ts (x - 50) m (ground arith)
        (ap (λ b. if b then get_elem? t x else mask_in ts (x - 50)) (sym test) ∙ e)
]

-- How far the tables reach.
span : List (List ℕ) → ℕ
span [] = 0
span (t ∷ []) = length t
span (t ∷ t' ∷ ts) = 50 + span (t' ∷ ts)

span-tables : span tables ≡ 4096
unfolding span
span-tables = refl

get_elem?_beyond : (t : List ℕ) (x : ℕ) → length t ≤ x → get_elem? t x ≡ none
get_elem?_beyond [] x h = refl
get_elem?_beyond (c ∷ t) zero h = absurd (omega arith)
get_elem?_beyond (c ∷ t) (suc x) h = get_elem?_beyond t x (omega arith)

mask_in_beyond : (ts : List (List ℕ)) (x : ℕ) → span ts ≤ x → mask_in ts x ≡ none
unfolding mask_in span
mask_in_beyond [] x h = refl
mask_in_beyond (t ∷ []) x h = rw (get_elem?_beyond t x h) (ground arith)
mask_in_beyond (t ∷ t' ∷ ts) x h =
    let test : ltb x 50 ≡ false = ground arith in
    rw (mask_in, test) (mask_in_beyond (t' ∷ ts) (x - 50) (omega arith))

-- What the element at place `i` may be.
abbrev pub Fits : ℕ → ℕ → Type 0
Fits i v = (i < 4096) × (v < 4096) ⊎ (4096 ≤ i) × (v ≡ i)

switch_step-Fits : (i v : ℕ) → Fits i v → Fits i (switch_step v)
unfolding switch_step
switch_step-Fits i v (inl (low, small)) = elim (Option-cases (mask_in tables v)) [
  | inl e ↦ inl (low, rw (switch_step, e) small)
  | inr (m, e) ↦
      inl
        (low, rw (switch_step, e) (bit_xor-lt v m small (mask_in_small tables v m tables_small e)))
]
switch_step-Fits i v (inr (high, same)) =
    let beyond : mask_in tables v ≡ none = mask_in_beyond tables v (omega (arith, span-tables)) in
    inr (high, rw (switch_step, beyond) same)

get_elem?-map :
    (x : List ℕ) (i v : ℕ)
    → get_elem? x i ≡ some v
    → get_elem? (map switch_step x) i ≡ some (switch_step v)
get_elem?-map [] i v e = cc e
get_elem?-map (a ∷ x) zero v e = let same : a ≡ v = cc e in ap (λ t. some (switch_step t)) same
get_elem?-map (a ∷ x) (suc i) v e = get_elem?-map x i v e

run-Fits :
    (n : ℕ) (x : List ℕ) (i v : ℕ)
    → get_elem? x i ≡ some v
    → Fits i v
    → (w : ℕ) × (get_elem? (run n x) i ≡ some w) × Fits i w
unfolding run
run-Fits zero x i v e fits = (v, e, fits)
run-Fits (suc n) x i v e fits =
    run-Fits n (map switch_step x) i (switch_step v) (get_elem?-map x i v e)
      (switch_step-Fits i v fits)

get_elem?-initial : (n j i : ℕ) → i < n → get_elem? (initial n j) i ≡ some (i + j)
unfolding initial
get_elem?-initial zero j i h = absurd (omega arith)
get_elem?-initial (suc n) j zero h = ap some (omega arith)
get_elem?-initial (suc n) j (suc i) h =
    get_elem?-initial n (j + 1) i (omega arith) ∙ ap some (omega arith)

-- After any number of iterations over any length, the elements that began below 4096 are below
-- 4096, so each round runs one of the cases, and the others are what they were.
pub run-initial :
    (iterations n i : ℕ)
    → i < n
    → (v : ℕ) × (get_elem? (run iterations (initial n 0)) i ≡ some v) × Fits i v
run-initial iterations n i h =
    run-Fits iterations (initial n 0) i (i + 0) (get_elem?-initial n 0 i h) (ground arith)
