-- ===== src/Wasm/Sound/Rules.antt =====
-- How an instruction of one or two operands and a result keeps the interpreter in agreement.
use zwasm.Base.{ℕ, ◌^◌, ◌<◌, ◌≡◌, ◌≢◌, refl, arith, Bool, true, false, [], ◌∷◌}
use zwasm.Base.Outcome.{Outcome, ok, err, panic, lift, ◌>>=◌}
use zwasm.Wasm.Instr.{
  ValType, IntType, word32, word64, Unop, Binop, add, sub, mul, div_s, div_u, rem_s, rem_u, and, or,
  xor, shl, shr_s, shr_u, rotl, rotr,
}
use zwasm.Wasm.Words.{Trap, unary, binary, b2i}
use zwasm.Wasm.Words.Bounds.{unary-le, binary-lt}
use zwasm.Wasm.Validate.{push_val, pop_expecting}
use zwasm.Wasm.Validate.Body.{signature, width_type}
use zwasm.Wasm.Vm.{Step, push, pop_int, bits, convert}
use zwasm.Wasm.Sound.{Layout, HasType, Sound, Sound->>=}
use zwasm.Wasm.Sound.Stack.{Sound-push, Sound-pop_int}

abbrev pub Any : {A B : Type 0} → B → A → Type 0
Any b a = Unit {0}

pub binary-ne-panic : (w : ℕ) (op : Binop) (a b : ℕ) → binary w op a b ≢ panic
unfolding binary
binary-ne-panic w add a b = λ h. ground arith
binary-ne-panic w sub a b = λ h. ground arith
binary-ne-panic w mul a b = λ h. ground arith
binary-ne-panic w div_s a b = λ h. ground arith
binary-ne-panic w div_u a b = λ h. ground arith
binary-ne-panic w rem_s a b = λ h. ground arith
binary-ne-panic w rem_u a b = λ h. ground arith
binary-ne-panic w and a b = λ h. ground arith
binary-ne-panic w or a b = λ h. ground arith
binary-ne-panic w xor a b = λ h. ground arith
binary-ne-panic w shl a b = λ h. ground arith
binary-ne-panic w shr_s a b = λ h. ground arith
binary-ne-panic w shr_u a b = λ h. ground arith
binary-ne-panic w rotl a b = λ h. ground arith
binary-ne-panic w rotr a b = λ h. ground arith

pub b2i-lt : (b : Bool) → b2i b < 2 ^ 32
b2i-lt true = omega arith
b2i-lt false = omega arith

pub unary_fits :
    (t : IntType) (op : Unop) (a : ℕ)
    → a < 2 ^ bits t
    → HasType (width_type t) (unary (bits t) op a)
unary_fits word32 op a h = omega (arith, unary-le 32 op a)
unary_fits word64 op a h = omega (arith, unary-le 64 op a)

pub binary_fits :
    (t : IntType) (op : Binop) (a b : ℕ)
    → a < 2 ^ bits t
    → b < 2 ^ bits t
    → (r : ℕ) → binary (bits t) op a b ≡ ok r
    → HasType (width_type t) r
binary_fits word32 op a b ha hb r h = binary-lt 32 op a b r ha hb h
binary_fits word64 op a b ha hb r h = binary-lt 64 op a b r ha hb h

module _ (l : Layout) where
  pub Sound-convert :
      (u : ValType) (t : IntType) (r : ValType) (f : ℕ → ℕ)
      → ((x : ℕ) → x < 2 ^ bits t → HasType r (f x))
      → Sound l (signature (u ∷ []) r) (convert t f) Any
  unfolding signature convert
  Sound-convert u t r f fits =
      Sound->>= l (pop_expecting u) (pop_int t) (λ _. push_val r) (λ x. push (f x))
        (λ _ x. x < 2 ^ bits t) Any (Sound-pop_int l u t) λ _ x lt. Sound-push l r (f x) (fits x lt)

  pub Sound-lift :
      (t : ValType) (r : Outcome Trap ℕ)
      → r ≢ panic
      → ((x : ℕ) → r ≡ ok x → HasType t x)
      → Sound l (push_val t) (lift r >>= λ x. push x) Any
  Sound-lift t (ok x) ne fits = Sound-push l t x (fits x refl)
  Sound-lift t (err e) ne fits = λ v vm m b v' h. tt
  Sound-lift t panic ne fits = absurd (ne refl)

  pub Sound-two :
      (u : ValType) (t : IntType) (r : ValType) (k : ℕ → ℕ → Step)
      → ((b a : ℕ) → b < 2 ^ bits t → a < 2 ^ bits t → Sound l (push_val r) (k b a) Any)
      → Sound l (signature (u ∷ u ∷ []) r) (pop_int t >>= λ b. pop_int t >>= λ a. k b a) Any
  unfolding signature
  Sound-two u t r k g =
      Sound->>= l (pop_expecting u) (pop_int t) (λ _. signature (u ∷ []) r)
        (λ b. pop_int t >>= λ a. k b a) (λ _ x. x < 2 ^ bits t) Any (Sound-pop_int l u t)
        λ _ b lb.
          Sound->>= l (pop_expecting u) (pop_int t) (λ _. push_val r) (λ a. k b a)
            (λ _ x. x < 2 ^ bits t) Any (Sound-pop_int l u t) λ _ a la. g b a lb la
