-- ===== src/Base/Outcome.antt =====
-- Computations over a state that give a result, fail with an error value, or stop the program.
use zwasm.Base.Tests.{if◌then◌else◌}
use mathlib.Core.Bool.{Bool}
use mathlib.Core.Path.{◌≡◌, ap}

-- `panic` is a checked operation that fails, such as an index below zero.
pub data Outcome (E A : Type 0) : Type 0 where
  ok : A → Outcome E A
  err : E → Outcome E A
  panic : Outcome E A

abbrev pub M : Type 0 → Type 0 → Type 0 → Type 0
M S E A = S → Outcome E (A × S)

abbrev pub pure : {S E A : Type 0} → A → M S E A
pure a s = ok (a, s)

abbrev pub fail : {S E A : Type 0} → E → M S E A
fail e s = err e

abbrev pub get : {S E : Type 0} → M S E S
get s = ok (s, s)

abbrev pub put : {S E : Type 0} → S → M S E (Unit {0})
put s _ = ok (tt, s)

-- A computation without a state.
abbrev pub lift : {S E A : Type 0} → Outcome E A → M S E A
lift (ok a) s = ok (a, s)
lift (err e) s = err e
lift panic s = panic

abbrev pub next : {S E A B : Type 0} → (A → M S E B) → Outcome E (A × S) → Outcome E (B × S)
next f (ok (a, s)) = f a s
next f (err e) = err e
next f panic = panic

infixl 5 ◌>>=◌ ◌>>◌
abbrev pub ◌>>=◌ : {S E A B : Type 0} → M S E A → (A → M S E B) → M S E B
◌>>=◌ m f s = next f (m s)

abbrev pub ◌>>◌ : {S E B : Type 0} → M S E (Unit {0}) → M S E B → M S E B
m >> k = m >>= λ _. k

abbrev pub guard : {S E : Type 0} → Bool → E → M S E (Unit {0})
guard b e = if b then pure tt else fail e

abbrev value_of : {S E A : Type 0} → A → Outcome E (A × S) → A
value_of a (ok (b, s)) = b
value_of a (err e) = a
value_of a panic = a

abbrev state_of : {S E A : Type 0} → S → Outcome E (A × S) → S
state_of s (ok (b, t)) = t
state_of s (err e) = s
state_of s panic = s

-- Parts of equal results.
pub ok_value :
    {S E A : Type 0} (a b : A) (s t : S)
    → ◌≡◌ {A = Outcome E (A × S)} (ok (a, s)) (ok (b, t))
    → a ≡ b
ok_value a b s t h = ap (value_of a) h

pub ok_state :
    {S E A : Type 0} (a b : A) (s t : S)
    → ◌≡◌ {A = Outcome E (A × S)} (ok (a, s)) (ok (b, t))
    → s ≡ t
ok_state a b s t h = ap (state_of s) h
