-- ===== src/Wasm/Sound.antt =====
-- The checker of src/validate.zig against the interpreter of src/vm.zig: what it means for the two
-- states to agree, and the rule by which a checked step and an executed one keep in agreement.
pub mod Stack
pub mod Locals
pub mod Rules
pub mod Exec
pub mod Run
use mathlib.Core.Path.{subst}
use zwasm.Base.{
  ℕ, zero, suc, ◌+◌, ◌-◌, ◌%◌, ◌^◌, ◌≤◌, ◌<◌, ◌≡◌, ◌≢◌, refl, arith, Bool, true, false, Option,
  none, some, List, [], ◌∷◌, ltb, leb, ◌==◌, if◌then◌else◌, length, get_elem?, Bool-cases, inl, inr,
}
use zwasm.Base.Outcome.{Outcome, ok, err, panic, M, next, ◌>>=◌, ok_value, ok_state}
use zwasm.Wasm.Instr.{ValType, i32, i64, f32, f64, v128}
use zwasm.Wasm.Words.{Trap}
use zwasm.Wasm.Validate.{
  Validator, V, Operand, known, unknown, ControlFrame, ValidateError, push_val,
}
use zwasm.Wasm.Vm.{Vm, E, Frame, operand_stack_size, update, push}

-- The width of a value on the operand stack.
abbrev pub width : ValType → ℕ
width i32 = 32
width i64 = 64
width f32 = 32
width f64 = 64
width v128 = 128
width _ = 64

abbrev pub HasType : ValType → ℕ → Type 0
HasType t v = v < 2 ^ width t

-- A value of the type that the checker has for it.
abbrev pub Holds : Operand → ℕ → Type 0
Holds (known t) v = HasType t v
Holds unknown v = ⊥

-- The operands below `p`, from the top down to `base`, have the types on the checker's stack.
abbrev pub Typed : (ℕ → ℕ) → ℕ → ℕ → List Operand → Type 0
Typed st base p [] = p ≡ base
Typed st base p (known t ∷ ts) = (base < p) × HasType t (st (p - 1)) × Typed st base (p - 1) ts
Typed st base p (unknown ∷ ts) = ⊥

-- The locals from place `p` on.
abbrev pub LocalsTyped : (ℕ → ℕ) → ℕ → List ValType → Type 0
LocalsTyped st p [] = Unit {0}
LocalsTyped st p (t ∷ ts) = HasType t (st p) × LocalsTyped st (p + 1) ts

abbrev pub Reachable : List ControlFrame → Type 0
Reachable [] = Unit {0}
Reachable (f ∷ fs) = f.unreachable_flag ≡ false

abbrev pub FrameIs : ℕ → List Frame → Type 0
FrameIs start [] = ⊥
FrameIs start (f ∷ fs) = f.locals_start ≡ start

-- A function's locals: where they begin, and their types. The operands lie behind them.
pub record Layout : Type 0 where
  pub start : ℕ
  pub types : List ValType

abbrev pub base : Layout → ℕ
base l = l.start + length l.types

-- The checker's state and the machine's, in a function with these locals.
pub record Matches (l : Layout) (v : Validator) (vm : Vm) : Type 0 where
  pub types_kept : v.local_types ≡ l.types
  pub reachable : Reachable v.ctrl_stack
  pub operands : Typed vm.op_stack (base l) vm.op_ptr v.op_stack
  pub locals : LocalsTyped vm.op_stack l.start l.types
  pub frame : FrameIs l.start vm.frames
  pub room : vm.op_ptr ≤ operand_stack_size

-- After a step that the checker accepts in state `v`: a value with `P` in a state that agrees, or a
-- trap, but no panic.
abbrev pub Good : {A : Type 0} → Layout → (A → Type 0) → Validator → Outcome Trap (A × Vm) → Type 0
Good l P v (ok (a, vm)) = P a × Matches l v vm
Good l P v (err e) = Unit {0}
Good l P v panic = ⊥

module _ (l : Layout) where
  abbrev pub Sound : {A B : Type 0} → V B → E A → (B → A → Type 0) → Type 0
  Sound {A} {B} p c P =
      (v : Validator) (vm : Vm)
      → Matches l v vm
      → (b : B) (v' : Validator) → p v ≡ ok (b, v')
      → Good l (P b) v' (c vm)

  pub next-eq_ok :
      {S F A B : Type 0} (f : A → M S F B) (r : Outcome F (A × S)) {b : B × S}
      → next f r ≡ ok b
      → (a : A) × (s : S) × (r ≡ ok (a, s)) × (f a s ≡ ok b)
  next-eq_ok f (ok (a, s)) h = (a, s, refl, h)
  next-eq_ok f (err e) h = absurd (cc)
  next-eq_ok f panic h = absurd (cc)

  Good-next :
      {A B : Type 0} (P : A → Type 0) (Q : B → Type 0) (v v' : Validator) (k : A → E B)
      (r : Outcome Trap (A × Vm))
      → Good l P v r
      → ((a : A) (vm : Vm) → P a → Matches l v vm → Good l Q v' (k a vm))
      → Good l Q v' (next k r)
  Good-next P Q v v' k (ok (a, vm)) (pa, m) g = g a vm pa m
  Good-next P Q v v' k (err e) h g = tt
  Good-next P Q v v' k panic h g = h

  pub Sound->>= :
      {A B C D : Type 0} (p : V B) (c : E A) (q : B → V D) (k : A → E C) (P : B → A → Type 0)
      (Q : D → C → Type 0)
      → Sound p c P
      → ((b : B) (a : A) → P b a → Sound (q b) (k a) Q)
      → Sound (p >>= q) (c >>= k) Q
  Sound->>= p c q k P Q sp sq v vm m d v' h =
      let (b, w, hp, hq) = next-eq_ok q (p v) h in
      Good-next (P b) (Q d) w v' k (c vm) (sp v vm m b w hp)
        (λ a vm' pa m'. sq b a pa w vm' m' d v' hq)

  -- The checker's step ended in `v'`; the machine's in a state that agrees with it.
  pub Good-ok :
      {A B F : Type 0} (P : B → A → Type 0) (b b' : B) (w v' : Validator) (a : A) (vm : Vm)
      → ◌≡◌ {A = Outcome F (B × Validator)} (ok (b, w)) (ok (b', v'))
      → P b a
      → Matches l w vm
      → Good l (P b') v' (ok (a, vm))
  Good-ok P b b' w v' a vm h pa m = (
    subst (λ c. P c a) (ok_value b b' w v' h) pa,
    subst (λ u. Matches l u vm) (ok_state b b' w v' h) m,
  )
