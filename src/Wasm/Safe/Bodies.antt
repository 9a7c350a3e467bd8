-- ===== src/Wasm/Safe/Bodies.antt =====
-- `validate_function`: a function whose blocks are balanced is checked without stopping the program.
use mathlib.Core.Path.{subst}
use zwasm.Base.{
  ℕ, zero, suc, ◌≡◌, ◌≢◌, refl, ap, arith, Bool, true, false, List, [], ◌∷◌, map, ◌==◌, length,
  length-append,
}
use zwasm.Base.Outcome.{Outcome, ok, err, panic, guard}
use zwasm.Wasm.Instr.{ValType, is_defaultable, FuncType, Instr}
use zwasm.Wasm.Validate.{
  Validator, ControlFrame, block_frame, type_mismatch, push_ctrl, ValidateError,
}
use zwasm.Wasm.Validate.Body.{
  LocalDecl, declared, at_entry, validate, validate_all, validate_function,
}
use zwasm.Wasm.Safe.{WellFormed, NonEmpty, Ensures, Triple, Triple->>=, At}
use zwasm.Wasm.Safe.Frames.{Deep, push_ctrl-keeps}
use zwasm.Wasm.Safe.Control.{depth_after, validate-Safe}

-- The blocks of a body are closed, the outermost at its end and not before.
abbrev pub Balanced : ℕ → List Instr → Type 0
Balanced n [] = Unit {0}
Balanced zero (i ∷ is) = ⊥
Balanced (suc n) (i ∷ is) = Balanced (depth_after i (suc n)) is

frames_left : (n : ℕ) (fs : List ControlFrame) → length fs ≡ suc n → NonEmpty fs
frames_left n [] e = absurd (omega arith)
frames_left n (f ∷ fs) e = tt

validate_all-Safe :
    (n : ℕ) (is : List Instr)
    → Balanced n is
    → Triple (Deep n) (validate_all is) (λ _ v. WellFormed v)
unfolding validate_all
validate_all-Safe n [] b = λ v (wf, e). wf
validate_all-Safe zero (i ∷ is) b = absurd b
validate_all-Safe (suc n) (i ∷ is) b =
    Triple->>= (Deep (suc n)) (λ _. Deep (depth_after i (suc n))) (λ _ v. WellFormed v) (validate i)
      (λ _. validate_all is)
      (λ v (wf, e).
        subst (λ m. Ensures (λ _. Deep (depth_after i m)) (validate i v)) e
          (validate-Safe v.ctrl_stack i (frames_left n v.ctrl_stack e) v (wf, refl)))
      λ _. validate_all-Safe (depth_after i (suc n)) is b

length-map {ℓ} : {A B : Type ℓ} (g : A → B) (xs : List A) → length (map g xs) ≡ length xs
length-map g [] = refl
length-map g (x ∷ xs) = ap suc (length-map g xs)

at_entry-WellFormed : (ft : FuncType) (locals : List LocalDecl) → WellFormed (at_entry ft locals)
at_entry-WellFormed ft locals = record {
  nested = tt;
  inits = omega (
    arith,
    length-append (map (λ _. true) ft.params) (map is_defaultable (declared locals)),
    length-append ft.params (declared locals),
    length-map (λ (t : ValType). true) ft.params,
    length-map is_defaultable (declared locals),
  );
  snapshots = tt;
}

ne_panic :
    {A : Type 0} (Q : A → Validator → Type 0) (r : Outcome ValidateError (A × Validator))
    → Ensures Q r
    → r ≢ panic
ne_panic Q (ok (a, v)) q = λ h. cc
ne_panic Q (err e) q = λ h. cc
ne_panic Q panic q = absurd q

guard_ends : (b : Bool) (v : Validator) → Ensures (λ _ _. Unit {0}) (guard b type_mismatch v)
guard_ends true v = tt
guard_ends false v = tt

-- Checking a function never stops the program, whatever state the checker is in before, when the
-- blocks of the body are balanced: the outermost is closed by its last instruction or not at all.
pub validate_function-Safe :
    (ft : FuncType) (locals : List LocalDecl) (body : List Instr) (v : Validator)
    → Balanced 1 body
    → validate_function ft locals body v ≢ panic
unfolding validate_function
validate_function-Safe ft locals body v b =
    ne_panic (λ _ _. Unit {0}) (validate_function ft locals body v)
      (Triple->>= (At []) (λ _. Deep 1) (λ _ _. Unit {0})
        (push_ctrl block_frame ft.params ft.results) _
        (push_ctrl-keeps [] block_frame ft.params ft.results)
        (λ _.
          Triple->>= (Deep 1) (λ _ v. WellFormed v) (λ _ _. Unit {0}) (validate_all body) _
            (validate_all-Safe 1 body b) λ _ w wf. guard_ends (length w.ctrl_stack == 0) w)
        (at_entry ft locals) (at_entry-WellFormed ft locals, refl))
