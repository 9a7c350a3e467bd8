-- ===== src/Wasm/Safe/Stacks.antt =====
-- The stacks of the checker: pops and pushes of operands leave the frames as they are, and keep the
-- invariant.
use mathlib.Core.Path.{subst}
use mathlib.Core.List.{reverse}
use zwasm.Base.{
  ℕ, suc, ◌≤◌, ◌≡◌, refl, sym, arith, Bool, true, false, not, ◌&&◌, List, [], ◌∷◌, ◌==◌,
  if◌then◌else◌, length, Bool-cases, inl, inr,
}
use zwasm.Base.Outcome.{pure, guard, ◌>>=◌}
use zwasm.Wasm.Instr.{ValType, eql, is_ref, v128}
use zwasm.Wasm.Validate.{
  Validator, V, Operand, known, unknown, ControlFrame, frame_at, push_operand, push_val,
  pop_operand, expect, pop_expecting, pop_all, pop_expecting_types, push_types, mismatch, pop_stack,
  ValidateError, type_mismatch, type_mismatch,
}
use zwasm.Wasm.Validate.Body.{signature, select_result}
use zwasm.Wasm.Safe.{Nested, WellFormed, NonEmpty, Ensures, Triple, Triple->>=, At}

Nested-mono : (m n : ℕ) (fs : List ControlFrame) → m ≤ n → Nested m fs → Nested n fs
Nested-mono m n [] le h = h
Nested-mono m n (f ∷ fs) le (below, rest) = (omega arith, rest)

-- The two outcomes of a pop at the height of the frame.
flag_keeps :
    (ctrl : List ControlFrame) (c : Bool) (v : Validator)
    → At ctrl v
    → Ensures (λ _. At ctrl) ((if c then pure unknown else mismatch) v)
flag_keeps ctrl true v at = at
flag_keeps ctrl false v at = tt

stack_keeps :
    (ops : List Operand) (f : ControlFrame) (fs : List ControlFrame) (v : Validator)
    → WellFormed (record v { op_stack = ops; ctrl_stack = f ∷ fs })
    → (length ops == f.height) ≡ false
    → Ensures
        (λ _. At (f ∷ fs))
        (pop_stack ops
          (record v { op_stack = ops; ctrl_stack = f ∷ fs })
          (record v { op_stack = ops; ctrl_stack = f ∷ fs }))
stack_keeps [] f fs v wf h = absurd (ground arith)
stack_keeps (t ∷ ts) f fs v wf h = (
  record { nested = (ground arith, wf.nested.1); inits = wf.inits; snapshots = wf.snapshots },
  refl,
)

pop_by_stacks :
    (ops : List Operand) (ctrl : List ControlFrame) (v : Validator)
    → NonEmpty ctrl
    → WellFormed (record v { op_stack = ops; ctrl_stack = ctrl })
    → Ensures (λ _. At ctrl) (pop_operand (record v { op_stack = ops; ctrl_stack = ctrl }))
unfolding pop_operand frame_at
pop_by_stacks ops [] v ne wf = absurd ne
pop_by_stacks ops (f ∷ fs) v ne wf =
    let w : Validator = record v { op_stack = ops; ctrl_stack = f ∷ fs } in
    elim (Bool-cases (length ops == f.height)) [
      | inl empty ↦ rw empty (flag_keeps (f ∷ fs) f.unreachable_flag w (wf, refl))
      | inr some_left ↦ rw some_left (stack_keeps ops f fs v wf some_left)
    ]

-- What holds behind a guard holds with it.
pub guard_keeps :
    {A : Type 0} (P : Validator → Type 0) (Q : A → Validator → Type 0) (c : V A) (b : Bool)
    (e : ValidateError)
    → Triple P c Q
    → Triple P (guard b e >>= λ _. c) Q
guard_keeps P Q c true e t v p = t v p
guard_keeps P Q c false e t v p = tt

module _ (ctrl : List ControlFrame) where
  push_keeps : (t : Operand) → Triple (At ctrl) (push_operand t) (λ _. At ctrl)
  unfolding push_operand
  push_keeps t v (wf, e) = (
    record {
      nested =
          Nested-mono (length v.op_stack) (suc (length v.op_stack)) v.ctrl_stack (omega arith)
            wf.nested;
      inits = wf.inits;
      snapshots = wf.snapshots;
    },
    e,
  )

  pub push_val-keeps : (t : ValType) → Triple (At ctrl) (push_val t) (λ _. At ctrl)
  unfolding push_val
  push_val-keeps t = push_keeps (known t)

  pub push_types-keeps : (ts : List ValType) → Triple (At ctrl) (push_types ts) (λ _. At ctrl)
  unfolding push_types
  push_types-keeps [] = λ v at. at
  push_types-keeps (t ∷ ts) =
      Triple->>= (At ctrl) (λ _. At ctrl) (λ _. At ctrl) (push_val t) (λ _. push_types ts)
        (push_val-keeps t) (λ _. push_types-keeps ts)

  module _ (ne : NonEmpty ctrl) where
    pub pop_operand-keeps : Triple (At ctrl) pop_operand (λ _. At ctrl)
    pop_operand-keeps v (wf, e) =
        subst (λ fs. Ensures (λ _. At fs) (pop_operand v)) e
          (pop_by_stacks v.op_stack v.ctrl_stack v (subst NonEmpty (sym e) ne) wf)

    expect_keeps : (t : ValType) (o : Operand) → Triple (At ctrl) (expect t o) (λ _. At ctrl)
    expect_keeps t unknown v at = at
    expect_keeps t (known u) v at = elim (Bool-cases (eql u t)) [
      | inl same ↦ rw same at
      | inr other ↦ rw other tt
    ]

    pub pop_expecting-keeps : (t : ValType) → Triple (At ctrl) (pop_expecting t) (λ _. At ctrl)
    unfolding pop_expecting
    pop_expecting-keeps t =
        Triple->>= (At ctrl) (λ _. At ctrl) (λ _. At ctrl) pop_operand (expect t) pop_operand-keeps
          (expect_keeps t)

    pop_all-keeps : (ts : List ValType) → Triple (At ctrl) (pop_all ts) (λ _. At ctrl)
    unfolding pop_all
    pop_all-keeps [] = λ v at. at
    pop_all-keeps (t ∷ ts) =
        Triple->>= (At ctrl) (λ _. At ctrl) (λ _. At ctrl) (pop_expecting t) (λ _. pop_all ts)
          (pop_expecting-keeps t) (λ _. pop_all-keeps ts)

    pub pop_expecting_types-keeps :
        (ts : List ValType) → Triple (At ctrl) (pop_expecting_types ts) (λ _. At ctrl)
    unfolding pop_expecting_types
    pop_expecting_types-keeps ts = pop_all-keeps (reverse ts)

    pub signature-keeps :
        (ts : List ValType) (r : ValType) → Triple (At ctrl) (signature ts r) (λ _. At ctrl)
    unfolding signature
    signature-keeps [] r = push_val-keeps r
    signature-keeps (t ∷ ts) r =
        Triple->>= (At ctrl) (λ _. At ctrl) (λ _. At ctrl) (pop_expecting t) (λ _. signature ts r)
          (pop_expecting-keeps t) (λ _. signature-keeps ts r)

    pub select_result-keeps :
        (t1 t2 : Operand) → Triple (At ctrl) (select_result t1 t2) (λ _. At ctrl)
    unfolding select_result
    select_result-keeps unknown t2 = push_keeps t2
    select_result-keeps (known t) unknown = push_keeps (known t)
    select_result-keeps (known t) (known u) =
        guard_keeps (At ctrl) (λ _. At ctrl) _ (eql t u) type_mismatch
          (guard_keeps (At ctrl) (λ _. At ctrl) _ (not (is_ref t) && not (eql t v128)) type_mismatch
            (push_keeps (known t)))
