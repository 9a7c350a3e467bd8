-- ===== src/Wasm/Safe/Locals.antt =====
-- The locals of the checker: a step on the operands leaves their types, so an index that was tested
-- before it is still inside when the local is marked.
use zwasm.Base.{
  ℕ, ◌<◌, ◌≡◌, refl, ap, ◌∙◌, arith, Bool, true, false, List, [], ◌∷◌, ltb, ◌==◌, if◌then◌else◌,
  length, Bool-cases, inl, inr,
}
use zwasm.Base.Slices.{length-set}
use zwasm.Base.Outcome.{Outcome, ok, err, panic, pure, next, ◌>>=◌}
use zwasm.Wasm.Instr.{ValType, eql}
use zwasm.Wasm.Validate.{
  Validator, V, Operand, known, unknown, ControlFrame, ValidateError, push_val, push_operand,
  frame_at, mismatch, pop_stack, pop_operand, expect, pop_expecting,
}
use zwasm.Wasm.Validate.Body.{signature, set_init, mark_init}
use zwasm.Wasm.Safe.{Ensures, Triple, At}

-- The types of the locals are `ts` where there is a state.
abbrev HasTypes : {A : Type 0} → List ValType → Outcome ValidateError (A × Validator) → Type 0
HasTypes ts (ok (a, w)) = w.local_types ≡ ts
HasTypes ts (err e) = Unit {0}
HasTypes ts panic = Unit {0}

abbrev pub KeepsTypes : {A : Type 0} → V A → Type 0
KeepsTypes c = (v : Validator) → HasTypes v.local_types (c v)

KeepsTypes->>= :
    {A B : Type 0} (c : V A) (k : A → V B)
    → KeepsTypes c
    → ((a : A) → KeepsTypes (k a))
    → KeepsTypes (c >>= k)
KeepsTypes->>= {A} {B} c k h g v = behind (c v) (h v)
  where
    moved :
        (ts us : List ValType) (r : Outcome ValidateError (B × Validator))
        → us ≡ ts
        → HasTypes us r
        → HasTypes ts r
    moved ts us (ok (b, w)) e h = h ∙ e
    moved ts us (err x) e h = tt
    moved ts us panic e h = tt

    behind :
        (r : Outcome ValidateError (A × Validator))
        → HasTypes v.local_types r
        → HasTypes v.local_types (next k r)
    behind (ok (a, w)) e = moved v.local_types w.local_types (k a w) e (g a w)
    behind (err x) e = tt
    behind panic e = tt

flag_types :
    (c : Bool) (v : Validator) → HasTypes v.local_types ((if c then pure unknown else mismatch) v)
flag_types true v = refl
flag_types false v = tt

stack_types : (ops : List Operand) (v : Validator) → HasTypes v.local_types (pop_stack ops v v)
stack_types [] v = tt
stack_types (o ∷ os) v = refl

pop_by_stacks :
    (ops : List Operand) (ctrl : List ControlFrame) (v : Validator)
    → HasTypes v.local_types (pop_operand (record v { op_stack = ops; ctrl_stack = ctrl }))
unfolding pop_operand frame_at
pop_by_stacks ops [] v = tt
pop_by_stacks ops (f ∷ fs) v =
    let w : Validator = record v { op_stack = ops; ctrl_stack = f ∷ fs } in
    elim (Bool-cases (length ops == f.height)) [
      | inl empty ↦ rw empty (flag_types f.unreachable_flag w)
      | inr some_left ↦ rw some_left (stack_types ops w)
    ]

pop_operand-KeepsTypes : KeepsTypes pop_operand
pop_operand-KeepsTypes v = pop_by_stacks v.op_stack v.ctrl_stack v

expect-KeepsTypes : (t : ValType) (o : Operand) → KeepsTypes (expect t o)
expect-KeepsTypes t unknown v = refl
expect-KeepsTypes t (known u) v = elim (Bool-cases (eql u t)) [
  | inl same ↦ rw same refl
  | inr other ↦ rw other tt
]

pub pop_expecting-KeepsTypes : (t : ValType) → KeepsTypes (pop_expecting t)
unfolding pop_expecting
pop_expecting-KeepsTypes t =
    KeepsTypes->>= pop_operand (expect t) pop_operand-KeepsTypes (expect-KeepsTypes t)

pub signature-KeepsTypes : (t u : ValType) → KeepsTypes (signature (t ∷ []) u)
unfolding signature push_val push_operand
signature-KeepsTypes t u =
    KeepsTypes->>= (pop_expecting t) (λ _. push_val u) (pop_expecting-KeepsTypes t) λ _ v. refl

module _ (ctrl : List ControlFrame) (idx : ℕ) where
  abbrev pub Inside : Validator → Type 0
  Inside v = (idx < length v.local_types) × At ctrl v

  pub Inside-KeepsTypes :
      {A : Type 0} (c : V A)
      → Triple (At ctrl) c (λ _. At ctrl)
      → KeepsTypes c
      → Triple Inside c (λ _. Inside)
  Inside-KeepsTypes {A} c t k v (lt, at) = both (c v) (t v at) (k v)
    where
      both :
          (r : Outcome ValidateError (A × Validator))
          → Ensures (λ _. At ctrl) r
          → HasTypes v.local_types r
          → Ensures (λ _. Inside) r
      both (ok (a, w)) h e = (omega (arith, lt, ap length e), h)
      both (err x) h e = tt
      both panic h e = h

  set_init_keeps : (v : Validator) → Inside v → Ensures (λ _. At ctrl) (set_init idx v)
  set_init_keeps v (lt, (wf, e)) =
      let inside : ltb idx (length v.local_inits) ≡ true = ground (arith, wf.inits) in
      rw inside (
        record {
          nested = wf.nested;
          inits = length-set v.local_inits idx true ∙ wf.inits;
          snapshots = wf.snapshots;
        },
        e,
      )

  marked_keeps :
      (c : Bool) (v : Validator)
      → Inside v
      → Ensures (λ _. At ctrl) (if c then set_init idx v else pure tt v)
  marked_keeps false v (lt, at) = at
  marked_keeps true v h = set_init_keeps v h

  pub mark_init-keeps : Triple Inside (mark_init idx) (λ _. At ctrl)
  mark_init-keeps v = marked_keeps v.has_non_defaultable v
