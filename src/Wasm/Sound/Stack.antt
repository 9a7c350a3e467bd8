-- ===== src/Wasm/Sound/Stack.antt =====
-- Pushes and pops of the checker and of the interpreter: each pair keeps the two states in agreement.
use mathlib.Core.Path.{subst}
use zwasm.Base.{
  ℕ, ◌+◌, ◌-◌, ◌%◌, ◌^◌, ◌≤◌, ◌<◌, ◌≡◌, ◌≢◌, refl, sym, ap, ◌∙◌, arith, true, false, List, [], ◌∷◌,
  leb, ◌==◌, length, Bool-cases, inl, inr,
}
use zwasm.Base.Outcome.{ok, pure, ◌>>=◌, ok_state}
use zwasm.Wasm.Instr.{ValType, eql, IntType, word32, word64}
use zwasm.Wasm.Validate.{
  Validator, Operand, known, unknown, ControlFrame, push_val, pop_operand, pop_expecting, expect,
  push_operand, frame_at,
}
use zwasm.Wasm.Validate.Body.{signature}
use zwasm.Wasm.Vm.{Vm, operand_stack_size, update, push, pop_whole, pop, pop_u32, pop_int, bits}
use zwasm.Wasm.Sound.{
  Layout, base, width, HasType, Typed, LocalsTyped, Reachable, Holds, Matches, Sound, Good, Good-ok,
  Sound->>=, next-eq_ok,
}

pub update_other : (st : ℕ → ℕ) (q x p : ℕ) → p ≢ q → update st q x p ≡ st p
update_other st q x p ne = ground arith

pub update_same : (st : ℕ → ℕ) (q x : ℕ) → update st q x q ≡ x
update_same st q x = ground arith

Typed-update :
    (st : ℕ → ℕ) (base p q x : ℕ) (ts : List Operand)
    → p ≤ q
    → Typed st base p ts
    → Typed (update st q x) base p ts
Typed-update st base p q x [] le h = h
Typed-update st base p q x (known t ∷ ts) le (lt, ty, rest) = (
  lt,
  rw (update_other st q x (p - 1) (omega arith)) ty,
  Typed-update st base (p - 1) q x ts (omega arith) rest,
)
Typed-update st base p q x (unknown ∷ ts) le h = h

LocalsTyped-update :
    (st : ℕ → ℕ) (p q x : ℕ) (ts : List ValType)
    → p + length ts ≤ q
    → LocalsTyped st p ts
    → LocalsTyped (update st q x) p ts
LocalsTyped-update st p q x [] le h = h
LocalsTyped-update st p q x (t ∷ ts) le (ty, rest) = (
  rw (update_other st q x p (omega arith)) ty,
  LocalsTyped-update st (p + 1) q x ts (omega arith) rest,
)

pub base_le : (st : ℕ → ℕ) (base p : ℕ) (ts : List Operand) → Typed st base p ts → base ≤ p
base_le st base p [] h = omega arith
base_le st base p (known t ∷ ts) (lt, ty, rest) = omega arith
base_le st base p (unknown ∷ ts) h = absurd h

pub eql-width : (a b : ValType) → eql a b ≡ true → width a ≡ width b
unfolding eql
eql-width a b h = ground arith

module _ (l : Layout) where
  pub Matches-pushed :
      (v : Validator) (vm : Vm) (t : ValType) (x : ℕ)
      → Matches l v vm
      → HasType t x
      → vm.op_ptr < operand_stack_size
      → Matches l
          (record v { op_stack = known t ∷ v.op_stack })
          (record vm { op_stack = update vm.op_stack vm.op_ptr x; op_ptr = vm.op_ptr + 1 })
  Matches-pushed v vm t x m ty lt =
      let le : base l ≤ vm.op_ptr = base_le vm.op_stack (base l) vm.op_ptr v.op_stack m.operands in
      let back : vm.op_ptr + 1 - 1 ≡ vm.op_ptr = omega arith in
      record {
        types_kept = m.types_kept;
        reachable = m.reachable;
        operands = (
          omega arith,
          subst (λ p. HasType t (update vm.op_stack vm.op_ptr x p)) (sym back)
              (rw (update_same vm.op_stack vm.op_ptr x) ty),
          subst (λ p. Typed (update vm.op_stack vm.op_ptr x) (base l) p v.op_stack) (sym back)
              (Typed-update vm.op_stack (base l) vm.op_ptr vm.op_ptr x v.op_stack (omega arith)
                m.operands),
        );
        locals = LocalsTyped-update vm.op_stack l.start vm.op_ptr x l.types le m.locals;
        frame = m.frame;
        room = omega arith;
      }

  pub Sound-push :
      (t : ValType) (x : ℕ) → HasType t x → Sound l (push_val t) (push x) (λ _ _. Unit {0})
  unfolding push_val push
  Sound-push t x ty v vm m b v' h = elim (Bool-cases (leb operand_stack_size vm.op_ptr)) [
    | inl full ↦ rw full tt
    | inr free ↦ rw free (
        Good-ok l (λ _ _. Unit {0}) tt b _ v' tt _ h tt
          (Matches-pushed v vm t x m ty (ground arith)))
  ]

  Matches-popped :
      (v : Validator) (vm : Vm) (t : ValType) (ts : List Operand)
      → Matches l v vm
      → v.op_stack ≡ known t ∷ ts
      → (0 < vm.op_ptr)
        × HasType t (vm.op_stack (vm.op_ptr - 1))
        × Matches l (record v { op_stack = ts }) (record vm { op_ptr = vm.op_ptr - 1 })
  Matches-popped v vm t ts m e =
      let parts : Typed vm.op_stack (base l) vm.op_ptr (known t ∷ ts) =
        subst (λ os. Typed vm.op_stack (base l) vm.op_ptr os) e m.operands in
      (
        omega arith,
        parts.1,
        record {
          types_kept = m.types_kept;
          reachable = m.reachable;
          operands = parts.2;
          locals = m.locals;
          frame = m.frame;
          room = omega arith;
        },
      )

  -- What a pop that the checker accepts did, in a state that agrees with a machine: by the stacks.
  pop_by_stacks :
      (ops : List Operand) (ctrl : List ControlFrame) (v : Validator) (vm : Vm) (o : Operand)
      (v' : Validator)
      → Reachable ctrl
      → Typed vm.op_stack (base l) vm.op_ptr ops
      → pop_operand (record v { op_stack = ops; ctrl_stack = ctrl }) ≡ ok (o, v')
      → (t : ValType) × (ts : List Operand) × (ops ≡ known t ∷ ts)
        × (record v { op_stack = ts; ctrl_stack = ctrl } ≡ v')
        × (o ≡ known t)
  unfolding pop_operand frame_at
  pop_by_stacks ops [] v vm o v' r ty h = absurd (cc)
  pop_by_stacks [] (f ∷ fs) v vm o v' r ty h = ground arith
  pop_by_stacks (unknown ∷ ts) (f ∷ fs) v vm o v' r ty h = absurd ty
  pop_by_stacks (known t ∷ ts) (f ∷ fs) v vm o v' r ty h = (t, ts, refl, ground arith, ground arith)

  -- Where the checker pops an operand, the machine has one, and room for one behind it.
  pub pop_whole-eq_ok :
      (v : Validator) (vm : Vm) (o : Operand) (v' : Validator)
      → Matches l v vm
      → pop_operand v ≡ ok (o, v')
      → (x : ℕ) × (vm' : Vm) × (pop_whole vm ≡ ok (x, vm'))
        × Holds o x
        × Matches l v' vm'
        × (vm'.op_ptr < operand_stack_size)
  unfolding pop_whole
  pop_whole-eq_ok v vm o v' m h =
      let (t, ts, e, ev, eo) =
        pop_by_stacks v.op_stack v.ctrl_stack v vm o v' m.reachable m.operands h in
      let (pos, ty, m') = Matches-popped v vm t ts m e in
      let some_left : (vm.op_ptr == 0) ≡ false = ground arith in
      let inside : leb operand_stack_size (vm.op_ptr - 1) ≡ false = ground (arith, m.room, pos) in
      (
        vm.op_stack (vm.op_ptr - 1),
        record vm { op_ptr = vm.op_ptr - 1 },
        rw (some_left, inside) refl,
        subst (λ u. Holds u (vm.op_stack (vm.op_ptr - 1))) (sym eo) ty,
        subst (λ u. Matches l u (record vm { op_ptr = vm.op_ptr - 1 })) ev m',
        omega (arith, m.room),
      )

  pub Sound-pop_operand : Sound l pop_operand pop_whole Holds
  Sound-pop_operand v vm m o v' h =
      let (x, vm', e, hx, m', lt) = pop_whole-eq_ok v vm o v' m h in
      subst (Good l (Holds o) v') (sym e) (hx, m')

  pub expect-eq_ok :
      (t : ValType) (o b : Operand) (x : ℕ) (v v' : Validator)
      → Holds o x
      → expect t o v ≡ ok (b, v')
      → HasType t x × (v ≡ v')
  expect-eq_ok t (known u) b x v v' hx h = elim (Bool-cases (eql u t)) [
    | inl same ↦ (subst (λ (w : ℕ). x < 2 ^ w) (eql-width u t same) hx, ground arith)
    | inr other ↦ absurd (ground arith)
  ]
  expect-eq_ok t unknown b x v v' hx h = absurd hx

  -- The interpreter may change the value that it pops.
  pub Sound-pop_expecting :
      {A : Type 0} (t : ValType) (f : ℕ → A) (P : A → Type 0)
      → ((x : ℕ) → HasType t x → P (f x))
      → Sound l (pop_expecting t) (pop_whole >>= λ x. pure (f x)) (λ _ a. P a)
  unfolding pop_expecting
  Sound-pop_expecting t f P g =
      Sound->>= l pop_operand pop_whole (expect t) (λ x. pure (f x)) Holds (λ _ a. P a)
        Sound-pop_operand
        λ o x hx v vm m b v' h.
          let (ty, same) = expect-eq_ok t o b x v v' hx h in
          (g x ty, subst (λ u. Matches l u vm) same m)

  -- As an unsigned number, whatever the type that the checker has for the operand.
  pub Sound-pop_int :
      (u : ValType) (t : IntType) → Sound l (pop_expecting u) (pop_int t) (λ _ x. x < 2 ^ bits t)
  unfolding pop_int pop pop_u32
  Sound-pop_int u word32 =
      Sound-pop_expecting u (λ x. x % 2 ^ 64 % 2 ^ 32) (λ x. x < 2 ^ 32) λ x h. omega arith
  Sound-pop_int u word64 =
      Sound-pop_expecting u (λ x. x % 2 ^ 64) (λ x. x < 2 ^ 64) λ x h. omega arith

  -- The value is popped whole.
  pub Sound-pop_typed : (t : ValType) → Sound l (pop_expecting t) pop_whole (λ _ x. HasType t x)
  unfolding pop_expecting
  Sound-pop_typed t v vm m b v' h =
      let (o, w, hp, he) = next-eq_ok l (expect t) (pop_operand v) h in
      let (x, vm', e, hx, m', lt) = pop_whole-eq_ok v vm o w m hp in
      let (ty, same) = expect-eq_ok t o b x w v' hx he in
      subst (Good l (λ x. HasType t x) v') (sym e) (ty, subst (λ u. Matches l u vm') same m')

  Matches-retyped :
      (v : Validator) (vm : Vm) (t : ValType) (ts : List Operand)
      → Matches l v vm
      → HasType t (vm.op_stack (vm.op_ptr - 1))
      → (base l < vm.op_ptr) × Typed vm.op_stack (base l) (vm.op_ptr - 1) ts
      → Matches l (record v { op_stack = known t ∷ ts }) vm
  Matches-retyped v vm t ts m ty (lt, rest) = record {
    types_kept = m.types_kept;
    reachable = m.reachable;
    operands = (lt, ty, rest);
    locals = m.locals;
    frame = m.frame;
    room = m.room;
  }

  -- An operand that the checker pops and pushes again lies on top of the machine's stack.
  pub peeked :
      (t : ValType) (v : Validator) (vm : Vm) (b : Unit {0}) (v' : Validator)
      → Matches l v vm
      → signature (t ∷ []) t v ≡ ok (b, v')
      → (0 < vm.op_ptr) × HasType t (vm.op_stack (vm.op_ptr - 1)) × Matches l v' vm
  unfolding signature pop_expecting push_val push_operand
  peeked t v vm b v' m h =
      let (o', w', hpe, hpush) = next-eq_ok l (λ _. push_val t) (pop_expecting t v) h in
      let (o, w, hp, he) = next-eq_ok l (expect t) (pop_operand v) hpe in
      let (u, ts, e, ev, eo) =
        pop_by_stacks v.op_stack v.ctrl_stack v vm o w m.reachable m.operands hp in
      let parts : Typed vm.op_stack (base l) vm.op_ptr (known u ∷ ts) =
        subst (λ os. Typed vm.op_stack (base l) vm.op_ptr os) e m.operands in
      let x : ℕ = vm.op_stack (vm.op_ptr - 1) in
      let (ty, same) = expect-eq_ok t o o' x w w' (subst (λ z. Holds z x) (sym eo) parts.1) he in
      let kept : record v { op_stack = known t ∷ ts } ≡ v' =
        ap {A = Validator} (λ z. record z { op_stack = known t ∷ z.op_stack }) (ev ∙ same)
        ∙ ok_state tt b (record w' { op_stack = known t ∷ w'.op_stack }) v' hpush in
      (
        omega arith,
        ty,
        subst (λ z. Matches l z vm) kept (Matches-retyped v vm t ts m ty (parts.0, parts.2)),
      )
