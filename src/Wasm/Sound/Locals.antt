-- ===== src/Wasm/Sound/Locals.antt =====
-- Locals: reads and writes of the part of the operand stack where a function's locals lie.
use mathlib.Core.Path.{subst}
use zwasm.Base.{
  ℕ, zero, suc, ◌+◌, ◌-◌, ◌≤◌, ◌<◌, leb, ◌≡◌, refl, sym, arith, Bool, true, false, set,
  if◌then◌else◌, some, List, [], ◌∷◌, length, get_elem?, lt_of_get_elem?,
}
use zwasm.Base.Outcome.{Outcome, ok, pure, next, ◌>>=◌}
use zwasm.Wasm.Instr.{ValType}
use zwasm.Wasm.Validate.{Validator, Operand, known, unknown}
use zwasm.Wasm.Validate.Body.{local_type, check_init, set_init, mark_init}
use zwasm.Wasm.Words.{Trap}
use zwasm.Wasm.Vm.{
  Vm, E, Frame, operand_stack_size, read_slot, write_slot, update, peek_frame, top_frame,
  write_local,
}
use zwasm.Wasm.Sound.{Layout, base, HasType, Typed, LocalsTyped, FrameIs, Matches, Good}
use zwasm.Wasm.Sound.Stack.{update_other, update_same, base_le}

local_typed :
    (st : ℕ → ℕ) (p : ℕ) (ts : List ValType) (idx : ℕ) (t : ValType)
    → LocalsTyped st p ts
    → get_elem? ts idx ≡ some t
    → HasType t (st (p + idx))
local_typed st p [] idx t h e = absurd (cc)
local_typed st p (u ∷ ts) zero t h e = ground arith
local_typed st p (u ∷ ts) (suc idx) t (hu, hs) e =
    let here : p + suc idx ≡ p + 1 + idx = omega arith in
    subst (λ q. HasType t (st q)) (sym here) (local_typed st (p + 1) ts idx t hs e)

-- A write below the operands.
Typed-write :
    (st : ℕ → ℕ) (base p q x : ℕ) (ts : List Operand)
    → q < base
    → Typed st base p ts
    → Typed (update st q x) base p ts
Typed-write st base p q x [] lt h = h
Typed-write st base p q x (known t ∷ ts) lt (above, ty, rest) = (
  above,
  rw (update_other st q x (p - 1) (omega arith)) ty,
  Typed-write st base (p - 1) q x ts lt rest,
)
Typed-write st base p q x (unknown ∷ ts) lt h = h

-- A write to a local that stands before the others.
LocalsTyped-before :
    (st : ℕ → ℕ) (p q x : ℕ) (ts : List ValType)
    → q < p
    → LocalsTyped st p ts
    → LocalsTyped (update st q x) p ts
LocalsTyped-before st p q x [] lt h = h
LocalsTyped-before st p q x (t ∷ ts) lt (ty, rest) = (
  rw (update_other st q x p (omega arith)) ty,
  LocalsTyped-before st (p + 1) q x ts (omega arith) rest,
)

LocalsTyped-write :
    (st : ℕ → ℕ) (p : ℕ) (ts : List ValType) (idx : ℕ) (t : ValType) (x : ℕ)
    → LocalsTyped st p ts
    → get_elem? ts idx ≡ some t
    → HasType t x
    → LocalsTyped (update st (p + idx) x) p ts
LocalsTyped-write st p [] idx t x h e ty = absurd (cc)
LocalsTyped-write st p (u ∷ ts) zero t x (hu, hs) e ty =
    let u_is_t : u ≡ t = ground arith in
    let here : p + zero ≡ p = omega arith in
    subst (λ q. LocalsTyped (update st q x) p (u ∷ ts)) (sym here)
      (
        rw (update_same st p x) (subst (λ w. HasType w x) (sym u_is_t) ty),
        LocalsTyped-before st (p + 1) p x ts (omega arith) hs,
      )
LocalsTyped-write st p (u ∷ ts) (suc idx) t x (hu, hs) e ty =
    let here : p + suc idx ≡ p + 1 + idx = omega arith in
    subst (λ q. LocalsTyped (update st q x) p (u ∷ ts)) (sym here)
      (
        rw (update_other st (p + 1 + idx) x p (omega arith)) hu,
        LocalsTyped-write st (p + 1) ts idx t x hs e ty,
      )

pub local_type-eq_ok :
    (idx : ℕ) (v w : Validator) (t : ValType)
    → local_type idx v ≡ ok (t, w)
    → (get_elem? v.local_types idx ≡ some t) × (v ≡ w)
local_type-eq_ok idx v w t h = (ground arith, ground arith)

pub check_init-eq_ok :
    (idx : ℕ) (v w : Validator) (u : Unit {0}) → check_init idx v ≡ ok (u, w) → v ≡ w
check_init-eq_ok idx v w u h = ground arith

set_init-eq_ok :
    (idx : ℕ) (v w : Validator) (u : Unit {0})
    → set_init idx v ≡ ok (u, w)
    → (inits : List Bool) × (record v { local_inits = inits } ≡ w)
set_init-eq_ok idx v w u h = (set v.local_inits idx true, ground arith)

marked-eq_ok :
    (c : Bool) (idx : ℕ) (v w : Validator) (u : Unit {0})
    → (if c then set_init idx v else pure tt v) ≡ ok (u, w)
    → (inits : List Bool) × (record v { local_inits = inits } ≡ w)
marked-eq_ok true idx v w u h = set_init-eq_ok idx v w u h
marked-eq_ok false idx v w u h = (v.local_inits, ground arith)

pub mark_init-eq_ok :
    (idx : ℕ) (v w : Validator) (u : Unit {0})
    → mark_init idx v ≡ ok (u, w)
    → (inits : List Bool) × (record v { local_inits = inits } ≡ w)
mark_init-eq_ok idx v w u h = marked-eq_ok v.has_non_defaultable idx v w u h

peek_frame-eq_ok :
    (start : ℕ) (fs : List Frame) (vm : Vm)
    → FrameIs start fs
    → (f : Frame) × (◌≡◌ {A = Outcome Trap (Frame × Vm)} (top_frame fs vm) (ok (f, vm)))
      × (f.locals_start ≡ start)
peek_frame-eq_ok start [] vm h = absurd h
peek_frame-eq_ok start (f ∷ fs) vm h = (f, refl, h)

module _ (l : Layout) where
  -- Behind `peek_frame` the frame's locals begin where the layout says, and the state is the same.
  Good-frame :
      {B : Type 0} (P : B → Type 0) (v : Validator) (vm : Vm) (k : ℕ → E B)
      → FrameIs l.start vm.frames
      → Good l P v (k l.start vm)
      → Good l P v (next (λ f. k f.locals_start) (peek_frame vm))
  unfolding peek_frame
  Good-frame P v vm k h good =
      let (f, e, at) = peek_frame-eq_ok l.start vm.frames vm h in
      subst (λ r. Good l P v (next (λ g. k g.locals_start) r)) (sym e)
        (subst (λ q. Good l P v (k q vm)) (sym at) good)

  -- A local lies inside the array.
  local_inside :
      (v : Validator) (vm : Vm) (idx : ℕ) (t : ValType)
      → Matches l v vm
      → get_elem? l.types idx ≡ some t
      → leb operand_stack_size (l.start + idx) ≡ false
  local_inside v vm idx t m e =
      let lt : idx < length l.types = lt_of_get_elem? l.types idx t e in
      let le : base l ≤ vm.op_ptr = base_le vm.op_stack (base l) vm.op_ptr v.op_stack m.operands in
      ground (arith, lt, le, m.room)

  Matches-written :
      (v : Validator) (vm : Vm) (idx : ℕ) (t : ValType) (x : ℕ)
      → Matches l v vm
      → get_elem? l.types idx ≡ some t
      → HasType t x
      → Matches l v (record vm { op_stack = update vm.op_stack (l.start + idx) x })
  Matches-written v vm idx t x m e ty =
      let lt : idx < length l.types = lt_of_get_elem? l.types idx t e in
      record {
        types_kept = m.types_kept;
        reachable = m.reachable;
        operands =
            Typed-write vm.op_stack (base l) vm.op_ptr (l.start + idx) x v.op_stack (omega arith)
              m.operands;
        locals = LocalsTyped-write vm.op_stack l.start l.types idx t x m.locals e ty;
        frame = m.frame;
        room = m.room;
      }

  pub Good-read :
      {B : Type 0} (P : B → Type 0) (v v' : Validator) (vm : Vm) (idx : ℕ) (t : ValType)
      (k : ℕ → E B)
      → Matches l v vm
      → get_elem? l.types idx ≡ some t
      → ((x : ℕ) → HasType t x → Good l P v' (k x vm))
      → Good l P v' (next (λ f. read_slot (f.locals_start + idx) >>= k) (peek_frame vm))
  Good-read P v v' vm idx t k m e good =
      let read : Good l P v' ((read_slot (l.start + idx) >>= k) vm) =
        rw (local_inside v vm idx t m e) (
          good (vm.op_stack (l.start + idx))
            (local_typed vm.op_stack l.start l.types idx t m.locals e)) in
      Good-frame P v' vm (λ q. read_slot (q + idx) >>= k) m.frame read

  -- A write to a local of the type that it has.
  pub Good-write_local :
      (v : Validator) (vm : Vm) (idx : ℕ) (t : ValType) (x : ℕ)
      → Matches l v vm
      → get_elem? l.types idx ≡ some t
      → HasType t x
      → Good l (λ _. Unit {0}) v (write_local idx x vm)
  unfolding write_local
  Good-write_local v vm idx t x m e ty =
      let written : Good l (λ _. Unit {0}) v (write_slot (l.start + idx) x vm) =
        rw (local_inside v vm idx t m e) (tt, Matches-written v vm idx t x m e ty) in
      Good-frame (λ _. Unit {0}) v vm (λ q. write_slot (q + idx) x) m.frame written
