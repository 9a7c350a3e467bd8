-- ===== src/Wasm/Vm/Rotate.antt =====
-- src/vm.zig: what the rotations of the interpreter do to the operands on its stack.
use native.Mathlib.Nat.{mod-lt}
use zwasm.Base.{ℕ, ◌+◌, ◌-◌, ◌*◌, ◌%◌, ◌^◌, ◌<◌, ◌≡◌, refl, ap, ◌∙◌, arith, leb, ◌==◌, false}
use zwasm.Base.Outcome.{ok}
use zwasm.Wasm.Instr.{IntType, word32, word64, Binop, rotl, rotr, binop}
use zwasm.Wasm.Words.{rotate_left, rotate_right, binary}
use zwasm.Wasm.Words.Rotations.{rotate_left-parts, rotate_right-parts, parts_lt}
use zwasm.Wasm.Vm.{
  Vm, update, operand_stack_size, push, pop_whole, pop, pop_u32, pop_int, bits, exec,
}

-- Two operands on top, the second of them `r`, the first at place `p`.
abbrev pub stacked : Vm → ℕ → ℕ → ℕ → Vm
stacked vm p a r = record vm {
  op_stack = update (update vm.op_stack p a) (p + 1) r;
  op_ptr = p + 2;
}

-- One result in their place.
abbrev pub replaced : Vm → ℕ → ℕ → Vm
replaced vm p x = record vm { op_stack = update vm.op_stack p x; op_ptr = p + 1 }

pop_whole-top :
    (vm : Vm) (q v : ℕ)
    → q < 4096
    → vm.op_ptr ≡ q + 1
    → vm.op_stack q ≡ v
    → pop_whole vm ≡ ok (v, record vm { op_ptr = q })
unfolding pop_whole
pop_whole-top vm q v inside at top =
    let some_left : (vm.op_ptr == 0) ≡ false = ground arith in
    let below : vm.op_ptr - 1 ≡ q = omega arith in
    let room : leb operand_stack_size q ≡ false = ground arith in
    rw (some_left, below, room, top) refl

pop_int-top :
    (t : IntType) (vm : Vm) (q v : ℕ)
    → q < 4096
    → vm.op_ptr ≡ q + 1
    → vm.op_stack q ≡ v
    → v < 2 ^ bits t
    → pop_int t vm ≡ ok (v, record vm { op_ptr = q })
unfolding pop_int pop_u32 pop
pop_int-top word32 vm q v inside at top fits =
    rw (pop_whole-top vm q v inside at top)
      (ap (λ (x : ℕ). ok (x, record vm { op_ptr = q })) (omega arith))
pop_int-top word64 vm q v inside at top fits =
    rw (pop_whole-top vm q v inside at top)
      (ap (λ (x : ℕ). ok (x, record vm { op_ptr = q })) (omega arith))

push-room :
    (vm : Vm) (v : ℕ)
    → vm.op_ptr < 4096
    → push v vm
      ≡ ok (tt, record vm { op_stack = update vm.op_stack vm.op_ptr v; op_ptr = vm.op_ptr + 1 })
unfolding push
push-room vm v room =
    let fits : leb operand_stack_size vm.op_ptr ≡ false = ground arith in rw fits refl

-- Any instruction of two operands, on them.
exec-binop :
    (t : IntType) (op : Binop) (vm : Vm) (p a r x : ℕ)
    → p + 1 < 4096
    → a < 2 ^ bits t
    → r < 2 ^ bits t
    → binary (bits t) op a r ≡ ok x
    → exec (binop t op) (stacked vm p a r) ≡ ok (tt, replaced (stacked vm p a r) p x)
unfolding exec
exec-binop t op vm p a r x room ha hr result =
    let s : Vm = stacked vm p a r in
    let second : s.op_stack (p + 1) ≡ r = ground arith in
    let first : s.op_stack p ≡ a = ground arith in
    rw
      (
        pop_int-top t s (p + 1) r room (omega arith) second hr,
        pop_int-top t (record s { op_ptr = p + 1 }) p a (omega arith) refl first ha,
        result,
        push-room (record s { op_ptr = p }) x (omega arith),
      )
      refl

bits-pos : (t : IntType) → 0 < bits t
bits-pos word32 = omega arith
bits-pos word64 = omega arith

binary-rotl : (w a r : ℕ) → binary w rotl a r ≡ ok (rotate_left w a (r % w))
unfolding binary
binary-rotl w a r = refl

binary-rotr : (w a r : ℕ) → binary w rotr a r ≡ ok (rotate_right w a (r % w))
unfolding binary
binary-rotr w a r = refl

-- The rotations on the operand stack, by the upper `k` bits `hi` of a word and its other bits `lo`: the
-- number of places `r` is on top, the word below it, and `k` is `r` modulo the width. `rotl` brings the
-- upper bits down, `rotr` brings them back up; the result stands in the place of the two operands.
-- The operands have the width of the type, and lie inside the stack.
pub exec-rotates :
    (t : IntType) (vm : Vm) (p r lo hi : ℕ)
    → p + 1 < 4096
    → r < 2 ^ bits t
    → lo < 2 ^ (bits t - r % bits t)
    → hi < 2 ^ (r % bits t)
    → (exec (binop t rotl) (stacked vm p (lo + 2 ^ (bits t - r % bits t) * hi) r)
        ≡ ok (
          tt,
          replaced
              (stacked vm p (lo + 2 ^ (bits t - r % bits t) * hi) r)
              p
              (lo * 2 ^ (r % bits t) + hi),
        ))
      × (exec (binop t rotr) (stacked vm p (lo * 2 ^ (r % bits t) + hi) r)
          ≡ ok (
            tt,
            replaced
                (stacked vm p (lo * 2 ^ (r % bits t) + hi) r)
                p
                (lo + 2 ^ (bits t - r % bits t) * hi),
          ))
exec-rotates t vm p r lo hi room hr low high =
    let w : ℕ = bits t in
    let k : ℕ = r % w in
    let inside : k < w = mod-lt r (bits-pos t) in
    let (ha, hb) = parts_lt w k lo hi inside low high in
    (
      exec-binop t rotl vm p (lo + 2 ^ (w - k) * hi) r (lo * 2 ^ k + hi) room ha hr (
          binary-rotl w (lo + 2 ^ (w - k) * hi) r
          ∙ ap (λ (x : ℕ). ok x) (rotate_left-parts w k lo hi inside low high)),
      exec-binop t rotr vm p (lo * 2 ^ k + hi) r (lo + 2 ^ (w - k) * hi) room hb hr (
          binary-rotr w (lo * 2 ^ k + hi) r
          ∙ ap (λ (x : ℕ). ok x) (rotate_right-parts w k lo hi inside low high)),
    )
