-- ===== src/Wasm/Vm.antt =====
-- src/vm.zig: the operand stack of the interpreter, and the instructions of `execute` that neither
-- branch nor call nor touch the store. The stack is an array with a pointer to its end; the locals
-- of a function are the part of it that its frame names. An index below zero or past the end of
-- the array is a panic. No limit on the number of instructions is set, and no profile is kept.
pub mod Rotate
use zwasm.Base.{ℕ, ◌+◌, ◌-◌, ◌%◌, ◌^◌, List, [], ◌∷◌, leb, ◌==◌, if◌then◌else◌}
use zwasm.Base.Outcome.{ok, err, panic, M, pure, fail, get, lift, ◌>>=◌}
use zwasm.Wasm.Instr.{
  IntType, word32, word64, Plain, unreachable_op, nop, drop_op, select_op, local_get, local_set,
  local_tee, i32_const, i64_const, f32_const, f64_const, eqz, relop, unop, binop, i32_wrap_i64,
  i64_extend_i32_s, i64_extend_i32_u, i32_extend8_s, i32_extend16_s, i64_extend8_s, i64_extend16_s,
  i64_extend32_s, i32_reinterpret_f32, i64_reinterpret_f64, f32_reinterpret_i32,
  f64_reinterpret_i64,
}
use zwasm.Wasm.Words.{
  Trap, stack_overflow, unreachable_reached, unary, binary, related, sign_extend_word, b2i,
}

abbrev pub operand_stack_size : ℕ
operand_stack_size = 4096

pub record Frame : Type 0 where
  pub locals_start : ℕ
  pub locals_count : ℕ

pub record Vm : Type 0 where
  pub op_stack : ℕ → ℕ
  pub op_ptr : ℕ
  pub frames : List Frame

abbrev pub E : Type 0 → Type 0
E A = M Vm Trap A

abbrev pub Step : Type 0
Step = E (Unit {0})

abbrev pub update : (ℕ → ℕ) → ℕ → ℕ → ℕ → ℕ
update st at v p = if p == at then v else st p

-- A place of the array.
abbrev pub read_slot : ℕ → E ℕ
read_slot i vm = if leb operand_stack_size i then panic else ok (vm.op_stack i, vm)

abbrev pub write_slot : ℕ → ℕ → Step
write_slot i v vm =
    if leb operand_stack_size i
    then panic
    else ok (tt, record vm { op_stack = update vm.op_stack i v })

-- `pushV128`; `push` is the same with 64 bits.
unfoldable pub push : ℕ → Step
push v vm =
    if leb operand_stack_size vm.op_ptr
    then err stack_overflow
    else ok (tt, record vm { op_stack = update vm.op_stack vm.op_ptr v; op_ptr = vm.op_ptr + 1 })

-- A write at the end of the stack without the test for room.
abbrev pub put_back : ℕ → Step
put_back v vm =
    if leb operand_stack_size vm.op_ptr
    then panic
    else ok (tt, record vm { op_stack = update vm.op_stack vm.op_ptr v; op_ptr = vm.op_ptr + 1 })

-- `popV128`
unfoldable pub pop_whole : E ℕ
pop_whole vm =
    if vm.op_ptr == 0
    then panic
    else read_slot (vm.op_ptr - 1) (record vm { op_ptr = vm.op_ptr - 1 })

unfoldable pub pop : E ℕ
unfolding pop_whole
pop = pop_whole >>= λ v. pure (v % 2 ^ 64)

-- `pop`, and the lowest 32 bits of what it gives.
unfoldable pub pop_u32 : E ℕ
unfolding pop_whole
pop_u32 = pop_whole >>= λ v. pure (v % 2 ^ 64 % 2 ^ 32)

abbrev pub top_frame : List Frame → E Frame
top_frame [] vm = panic
top_frame (f ∷ fs) vm = ok (f, vm)

unfoldable pub peek_frame : E Frame
peek_frame vm = top_frame vm.frames vm

unfoldable pub write_local : ℕ → ℕ → Step
unfolding peek_frame
write_local idx v = do frame ← peek_frame; write_slot (frame.locals_start + idx) v

abbrev pub bits : IntType → ℕ
bits word32 = 32
bits word64 = 64

-- `popU32` or `popU64`, by the type.
unfoldable pub pop_int : IntType → E ℕ
unfolding pop_u32 pop
pop_int word32 = pop_u32
pop_int word64 = pop

-- One operand, read at a type, and a result.
unfoldable pub convert : IntType → (ℕ → ℕ) → Step
unfolding pop_int push
convert t f = pop_int t >>= λ a. push (f a)

unfoldable pub exec : Plain → Step
unfolding push pop_whole pop pop_u32 peek_frame write_local pop_int convert
exec unreachable_op = fail unreachable_reached
exec nop = pure tt
exec drop_op = pop >>= λ _. pure tt
exec select_op = do
  cond ← pop_u32
  val2 ← pop_whole
  val1 ← pop_whole
  put_back (if cond == 0 then val2 else val1)
exec (local_get idx) = do frame ← peek_frame; x ← read_slot (frame.locals_start + idx); push x
exec (local_set idx) = pop_whole >>= write_local idx
exec (local_tee idx) = do
  vm ← get
  x ← if vm.op_ptr == 0 then (λ _. panic) else read_slot (vm.op_ptr - 1)
  write_local idx x
exec (i32_const n) = push (n % 2 ^ 32)
exec (i64_const n) = push (n % 2 ^ 64)
exec (f32_const n) = push (n % 2 ^ 32)
exec (f64_const n) = push (n % 2 ^ 64)
exec (eqz t) = convert t (λ a. b2i (a == 0))
exec (relop t op) = do b ← pop_int t; a ← pop_int t; push (b2i (related (bits t) op a b))
exec (unop t op) = convert t (unary (bits t) op)
exec (binop t op) = do b ← pop_int t; a ← pop_int t; r ← lift (binary (bits t) op a b); push r
exec i32_wrap_i64 = convert word64 (λ a. a % 2 ^ 32)
exec i64_extend_i32_s = convert word32 (sign_extend_word 64 32)
exec i64_extend_i32_u = convert word32 (λ a. a)
exec i32_extend8_s = convert word32 (sign_extend_word 32 8)
exec i32_extend16_s = convert word32 (sign_extend_word 32 16)
exec i64_extend8_s = convert word64 (sign_extend_word 64 8)
exec i64_extend16_s = convert word64 (sign_extend_word 64 16)
exec i64_extend32_s = convert word64 (sign_extend_word 64 32)
exec i32_reinterpret_f32 = convert word32 (λ a. a)
exec i64_reinterpret_f64 = convert word64 (λ a. a)
exec f32_reinterpret_i32 = convert word32 (λ a. a)
exec f64_reinterpret_i64 = convert word64 (λ a. a)

unfoldable pub exec_all : List Plain → Step
unfolding exec
exec_all [] = pure tt
exec_all (i ∷ is) = exec i >>= λ _. exec_all is
