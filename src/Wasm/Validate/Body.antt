-- ===== src/Wasm/Validate/Body.antt =====
-- src/validate.zig: `validateOpcode` on decoded instructions, and `validateFunction`.
use zwasm.Base.{
  ℕ, Bool, true, false, not, ◌&&◌, ◌||◌, Option, none, some, List, [], ◌∷◌, ◌++◌, map, ltb, ◌==◌,
  if◌then◌else◌, length, get_elem?, set, replicate,
}
use zwasm.Base.Outcome.{panic, pure, fail, get, put, ◌>>=◌, ◌>>◌, guard}
use zwasm.Wasm.Instr.{
  ValType, i32, i64, f32, f64, v128, eql, is_ref, is_defaultable, FuncType, IntType, word32, word64,
  Plain, Instr, plain, unreachable_op, nop, else_op, end_op, return_op, drop_op, select_op, block,
  loop, if_op, br, br_if, br_table, select_t, local_get, local_set, local_tee, i32_const, i64_const,
  f32_const, f64_const, eqz, relop, unop, binop, i32_wrap_i64, i64_extend_i32_s, i64_extend_i32_u,
  i32_extend8_s, i32_extend16_s, i64_extend8_s, i64_extend16_s, i64_extend32_s, i32_reinterpret_f32,
  i64_reinterpret_f64, f32_reinterpret_i32, f64_reinterpret_i64,
}
use zwasm.Wasm.Validate.{
  Operand, FrameKind, ControlFrame, Validator, V, Done, frame_at, push_operand, push_val,
  pop_operand, pop_expecting, pop_expecting_types, push_types, push_ctrl, pop_ctrl, label_types,
  set_unreachable, known, unknown, block_frame, loop_frame, if_frame, else_frame, type_mismatch,
  unknown_local, uninitialized_local, unknown_label,
}

abbrev pub width_type : IntType → ValType
width_type word32 = i32
width_type word64 = i64

-- Pops operands of the types given, the top first, and pushes a result.
unfoldable pub signature : List ValType → ValType → Done
unfolding pop_expecting push_val
signature [] result = push_val result
signature (t ∷ ts) result = pop_expecting t >>= λ _. signature ts result

unfoldable pub enter_block : FrameKind → FuncType → Done
unfolding pop_expecting_types push_ctrl push_types
enter_block kind bt = do
  pop_expecting_types bt.params
  push_ctrl kind bt.params bt.results
  push_types bt.params

abbrev pub is_if : FrameKind → Bool
is_if if_frame = true
is_if _ = false

abbrev pub is_empty : List ValType → Bool
is_empty [] = true
is_empty (t ∷ ts) = false

abbrev pub check_label : ℕ → Done
check_label label = get >>= λ v. guard (ltb label (length v.ctrl_stack)) unknown_label

unfoldable pub check_labels : List ℕ → Done
check_labels [] = pure tt
check_labels (l ∷ ls) = check_label l >>= λ _. check_labels ls

unfoldable pub check_arities : ℕ → List ℕ → Done
unfolding frame_at
check_arities arity [] = pure tt
check_arities arity (l ∷ ls) = do
  frame ← frame_at l
  guard (length (label_types frame) == arity) type_mismatch
  check_arities arity ls

-- `select` of two operands.
unfoldable pub select_result : Operand → Operand → Done
unfolding push_operand
select_result unknown t2 = push_operand t2
select_result (known vt1) unknown = push_operand (known vt1)
select_result (known vt1) (known vt2) = do
  guard (eql vt1 vt2) type_mismatch
  guard (not (is_ref vt1) && not (eql vt1 v128)) type_mismatch
  push_operand (known vt1)

abbrev pub or_unknown : Option ValType → V ValType
or_unknown none = fail unknown_local
or_unknown (some t) = pure t

abbrev pub local_type : ℕ → V ValType
local_type idx v = or_unknown (get_elem? v.local_types idx) v

-- A read past the end stops the program.
abbrev pub initialized : Option Bool → Done
initialized none v = panic
initialized (some done) v = guard done uninitialized_local v

abbrev pub check_init : ℕ → Done
check_init idx v =
    if v.has_non_defaultable then initialized (get_elem? v.local_inits idx) v else pure tt v

-- A write past the end stops the program.
abbrev pub set_init : ℕ → Done
set_init idx v =
    if ltb idx (length v.local_inits)
    then pure tt (record v { local_inits = set v.local_inits idx true })
    else panic

abbrev pub mark_init : ℕ → Done
mark_init idx v = if v.has_non_defaultable then set_init idx v else pure tt v

-- The outermost frame.
abbrev pub last_frame : List ControlFrame → V ControlFrame
last_frame [] v = panic
last_frame (f ∷ []) v = pure f v
last_frame (f ∷ g ∷ fs) v = last_frame (g ∷ fs) v

unfoldable pub validate_plain : Plain → Done
unfolding pop_operand pop_expecting set_unreachable signature select_result push_val
validate_plain unreachable_op = set_unreachable
validate_plain nop = pure tt
validate_plain drop_op = pop_operand >>= λ _. pure tt
validate_plain select_op = do
  _ ← pop_expecting i32
  t1 ← pop_operand
  t2 ← pop_operand
  select_result t1 t2
validate_plain (local_get idx) = do t ← local_type idx; check_init idx; push_val t
validate_plain (local_set idx) = do t ← local_type idx; _ ← pop_expecting t; mark_init idx
validate_plain (local_tee idx) = do t ← local_type idx; signature (t ∷ []) t; mark_init idx
validate_plain (i32_const n) = push_val i32
validate_plain (i64_const n) = push_val i64
validate_plain (f32_const n) = push_val f32
validate_plain (f64_const n) = push_val f64
validate_plain (eqz t) = signature (width_type t ∷ []) i32
validate_plain (relop t op) = signature (width_type t ∷ width_type t ∷ []) i32
validate_plain (unop t op) = signature (width_type t ∷ []) (width_type t)
validate_plain (binop t op) = signature (width_type t ∷ width_type t ∷ []) (width_type t)
validate_plain i32_wrap_i64 = signature (i64 ∷ []) i32
validate_plain i64_extend_i32_s = signature (i32 ∷ []) i64
validate_plain i64_extend_i32_u = signature (i32 ∷ []) i64
validate_plain i32_extend8_s = signature (i32 ∷ []) i32
validate_plain i32_extend16_s = signature (i32 ∷ []) i32
validate_plain i64_extend8_s = signature (i64 ∷ []) i64
validate_plain i64_extend16_s = signature (i64 ∷ []) i64
validate_plain i64_extend32_s = signature (i64 ∷ []) i64
validate_plain i32_reinterpret_f32 = signature (f32 ∷ []) i32
validate_plain i64_reinterpret_f64 = signature (f64 ∷ []) i64
validate_plain f32_reinterpret_i32 = signature (i32 ∷ []) f32
validate_plain f64_reinterpret_i64 = signature (i64 ∷ []) f64

unfoldable pub validate : Instr → Done
unfolding pop_expecting pop_expecting_types push_types push_ctrl pop_ctrl set_unreachable signature
    enter_block check_labels check_arities frame_at validate_plain
validate (plain i) = validate_plain i
validate (block bt) = enter_block block_frame bt
validate (loop bt) = enter_block loop_frame bt
validate (if_op bt) = pop_expecting i32 >>= λ _. enter_block if_frame bt
validate else_op = do
  frame ← pop_ctrl
  guard (is_if frame.kind) type_mismatch
  push_ctrl else_frame frame.start_types frame.end_types
  push_types frame.start_types
validate end_op = do
  frame ← pop_ctrl
  guard (not (is_if frame.kind && not (is_empty frame.end_types))) type_mismatch
  push_types frame.end_types
validate (br label) = do
  check_label label
  frame ← frame_at label
  pop_expecting_types (label_types frame)
  set_unreachable
validate (br_if label) = do
  check_label label
  _ ← pop_expecting i32
  frame ← frame_at label
  pop_expecting_types (label_types frame)
  push_types (label_types frame)
validate (br_table labels default_label) = do
  check_labels labels
  check_label default_label
  frame ← frame_at default_label
  check_arities (length (label_types frame)) labels
  _ ← pop_expecting i32
  pop_expecting_types (label_types frame)
  set_unreachable
validate return_op = do
  v ← get
  frame ← last_frame v.ctrl_stack
  pop_expecting_types frame.end_types
  set_unreachable
validate (select_t t) = signature (i32 ∷ t ∷ t ∷ []) t

unfoldable pub validate_all : List Instr → Done
unfolding validate
validate_all [] = pure tt
validate_all (i ∷ is) = validate i >>= λ _. validate_all is

abbrev pub any_false : List Bool → Bool
any_false [] = false
any_false (b ∷ bs) = not b || any_false bs

-- One entry of `code.locals`: so many locals of one type.
pub record LocalDecl : Type 0 where
  pub count : ℕ
  pub valtype : ValType

abbrev pub declared : List LocalDecl → List ValType
declared [] = []
declared (d ∷ ds) = replicate d.count d.valtype ++ declared ds

-- The state that a function's body is checked from. A declaration of no locals counts for the flag.
abbrev pub at_entry : FuncType → List LocalDecl → Validator
at_entry ft locals = record {
  op_stack = [];
  ctrl_stack = [];
  local_types = ft.params ++ declared locals;
  local_inits = map (λ _. true) ft.params ++ map is_defaultable (declared locals);
  has_non_defaultable = any_false (map (λ (d : LocalDecl). is_defaultable d.valtype) locals);
}

-- A function by its type, the declarations of its locals, and its body.
unfoldable pub validate_function : FuncType → List LocalDecl → List Instr → Done
unfolding push_ctrl validate_all
validate_function ft locals body = do
  put (at_entry ft locals)
  push_ctrl block_frame ft.params ft.results
  validate_all body
  v ← get
  guard (length v.ctrl_stack == 0) type_mismatch
