-- ===== src/Wasm/Instr.antt =====
-- src/opcode.zig: value types, and the instructions of the core set with their immediates as a
-- reader gives them. An opcode that exists for i32 and i64 alike is a constructor of `Binop`,
-- `Relop` or `Unop` with the type in the instruction.
use zwasm.Base.{ℕ, List, Bool, true, false, ◌==◌}

pub data ValType : Type 0 where
  i32 i64 f32 f64 v128 funcref externref exnref : ValType
  ref_type ref_null_type : (type_idx : ℕ) → ValType

-- `ValType.eql`
unfoldable pub eql : ValType → ValType → Bool
eql i32 i32 = true
eql i64 i64 = true
eql f32 f32 = true
eql f64 f64 = true
eql v128 v128 = true
eql funcref funcref = true
eql externref externref = true
eql exnref exnref = true
eql (ref_type a) (ref_type b) = a == b
eql (ref_null_type a) (ref_null_type b) = a == b
eql _ _ = false

abbrev pub is_ref : ValType → Bool
is_ref i32 = false
is_ref i64 = false
is_ref f32 = false
is_ref f64 = false
is_ref v128 = false
is_ref _ = true

-- Only a reference that cannot be null has no default.
abbrev pub is_defaultable : ValType → Bool
is_defaultable (ref_type a) = false
is_defaultable _ = true

pub record FuncType : Type 0 where
  pub params : List ValType
  pub results : List ValType

pub data Unop : Type 0 where
  clz ctz popcnt : Unop

pub data Binop : Type 0 where
  add sub mul div_s div_u rem_s rem_u and or xor shl shr_s shr_u rotl rotr : Binop

pub data Relop : Type 0 where
  eq ne lt_s lt_u gt_s gt_u le_s le_u ge_s ge_u : Relop

pub data IntType : Type 0 where
  word32 word64 : IntType

-- Instructions that neither branch nor call nor touch the store.
pub data Plain : Type 0 where
  unreachable_op nop drop_op select_op : Plain
  local_get local_set local_tee : (idx : ℕ) → Plain
  i32_const i64_const f32_const f64_const : (bits : ℕ) → Plain
  eqz : IntType → Plain
  relop : IntType → Relop → Plain
  unop : IntType → Unop → Plain
  binop : IntType → Binop → Plain
  i32_wrap_i64 i64_extend_i32_s i64_extend_i32_u : Plain
  i32_extend8_s i32_extend16_s i64_extend8_s i64_extend16_s i64_extend32_s : Plain
  i32_reinterpret_f32 i64_reinterpret_f64 f32_reinterpret_i32 f64_reinterpret_i64 : Plain

pub data Instr : Type 0 where
  plain : Plain → Instr
  else_op end_op return_op : Instr
  -- the block type, resolved
  block loop if_op : FuncType → Instr
  br br_if : (label : ℕ) → Instr
  br_table : (labels : List ℕ) (default_label : ℕ) → Instr
  select_t : ValType → Instr
