-- ===== src/Wasm/Validate.antt =====
-- src/validate.zig: the checker of function bodies, with its stacks of operand types and of control
-- frames. The first element of a list is the top of a stack. Memory suffices.
pub mod Body
use zwasm.Base.{
  ℕ, ◌-◌, Bool, true, false, not, ◌&&◌, ◌||◌, Option, none, some, List, [], ◌∷◌, ◌++◌, map, ltb,
  leb, ◌==◌, if◌then◌else◌, length, get_elem?, set, drop,
}
use mathlib.Core.List.{reverse}
use zwasm.Base.Outcome.{M, panic, pure, fail, get, put, ◌>>=◌, ◌>>◌, guard}
use zwasm.Wasm.Instr.{
  ValType, i32, i64, f32, f64, v128, eql, is_ref, is_defaultable, FuncType, IntType, word32, word64,
  Plain, Instr, plain, unreachable_op, nop, else_op, end_op, return_op, drop_op, select_op, block,
  loop, if_op, br, br_if, br_table, select_t, local_get, local_set, local_tee, i32_const, i64_const,
  f32_const, f64_const, eqz, relop, unop, binop, i32_wrap_i64, i64_extend_i32_s, i64_extend_i32_u,
  i32_extend8_s, i32_extend16_s, i64_extend8_s, i64_extend16_s, i64_extend32_s, i32_reinterpret_f32,
  i64_reinterpret_f64, f32_reinterpret_i32, f64_reinterpret_i64,
}

pub data Operand : Type 0 where
  known : ValType → Operand
  unknown : Operand

pub data FrameKind : Type 0 where
  block_frame loop_frame if_frame else_frame : FrameKind

pub record ControlFrame : Type 0 where
  pub kind : FrameKind
  pub start_types : List ValType
  pub end_types : List ValType
  pub height : ℕ
  pub unreachable_flag : Bool
  pub init_snapshot : Option (List Bool)

pub data ValidateError : Type 0 where
  type_mismatch unknown_local uninitialized_local unknown_label : ValidateError

pub record Validator : Type 0 where
  pub op_stack : List Operand
  pub ctrl_stack : List ControlFrame
  pub local_types : List ValType
  pub local_inits : List Bool
  pub has_non_defaultable : Bool

abbrev pub V : Type 0 → Type 0
V A = M Validator ValidateError A

abbrev pub Done : Type 0
Done = V (Unit {0})

abbrev pub mismatch : {A : Type 0} → V A
mismatch = fail type_mismatch

-- `ctrl_stack.items[len - 1 - label]`; a place outside the stack stops the program.
unfoldable pub frame_at : ℕ → V ControlFrame
frame_at label v = elim (get_elem? v.ctrl_stack label) [ none ↦ panic | some f ↦ pure f v ]

unfoldable pub push_operand : Operand → Done
push_operand t v = pure tt (record v { op_stack = t ∷ v.op_stack })

unfoldable pub push_val : ValType → Done
unfolding push_operand
push_val t = push_operand (known t)

abbrev pub pop_stack : List Operand → Validator → V Operand
pop_stack [] v s = panic
pop_stack (t ∷ ts) v s = pure t (record v { op_stack = ts })

unfoldable pub pop_operand : V Operand
unfolding frame_at
pop_operand = do
  frame ← frame_at 0
  v ← get
  if length v.op_stack == frame.height
      then (if frame.unreachable_flag then pure unknown else mismatch)
      else pop_stack v.op_stack v

abbrev pub expect : ValType → Operand → V Operand
expect t unknown = pure unknown
expect t (known vt) = if eql vt t then pure (known vt) else mismatch

unfoldable pub pop_expecting : ValType → V Operand
unfolding pop_operand
pop_expecting t = pop_operand >>= expect t

-- The types of a slice from the last to the first.
unfoldable pub pop_all : List ValType → Done
unfolding pop_expecting
pop_all [] = pure tt
pop_all (t ∷ ts) = pop_expecting t >>= λ _. pop_all ts

unfoldable pub pop_expecting_types : List ValType → Done
unfolding pop_all
pop_expecting_types types = pop_all (reverse types)

unfoldable pub push_types : List ValType → Done
unfolding push_val
push_types [] = pure tt
push_types (t ∷ ts) = push_val t >>= λ _. push_types ts

unfoldable pub push_ctrl : FrameKind → List ValType → List ValType → Done
push_ctrl kind in_types out_types v = pure tt (record v {
  ctrl_stack =
      record {
        kind = kind;
        start_types = in_types;
        end_types = out_types;
        height = length v.op_stack;
        unreachable_flag = false;
        init_snapshot = if v.has_non_defaultable then some v.local_inits else none;
      }
      ∷ v.ctrl_stack;
})

-- What a frame saved of the locals is copied over them; a copy of another length stops the program.
abbrev pub restore : Option (List Bool) → Done
restore none v = pure tt v
restore (some snapshot) v =
    if length snapshot == length v.local_inits
    then pure tt (record v { local_inits = snapshot })
    else panic

-- Takes the top frame off, and what it saved of the locals back.
abbrev pub leave : ControlFrame → Done
leave frame v = restore frame.init_snapshot (record v { ctrl_stack = drop 1 v.ctrl_stack })

abbrev pub top_of : List ControlFrame → V ControlFrame
top_of [] v = mismatch v
top_of (f ∷ fs) v = pure f v

abbrev pub top_frame : V ControlFrame
top_frame v = top_of v.ctrl_stack v

-- The operands that the block ends with, and nothing else, lie above its frame.
unfoldable pub end_frame : ControlFrame → V ControlFrame
unfolding pop_expecting_types
end_frame frame = do
  pop_expecting_types frame.end_types
  v ← get
  guard (length v.op_stack == frame.height) type_mismatch
  leave frame
  pure frame

unfoldable pub pop_ctrl : V ControlFrame
unfolding end_frame
pop_ctrl = top_frame >>= end_frame

abbrev pub label_types : ControlFrame → List ValType
label_types frame = elim frame.kind [ loop_frame ↦ frame.start_types | _ ↦ frame.end_types ]

-- Shrinking the operands to more than there are stops the program.
abbrev pub flagged : List ControlFrame → Validator → Done
flagged [] v s = panic
flagged (f ∷ fs) v s =
    if leb f.height (length v.op_stack)
    then pure tt (record v {
      op_stack = drop (length v.op_stack - f.height) v.op_stack;
      ctrl_stack = record f { unreachable_flag = true } ∷ fs;
    })
    else panic

unfoldable pub set_unreachable : Done
set_unreachable = get >>= λ v. flagged v.ctrl_stack v
