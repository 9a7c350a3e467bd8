-- ===== src/Wasm/Tests.antt =====
-- Runs of the checker and the interpreter, and the theorems at concrete inputs.
use zwasm.Base.{◌+◌, ◌-◌, ◌*◌, ◌^◌, ◌≡◌, ◌≢◌, refl, arith, false, none, List, [], ◌∷◌, map}
use zwasm.Base.Outcome.{ok, err, panic}
use zwasm.Wasm.Instr.{
  i32, eql, FuncType, word32, Plain, Instr, plain, drop_op, local_get, local_set, i32_const,
  f32_const, binop, add, div_s, rotl, rotr, end_op, block, br,
}
use zwasm.Wasm.Words.{Trap, binary, div_trunc}
use zwasm.Wasm.Validate.{
  Validator, ControlFrame, block_frame, frame_at, push_operand, push_val, pop_operand,
  pop_expecting, pop_all, pop_expecting_types, push_types, push_ctrl, end_frame, pop_ctrl,
  type_mismatch,
}
use zwasm.Wasm.Validate.Body.{
  LocalDecl, signature, validate_plain, validate, validate_all, validate_function,
}
use zwasm.Wasm.Vm.{Vm, exec, exec_all}
use zwasm.Wasm.Vm.Rotate.{stacked, replaced, exec-rotates}
use zwasm.Wasm.Sound.{Layout, Matches, Good}
use zwasm.Wasm.Sound.Rules.{Any}
use zwasm.Wasm.Sound.Run.{exec_all-Good}
use zwasm.Wasm.Safe.{WellFormed, Ensures}
use zwasm.Wasm.Safe.Frames.{Deep}
use zwasm.Wasm.Safe.Control.{validate-Ensures}
use zwasm.Wasm.Safe.Bodies.{validate_function-Safe}

abbrev increment : List Plain
increment = local_get 0 ∷ i32_const 2 ∷ binop word32 add ∷ local_set 0 ∷ []

abbrev body_frame : ControlFrame
body_frame = record {
  kind = block_frame;
  start_types = [];
  end_types = [];
  height = 0;
  unreachable_flag = false;
  init_snapshot = none;
}

abbrev one_local : Validator
one_local = record {
  op_stack = [];
  ctrl_stack = body_frame ∷ [];
  local_types = i32 ∷ [];
  local_inits = false ∷ [];
  has_non_defaultable = false;
}

abbrev layout : Layout
layout = record { start = 0; types = i32 ∷ [] }

abbrev machine : Vm
machine = record {
  op_stack = λ _. 5;
  op_ptr = 1;
  frames = record { locals_start = 0; locals_count = 1 } ∷ [];
}

increment_checked : validate_all (map plain increment) one_local ≡ ok (tt, one_local)
unfolding validate_all validate validate_plain pop_operand pop_expecting push_val push_operand
    signature frame_at eql
increment_checked = refl

agreement : Matches layout one_local machine
agreement = record {
  types_kept = refl;
  reachable = refl;
  operands = refl;
  locals = (omega arith, tt);
  frame = refl;
  room = omega arith;
}

exec_all-Good_example : Good layout (Any tt) one_local (exec_all increment machine)
exec_all-Good_example =
    exec_all-Good layout increment one_local one_local machine agreement increment_checked

-- An operand that is a float is refused.
float_refused :
    validate_all (map plain (f32_const 0 ∷ local_set 0 ∷ [])) one_local ≡ err type_mismatch
unfolding validate_all validate validate_plain pop_operand pop_expecting push_val push_operand
    signature frame_at eql
float_refused = refl

one_local-WellFormed : WellFormed one_local
one_local-WellFormed = record { nested = (omega arith, tt); inits = refl; snapshots = (tt, tt) }

validate-Ensures_example :
    Ensures (λ _. Deep 2) (validate (block (record { params = []; results = i32 ∷ [] })) one_local)
validate-Ensures_example =
    validate-Ensures one_local (block (record { params = []; results = i32 ∷ [] }))
      one_local-WellFormed tt

abbrev nothing : FuncType
nothing = record { params = []; results = [] }

abbrev locals : List LocalDecl
locals = record { count = 1; valtype = i32 } ∷ []

abbrev nested_body : List Instr
nested_body = block nothing ∷ br 1 ∷ end_op ∷ end_op ∷ []

validate_function-Safe_example : validate_function nothing locals nested_body one_local ≢ panic
validate_function-Safe_example = validate_function-Safe nothing locals nested_body one_local tt

-- Behind the end of the function no frame is left, and the next instruction that pops stops the program.
behind_end : validate_function nothing [] (end_op ∷ plain drop_op ∷ []) one_local ≡ panic
unfolding validate_function validate_all validate validate_plain pop_ctrl end_frame
    pop_expecting_types pop_all push_types push_ctrl pop_operand frame_at
behind_end = refl

-- By 36 places, which are 4.
exec-rotates_example :
    (exec (binop word32 rotl) (stacked machine 1 (1 + 2 ^ 28 * 8) 36)
      ≡ ok (tt, replaced (stacked machine 1 (1 + 2 ^ 28 * 8) 36) 1 (1 * 2 ^ 4 + 8)))
    × (exec (binop word32 rotr) (stacked machine 1 (1 * 2 ^ 4 + 8) 36)
        ≡ ok (tt, replaced (stacked machine 1 (1 * 2 ^ 4 + 8) 36) 1 (1 + 2 ^ 28 * 8)))
exec-rotates_example =
    exec-rotates word32 machine 1 36 1 8 (omega arith) (omega arith) (omega arith) (omega arith)

-- The least number divided by -1 overflows.
division_overflows : binary 32 div_s 0x8000_0000 0xffff_ffff ≡ err Trap.integer_overflow
unfolding binary
division_overflows = refl

-- -7 / 2 is rounded towards zero.
division_truncates : binary 32 div_s (2 ^ 32 - 7) 2 ≡ ok (2 ^ 32 - 3)
unfolding binary div_trunc
division_truncates = refl
