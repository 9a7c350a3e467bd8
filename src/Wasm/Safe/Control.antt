-- ===== src/Wasm/Safe/Control.antt =====
-- Each instruction keeps the invariant of the checker and changes the number of frames as it says.
use mathlib.Core.Path.{subst}
use zwasm.Base.{ℕ, zero, suc, ◌<◌, ◌≡◌, refl, sym, ap, not, ◌&&◌, List, [], ◌∷◌, length, All}
use zwasm.Base.Outcome.{◌>>=◌}
use zwasm.Wasm.Instr.{
  ValType, i32, Instr, plain, else_op, end_op, return_op, block, loop, if_op, br, br_if, br_table,
  select_t,
}
use zwasm.Wasm.Validate.{
  Validator, V, ControlFrame, block_frame, loop_frame, if_frame, else_frame, type_mismatch,
  frame_at, pop_expecting, pop_expecting_types, push_types, push_ctrl, pop_ctrl, set_unreachable,
  label_types,
}
use zwasm.Wasm.Validate.Body.{
  enter_block, is_if, is_empty, check_label, check_labels, check_arities, last_frame, validate,
}
use zwasm.Wasm.Safe.{WellFormed, NonEmpty, Ensures, Triple, Triple->>=, At}
use zwasm.Wasm.Safe.Stacks.{
  guard_keeps, push_types-keeps, pop_expecting-keeps, pop_expecting_types-keeps, signature-keeps,
}
use zwasm.Wasm.Safe.Frames.{
  Deep, Deep-of_At, push_ctrl-keeps, enter_block-keeps, pop_ctrl-keeps, set_unreachable-keeps,
  frame_at-keeps, check_label-keeps, check_labels-keeps, check_arities-keeps, last_frame-keeps,
}
use zwasm.Wasm.Safe.Plain.{then_keeps, At-Deep, plain-keeps}

abbrev pub pred : ℕ → ℕ
pred zero = zero
pred (suc n) = n

-- The number of frames behind an instruction.
abbrev pub depth_after : Instr → ℕ → ℕ
depth_after (block bt) n = suc n
depth_after (loop bt) n = suc n
depth_after (if_op bt) n = suc n
depth_after end_op n = pred n
depth_after _ n = n

module _ (ctrl : List ControlFrame) (ne : NonEmpty ctrl) where
  -- A step that keeps the frames, and one behind it that sets their number.
  last_keeps :
      {A B : Type 0} (n : ℕ) (c : V A) (k : A → V B)
      → Triple (At ctrl) c (λ _. At ctrl)
      → ((a : A) → Triple (At ctrl) (k a) (λ _. Deep n))
      → Triple (At ctrl) (c >>= k) (λ _. Deep n)
  last_keeps n c k t g = Triple->>= (At ctrl) (λ _. At ctrl) (λ _. Deep n) c k t g

  labelled_keeps :
      {B : Type 0} (n : ℕ) (label : ℕ) (k : ControlFrame → V B)
      → ((f : ControlFrame) → Triple (At ctrl) (k f) (λ _. Deep n))
      → Triple (At ctrl) (check_label label >>= λ _. frame_at label >>= k) (λ _. Deep n)
  labelled_keeps n label k g =
      Triple->>= (At ctrl) (λ _ v. (label < length ctrl) × At ctrl v) (λ _. Deep n)
        (check_label label) (λ _. frame_at label >>= k) (check_label-keeps ctrl label)
        λ _ v (lt, at). last_keeps n (frame_at label) k (frame_at-keeps ctrl label lt) g v at

  -- Code behind a branch is not reached.
  leave_for :
      (ts : List ValType)
      → Triple (At ctrl) (pop_expecting_types ts >>= λ _. set_unreachable) (λ _. Deep (length ctrl))
  leave_for ts =
      last_keeps (length ctrl) (pop_expecting_types ts) (λ _. set_unreachable)
        (pop_expecting_types-keeps ctrl ne ts) λ _. set_unreachable-keeps ctrl ne

  br-keeps : (label : ℕ) → Triple (At ctrl) (validate (br label)) (λ _. Deep (length ctrl))
  unfolding validate
  br-keeps label = labelled_keeps (length ctrl) label _ λ f. leave_for (label_types f)

  br_if-keeps : (label : ℕ) → Triple (At ctrl) (validate (br_if label)) (λ _. Deep (length ctrl))
  unfolding validate
  br_if-keeps label =
      Triple->>= (At ctrl) (λ _ v. (label < length ctrl) × At ctrl v) (λ _. Deep (length ctrl))
        (check_label label) _ (check_label-keeps ctrl label)
        λ _ v (lt, at).
          At-Deep ctrl ne _
            (then_keeps ctrl ne (pop_expecting i32) _ (pop_expecting-keeps ctrl ne i32) λ _.
              then_keeps ctrl ne (frame_at label) _ (frame_at-keeps ctrl label lt) λ f.
                then_keeps ctrl ne (pop_expecting_types (label_types f)) _
                  (pop_expecting_types-keeps ctrl ne (label_types f))
                  λ _. push_types-keeps ctrl (label_types f))
            v at

  br_table-keeps :
      (labels : List ℕ) (default_label : ℕ)
      → Triple (At ctrl) (validate (br_table labels default_label)) (λ _. Deep (length ctrl))
  unfolding validate
  br_table-keeps labels default_label =
      Triple->>= (At ctrl) (λ _ v. All (λ l. l < length ctrl) labels × At ctrl v)
        (λ _. Deep (length ctrl)) (check_labels labels) _ (check_labels-keeps ctrl labels)
        λ _ v (all, at).
          labelled_keeps (length ctrl) default_label _
            (λ f.
              last_keeps (length ctrl) (check_arities (length (label_types f)) labels) _
                (check_arities-keeps ctrl (length (label_types f)) labels all)
                λ _.
                  last_keeps (length ctrl) (pop_expecting i32) _ (pop_expecting-keeps ctrl ne i32)
                    λ _. leave_for (label_types f))
            v at

  return_op-keeps : Triple (At ctrl) (validate return_op) (λ _. Deep (length ctrl))
  unfolding validate
  return_op-keeps v (wf, e) =
      last_keeps (length ctrl) (last_frame v.ctrl_stack) _
        (last_frame-keeps ctrl v.ctrl_stack (subst NonEmpty (sym e) ne))
        (λ f. leave_for f.end_types) v (wf, e)

module _ (f : ControlFrame) (fs : List ControlFrame) where
  end_op-keeps : Triple (At (f ∷ fs)) (validate end_op) (λ _. Deep (length fs))
  unfolding validate
  end_op-keeps =
      Triple->>= (At (f ∷ fs)) (λ g w. (g ≡ f) × At fs w) (λ _. Deep (length fs)) pop_ctrl _
        (pop_ctrl-keeps f fs)
        λ g v (same, (wf, e)).
          guard_keeps (Deep (length fs)) (λ _. Deep (length fs)) (push_types g.end_types)
            (not (is_if g.kind && not (is_empty g.end_types))) type_mismatch
            (Deep-of_At (length fs) (push_types g.end_types) λ c. push_types-keeps c g.end_types) v
            (wf, ap length e)

  else_op-keeps : Triple (At (f ∷ fs)) (validate else_op) (λ _. Deep (suc (length fs)))
  unfolding validate
  else_op-keeps =
      Triple->>= (At (f ∷ fs)) (λ g w. (g ≡ f) × At fs w) (λ _. Deep (suc (length fs))) pop_ctrl _
        (pop_ctrl-keeps f fs)
        λ g v (same, at).
          guard_keeps (At fs) (λ _. Deep (suc (length fs))) _ (is_if g.kind) type_mismatch
            (Triple->>= (At fs) (λ _. Deep (suc (length fs))) (λ _. Deep (suc (length fs)))
              (push_ctrl else_frame g.start_types g.end_types) (λ _. push_types g.start_types)
              (push_ctrl-keeps fs else_frame g.start_types g.end_types)
              λ _.
                Deep-of_At (suc (length fs)) (push_types g.start_types)
                  λ c. push_types-keeps c g.start_types)
            v at

pub validate-Safe :
    (ctrl : List ControlFrame) (i : Instr)
    → NonEmpty ctrl
    → Triple (At ctrl) (validate i) (λ _. Deep (depth_after i (length ctrl)))
unfolding validate
validate-Safe [] i ne = absurd ne
validate-Safe (f ∷ fs) (plain i) ne = plain-keeps (f ∷ fs) ne i
validate-Safe (f ∷ fs) else_op ne = else_op-keeps f fs
validate-Safe (f ∷ fs) end_op ne = end_op-keeps f fs
validate-Safe (f ∷ fs) return_op ne = return_op-keeps (f ∷ fs) ne
validate-Safe (f ∷ fs) (block bt) ne = enter_block-keeps (f ∷ fs) block_frame bt ne
validate-Safe (f ∷ fs) (loop bt) ne = enter_block-keeps (f ∷ fs) loop_frame bt ne
validate-Safe (f ∷ fs) (if_op bt) ne =
    last_keeps (f ∷ fs) ne (suc (suc (length fs))) (pop_expecting i32)
      (λ _. enter_block if_frame bt) (pop_expecting-keeps (f ∷ fs) ne i32)
      (λ _. enter_block-keeps (f ∷ fs) if_frame bt ne)
validate-Safe (f ∷ fs) (br label) ne = br-keeps (f ∷ fs) ne label
validate-Safe (f ∷ fs) (br_if label) ne = br_if-keeps (f ∷ fs) ne label
validate-Safe (f ∷ fs) (br_table labels default_label) ne =
    br_table-keeps (f ∷ fs) ne labels default_label
validate-Safe (f ∷ fs) (select_t t) ne =
    At-Deep (f ∷ fs) ne _ (signature-keeps (f ∷ fs) ne (i32 ∷ t ∷ t ∷ []) t)

-- In a well-formed state with a frame left, the checker of one instruction does not stop the program:
-- it refuses the instruction, or ends in a well-formed state with one frame more behind the start of
-- a block, one less behind an end, and as many as before behind any other instruction.
pub validate-Ensures :
    (v : Validator) (i : Instr)
    → WellFormed v
    → NonEmpty v.ctrl_stack
    → Ensures (λ _. Deep (depth_after i (length v.ctrl_stack))) (validate i v)
validate-Ensures v i wf ne = validate-Safe v.ctrl_stack i ne v (wf, refl)
