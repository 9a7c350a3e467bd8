-- ===== src/Wasm/Safe/Plain.antt =====
-- Instructions without branches keep the frames of the checker and its invariant.
use zwasm.Base.{
  ℕ, ◌<◌, ◌≡◌, refl, ap, arith, Bool, true, false, Option, none, some, List, [], ◌∷◌, if◌then◌else◌,
  length, get_elem?, lt_of_get_elem?, get_elem?-some,
}
use zwasm.Base.Outcome.{pure, ◌>>=◌}
use zwasm.Wasm.Instr.{
  ValType, i32, i64, f32, f64, Plain, unreachable_op, nop, drop_op, select_op, local_get, local_set,
  local_tee, i32_const, i64_const, f32_const, f64_const, eqz, relop, unop, binop, i32_wrap_i64,
  i64_extend_i32_s, i64_extend_i32_u, i32_extend8_s, i32_extend16_s, i64_extend8_s, i64_extend16_s,
  i64_extend32_s, i32_reinterpret_f32, i64_reinterpret_f64, f32_reinterpret_i32,
  f64_reinterpret_i64,
}
use zwasm.Wasm.Validate.{Validator, V, ControlFrame, push_val, pop_operand, pop_expecting}
use zwasm.Wasm.Validate.Body.{
  signature, width_type, select_result, local_type, or_unknown, check_init, initialized, mark_init,
  validate_plain,
}
use zwasm.Wasm.Safe.{NonEmpty, Ensures, Ensures-map, Triple, Triple->>=, At}
use zwasm.Wasm.Safe.Stacks.{
  push_val-keeps, pop_operand-keeps, pop_expecting-keeps, signature-keeps, select_result-keeps,
}
use zwasm.Wasm.Safe.Locals.{
  KeepsTypes, pop_expecting-KeepsTypes, signature-KeepsTypes, Inside, Inside-KeepsTypes,
  mark_init-keeps,
}
use zwasm.Wasm.Safe.Frames.{Deep, set_unreachable-keeps}

module _ (ctrl : List ControlFrame) (ne : NonEmpty ctrl) where
  -- Two steps that keep the frames.
  pub then_keeps :
      {A B : Type 0} (c : V A) (k : A → V B)
      → Triple (At ctrl) c (λ _. At ctrl)
      → ((a : A) → Triple (At ctrl) (k a) (λ _. At ctrl))
      → Triple (At ctrl) (c >>= k) (λ _. At ctrl)
  then_keeps c k t g = Triple->>= (At ctrl) (λ _. At ctrl) (λ _. At ctrl) c k t g

  type_keeps :
      (X : Validator → Type 0) (o : Option ValType) (v : Validator)
      → ((t : ValType) → o ≡ some t → X v)
      → At ctrl v
      → Ensures (λ _ w. X w × At ctrl w) (or_unknown o v)
  type_keeps X none v h at = tt
  type_keeps X (some t) v h at = (h t refl, at)

  local_type-keeps :
      (idx : ℕ)
      → Triple (At ctrl) (local_type idx) (λ _ v. (idx < length v.local_types) × At ctrl v)
  local_type-keeps idx v at =
      type_keeps (λ w. idx < length w.local_types) (get_elem? v.local_types idx) v
        (λ t. lt_of_get_elem? v.local_types idx t) at

  init_keeps :
      (c : Bool) (o : Option Bool) (v : Validator)
      → (done : Bool) × (o ≡ some done)
      → At ctrl v
      → Ensures (λ _. At ctrl) (if c then initialized o v else pure tt v)
  init_keeps false o v h at = at
  init_keeps true none v (done, e) at = absurd (cc)
  init_keeps true (some true) v h at = at
  init_keeps true (some false) v h at = tt

  check_init-keeps :
      (idx : ℕ)
      → Triple (λ v. (idx < length v.local_types) × At ctrl v) (check_init idx) (λ _. At ctrl)
  check_init-keeps idx v (lt, at) =
      init_keeps v.has_non_defaultable (get_elem? v.local_inits idx) v
        (get_elem?-some v.local_inits idx (omega (arith, at.0.inits))) at

  local_keeps :
      {B : Type 0} (idx : ℕ) (k : ValType → V B)
      → ((t : ValType)
          → Triple (λ v. (idx < length v.local_types) × At ctrl v) (k t) (λ _. At ctrl))
      → Triple (At ctrl) (local_type idx >>= k) (λ _. At ctrl)
  local_keeps idx k g =
      Triple->>= (At ctrl) (λ _ v. (idx < length v.local_types) × At ctrl v) (λ _. At ctrl)
        (local_type idx) k (local_type-keeps idx) g

  -- A step on the operands, and the mark of a local whose index was tested before.
  marked_behind :
      {A : Type 0} (idx : ℕ) (c : V A)
      → Triple (At ctrl) c (λ _. At ctrl)
      → KeepsTypes c
      → Triple (Inside ctrl idx) (c >>= λ _. mark_init idx) (λ _. At ctrl)
  marked_behind idx c t k =
      Triple->>= (Inside ctrl idx) (λ _. Inside ctrl idx) (λ _. At ctrl) c (λ _. mark_init idx)
        (Inside-KeepsTypes ctrl idx c t k) (λ _. mark_init-keeps ctrl idx)

  local_get-keeps : (idx : ℕ) → Triple (At ctrl) (validate_plain (local_get idx)) (λ _. At ctrl)
  unfolding validate_plain
  local_get-keeps idx =
      local_keeps idx (λ t. check_init idx >>= λ _. push_val t)
        λ t.
          Triple->>= (λ v. (idx < length v.local_types) × At ctrl v) (λ _. At ctrl) (λ _. At ctrl)
            (check_init idx) (λ _. push_val t) (check_init-keeps idx) (λ _. push_val-keeps ctrl t)

  local_set-keeps : (idx : ℕ) → Triple (At ctrl) (validate_plain (local_set idx)) (λ _. At ctrl)
  unfolding validate_plain
  local_set-keeps idx =
      local_keeps idx (λ t. pop_expecting t >>= λ _. mark_init idx)
        λ t v (lt, at).
          marked_behind idx (pop_expecting t) (pop_expecting-keeps ctrl ne t)
            (pop_expecting-KeepsTypes t) v (lt, at)

  local_tee-keeps : (idx : ℕ) → Triple (At ctrl) (validate_plain (local_tee idx)) (λ _. At ctrl)
  unfolding validate_plain
  local_tee-keeps idx =
      local_keeps idx (λ t. signature (t ∷ []) t >>= λ _. mark_init idx)
        λ t v (lt, at).
          marked_behind idx (signature (t ∷ []) t) (signature-keeps ctrl ne (t ∷ []) t)
            (signature-KeepsTypes t t) v (lt, at)

  select-keeps : Triple (At ctrl) (validate_plain select_op) (λ _. At ctrl)
  unfolding validate_plain
  select-keeps = then_keeps (pop_expecting i32) _ (pop_expecting-keeps ctrl ne i32) λ _.
      then_keeps pop_operand _ (pop_operand-keeps ctrl ne) λ t1.
        then_keeps pop_operand (select_result t1) (pop_operand-keeps ctrl ne)
          λ t2. select_result-keeps ctrl ne t1 t2

  -- Keeping the frames keeps their number.
  pub At-Deep :
      {A : Type 0} (c : V A)
      → Triple (At ctrl) c (λ _. At ctrl)
      → Triple (At ctrl) c (λ _. Deep (length ctrl))
  At-Deep c t v at = Ensures-map (λ _ w (wf, e). (wf, ap length e)) (c v) (t v at)

  pub plain-keeps : (i : Plain) → Triple (At ctrl) (validate_plain i) (λ _. Deep (length ctrl))
  unfolding validate_plain
  plain-keeps unreachable_op = set_unreachable-keeps ctrl ne
  plain-keeps nop = λ v (wf, e). (wf, ap length e)
  plain-keeps drop_op =
      At-Deep _ (then_keeps pop_operand _ (pop_operand-keeps ctrl ne) λ _ v at. at)
  plain-keeps select_op = At-Deep (validate_plain select_op) select-keeps
  plain-keeps (local_get idx) = At-Deep (validate_plain (local_get idx)) (local_get-keeps idx)
  plain-keeps (local_set idx) = At-Deep (validate_plain (local_set idx)) (local_set-keeps idx)
  plain-keeps (local_tee idx) = At-Deep (validate_plain (local_tee idx)) (local_tee-keeps idx)
  plain-keeps (i32_const n) = At-Deep (push_val i32) (push_val-keeps ctrl i32)
  plain-keeps (i64_const n) = At-Deep (push_val i64) (push_val-keeps ctrl i64)
  plain-keeps (f32_const n) = At-Deep (push_val f32) (push_val-keeps ctrl f32)
  plain-keeps (f64_const n) = At-Deep (push_val f64) (push_val-keeps ctrl f64)
  plain-keeps (eqz t) =
      At-Deep (signature (width_type t ∷ []) i32) (signature-keeps ctrl ne (width_type t ∷ []) i32)
  plain-keeps (relop t op) =
      At-Deep (signature (width_type t ∷ width_type t ∷ []) i32)
        (signature-keeps ctrl ne (width_type t ∷ width_type t ∷ []) i32)
  plain-keeps (unop t op) =
      At-Deep (signature (width_type t ∷ []) (width_type t))
        (signature-keeps ctrl ne (width_type t ∷ []) (width_type t))
  plain-keeps (binop t op) =
      At-Deep (signature (width_type t ∷ width_type t ∷ []) (width_type t))
        (signature-keeps ctrl ne (width_type t ∷ width_type t ∷ []) (width_type t))
  plain-keeps i32_wrap_i64 =
      At-Deep (signature (i64 ∷ []) i32) (signature-keeps ctrl ne (i64 ∷ []) i32)
  plain-keeps i64_extend_i32_s =
      At-Deep (signature (i32 ∷ []) i64) (signature-keeps ctrl ne (i32 ∷ []) i64)
  plain-keeps i64_extend_i32_u =
      At-Deep (signature (i32 ∷ []) i64) (signature-keeps ctrl ne (i32 ∷ []) i64)
  plain-keeps i32_extend8_s =
      At-Deep (signature (i32 ∷ []) i32) (signature-keeps ctrl ne (i32 ∷ []) i32)
  plain-keeps i32_extend16_s =
      At-Deep (signature (i32 ∷ []) i32) (signature-keeps ctrl ne (i32 ∷ []) i32)
  plain-keeps i64_extend8_s =
      At-Deep (signature (i64 ∷ []) i64) (signature-keeps ctrl ne (i64 ∷ []) i64)
  plain-keeps i64_extend16_s =
      At-Deep (signature (i64 ∷ []) i64) (signature-keeps ctrl ne (i64 ∷ []) i64)
  plain-keeps i64_extend32_s =
      At-Deep (signature (i64 ∷ []) i64) (signature-keeps ctrl ne (i64 ∷ []) i64)
  plain-keeps i32_reinterpret_f32 =
      At-Deep (signature (f32 ∷ []) i32) (signature-keeps ctrl ne (f32 ∷ []) i32)
  plain-keeps i64_reinterpret_f64 =
      At-Deep (signature (f64 ∷ []) i64) (signature-keeps ctrl ne (f64 ∷ []) i64)
  plain-keeps f32_reinterpret_i32 =
      At-Deep (signature (i32 ∷ []) f32) (signature-keeps ctrl ne (i32 ∷ []) f32)
  plain-keeps f64_reinterpret_i64 =
      At-Deep (signature (i64 ∷ []) f64) (signature-keeps ctrl ne (i64 ∷ []) f64)
