-- ===== src/Wasm/Sound/Exec.antt =====
-- Each instruction that `exec` runs keeps the interpreter in agreement with the checker.
use mathlib.Core.Path.{subst}
use zwasm.Base.{
  ℕ, ◌+◌, ◌-◌, ◌%◌, ◌^◌, ◌<◌, ◌≡◌, sym, arith, Bool, true, false, List, [], ◌∷◌, leb, ◌==◌,
  if◌then◌else◌, get_elem?, some,
}
use zwasm.Base.Outcome.{ok, pure, next, ◌>>=◌}
use zwasm.Wasm.Instr.{
  ValType, i32, i64, f32, f64, eql, word32, word64, Plain, unreachable_op, nop, drop_op, select_op,
  local_get, local_set, local_tee, i32_const, i64_const, f32_const, f64_const, eqz, relop, unop,
  binop, i32_wrap_i64, i64_extend_i32_s, i64_extend_i32_u, i32_extend8_s, i32_extend16_s,
  i64_extend8_s, i64_extend16_s, i64_extend32_s, i32_reinterpret_f32, i64_reinterpret_f64,
  f32_reinterpret_i32, f64_reinterpret_i64,
}
use zwasm.Wasm.Words.{binary, related, b2i}
use zwasm.Wasm.Words.Bounds.{sign_extend_word-lt}
use zwasm.Wasm.Validate.{
  Validator, Operand, known, unknown, pop_operand, pop_expecting, push_operand,
}
use zwasm.Wasm.Validate.Body.{
  signature, select_result, validate_plain, width_type, local_type, check_init, mark_init,
}
use zwasm.Wasm.Vm.{
  operand_stack_size, Vm, push, put_back, update, write_local, pop_whole, pop, pop_u32, bits, exec,
}
use zwasm.Wasm.Sound.{Layout, HasType, Holds, Matches, Sound, Good, Good-ok, Sound->>=, next-eq_ok}
use zwasm.Wasm.Sound.Stack.{
  Sound-push, Sound-pop_operand, Sound-pop_expecting, pop_whole-eq_ok, Matches-pushed, eql-width,
  Sound-pop_typed, peeked,
}
use zwasm.Wasm.Sound.Locals.{
  local_type-eq_ok, check_init-eq_ok, mark_init-eq_ok, Good-read, Good-write_local,
}
use zwasm.Wasm.Sound.Rules.{
  Any, b2i-lt, binary-ne-panic, unary_fits, binary_fits, Sound-convert, Sound-lift, Sound-two,
}

module _ (l : Layout) where
  select_result-eq_ok :
      (t u : ValType) (v v' : Validator) (b : Unit {0})
      → select_result (known t) (known u) v ≡ ok (b, v')
      → (eql t u ≡ true) × (record v { op_stack = known t ∷ v.op_stack } ≡ v')
  unfolding select_result push_operand
  select_result-eq_ok t u v v' b h = (ground arith, ground arith)

  chosen :
      (t : ValType) (c : Bool) (x y : ℕ)
      → HasType t x
      → HasType t y
      → HasType t (if c then x else y)
  chosen t true x y hx hy = hx
  chosen t false x y hx hy = hy

  -- `select`: the value that is put back has the type of either operand.
  select_typed :
      (o1 o2 : Operand) (x2 x1 : ℕ) (c : Bool) (v v' : Validator) (vm : Vm) (b : Unit {0})
      → Holds o1 x2
      → Holds o2 x1
      → Matches l v vm
      → vm.op_ptr < operand_stack_size
      → select_result o1 o2 v ≡ ok (b, v')
      → Good l (Any b) v' (put_back (if c then x2 else x1) vm)
  select_typed unknown o2 x2 x1 c v v' vm b h2 h1 m lt h = absurd h2
  select_typed (known t) unknown x2 x1 c v v' vm b h2 h1 m lt h = absurd h1
  select_typed (known t) (known u) x2 x1 c v v' vm b h2 h1 m lt h =
      let (same, e) = select_result-eq_ok t u v v' b h in
      let h1' : HasType t x1 = subst (λ (w : ℕ). x1 < 2 ^ w) (sym (eql-width t u same)) h1 in
      let x : ℕ = if c then x2 else x1 in
      let room : leb operand_stack_size vm.op_ptr ≡ false = ground (arith, lt) in
      rw room (
        tt,
        subst
            (λ w.
              Matches l w
                (record vm { op_stack = update vm.op_stack vm.op_ptr x; op_ptr = vm.op_ptr + 1 }))
            e (Matches-pushed l v vm t x m (chosen t c x2 x1 h2 h1') lt),
      )

  Sound-select : Sound l (validate_plain select_op) (exec select_op) Any
  unfolding validate_plain exec pop_u32
  Sound-select =
      Sound->>= l (pop_expecting i32) (pop_whole >>= λ x. pure (x % 2 ^ 64 % 2 ^ 32))
        (λ _. pop_operand >>= λ t1. pop_operand >>= λ t2. select_result t1 t2)
        (λ cond.
          pop_whole >>= λ val2. pop_whole >>= λ val1. put_back (if cond == 0 then val2 else val1))
        (λ _ x. x < 2 ^ 32) Any
        (Sound-pop_expecting l i32 (λ x. x % 2 ^ 64 % 2 ^ 32) (λ x. x < 2 ^ 32) λ x h. omega arith)
        λ _ cond lc.
          Sound->>= l pop_operand pop_whole (λ t1. pop_operand >>= λ t2. select_result t1 t2)
            (λ val2. pop_whole >>= λ val1. put_back (if cond == 0 then val2 else val1)) Holds Any
            (Sound-pop_operand l)
            λ t1 val2 h2 v vm m b v' h.
              let (t2, w, hp, hs) = next-eq_ok l (λ t2. select_result t1 t2) (pop_operand v) h in
              let (val1, vm', e, h1, m', lt) = pop_whole-eq_ok l v vm t2 w m hp in
              subst
                (λ r.
                  Good l (Any b) v' (next (λ val1. put_back (if cond == 0 then val2 else val1)) r))
                (sym e) (select_typed t1 t2 val2 val1 (cond == 0) w v' vm' b h2 h1 m' lt hs)

  Matches-inits :
      (v : Validator) (vm : Vm) (inits : List Bool)
      → Matches l v vm
      → Matches l (record v { local_inits = inits }) vm
  Matches-inits v vm inits m = record {
    types_kept = m.types_kept;
    reachable = m.reachable;
    operands = m.operands;
    locals = m.locals;
    frame = m.frame;
    room = m.room;
  }

  -- The type of a local, which a check leaves as it is.
  typed_local :
      (v w : Validator) (vm : Vm) (idx : ℕ) (t : ValType)
      → Matches l v vm
      → local_type idx v ≡ ok (t, w)
      → (get_elem? l.types idx ≡ some t) × Matches l w vm
  typed_local v w vm idx t m h =
      let (at, same) = local_type-eq_ok idx v w t h in
      (subst (λ ts. get_elem? ts idx ≡ some t) m.types_kept at, subst (λ u. Matches l u vm) same m)

  Sound-local_get : (idx : ℕ) → Sound l (validate_plain (local_get idx)) (exec (local_get idx)) Any
  unfolding validate_plain exec
  Sound-local_get idx v vm m b v' h =
      let (t, w, h1, h2) = next-eq_ok l _ (local_type idx v) h in
      let (at, m1) = typed_local v w vm idx t m h1 in
      let (u, w', h3, h4) = next-eq_ok l _ (check_init idx w) h2 in
      let m2 : Matches l w' vm = subst (λ z. Matches l z vm) (check_init-eq_ok idx w w' u h3) m1 in
      Good-read l (Any b) w' v' vm idx t push m2 at λ x hx. Sound-push l t x hx w' vm m2 b v' h4

  -- A write to a local, and the mark that it is initialised.
  Good-set :
      (w v' : Validator) (vm : Vm) (idx : ℕ) (t : ValType) (x : ℕ) (b : Unit {0})
      → Matches l w vm
      → get_elem? l.types idx ≡ some t
      → HasType t x
      → mark_init idx w ≡ ok (b, v')
      → Good l (Any b) v' (write_local idx x vm)
  Good-set w v' vm idx t x b m at hx h =
      Good-write_local l v' vm idx t x
        (let (inits, same) = mark_init-eq_ok idx w v' b h in
          subst (λ z. Matches l z vm) same (Matches-inits w vm inits m))
        at hx

  Sound-local_set : (idx : ℕ) → Sound l (validate_plain (local_set idx)) (exec (local_set idx)) Any
  unfolding validate_plain exec
  Sound-local_set idx v vm m b v' h =
      let (t, w, h1, h2) = next-eq_ok l _ (local_type idx v) h in
      let (at, m1) = typed_local v w vm idx t m h1 in
      Sound->>= l (pop_expecting t) pop_whole (λ _. mark_init idx) (write_local idx)
        (λ _ x. HasType t x) Any (Sound-pop_typed l t)
        (λ _ x hx w' vm' m' b' z h'. Good-set w' z vm' idx t x b' m' at hx h') w vm m1 b v' h2

  Sound-local_tee : (idx : ℕ) → Sound l (validate_plain (local_tee idx)) (exec (local_tee idx)) Any
  unfolding validate_plain exec
  Sound-local_tee idx v vm m b v' h =
      let (t, w, h1, h2) = next-eq_ok l _ (local_type idx v) h in
      let (at, m1) = typed_local v w vm idx t m h1 in
      let (u, z, hs, hm) = next-eq_ok l (λ _. mark_init idx) (signature (t ∷ []) t w) h2 in
      let (pos, ty, m2) = peeked l t w vm u z m1 hs in
      let some_left : (vm.op_ptr == 0) ≡ false = ground arith in
      let inside : leb operand_stack_size (vm.op_ptr - 1) ≡ false = ground (arith, m.room, pos) in
      rw (some_left, inside) (Good-set z v' vm idx t (vm.op_stack (vm.op_ptr - 1)) b m2 at ty hm)

  Sound-drop : Sound l (validate_plain drop_op) (exec drop_op) Any
  unfolding validate_plain exec pop
  Sound-drop v vm m b v' h =
      let (o, w, hp, he) = next-eq_ok l (λ _. pure tt) (pop_operand v) h in
      let (x, vm', e, hx, m', lt) = pop_whole-eq_ok l v vm o w m hp in
      subst (λ r. Good l (Any b) v' (next (λ _. pure tt) (next (λ y. pure (y % 2 ^ 64)) r))) (sym e)
        (Good-ok l Any tt b w v' tt vm' he tt m')

  -- Whatever the checker accepts runs without a panic, and the states still agree.
  pub exec-Sound : (i : Plain) → Sound l (validate_plain i) (exec i) Any
  unfolding validate_plain exec
  exec-Sound unreachable_op = λ v vm m b v' h. tt
  exec-Sound nop = λ v vm m b v' h. Good-ok l Any tt b v v' tt vm h tt m
  exec-Sound drop_op = Sound-drop
  exec-Sound select_op = Sound-select
  exec-Sound (local_get idx) = Sound-local_get idx
  exec-Sound (local_set idx) = Sound-local_set idx
  exec-Sound (local_tee idx) = Sound-local_tee idx
  exec-Sound (i32_const n) = Sound-push l i32 (n % 2 ^ 32) (omega arith)
  exec-Sound (i64_const n) = Sound-push l i64 (n % 2 ^ 64) (omega arith)
  exec-Sound (f32_const n) = Sound-push l f32 (n % 2 ^ 32) (omega arith)
  exec-Sound (f64_const n) = Sound-push l f64 (n % 2 ^ 64) (omega arith)
  exec-Sound (eqz t) =
      Sound-convert l (width_type t) t i32 (λ a. b2i (a == 0)) λ x h. b2i-lt (x == 0)
  exec-Sound (relop t op) =
      Sound-two l (width_type t) t i32 _
        λ b a lb la. Sound-push l i32 _ (b2i-lt (related (bits t) op a b))
  exec-Sound (unop t op) = Sound-convert l (width_type t) t (width_type t) _ (unary_fits t op)
  exec-Sound (binop t op) = Sound-two l (width_type t) t (width_type t) _ λ b a lb la.
      Sound-lift l (width_type t) (binary (bits t) op a b) (binary-ne-panic (bits t) op a b)
        (binary_fits t op a b la lb)
  exec-Sound i32_wrap_i64 = Sound-convert l i64 word64 i32 _ λ x h. omega arith
  exec-Sound i64_extend_i32_s =
      Sound-convert l i32 word32 i64 _ λ x h. sign_extend_word-lt 64 32 x (omega arith)
  exec-Sound i64_extend_i32_u = Sound-convert l i32 word32 i64 _ λ x h. omega arith
  exec-Sound i32_extend8_s =
      Sound-convert l i32 word32 i32 _ λ x h. sign_extend_word-lt 32 8 x (omega arith)
  exec-Sound i32_extend16_s =
      Sound-convert l i32 word32 i32 _ λ x h. sign_extend_word-lt 32 16 x (omega arith)
  exec-Sound i64_extend8_s =
      Sound-convert l i64 word64 i64 _ λ x h. sign_extend_word-lt 64 8 x (omega arith)
  exec-Sound i64_extend16_s =
      Sound-convert l i64 word64 i64 _ λ x h. sign_extend_word-lt 64 16 x (omega arith)
  exec-Sound i64_extend32_s =
      Sound-convert l i64 word64 i64 _ λ x h. sign_extend_word-lt 64 32 x (omega arith)
  exec-Sound i32_reinterpret_f32 = Sound-convert l f32 word32 i32 _ λ x h. h
  exec-Sound i64_reinterpret_f64 = Sound-convert l f64 word64 i64 _ λ x h. h
  exec-Sound f32_reinterpret_i32 = Sound-convert l i32 word32 f32 _ λ x h. h
  exec-Sound f64_reinterpret_i64 = Sound-convert l i64 word64 f64 _ λ x h. h
