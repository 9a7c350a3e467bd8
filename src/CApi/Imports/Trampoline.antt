-- ===== src/CApi/Imports/Trampoline.antt =====
-- The calling convention between the virtual machine and a C callback.
use mathlib.Core.Option.{none-ne-some}
use mathlib.Core.List.{reverse, reverse-cons, reverse-reverse, append_assoc, append-nil}
use zwasm.Base.{
  ℕ, zero, suc, ◌+◌, ◌≤◌, ◌<◌, ◌≡◌, refl, ◌∙◌, sym, ap, arith, false, none, some, map, ◌≢◌, ◌↔◌,
  ◌⊎◌, inl, inr, ◌%◌, ◌^◌, Bool-cases, Option-cases, leb→le, lt_of_leb, List, [], ◌∷◌, ◌++◌, leb,
  length, length-append, drop, get_elem?,
}
use zwasm.CApi.Imports.{
  HostFn, ok, err, panic, pop_args, push_results, run_host_fn, host_fn_trampoline,
}

-- What a pop reads of an operand.
abbrev pub as_u64 : ℕ → ℕ
as_u64 v = v % 2 ^ 64

-- Popping takes the top of the stack and turns it round.
pop_args-append :
    (top acc rest : List ℕ)
    → length top ≤ 32
    → pop_args (length top) acc (top ++ rest) ≡ some (reverse (map as_u64 top) ++ acc, rest)
unfolding pop_args
pop_args-append [] acc rest few = refl
pop_args-append (x ∷ top) acc rest few =
    let inside : leb 32 (length top) ≡ false = ground arith in
    let next : ℕ = as_u64 x in
    rw inside (
      pop_args-append top (next ∷ acc) rest (omega arith)
      ∙ ap (λ t. some (t, rest))
          (sym (rw reverse-cons (append_assoc (reverse (map as_u64 top)) (next ∷ []) acc))))

-- An element, and the list from its place on.
drop-get_elem? :
    (ri : ℕ) (results : List ℕ)
    → ri < length results
    → (v : ℕ) × (get_elem? results ri ≡ some v) × (drop ri results ≡ v ∷ drop (suc ri) results)
drop-get_elem? ri [] h = absurd (omega arith)
drop-get_elem? zero (v ∷ results) h = (v, refl, refl)
drop-get_elem? (suc ri) (x ∷ results) h = drop-get_elem? ri results (omega arith)

drop_all : (n : ℕ) (results : List ℕ) → n ≡ length results → drop n results ≡ []
drop_all zero [] h = refl
drop_all zero (x ∷ results) h = absurd (omega arith)
drop_all (suc n) [] h = refl
drop_all (suc n) (x ∷ results) h = drop_all n results (omega arith)

-- What the loop pushes from place `ri` on, when the stack has room.
push_results-drop :
    (n ri : ℕ) (results stack : List ℕ)
    → ri + n ≡ length results
    → ri + n ≤ 32
    → length stack + n ≤ 4096
    → push_results n ri results stack ≡ ok (reverse (drop ri results) ++ stack)
unfolding push_results
push_results-drop zero ri results stack h room deep = rw (drop_all ri results (omega arith)) refl
push_results-drop (suc n) ri results stack h room deep =
    let (v, there, split) = drop-get_elem? ri results (omega arith) in
    let inside : leb 32 ri ≡ false = ground arith in
    let fits : leb 4096 (length stack) ≡ false = ground arith in
    rw (push_results, there, inside, fits, split, reverse-cons)
      (push_results-drop n (suc ri) results (v ∷ stack) (omega arith) (omega arith) (omega arith)
        ∙ ap ok (sym (append_assoc (reverse (drop (suc ri) results)) (v ∷ []) stack)))

length-reverse : (xs : List ℕ) → length (reverse xs) ≡ length xs
length-reverse [] = refl
length-reverse (x ∷ xs) =
    rw reverse-cons (omega (arith, length-reverse xs, length-append (reverse xs) (x ∷ [])))

map-append : (xs ys : List ℕ) → map as_u64 (xs ++ ys) ≡ map as_u64 xs ++ map as_u64 ys
map-append [] ys = refl
map-append (x ∷ xs) ys = ap (λ t. as_u64 x ∷ t) (map-append xs ys)

map-reverse : (xs : List ℕ) → map as_u64 (reverse xs) ≡ reverse (map as_u64 xs)
map-reverse [] = refl
map-reverse (x ∷ xs) =
    ap (map as_u64) (rev x xs)
    ∙ map-append (reverse xs) (x ∷ [])
    ∙ ap (λ t. t ++ as_u64 x ∷ []) (map-reverse xs)
    ∙ sym (rev (as_u64 x) (map as_u64 xs))
  where
    rev : (y : ℕ) (ys : List ℕ) → reverse (y ∷ ys) ≡ reverse ys ++ y ∷ []
    rev y ys = reverse-cons y ys

-- A registered callback of at most 32 parameters and 32 results that accepts the call gets its
-- arguments, of 64 bits each, in the order of the signature, although the last of them lies on top, and
-- its results lie on what was below the arguments, the last on top, when the stack has room for them.
pub host_fn_trampoline_lem :
    (registry : List HostFn) (context : ℕ) (f : HostFn) (args results rest : List ℕ)
    → get_elem? registry context ≡ some f
    → length args ≡ f.param_count
    → f.param_count ≤ 32
    → f.callback f.env (map as_u64 args) ≡ some results
    → length results ≡ f.result_count
    → f.result_count ≤ 32
    → length rest + f.result_count ≤ 4096
    → host_fn_trampoline registry context (reverse args ++ rest) ≡ ok (reverse results ++ rest)
unfolding host_fn_trampoline run_host_fn
host_fn_trampoline_lem registry context f args results rest found nargs few answer nresults small
      room =
    let shown : reverse (map as_u64 (reverse args)) ++ [] ≡ map as_u64 args =
      append-nil (reverse (map as_u64 (reverse args)))
      ∙ ap reverse (map-reverse args)
      ∙ reverse-reverse (map as_u64 args) in
    let popped : pop_args f.param_count [] (reverse args ++ rest) ≡ some (map as_u64 args, rest) =
      rw (sym (length-reverse args ∙ nargs)) (
        pop_args-append (reverse args) [] rest (omega (arith, length-reverse args))
        ∙ ap (λ t. some (t, rest)) shown) in
    rw (host_fn_trampoline, found, run_host_fn, popped, answer)
      (push_results-drop f.result_count 0 results rest (omega arith) (omega arith) room)

-- When the arguments cannot be popped.
pop_args-none :
    (n : ℕ) (acc stack : List ℕ) → (pop_args n acc stack ≡ none) ↔ ((32 < n) ⊎ (length stack < n))
unfolding pop_args
pop_args-none zero acc stack =
    (λ e. cc, λ h. elim h [ inl a ↦ absurd (omega arith) | inr a ↦ absurd (omega arith) ])
pop_args-none (suc i) acc [] = (λ e. inr (omega arith), λ h. refl)
pop_args-none (suc i) acc (v ∷ stack) =
    let (down, up) = pop_args-none i (v % 2 ^ 64 ∷ acc) stack in
    elim (Bool-cases (leb 32 i)) [
      | inl behind ↦ rw behind (λ e. inl (omega (arith, leb→le 32 i behind)), λ h. refl)
      | inr inside ↦
          let low : i < 32 = lt_of_leb 32 i inside in
          rw inside (
            λ e. elim (down e) [ inl a ↦ absurd (omega arith) | inr a ↦ inr (omega arith) ],
            λ h. elim h [ inl a ↦ absurd (omega arith) | inr a ↦ up (inr (omega arith)) ],
          )
    ]

-- Results that fit the array are pushed, or the stack overflows.
push_results-ne-panic :
    (n ri : ℕ) (results stack : List ℕ)
    → ri + n ≤ length results
    → ri + n ≤ 32
    → push_results n ri results stack ≢ err panic
unfolding push_results
push_results-ne-panic zero ri results stack h room = λ e. cc
push_results-ne-panic (suc n) ri results stack h room =
    let (v, there, split) = drop-get_elem? ri results (omega arith) in
    let inside : leb 32 ri ≡ false = ground arith in
    rw (push_results, there, inside)
      (elim (Bool-cases (leb 4096 (length stack))) [
        | inl full ↦ rw full (λ e. cc)
        | inr fits ↦
            rw fits
              (push_results-ne-panic n (suc ri) results (v ∷ stack) (omega arith) (omega arith))
      ])

-- Behind the arguments nothing stops the program.
run_host_fn-ne-panic :
    (f : HostFn) (args rest stack : List ℕ)
    → pop_args f.param_count [] stack ≡ some (args, rest)
    → f.result_count ≤ 32
    → ((results : List ℕ) → f.callback f.env args ≡ some results → f.result_count ≤ length results)
    → run_host_fn f stack ≢ err panic
unfolding run_host_fn
run_host_fn-ne-panic f args rest stack popped few writes =
    elim (Option-cases (f.callback f.env args)) [
      | inl refused ↦ rw (run_host_fn, popped, refused) (λ e. cc)
      | inr (results, answer) ↦
          rw (run_host_fn, popped, answer)
            (push_results-ne-panic f.result_count 0 results rest
              (omega (arith, writes results answer)) (omega arith))
    ]

-- A call of a registered function stops the program exactly when it has more than 32 parameters, or
-- more than there are operands on the stack. Its callback writes at least the results that it was
-- registered with, at most 32, whenever it accepts a call.
pub host_fn_trampoline_panics :
    (registry : List HostFn) (context : ℕ) (f : HostFn) (stack : List ℕ)
    → get_elem? registry context ≡ some f
    → f.result_count ≤ 32
    → ((args results : List ℕ)
        → f.callback f.env args ≡ some results
        → f.result_count ≤ length results)
    → (host_fn_trampoline registry context stack ≡ err panic)
      ↔ ((32 < f.param_count) ⊎ (length stack < f.param_count))
unfolding host_fn_trampoline run_host_fn
host_fn_trampoline_panics registry context f stack found few writes =
    let (down, up) = pop_args-none f.param_count [] stack in
    rw (host_fn_trampoline, found)
      (elim (Option-cases (pop_args f.param_count [] stack)) [
        | inl e ↦ (λ _. down e, λ _. rw (run_host_fn, e) refl)
        | inr ((args, rest), e) ↦ (
          λ p. absurd (run_host_fn-ne-panic f args rest stack e few (writes args) p),
          λ h. absurd (none-ne-some _ (sym (up h) ∙ e)),
        )
      ])
