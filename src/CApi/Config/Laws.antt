-- ===== src/CApi/Config/Laws.antt =====
-- Any sequence of setters: the last value given for a field is the one that a module gets.
use zwasm.Base.{
  ℕ, ◌≡◌, ◌≢◌, refl, ap, ◌∙◌, arith, Bool, true, false, Option, none, some, List, [], ◌∷◌, map, All,
}
use zwasm.CApi.Header.{
  ConfigCall, config_delete, config_set_allocator, config_set_fuel, config_set_timeout,
  config_set_max_memory, config_set_force_interpreter, config_set_cancellable,
}
use zwasm.CApi.Engine.{AllocatorWrapper, WrapperPointer, live, dangling}
use zwasm.CApi.Config.{Config, set_allocator, call}

-- The calls in order, with room for every wrapper.
abbrev pub run : List ConfigCall → Config → Option Config
run [] c = some c
run (s ∷ ss) c = elim (call true s c) [ none ↦ none | some c' ↦ run ss c' ]

abbrev pub IsSetter : ConfigCall → Type 0
IsSetter config_delete = ⊥
IsSetter _ = Unit

-- What the calls leave in one field, as a fold over them: `pick` is the value that a call gives it.
abbrev pub last {ℓ} : {A : Type ℓ} → (ConfigCall → Option A) → A → List ConfigCall → A
last pick a [] = a
last pick a (s ∷ ss) = last pick (elim (pick s) [ none ↦ a | some b ↦ b ]) ss

abbrev pub fuel_of : ConfigCall → Option (Option ℕ)
fuel_of (config_set_fuel n) = some (some n)
fuel_of _ = none

abbrev pub timeout_of : ConfigCall → Option (Option ℕ)
timeout_of (config_set_timeout n) = some (some n)
timeout_of _ = none

abbrev pub max_memory_of : ConfigCall → Option (Option ℕ)
max_memory_of (config_set_max_memory n) = some (some n)
max_memory_of _ = none

abbrev pub force_of : ConfigCall → Option (Option Bool)
force_of (config_set_force_interpreter b) = some (some b)
force_of _ = none

abbrev pub cancellable_of : ConfigCall → Option Bool
cancellable_of (config_set_cancellable b) = some b
cancellable_of _ = none

-- The wrapper pointer that the last allocator call leaves; each replaces the one before.
abbrev pub allocator_of : ConfigCall → Option WrapperPointer
allocator_of (config_set_allocator a f x) =
    some (live (record { alloc_fn = a; free_fn = f; ctx = x }))
allocator_of _ = none

set_allocator_live :
    (w : AllocatorWrapper) (c : Config)
    → c.c_alloc ≢ dangling
    → set_allocator true w c ≡ some (record c { c_alloc = live w })
unfolding set_allocator
set_allocator_live w c ok = ground arith

-- The calls in order, each with the answer that its request for a page would get.
abbrev pub run_answered : List (Bool × ConfigCall) → Config → Option Config
run_answered [] c = some c
run_answered ((room, s) ∷ ss) c = elim (call room s c) [
  | none ↦ none
  | some c' ↦ run_answered ss c'
]

abbrev pub call_of : Bool × ConfigCall → ConfigCall
call_of s = s.1

-- A new wrapper gets its page.
abbrev pub IsGranted : Bool × ConfigCall → Type 0
IsGranted (room, config_set_allocator a f x) = room ≡ true
IsGranted _ = Unit

-- The configuration that holds, in each field, what the last of the calls gave it, or what it was.
abbrev pub with_last : List ConfigCall → Config → Config
with_last ss c = record {
  c_alloc = last allocator_of c.c_alloc ss;
  cancellable = last cancellable_of c.cancellable ss;
  fuel = last fuel_of c.fuel ss;
  timeout_ms = last timeout_of c.timeout_ms ss;
  max_memory_bytes = last max_memory_of c.max_memory_bytes ss;
  force_interpreter = last force_of c.force_interpreter ss;
}

pub run-with_last :
    (ss : List ConfigCall) (c : Config)
    → All IsSetter ss
    → c.c_alloc ≢ dangling
    → run ss c ≡ some (with_last ss c)
unfolding call
run-with_last [] c hs ok = refl
run-with_last (config_delete ∷ ss) c (h, hs) ok = elim h [ ]
run-with_last (config_set_allocator a f x ∷ ss) c (h, hs) ok =
    rw (run, call, set_allocator_live (record { alloc_fn = a; free_fn = f; ctx = x }) c ok)
      (run-with_last ss
        (record c { c_alloc = live (record { alloc_fn = a; free_fn = f; ctx = x }) }) hs (λ e. cc))
run-with_last (config_set_fuel n ∷ ss) c (h, hs) ok =
    run-with_last ss (record c { fuel = some n }) hs ok
run-with_last (config_set_timeout n ∷ ss) c (h, hs) ok =
    run-with_last ss (record c { timeout_ms = some n }) hs ok
run-with_last (config_set_max_memory n ∷ ss) c (h, hs) ok =
    run-with_last ss (record c { max_memory_bytes = some n }) hs ok
run-with_last (config_set_force_interpreter b ∷ ss) c (h, hs) ok =
    run-with_last ss (record c { force_interpreter = some b }) hs ok
run-with_last (config_set_cancellable b ∷ ss) c (h, hs) ok =
    run-with_last ss (record c { cancellable = b }) hs ok

call_granted :
    (s : Bool × ConfigCall) (c : Config)
    → IsGranted s
    → call s.0 (call_of s) c ≡ call true (call_of s) c
unfolding call
call_granted (room, config_delete) c g = refl
call_granted (room, config_set_allocator a f x) c g =
    ap (λ r. set_allocator r (record { alloc_fn = a; free_fn = f; ctx = x }) c) g
call_granted (room, config_set_fuel n) c g = refl
call_granted (room, config_set_timeout n) c g = refl
call_granted (room, config_set_max_memory n) c g = refl
call_granted (room, config_set_force_interpreter b) c g = refl
call_granted (room, config_set_cancellable b) c g = refl

further :
    (ss : List (Bool × ConfigCall)) (r : Option Config)
    → ((c : Config) → run_answered ss c ≡ run (map call_of ss) c)
    → ◌≡◌ {A = Option Config}
        (elim r [ none ↦ none | some c' ↦ run_answered ss c' ])
        (elim r [ none ↦ none | some c' ↦ run (map call_of ss) c' ])
further ss none h = refl
further ss (some c') h = h c'

run_answered-run :
    (ss : List (Bool × ConfigCall)) (c : Config)
    → All IsGranted ss
    → run_answered ss c ≡ run (map call_of ss) c
run_answered-run [] c gs = refl
run_answered-run ((room, s) ∷ ss) c (g, gs) =
    ap (λ r. elim r [ none ↦ none | some c' ↦ run_answered ss c' ]) (call_granted (room, s) c g)
    ∙ further ss (call true s c) (λ c'. run_answered-run ss c' gs)

setters-All :
    (ss : List (Bool × ConfigCall))
    → All (λ s. IsSetter (call_of s)) ss
    → All IsSetter (map call_of ss)
setters-All [] h = tt
setters-All (s ∷ ss) (h, hs) = (h, setters-All ss hs)

last_live :
    (p : WrapperPointer) (ss : List ConfigCall) → p ≢ dangling → last allocator_of p ss ≢ dangling
last_live p [] ok = ok
last_live p (config_delete ∷ ss) ok = last_live p ss ok
last_live p (config_set_allocator a f x ∷ ss) ok = last_live _ ss (λ e. cc)
last_live p (config_set_fuel n ∷ ss) ok = last_live p ss ok
last_live p (config_set_timeout n ∷ ss) ok = last_live p ss ok
last_live p (config_set_max_memory n ∷ ss) ok = last_live p ss ok
last_live p (config_set_force_interpreter b ∷ ss) ok = last_live p ss ok
last_live p (config_set_cancellable b ∷ ss) ok = last_live p ss ok

deleted : (c : Config) → c.c_alloc ≢ dangling → call true config_delete c ≢ none
unfolding call
deleted c ok = ground arith

-- Setters of which each new wrapper gets its page, on a configuration whose wrapper was not freed, never
-- free twice, in any number and order, and neither does the deletion behind them. Each field of the
-- configuration is what the last call for it gave, or what it was before.
pub run_lem :
    (ss : List (Bool × ConfigCall)) (c : Config)
    → All (λ s. IsSetter (call_of s)) ss
    → All IsGranted ss
    → c.c_alloc ≢ dangling
    → (run_answered ss c ≡ some (with_last (map call_of ss) c))
      × (call true config_delete (with_last (map call_of ss) c) ≢ none)
run_lem ss c hs gs ok = (
  run_answered-run ss c gs ∙ run-with_last (map call_of ss) c (setters-All ss hs) ok,
  deleted (with_last (map call_of ss) c) (last_live c.c_alloc (map call_of ss) ok),
)

-- When no page is left for the new wrapper, the old one is freed all the same and the pointer to it
-- stays: deleting the configuration, as its owner must, frees it a second time.
pub set_allocator_double_free :
    (c : Config) (old : AllocatorWrapper) (a f x : ℕ)
    → c.c_alloc ≡ live old
    → (c' : Config) × (call false (config_set_allocator a f x) c ≡ some c')
      × (call false config_delete c' ≡ none)
unfolding call set_allocator
set_allocator_double_free c old a f x h = (record c { c_alloc = dangling }, ground (arith, h), refl)
