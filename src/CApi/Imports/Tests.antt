-- ===== src/CApi/Imports/Tests.antt =====
-- The theorems on host functions at concrete inputs.
use mathlib.Core.List.{reverse}
use mathlib.Core.Option.{some-injective}
use zwasm.Base.{
  ℕ, ap, ◌≤◌, ◌<◌, ◌↔◌, ◌⊎◌, length, ◌+◌, ◌≡◌, refl, arith, none, some, List, [], ◌∷◌, ◌++◌, map,
  All,
}
use zwasm.CApi.Header.{HostFnCallback}
use zwasm.CApi.Imports.{
  HostFn, ImportItem, build, module_names, VmResult, host_fn_trampoline, panic,
}
use zwasm.CApi.Imports.Trampoline.{host_fn_trampoline_lem, host_fn_trampoline_panics}
use zwasm.CApi.Imports.Groups.{resolve, of_module, build_lem}
use zwasm.CApi.Imports.Names.{Distinct, In, module_of, module_names_lem}

-- A callback that adds its two arguments, if there are two.
abbrev add : HostFnCallback
add env (a ∷ b ∷ []) = some ((a + b) ∷ [])
add env _ = none

abbrev add_fn : HostFn
add_fn = record { callback = add; env = 0; param_count = 2; result_count = 1 }

host_fn_trampoline_lem_example :
    host_fn_trampoline (add_fn ∷ []) 0 (reverse (3 ∷ 4 ∷ []) ++ 9 ∷ [])
    ≡ VmResult.ok (reverse (7 ∷ []) ++ 9 ∷ [])
host_fn_trampoline_lem_example =
    host_fn_trampoline_lem (add_fn ∷ []) 0 add_fn (3 ∷ 4 ∷ []) (7 ∷ []) (9 ∷ []) refl refl
      (omega arith) refl refl (omega arith) (omega arith)

abbrev wide_fn : HostFn
wide_fn = record { callback = add; env = 0; param_count = 33; result_count = 1 }

wide-writes :
    (args results : List ℕ)
    → wide_fn.callback wide_fn.env args ≡ some results
    → wide_fn.result_count ≤ length results
wide-writes [] results h = absurd (cc)
wide-writes (a ∷ []) results h = absurd (cc)
wide-writes (a ∷ b ∷ []) results h =
    let e : (a + b) ∷ [] ≡ results = some-injective _ results h in
    omega (arith, ap (length {A = ℕ}) e)
wide-writes (a ∷ b ∷ c ∷ args) results h = absurd (cc)

host_fn_trampoline_panics_example :
    (host_fn_trampoline (wide_fn ∷ []) 0 (1 ∷ []) ≡ VmResult.err panic)
    ↔ ((32 < wide_fn.param_count) ⊎ (length {A = ℕ} (1 ∷ []) < wide_fn.param_count))
host_fn_trampoline_panics_example =
    host_fn_trampoline_panics (wide_fn ∷ []) 0 wide_fn (1 ∷ []) refl (omega arith) wide-writes

-- Functions of two modules, one of them twice.
abbrev items : List ImportItem
items =
    record { module_name = 1 ∷ []; func_name = 5 ∷ []; host_fn = add_fn }
    ∷ record { module_name = 2 ∷ []; func_name = 6 ∷ []; host_fn = wide_fn }
    ∷ record { module_name = 1 ∷ []; func_name = 7 ∷ []; host_fn = wide_fn }
    ∷ []

build_lem_example :
    (map (resolve (build items (add_fn ∷ [])).1) (build items (add_fn ∷ [])).0
      ≡ map (λ name. (name, of_module name items)) (module_names items []))
    × ((added : List HostFn) × ((build items (add_fn ∷ [])).1 ≡ (add_fn ∷ []) ++ added))
build_lem_example = build_lem items (add_fn ∷ [])

module_names_lem_example :
    Distinct (module_names items [])
    × All (λ (item : ImportItem). In item.module_name (module_names items [])) items
    × All (λ name. In name (map module_of items)) (module_names items [])
module_names_lem_example = module_names_lem items
