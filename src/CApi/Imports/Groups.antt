-- ===== src/CApi/Imports/Groups.antt =====
-- What the loader gets for a collection: each function under its module's name, in order, found in
-- the registry by its context.
use mathlib.Core.List.{append_assoc, append-nil}
use zwasm.Base.{
  ◌≡◌, refl, ◌∙◌, sym, ap, Option, some, List, [], ◌∷◌, ◌++◌, map, if◌then◌else◌, length, get_elem?,
  inl, inr, Bool-cases,
}
use zwasm.CApi.Header.{Bytes}
use zwasm.CApi.Engine.{HostFnEntry, ImportEntry}
use zwasm.CApi.Imports.{HostFn, ImportItem, bytes_eq, module_names, host_fns, import_entries, build}

-- The functions of one module as they were added.
abbrev pub of_module : Bytes → List ImportItem → List (Bytes × Option HostFn)
of_module name [] = []
of_module name (item ∷ items) =
    if bytes_eq item.module_name name
    then (item.func_name, some item.host_fn) ∷ of_module name items
    else of_module name items

-- An entry as a call by the trampoline sees it.
abbrev pub resolve_fn : List HostFn → HostFnEntry → Bytes × Option HostFn
resolve_fn registry e = (e.name, get_elem? registry e.context)

abbrev pub resolve : List HostFn → ImportEntry → Bytes × List (Bytes × Option HostFn)
resolve registry e = (e.module_name, map (resolve_fn registry) e.host_fns)

abbrev picked : Bytes → List ImportItem → List HostFn
picked name [] = []
picked name (item ∷ items) =
    if bytes_eq item.module_name name then item.host_fn ∷ picked name items else picked name items

abbrev all_picked : List Bytes → List ImportItem → List HostFn
all_picked [] items = []
all_picked (name ∷ names) items = picked name items ++ all_picked names items

get_elem?-append_length :
    (before after : List HostFn) (f : HostFn)
    → get_elem? (before ++ f ∷ after) (length before) ≡ some f
get_elem?-append_length [] after f = refl
get_elem?-append_length (x ∷ before) after f = get_elem?-append_length before after f

host_fns-registry :
    (name : Bytes) (items : List ImportItem) (registry : List HostFn)
    → (host_fns name items registry).1 ≡ registry ++ picked name items
unfolding host_fns
host_fns-registry name [] registry = sym (append-nil registry)
host_fns-registry name (item ∷ items) registry =
    elim (Bool-cases (bytes_eq item.module_name name)) [
      | inl e ↦ rw e (
          host_fns-registry name items (registry ++ item.host_fn ∷ [])
          ∙ append_assoc registry (item.host_fn ∷ []) (picked name items))
      | inr e ↦ rw e (host_fns-registry name items registry)
    ]

host_fns-resolve :
    (name : Bytes) (items : List ImportItem) (registry later full : List HostFn)
    → full ≡ registry ++ (picked name items ++ later)
    → map (resolve_fn full) (host_fns name items registry).0 ≡ of_module name items
unfolding host_fns
host_fns-resolve name [] registry later full whole = refl
host_fns-resolve name (item ∷ items) registry later full whole =
    elim (Bool-cases (bytes_eq item.module_name name)) [
      | inl e ↦
          let f : HostFn = item.host_fn in
          let after : List HostFn = picked name items ++ later in
          let split : full ≡ registry ++ (f ∷ after) =
            whole
            ∙ ap
                (λ t.
                  registry ++ ((if t then f ∷ picked name items else picked name items) ++ later))
                e in
          let first : get_elem? full (length registry) ≡ some f =
            ap (λ t. get_elem? t (length registry)) split
            ∙ get_elem?-append_length registry after f in
          let rest : map (resolve_fn full) (host_fns name items (registry ++ f ∷ [])).0
              ≡ of_module name items =
            host_fns-resolve name items (registry ++ f ∷ []) later full
              (split ∙ sym (append_assoc registry (f ∷ []) after)) in
          rw (e, first, rest) refl
      | inr e ↦ rw e (
          host_fns-resolve name items registry later full (
            whole
            ∙ ap
                (λ t.
                  registry
                  ++ ((if t then item.host_fn ∷ picked name items else picked name items) ++ later))
                e))
    ]

import_entries-registry :
    (names : List Bytes) (items : List ImportItem) (registry : List HostFn)
    → (import_entries names items registry).1 ≡ registry ++ all_picked names items
unfolding import_entries
import_entries-registry [] items registry = sym (append-nil registry)
import_entries-registry (name ∷ names) items registry =
    import_entries-registry names items (host_fns name items registry).1
    ∙ ap (λ t. t ++ all_picked names items) (host_fns-registry name items registry)
    ∙ append_assoc registry (picked name items) (all_picked names items)

import_entries-resolve :
    (names : List Bytes) (items : List ImportItem) (registry full : List HostFn)
    → full ≡ registry ++ all_picked names items
    → map (resolve full) (import_entries names items registry).0
      ≡ map (λ name. (name, of_module name items)) names
unfolding import_entries
import_entries-resolve [] items registry full whole = refl
import_entries-resolve (name ∷ names) items registry full whole =
    let first : map (resolve_fn full) (host_fns name items registry).0 ≡ of_module name items =
      host_fns-resolve name items registry (all_picked names items) full (whole) in
    let rest : map (resolve full) (import_entries names items (host_fns name items registry).1).0
        ≡ map (λ name. (name, of_module name items)) names =
      import_entries-resolve names items (host_fns name items registry).1 full (
        whole
        ∙ sym (append_assoc registry (picked name items) (all_picked names items))
        ∙ ap (λ t. t ++ all_picked names items) (sym (host_fns-registry name items registry))) in
    rw (first, rest) refl

-- The contexts of what is built lead through the registry that is left to the functions of each
-- module as they were added, in order, whatever was registered before; and what was registered
-- before is still there, at its place.
pub build_lem :
    (items : List ImportItem) (registry : List HostFn)
    → (map (resolve (build items registry).1) (build items registry).0
        ≡ map (λ name. (name, of_module name items)) (module_names items []))
      × ((added : List HostFn) × ((build items registry).1 ≡ registry ++ added))
unfolding build
build_lem items registry =
    let names : List Bytes = module_names items [] in
    let whole : (import_entries names items registry).1 ≡ registry ++ all_picked names items =
      import_entries-registry names items registry in
    (import_entries-resolve names items registry _ whole, (all_picked names items, whole))
