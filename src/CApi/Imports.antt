-- ===== src/CApi/Imports.antt =====
-- src/c_api.zig, host function imports: the collection, the registry of trampolines, and the
-- trampoline that carries a call of the virtual machine over to a C callback. Memory suffices.
pub mod Tests
pub mod Groups
pub mod Names
pub mod Trampoline
use zwasm.Base.{
  ℕ, zero, suc, ◌+◌, ◌*◌, ◌%◌, ◌^◌, Bool, true, false, ◌&&◌, ◌||◌, Option, none, some, List, [],
  ◌∷◌, ◌++◌, ltb, leb, ◌==◌, if◌then◌else◌, length, get_elem?,
}
use zwasm.CApi.Header.{Bytes, HostFnCallback, ImportCall, import_delete, import_add_fn}
use zwasm.CApi.Engine.{HostFnEntry, ImportEntry}

pub record HostFn : Type 0 where
  pub callback : HostFnCallback
  pub env : ℕ
  pub param_count : ℕ
  pub result_count : ℕ

pub record ImportItem : Type 0 where
  pub module_name : Bytes
  pub func_name : Bytes
  pub host_fn : HostFn

-- `entries` of `CApiImports`; after `import_delete` the object is gone.
unfoldable pub call : ImportCall → List ImportItem → List ImportItem
call import_delete items = items
call (import_add_fn module_name func_name callback env param_count result_count) items =
    items
    ++ record {
      module_name = module_name;
      func_name = func_name;
      host_fn = record {
        callback = callback;
        env = env;
        param_count = param_count;
        result_count = result_count;
      };
    }
      ∷ []

-- `std.mem.eql`
unfoldable pub bytes_eq : Bytes → Bytes → Bool
bytes_eq [] [] = true
bytes_eq (a ∷ as') (b ∷ bs) = a == b && bytes_eq as' bs
bytes_eq _ _ = false

unfoldable pub found : Bytes → List Bytes → Bool
found name [] = false
found name (n ∷ ns) = bytes_eq n name || found name ns

-- The names of the modules, each once, in the order of their first functions.
unfoldable pub module_names : List ImportItem → List Bytes → List Bytes
module_names [] names = names
module_names (item ∷ items) names =
    module_names items
      (if found item.module_name names then names else names ++ item.module_name ∷ [])

-- The functions of one module: each is registered, and its context is its place in the registry.
unfoldable pub host_fns : Bytes → List ImportItem → List HostFn → List HostFnEntry × List HostFn
host_fns name [] registry = ([], registry)
host_fns name (item ∷ items) registry =
    if bytes_eq item.module_name name
    then (let (entries, registry') = host_fns name items (registry ++ item.host_fn ∷ []) in
        (record { name = item.func_name; context = length registry } ∷ entries, registry'))
    else host_fns name items registry

unfoldable pub import_entries :
    List Bytes → List ImportItem → List HostFn → List ImportEntry × List HostFn
import_entries [] items registry = ([], registry)
import_entries (name ∷ names) items registry =
    let (fns, registry') = host_fns name items registry in
    let (entries, registry'') = import_entries names items registry' in
    (record { module_name = name; host_fns = fns } ∷ entries, registry'')

-- What `zwasm_module_new_with_imports` hands to the loader, and the registry it leaves.
unfoldable pub build : List ImportItem → List HostFn → List ImportEntry × List HostFn
build items registry = import_entries (module_names items []) items registry

pub data VmError : Type 0 where
  invalid_context host_function_error stack_overflow : VmError
  -- a safety check stops the program, or the callback left a result unwritten
  panic unwritten : VmError

-- The operand stack, its top first.
pub data VmResult : Type 0 where
  ok : List ℕ → VmResult
  err : VmError → VmResult

abbrev pub operand_stack_size : ℕ
operand_stack_size = 4096

-- The loop that pops the arguments into the 32 places of `args_buf`, the last of them first; an operand
-- is read as a u64. `none` is a panic: a place behind the array, or a pop of the empty stack.
unfoldable pub pop_args : ℕ → List ℕ → List ℕ → Option (List ℕ × List ℕ)
pop_args zero args stack = some (args, stack)
pop_args (suc i) args [] = none
pop_args (suc i) args (v ∷ stack) =
    let rest = pop_args i (v % 2 ^ 64 ∷ args) stack in if leb 32 i then none else rest

-- `vm.pushOperand(results_buf[ri])` for `n` results from place `ri` on; the buffer has 32 places, and
-- the callback wrote the first `length results` of them.
unfoldable pub push_results : ℕ → ℕ → List ℕ → List ℕ → VmResult
push_results zero ri results stack = ok stack
push_results (suc n) ri results stack = elim (get_elem? results ri) [
  | none ↦ err (if leb 32 ri then panic else unwritten)
  | some v ↦
      let rest = push_results n (suc ri) results (v ∷ stack) in
      if leb 32 ri
      then err panic
      else if leb operand_stack_size (length stack)
      then err stack_overflow
      else rest
]

unfoldable pub run_host_fn : HostFn → List ℕ → VmResult
run_host_fn f stack = elim (pop_args f.param_count [] stack) [
  | none ↦ err panic
  | some (args, rest) ↦ elim (f.callback f.env args) [
    | none ↦ err host_function_error
    | some results ↦ push_results f.result_count 0 results rest
  ]
]

unfoldable pub host_fn_trampoline : List HostFn → ℕ → List ℕ → VmResult
host_fn_trampoline registry context stack = elim (get_elem? registry context) [
  | none ↦ err invalid_context
  | some f ↦ run_host_fn f stack
]
