-- ===== src/CApi/Engine.antt =====
-- What src/c_api.zig asks of the runtime behind it (`WasmModule` of src/types.zig): loading,
-- invocation, the list of exported functions and the first memory. An error is its name.
use zwasm.Base.{ℕ, Bool, Option, List}
use zwasm.CApi.Header.{Bytes}

pub data Outcome {ℓ} (A : Type ℓ) : Type ℓ where
  ok : A → Outcome A
  err : Bytes → Outcome A

-- One host function as the loader gets it: its name, and the context that the trampoline finds it by.
pub record HostFnEntry : Type 0 where
  pub name : Bytes
  pub context : ℕ

pub record ImportEntry : Type 0 where
  pub module_name : Bytes
  pub host_fns : List HostFnEntry

pub data PreopenKind : Type 0 where
  file dir : PreopenKind

pub data Ownership : Type 0 where
  borrow own : Ownership

pub record PreopenFd : Type 0 where
  pub host_fd : ℕ
  pub guest_path : Bytes
  pub kind : PreopenKind
  pub ownership : Ownership

pub record WasiOptions : Type 0 where
  -- `none`: the memory behind the slices is not an array of slices.
  pub args : Option (List Bytes)
  pub env_keys : List Bytes
  pub env_vals : List Bytes
  pub preopen_paths : List Bytes
  pub preopen_fds : List PreopenFd
  pub stdio_fds : List (Option ℕ)
  pub stdio_ownership : List Ownership

-- The callbacks of a custom allocator, by their addresses.
pub record AllocatorWrapper : Type 0 where
  pub alloc_fn : ℕ
  pub free_fn : ℕ
  pub ctx : ℕ

-- The pointer to the wrapper: null, to a live wrapper, or to one that was freed.
pub data WrapperPointer : Type 0 where
  null : WrapperPointer
  live : AllocatorWrapper → WrapperPointer
  dangling : WrapperPointer

-- `WasmModule.Config`.
pub record ModuleConfig : Type 0 where
  pub wasi : Bool
  pub wasi_options : Option WasiOptions
  pub imports : Option (List ImportEntry)
  pub fuel : Option ℕ
  pub timeout_ms : Option ℕ
  pub max_memory_bytes : Option ℕ
  pub force_interpreter : Option Bool
  pub cancellable : Option Bool

pub record ExportFn : Type 0 where
  pub name : Bytes
  pub param_count : ℕ
  pub result_count : ℕ

pub record Engine : Type 1 where
  pub Module : Type 0
  -- With the allocator that the wrapper stands for; a null pointer is the default one.
  pub load : WrapperPointer → ModuleConfig → Bytes → Outcome Module
  pub validate : Bytes → Outcome (Unit {0})
  pub invoke : Bytes → List ℕ → ℕ → Module → Outcome (List ℕ) × Module
  pub cancel : Module → Module
  pub export_fns : Module → List ExportFn
  pub memory : Module → Outcome Bytes
  pub set_memory : Bytes → Module → Module
