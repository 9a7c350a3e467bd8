-- ===== src/CApi/Header.antt =====
-- include/zwasm.h: the interface as data. Each constructor is a declared function with its
-- arguments; a pointer to an object is the object's handle, NULL among the arguments is `none`, a
-- buffer that the callee only reads is the list of its bytes or words, and a C string is the list
-- of its bytes.
use zwasm.Base.{ℕ, Bool, Option, List}

-- The four opaque types.
pub data Kind : Type 0 where
  module_t config_t wasi_config_t imports_t : Kind

abbrev pub Handle : Type 0
Handle = ℕ

abbrev pub Bytes : Type 0
Bytes = List ℕ

-- What a host function gives back: false, or true with its output buffer filled.
abbrev pub HostFnCallback : Type 0
HostFnCallback = ℕ → List ℕ → Option (List ℕ)

-- Configuration: the callbacks are addresses of code.
pub data ConfigCall : Type 0 where
  config_delete : ConfigCall
  config_set_allocator : (alloc_fn free_fn ctx : ℕ) → ConfigCall
  config_set_fuel : (fuel : ℕ) → ConfigCall
  config_set_timeout : (timeout_ms : ℕ) → ConfigCall
  config_set_max_memory : (max_memory_bytes : ℕ) → ConfigCall
  config_set_force_interpreter : (force_interpreter : Bool) → ConfigCall
  config_set_cancellable : (enabled : Bool) → ConfigCall

-- Making modules.
pub data LoadCall : Type 0 where
  module_new : (wasm : Bytes) → LoadCall
  module_new_wasi : (wasm : Bytes) → LoadCall
  module_new_wasi_configured : (wasm : Bytes) (config : Handle) → LoadCall
  module_new_with_imports : (wasm : Bytes) (imports : Handle) → LoadCall
  module_new_configured : (wasm : Bytes) (config : Option Handle) → LoadCall
  module_new_wasi_configured2 :
      (wasm : Bytes) (wasi_config : Handle) (config : Option Handle) → LoadCall
  module_validate : (wasm : Bytes) → LoadCall

-- Calls on one module: invocation, export introspection, memory access.
pub data ModuleCall : Type 0 where
  module_delete : ModuleCall
  module_invoke : (name : Bytes) (args : List ℕ) (nresults : ℕ) → ModuleCall
  module_invoke_start : ModuleCall
  module_export_count : ModuleCall
  module_export_name : (idx : ℕ) → ModuleCall
  module_export_param_count : (idx : ℕ) → ModuleCall
  module_export_result_count : (idx : ℕ) → ModuleCall
  module_cancel : ModuleCall
  module_memory_data : ModuleCall
  module_memory_size : ModuleCall
  module_memory_read : (offset len : ℕ) → ModuleCall
  module_memory_write : (offset : ℕ) (bytes : Bytes) → ModuleCall

-- WASI configuration; a key or a value is given with its length, so it may hold zero bytes.
pub data WasiConfigCall : Type 0 where
  wasi_config_delete : WasiConfigCall
  wasi_config_set_argv : (argv : List Bytes) → WasiConfigCall
  wasi_config_set_env : (vars : List (Bytes × Bytes)) → WasiConfigCall
  wasi_config_preopen_dir : (host_path guest_path : Bytes) → WasiConfigCall
  wasi_config_preopen_fd : (host_fd : ℕ) (guest_path : Bytes) (kind ownership : ℕ) → WasiConfigCall
  wasi_config_set_stdio_fd : (wasi_fd host_fd ownership : ℕ) → WasiConfigCall

-- Host function imports.
pub data ImportCall : Type 0 where
  import_delete : ImportCall
  import_add_fn :
      (module_name func_name : Bytes) (callback : HostFnCallback) (env param_count result_count : ℕ)
      → ImportCall

-- A call of the interface; a call on an object carries its handle.
pub data Call : Type 0 where
  last_error_message : Call
  config_new : Call
  wasi_config_new : Call
  import_new : Call
  on_config : Handle → ConfigCall → Call
  on_wasi_config : Handle → WasiConfigCall → Call
  on_imports : Handle → ImportCall → Call
  load : LoadCall → Call
  on_module : Handle → ModuleCall → Call
