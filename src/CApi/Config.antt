-- ===== src/CApi/Config.antt =====
-- src/c_api.zig, `zwasm_config_t`.
pub mod Laws
use zwasm.Base.{ℕ, Bool, true, false, Option, none, some, List, [], ◌∷◌, if◌then◌else◌}
use zwasm.CApi.Header.{
  ConfigCall, config_delete, config_set_allocator, config_set_fuel, config_set_timeout,
  config_set_max_memory, config_set_force_interpreter, config_set_cancellable,
}
use zwasm.CApi.Engine.{AllocatorWrapper, WrapperPointer, null, live, dangling, ModuleConfig}

pub record Config : Type 0 where
  pub c_alloc : WrapperPointer
  pub cancellable : Bool
  pub fuel : Option ℕ
  pub timeout_ms : Option ℕ
  pub max_memory_bytes : Option ℕ
  pub force_interpreter : Option Bool

-- `config.* = .{}` in `zwasm_config_new`.
abbrev pub new : Config
new = record {
  c_alloc = null;
  cancellable = true;
  fuel = none;
  timeout_ms = none;
  max_memory_bytes = none;
  force_interpreter = none;
}

-- Freeing what the pointer points to; `none` is a free of freed memory.
abbrev pub destroy : WrapperPointer → Option WrapperPointer
destroy null = some null
destroy (live w) = some dangling
destroy dangling = none

-- `zwasm_config_set_allocator`; `room` is whether the page allocator has a page for the wrapper.
unfoldable pub set_allocator : Bool → AllocatorWrapper → Config → Option Config
set_allocator room wrapper c = elim (destroy c.c_alloc) [
  | none ↦ none
  | some freed ↦
      some (if room then record c { c_alloc = live wrapper } else record c { c_alloc = freed })
]

-- The `zwasm_config_*` functions. `none` is a double free; after `config_delete` the object is gone,
-- and what is returned is no longer read.
unfoldable pub call : Bool → ConfigCall → Config → Option Config
call room config_delete c = elim (destroy c.c_alloc) [
  | none ↦ none
  | some p ↦ some (record c { c_alloc = p })
]
call room (config_set_allocator a f x) c =
    set_allocator room (record { alloc_fn = a; free_fn = f; ctx = x }) c
call room (config_set_fuel n) c = some (record c { fuel = some n })
call room (config_set_timeout n) c = some (record c { timeout_ms = some n })
call room (config_set_max_memory n) c = some (record c { max_memory_bytes = some n })
call room (config_set_force_interpreter b) c = some (record c { force_interpreter = some b })
call room (config_set_cancellable b) c = some (record c { cancellable = b })

-- `toModuleConfig`; the fields that the caller fills in afterwards are at their defaults.
unfoldable pub to_module_config : Config → ModuleConfig
to_module_config c = record {
  wasi = false;
  wasi_options = none;
  imports = none;
  fuel = c.fuel;
  timeout_ms = c.timeout_ms;
  max_memory_bytes = c.max_memory_bytes;
  force_interpreter = c.force_interpreter;
  cancellable = some c.cancellable;
}

-- `WasmModule.Config{}`, for a module made without a configuration.
abbrev pub default_module_config : ModuleConfig
default_module_config = record {
  wasi = false;
  wasi_options = none;
  imports = none;
  fuel = none;
  timeout_ms = none;
  max_memory_bytes = none;
  force_interpreter = none;
  cancellable = none;
}
