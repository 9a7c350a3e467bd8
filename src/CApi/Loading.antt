-- ===== src/CApi/Loading.antt =====
-- src/c_api.zig, the functions that make a module: they put a configuration together, clear the
-- error, load, and record the error's name when loading fails. Memory suffices.
pub mod Reports
use zwasm.Base.{Bool, true, false, Option, none, some, List}
use zwasm.CApi.Engine.{Outcome, ok, err, WrapperPointer, null, WasiOptions, ModuleConfig, Engine}
use zwasm.CApi.Header.{Bytes}
use zwasm.CApi.ErrorBuffer.{ErrorBuffer, set_error, clear_error}
use zwasm.CApi.Config.{Config, to_module_config, default_module_config}
use zwasm.CApi.WasiConfig.{WasiConfig, to_options}
use zwasm.CApi.Imports.{HostFn, ImportItem, build}

-- `if (config) |c| c.getAllocator() orelse default_allocator else default_allocator`
unfoldable pub chosen_allocator : Option Config → WrapperPointer
chosen_allocator none = null
chosen_allocator (some c) = c.c_alloc

-- `if (config) |c| c.toModuleConfig() else types.WasmModule.Config{}`
unfoldable pub base_config : Option Config → ModuleConfig
base_config none = default_module_config
base_config (some c) = to_module_config c

unfoldable pub configured : Bool → Option Config → ModuleConfig
configured wasi config = record (base_config config) { wasi = wasi }

unfoldable pub wasi_configured : WasiOptions → Option Config → ModuleConfig
wasi_configured opts config = record (base_config config) { wasi = true; wasi_options = some opts }

unfoldable pub with_imports : List ImportItem → List HostFn → Option Config → ModuleConfig
with_imports items registry config = record (base_config config) {
  imports = some (build items registry).0;
}

-- `... catch |err| { setError(err); return null; }` after `clearError`.
unfoldable pub report {ℓ} : {A : Type ℓ} → Outcome A → ErrorBuffer → Option A × ErrorBuffer
report (ok a) e = (some a, clear_error e)
report (err name) e = (none, set_error name (clear_error e))

module _ (E : Engine) where
  unfoldable pub module_new : Bytes → ErrorBuffer → Option E.Module × ErrorBuffer
  module_new wasm e = report (E.load (chosen_allocator none) (configured false none) wasm) e

  unfoldable pub module_new_wasi : Bytes → ErrorBuffer → Option E.Module × ErrorBuffer
  module_new_wasi wasm e = report (E.load (chosen_allocator none) (configured true none) wasm) e

  unfoldable pub module_new_configured :
      Bytes → Option Config → ErrorBuffer → Option E.Module × ErrorBuffer
  module_new_configured wasm config e =
      report (E.load (chosen_allocator config) (configured false config) wasm) e

  -- `none` is a panic while the options are put together.
  unfoldable pub module_new_wasi_configured2 :
      Bytes → WasiConfig → Option Config → ErrorBuffer → Option (Option E.Module × ErrorBuffer)
  module_new_wasi_configured2 wasm wasi_config config e = elim (to_options wasi_config) [
    | none ↦ none
    | some opts ↦
        some (report (E.load (chosen_allocator config) (wasi_configured opts config) wasm) e)
  ]

  unfoldable pub module_new_wasi_configured :
      Bytes → WasiConfig → ErrorBuffer → Option (Option E.Module × ErrorBuffer)
  module_new_wasi_configured wasm config e = elim (to_options config) [
    | none ↦ none
    | some opts ↦ some (report (E.load (chosen_allocator none) (wasi_configured opts none) wasm) e)
  ]

  -- With the registry of trampolines, which grows whether or not the module loads.
  unfoldable pub module_new_with_imports :
      Bytes
      → List ImportItem
      → List HostFn
      → ErrorBuffer
      → (Option E.Module × ErrorBuffer) × List HostFn
  module_new_with_imports wasm items registry e = (
    report (E.load (chosen_allocator none) (with_imports items registry none) wasm) e,
    (build items registry).1,
  )

  unfoldable pub module_validate : Bytes → ErrorBuffer → Bool × ErrorBuffer
  module_validate wasm e =
      let (valid, e') = report (E.validate wasm) e in
      elim valid [ none ↦ (false, e') | some _ ↦ (true, e') ]
