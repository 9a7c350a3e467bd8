-- ===== src/CApi/Invoke/Tests.antt =====
-- The theorems on loading at concrete inputs, with a small engine.
use zwasm.Base.{true, false, none, some, [], ◌∷◌}
use zwasm.CApi.Header.{Bytes}
use zwasm.CApi.Engine.{WrapperPointer, null, Outcome, ok, err, ModuleConfig, Engine}
use zwasm.CApi.Config.{Config, new}
use zwasm.CApi.Loading.{
  configured, with_imports, module_new, module_new_wasi, module_new_configured,
  module_new_with_imports,
}
use zwasm.CApi.Loading.Reports.{Reports, IsNamed, loaders-Reports}
use zwasm.CApi.Tests.{bad_magic, bad-All, bad≢nil, empty_buffer, empty_buffer-IsValid}

-- A module is its memory; an empty module does not load, and one of one byte has no memory.
abbrev small_memory : Bytes → Outcome Bytes
small_memory [] = err bad_magic
small_memory (b ∷ bs) = ok (b ∷ bs)

abbrev engine : Engine
engine = record {
  Module = Bytes;
  load = λ allocator config wasm. small_memory wasm;
  validate = λ wasm. ok tt;
  invoke = λ name args nresults m. (ok args, m);
  cancel = λ m. m;
  export_fns = λ m. [];
  memory = small_memory;
  set_memory = λ bytes m. bytes;
}

small_memory-IsNamed : (a : WrapperPointer) (c : ModuleConfig) → IsNamed (engine.load a c [])
small_memory-IsNamed a c = (bad-All, bad≢nil)

loaders-Reports_example :
    Reports (engine.load null (configured false none) []) (module_new engine [] empty_buffer)
    × Reports (engine.load null (configured true none) []) (module_new_wasi engine [] empty_buffer)
    × Reports
        (engine.load null (configured false (some new)) [])
        (module_new_configured engine [] (some new) empty_buffer)
    × Reports
        (engine.load null (with_imports [] [] none) [])
        (module_new_with_imports engine [] [] [] empty_buffer).0
loaders-Reports_example =
    loaders-Reports engine [] (some new) [] [] empty_buffer empty_buffer-IsValid
      small_memory-IsNamed
