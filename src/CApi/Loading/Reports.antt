-- ===== src/CApi/Loading/Reports.antt =====
-- What a caller learns from a function that makes a module.
use zwasm.Base.{◌≡◌, ◌≢◌, refl, arith, true, false, Option, none, some, List, [], take}
use zwasm.CApi.Engine.{Outcome, ok, err, WrapperPointer, null, ModuleConfig, Engine}
use zwasm.CApi.Header.{Bytes}
use zwasm.CApi.ErrorBuffer.{ErrorBuffer, IsValid, clear_error, last_error_message}
use zwasm.CApi.ErrorBuffer.Laws.{
  NoNul, last_error_message-set_error, last_error_message-clear_error,
}
use zwasm.CApi.Config.{Config}
use zwasm.CApi.Imports.{HostFn, ImportItem}
use zwasm.CApi.Loading.{
  chosen_allocator, configured, with_imports, report, module_new, module_new_wasi,
  module_new_configured, module_new_with_imports,
}

-- Success gives what was made and the empty message; failure gives NULL and the error's name, of
-- which the message shows 511 bytes.
abbrev pub Reports {ℓ} : {A : Type ℓ} → Outcome A → Option A × ErrorBuffer → Type ℓ
Reports (ok a) (r, e) = (r ≡ some a) × ((last_error_message e).0 ≡ [])
Reports (err name) (r, e) = (r ≡ none) × ((last_error_message e).0 ≡ take 511 name)

-- The engine's error names are C strings.
abbrev pub IsNamed {ℓ} : {A : Type ℓ} → Outcome A → Type 0
IsNamed (ok a) = Unit
IsNamed (err name) = NoNul name × (name ≢ [])

clear_error-IsValid : (e : ErrorBuffer) → IsValid e → IsValid (clear_error e)
unfolding clear_error
clear_error-IsValid e v = record { full_size = v.full_size; len_fits = omega arith }

report-Reports {ℓ} :
    {A : Type ℓ} (outcome : Outcome A) (e : ErrorBuffer)
    → IsValid e
    → IsNamed outcome
    → Reports outcome (report outcome e)
unfolding report
report-Reports (ok a) e v h = (refl, last_error_message-clear_error e)
report-Reports (err name) e v (clean, some_text) = (
  refl,
  last_error_message-set_error (clear_error e) name (clear_error-IsValid e v) clean some_text,
)

-- What each loader reports, whatever the message was before.
pub loaders-Reports :
    (E : Engine) (wasm : Bytes) (config : Option Config)
    → (items : List ImportItem) (registry : List HostFn) (e : ErrorBuffer) → IsValid e
    → ((a : WrapperPointer) (c : ModuleConfig) → IsNamed (E.load a c wasm))
    → Reports (E.load null (configured false none) wasm) (module_new E wasm e)
      × Reports (E.load null (configured true none) wasm) (module_new_wasi E wasm e)
      × Reports
          (E.load (chosen_allocator config) (configured false config) wasm)
          (module_new_configured E wasm config e)
      × Reports
          (E.load null (with_imports items registry none) wasm)
          (module_new_with_imports E wasm items registry e).0
unfolding module_new module_new_wasi module_new_configured module_new_with_imports chosen_allocator
loaders-Reports E wasm config items registry e v named = (
  report-Reports _ e v (named _ _),
  report-Reports _ e v (named _ _),
  report-Reports _ e v (named _ _),
  report-Reports _ e v (named _ _),
)
