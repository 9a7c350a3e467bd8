-- ===== src/CApi/Invoke.antt =====
-- src/c_api.zig, the calls on a loaded module: invocation, export introspection, and the first
-- linear memory.
pub mod Tests
use zwasm.Base.{
  ℕ, zero, ◌+◌, Bool, true, false, Option, none, some, List, [], ◌∷◌, ltb, if◌then◌else◌, length,
  get_elem?, map,
}
use zwasm.Base.Slices.{slice, splice}
use zwasm.CApi.Engine.{Outcome, ok, err, ExportFn, Engine}
use zwasm.CApi.Header.{
  Bytes, ModuleCall, module_delete, module_invoke, module_invoke_start, module_export_count,
  module_export_name, module_export_param_count, module_export_result_count, module_cancel,
  module_memory_data, module_memory_size, module_memory_read, module_memory_write,
}
use zwasm.CApi.ErrorBuffer.{ErrorBuffer, set_error, clear_error, export_name}

-- What a call gives to its C caller.
pub data Reply : Type 0 where
  void : Reply
  -- false, or true with the words written to the buffer of results
  words : Option (List ℕ) → Reply
  number : ℕ → Reply
  -- a C string, or a pointer to bytes; `none` is NULL
  pointer : Option Bytes → Reply
  -- false, or true with the bytes that were copied out
  copied : Option Bytes → Reply
  flag : Bool → Reply

-- "OutOfBoundsMemoryAccess", the name of the error.
abbrev pub out_of_bounds_name : Bytes
out_of_bounds_name =
    79 ∷ 117 ∷ 116 ∷ 79 ∷ 102 ∷ 66 ∷ 111 ∷ 117 ∷ 110 ∷ 100 ∷ 115 ∷ 77 ∷ 101 ∷ 109 ∷ 111 ∷ 114 ∷ 121
    ∷ 65 ∷ 99 ∷ 99 ∷ 101 ∷ 115 ∷ 115 ∷ []

-- "_start"
abbrev pub start_name : Bytes
start_name = 95 ∷ 115 ∷ 116 ∷ 97 ∷ 114 ∷ 116 ∷ []

module _ (E : Engine) where
  unfoldable pub invoke :
      Bytes → List ℕ → ℕ → E.Module → ErrorBuffer → Reply × E.Module × ErrorBuffer
  invoke name args nresults m e =
      let (outcome, m') = E.invoke name args nresults m in
      elim outcome [
        | ok results ↦ (words (some results), m', clear_error e)
        | err reason ↦ (words none, m', set_error reason (clear_error e))
      ]

  unfoldable pub export_count : E.Module → ℕ
  export_count m = length (E.export_fns m)

  unfoldable pub export_param_count : ℕ → E.Module → ℕ
  export_param_count idx m = elim (get_elem? (E.export_fns m) idx) [
    | none ↦ 0
    | some f ↦ f.param_count
  ]

  unfoldable pub export_result_count : ℕ → E.Module → ℕ
  export_result_count idx m = elim (get_elem? (E.export_fns m) idx) [
    | none ↦ 0
    | some f ↦ f.result_count
  ]

  -- The pointer shows the memory; an empty memory has none.
  unfoldable pub memory_data : E.Module → Option Bytes
  memory_data m = elim (E.memory m) [ err _ ↦ none | ok [] ↦ none | ok (b ∷ bs) ↦ some (b ∷ bs) ]

  unfoldable pub memory_size : E.Module → ℕ
  memory_size m = elim (E.memory m) [ err _ ↦ 0 | ok bytes ↦ length bytes ]

  unfoldable pub memory_read : ℕ → ℕ → E.Module → ErrorBuffer → Option Bytes × ErrorBuffer
  memory_read offset len m e = elim (E.memory m) [
    | err reason ↦ (none, set_error reason (clear_error e))
    | ok bytes ↦
        if ltb (length bytes) (offset + len)
        then (none, set_error out_of_bounds_name (clear_error e))
        else (some (slice bytes offset len), clear_error e)
  ]

  unfoldable pub memory_write : ℕ → Bytes → E.Module → ErrorBuffer → Bool × E.Module × ErrorBuffer
  memory_write offset source m e = elim (E.memory m) [
    | err reason ↦ (false, m, set_error reason (clear_error e))
    | ok bytes ↦
        if ltb (length bytes) (offset + length source)
        then (false, m, set_error out_of_bounds_name (clear_error e))
        else (true, E.set_memory (splice bytes offset source) m, clear_error e)
  ]

  -- A call of the header on a module; after `module_delete` the module is gone.
  unfoldable pub call : ModuleCall → E.Module → ErrorBuffer → Reply × E.Module × ErrorBuffer
  call module_delete m e = (void, m, e)
  call (module_invoke name args nresults) m e = invoke name args nresults m e
  call module_invoke_start m e = invoke start_name [] 0 m e
  call module_export_count m e = (number (export_count m), m, e)
  call (module_export_name idx) m e =
      let (name, e') = export_name (map (λ (f : ExportFn). f.name) (E.export_fns m)) idx e in
      (pointer name, m, e')
  call (module_export_param_count idx) m e = (number (export_param_count idx m), m, e)
  call (module_export_result_count idx) m e = (number (export_result_count idx m), m, e)
  call module_cancel m e = (void, E.cancel m, e)
  call module_memory_data m e = (pointer (memory_data m), m, e)
  call module_memory_size m e = (number (memory_size m), m, e)
  call (module_memory_read offset len) m e =
      let (bytes, e') = memory_read offset len m e in (copied bytes, m, e')
  call (module_memory_write offset bytes) m e =
      let (done, m', e') = memory_write offset bytes m e in (flag done, m', e')
