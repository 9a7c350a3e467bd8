-- ===== src/CApi/Tests.antt =====
-- The theorems on the C interface at concrete inputs, with a small engine.
use zwasm.Base.{
  ℕ, suc, ◌≡◌, ◌≢◌, refl, arith, Bool, true, false, none, some, List, [], ◌∷◌, map, All, replicate,
  length-replicate,
}
use zwasm.CApi.Header.{
  Bytes, ConfigCall, config_delete, config_set_allocator, config_set_fuel, config_set_timeout,
  wasi_config_set_argv,
}
use zwasm.CApi.Engine.{borrow, WasiOptions}
use zwasm.CApi.ErrorBuffer.{ErrorBuffer, IsValid, set_error, last_error_message}
use zwasm.CApi.ErrorBuffer.Laws.{last_error_message-set_error}
use zwasm.CApi.Engine.{AllocatorWrapper, WrapperPointer, live}
use zwasm.CApi.Config.{Config, new, call}
use zwasm.CApi.Config.Laws.{run_answered, call_of, with_last, run_lem}
use zwasm.CApi.WasiConfig
use zwasm.CApi.WasiConfig.{to_options, slices, preopen_fds, stdio_override, set_argv}
use zwasm.CApi.WasiConfig.Laws.{ample}

abbrev pub bad_magic : Bytes
bad_magic = 66 ∷ 97 ∷ 100 ∷ []

abbrev pub empty_buffer : ErrorBuffer
empty_buffer = record { buf = replicate 512 0; len = 0 }

pub empty_buffer-IsValid : IsValid empty_buffer
empty_buffer-IsValid = record { full_size = length-replicate {A = ℕ} 512 0; len_fits = omega arith }

-- A buffer with "Bad" pending.
abbrev bad_buffer : ErrorBuffer
bad_buffer = record { buf = 66 ∷ 97 ∷ 100 ∷ replicate 509 0; len = 3 }

bad_buffer-IsValid : IsValid bad_buffer
bad_buffer-IsValid = record {
  full_size = omega (arith, length-replicate {A = ℕ} 509 0);
  len_fits = omega arith;
}

suc≢zero : (n : ℕ) → suc n ≢ 0
suc≢zero n e = omega arith

pub bad≢nil : bad_magic ≢ []
bad≢nil e = cc e

pub bad-All : All (λ b. b ≢ 0) bad_magic
bad-All = (suc≢zero 65, (suc≢zero 96, (suc≢zero 99, tt)))

last_error_message-set_error_example :
    (last_error_message (set_error bad_magic empty_buffer)).0 ≡ bad_magic
last_error_message-set_error_example =
    last_error_message-set_error empty_buffer bad_magic empty_buffer-IsValid bad-All bad≢nil

-- The export is called "hello"; "Bad" becomes "hel".
abbrev hello : Bytes
hello = 104 ∷ 101 ∷ 108 ∷ 108 ∷ 111 ∷ []

-- Configuration.
abbrev wrapper : AllocatorWrapper
wrapper = record { alloc_fn = 1; free_fn = 2; ctx = 3 }

new_alloc≢dangling : new.c_alloc ≢ WrapperPointer.dangling
new_alloc≢dangling e = cc e

abbrev pub setters : List ConfigCall
setters =
    config_set_fuel 5 ∷ config_set_allocator 1 2 3 ∷ config_set_timeout 9 ∷ config_set_fuel 7 ∷ []

-- The answers for the pages.
abbrev answered : List (Bool × ConfigCall)
answered =
    (false, config_set_fuel 5)
    ∷ (true, config_set_allocator 1 2 3)
    ∷ (false, config_set_timeout 9)
    ∷ []

run_lem_example :
    (run_answered answered new ≡ some (with_last (map call_of answered) new))
    × (call true config_delete (with_last (map call_of answered) new) ≢ none)
run_lem_example =
    run_lem answered new (tt, (tt, (tt, tt))) (tt, (refl, (tt, tt))) new_alloc≢dangling

abbrev with_wrapper : Config
with_wrapper = record new { c_alloc = live wrapper }

-- WASI configuration.
abbrev options : WasiOptions
options = record {
  args = some [];
  env_keys = [];
  env_vals = [];
  preopen_paths = [];
  preopen_fds = [];
  stdio_fds = none ∷ none ∷ none ∷ [];
  stdio_ownership = borrow ∷ borrow ∷ borrow ∷ [];
}

to_options-new : to_options WasiConfig.new ≡ some options
unfolding to_options slices preopen_fds stdio_override
to_options-new = refl

abbrev no_args : WasiOptions
no_args = record options { args = none }

to_options-argv_run :
    to_options (WasiConfig.call ample (wasi_config_set_argv (hello ∷ [])) WasiConfig.new)
    ≡ some no_args
unfolding to_options WasiConfig.call slices preopen_fds stdio_override set_argv
to_options-argv_run = refl
