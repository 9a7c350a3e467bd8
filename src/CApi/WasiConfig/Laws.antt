-- ===== src/CApi/WasiConfig/Laws.antt =====
-- What of a WASI configuration reaches the module.
use mathlib.Core.List.{append-nil, append_assoc}
use zwasm.Base.{
  ℕ, ◌+◌, ◌≡◌, refl, ap, ◌∙◌, arith, true, none, some, List, [], ◌∷◌, ◌++◌, map, length, take,
}
use zwasm.CApi.Header.{Bytes, wasi_config_set_argv, wasi_config_set_env, wasi_config_preopen_dir}
use zwasm.CApi.Engine.{WasiOptions}
use zwasm.CApi.WasiConfig.{
  WasiConfig, Room, append, set_argv, set_var, set_env, call, slices, to_options,
}

abbrev pub ample : Room
ample i = true

abbrev pub keys : List (Bytes × Bytes) → List Bytes
keys = map λ v. v.0

abbrev pub vals : List (Bytes × Bytes) → List Bytes
vals = map λ v. v.1

set_env_lem :
    (i : ℕ) (vs : List (Bytes × Bytes)) (c : WasiConfig)
    → set_env ample i vs c ≡ record c {
      env_keys = c.env_keys ++ keys vs;
      env_vals = c.env_vals ++ vals vs;
      env_key_lens = c.env_key_lens ++ map length (keys vs);
      env_val_lens = c.env_val_lens ++ map length (vals vs);
    }
unfolding set_env
set_env_lem i [] c = simp append-nil
set_env_lem i (v ∷ vs) c = set_env_lem (i + 4) vs (set_var ample i v c) ∙ simp append_assoc

take-length : (xs : List ℕ) → take (length xs) xs ≡ xs
take-length [] = refl
take-length (x ∷ xs) = ap (λ t. x ∷ t) (take-length xs)

slices-length : (ps : List Bytes) → slices ps (map length ps) ≡ some ps
unfolding slices
slices-length [] = refl
slices-length (p ∷ ps) = rw (slices-length ps, take-length p)

-- With memory to spare, the environment of the module is the one given last, in order, with keys
-- and values of any bytes; what else the options say stays.
pub to_options-set_env :
    (c : WasiConfig) (vs : List (Bytes × Bytes)) (o : WasiOptions)
    → to_options c ≡ some o
    → to_options (call ample (wasi_config_set_env vs) c)
      ≡ some (record o { env_keys = keys vs; env_vals = vals vs })
unfolding to_options call
to_options-set_env c vs o built =
    rw (set_env_lem, slices-length, slices-length) (ground (arith, built))

-- The guest path of `preopen_dir` does not reach the options: two calls that differ in it alone
-- give the same ones.
pub to_options-preopen_dir :
    (room : Room) (c : WasiConfig) (host guest guest' : Bytes)
    → to_options (call room (wasi_config_preopen_dir host guest) c)
      ≡ to_options (call room (wasi_config_preopen_dir host guest') c)
unfolding to_options call
to_options-preopen_dir room c host guest guest' = refl

set_argv_lem :
    (i : ℕ) (as' : List Bytes) (c : WasiConfig)
    → set_argv ample i as' c ≡ record c { argv = c.argv ++ as' }
unfolding set_argv
set_argv_lem i [] c = simp append-nil
set_argv_lem i (a ∷ as') c =
    set_argv_lem (i + 1) as' (record c { argv = append true c.argv a }) ∙ simp append_assoc

-- No argument list but the empty one reaches the module as it was given: the options then hold
-- slices that are read past the end of the array of pointers.
pub to_options-set_argv :
    (c : WasiConfig) (a : Bytes) (as' : List Bytes) (o : WasiOptions)
    → to_options (call ample (wasi_config_set_argv (a ∷ as')) c) ≡ some o
    → o.args ≡ none
unfolding to_options call set_argv
to_options-set_argv c a as' o built =
    ground (arith, built, set_argv_lem 1 as' (record c { argv = a ∷ [] }))
