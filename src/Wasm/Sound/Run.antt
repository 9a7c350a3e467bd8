-- ===== src/Wasm/Sound/Run.antt =====
-- A run of instructions that the checker accepts.
use zwasm.Base.{◌≡◌, List, [], ◌∷◌, map}
use zwasm.Base.Outcome.{ok}
use zwasm.Wasm.Instr.{Plain, plain}
use zwasm.Wasm.Validate.{Validator}
use zwasm.Wasm.Validate.Body.{validate_plain, validate, validate_all}
use zwasm.Wasm.Vm.{Vm, exec, exec_all}
use zwasm.Wasm.Sound.{Layout, Matches, Good, Good-ok, Sound, Sound->>=}
use zwasm.Wasm.Sound.Rules.{Any}
use zwasm.Wasm.Sound.Exec.{exec-Sound}

all_sound : (l : Layout) (is : List Plain) → Sound l (validate_all (map plain is)) (exec_all is) Any
unfolding validate_all exec_all validate
all_sound l [] = λ v vm m b v' h. Good-ok l Any tt b v v' tt vm h tt m
all_sound l (i ∷ is) =
    Sound->>= l (validate_plain i) (exec i) (λ _. validate_all (map plain is)) (λ _. exec_all is)
      Any Any (exec-Sound l i) λ _ _ _. all_sound l is

-- Type soundness of the instructions that neither branch nor call nor touch the store: from states
-- that agree, the interpreter does not panic on a run of them that the checker accepts; it traps, or
-- it ends in a state that agrees with the one the checker ends in: as many
-- operands, each within the width of its type, and the locals within those of theirs.
pub exec_all-Good :
    (l : Layout) (is : List Plain) (v v' : Validator) (vm : Vm)
    → Matches l v vm
    → validate_all (map plain is) v ≡ ok (tt, v')
    → Good l (Any tt) v' (exec_all is vm)
exec_all-Good l is v v' vm m h = all_sound l is v vm m tt v' h
