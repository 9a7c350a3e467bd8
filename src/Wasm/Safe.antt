-- ===== src/Wasm/Safe.antt =====
-- The invariant of the checker of src/validate.zig, and the rule for what its operations ensure.
pub mod Stacks
pub mod Frames
pub mod Locals
pub mod Plain
pub mod Control
pub mod Bodies
use zwasm.Base.{
  ℕ, zero, suc, ◌+◌, ◌-◌, ◌≤◌, ◌<◌, ◌≡◌, refl, arith, Bool, Option, none, some, List, [], ◌∷◌,
  length,
}
use zwasm.Base.Outcome.{Outcome, ok, err, panic, M, next, ◌>>=◌}
use zwasm.Wasm.Instr.{ValType}
use zwasm.Wasm.Validate.{Validator, V, ControlFrame, ValidateError}

-- No frame begins above the operands, or above the frame inside it.
abbrev pub Nested : ℕ → List ControlFrame → Type 0
Nested n [] = Unit {0}
Nested n (f ∷ fs) = (f.height ≤ n) × Nested f.height fs

abbrev pub SnapshotFits : ℕ → Option (List Bool) → Type 0
SnapshotFits n none = Unit {0}
SnapshotFits n (some s) = length s ≡ n

abbrev pub Snapshots : ℕ → List ControlFrame → Type 0
Snapshots n [] = Unit {0}
Snapshots n (f ∷ fs) = SnapshotFits n f.init_snapshot × Snapshots n fs

pub record WellFormed (v : Validator) : Type 0 where
  pub nested : Nested (length v.op_stack) v.ctrl_stack
  pub inits : length v.local_inits ≡ length v.local_types
  pub snapshots : Snapshots (length v.local_types) v.ctrl_stack

abbrev pub NonEmpty : List ControlFrame → Type 0
NonEmpty [] = ⊥
NonEmpty (f ∷ fs) = Unit {0}

-- A value and a state with `Q`, or an error, but no panic.
abbrev pub Ensures :
    {A : Type 0} → (A → Validator → Type 0) → Outcome ValidateError (A × Validator) → Type 0
Ensures Q (ok (a, v)) = Q a v
Ensures Q (err e) = Unit {0}
Ensures Q panic = ⊥

abbrev pub Triple : {A : Type 0} → (Validator → Type 0) → V A → (A → Validator → Type 0) → Type 0
Triple P c Q = (v : Validator) → P v → Ensures Q (c v)

pub Ensures-map :
    {A : Type 0} {Q R : A → Validator → Type 0}
    → ((a : A) (v : Validator) → Q a v → R a v)
    → (r : Outcome ValidateError (A × Validator)) → Ensures Q r
    → Ensures R r
Ensures-map g (ok (a, v)) q = g a v q
Ensures-map g (err e) q = tt
Ensures-map g panic q = q

Ensures-next :
    {A B : Type 0} (Q : A → Validator → Type 0) (R : B → Validator → Type 0) (k : A → V B)
    (r : Outcome ValidateError (A × Validator))
    → Ensures Q r
    → ((a : A) → Triple (Q a) (k a) R)
    → Ensures R (next k r)
Ensures-next Q R k (ok (a, v)) q g = g a v q
Ensures-next Q R k (err e) q g = tt
Ensures-next Q R k panic q g = q

pub Triple->>= :
    {A B : Type 0} (P : Validator → Type 0) (Q : A → Validator → Type 0)
    (R : B → Validator → Type 0) (c : V A) (k : A → V B)
    → Triple P c Q
    → ((a : A) → Triple (Q a) (k a) R)
    → Triple P (c >>= k) R
Triple->>= P Q R c k t g v p = Ensures-next Q R k (c v) (t v p) g

-- The state is well-formed, with this stack of frames.
abbrev pub At : List ControlFrame → Validator → Type 0
At ctrl v = WellFormed v × (v.ctrl_stack ≡ ctrl)
