-- ===== src/Wasm/Safe/Frames.antt =====
-- The frames of the checker: entering a block, leaving it, and code that is not reached.
use mathlib.Core.Path.{subst}
use zwasm.Base.{
  ℕ, suc, ◌-◌, ◌<◌, ◌≡◌, refl, sym, ap, ◌∙◌, arith, Bool, true, false, Option, none, some,
  Bool-cases, inl, inr, All, List, [], ◌∷◌, ltb, leb, ◌==◌, if◌then◌else◌, length, drop,
  length-drop, get_elem?-some,
}
use zwasm.Base.Outcome.{Outcome, ok, panic, pure, get, guard, ◌>>=◌}
use zwasm.Wasm.Instr.{ValType, FuncType}
use zwasm.Wasm.Validate.{
  Validator, V, ControlFrame, FrameKind, ValidateError, type_mismatch, frame_at,
  pop_expecting_types, push_types, push_ctrl, restore, leave, top_of, top_frame, end_frame,
  pop_ctrl, set_unreachable, flagged, label_types,
}
use zwasm.Wasm.Validate.Body.{enter_block, check_label, check_labels, check_arities, last_frame}
use zwasm.Wasm.Safe.{
  Nested, SnapshotFits, Snapshots, WellFormed, NonEmpty, Ensures, Ensures-map, Triple, Triple->>=,
  At,
}
use zwasm.Wasm.Safe.Stacks.{pop_expecting_types-keeps, push_types-keeps, guard_keeps}

-- The state is well-formed, with `n` frames.
abbrev pub Deep : ℕ → Validator → Type 0
Deep n v = WellFormed v × (length v.ctrl_stack ≡ n)

-- What keeps each stack of frames keeps their number.
pub Deep-of_At :
    {A : Type 0} (n : ℕ) (c : V A)
    → ((ctrl : List ControlFrame) → Triple (At ctrl) c (λ _. At ctrl))
    → Triple (Deep n) c (λ _. Deep n)
Deep-of_At {A} n c keeps v (wf, e) = weaken (c v) (keeps v.ctrl_stack v (wf, refl))
  where
    weaken :
        (r : Outcome ValidateError (A × Validator))
        → Ensures (λ _. At v.ctrl_stack) r
        → Ensures (λ _. Deep n) r
    weaken (ok (a, w)) (wf', e') = (wf', ap length e' ∙ e)
    weaken (Outcome.err x) h = tt
    weaken panic h = h

snapshot_fits :
    (n : ℕ) (c : Bool) (inits : List Bool)
    → length inits ≡ n
    → SnapshotFits n (if c then some inits else none)
snapshot_fits n true inits h = h
snapshot_fits n false inits h = tt

pub push_ctrl-keeps :
    (ctrl : List ControlFrame) (kind : FrameKind) (ins outs : List ValType)
    → Triple (At ctrl) (push_ctrl kind ins outs) (λ _. Deep (suc (length ctrl)))
unfolding push_ctrl
push_ctrl-keeps ctrl kind ins outs v (wf, e) = (
  record {
    nested = (omega arith, wf.nested);
    inits = wf.inits;
    snapshots = (
      snapshot_fits (length v.local_types) v.has_non_defaultable v.local_inits wf.inits,
      wf.snapshots,
    );
  },
  ap (λ fs. suc (length fs)) e,
)

pub enter_block-keeps :
    (ctrl : List ControlFrame) (kind : FrameKind) (bt : FuncType)
    → NonEmpty ctrl
    → Triple (At ctrl) (enter_block kind bt) (λ _. Deep (suc (length ctrl)))
unfolding enter_block
enter_block-keeps ctrl kind bt ne =
    Triple->>= (At ctrl) (λ _. At ctrl) (λ _. Deep (suc (length ctrl)))
      (pop_expecting_types bt.params)
      (λ _. push_ctrl kind bt.params bt.results >>= λ _. push_types bt.params)
      (pop_expecting_types-keeps ctrl ne bt.params)
      λ _.
        Triple->>= (At ctrl) (λ _. Deep (suc (length ctrl))) (λ _. Deep (suc (length ctrl)))
          (push_ctrl kind bt.params bt.results) (λ _. push_types bt.params)
          (push_ctrl-keeps ctrl kind bt.params bt.results)
          λ _.
            Deep-of_At (suc (length ctrl)) (push_types bt.params) λ c. push_types-keeps c bt.params

-- What a snapshot of this length puts back.
restore_keeps :
    (ctrl : List ControlFrame) (s : Option (List Bool)) (v : Validator)
    → SnapshotFits (length v.local_types) s
    → At ctrl v
    → Ensures (λ _. At ctrl) (restore s v)
restore_keeps ctrl none v fits at = at
restore_keeps ctrl (some s) v fits (wf, e) =
    let level : (length s == length v.local_inits) ≡ true = ground (arith, wf.inits) in
    rw level (record { nested = wf.nested; inits = fits; snapshots = wf.snapshots }, e)

module _ (f : ControlFrame) (fs : List ControlFrame) where
  leave_keeps :
      (v : Validator)
      → At (f ∷ fs) v
      → length v.op_stack ≡ f.height
      → Ensures (λ _. At fs) (leave f v)
  leave_keeps v (wf, e) at =
      let nested : Nested (length v.op_stack) (f ∷ fs) =
        subst (Nested (length v.op_stack)) e wf.nested in
      let snapshots : Snapshots (length v.local_types) (f ∷ fs) =
        subst (Snapshots (length v.local_types)) e wf.snapshots in
      let left : drop 1 v.ctrl_stack ≡ fs = ap (drop 1) e in
      restore_keeps fs f.init_snapshot (record v { ctrl_stack = drop 1 v.ctrl_stack }) snapshots.0
        (
          record {
            nested =
                subst (Nested (length v.op_stack)) (sym left)
                  (subst (λ n. Nested n fs) (sym at) nested.1);
            inits = wf.inits;
            snapshots = subst (Snapshots (length v.local_types)) (sym left) snapshots.1;
          },
          left,
        )

  left_keeps :
      Triple
        (λ v. At (f ∷ fs) v × (length v.op_stack ≡ f.height))
        (leave f >>= λ _. pure f)
        (λ g w. (g ≡ f) × At fs w)
  left_keeps =
      Triple->>= (λ v. At (f ∷ fs) v × (length v.op_stack ≡ f.height)) (λ _. At fs)
        (λ g w. (g ≡ f) × At fs w) (leave f) (λ _. pure f) (λ v (at, level). leave_keeps v at level)
        λ _ w at. (refl, at)

  end_keeps :
      Triple
        (At (f ∷ fs))
        (get >>= λ v.
          guard (length v.op_stack == f.height) type_mismatch >>= λ _. leave f >>= λ _. pure f)
        (λ g w. (g ≡ f) × At fs w)
  end_keeps v at = elim (Bool-cases (length v.op_stack == f.height)) [
    | inl level ↦ rw level (left_keeps v (at, ground arith))
    | inr above ↦ rw above tt
  ]

  end_frame-keeps : Triple (At (f ∷ fs)) (end_frame f) (λ g w. (g ≡ f) × At fs w)
  unfolding end_frame
  end_frame-keeps =
      Triple->>= (At (f ∷ fs)) (λ _. At (f ∷ fs)) (λ g w. (g ≡ f) × At fs w)
        (pop_expecting_types f.end_types) _ (pop_expecting_types-keeps (f ∷ fs) tt f.end_types)
        (λ _. end_keeps)

  -- Leaving a block takes its frame off.
  top_keeps :
      (ctrl : List ControlFrame) (v : Validator)
      → WellFormed v
      → v.ctrl_stack ≡ ctrl
      → ctrl ≡ f ∷ fs
      → Ensures (λ g w. (g ≡ f) × At (f ∷ fs) w) (top_of ctrl v)
  top_keeps [] v wf e is = absurd (cc)
  top_keeps (g ∷ gs) v wf e is = (ground arith, (wf, e ∙ is))

  pub pop_ctrl-keeps : Triple (At (f ∷ fs)) pop_ctrl (λ g w. (g ≡ f) × At fs w)
  unfolding pop_ctrl
  pop_ctrl-keeps =
      Triple->>= (At (f ∷ fs)) (λ g w. (g ≡ f) × At (f ∷ fs) w) (λ g w. (g ≡ f) × At fs w) top_frame
        end_frame (λ v (wf, e). top_keeps v.ctrl_stack v wf refl e)
        λ g v (same, at).
          subst (λ h. Ensures (λ g w. (g ≡ f) × At fs w) (end_frame h v)) (sym same)
            (end_frame-keeps v at)

flagged_keeps :
    (ctrl : List ControlFrame) (v : Validator)
    → NonEmpty ctrl
    → Nested (length v.op_stack) ctrl
    → length v.local_inits ≡ length v.local_types
    → Snapshots (length v.local_types) ctrl
    → Ensures (λ _. Deep (length ctrl)) (flagged ctrl v v)
flagged_keeps [] v ne n i s = absurd ne
flagged_keeps (f ∷ fs) v ne (below, rest) i s =
    let inside : leb f.height (length v.op_stack) ≡ true = ground arith in
    rw inside (
      record {
        nested = (omega (arith, length-drop (length v.op_stack - f.height) v.op_stack), rest);
        inits = i;
        snapshots = s;
      },
      refl,
    )

pub set_unreachable-keeps :
    (ctrl : List ControlFrame)
    → NonEmpty ctrl
    → Triple (At ctrl) set_unreachable (λ _. Deep (length ctrl))
unfolding set_unreachable
set_unreachable-keeps ctrl ne v (wf, e) =
    subst (λ c. Ensures (λ _. Deep (length c)) (flagged v.ctrl_stack v v)) e
      (flagged_keeps v.ctrl_stack v (subst NonEmpty (sym e) ne) wf.nested wf.inits wf.snapshots)

-- Labels.
module _ (ctrl : List ControlFrame) where
  pub frame_at-keeps :
      (label : ℕ) → label < length ctrl → Triple (At ctrl) (frame_at label) (λ _. At ctrl)
  unfolding frame_at
  frame_at-keeps label lt v (wf, e) =
      let (f, found) =
        get_elem?-some v.ctrl_stack label (subst (λ c. label < length c) (sym e) lt) in
      subst (λ o. Ensures (λ _. At ctrl) (elim o [ none ↦ panic | some f ↦ pure f v ])) (sym found)
        (wf, e)

  pub check_label-keeps :
      (label : ℕ) → Triple (At ctrl) (check_label label) (λ _ v. (label < length ctrl) × At ctrl v)
  check_label-keeps label v (wf, e) = elim (Bool-cases (ltb label (length v.ctrl_stack))) [
    | inl known ↦ rw known (subst (λ c. label < length c) e (ground arith), (wf, e))
    | inr unknown ↦ rw unknown tt
  ]

  pub check_labels-keeps :
      (ls : List ℕ)
      → Triple (At ctrl) (check_labels ls) (λ _ v. All (λ l. l < length ctrl) ls × At ctrl v)
  unfolding check_labels
  check_labels-keeps [] = λ v at. (tt, at)
  check_labels-keeps (l ∷ ls) =
      Triple->>= (At ctrl) (λ _ v. (l < length ctrl) × At ctrl v)
        (λ _ v. All (λ l. l < length ctrl) (l ∷ ls) × At ctrl v) (check_label l)
        (λ _. check_labels ls) (check_label-keeps l)
        λ _ v (lt, at).
          Ensures-map (λ _ w (all, at'). ((lt, all), at')) (check_labels ls v)
            (check_labels-keeps ls v at)

  pub check_arities-keeps :
      (arity : ℕ) (ls : List ℕ)
      → All (λ l. l < length ctrl) ls
      → Triple (At ctrl) (check_arities arity ls) (λ _. At ctrl)
  unfolding check_arities
  check_arities-keeps arity [] all = λ v at. at
  check_arities-keeps arity (l ∷ ls) (lt, all) =
      Triple->>= (At ctrl) (λ _. At ctrl) (λ _. At ctrl) (frame_at l) _ (frame_at-keeps l lt)
        λ frame.
          guard_keeps (At ctrl) (λ _. At ctrl) (check_arities arity ls)
            (length (label_types frame) == arity) type_mismatch (check_arities-keeps arity ls all)

  -- The outermost frame of a stack that has one.
  pub last_frame-keeps :
      (fs : List ControlFrame) → NonEmpty fs → Triple (At ctrl) (last_frame fs) (λ _. At ctrl)
  last_frame-keeps [] ne = absurd ne
  last_frame-keeps (f ∷ []) ne = λ v at. at
  last_frame-keeps (f ∷ g ∷ fs) ne = last_frame-keeps (g ∷ fs) tt
