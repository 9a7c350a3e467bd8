-- ===== src/Gc/Collect.antt =====
-- A whole collection: what the roots reach stays, and the rest is free.
use mathlib.Core.Path.{subst}
use native.Mathlib.Decide.{dec_lt}
use zwasm.Base.{
  ℕ, zero, suc, ◌≡◌, refl, sym, ap, ◌∙◌, arith, ◌⊎◌, ◌↔◌, inl, inr, true, false, none, some, List,
  [], ◌∷◌, length, Bool-cases,
}
use zwasm.Gc.{GcSlot, GcHeap, obj_at, clear_marks, count_live, sweep_from, adapt_threshold, collect}
use zwasm.Gc.Marking.{marked_at, Live}
use zwasm.Gc.Reach.{Refers, Reachable, root, field, values_at-same, mark_roots_lem}
use zwasm.Gc.Sweep.{
  obj_at-beyond, sweep_from-same, sweep_from-marked, sweep_from-free, sweep_from-unmarked,
}

obj_at-clear_marks : (slots : List GcSlot) (b : ℕ) → obj_at (clear_marks slots) b ≡ obj_at slots b
unfolding clear_marks
obj_at-clear_marks [] b = refl
obj_at-clear_marks (s ∷ slots) zero = refl
obj_at-clear_marks (s ∷ slots) (suc b) = obj_at-clear_marks slots b

marked_at-clear_marks : (slots : List GcSlot) (b : ℕ) → marked_at (clear_marks slots) b ≡ false
unfolding clear_marks
marked_at-clear_marks [] b = refl
marked_at-clear_marks (s ∷ slots) zero = refl
marked_at-clear_marks (s ∷ slots) (suc b) = marked_at-clear_marks slots b

-- Reachability looks at the objects alone.
Reachable-same :
    (s t : List GcSlot) (roots : List ℕ)
    → ((b : ℕ) → obj_at t b ≡ obj_at s b)
    → (b : ℕ) → Reachable s roots b
    → Reachable t roots b
Reachable-same s t roots same b (root ((obj, live), why)) = root ((obj, same b ∙ live), why)
Reachable-same s t roots same b (field {a} reached ((obj, live), why)) =
    field (Reachable-same s t roots same a reached)
      (subst (λ v. Refers t v b) (sym (values_at-same s t a (same a))) ((obj, same b ∙ live), why))

Reachable-Live : (s : List GcSlot) (roots : List ℕ) (b : ℕ) → Reachable s roots b → Live s b
Reachable-Live s roots b (root (live, why)) = live
Reachable-Live s roots b (field reached (live, why)) = live

adapt_threshold-slots : (n : ℕ) (h : GcHeap) → (adapt_threshold n h).slots ≡ h.slots
unfolding adapt_threshold
adapt_threshold-slots n h = ground arith

adapt_threshold-alloc :
    (n : ℕ) (h : GcHeap) → (adapt_threshold n h).alloc_since_gc ≡ h.alloc_since_gc
unfolding adapt_threshold
adapt_threshold-alloc n h = ground arith

-- A collection ends. Behind it exactly the objects that the roots reach live, through any chain
-- of references; each slot holds what it held, or is free; and the count of allocations is 0.
pub collect_lem :
    (roots : List ℕ) (h : GcHeap)
    → (h' : GcHeap) × (collect roots h ≡ some h')
      × ((b : ℕ) → Live h'.slots b ↔ Reachable h.slots roots b)
      × ((b : ℕ) → (obj_at h'.slots b ≡ obj_at h.slots b) ⊎ (obj_at h'.slots b ≡ none))
      × (h'.alloc_since_gc ≡ 0)
unfolding collect
collect_lem roots h =
    let start : List GcSlot = clear_marks h.slots in
    let (slots, ends, same, exact) = mark_roots_lem roots start (marked_at-clear_marks h.slots) in
    let same' : (b : ℕ) → obj_at slots b ≡ obj_at h.slots b =
      λ b. same b ∙ obj_at-clear_marks h.slots b in
    let middle : GcHeap = record h { slots = slots } in
    let swept : GcHeap = sweep_from (length slots) 0 middle in
    let final : GcHeap =
      adapt_threshold (count_live h.slots) (record swept { alloc_since_gc = 0 }) in
    let kept : (b : ℕ) → obj_at final.slots b ≡ obj_at swept.slots b = λ b.
      ap (λ t. obj_at t b)
        (adapt_threshold-slots (count_live h.slots) (record swept { alloc_since_gc = 0 })) in
    (
      final,
      rw (collect, ends) refl,
      λ b. (
        λ (obj, live). elim (Bool-cases (marked_at slots b)) [
          | inl m ↦
              Reachable-same start h.slots roots (λ c. sym (obj_at-clear_marks h.slots c)) b
                ((exact b).0 m)
          | inr m ↦ elim (dec_lt b (length slots)) [
            | yes p ↦ cc (
              live,
              kept b,
              sweep_from-unmarked (length slots) 0 middle b (omega arith) (omega arith) m,
            )
            | no p ↦ cc (
              live,
              kept b,
              sweep_from-free (length slots) 0 middle b (obj_at-beyond slots b (omega arith)),
            )
          ]
        ],
        λ reached.
            (let (obj, live) = Reachable-Live h.slots roots b reached in
              let m : marked_at slots b ≡ true =
                (exact b).1
                  (Reachable-same h.slots start roots (obj_at-clear_marks h.slots) b reached) in
              (obj, kept b ∙ sweep_from-marked (length slots) 0 middle b m ∙ same' b ∙ live)),
      ),
      λ b. elim (sweep_from-same (length slots) 0 middle b) [
        | inl e ↦ inl (kept b ∙ e ∙ same' b)
        | inr e ↦ inr (kept b ∙ e)
      ],
      adapt_threshold-alloc (count_live h.slots) (record swept { alloc_since_gc = 0 }),
    )
