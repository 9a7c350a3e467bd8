-- ===== src/Gc/Sweep.antt =====
-- What sweeping leaves in each slot.
use native.Mathlib.Decide.{dec_lt}
use zwasm.Base.{
  ℕ, zero, suc, ◌+◌, ◌≤◌, ◌<◌, ◌≡◌, refl, sym, ap, ◌∙◌, arith, ◌⊎◌, inl, inr, true, false, Option,
  none, some, List, [], ◌∷◌, leb, ◌==◌, if◌then◌else◌, length, get_elem?, set, Option-cases,
  Bool-cases, ==_iff,
}
use zwasm.Gc.{GcSlot, GcHeap, obj_at, free_slot, sweep_from}
use zwasm.Gc.Marking.{marked_at, obj_at-none, obj_at-some, marked_at-some, is_unmarked_cases}

abbrev empty_slot : Option ℕ → GcSlot
empty_slot next = record { obj = none; marked = false; next_free = next }

obj_at-empty :
    (slots : List GcSlot) (a b : ℕ) (next : Option ℕ)
    → obj_at (set slots a (empty_slot next)) b ≡ (if a == b then none else obj_at slots b)
obj_at-empty [] a b next = ground arith
obj_at-empty (x ∷ slots) zero zero next = refl
obj_at-empty (x ∷ slots) zero (suc b) next = ground arith
obj_at-empty (x ∷ slots) (suc a) zero next = ground arith
obj_at-empty (x ∷ slots) (suc a) (suc b) next = obj_at-empty slots a b next ∙ ground arith

marked_at-empty :
    (slots : List GcSlot) (a b : ℕ) (next : Option ℕ)
    → marked_at (set slots a (empty_slot next)) b ≡ (if a == b then false else marked_at slots b)
marked_at-empty [] a b next = ground arith
marked_at-empty (x ∷ slots) zero zero next = refl
marked_at-empty (x ∷ slots) zero (suc b) next = ground arith
marked_at-empty (x ∷ slots) (suc a) zero next = ground arith
marked_at-empty (x ∷ slots) (suc a) (suc b) next = marked_at-empty slots a b next ∙ ground arith

get_elem?_beyond : (slots : List GcSlot) (b : ℕ) → length slots ≤ b → get_elem? slots b ≡ none
get_elem?_beyond [] b h = refl
get_elem?_beyond (x ∷ slots) zero h = absurd (omega arith)
get_elem?_beyond (x ∷ slots) (suc b) h = get_elem?_beyond slots b (omega arith)

pub obj_at-beyond : (slots : List GcSlot) (b : ℕ) → length slots ≤ b → obj_at slots b ≡ none
obj_at-beyond slots b h = obj_at-none slots b (get_elem?_beyond slots b h)

-- A slot that is freed is inside, when it was found.
free_slot-slots :
    (a : ℕ) (h : GcHeap)
    → a < length h.slots
    → (free_slot a h).slots ≡ set h.slots a (empty_slot h.free_head)
unfolding free_slot
free_slot-slots a h inside =
    let test : leb (length h.slots) a ≡ false = ground arith in rw (free_slot, test) refl

pub get_elem?_inside :
    (slots : List GcSlot) (a : ℕ) (s : GcSlot) → get_elem? slots a ≡ some s → a < length slots
get_elem?_inside slots a s e = elim (dec_lt a (length slots)) [
  | yes p ↦ p
  | no p ↦ cc (e, get_elem?_beyond slots a (omega arith))
]

-- One round of the loop keeps the heap, where there is nothing to free, or frees an unmarked slot.
sweep_from-cases :
    (n i : ℕ) (h : GcHeap)
    → (sweep_from (suc n) i h ≡ sweep_from n (i + 1) h)
        × ((obj_at h.slots i ≡ none) ⊎ (marked_at h.slots i ≡ true))
      ⊎ (sweep_from (suc n) i h ≡ sweep_from n (i + 1) (free_slot i h))
        × (i < length h.slots)
        × (marked_at h.slots i ≡ false)
unfolding sweep_from
sweep_from-cases n i h = elim (Option-cases (get_elem? h.slots i)) [
  | inl e ↦ inl (rw (sweep_from, e) refl, inl (obj_at-none h.slots i e))
  | inr (s, e) ↦ elim (is_unmarked_cases s) [
    | inl (test, live, m) ↦ inr (
      rw (sweep_from, e, test) refl,
      get_elem?_inside h.slots i s e,
      marked_at-some h.slots i s e ∙ m,
    )
    | inr (test, why) ↦ inl (
      rw (sweep_from, e, test) refl,
      elim why [
        | inl g ↦ inl (obj_at-some h.slots i s e ∙ g)
        | inr m ↦ inr (marked_at-some h.slots i s e ∙ m)
      ],
    )
  ]
]

module _ (i : ℕ) (h : GcHeap) (inside : i < length h.slots) where
  obj_at-free_slot :
      (b : ℕ) → obj_at (free_slot i h).slots b ≡ (if i == b then none else obj_at h.slots b)
  obj_at-free_slot b =
      ap (λ t. obj_at t b) (free_slot-slots i h inside) ∙ obj_at-empty h.slots i b h.free_head

  marked_at-free_slot :
      (b : ℕ) → marked_at (free_slot i h).slots b ≡ (if i == b then false else marked_at h.slots b)
  marked_at-free_slot b =
      ap (λ t. marked_at t b) (free_slot-slots i h inside) ∙ marked_at-empty h.slots i b h.free_head

-- A slot is as it was, or free.
pub sweep_from-same :
    (n i : ℕ) (h : GcHeap) (b : ℕ)
    → (obj_at (sweep_from n i h).slots b ≡ obj_at h.slots b)
      ⊎ (obj_at (sweep_from n i h).slots b ≡ none)
unfolding sweep_from
sweep_from-same zero i h b = inl refl
sweep_from-same (suc n) i h b = elim (sweep_from-cases n i h) [
  | inl (e, why) ↦ elim (sweep_from-same n (i + 1) h b) [
    | inl f ↦ inl (ap (λ (t : GcHeap). obj_at t.slots b) e ∙ f)
    | inr f ↦ inr (ap (λ (t : GcHeap). obj_at t.slots b) e ∙ f)
  ]
  | inr (e, inside, m) ↦ elim (sweep_from-same n (i + 1) (free_slot i h) b) [
    | inl f ↦
        let whole = ap (λ (t : GcHeap). obj_at t.slots b) e ∙ f ∙ obj_at-free_slot i h inside b in
        elim (Bool-cases (i == b)) [
          | inl t ↦ inr (whole ∙ ap (λ x. if x then none else obj_at h.slots b) t)
          | inr t ↦ inl (whole ∙ ap (λ x. if x then none else obj_at h.slots b) t)
        ]
    | inr f ↦ inr (ap (λ (t : GcHeap). obj_at t.slots b) e ∙ f)
  ]
]

-- Marked slots stay.
pub sweep_from-marked :
    (n i : ℕ) (h : GcHeap) (b : ℕ)
    → marked_at h.slots b ≡ true
    → obj_at (sweep_from n i h).slots b ≡ obj_at h.slots b
unfolding sweep_from
sweep_from-marked zero i h b m = refl
sweep_from-marked (suc n) i h b m = elim (sweep_from-cases n i h) [
  | inl (e, why) ↦ ap (λ (t : GcHeap). obj_at t.slots b) e ∙ sweep_from-marked n (i + 1) h b m
  | inr (e, inside, u) ↦ elim (Bool-cases (i == b)) [
    | inl t ↦ let same : i ≡ b = (==_iff i b).0 t in cc (m, u, ap (marked_at h.slots) same)
    | inr t ↦
        let still : marked_at (free_slot i h).slots b ≡ true =
          marked_at-free_slot i h inside b
          ∙ ap (λ x. if x then false else marked_at h.slots b) t
          ∙ m in
        ap (λ (t : GcHeap). obj_at t.slots b) e
        ∙ sweep_from-marked n (i + 1) (free_slot i h) b still
        ∙ obj_at-free_slot i h inside b
        ∙ ap (λ x. if x then none else obj_at h.slots b) t
  ]
]

-- A free slot stays free.
pub sweep_from-free :
    (n i : ℕ) (h : GcHeap) (b : ℕ)
    → obj_at h.slots b ≡ none
    → obj_at (sweep_from n i h).slots b ≡ none
sweep_from-free n i h b e = elim (sweep_from-same n i h b) [ inl f ↦ f ∙ e | inr f ↦ f ]

-- Slots in reach of the loop without a mark are free behind it.
pub sweep_from-unmarked :
    (n i : ℕ) (h : GcHeap) (b : ℕ)
    → i ≤ b
    → b < i + n
    → marked_at h.slots b ≡ false
    → obj_at (sweep_from n i h).slots b ≡ none
unfolding sweep_from
sweep_from-unmarked zero i h b low high m = absurd (omega arith)
sweep_from-unmarked (suc n) i h b low high m = elim (sweep_from-cases n i h) [
  | inl (e, why) ↦ elim (Bool-cases (i == b)) [
    | inl t ↦
        let same : i ≡ b = (==_iff i b).0 t in
        let gone : obj_at h.slots b ≡ none = elim why [
          | inl g ↦ ap (obj_at h.slots) (sym same) ∙ g
          | inr k ↦ cc (m, k, ap (marked_at h.slots) same)
        ] in
        ap (λ (t : GcHeap). obj_at t.slots b) e ∙ sweep_from-free n (i + 1) h b gone
    | inr t ↦
        ap (λ (t : GcHeap). obj_at t.slots b) e
        ∙ sweep_from-unmarked n (i + 1) h b (ground arith) (omega arith) m
  ]
  | inr (e, inside, u) ↦ elim (Bool-cases (i == b)) [
    | inl t ↦
        ap (λ (t : GcHeap). obj_at t.slots b) e
        ∙ sweep_from-free n (i + 1) (free_slot i h) b
            (obj_at-free_slot i h inside b ∙ ap (λ x. if x then none else obj_at h.slots b) t)
    | inr t ↦
        ap (λ (t : GcHeap). obj_at t.slots b) e
        ∙ sweep_from-unmarked n (i + 1) (free_slot i h) b (ground arith) (omega arith) (
            marked_at-free_slot i h inside b
            ∙ ap (λ x. if x then false else marked_at h.slots b) t
            ∙ m)
  ]
]
