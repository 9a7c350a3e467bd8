-- ===== src/Gc/Marking.antt =====
-- What marking a list of values does: to the marks, to the queue, and to nothing else.
use zwasm.Base.{
  ℕ, zero, suc, ◌+◌, ◌≡◌, refl, sym, ap, ◌∙◌, arith, ◌⊎◌, inl, inr, Bool, true, false, Option, none,
  some, List, [], ◌∷◌, ◌++◌, ◌==◌, if◌then◌else◌, get_elem?, set, Option-cases, Bool-cases,
}
use zwasm.Gc.{GcObject, GcSlot, obj_at, ref_addr, is_unmarked, try_enqueue}

abbrev pub In : ℕ → List ℕ → Type 0
In x [] = ⊥
In x (y ∷ ys) = (x ≡ y) ⊎ In x ys

pub In-left : (x : ℕ) (xs ys : List ℕ) → In x xs → In x (xs ++ ys)
In-left x [] ys h = elim h [ ]
In-left x (y ∷ xs) ys (inl e) = inl e
In-left x (y ∷ xs) ys (inr h) = inr (In-left x xs ys h)

pub In-last : (x : ℕ) (xs : List ℕ) → In x (xs ++ x ∷ [])
In-last x [] = inl refl
In-last x (y ∷ xs) = inr (In-last x xs)

pub In-last_cases : (x a : ℕ) (xs : List ℕ) → In x (xs ++ a ∷ []) → In x xs ⊎ (x ≡ a)
In-last_cases x a [] (inl e) = inr e
In-last_cases x a [] (inr h) = elim h [ ]
In-last_cases x a (y ∷ xs) (inl e) = inl (inl e)
In-last_cases x a (y ∷ xs) (inr h) = elim (In-last_cases x a xs h) [
  | inl old ↦ inl (inr old)
  | inr e ↦ inr e
]

abbrev pub marked_at : List GcSlot → ℕ → Bool
marked_at slots addr = elim (get_elem? slots addr) [ none ↦ false | some slot ↦ slot.marked ]

abbrev pub Live : List GcSlot → ℕ → Type 0
Live slots addr = (obj : GcObject) × (obj_at slots addr ≡ some obj)

abbrev pub unmarked : List GcSlot → ℕ
unmarked [] = 0
unmarked (slot ∷ slots) = (if slot.marked then 0 else 1) + unmarked slots

abbrev pub mark_slot : GcSlot → GcSlot
mark_slot slot = record slot { marked = true }

pub obj_at-set :
    (slots : List GcSlot) (a b : ℕ) (s : GcSlot)
    → get_elem? slots a ≡ some s
    → obj_at (set slots a (mark_slot s)) b ≡ obj_at slots b
obj_at-set [] a b s e = refl
obj_at-set (x ∷ slots) zero zero s e =
    let same : x ≡ s = cc e in ap (λ (t : GcSlot). t.obj) (sym same)
obj_at-set (x ∷ slots) zero (suc b) s e = refl
obj_at-set (x ∷ slots) (suc a) zero s e = refl
obj_at-set (x ∷ slots) (suc a) (suc b) s e = obj_at-set slots a b s e

pub marked_at-set :
    (slots : List GcSlot) (a b : ℕ) (s : GcSlot)
    → get_elem? slots a ≡ some s
    → marked_at (set slots a (mark_slot s)) b ≡ (if a == b then true else marked_at slots b)
marked_at-set [] a b s e = cc e
marked_at-set (x ∷ slots) zero zero s e = refl
marked_at-set (x ∷ slots) zero (suc b) s e = ground arith
marked_at-set (x ∷ slots) (suc a) zero s e = ground arith
marked_at-set (x ∷ slots) (suc a) (suc b) s e = marked_at-set slots a b s e ∙ ground arith

pub unmarked-set :
    (slots : List GcSlot) (a : ℕ) (s : GcSlot)
    → get_elem? slots a ≡ some s
    → s.marked ≡ false
    → unmarked (set slots a (mark_slot s)) + 1 ≡ unmarked slots
unmarked-set [] a s e h = cc e
unmarked-set (x ∷ slots) zero s e h =
    let same : x ≡ s = cc e in
    let low : x.marked ≡ false = ap (λ (t : GcSlot). t.marked) same ∙ h in rw low (omega arith)
unmarked-set (x ∷ slots) (suc a) s e h = omega (arith, unmarked-set slots a s e h)

-- One value: nothing happens, and what it refers to, if it lives, is marked already; or its object
-- was not marked, and now is, and waits in the queue.
abbrev pub Skips : ℕ → List GcSlot → List ℕ → Type 0
Skips val slots queue =
    (try_enqueue val slots queue ≡ (slots, queue))
    × ((b : ℕ) → ref_addr val ≡ some b → Live slots b → marked_at slots b ≡ true)

abbrev pub Marks : ℕ → List GcSlot → List ℕ → Type 0
Marks val slots queue =
    (a : ℕ) × (s : GcSlot) × (ref_addr val ≡ some a)
    × (get_elem? slots a ≡ some s)
    × Live slots a
    × (s.marked ≡ false)
    × (try_enqueue val slots queue ≡ (set slots a (mark_slot s), queue ++ a ∷ []))

pub obj_at-none : (slots : List GcSlot) (a : ℕ) → get_elem? slots a ≡ none → obj_at slots a ≡ none
obj_at-none slots a f = ap (λ (o : Option GcSlot). elim o [ none ↦ none | some s ↦ s.obj ]) f

pub obj_at-some :
    (slots : List GcSlot) (a : ℕ) (s : GcSlot) → get_elem? slots a ≡ some s → obj_at slots a ≡ s.obj
obj_at-some slots a s f = ap (λ (o : Option GcSlot). elim o [ none ↦ none | some s ↦ s.obj ]) f

pub marked_at-some :
    (slots : List GcSlot) (a : ℕ) (s : GcSlot)
    → get_elem? slots a ≡ some s
    → marked_at slots a ≡ s.marked
marked_at-some slots a s f =
    ap (λ (o : Option GcSlot). elim o [ none ↦ false | some s ↦ s.marked ]) f

-- What the test on a slot says.
pub is_unmarked_cases :
    (s : GcSlot)
    → (is_unmarked s ≡ true) × ((obj : GcObject) × (s.obj ≡ some obj)) × (s.marked ≡ false)
      ⊎ (is_unmarked s ≡ false) × ((s.obj ≡ none) ⊎ (s.marked ≡ true))
unfolding is_unmarked
is_unmarked_cases s = elim (Option-cases s.obj) [
  | inl e ↦ inr (rw (is_unmarked, e) refl, inl e)
  | inr (o, e) ↦ elim (Bool-cases s.marked) [
    | inl m ↦ inr (rw (is_unmarked, e, m) refl, inr m)
    | inr m ↦ inl (rw (is_unmarked, e, m) refl, (o, e), m)
  ]
]

pub try_enqueue-cases :
    (val : ℕ) (slots : List GcSlot) (queue : List ℕ) → Skips val slots queue ⊎ Marks val slots queue
unfolding try_enqueue
try_enqueue-cases val slots queue = elim (Option-cases (ref_addr val)) [
  | inl e ↦ inl (rw (try_enqueue, e) refl, λ b f live. cc (e, f))
  | inr (a, e) ↦ elim (Option-cases (get_elem? slots a)) [
    | inl f ↦ inl (
      rw (try_enqueue, e, f) refl,
      λ b g (obj, live).
          (let same : a ≡ b = cc (e, g) in
            cc (obj_at-none slots a f, ap (obj_at slots) same, live)),
    )
    | inr (s, f) ↦ elim (is_unmarked_cases s) [
      | inl (test, (obj, g), m) ↦
          inr (a, s, e, f, (obj, obj_at-some slots a s f ∙ g), m, rw (try_enqueue, e, f, test) refl)
      | inr (test, why) ↦ inl (
        rw (try_enqueue, e, f, test) refl,
        λ b k (obj, live).
            (let same : a ≡ b = cc (e, k) in
              elim why [
                | inl g ↦ cc (obj_at-some slots a s f, g, ap (obj_at slots) same, live)
                | inr m ↦ ap (marked_at slots) (sym same) ∙ marked_at-some slots a s f ∙ m
              ]),
      )
    ]
  ]
]
