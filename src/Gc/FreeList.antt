-- ===== src/Gc/FreeList.antt =====
-- The free list: a chain of free slots, none of them twice, from the head on.
use zwasm.Base.{
  ℕ, zero, suc, ◌+◌, ◌≡◌, ◌≢◌, refl, ap, ◌∙◌, arith, inl, inr, false, Option, none, some, List, [],
  ◌∷◌, ◌++◌, leb, ◌==◌, if◌then◌else◌, length, get_elem?, set, Option-cases,
}
use zwasm.Gc.{GcObject, GcSlot, GcHeap, fresh, obj_at, alloc_slot, free_slot}
use zwasm.Gc.Marking.{In, Live, obj_at-none, obj_at-some}
use zwasm.Gc.Sweep.{obj_at-beyond, get_elem?_inside}

pub data Chain (slots : List GcSlot) : Option ℕ → List ℕ → Type 0 where
  end : Chain slots none []
  link :
      {a : ℕ} {rest : List ℕ} (s : GcSlot)
      → get_elem? slots a ≡ some s
      → s.obj ≡ none
      → Chain slots s.next_free rest
      → Chain slots (some a) (a ∷ rest)

abbrev pub Distinct : List ℕ → Type 0
Distinct [] = Unit
Distinct (a ∷ as') = ((In a as') → ⊥) × Distinct as'

pub record IsValid (h : GcHeap) : Type 0 where
  pub chain : List ℕ
  pub linked : Chain h.slots h.free_head chain
  pub distinct : Distinct chain

get_elem?-set_same :
    (slots : List GcSlot) (a : ℕ) (s x : GcSlot)
    → get_elem? slots a ≡ some s
    → get_elem? (set slots a x) a ≡ some x
get_elem?-set_same [] a s x e = cc e
get_elem?-set_same (y ∷ slots) zero s x e = refl
get_elem?-set_same (y ∷ slots) (suc a) s x e = get_elem?-set_same slots a s x e

get_elem?-set_other :
    (slots : List GcSlot) (a b : ℕ) (x : GcSlot)
    → a ≢ b
    → get_elem? (set slots a x) b ≡ get_elem? slots b
get_elem?-set_other [] a b x ne = refl
get_elem?-set_other (y ∷ slots) zero zero x ne = absurd (ne refl)
get_elem?-set_other (y ∷ slots) zero (suc b) x ne = refl
get_elem?-set_other (y ∷ slots) (suc a) zero x ne = refl
get_elem?-set_other (y ∷ slots) (suc a) (suc b) x ne =
    get_elem?-set_other slots a b x (λ e. ne (ap suc e))

get_elem?-append :
    (slots : List GcSlot) (x s : GcSlot) (a : ℕ)
    → get_elem? slots a ≡ some s
    → get_elem? (slots ++ x ∷ []) a ≡ some s
get_elem?-append [] x s a e = cc e
get_elem?-append (y ∷ slots) x s zero e = e
get_elem?-append (y ∷ slots) x s (suc a) e = get_elem?-append slots x s a e

-- What the addresses find after a write, and after an append.
obj_at-write :
    (slots : List GcSlot) (a b : ℕ) (s x : GcSlot)
    → get_elem? slots a ≡ some s
    → obj_at (set slots a x) b ≡ (if a == b then x.obj else obj_at slots b)
obj_at-write [] a b s x e = cc e
obj_at-write (y ∷ slots) zero zero s x e = refl
obj_at-write (y ∷ slots) zero (suc b) s x e = ground arith
obj_at-write (y ∷ slots) (suc a) zero s x e = ground arith
obj_at-write (y ∷ slots) (suc a) (suc b) s x e = obj_at-write slots a b s x e ∙ ground arith

obj_at-append :
    (slots : List GcSlot) (x : GcSlot) (b : ℕ)
    → obj_at (slots ++ x ∷ []) b ≡ (if length slots == b then x.obj else obj_at slots b)
obj_at-append [] x zero = refl
obj_at-append [] x (suc b) = ground arith
obj_at-append (y ∷ slots) x zero = ground arith
obj_at-append (y ∷ slots) x (suc b) = obj_at-append slots x b ∙ ground arith

Chain-set :
    (slots : List GcSlot) (a : ℕ) (x : GcSlot) {head : Option ℕ} {chain : List ℕ}
    → Chain slots head chain
    → (In a chain → ⊥)
    → Chain (set slots a x) head chain
Chain-set slots a x end out = end
Chain-set slots a x (link {a = b} s e free rest) out =
    link s (get_elem?-set_other slots a b x (λ q. out (inl q)) ∙ e) free
      (Chain-set slots a x rest (λ q. out (inr q)))

Chain-append :
    (slots : List GcSlot) (x : GcSlot) {head : Option ℕ} {chain : List ℕ}
    → Chain slots head chain
    → Chain (slots ++ x ∷ []) head chain
Chain-append slots x end = end
Chain-append slots x (link {a = b} s e free rest) =
    link s (get_elem?-append slots x s b e) free (Chain-append slots x rest)

-- No live slot is in the chain.
Chain-Live :
    (slots : List GcSlot) (a : ℕ) {head : Option ℕ} {chain : List ℕ}
    → Chain slots head chain
    → Live slots a
    → In a chain
    → ⊥
Chain-Live slots a end live h = elim h [ ]
Chain-Live slots a (link {a = b} s e free rest) (obj, live) (inl q) =
    cc (obj_at-some slots b s e, free, live, ap (obj_at slots) q)
Chain-Live slots a (link s e free rest) live (inr q) = Chain-Live slots a rest live q

-- What an allocation promises: the place was free and now holds the object, and nothing else changes.
abbrev pub Allocates : GcObject → GcHeap → ℕ → GcHeap → Type 0
Allocates obj h addr h' =
    (obj_at h.slots addr ≡ none)
    × ((b : ℕ) → obj_at h'.slots b ≡ (if addr == b then some obj else obj_at h.slots b))
    × IsValid h'
    × (h'.alloc_since_gc ≡ h.alloc_since_gc + 1)

alloc_from :
    (obj : GcObject) (slots : List GcSlot) (n t : ℕ) {head : Option ℕ} {chain : List ℕ}
    → Chain slots head chain
    → Distinct chain
    → (addr : ℕ) × (h' : GcHeap) × (alloc_slot obj
          (record { slots = slots; free_head = head; alloc_since_gc = n; gc_threshold = t })
        ≡ some (addr, h'))
      × Allocates obj
          (record { slots = slots; free_head = head; alloc_since_gc = n; gc_threshold = t })
          addr
          h'
unfolding alloc_slot
alloc_from obj slots n t end distinct = (
  length slots,
  record {
    slots = slots ++ fresh obj ∷ [];
    free_head = none;
    alloc_since_gc = n + 1;
    gc_threshold = t;
  },
  refl,
  (
    obj_at-beyond slots (length slots) (omega arith),
    obj_at-append slots (fresh obj),
    record { chain = []; linked = end; distinct = tt },
    refl,
  ),
)
alloc_from obj slots n t (link {a} {rest = chain} s e free rest) (out, distinct) = (
  a,
  record {
    slots = set slots a (fresh obj);
    free_head = s.next_free;
    alloc_since_gc = n + 1;
    gc_threshold = t;
  },
  rw (alloc_slot, e) refl,
  (
    obj_at-some slots a s e ∙ free,
    λ b. obj_at-write slots a b s (fresh obj) e,
    record { chain = chain; linked = Chain-set slots a (fresh obj) rest out; distinct = distinct },
    refl,
  ),
)

-- On a heap with a valid free list an allocation never fails and never takes a live object's place:
-- the new object is at an address that was free, every other address holds what it held, and the
-- free list is valid.
pub alloc_slot-Allocates :
    (obj : GcObject) (h : GcHeap)
    → IsValid h
    → (addr : ℕ) × (h' : GcHeap) × (alloc_slot obj h ≡ some (addr, h')) × Allocates obj h addr h'
alloc_slot-Allocates obj h v =
    alloc_from obj h.slots h.alloc_since_gc h.gc_threshold v.linked v.distinct

-- Freeing a live slot keeps the free list valid, and frees this slot alone.
pub free_slot-IsValid :
    (a : ℕ) (h : GcHeap)
    → IsValid h
    → Live h.slots a
    → IsValid (free_slot a h)
      × ((b : ℕ) → obj_at (free_slot a h).slots b ≡ (if a == b then none else obj_at h.slots b))
unfolding free_slot
free_slot-IsValid a h v (obj, live) = elim (Option-cases (get_elem? h.slots a)) [
  | inl e ↦ cc (live, obj_at-none h.slots a e)
  | inr (s, e) ↦
      let x : GcSlot = record { obj = none; marked = false; next_free = h.free_head } in
      let test : leb (length h.slots) a ≡ false = ground (arith, get_elem?_inside h.slots a s e) in
      let out : In a v.chain → ⊥ = Chain-Live h.slots a v.linked (obj, live) in
      rw (free_slot, test)
        (
          record {
            chain = a ∷ v.chain;
            linked =
                link x (get_elem?-set_same h.slots a s x e) refl
                  (Chain-set h.slots a x v.linked out);
            distinct = (out, v.distinct);
          },
          λ b. obj_at-write h.slots a b s x e,
        )
]
