-- ===== src/Gc/Tests.antt =====
-- A small heap: the first object refers to the second, nothing to the third.
use zwasm.Base.{ℕ, ◌≡◌, refl, ◌⊎◌, ◌↔◌, true, false, none, some, [], ◌∷◌, ◌==◌, if◌then◌else◌}
use zwasm.Gc.{
  GcSlot, GcObject, struct_obj, array_obj, GcHeap, fresh, encode_ref, decode_ref, is_gc_ref,
  ref_addr, obj_at, is_unmarked, clear_marks, try_enqueue, alloc_slot, enqueue_all,
  drain_mark_queue, mark_roots, free_slot, sweep_from, count_live, adapt_threshold, collect,
}
use zwasm.Gc.Marking.{Live}
use zwasm.Gc.Reach.{Reachable}
use zwasm.Gc.Collect.{collect_lem}
use zwasm.Gc.FreeList.{end, link, IsValid, Allocates, alloc_slot-Allocates, free_slot-IsValid}

abbrev second : GcObject
second = array_obj 1 (7 ∷ [])

-- `encode_ref 1` is the first field.
abbrev heap : GcHeap
heap = record {
  slots = fresh (struct_obj 0 (0x1_0000_0002 ∷ 5 ∷ [])) ∷ fresh second ∷ fresh second ∷ [];
  free_head = none;
  alloc_since_gc = 3;
  gc_threshold = 1024;
}

encode_ref_one : encode_ref 1 ≡ 0x1_0000_0002
unfolding encode_ref
encode_ref_one = refl

ref_addr_one : ref_addr 0x1_0000_0002 ≡ some 1
unfolding ref_addr is_gc_ref decode_ref
ref_addr_one = refl

-- What is left when the first object is the root.
abbrev expected : GcHeap
expected = record {
  slots =
      record { obj = some (struct_obj 0 (0x1_0000_0002 ∷ 5 ∷ [])); marked = true; next_free = none }
      ∷ record { obj = some second; marked = true; next_free = none }
      ∷ record { obj = none; marked = false; next_free = none }
      ∷ [];
  free_head = some 2;
  alloc_since_gc = 0;
  gc_threshold = 1024;
}

collect_run : collect (0x1_0000_0001 ∷ []) heap ≡ some expected
unfolding collect mark_roots clear_marks enqueue_all try_enqueue is_unmarked ref_addr is_gc_ref
    decode_ref drain_mark_queue sweep_from free_slot count_live adapt_threshold
collect_run = refl

collect_lem_example :
    (h' : GcHeap) × (collect (0x1_0000_0001 ∷ []) heap ≡ some h')
    × ((b : ℕ) → Live h'.slots b ↔ Reachable heap.slots (0x1_0000_0001 ∷ []) b)
    × ((b : ℕ) → (obj_at h'.slots b ≡ obj_at heap.slots b) ⊎ (obj_at h'.slots b ≡ none))
    × (h'.alloc_since_gc ≡ 0)
collect_lem_example = collect_lem (0x1_0000_0001 ∷ []) heap

-- The third slot is free.
abbrev free_third : GcSlot
free_third = record { obj = none; marked = false; next_free = none }

abbrev with_free : GcHeap
with_free = record {
  slots = fresh (struct_obj 0 []) ∷ fresh second ∷ free_third ∷ [];
  free_head = some 2;
  alloc_since_gc = 3;
  gc_threshold = 1024;
}

with_free-IsValid : IsValid with_free
with_free-IsValid = record {
  chain = 2 ∷ [];
  linked = link free_third refl refl end;
  distinct = (λ h. h, tt);
}

alloc_slot-Allocates_example :
    (addr : ℕ) × (h' : GcHeap) × (alloc_slot second with_free ≡ some (addr, h'))
    × Allocates second with_free addr h'
alloc_slot-Allocates_example = alloc_slot-Allocates second with_free with_free-IsValid

free_slot-IsValid_example :
    IsValid (free_slot 1 with_free)
    × ((b : ℕ)
        → obj_at (free_slot 1 with_free).slots b
          ≡ (if 1 == b then none else obj_at with_free.slots b))
free_slot-IsValid_example = free_slot-IsValid 1 with_free with_free-IsValid (second, refl)
