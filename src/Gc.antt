-- ===== src/Gc.antt =====
-- src/gc.zig, the heap of garbage-collected objects: slots with a free list, and mark-and-sweep.
-- A slot's address is its place in the list. The arena gives every object a region of its own, so
-- fields are lists. Memory suffices, and the counters stay below 2 ^ 32.
pub mod Marking
pub mod Enqueue
pub mod Reach
pub mod Sweep
pub mod FreeList
pub mod Collect
pub mod Tests
use zwasm.Base.{
  ℕ, zero, suc, ◌+◌, ◌-◌, ◌*◌, ◌/◌, ◌^◌, Bool, true, false, ◌&&◌, not, Option, none, some, List, [],
  ◌∷◌, ◌++◌, map, ltb, leb, ◌==◌, if◌then◌else◌, length, get_elem?, set, replicate, min, max,
  bit_and, bit_or,
}

pub data GcObject : Type 0 where
  struct_obj : (type_idx : ℕ) (fields : List ℕ) → GcObject
  array_obj : (type_idx : ℕ) (elements : List ℕ) → GcObject

pub record GcSlot : Type 0 where
  -- `none`: a free slot
  pub obj : Option GcObject
  pub marked : Bool
  pub next_free : Option ℕ

pub record GcHeap : Type 0 where
  pub slots : List GcSlot
  pub free_head : Option ℕ
  pub alloc_since_gc : ℕ
  pub gc_threshold : ℕ

abbrev pub gc_threshold_default : ℕ
gc_threshold_default = 1024

abbrev pub new_heap : GcHeap
new_heap = record {
  slots = [];
  free_head = none;
  alloc_since_gc = 0;
  gc_threshold = gc_threshold_default;
}

-- The tags of a value on the operand stack.
abbrev pub i31_tag : ℕ
i31_tag = 2 ^ 63

abbrev pub gc_tag : ℕ
gc_tag = 2 ^ 32

unfoldable pub encode_ref : ℕ → ℕ
encode_ref addr = bit_or (addr + 1) gc_tag

-- `none` is a trap.
unfoldable pub decode_ref : ℕ → Option ℕ
decode_ref val =
    if val == 0
    then none
    else if not (bit_and val i31_tag == 0)
    then none
    else if bit_and val 0xffff_ffff == 0
    then none
    else some (bit_and val 0xffff_ffff - 1)

unfoldable pub is_gc_ref : ℕ → Bool
is_gc_ref val = not (val == 0) && (bit_and val i31_tag == 0 && not (bit_and val gc_tag == 0))

unfoldable pub should_collect : GcHeap → Bool
should_collect h = leb h.gc_threshold h.alloc_since_gc

abbrev pub fresh : GcObject → GcSlot
fresh obj = record { obj = some obj; marked = false; next_free = none }

-- The address and the heap; `none` is a free list that leads out of the slots, which is a panic.
unfoldable pub alloc_slot : GcObject → GcHeap → Option (ℕ × GcHeap)
alloc_slot obj h = elim h.free_head [
  | none ↦ some (
    length h.slots,
    record h { slots = h.slots ++ fresh obj ∷ []; alloc_since_gc = h.alloc_since_gc + 1 },
  )
  | some head ↦ elim (get_elem? h.slots head) [
    | none ↦ none
    | some slot ↦ some (
      head,
      record h {
        slots = set h.slots head (fresh obj);
        free_head = slot.next_free;
        alloc_since_gc = h.alloc_since_gc + 1;
      },
    )
  ]
]

unfoldable pub alloc_struct : ℕ → List ℕ → GcHeap → Option (ℕ × GcHeap)
alloc_struct type_idx fields h = alloc_slot (struct_obj type_idx fields) h

-- `none` is also the trap on a length above 128 Mi.
unfoldable pub alloc_array : ℕ → ℕ → ℕ → GcHeap → Option (ℕ × GcHeap)
alloc_array type_idx len init_val h =
    if ltb (1024 * 1024 * 128) len
    then none
    else alloc_slot (array_obj type_idx (replicate len init_val)) h

unfoldable pub alloc_array_with_values : ℕ → List ℕ → GcHeap → Option (ℕ × GcHeap)
alloc_array_with_values type_idx values h = alloc_slot (array_obj type_idx values) h

-- What is in a slot; `get_object` traps where it is `none`.
abbrev pub obj_at : List GcSlot → ℕ → Option GcObject
obj_at slots addr = elim (get_elem? slots addr) [ none ↦ none | some slot ↦ slot.obj ]

unfoldable pub get_object : ℕ → GcHeap → Option GcObject
get_object addr h = obj_at h.slots addr

unfoldable pub free_slot : ℕ → GcHeap → GcHeap
free_slot addr h = if leb (length h.slots) addr then h else record h {
  slots = set h.slots addr (record { obj = none; marked = false; next_free = h.free_head });
  free_head = some addr;
}

abbrev pub unmark : GcSlot → GcSlot
unmark slot = record slot { marked = false }

unfoldable pub clear_marks : List GcSlot → List GcSlot
clear_marks slots = map unmark slots

-- The address that a value refers to, as `tryEnqueue` finds it.
unfoldable pub ref_addr : ℕ → Option ℕ
ref_addr val = if is_gc_ref val then decode_ref val else none

-- `slot.obj != null and !slot.marked`
unfoldable pub is_unmarked : GcSlot → Bool
is_unmarked slot = elim slot.obj [ none ↦ false | some obj ↦ not slot.marked ]

-- The slots and the queue after one value.
unfoldable pub try_enqueue : ℕ → List GcSlot → List ℕ → List GcSlot × List ℕ
try_enqueue val slots queue = elim (ref_addr val) [
  | none ↦ (slots, queue)
  | some addr ↦ elim (get_elem? slots addr) [
    | none ↦ (slots, queue)
    | some slot ↦
        if is_unmarked slot
        then (set slots addr (record slot { marked = true }), queue ++ addr ∷ [])
        else (slots, queue)
  ]
]

unfoldable pub enqueue_all : List ℕ → List GcSlot → List ℕ → List GcSlot × List ℕ
enqueue_all [] slots queue = (slots, queue)
enqueue_all (val ∷ vals) slots queue =
    let (slots', queue') = try_enqueue val slots queue in enqueue_all vals slots' queue'

abbrev pub values : GcObject → List ℕ
values (struct_obj t fields) = fields
values (array_obj t elements) = elements

abbrev pub values_at : List GcSlot → ℕ → List ℕ
values_at slots addr = elim (obj_at slots addr) [ none ↦ [] | some obj ↦ values obj ]

-- The queue from the cursor on. Each round marks what it appends, so the number of slots is enough
-- fuel; `none` is fuel that ran out.
unfoldable pub drain_mark_queue : ℕ → List GcSlot → List ℕ → Option (List GcSlot)
drain_mark_queue fuel slots [] = some slots
drain_mark_queue zero slots (addr ∷ queue) = none
drain_mark_queue (suc fuel) slots (addr ∷ queue) =
    let (slots', queue') = enqueue_all (values_at slots addr) slots queue in
    drain_mark_queue fuel slots' queue'

unfoldable pub mark_roots : List ℕ → List GcSlot → Option (List GcSlot)
mark_roots roots slots =
    let (slots', queue) = enqueue_all roots slots [] in drain_mark_queue (length slots) slots' queue

-- The loop of `sweep` over `n` slots from place `i` on.
unfoldable pub sweep_from : ℕ → ℕ → GcHeap → GcHeap
sweep_from zero i h = h
sweep_from (suc n) i h =
    let freed = sweep_from n (i + 1) (free_slot i h) in
    let kept = sweep_from n (i + 1) h in
    elim (get_elem? h.slots i) [
      | none ↦ kept
      | some slot ↦ if is_unmarked slot then freed else kept
    ]

unfoldable pub count_live : List GcSlot → ℕ
count_live [] = 0
count_live (slot ∷ slots) = elim slot.obj [
  | none ↦ count_live slots
  | some obj ↦ count_live slots + 1
]

-- `*|` stops at the largest u32; subtraction on ℕ is `-|`.
unfoldable pub adapt_threshold : ℕ → GcHeap → GcHeap
adapt_threshold live_before h =
    let live_after = count_live h.slots in
    let reclaimed = live_before - live_after in
    if ltb 0 live_before && ltb (reclaimed * 4) live_before
    then record h {
      gc_threshold =
          min (min (h.gc_threshold * 2) (2 ^ 32 - 1)) (max (live_after * 2) gc_threshold_default);
    }
    else if ltb 0 live_before && ltb (live_before * 3) (reclaimed * 4)
    then record h { gc_threshold = max (h.gc_threshold / 2) gc_threshold_default }
    else h

unfoldable pub collect : List ℕ → GcHeap → Option GcHeap
collect roots h = elim (mark_roots roots (clear_marks h.slots)) [
  | none ↦ none
  | some slots ↦
      let swept = sweep_from (length slots) 0 (record h { slots = slots }) in
      some (adapt_threshold (count_live h.slots) (record swept { alloc_since_gc = 0 }))
]
