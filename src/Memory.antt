-- ===== src/Memory.antt =====
-- src/memory.zig: linear memory, and the growth of src/guard.zig on which it stands when the JIT
-- is on. `data` is the byte contents; a value of type T is a bit pattern of its width.
pub mod Grow
pub mod Access
pub mod Move
pub mod Wait
mod Tests
use zwasm.Base.{
  ℕ, zero, suc, ◌+◌, ◌-◌, ◌*◌, ◌/◌, ◌%◌, ◌^◌, min, Bool, true, false, ◌||◌, Option, none, some,
  List, [], ◌++◌, ltb, leb, ◌==◌, if◌then◌else◌, length, get_or, set, replicate,
}
use zwasm.Base.Slices.{slice, splice, le_bytes, le_value}

-- `panic` stands for a safety check of the language, which stops the program.
pub data Error : Type 0 where
  out_of_bounds_memory_access out_of_memory trap panic : Error

pub data Result {ℓ} (A : Type ℓ) : Type ℓ where
  ok : A → Result A
  err : Error → Result A

-- What the allocator and the operating system decide: whether the buffer can be resized to so
-- many bytes, and whether pages up to so many bytes can be committed; and the host's page size.
pub record System : Type 0 where
  pub resize_ok : ℕ → Bool
  pub commit_ok : ℕ → Bool
  pub host_page : ℕ

abbrev pub page_size_default : ℕ
page_size_default = 64 * 1024

abbrev pub max_pages : ℕ
max_pages = 64 * 1024

-- A thread that waits at `addr`; `signaled` once its condition has been signalled.
pub record Waiter : Type 0 where
  pub addr : ℕ
  pub signaled : Bool

-- `guard_mem` holds the accessible size of the reservation; its bytes are `data` itself.
pub record Memory : Type 0 where
  pub min_pages : ℕ
  pub max : Option ℕ
  pub page_size : ℕ
  pub contents : List ℕ
  pub shared : Bool
  pub is_shared_memory : Bool
  pub is_64 : Bool
  pub guard_mem : Option ℕ
  pub wait_queue : Option (List Waiter)

pub init_with_page_size : ℕ → Option ℕ → ℕ → Memory
init_with_page_size low high page = record {
  min_pages = low;
  max = high;
  page_size = page;
  contents = [];
  shared = false;
  is_shared_memory = false;
  is_64 = false;
  guard_mem = none;
  wait_queue = none;
}

pub init : ℕ → Option ℕ → Memory
unfolding init_with_page_size
init low high = init_with_page_size low high page_size_default

-- The reservation has succeeded.
pub init_guarded : ℕ → Option ℕ → Memory
unfolding init
init_guarded low high = record (init low high) { guard_mem = some 0 }

pub has_guard_pages : Memory → Bool
has_guard_pages m = elim m.guard_mem [ none ↦ false | some _ ↦ true ]

-- In pages, cut to 32 bits.
unfoldable pub size : Memory → ℕ
size m = if m.page_size == 0 then 0 else length m.contents / m.page_size % 2 ^ 32

-- Cut to 33 bits.
pub size_bytes : Memory → ℕ
size_bytes m = length m.contents % 2 ^ 33

-- `guard.zig`: TOTAL_RESERVATION - GUARD_SIZE on a 64-bit host.
abbrev pub guard_size : ℕ
guard_size = 4 * 1024 * 1024 * 1024 + 64 * 1024

abbrev pub total_reservation : ℕ
total_reservation = 8 * 1024 * 1024 * 1024 + 64 * 1024

-- Up to the next multiple of the host's page size, a power of two.
abbrev pub align_up : System → ℕ → ℕ
align_up sys n = (n + sys.host_page - 1) / sys.host_page * sys.host_page

-- `GuardedMem.grow`: the new accessible size, or none when the capacity is exceeded or the pages
-- cannot be committed.
unfoldable pub guarded_grow : System → ℕ → ℕ → Option ℕ
guarded_grow sys accessible delta =
    let new_size = accessible + delta in
    if ltb (total_reservation - guard_size) new_size
    then none
    else if ltb (align_up sys accessible) (align_up sys new_size)
    then (if sys.commit_ok (align_up sys new_size) then some new_size else none)
    else some new_size

-- The most pages that this memory may have.
unfoldable pub effective_max : Memory → ℕ
effective_max m =
    let limit = max_pages * page_size_default / m.page_size in
    elim m.max [ none ↦ limit | some high ↦ min high limit ]

-- Both ways of growing end with zeros behind the old bytes.
abbrev pub grown : Memory → ℕ → Memory
grown m new_bytes = record m { contents = m.contents ++ replicate new_bytes 0 }

-- `grow` once the limit allows it, by what backs the memory.
unfoldable pub grow_backing : System → ℕ → ℕ → Option ℕ → Memory → Result ℕ × Memory
grow_backing sys old_size new_bytes none m =
    if sys.resize_ok (length m.contents + new_bytes)
    then (ok old_size, grown m new_bytes)
    else (err out_of_memory, m)
grow_backing sys old_size new_bytes (some accessible) m =
    elim (guarded_grow sys accessible new_bytes) [
      | none ↦ (err out_of_bounds_memory_access, m)
      | some accessible' ↦
          (ok old_size, record (grown m new_bytes) { guard_mem = some accessible' })
    ]

unfoldable pub grow : System → ℕ → Memory → Result ℕ × Memory
grow sys num_pages m =
    if ltb (effective_max m) (size m + num_pages)
    then (err out_of_bounds_memory_access, m)
    else grow_backing sys (size m) (m.page_size * num_pages) m.guard_mem m

pub allocate_initial : System → Memory → Result (Unit {0}) × Memory
allocate_initial sys m =
    if ltb 0 m.min_pages
    then (let (r, m') = grow sys m.min_pages m in
        elim r [ ok _ ↦ (ok tt, m') | err e ↦ (err e, m') ])
    else (ok tt, m)

-- `Memory.copy`: from a slice outside the memory.
unfoldable pub copy : ℕ → List ℕ → Memory → Result (Unit {0}) × Memory
copy address bytes m =
    if ltb (length m.contents) (address + length bytes)
    then (err out_of_bounds_memory_access, m)
    else (ok tt, record m { contents = splice m.contents address bytes })

unfoldable pub fill : ℕ → ℕ → ℕ → Memory → Result (Unit {0}) × Memory
fill dst_address n value m =
    if ltb (length m.contents) (dst_address + n)
    then (err out_of_bounds_memory_access, m)
    else (ok tt, record m { contents = splice m.contents dst_address (replicate n value) })

-- `mem.copyForwards` and `mem.copyBackwards` on two slices of one buffer: byte by byte, from the
-- first to the last or from the last to the first, each read after the writes before it.
unfoldable pub copy_forwards : ℕ → ℕ → ℕ → List ℕ → List ℕ
copy_forwards zero dst src bytes = bytes
copy_forwards (suc n) dst src bytes =
    copy_forwards n (suc dst) (suc src) (set bytes dst (get_or bytes src 0))

unfoldable pub copy_backwards : ℕ → ℕ → ℕ → List ℕ → List ℕ
copy_backwards zero dst src bytes = bytes
copy_backwards (suc n) dst src bytes =
    copy_backwards n dst src (set bytes (dst + n) (get_or bytes (src + n) 0))

unfoldable pub copy_within : ℕ → ℕ → ℕ → Memory → Result (Unit {0}) × Memory
copy_within dst src n m =
    let len = length m.contents in
    if ltb len (dst + n) || ltb len (src + n)
    then (err out_of_bounds_memory_access, m)
    else if leb dst src
    then (ok tt, record m { contents = copy_forwards n dst src m.contents })
    else (ok tt, record m { contents = copy_backwards n dst src m.contents })

-- `@addWithOverflow` on u64, then the bounds check on the wrapped sum.
abbrev pub effective : ℕ → ℕ → ℕ
effective offset address = (offset + address) % 2 ^ 64

unfoldable pub out_of_bounds : ℕ → ℕ → ℕ → Memory → Bool
out_of_bounds width offset address m =
    let len = length m.contents in
    leb (2 ^ 64) (offset + address) || ltb len width || ltb (len - width) (effective offset address)

-- `read` and `write` of a T of `width` bytes.
unfoldable pub read : ℕ → ℕ → ℕ → Memory → Result ℕ
read width offset address m =
    if out_of_bounds width offset address m
    then err out_of_bounds_memory_access
    else ok (le_value (slice m.contents (effective offset address) width))

unfoldable pub write : ℕ → ℕ → ℕ → ℕ → Memory → Result (Unit {0}) × Memory
write width offset address value m =
    if out_of_bounds width offset address m then (err out_of_bounds_memory_access, m) else (
      ok tt,
      record m { contents = splice m.contents (effective offset address) (le_bytes width value) },
    )
