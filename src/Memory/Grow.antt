-- ===== src/Memory/Grow.antt =====
-- src/memory.zig, `grow`: when it succeeds, what it leaves, and the limit it keeps.
use zwasm.Base.{
  ℕ, ◌+◌, ◌*◌, ◌^◌, ◌≤◌, ◌<◌, ◌≡◌, ◌⊎◌, ◌↔◌, ◌∙◌, inl, inr, ap, refl, arith, true, false, Option,
  none, some, ◌++◌, length, replicate, length-append, length-replicate, ltb, lt→ltb, Bool-cases,
  Option-cases,
}
use zwasm.Memory.{
  Memory, System, Error, Result, ok, err, out_of_memory, out_of_bounds_memory_access, size,
  effective_max, grow, grow_backing, grown, guarded_grow,
}
use native.Mathlib.Decide.{dec_lt}

-- A memory that holds whole pages, at most as many as it may. `untruncated` leaves out one case
-- only: pages of one byte and no declared limit, where the limit is 2 ^ 32 pages.
pub record IsValid (m : Memory) : Type 0 where
  pub pages : ℕ
  pub page_sizes : (m.page_size ≡ 1) ⊎ (m.page_size ≡ 64 * 1024)
  pub whole : length m.contents ≡ m.page_size * pages
  pub limited : pages ≤ effective_max m
  pub untruncated : effective_max m < 2 ^ 32

pub size_lem : (m : Memory) (v : IsValid m) → size m ≡ v.pages
unfolding size
size_lem m v = elim v.page_sizes [
  | inl e ↦ ground (arith, e, v.whole, ap (λ (t : ℕ). t * v.pages) e)
  | inr e ↦ ground (arith, e, v.whole, ap (λ (t : ℕ). t * v.pages) e)
]

grown-IsValid :
    (m m' : Memory) (n : ℕ) (v : IsValid m)
    → v.pages + n ≤ effective_max m
    → m'.page_size ≡ m.page_size
    → m'.max ≡ m.max
    → m'.contents ≡ m.contents ++ replicate (m.page_size * n) 0
    → IsValid m'
unfolding effective_max
grown-IsValid m m' n v fits page limit bytes = record {
  pages = v.pages + n;
  page_sizes = rw page v.page_sizes;
  whole = rw (bytes, page, length-append, length-replicate, v.whole) (omega arith);
  limited = rw (page, limit) fits;
  untruncated = rw (page, limit) v.untruncated;
}

-- Success: the old size in pages, the old bytes with zeros behind them, a valid memory.
abbrev pub Grows : (n : ℕ) (m : Memory) → IsValid m → Result ℕ × Memory → Type 0
Grows n m v out =
    (out.0 ≡ ok v.pages)
    × (v.pages + n ≤ effective_max m)
    × (out.1.contents ≡ m.contents ++ replicate (m.page_size * n) 0)
    × IsValid out.1

-- Failure: some error, and nothing has changed.
abbrev pub Stays : Memory → Result ℕ × Memory → Type 0
Stays m out = ((e : Error) × (out.0 ≡ err e)) × (out.1 ≡ m)

module _ (sys : System) (n : ℕ) (m : Memory) (v : IsValid m) where
  backing_cases :
      (guard : Option ℕ)
      → v.pages + n ≤ effective_max m
      → Grows n m v (grow_backing sys v.pages (m.page_size * n) guard m)
        ⊎ Stays m (grow_backing sys v.pages (m.page_size * n) guard m)
  unfolding grow_backing
  backing_cases none room =
      elim (Bool-cases (sys.resize_ok (length m.contents + m.page_size * n))) [
        | inl can ↦
            rw (can, grow_backing)
              (inl (refl, room, refl, grown-IsValid m _ n v room refl refl refl))
        | inr cannot ↦ rw (cannot, grow_backing) (inr ((out_of_memory, refl), refl))
      ]
  backing_cases (some a) room = elim (Option-cases (guarded_grow sys a (m.page_size * n))) [
    | inl full ↦ rw (full, grow_backing) (inr ((out_of_bounds_memory_access, refl), refl))
    | inr (a', more) ↦
        rw (more, grow_backing) (inl (refl, room, refl, grown-IsValid m _ n v room refl refl refl))
  ]

  -- On a valid memory `grow` either returns the old number of pages, keeps the old bytes, puts
  -- zeros behind them and leaves a valid memory, or it returns an error and changes nothing.
  pub grow_cases : Grows n m v (grow sys n m) ⊎ Stays m (grow sys n m)
  unfolding grow
  grow_cases = elim (dec_lt (effective_max m) (size m + n)) [
    | yes past ↦ inr (rw (lt→ltb _ _ past) ((out_of_bounds_memory_access, refl), refl))
    | no within ↦
        let room : v.pages + n ≤ effective_max m = omega (arith, size_lem m v) in
        let test : ltb (effective_max m) (size m + n) ≡ false = ground arith in
        rw (test, size_lem m v) (backing_cases m.guard_mem room)
  ]

plain_backing :
    (sys : System) (old new_bytes : ℕ) (guard : Option ℕ) (m : Memory)
    → guard ≡ none
    → sys.resize_ok (length m.contents + new_bytes) ≡ true
    → grow_backing sys old new_bytes guard m ≡ (ok old, grown m new_bytes)
unfolding grow_backing
plain_backing sys old new_bytes none m plain can = rw (grow_backing, can) refl
plain_backing sys old new_bytes (some a) m plain can = cc

within_limit :
    (sys : System) (n : ℕ) (m : Memory)
    → size m + n ≤ effective_max m
    → m.guard_mem ≡ none
    → sys.resize_ok (length m.contents + m.page_size * n) ≡ true
    → grow sys n m ≡ (ok (size m), grown m (m.page_size * n))
unfolding grow
within_limit sys n m room plain can =
    let test : ltb (effective_max m) (size m + n) ≡ false = ground arith in
    rw test (plain_backing sys (size m) (m.page_size * n) m.guard_mem m plain can)

-- On a valid memory with no guard pages, whose buffer can be resized, `grow` succeeds exactly when
-- the pages asked for keep within the limit.
pub grow-eq-ok_iff :
    (sys : System) (n : ℕ) (m : Memory) (v : IsValid m)
    → m.guard_mem ≡ none
    → sys.resize_ok (length m.contents + m.page_size * n) ≡ true
    → (v.pages + n ≤ effective_max m) ↔ ((grow sys n m).0 ≡ ok v.pages)
unfolding grow
grow-eq-ok_iff sys n m v plain can = (
  λ room.
      ap (λ p. p.0) (within_limit sys n m (omega (arith, size_lem m v)) plain can)
      ∙ ap ok (size_lem m v),
  λ done. ground (arith, size_lem m v),
)

-- Pages of one byte with no declared limit: at 4 GiB the size is cut to 0, and `grow` goes on past
-- the limit of 2 ^ 32 pages that it means to keep, if the buffer can be resized.
pub grow_past_limit :
    (sys : System) (n : ℕ) (m : Memory)
    → m.page_size ≡ 1
    → m.max ≡ none
    → m.guard_mem ≡ none
    → length m.contents ≡ 2 ^ 32
    → n ≤ 2 ^ 32
    → sys.resize_ok (2 ^ 32 + n) ≡ true
    → ((grow sys n m).0 ≡ ok 0) × (length (grow sys n m).1.contents ≡ 2 ^ 32 + n)
unfolding size effective_max
grow_past_limit sys n m page limit plain full small can =
    let empty : size m ≡ 0 = ground arith in
    let room : effective_max m ≡ 2 ^ 32 = ground arith in
    let bytes : m.page_size * n ≡ n = rw page (omega arith) in
    let done : grow sys n m ≡ (ok (size m), grown m (m.page_size * n)) =
      within_limit sys n m (omega arith) plain (rw (full, bytes) can) in
    rw done (ap ok empty, rw (length-append, length-replicate, full, bytes) refl)
