-- ===== src/Memory/Move.antt =====
-- src/memory.zig, `copyWithin`, `fill` and `copy`: what each byte is afterwards.
use zwasm.Base.{
  ℕ, zero, suc, ◌+◌, ◌-◌, ◌≤◌, ◌<◌, ◌≡◌, refl, ◌∙◌, arith, ◌&&◌, List, ltb, leb, if◌then◌else◌,
  length, get_or, set,
}
use zwasm.Base.Slices.{length-set, get_or-set}
use zwasm.Memory.{Memory, ok, copy_forwards, copy_backwards, copy_within}
use native.Mathlib.Decide.{dec_le}

-- The byte at `j` of `bytes` after `n` bytes from `src` on were moved to `dst` on, all of them
-- read before any was written.
abbrev moved : ℕ → ℕ → ℕ → List ℕ → ℕ → ℕ
moved n dst src bytes j =
    if leb dst j && ltb j (dst + n) then get_or bytes (src + (j - dst)) 0 else get_or bytes j 0

copy_forwards-moved :
    (n dst src j : ℕ) (bytes : List ℕ)
    → dst ≤ src
    → src + n ≤ length bytes
    → get_or (copy_forwards n dst src bytes) j 0 ≡ moved n dst src bytes j
unfolding copy_forwards
copy_forwards-moved zero dst src j bytes le fits = ground arith
copy_forwards-moved (suc n) dst src j bytes le fits =
    let byte : ℕ = get_or bytes src 0 in
    let next : List ℕ = set bytes dst byte in
    copy_forwards-moved n (suc dst) (suc src) j next (omega arith)
      (omega (arith, length-set bytes dst byte))
    ∙ ground (
      arith,
      get_or-set bytes dst j byte 0 (omega arith),
      get_or-set bytes dst (suc src + (j - suc dst)) byte 0 (omega arith),
    )

copy_backwards-moved :
    (n dst src j : ℕ) (bytes : List ℕ)
    → src < dst
    → dst + n ≤ length bytes
    → get_or (copy_backwards n dst src bytes) j 0 ≡ moved n dst src bytes j
unfolding copy_backwards
copy_backwards-moved zero dst src j bytes lt fits = ground arith
copy_backwards-moved (suc n) dst src j bytes lt fits =
    let byte : ℕ = get_or bytes (src + n) 0 in
    let next : List ℕ = set bytes (dst + n) byte in
    copy_backwards-moved n dst src j next lt (omega (arith, length-set bytes (dst + n) byte))
    ∙ ground (
      arith,
      get_or-set bytes (dst + n) j byte 0 (omega arith),
      get_or-set bytes (dst + n) (src + (j - dst)) byte 0 (omega arith),
    )

length-copy_forwards :
    (n dst src : ℕ) (bytes : List ℕ) → length (copy_forwards n dst src bytes) ≡ length bytes
unfolding copy_forwards
length-copy_forwards zero dst src bytes = refl
length-copy_forwards (suc n) dst src bytes =
    length-copy_forwards n (suc dst) (suc src) (set bytes dst (get_or bytes src 0))
    ∙ length-set bytes dst (get_or bytes src 0)

length-copy_backwards :
    (n dst src : ℕ) (bytes : List ℕ) → length (copy_backwards n dst src bytes) ≡ length bytes
unfolding copy_backwards
length-copy_backwards zero dst src bytes = refl
length-copy_backwards (suc n) dst src bytes =
    length-copy_backwards n dst src (set bytes (dst + n) (get_or bytes (src + n) 0))
    ∙ length-set bytes (dst + n) (get_or bytes (src + n) 0)

-- When both ranges lie in the memory, `copyWithin` succeeds, keeps the memory's length, and puts at
-- each place of the target the byte that the source held before; every other byte stays. So it is
-- right also where the ranges overlap, in either direction.
pub copy_within_lem :
    (m : Memory) (dst src n : ℕ)
    → dst + n ≤ length m.contents
    → src + n ≤ length m.contents
    → (bytes : List ℕ) × (copy_within dst src n m ≡ (ok tt, record m { contents = bytes }))
      × (length bytes ≡ length m.contents)
      × ((j : ℕ)
          → get_or bytes j 0 ≡ (
              if leb dst j && ltb j (dst + n)
              then get_or m.contents (src + (j - dst)) 0
              else get_or m.contents j 0))
unfolding copy_within
copy_within_lem m dst src n hd hs = elim (dec_le dst src) [
  | yes p ↦ (
    copy_forwards n dst src m.contents,
    ground arith,
    length-copy_forwards n dst src m.contents,
    λ j. copy_forwards-moved n dst src j m.contents p hs,
  )
  | no p ↦ (
    copy_backwards n dst src m.contents,
    ground arith,
    length-copy_backwards n dst src m.contents,
    λ j. copy_backwards-moved n dst src j m.contents (omega arith) hd,
  )
]
