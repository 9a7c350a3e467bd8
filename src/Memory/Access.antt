-- ===== src/Memory/Access.antt =====
-- src/memory.zig, `read` and `write`: bounds without wrap-around, and loads after stores.
use zwasm.Base.{
  ℕ, ◌+◌, ◌^◌, ◌≤◌, ◌<◌, ◌≡◌, refl, ◌⊎◌, inl, inr, ◌∙◌, ap, sym, arith, true, false, List, ltb, leb,
  if◌then◌else◌, length, take,
}
use zwasm.Base.Slices.{
  slice, splice, le_bytes, le_value, length-le_bytes, le_value-le_bytes, length-splice,
  slice-splice, slice-splice_before, drop-splice_after,
}
use zwasm.Memory.{
  Memory, ok, err, out_of_bounds_memory_access, effective, out_of_bounds, read, write,
}
use native.Mathlib.Decide.{dec_lt}

module _ (m : Memory) (fits : length m.contents < 2 ^ 64) (width offset address : ℕ) where
  -- The wrapped sum and the overflow bit together are the test on the true sum.
  pub out_of_bounds_iff_past_end :
      out_of_bounds width offset address m ≡ ltb (length m.contents) (offset + address + width)
  unfolding out_of_bounds
  out_of_bounds_iff_past_end = ground arith

  pub effective_lem :
      offset + address + width ≤ length m.contents → effective offset address ≡ offset + address
  effective_lem h = omega arith

  -- A load of `width` bytes gives the little-endian value at offset + address when all of its
  -- bytes lie in the memory, and is refused otherwise, also where the sum passes 2 ^ 64.
  pub read_lem : read width offset address m ≡ (
      if leb (offset + address + width) (length m.contents)
      then ok (le_value (slice m.contents (offset + address) width))
      else err out_of_bounds_memory_access)
  unfolding read
  read_lem = elim (dec_lt (length m.contents) (offset + address + width)) [
    | yes p ↦
        let past : ltb (length m.contents) (offset + address + width) ≡ true = ground arith in
        let bad : leb (offset + address + width) (length m.contents) ≡ false = ground arith in
        rw (out_of_bounds_iff_past_end, past, bad) refl
    | no p ↦
        let within : ltb (length m.contents) (offset + address + width) ≡ false = ground arith in
        let good : leb (offset + address + width) (length m.contents) ≡ true = ground arith in
        rw (out_of_bounds_iff_past_end, within, good, effective_lem (omega arith)) refl
  ]

  pub write_lem :
      (value : ℕ)
      → write width offset address value m ≡ (
          if leb (offset + address + width) (length m.contents)
          then (
            ok tt,
            record m { contents = splice m.contents (offset + address) (le_bytes width value) },
          )
          else (err out_of_bounds_memory_access, m))
  unfolding write
  write_lem value = elim (dec_lt (length m.contents) (offset + address + width)) [
    | yes p ↦
        let past : ltb (length m.contents) (offset + address + width) ≡ true = ground arith in
        let bad : leb (offset + address + width) (length m.contents) ≡ false = ground arith in
        rw (out_of_bounds_iff_past_end, past, bad) refl
    | no p ↦
        let within : ltb (length m.contents) (offset + address + width) ≡ false = ground arith in
        let good : leb (offset + address + width) (length m.contents) ≡ true = ground arith in
        rw (out_of_bounds_iff_past_end, within, good, effective_lem (omega arith)) refl
  ]

written :
    (m m' : Memory) (width offset address value : ℕ)
    → length m.contents < 2 ^ 64
    → write width offset address value m ≡ (ok tt, m')
    → (offset + address + width ≤ length m.contents)
      × (m'.contents ≡ splice m.contents (offset + address) (le_bytes width value))
      × (length m'.contents ≡ length m.contents)
written m m' width offset address value fits stored = ground (
  arith,
  write_lem m fits width offset address value,
  length-splice m.contents (offset + address) (le_bytes width value),
)

-- A load gives back what a store of the same width at the same address wrote.
pub read-write :
    (m m' : Memory) (width offset address value : ℕ)
    → length m.contents < 2 ^ 64
    → value < 256 ^ width
    → write width offset address value m ≡ (ok tt, m')
    → read width offset address m' ≡ ok value
read-write m m' width offset address value fits small stored =
    let (within, bytes, same) = written m m' width offset address value fits stored in
    let at : ℕ = offset + address in
    let good : leb (at + width) (length m.contents) ≡ true = ground arith in
    let back : slice (splice m.contents at (le_bytes width value)) at width ≡ le_bytes width value =
      rw (length-le_bytes width value) at (
        slice-splice m.contents at (le_bytes width value)
          (omega (arith, length-le_bytes width value))) in
    read_lem m' (omega arith) width offset address
    ∙ rw (same, bytes, good, back, le_value-le_bytes width value small) refl

-- A store leaves every load of other bytes as it was, whatever the widths.
pub read-write_apart :
    (m m' : Memory) (width offset address value width' offset' address' : ℕ)
    → length m.contents < 2 ^ 64
    → (offset' + address' + width' ≤ offset + address)
      ⊎ (offset + address + width ≤ offset' + address')
    → write width offset address value m ≡ (ok tt, m')
    → read width' offset' address' m' ≡ read width' offset' address' m
read-write_apart m m' width offset address value width' offset' address' fits apart stored =
    let (within, bytes, same) = written m m' width offset address value fits stored in
    let bs : List ℕ = le_bytes width value in
    let unchanged : slice m'.contents (offset' + address') width'
        ≡ slice m.contents (offset' + address') width' =
      elim apart [
        | inl h ↦
            rw bytes
              (slice-splice_before m.contents (offset + address) (offset' + address') width' bs h)
        | inr h ↦ rw bytes (
            ap (take width') (
              drop-splice_after m.contents (offset + address) (offset' + address') bs
                (omega (arith, length-le_bytes width value))))
      ] in
    read_lem m' (omega arith) width' offset' address'
    ∙ rw (same, unchanged) (sym (read_lem m fits width' offset' address'))
