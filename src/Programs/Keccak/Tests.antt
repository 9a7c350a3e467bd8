-- ===== src/Programs/Keccak/Tests.antt =====
-- The permutation at the state that `main` begins with, and the theorems there.
use zwasm.Base.{ℕ, ◌≡◌, List, set, replicate, All}
use zwasm.Programs.Keccak.Core.{load, store, keccak_core}
use zwasm.Programs.Keccak.Reference.{keccak_from}
use zwasm.Programs.Keccak.Equal.{keccak_core_lem}
use zwasm.Programs.Keccak.Truncated.{IsShort, keccak_core-IsShort}

abbrev zeros : List ℕ
zeros = replicate 25 0

keccak_core_lem_example : keccak_core zeros ≡ store (keccak_from 24 0 (load zeros))
keccak_core_lem_example = keccak_core_lem zeros

keccak_core-IsShort_example : All IsShort (set (set (keccak_core zeros) 0 0) 3 0)
keccak_core-IsShort_example = keccak_core-IsShort zeros
