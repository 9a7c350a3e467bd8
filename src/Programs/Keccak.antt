-- ===== src/Programs/Keccak.antt =====
-- bench/shootout-src/keccak.c: the permutation, as its statements stand there.
pub mod Lanes
pub mod Rounds
pub mod Core
pub mod Reference
pub mod Equal
pub mod Truncated
pub mod Tests
