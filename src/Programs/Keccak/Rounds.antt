-- ===== src/Programs/Keccak/Rounds.antt =====
-- bench/shootout-src/keccak.c: the twenty-four rounds of `keccak_core`, two to a file.
pub mod First
pub mod Second
pub mod Third
pub mod Fourth
pub mod Fifth
pub mod Sixth
pub mod Seventh
pub mod Eighth
pub mod Ninth
pub mod Tenth
pub mod Eleventh
pub mod Twelfth
