-- ===== src/Programs.antt =====
-- The C programs that the repository compiles to WebAssembly and runs, as tests and as benchmarks.
pub mod Utf8
pub mod Base64
pub mod Switch
pub mod Keccak
pub mod Cipher
pub mod RateLimit
pub mod Sieve
pub mod Ackermann
