-- ===== src/CApi.antt =====
-- include/zwasm.h, the C interface, and src/c_api.zig, which implements it.
-- A pointer to an object is modelled by the object: a function takes it and returns it changed.
pub mod Engine
pub mod Header
pub mod ErrorBuffer
pub mod Config
pub mod WasiConfig
pub mod Imports
pub mod Loading
pub mod Invoke
pub mod Tests
