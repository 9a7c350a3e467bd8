-- ===== src/Wasm.antt =====
-- The core instruction set: the checker of src/validate.zig and the interpreter of src/vm.zig.
pub mod Instr
pub mod Words
pub mod Validate
pub mod Vm
pub mod Sound
pub mod Safe
pub mod Tests
