-- ===== src/Lib.antt =====
-- A verification library of zwasm, a WebAssembly runtime written in Zig with a C interface.
--
-- The program reads a binary module through a cursor of LEB128 integers (src/leb128.zig), decodes
-- and validates it (src/validate.zig), and instantiates it over a store of linear memories
-- (src/memory.zig, with guard pages of src/guard.zig), tables and globals. An interpreter
-- (src/vm.zig) and two compilers execute it. The C interface (include/zwasm.h, src/c_api.zig) wraps
-- loading, invocation and host functions for embedders; an encoder of the text format (src/wat.zig)
-- writes the integers that the cursor reads.
--
-- Files:
--   Base            lists over native numbers, bits as arithmetic, slices, tests.
--   Leb128          `Reader` and its readers. The state is the slice and the position; a reader
--                   is a function from a cursor to a result and a cursor. Signed results are
--                   two's-complement patterns. The loop runs on fuel that is the number of
--                   groups of an integer, `max_group`, which is the bound of the source's loop.
--   Leb128/Encode   `lebEncodeU32` and the like. They run on fuel of as many groups as an integer
--                   has; `none` is fuel that ends; each round takes seven bits, so it does not.
--   Memory          `Memory` and `GuardedMem.grow`: growth, bulk operations, typed access. The
--                   system (whether memory is given, the size of a host page) is a parameter.
--   Memory/Wait     the queue of waiters: notify, and a wait as two steps, entering and leaving.
--   Gc              the heap of src/gc.zig: slots, allocation, marking, sweeping, `collect`. Marking
--                   runs on fuel that is the number of slots; each round marks what it appends to
--                   the queue, so that is enough.
--   CApi/Header     the calls of the C header as data.
--   CApi/Engine     what the C interface asks of the runtime behind it, as a record without laws.
--   CApi/ErrorBuffer, Config, WasiConfig, Imports, Loading, Invoke
--                   the functions of `zwasm_*` by the object they work on. A pointer to an object
--                   is the object, passed in and returned; `none` stands for a panic or a double
--                   free where the comments say so.
--   Wasm            the core instruction set. Instr: value types and decoded instructions of
--                   src/opcode.zig. Words: the integer instructions of src/vm.zig on bit patterns.
--                   Validate: the checker of src/validate.zig, `validateFunction` and
--                   `validateOpcode` over the stacks of operands and of control frames. Vm: the
--                   operand stack of src/vm.zig and its instructions. Both are functions from a
--                   state to a value and a state, an error, or a panic (Base/Outcome), which
--                   stands for an index outside an array, a copy between different lengths, or a
--                   stack shrunk to more than it holds. Sound and Safe hold what they do together,
--                   and what the checker does alone; Vm/Rotate is about single instructions.
--   Programs        C programs that the repository compiles to WebAssembly: Utf8
--                   (test/realworld/c/utf8_validate.c), and of bench/shootout-src Base64, Switch,
--                   Keccak (`keccak_core` with its unrolled rounds, and a reference of a page) and
--                   Cipher (xchacha20.c and xblabla20.c over shared definitions), RateLimit, Sieve
--                   and Ackermann. Their loops run on the input, or on as much fuel as bytes or
--                   places, and one more; the fuel of `ackermann` is the depth of its calls.
--
-- Not modelled: the decoder and the compilers, which the record `Engine` stands for towards the C
-- interface; of the checker and the interpreter, references, calls, tables, globals, memory, floating
-- point and SIMD, and in the interpreter branches; the host's system calls; blocking and waking of
-- threads beyond the queue; failed allocation except where a definition takes the allocator's answers.
pub mod Base
pub mod Leb128
pub mod Memory
pub mod CApi
pub mod Gc
pub mod Programs
pub mod Wasm
