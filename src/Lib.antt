-- ===== src/Lib.antt =====
-- ARMx64, a dynamic binary translator from AArch64 to x86-64. The program loads an AArch64 ELF file
-- into a guest address space, and executes it block by block: the dispatcher looks the guest's
-- address up in its table of translated blocks; on a miss it lifts the words of the basic block to
-- an intermediate representation, optimizes it, emits host code, and maps this as executable.
--
-- The files:
-- - Base: lists, Boolean tests, machine words and byte strings over the native numbers.
-- - Ir (src/ir): registers, operands, instructions and blocks, with the source's constructors.
-- - Arch (src/arch): `decode`. The yaxpeax-arm crate is a parameter, from four bytes to a decoded
--   instruction; what is assumed of it are the ranges of its numbers
--   (`Lift.Valid.Operands.DecoderIsValid`).
-- - Lift (src/lift): `lift_one_at` and its parts in Lift.antt, `lift_block_at` in Lift/Blocks.antt.
--   The children take the encodings one class at a time.
-- - Meaning: the semantics of instructions and blocks after the AArch64 manual, against which the
--   program is held; it models no code.
-- - Jit (src/jit): `prepare_block`, the execution counter and the cache entry; Jit/Compiler.antt
--   has the background compiler of compiler.rs, its channels as queues and its threads as steps;
--   Jit/Optimizer.antt has optimizer.rs, with an arm of the pass's match in each `visit` function, and
--   Jit/Selection.antt has isel.rs.
-- - Codegen (src/codegen/x86_64.rs): the bytes that each method appends (Codegen/Encoding.antt), the
--   condition tables (Codegen/Conditions.antt) and `emit_block`. A method that can fail gives an
--   `Emit`: bytes, an early return, an error or a panic.
-- - Host: a specification of the x86-64 instructions that the generator uses, from their bytes: it
--   models no code. Codegen/Correct holds the emitted code to it, one method at a time.
-- - Runtime (src/runtime): GuestState, GuestMemory over the host's memory with `mmap` a parameter,
--   and Dispatcher, whose executable mapping and execution of code are parameters;
--   Runtime/Dispatch/Hosted.antt has the host of `Host` for the latter.
-- - Elf (src/elf.rs): `load` and `load_bytes`, with the object crate's parser and the file system as
--   parameters.
-- - Main (src/main.rs): `try_main` and its loop, with the parameters of the loader and the dispatcher.
-- - Tests: runs at concrete inputs.
--
-- Numbers are natural numbers; where the source has a machine integer that can overflow, the
-- reduction is written out. Additions of guest addresses in the lifter and in `emit_block`, and the
-- shift of an immediate by 64 bits or more, are taken as in a release build, where they wrap. A
-- panic is `none`. Loops are recursion on the list that they go over; `Dispatcher::run` is recursion
-- on its own bound `max_blocks`, so no fuel is chosen. `Host.Execution.run_code` takes a number of
-- instructions, which the theorems on emitted code give.
--
-- Not modelled: the printed lines of main.rs, the mapping of code by memmap2, `Display` of errors, and
-- src/bin/smoke.rs, which tests the library. That a lifted and prepared block is one that the code
-- generator is meant for (`Codegen.Correct.Fits`) is a hypothesis: it does not hold of every block.
pub mod Base
pub mod Ir
pub mod Arch
pub mod Lift
pub mod Runtime
pub mod Meaning
pub mod Jit
pub mod Codegen
pub mod Host
pub mod Elf
pub mod Main
pub mod Tests
