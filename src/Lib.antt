-- ===== src/Lib.antt =====
-- picoCPU: an x86-64 emulator in user space.
--
-- A decoded instruction (src/emu/include/emu/ir.h) names a handler, and a handler changes the
-- processor (src/emu/include/emu/cpu.h) through the operand helpers of
-- src/emu/handlers/handler_util.h, which reach memory through providers. Handlers do not compute
-- the flags: they stash the operands and the first reader computes them (src/emu/cpu/flags.cpp).
-- Before a block of instructions is cached, the junk-fold pass (src/emu/ir/peephole.cpp) replaces
-- instructions without effect.
--
-- Files, and the code they model:
--   Prelude       words of 64 and fewer bits with their wrap-around, bit operations, Boolean tests
--   Error         src/emu/include/emu/error.h: `Status`
--   Cpu/Fault     src/emu/include/emu/fault.h, src/emu/cpu/fault.cpp: `Fault`, `kind_from_status`
--   Cpu/Widths, Cpu/Rflags
--                 src/emu/include/emu/cpu.h: `mask_for`, `sign_mask`, the bits of RFLAGS
--   Cpu/Parity, Cpu/Flags
--                 src/emu/cpu/flags.cpp: `parity8`, `apply_zsp`, `with_bit`, the `compute_` functions
--   Cpu/Lazy      src/emu/cpu/flags.cpp: the `stash_` functions, `sync_flags_`, the flag readers
--   Cpu/Eager     src/emu/cpu/flags.cpp: the `set_flags_*_eager` functions
--   Cpu/Cond      src/emu/cpu/cpu.cpp: `cond_holds`
--   Cpu/State     src/emu/include/emu/cpu.h, src/emu/cpu/cpu.cpp: the registers, the x87 stack, the
--                 debug registers, the CPUID table, `snapshot`, `restore`, `reset`
--   Ir            src/emu/include/emu/ir.h: `Operand`, `Insn`, `DecodedBlock`
--   Memory/Provider
--                 src/emu/include/emu/memory.h: the interface of a provider, and its contract
--   Memory/Direct, Memory/L1, Memory/L2
--                 src/emu/memory/l1_cache.cpp, l2_cache.cpp, src/emu/include/emu/cache.h: what the two
--                 direct-mapped levels share, and each of them
--   Memory/Shadow src/emu/include/emu/shadow_pages.h, src/emu/memory/shadow_pages.cpp
--   Memory/StubHeap
--                 src/emu/include/emu/stub_heap.h
--   Memory/Heap   src/emu/include/emu/heap.h, src/emu/memory/heap.cpp
--   Handlers      src/emu/handlers: handler_util.h, arithmetic.cpp, logical.cpp, shift_rotate.cpp,
--                 data_mov.cpp, control_flow.cpp, string_ops.cpp, bit_manip.cpp, bmi.cpp and the
--                 part of misc.cpp above the vector handlers
--   Decoder       src/emu/decoder/decoder.cpp, modrm.cpp, decoder_internal.h: the source of bytes, the
--                 prefixes, the ModRM and SIB operands, the immediates and the entry points
--   Dispatcher    src/emu/dispatcher/dispatcher.cpp, src/emu/include/emu/hooks.h: the run loop and the
--                 registry of hooks
--   Peephole      src/emu/ir/peephole.cpp
--   Blocks        src/emu/include/emu/block_cache.h, src/emu/cache/block_cache.cpp and
--                 src/emu/include/emu/branch_target_cache.h
--   Tests         concrete states and examples
-- The other files below these hold lemmas and theorems, each named for what it is about.
--
-- How the code is rendered. A `u64` is a number below 2 ^ 64 and its operations wrap (`add64`,
-- `sub64`, `shl64`); an `i64` is its 64-bit pattern. A member function is a function of the state;
-- a `const` function that syncs the flags is split into the synced state and the value read. A
-- handler is a chain of actions over a machine (`Handlers.Machine`), and an action without a value
-- is an early return. A read that fails gives its status with the bytes that it had stored in the
-- buffer. The provider of memory, which for the heap stands for the shadow pages, and the
-- callbacks of the hooks are parameters. Where the code has a branch for each compiler, the branch
-- for MSVC is modelled, but the bit counts of bit_manip.cpp are those of the portable branch. A
-- block that an invalidation frees while it runs is a copy in the model, which goes on.
--
-- Fuel. Four debug registers are looked at, a rotate makes at most 64 rounds, and the search for a
-- size class at most 15. The loops of the caches and of the shadow pages get as many rounds as bytes
-- are asked for, each of which serves at least one. A repeated string operation gets as many rounds
-- as RCX counts, each of which counts it down. PDEP and PEXT get 64 rounds, each of which clears a bit
-- of the mask. A run gets one turn more than `max_insns`. The scan of the prefixes gets one round more
-- than the buffer has bytes, and 16 for `decode_bytes`. A block is decoded by recursion on the number
-- of instructions that the caller allows.
--
-- Not modelled: the third memory level and the provider for tests, the tables of the opcodes, which
-- are an argument of the decoder, IDIV, whose quotient of the least number by -1 is undefined in C++,
-- the vector and x87 handlers and their 80-bit format, which rest on host intrinsics and host floating
-- point, the system calls and the dispatch of the stubs, which is an argument of the run loop, the
-- host layer and the logger. Diagnostic texts and the counters that only report are left out.
pub mod Prelude
pub mod Error
pub mod Cpu
pub mod Ir
pub mod Memory
pub mod Handlers
pub mod Peephole
pub mod Tests
pub mod Blocks
pub mod Dispatcher
pub mod Decoder
