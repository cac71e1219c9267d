-- ===== src/Memory/Provider.antt =====
-- src/emu/include/emu/memory.h: the interface `MemoryProvider`, over the state `S` of the layers
-- below, and the bytes that the handlers exchange with it.
pub mod Bytes
pub mod Contract
use pico_cpu.Prelude.{ℕ, List, Bool}
use pico_cpu.Error.{Status}

-- The outcome of a read: the bytes, or the status of a failure with the bytes that were stored at
-- the start of the buffer before it.
pub data ReadResult : Type 0 where
  bytes : List ℕ → ReadResult
  failed : Status → List ℕ → ReadResult

pub record Provider (S : Type 0) : Type 0 where
  pub read : ℕ → ℕ → S → ReadResult × S
  pub write : ℕ → List ℕ → S → Status × S
