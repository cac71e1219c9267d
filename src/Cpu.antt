-- ===== src/Cpu.antt =====
-- The processor: its state, the lazy flags and their eager reference, the conditions.
pub mod Fault
pub mod Widths
pub mod Rflags
pub mod Parity
pub mod Flags
pub mod Lazy
pub mod Cond
pub mod Eager
pub mod Agreement
pub mod Meaning
pub mod State
