-- ===== src/Cpu/Meaning.antt =====
-- What the flags tell about the operands, after ADD, SUB and CMP, and what the conditions decide.
pub mod Reads
pub mod Compare
pub mod Sum
pub mod ZeroResult
