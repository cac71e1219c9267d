-- ===== src/Prelude/Bits.antt =====
-- Laws of the bitwise operations at variables.
pub mod Step
pub mod Digits
pub mod Masks
