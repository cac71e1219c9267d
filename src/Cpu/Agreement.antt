-- ===== src/Cpu/Agreement.antt =====
-- The lazy flags against the eager reference of src/emu/cpu/flags.cpp.
pub mod Sync
pub mod Sums
pub mod Units
pub mod Shifts
