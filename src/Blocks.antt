-- ===== src/Blocks.antt =====
-- The decoded blocks: their cache, their decoding and the prediction of branches.
pub mod Cache
pub mod Decode
pub mod Targets
