-- ===== src/Decoder.antt =====
-- src/emu/decoder: the bytes of an instruction, its prefixes, and its ModRM forms.
pub mod Source
pub mod Prefixes
pub mod ModRm
pub mod Entry
