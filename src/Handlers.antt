-- ===== src/Handlers.antt =====
-- The instruction handlers.
pub mod Machine
pub mod Operands
pub mod Arithmetic
pub mod MulDiv
pub mod Logical
pub mod ShiftRotate
pub mod DataMov
pub mod ControlFlow
pub mod CompareBranch
pub mod Division
pub mod StringOps
pub mod BitManip
pub mod Misc
pub mod CallReturn
pub mod Bmi
