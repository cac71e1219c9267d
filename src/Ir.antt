-- ===== src/Ir.antt =====
-- src/emu/include/emu/ir.h: decoded instructions.
pub mod OpKind
use pico_cpu.Prelude.{ℕ, List}
use pico_cpu.Cpu.Cond.{Cc}

pub data Seg : Type 0 where
  ds cs ss es fs gs : Seg

pub data OperandKind : Type 0 where
  none reg imm mem rip_rel_mem rel xmm : OperandKind

-- `reg::NONE`.
abbrev pub no_reg : ℕ
no_reg = 0xFF

abbrev pub rax : ℕ
rax = 0

abbrev pub rcx : ℕ
rcx = 1

abbrev pub rdx : ℕ
rdx = 2

abbrev pub rbx : ℕ
rbx = 3

abbrev pub rsp : ℕ
rsp = 4

abbrev pub rsi : ℕ
rsi = 6

abbrev pub rdi : ℕ
rdi = 7

-- `imm` is the 64-bit pattern of the `i64`.
pub record Operand : Type 0 where
  pub kind : OperandKind
  pub reg : ℕ
  pub index : ℕ
  pub scale : ℕ
  pub seg : Seg
  pub imm : ℕ

-- The handlers that passes bind or tests name; `other` stands for any other function pointer.
pub data Handler : Type 0 where
  op_nop op_jmp : Handler
  other : ℕ → Handler

pub record Insn : Type 0 where
  pub handler : Handler
  pub kind : ℕ
  pub op_size : ℕ
  pub len : ℕ
  pub cond : Cc
  pub flags : ℕ
  pub pad : ℕ
  pub rip : ℕ
  pub dst : Operand
  pub src : Operand
  pub imm_extra : ℕ

pub record DecodedBlock : Type 0 where
  pub pc : ℕ
  pub byte_size : ℕ
  pub insns : List Insn
