-- ===== src/Tests.antt =====
-- The concrete states of the tests.
pub mod Flags
pub mod Shifts
pub mod Processor
pub mod Fold
pub mod Memory
pub mod Branches
pub mod Blocks
pub mod Layers
pub mod Run
pub mod Decode
pub mod Strings
pub mod Stubs
use pico_cpu.Prelude.{ℕ, ◌+◌, [], none, false}
use pico_cpu.Error.{Status}
use pico_cpu.Cpu.Fault.{no_fault}
use pico_cpu.Cpu.Lazy.{CcOp, LazyFlags}
use pico_cpu.Cpu.Cond.{Cc}
use pico_cpu.Cpu.State.{Cpu}
use pico_cpu.Ir.{Seg, OperandKind, Operand, Insn, Handler, no_reg}
use pico_cpu.Handlers.Machine.{Machine, Attached}

-- CF is set, and a result of an earlier DEC is pending.
abbrev pub pending : LazyFlags
pending = record { rflags = 3; cc_op = CcOp.dec; cc_size = 4; cc_dst = 0; cc_src = 1; cc_src2 = 0 }

-- The general registers hold 2^40 + their index.
abbrev pub processor : Cpu
processor = record {
  gpr = λ i. 0x100_0000_0000 + i;
  dr = λ i. 0;
  zmm = λ i j. 0;
  k = λ i. 0;
  fpu_st = λ i. 0;
  fpu_cw = 0x37F;
  fpu_sw = 0;
  fpu_top = 0;
  rip = 0x1000;
  flags = pending;
  fs_base = 0;
  gs_base = 0;
  fault = no_fault;
  halted = false;
  branch_taken = false;
  cpuid_overrides = [];
}

-- A machine with no memory and no hooks.
abbrev pub machine : Machine (Unit {0})
machine = record { cpu = processor; memory = tt }

abbrev pub detached : Attached (Unit {0})
detached = record {
  mem_read = none;
  mem_write = none;
  on_read = λ _ _ m. m;
  on_write = λ _ _ _ m. m;
}

abbrev pub register : ℕ → Operand
register i = record {
  kind = OperandKind.reg;
  reg = i;
  index = no_reg;
  scale = 1;
  seg = Seg.ds;
  imm = 0;
}

abbrev pub target : ℕ → Operand
target d = record {
  kind = OperandKind.rel;
  reg = no_reg;
  index = no_reg;
  scale = 1;
  seg = Seg.ds;
  imm = d;
}

-- An instruction of three bytes.
abbrev pub instruction : ℕ → ℕ → Cc → Operand → Operand → Insn
instruction kind size cond dst src = record {
  handler = Handler.other 0;
  kind = kind;
  op_size = size;
  len = 3;
  cond = cond;
  flags = 0;
  pad = 0;
  rip = 0x1000;
  dst = dst;
  src = src;
  imm_extra = 0;
}
