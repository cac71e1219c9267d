-- ===== src/Peephole/Folded.antt =====
-- The pair `xor reg, reg; jcc` of `fold_opaque_jcc`: what the pair that the pass leaves does.
use pico_cpu.Prelude.{◌≡◌, true, ◌==◌}
use pico_cpu.Cpu.Cond.{Cc}
use pico_cpu.Ir.{OperandKind, Insn, Handler}
use pico_cpu.Ir.OpKind
use pico_cpu.Handlers.Machine.{Machine, Attached, run}
use pico_cpu.Handlers.Logical.{op_xor}
use pico_cpu.Handlers.ControlFlow.{op_jmp}

-- The decoder makes a Jcc with a relative target only.
abbrev pub IsJcc : Insn → Type 0
IsJcc b = ((b.kind == OpKind.jcc) ≡ true) × (b.dst.kind ≡ OperandKind.rel)

-- The instruction that replaces a Jcc.
abbrev jump : Insn → Insn
jump b = record b { kind = OpKind.jmp; handler = Handler.op_jmp; cond = Cc.none }

module _ {S : Type 0} (env : Attached S) where
  abbrev after : Insn → Machine S → Machine S
  after a m = run (op_xor env a) m
