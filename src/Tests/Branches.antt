-- ===== src/Tests/Branches.antt =====
-- Examples for a compare and a branch, and for a division.
use pico_cpu.Prelude.{arith, ◌≡◌, refl, inl, inr}
use pico_cpu.Cpu.Cond.{Cc}
use pico_cpu.Cpu.Widths.{mask_for}
use pico_cpu.Ir.{Insn}
use pico_cpu.Ir.OpKind
use pico_cpu.Handlers.Machine.{run}
use pico_cpu.Handlers.Logical.{op_cmp}
use pico_cpu.Handlers.ControlFlow.{op_jcc}
use pico_cpu.Handlers.CompareBranch.{op_jcc-op_cmp_below, op_jcc-op_cmp_less}
use pico_cpu.Handlers.MulDiv.{div_result}
use pico_cpu.Handlers.Division.{Divides, div_result-Divides}
use pico_cpu.Tests.{processor, machine, detached, register, target, instruction}

-- `cmp edx, ebx` with the values 2 and 3.
abbrev compare_registers : Insn
compare_registers = instruction OpKind.nop 4 Cc.none (register 2) (register 3)

abbrev branch_on : Cc → Insn
branch_on cc = instruction OpKind.jcc 8 cc (target 16) (register 0)

op_jcc-op_cmp_below_example :
    (run
      (op_jcc detached (branch_on Cc.b))
      (run (op_cmp detached compare_registers) machine)).cpu.rip
    ≡ 0x1013
unfolding mask_for
op_jcc-op_cmp_below_example =
    op_jcc-op_cmp_below detached compare_registers (branch_on Cc.b) machine (refl, refl)
      (inr (inr (inl refl))) refl

op_jcc-op_cmp_less_example :
    (run
      (op_jcc detached (branch_on Cc.l))
      (run (op_cmp detached compare_registers) machine)).cpu.rip
    ≡ 0x1013
unfolding mask_for
op_jcc-op_cmp_less_example =
    op_jcc-op_cmp_less detached compare_registers (branch_on Cc.l) machine (refl, refl)
      (inr (inr (inl refl))) refl

-- DIV of RDX:RAX by 2 ^ 41.
div_result-Divides_example :
    Divides 0x200_0000_0000 processor (div_result 8 0x200_0000_0000 processor)
div_result-Divides_example =
    div_result-Divides 0x200_0000_0000 processor (omega arith) (omega arith)
