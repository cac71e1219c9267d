-- ===== src/Tests/Fold.antt =====
-- Examples for the junk-fold pass.
use pico_cpu.Prelude.{◌≡◌, refl, true, inr, arith}
use pico_cpu.Cpu.Cond.{Cc, cond_holds}
use pico_cpu.Ir.{Insn, Handler}
use pico_cpu.Ir.OpKind
use pico_cpu.Handlers.DataMov.{op_mov, op_nop}
use pico_cpu.Peephole.{fold_one, always_taken, is_self_mov}
use pico_cpu.Peephole.Jcc.{always_taken-zero}
use pico_cpu.Peephole.SelfMov.{fold_one-self_mov, fold_one-self_mov_32}
use pico_cpu.Cpu.Meaning.ZeroResult.{after_zero}
use pico_cpu.Tests.{pending, machine, detached, register, target, instruction}

-- `xor edx, edx; jbe +16`.
abbrev clear : Insn
clear = instruction OpKind.xor 4 Cc.none (register 2) (register 2)

abbrev branch : Insn
branch = instruction OpKind.jcc 8 Cc.be (target 16) (register 0)

always_taken-zero_example : cond_holds Cc.be (after_zero 4 pending) ≡ true
unfolding always_taken
always_taken-zero_example = always_taken-zero 4 pending Cc.be refl

-- `mov rdx, rdx` and `mov edx, edx`.
abbrev copy_64 : Insn
copy_64 = instruction OpKind.mov 8 Cc.none (register 2) (register 2)

abbrev copy_32 : Insn
copy_32 = instruction OpKind.mov 4 Cc.none (register 2) (register 2)

fold_one-self_mov_example :
    ((fold_one copy_64 0).0.handler ≡ Handler.op_nop)
    × (op_mov detached copy_64 machine ≡ op_nop detached ((fold_one copy_64 0).0) machine)
unfolding is_self_mov
fold_one-self_mov_example =
    fold_one-self_mov detached copy_64 machine 0 refl (inr (inr (inr refl))) (λ e. omega arith) refl
      (omega arith)

fold_one-self_mov_32_example :
    ((fold_one copy_32 0).0.handler ≡ Handler.op_nop)
    × ¬ (op_mov detached copy_32 machine ≡ op_nop detached ((fold_one copy_32 0).0) machine)
unfolding is_self_mov
fold_one-self_mov_32_example =
    fold_one-self_mov_32 detached copy_32 machine 0 refl refl (omega arith)
