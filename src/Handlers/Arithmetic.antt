-- ===== src/Handlers/Arithmetic.antt =====
-- src/emu/handlers/arithmetic.cpp: ADD, ADC, SUB, SBB, INC, DEC, NEG, IMUL, MUL and DIV. The
-- branches taken are those of the compiler that the build uses (`_MSC_VER`).
use pico_cpu.Prelude.{bit_and, to_bit, not64, add64, sub64}
use pico_cpu.Cpu.Widths.{mask_for}
use pico_cpu.Cpu.Lazy.{
  cf, sync_flags, stash_add, stash_adc, stash_sub, stash_sbb, stash_inc, stash_dec, stash_neg,
}
use pico_cpu.Cpu.State.{on_flags}
use pico_cpu.Ir.{Insn}
use pico_cpu.Handlers.Machine.{Attached, Action, ◌>>=◌, ◌>>◌, reads, modify}
use pico_cpu.Handlers.Operands.{read_operand, write_operand}

module _ {S : Type 0} (env : Attached S) where
  unfoldable pub op_add : Insn → Action S (Unit {0})
  op_add insn = do
    a ← read_operand env insn insn.dst insn.op_size
    b ← read_operand env insn insn.src insn.op_size
    let r = bit_and (add64 a b) (mask_for insn.op_size)
    write_operand env insn insn.dst insn.op_size r
    modify (on_flags (stash_add insn.op_size b r))

  unfoldable pub op_adc : Insn → Action S (Unit {0})
  op_adc insn = do
    a ← read_operand env insn insn.dst insn.op_size
    b ← read_operand env insn insn.src insn.op_size
    cin ← reads (λ c. cf c.flags)
    modify (on_flags sync_flags)
    let r = bit_and (add64 (add64 a b) (to_bit cin)) (mask_for insn.op_size)
    write_operand env insn insn.dst insn.op_size r
    modify (on_flags (stash_adc insn.op_size b cin r))

  unfoldable pub op_sub : Insn → Action S (Unit {0})
  op_sub insn = do
    a ← read_operand env insn insn.dst insn.op_size
    b ← read_operand env insn insn.src insn.op_size
    let r = bit_and (sub64 a b) (mask_for insn.op_size)
    write_operand env insn insn.dst insn.op_size r
    modify (on_flags (stash_sub insn.op_size b r))

  unfoldable pub op_sbb : Insn → Action S (Unit {0})
  op_sbb insn = do
    a ← read_operand env insn insn.dst insn.op_size
    b ← read_operand env insn insn.src insn.op_size
    bin ← reads (λ c. cf c.flags)
    modify (on_flags sync_flags)
    let r = bit_and (sub64 (sub64 a b) (to_bit bin)) (mask_for insn.op_size)
    write_operand env insn insn.dst insn.op_size r
    modify (on_flags (stash_sbb insn.op_size b bin r))

  unfoldable pub op_inc : Insn → Action S (Unit {0})
  op_inc insn = do
    a ← read_operand env insn insn.dst insn.op_size
    let r = bit_and (add64 a 1) (mask_for insn.op_size)
    write_operand env insn insn.dst insn.op_size r
    modify (on_flags (stash_inc insn.op_size r))

  unfoldable pub op_dec : Insn → Action S (Unit {0})
  op_dec insn = do
    a ← read_operand env insn insn.dst insn.op_size
    let r = bit_and (sub64 a 1) (mask_for insn.op_size)
    write_operand env insn insn.dst insn.op_size r
    modify (on_flags (stash_dec insn.op_size r))

  unfoldable pub op_neg : Insn → Action S (Unit {0})
  op_neg insn = do
    a ← read_operand env insn insn.dst insn.op_size
    let r = bit_and (add64 (not64 a) 1) (mask_for insn.op_size)
    write_operand env insn insn.dst insn.op_size r
    modify (on_flags (stash_neg insn.op_size a r))
