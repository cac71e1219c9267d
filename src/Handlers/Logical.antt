-- ===== src/Handlers/Logical.antt =====
-- src/emu/handlers/logical.cpp: AND, OR, XOR, NOT, TEST and CMP.
use pico_cpu.Prelude.{bit_and, bit_or, bit_xor, not64, sub64}
use pico_cpu.Cpu.Widths.{mask_for}
use pico_cpu.Cpu.Lazy.{stash_logic, stash_sub}
use pico_cpu.Cpu.State.{on_flags}
use pico_cpu.Ir.{Insn}
use pico_cpu.Handlers.Machine.{Attached, Action, ◌>>=◌, ◌>>◌, modify, ignoring}
use pico_cpu.Handlers.Operands.{read_operand, write_operand}

module _ {S : Type 0} (env : Attached S) where
  unfoldable pub op_and : Insn → Action S (Unit {0})
  op_and insn = do
    a ← read_operand env insn insn.dst insn.op_size
    b ← read_operand env insn insn.src insn.op_size
    let r = bit_and (bit_and a b) (mask_for insn.op_size)
    write_operand env insn insn.dst insn.op_size r
    modify (on_flags (stash_logic insn.op_size r))

  unfoldable pub op_or : Insn → Action S (Unit {0})
  op_or insn = do
    a ← read_operand env insn insn.dst insn.op_size
    b ← read_operand env insn insn.src insn.op_size
    let r = bit_and (bit_or a b) (mask_for insn.op_size)
    write_operand env insn insn.dst insn.op_size r
    modify (on_flags (stash_logic insn.op_size r))

  unfoldable pub op_xor : Insn → Action S (Unit {0})
  op_xor insn = do
    a ← read_operand env insn insn.dst insn.op_size
    b ← read_operand env insn insn.src insn.op_size
    let r = bit_and (bit_xor a b) (mask_for insn.op_size)
    write_operand env insn insn.dst insn.op_size r
    modify (on_flags (stash_logic insn.op_size r))

  -- NOT leaves the flags alone.
  unfoldable pub op_not : Insn → Action S (Unit {0})
  op_not insn = do
    a ← read_operand env insn insn.dst insn.op_size
    let r = bit_and (not64 a) (mask_for insn.op_size)
    ignoring (write_operand env insn insn.dst insn.op_size r)

  unfoldable pub op_test : Insn → Action S (Unit {0})
  op_test insn = do
    a ← read_operand env insn insn.dst insn.op_size
    b ← read_operand env insn insn.src insn.op_size
    let r = bit_and (bit_and a b) (mask_for insn.op_size)
    modify (on_flags (stash_logic insn.op_size r))

  unfoldable pub op_cmp : Insn → Action S (Unit {0})
  op_cmp insn = do
    a ← read_operand env insn insn.dst insn.op_size
    b ← read_operand env insn insn.src insn.op_size
    let r = bit_and (sub64 a b) (mask_for insn.op_size)
    modify (on_flags (stash_sub insn.op_size b r))
