-- ===== src/Handlers/ControlFlow.antt =====
-- src/emu/handlers/control_flow.cpp: JMP, Jcc, CALL, LOOP, JRCXZ, RET, HLT
-- and SYSCALL.
use pico_cpu.Prelude.{
  ℕ, bit_and, Bool, true, false, ◌&&◌, ◌==◌, nonzero, if◌then◌else◌, Option, none, some, add64,
  sub64,
}
use pico_cpu.Error.{Status}
use pico_cpu.Cpu.Fault.{FaultKind, kind_from_status}
use pico_cpu.Cpu.Lazy.{sync_flags}
use pico_cpu.Cpu.Cond.{Cc, cond_holds}
use pico_cpu.Cpu.State.{on_flags, take_branch}
use pico_cpu.Cpu.State.Registers.{set_r64}
use pico_cpu.Ir.{OperandKind, Insn, rcx, rsp}
use pico_cpu.Memory.Provider.{ReadResult}
use pico_cpu.Memory.Provider.Bytes.{from_bytes}
use pico_cpu.Handlers.Machine.{Machine, Attached, Action, ◌>>=◌, ◌>>◌, pure, reads, modify, raise}
use pico_cpu.Handlers.Operands.{read_operand, store}

module _ {S : Type 0} (env : Attached S) where
  -- A failed read of an indirect target gives 0, with the fault latched.
  abbrev or_zero : Action S ℕ → Action S ℕ
  or_zero m s = (elim ((m s).0) [ none ↦ some 0 | some v ↦ some v ], (m s).1)

  abbrev bad_target : Action S ℕ
  bad_target = do
    rip ← reads (λ c. c.rip)
    raise FaultKind.invalid_opcode rip Status.invalid_instruction

  abbrev target_of : OperandKind → Insn → Action S ℕ
  target_of OperandKind.rel insn = pure (add64 (add64 insn.rip insn.len) insn.dst.imm)
  target_of OperandKind.reg insn = reads (λ c. c.gpr insn.dst.reg)
  target_of OperandKind.mem insn = or_zero (read_operand env insn insn.dst 8)
  target_of OperandKind.rip_rel_mem insn = or_zero (read_operand env insn insn.dst 8)
  target_of _ insn = or_zero bad_target

  unfoldable pub branch_target_from_operand : Insn → Action S ℕ
  branch_target_from_operand insn = target_of insn.dst.kind insn

  unfoldable pub op_jmp : Insn → Action S (Unit {0})
  op_jmp insn = do
    tgt ← branch_target_from_operand insn
    halted ← reads (λ c. c.halted)
    if halted then pure tt else modify (take_branch tgt)

  -- `insn.rip + insn.len + insn.dst.imm`.
  abbrev pub relative : Insn → ℕ
  relative insn = add64 (add64 insn.rip insn.len) insn.dst.imm

  unfoldable pub op_jcc : Insn → Action S (Unit {0})
  op_jcc insn = do
    holds ← reads (λ c. cond_holds insn.cond c.flags)
    modify (on_flags sync_flags)
    if holds then modify (take_branch (relative insn)) else pure tt

  -- `mp->write(new_rsp, 8, buf)`, with the return address.
  unfoldable pub op_call : Insn → Action S (Unit {0})
  op_call insn = do
    new_rsp ← reads (λ c. sub64 (c.gpr rsp) 8)
    elim (env.mem_write) [
      | none ↦ do
        at ← reads (λ c. c.gpr rsp)
        raise FaultKind.provider_failure at Status.provider_failure
      | some mp ↦ store env mp new_rsp 8 (add64 insn.rip insn.len)
    ]
    modify (set_r64 rsp new_rsp)
    tgt ← branch_target_from_operand insn
    modify (take_branch tgt)

  -- `insn.cond != Cc::None`.
  abbrev is_conditional : Insn → Bool
  is_conditional insn = elim (insn.cond) [ Cc.none ↦ false | _ ↦ true ]

  -- The condition is evaluated only for a count other than 0, and its evaluation syncs.
  unfoldable pub op_loop : Insn → Action S (Unit {0})
  op_loop insn = do
    new_rcx ← reads (λ c. sub64 (c.gpr rcx) 1)
    modify (set_r64 rcx new_rcx)
    let asks = nonzero new_rcx && is_conditional insn
    holds ← reads (λ c. cond_holds insn.cond c.flags)
    modify (if asks then on_flags sync_flags else λ c. c)
    let take = if asks then holds else nonzero new_rcx
    if take then modify (take_branch (relative insn)) else pure tt

  unfoldable pub op_jcxz : Insn → Action S (Unit {0})
  op_jcxz insn = do
    count ← reads (λ c. c.gpr rcx)
    if count == 0 then modify (take_branch (relative insn)) else pure tt

  unfoldable pub op_hlt : Insn → Action S (Unit {0})
  op_hlt insn = do rip ← reads (λ c. c.rip); raise FaultKind.general_protection rip Status.ok

  unfoldable pub op_syscall : Insn → Action S (Unit {0})
  op_syscall insn = do rip ← reads (λ c. c.rip); raise FaultKind.invalid_opcode rip Status.ok

  -- A pop of eight bytes. Unlike in `load`, the kind of a fault goes by the status.
  abbrev pub popped : ℕ → ReadResult × S → Machine S → Option ℕ × Machine S
  popped at (ReadResult.bytes bs, m) s = pure (from_bytes 0 0 bs) (record s { memory = m })
  popped at (ReadResult.failed st out, m) s =
      raise (kind_from_status st) at st (record s { memory = m })

  unfoldable pub pop_qword : Action S ℕ
  pop_qword = do
    at ← reads (λ c. c.gpr rsp)
    elim (env.mem_read) [
      | none ↦ raise FaultKind.provider_failure at Status.provider_failure
      | some mp ↦ λ s. popped at (mp.read at 8 s.memory) s
    ]

  -- The `imm16` of RET n.
  abbrev pub released : Insn → ℕ
  released insn = elim (insn.dst.kind) [ OperandKind.imm ↦ bit_and insn.dst.imm 0xFFFF | _ ↦ 0 ]

  unfoldable pub op_ret : Insn → Action S (Unit {0})
  op_ret insn = do
    old ← reads (λ c. c.gpr rsp)
    ret_addr ← pop_qword
    modify (set_r64 rsp (add64 (add64 old 8) (released insn)))
    modify (take_branch ret_addr)
