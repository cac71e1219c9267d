-- ===== src/Handlers/Operands.antt =====
-- src/emu/handlers/handler_util.h: effective addresses and operands.
use pico_cpu.Prelude.{
  ℕ, bit_and, bit_or, Bool, true, false, ◌&&◌, Option, none, some, ◌==◌, nonzero, if◌then◌else◌, u8,
  u16, u32, not64, add64, mul64,
}
use pico_cpu.Error.{Status}
use pico_cpu.Cpu.Fault.{FaultKind, kind_from_status}
use pico_cpu.Cpu.Widths.{mask_for, sign_mask}
use pico_cpu.Cpu.State.{Cpu}
use pico_cpu.Cpu.State.Registers.{r8, set_r8, set_r16, set_r32, set_r64, is_high}
use pico_cpu.Cpu.State.Debug.{data_breakpoint_at}
use pico_cpu.Ir.{Seg, OperandKind, Operand, Insn, no_reg}
use pico_cpu.Memory.Provider.{Provider, ReadResult}
use pico_cpu.Memory.Provider.Bytes.{from_bytes, to_bytes}
use pico_cpu.Handlers.Machine.{Machine, Attached, Action, ◌>>=◌, ◌>>◌, pure, reads, modify, raise}

-- The address before the segment base.
abbrev pub flat : Operand → Cpu → ℕ
flat op c =
    let base = if op.reg == no_reg then 0 else add64 0 (c.gpr op.reg) in
    let indexed =
      if op.index == no_reg then base else add64 base (mul64 (c.gpr op.index) op.scale) in
    add64 indexed op.imm

abbrev pub add_segment : Seg → ℕ → Cpu → ℕ
add_segment Seg.fs addr c = add64 addr c.fs_base
add_segment Seg.gs addr c = add64 addr c.gs_base
add_segment _ addr c = addr

unfoldable pub ea : Cpu → Insn → Operand → ℕ
ea c insn op = elim (op.kind) [
  | OperandKind.rip_rel_mem ↦ add64 (add64 insn.rip insn.len) op.imm
  | _ ↦ add_segment op.seg (flat op c) c
]

-- Sign extension of an N-byte value to 64 bits, as a pattern.
unfoldable pub sign_extend : ℕ → ℕ → ℕ
sign_extend v size =
    let m = mask_for size in
    if nonzero (bit_and v (sign_mask size)) then bit_or (bit_and v m) (not64 m) else bit_and v m

unfoldable pub shift_count_mask : ℕ → ℕ
shift_count_mask size = if size == 8 then 0x3F else 0x1F

module _ {S : Type 0} (env : Attached S) where
  abbrev fire_breakpoint : ℕ → Bool → ℕ → Action S (Unit {0})
  fire_breakpoint addr is_write size s =
      let (hit, c) = data_breakpoint_at addr is_write size s.cpu in
      let s' : Machine S = record s { cpu = c } in
      if hit then raise FaultKind.breakpoint addr Status.ok s' else pure tt s'

  abbrev pub load_result : ℕ → ReadResult × S → Cpu → Option ℕ × Machine S
  load_result addr (ReadResult.bytes bs, m) c =
      (some (from_bytes 0 0 bs), record { cpu = c; memory = m })
  load_result addr (ReadResult.failed st out, m) c =
      raise FaultKind.page_fault addr st (record { cpu = c; memory = m })

  -- `mp->read(addr, size, buf)` and what follows it.
  unfoldable pub load : Provider S → ℕ → ℕ → Action S ℕ
  load mp addr size s = load_result addr (mp.read addr size s.memory) s.cpu

  abbrev pub store_result : ℕ → Status → Action S (Unit {0})
  store_result addr Status.ok = pure tt
  store_result addr st = raise (kind_from_status st) addr st

  -- `mp->write(addr, size, buf)` and what follows it.
  unfoldable pub store : Provider S → ℕ → ℕ → ℕ → Action S (Unit {0})
  store mp addr size value s =
      let (st, m) = mp.write addr (to_bytes size 0 value) s.memory in
      store_result addr st (record s { memory = m })

  -- The memory case of `read_operand`.
  unfoldable pub read_memory : Insn → Operand → ℕ → Action S ℕ
  read_memory insn op size = elim (env.mem_read) [
    | none ↦ do
      rip ← reads (λ c. c.rip)
      raise FaultKind.provider_failure rip Status.provider_failure
    | some mp ↦ do
      addr ← reads (λ c. ea c insn op)
      fire_breakpoint addr false size
      (λ s. (some tt, env.on_read addr size s))
      load mp addr size
  ]

  -- The register case.
  abbrev pub read_register : ℕ → ℕ → Cpu → ℕ
  read_register idx size c =
      if (size == 1) && is_high idx then r8 idx c else bit_and (c.gpr idx) (mask_for size)

  unfoldable pub read_kind : OperandKind → Insn → Operand → ℕ → Action S ℕ
  read_kind OperandKind.none insn op size = pure 0
  read_kind OperandKind.reg insn op size = reads (read_register op.reg size)
  read_kind OperandKind.imm insn op size = pure (bit_and op.imm (mask_for size))
  read_kind OperandKind.rel insn op size = pure op.imm
  read_kind OperandKind.mem insn op size = read_memory insn op size
  read_kind OperandKind.rip_rel_mem insn op size = read_memory insn op size
  read_kind OperandKind.xmm insn op size = λ s. (none, s)

  unfoldable pub read_operand : Insn → Operand → ℕ → Action S ℕ
  read_operand insn op size = read_kind op.kind insn op size

  unfoldable pub write_register : ℕ → ℕ → ℕ → Action S (Unit {0})
  write_register idx size value =
      if size == 1
      then modify (set_r8 idx (u8 value))
      else if size == 2
      then modify (set_r16 idx (u16 value))
      else if size == 4
      then modify (set_r32 idx (u32 value))
      else if size == 8
      then modify (set_r64 idx value)
      else do rip ← reads (λ c. c.rip); raise FaultKind.internal_error rip Status.internal

  unfoldable pub write_memory : Insn → Operand → ℕ → ℕ → Action S (Unit {0})
  write_memory insn op size value = elim (env.mem_write) [
    | none ↦ do
      addr ← reads (λ c. ea c insn op)
      raise FaultKind.provider_failure addr Status.provider_failure
    | some mp ↦ do
      addr ← reads (λ c. ea c insn op)
      fire_breakpoint addr true size
      (λ s. (some tt, env.on_write addr size value s))
      store mp addr size value
  ]

  abbrev not_writable : Action S (Unit {0})
  not_writable = do rip ← reads (λ c. c.rip); raise FaultKind.internal_error rip Status.internal

  unfoldable pub write_kind : OperandKind → Insn → Operand → ℕ → ℕ → Action S (Unit {0})
  write_kind OperandKind.reg insn op size value = write_register op.reg size value
  write_kind OperandKind.mem insn op size value = write_memory insn op size value
  write_kind OperandKind.rip_rel_mem insn op size value = write_memory insn op size value
  write_kind OperandKind.none insn op size value = not_writable
  write_kind OperandKind.imm insn op size value = not_writable
  write_kind OperandKind.rel insn op size value = not_writable
  write_kind OperandKind.xmm insn op size value = λ s. (none, s)

  unfoldable pub write_operand : Insn → Operand → ℕ → ℕ → Action S (Unit {0})
  write_operand insn op size value = write_kind op.kind insn op size value
